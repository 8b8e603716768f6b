-- ===== src/Windows/Changes.antt =====
-- nt_service/config_change.cpp, `processing`: the walk along the changes that the system reports.
use license_checker.Prelude.{
  ℕ, zero, suc, Text, c_str, text_eq, length, drop, ltb, leb, ◌==◌, ◌+◌, ◌*◌, ◌/◌, ◌%◌, ◌<◌, ◌≤◌,
  ◌++◌, All, Bool, true, false, some, List, [], ◌∷◌, ok, ◌≡◌, refl, ap, sym, ◌∙◌, arith,
  if◌then◌else◌,
}
use license_checker.Windows.{read_entry, copy_name, max_path, compare_name, look, processing}

-- a change as the system reports it: the name as characters of two bytes, and the bytes that align
-- what follows
pub record Change : Type 0 where
  pub action : ℕ
  pub name : Text
  pub padding : Text

unfoldable pub print_word : ℕ → Text → Text
print_word n t = (n % 256) ∷ (n / 256 % 256) ∷ (n / 65536 % 256) ∷ (n / 16777216) ∷ t

unfoldable pub print_name : Text → Text → Text
print_name [] t = t
print_name (c ∷ s) t = (c % 256) ∷ (c / 256) ∷ print_name s t

abbrev pub size_of : Change → ℕ
size_of c = 12 + (2 * length c.name + length c.padding)

unfoldable pub print_change : ℕ → Change → Text → Text
unfolding print_word print_name
print_change next c t =
    print_word next
      (print_word c.action (print_word (2 * length c.name) (print_name c.name (c.padding ++ t))))

-- The last change has the offset 0; `t` is what the buffer holds after it.
unfoldable pub print_changes : Change → List Change → Text → Text
unfolding print_change
print_changes c [] t = print_change 0 c t
print_changes c (d ∷ cs) t = print_change (size_of c) c (print_changes d cs t)

unfoldable pub size_of_all : Change → List Change → ℕ
size_of_all c [] = size_of c
size_of_all c (d ∷ cs) = size_of c + size_of_all d cs

-- whether the file is among the changes
unfoldable pub is_changed : Text → Change → List Change → Bool
is_changed file c [] = text_eq c.name (c_str file)
is_changed file c (d ∷ cs) =
    let rest = is_changed file d cs in if text_eq c.name (c_str file) then true else rest

-- a change with an action that there is, and a name that fits into the array
pub record IsChange (c : Change) : Type 0 where
  pub is_action : c.action ≤ 5
  pub is_short : length c.name < max_path
  pub is_name : All (λ x. (0 < x) × (x < 65536)) c.name

word-print :
    (n : ℕ)
    → n < 4294967296
    → n % 256 + 256 * (n / 256 % 256) + 65536 * (n / 65536 % 256) + 16777216 * (n / 16777216) ≡ n
word-print n h = omega arith

copy_name-print :
    (s t : Text)
    → All (λ x. (0 < x) × (x < 65536)) s
    → copy_name (length s) (print_name s t) ≡ some s
unfolding copy_name print_name
copy_name-print [] t h = refl
copy_name-print (c ∷ s) t ((low, high), hs) =
    let e = copy_name-print s t hs in
    let same : c % 256 + 256 * (c / 256) ≡ c = omega arith in rw (same, e) (ground (arith, low))

read_entry-print :
    (next : ℕ) (c : Change) (t : Text)
    → next < 4294967296
    → IsChange c
    → read_entry (print_change next c t)
      ≡ some (record {
        next_entry_offset = next;
        action = c.action;
        file_name_length = 2 * length c.name;
        rest = print_name c.name (c.padding ++ t);
      })
unfolding read_entry print_change print_word
read_entry-print next c t small h =
    let short = h.is_short in
    let acts = h.is_action in
    rw
      (
        word-print next small,
        word-print c.action (omega arith),
        word-print (2 * length c.name) (omega arith),
      )
      refl

drop_word : (m n : ℕ) (t : Text) → drop (4 + m) (print_word n t) ≡ drop m t
unfolding drop print_word
drop_word m n t = let e : 4 + m ≡ suc (suc (suc (suc m))) = omega arith in rw e refl

drop_name : (s t : Text) (m : ℕ) → drop (2 * length s + m) (print_name s t) ≡ drop m t
unfolding drop print_name
drop_name [] t m = let e : 2 * 0 + m ≡ m = omega arith in rw e refl
drop_name (c ∷ s) t m =
    let e : 2 * suc (length s) + m ≡ suc (suc (2 * length s + m)) = omega arith in
    rw e (drop_name s t m)

drop-append : (s t : Text) → drop (length s) (s ++ t) ≡ t
unfolding drop
drop-append [] t = refl
drop-append (c ∷ s) t = drop-append s t

drop_add : (a b : ℕ) (s : Text) → drop (a + b) s ≡ drop b (drop a s)
unfolding drop
drop_add zero b s = let e : 0 + b ≡ b = omega arith in rw e refl
drop_add (suc a) b [] = let e : suc a + b ≡ suc (a + b) = omega arith in rw e (sym (drop_nil b))
  where
    drop_nil : (b : ℕ) → drop b [] ≡ []
    drop_nil zero = refl
    drop_nil (suc b) = refl
drop_add (suc a) b (c ∷ s) = let e : suc a + b ≡ suc (a + b) = omega arith in rw e (drop_add a b s)

drop_change : (next : ℕ) (c : Change) (t : Text) → drop (size_of c) (print_change next c t) ≡ t
unfolding print_change
drop_change next c t =
    let n = 2 * length c.name in
    let k = length c.padding in
    let e : 12 + (n + k) ≡ 4 + (4 + (4 + (n + k))) = omega arith in
    ap (λ m. drop m (print_change next c t)) e
    ∙ drop_word _ next _
    ∙ drop_word _ c.action _
    ∙ drop_word _ n _
    ∙ drop_name c.name _ k
    ∙ drop-append c.padding t

module _ (file_name buffer : Text) (size : ℕ) where
  -- one round of the walk, at a change
  processing_step :
      (fuel seek next : ℕ) (c : Change) (t : Text)
      → drop seek buffer ≡ print_change next c t
      → seek < size
      → next < 4294967296
      → IsChange c
      → processing file_name (suc fuel) buffer size seek ≡ (
          if text_eq c.name (c_str file_name)
          then some (ok true)
          else if next == 0
          then some (ok false)
          else processing file_name fuel buffer size ((seek + next) % 4294967296))
  unfolding processing look compare_name
  processing_step fuel seek next c t at_change inside small h =
      let acts = h.is_action in
      let short = h.is_short in
      let in_buffer : ltb seek size ≡ true = ground (arith, inside) in
      let is_known : ltb 5 c.action ≡ false = ground (arith, acts) in
      let half : 2 * length c.name / 2 ≡ length c.name = omega arith in
      let fits : leb max_path (length c.name) ≡ false = ground (arith, short) in
      rw
        (
          in_buffer,
          at_change,
          read_entry-print next c t small h,
          is_known,
          half,
          copy_name-print c.name (c.padding ++ t) h.is_name,
          fits,
        )
        refl

  walk :
      (fuel seek : ℕ) (c : Change) (cs : List Change) (t : Text)
      → size < 4294967296
      → drop seek buffer ≡ print_changes c cs t
      → IsChange c
      → All IsChange cs
      → seek + size_of_all c cs ≤ size
      → length cs < fuel
      → processing file_name fuel buffer size seek ≡ some (ok (is_changed file_name c cs))
  unfolding print_changes size_of_all is_changed
  walk zero seek c cs t word at_change h hs inside enough = ground (arith, enough)
  walk (suc fuel) seek c [] t word at_change h hs inside enough =
      processing_step fuel seek 0 c t at_change (omega arith) (omega arith) h ∙ ground arith
  walk (suc fuel) seek c (d ∷ cs) t word at_change h (k, hs) inside enough =
      let next : drop (seek + size_of c) buffer ≡ print_changes d cs t =
        drop_add seek (size_of c) buffer
        ∙ ap (drop (size_of c)) at_change
        ∙ drop_change (size_of c) c (print_changes d cs t) in
      let same : (seek + size_of c) % 4294967296 ≡ seek + size_of c = omega arith in
      let goes_on : (size_of c == 0) ≡ false = ground arith in
      processing_step fuel seek (size_of c) c (print_changes d cs t) at_change (omega arith)
        (omega arith) h
      ∙ rw
          (
            goes_on,
            same,
            walk fuel (seek + size_of c) d cs t word next k hs (omega arith) (omega arith),
          )
          (ground arith)

drop-zero : (s : Text) → drop 0 s ≡ s
unfolding drop
drop-zero s = refl

-- On a buffer that starts with well-formed changes, whose bytes it holds and whose size is a DWORD,
-- the walk finds the file exactly if it is among the changes, with one unit of fuel for each change;
-- it neither reads past the end of the buffer nor writes past the end of the array.
pub processing-is_changed :
    (file_name t : Text) (size fuel : ℕ) (c : Change) (cs : List Change)
    → IsChange c
    → All IsChange cs
    → size_of_all c cs ≤ size
    → size < 4294967296
    → length cs < fuel
    → processing file_name fuel (print_changes c cs t) size 0
      ≡ some (ok (is_changed file_name c cs))
processing-is_changed file_name t size fuel c cs h hs inside word enough =
    walk file_name (print_changes c cs t) size fuel 0 c cs t word (drop-zero _) h hs (omega arith)
      enough
