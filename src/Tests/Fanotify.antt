-- ===== src/Tests/Fanotify.antt =====
-- The theorems on the program that watches by fanotify, at a machine whose state is its open descriptors.
use license_checker.Fanotify.Descriptors.{IsKernel, names, delivers, watch-open}
use license_checker.Fanotify.Marks.Exit.{is_defined, is_nil, is_safe, shutdown_fanotify-start}
use license_checker.Fanotify.{Kernel, Event, Round, Process, watch}
use license_checker.Fanotify.Marks.{start, shutdown_fanotify}
use license_checker.Prelude.{
  ℕ, ℤ, pos, negsuc, codes, ◌==◌, Bool, true, false, not, ◌&&◌, ◌||◌, none, some, List, [], ◌∷◌,
  ◌≡◌, arith, if◌then◌else◌,
}

abbrev is_listed : List ℕ → ℕ → Bool
is_listed [] j = false
is_listed (i ∷ ids) j = i == j || is_listed ids j

abbrev remove : ℕ → List ℕ → List ℕ
remove n [] = []
remove n (i ∷ ids) = let rest = remove n ids in if i == n then rest else i ∷ rest

abbrev close_one : List ℕ → ℤ → List ℕ
close_one ids (pos n) = remove n ids
close_one ids (negsuc n) = ids

-- Files do not open, and the second mark fails.
abbrev kernel : Kernel (List ℕ)
kernel = record {
  open_file = λ ids path. (negsuc 0, ids);
  read_file = λ ids fd n. (none, ids);
  read_link = λ ids path. some (codes "/tmp/a");
  close_file = close_one;
  fanotify_init = λ ids. (pos 3, 3 ∷ ids);
  add_mark = λ ids fd path. (is_listed ids 4, 4 ∷ ids);
  remove_mark = λ ids fd path. ids;
}

is_listed-remove :
    (n : ℕ) (ids : List ℕ) (j : ℕ) → is_listed (remove n ids) j ≡ (is_listed ids j && not (n == j))
is_listed-remove n [] j = ground arith
is_listed-remove n (i ∷ ids) j = ground (arith, is_listed-remove n ids j)

is_listed-close_one :
    (ids : List ℕ) (fd : ℤ) (j : ℕ)
    → is_listed (close_one ids fd) j ≡ (is_listed ids j && not (names fd j))
unfolding names
is_listed-close_one ids (pos n) j = is_listed-remove n ids j
is_listed-close_one ids (negsuc n) j = ground arith

kernel-IsKernel : IsKernel kernel is_listed
unfolding names
kernel-IsKernel = record {
  opened = λ ids path j. ground arith;
  unused = λ ids path j e. ground (arith, e);
  read = λ ids fd n j. ground arith;
  closed = is_listed-close_one;
}

abbrev event : Event
event = record {
  fd = pos 7;
  pid = 1;
  is_open = true;
  is_access = false;
  is_modify = false;
  is_close_write = false;
  is_close_nowrite = false;
  is_open_exec = false;
}

abbrev rounds : List Round
rounds = record { is_polled = true; events = event ∷ [] } ∷ []

abbrev process : Process (List ℕ)
process = record { disk = 3 ∷ 7 ∷ []; lines = [] }

watch-open_example :
    is_listed (watch kernel rounds process).1.disk 7
    ≡ (is_listed process.disk 7 && not (delivers rounds 7))
watch-open_example = watch-open kernel is_listed kernel-IsKernel rounds process 7

shutdown_fanotify-start_example :
    is_defined (shutdown_fanotify kernel (start kernel (codes "/a" ∷ codes "/b" ∷ []) []).1 []) ≡ (
      is_nil (codes "/a" ∷ codes "/b" ∷ [])
      || is_safe kernel (codes "/a" ∷ codes "/b" ∷ []) (pos 3, 3 ∷ []))
shutdown_fanotify-start_example =
    shutdown_fanotify-start kernel (codes "/a" ∷ codes "/b" ∷ []) [] []
