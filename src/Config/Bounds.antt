-- ===== src/Config/Bounds.antt =====
-- parser/parser_ini.cpp, `init`: what an accepted configuration satisfies.
use license_checker.Config.{
  Parser, PropTree, Options, value_of, get_value, get_number, read_entries, read_options,
  create_root, open_root, store_root, set_options, init_body, init, make_config_file_path,
  check_range, skip_bom,
}
use license_checker.Tools.{split_file_name}
use license_checker.Platform.{Platform}
use license_checker.Prelude.{
  ℕ, ℤ, pos, negsuc, lift, if◌then◌else◌, ◌∷◌, Text, atoi, c_str, is_empty, pos_part, ◌≡◌, ◌≢◌, ◌<◌,
  ◌≤◌, ◌⊎◌, inl, inr, refl, Bool, true, false, Option, none, some, Outcome, ok, throws, fault,
  Action, continue, catch, ◌>>=◌, pure, arith, [],
}

-- `m` reads the parser and leaves it alone; its result satisfies `Q`, unless it throws.
abbrev Post : {A : Type 0} → (A → Type 0) → Outcome A → Type 0
Post Q (ok a) = Q a
Post Q (throws e) = Unit
Post Q fault = ⊥

record Reads {A : Type 0} (Q : A → Type 0) (p : Parser) (m : Action Parser A) : Type 0 where
  same : (m p).1 ≡ p
  post : Post Q (m p).0

module _ {A B : Type 0} {Q : A → Type 0} {R : B → Type 0} {p : Parser} where
  Reads-continue :
      (r : Outcome A) (q : Parser) (f : A → Action Parser B)
      → q ≡ p
      → Post Q r
      → ((a : A) → Q a → Reads R p (f a))
      → (continue f r q).1 ≡ p × Post R (continue f r q).0
  Reads-continue (ok a) q f e post k = rw e ((k a post).same, (k a post).post)
  Reads-continue (throws x) q f e post k = (e, tt)
  Reads-continue fault q f e post k = absurd post

  Reads-bind :
      (m : Action Parser A) (f : A → Action Parser B)
      → Reads Q p m
      → ((a : A) → Q a → Reads R p (f a))
      → Reads R p (m >>= f)
  Reads-bind m f h k =
      let (e, post) = Reads-continue (m p).0 (m p).1 f h.same h.post k in
      record { same = e; post = post }

-- a value of the file, which is not empty; or the text that an empty tree has for every key
IsEntry : Bool → Text → Type 0
IsEntry bare v = ((bare ≡ false) × (is_empty v ≡ false)) ⊎ ((bare ≡ true) × (v ≡ []))

pub record InRange (top : ℕ) (n : ℤ) : Type 0 where
  pub positive : 0 < pos_part n
  pub at_most : pos_part n ≤ top

IsEntry-Post :
    (bare : Bool) (file key : Text) (o : Option Text)
    → Post (IsEntry bare) (if bare then ok [] else value_of file key o)
unfolding value_of IsEntry
IsEntry-Post true file key o = inr (refl, refl)
IsEntry-Post false file key none = tt
IsEntry-Post false file key (some []) = tt
IsEntry-Post false file key (some (c ∷ v)) = inl (refl, refl)

get_value-Reads : (p : Parser) (key : Text) → Reads (IsEntry p.root.is_bare) p (get_value key)
unfolding get_value
get_value-Reads p key = record {
  same = refl;
  post = IsEntry-Post p.root.is_bare p.file_name key (p.root.value key);
}

-- what passes the range test, and so is no default of an empty tree
IsNumber : ℕ → Parser → ℤ → Type 0
IsNumber top p n = InRange top n × (p.root.is_bare ≡ false)

Post-mono :
    {A : Type 0} {P Q : Type 0} (f : P → Q) (r : Outcome A) → Post (λ _. P) r → Post (λ _. Q) r
Post-mono f (ok a) h = f h
Post-mono f (throws e) h = tt
Post-mono f fault h = h

lift-Reads :
    {A : Type 0} (Q : A → Type 0) (p : Parser) (r : Outcome A) → Post Q r → Reads Q p (lift r)
lift-Reads Q p r h = record { same = refl; post = h }

check_range-Post :
    (top : ℕ) (message : Text → Text → Text) (key text : Text) (n : ℤ)
    → Post (λ _. InRange top n) (check_range top message key text n)
unfolding check_range
check_range-Post top message key text (pos n) = ground arith
check_range-Post top message key text (negsuc n) = ground arith

-- The number of an empty tree is 0, which no range takes.
read-IsNumber-Reads :
    (p : Parser) (top : ℕ) (message : Text → Text → Text) (key text : Text)
    → IsEntry p.root.is_bare text
    → Reads
        (λ _. IsNumber top p (atoi (c_str text)))
        p
        (lift (check_range top message key text (atoi (c_str text))))
unfolding IsEntry IsNumber check_range atoi c_str
read-IsNumber-Reads p top message key text (inl (full, filled)) = lift-Reads _ p _ (
    Post-mono {A = Unit {0}} {P = InRange top (atoi (c_str text))}
      {Q = IsNumber top p (atoi (c_str text))} (λ r. (r, full)) _
      (check_range-Post top message key text (atoi (c_str text))))
read-IsNumber-Reads p top message key text (inr (bare, e)) = lift-Reads _ p _ (rw e tt)

get_number-Reads :
    (p : Parser) (top : ℕ) (message : Text → Text → Text) (key : Text)
    → Reads (IsNumber top p) p (get_number top message key)
unfolding get_number
get_number-Reads p top message key = Reads-bind _ _ (get_value-Reads p key) λ text e.
    Reads-bind _ _ (read-IsNumber-Reads p top message key text e)
      λ _ h. record { same = refl; post = h }

-- A configuration that the agent runs with: ten of the texts that it has are not empty, the two days
-- lie within a month, the delays within an hour and within a day. The name of the license file, which
-- is empty where its path ends in a slash, and the two paths of the parser are not among the ten.
pub record IsAccepted (o : Options) : Type 0 where
  pub unp_given : is_empty o.unp ≡ false
  pub prod_given : is_empty o.prod ≡ false
  pub agent_given : is_empty o.agent_id ≡ false
  pub app_given : is_empty o.lic_app ≡ false
  pub file_given : is_empty o.lic_file ≡ false
  pub cmd_given : is_empty o.make_uid_cmd ≡ false
  pub uid_given : is_empty o.uid_file_name ≡ false
  pub uri_given : is_empty o.license_manager_uri ≡ false
  pub kill_given : is_empty o.kill_file_name ≡ false
  pub openvpn_given : is_empty o.openvpn_file_path ≡ false
  pub update_day : InRange 31 o.day_license_update
  pub check_day : InRange 31 o.day_license_check
  pub retry_mins : InRange 60 o.next_try_get_license_mins
  pub wait_hours : InRange 24 o.next_day_waiting_hours
  pub name_split : o.lic_file_name ≡ split_file_name o.lic_file

given : {bare : Bool} (v : Text) → IsEntry bare v → bare ≡ false → is_empty v ≡ false
unfolding IsEntry
given v (inl (full, filled)) e = filled
given v (inr (empty, x)) e = cc

pure-Reads : {A : Type 0} (Q : A → Type 0) (p : Parser) (a : A) → Q a → Reads Q p (pure a)
pure-Reads Q p a h = record { same = refl; post = h }

read_entries-Reads :
    (p : Parser) (service file logs : Text) → Reads IsAccepted p (read_entries service file logs)
unfolding read_entries IsNumber
read_entries-Reads p service file logs = Reads-bind _ _ (entry _) λ unp h_unp.
    Reads-bind _ _ (entry _) λ prod h_prod. Reads-bind _ _ (entry _) λ agent h_agent.
      Reads-bind _ _ (entry _) λ app h_app. Reads-bind _ _ (entry _) λ lic h_lic.
        Reads-bind _ _ (entry _) λ uid_cmd h_uid_cmd.
          Reads-bind _ _ (entry _) λ uid_file h_uid_file. Reads-bind _ _ (entry _) λ uri h_uri.
            Reads-bind _ _ (get_number-Reads p _ _ _) λ update r_update.
              Reads-bind _ _ (get_number-Reads p _ _ _) λ check r_check.
                Reads-bind _ _ (get_number-Reads p _ _ _) λ mins r_mins.
                  Reads-bind _ _ (get_number-Reads p _ _ _) λ hours r_hours.
                    Reads-bind _ _ (entry _) λ kill h_kill.
                      Reads-bind _ _ (entry _) λ openvpn h_openvpn.
                        let full = r_update.1 in
                        pure-Reads IsAccepted p _ (record {
                          unp_given = given unp h_unp full;
                          prod_given = given prod h_prod full;
                          agent_given = given agent h_agent full;
                          app_given = given app h_app full;
                          file_given = given lic h_lic full;
                          cmd_given = given uid_cmd h_uid_cmd full;
                          uid_given = given uid_file h_uid_file full;
                          uri_given = given uri h_uri full;
                          kill_given = given kill h_kill full;
                          openvpn_given = given openvpn h_openvpn full;
                          update_day = r_update.0;
                          check_day = r_check.0;
                          retry_mins = r_mins.0;
                          wait_hours = r_hours.0;
                          name_split = refl;
                        })
  where
    entry : (key : Text) → Reads (IsEntry p.root.is_bare) p (get_value key)
    entry key = get_value-Reads p key

read_options-Reads : (p : Parser) → Reads IsAccepted p read_options
unfolding read_options
read_options-Reads p =
    let h = read_entries-Reads p p.service_path p.file_name p.log_file_path in
    record { same = h.same; post = h.post }

-- The result 0 of `init` means a newly accepted configuration, -1 that the old one stays.
abbrev pub Initializes : Option Options → Outcome ℤ → Option Options → Type 0
Initializes old r new =
    ((o : Options) × (r ≡ ok (pos 0)) × (new ≡ some o) × IsAccepted o)
    ⊎ ((r ≡ ok (negsuc 0)) × (new ≡ old))

-- the same of an outcome that `catch` has yet to turn into a result
abbrev Settles : Option Options → Outcome ℤ × Parser → Type 0
Settles old x = let y = catch (λ q. x) (λ e. pure (negsuc 0)) x.1 in Initializes old y.0 y.1.options

set_options-Settles :
    (old : Option Options) (r : Outcome Options) (q : Parser)
    → q.options ≡ old
    → Post IsAccepted r
    → Settles old (continue set_options r q)
unfolding set_options
set_options-Settles old (ok o) q e accepted = inl (o, refl, refl, accepted)
set_options-Settles old (throws x) q e accepted = inr (refl, e)
set_options-Settles old fault q e accepted = absurd accepted

read_options-Settles :
    (old : Option Options) (r : Outcome (Unit {0})) (q : Parser)
    → q.options ≡ old
    → r ≢ fault
    → Settles old (continue (λ _. read_options >>= set_options) r q)
read_options-Settles old (ok u) q e h =
    let read = read_options-Reads q in
    set_options-Settles old (read_options q).0 (read_options q).1 (rw read.same e) read.post
read_options-Settles old (throws x) q e h = inr (refl, e)
read_options-Settles old fault q e h = absurd (h refl)

module _ {D J : Type 0} (os : Platform D J) (read_ini : Text → Outcome PropTree) where
  store_root_keeps :
      (r : Outcome PropTree) (p : Parser)
      → r ≢ fault
      → ((store_root r p).1.options ≡ p.options) × ((store_root r p).0 ≢ fault)
  unfolding store_root
  store_root_keeps (ok t) p h = (refl, λ e. cc)
  store_root_keeps (throws x) p h = (refl, λ e. cc)
  store_root_keeps fault p h = absurd (h refl)

  module _ (no_fault : (s : Text) → read_ini s ≢ fault) (disk : D) where
    open_root_keeps :
        (name : Text) (content : Option Text) (p : Parser)
        → ((open_root os read_ini disk name content p).1.options ≡ p.options)
          × ((open_root os read_ini disk name content p).0 ≢ fault)
    unfolding open_root
    open_root_keeps name none p = (refl, λ e. cc)
    open_root_keeps name (some text) p =
        store_root_keeps (read_ini (skip_bom text)) p (no_fault (skip_bom text))

    -- If the INI reader returns or throws, `init` returns 0 and has set options whose days, minutes and
    -- hours are in range, whose ten texts that are entries of the file are not empty, and whose name of
    -- the license file, which may be empty, is the end of its path, or it returns -1 and the options are as they were.
    pub init-Initializes :
        (p : Parser)
        → Initializes p.options (init os read_ini disk p).0 (init os read_ini disk p).1.options
    unfolding init init_body create_root
    init-Initializes p =
        let name = make_config_file_path p in
        let kept = open_root_keeps name (os.read_file disk name) p in
        let (r, q) = open_root os read_ini disk name (os.read_file disk name) p in
        read_options-Settles p.options r q kept.0 kept.1
