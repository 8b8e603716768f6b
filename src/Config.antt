-- ===== src/Config.antt =====
-- parser/parser_ini.cpp and parser/parser_ini.h: the configuration of the agent. The INI reader and
-- the property tree are boost's: `read_ini` and the tree's lookups are parameters.
pub mod Bounds
pub mod Windows
use license_checker.Platform.{Platform}
use license_checker.Prelude.{
  ℕ, ℤ, pos, negsuc, Text, codes, c_str, atoi, is_empty, ltb, leb_ℤ, ltb_ℤ, ◌++◌, Bool, true, false,
  ◌||◌, Option, none, some, Outcome, ok, throws, fault, catch, Exception, runtime_error, Action,
  pure, throw, lift, gets, List, [], ◌∷◌, ◌>>=◌, ◌>>◌, if◌then◌else◌,
}
use license_checker.Tools.{split_file_name, split_file_path}

-- `root_.get<string_t>(key)` is `value key`; `none` is the exception of a missing path.
pub record PropTree : Type 0 where
  pub is_bare : Bool
  pub value : Text → Option Text

-- `log_type` and `lic_files_path`, which nothing sets or reads, are left out.
pub record Options : Type 0 where
  pub unp : Text
  pub prod : Text
  pub lic_app : Text
  pub agent_id : Text
  pub lic_file : Text
  pub service_path : Text
  pub make_uid_cmd : Text
  pub uid_file_name : Text
  pub lic_file_name : Text
  pub kill_file_name : Text
  pub log_files_path : Text
  pub day_license_check : ℤ
  pub day_license_update : ℤ
  pub openvpn_file_path : Text
  pub next_day_waiting_hours : ℤ
  pub license_manager_uri : Text
  pub next_try_get_license_mins : ℤ

-- `Parser`; `options` is `none` until the first successful `init`.
pub record Parser : Type 0 where
  pub root : PropTree
  pub options : Option Options
  pub file_name : Text
  pub service_path : Text
  pub log_file_path : Text
  pub config_file_path : Text

-- The loop at the start of `create_root` reads up to the first byte below 128, and steps back.
unfoldable pub skip_bom : Text → Text
skip_bom [] = []
skip_bom (c ∷ s) = let rest = skip_bom s in if ltb 127 c then rest else c ∷ s

-- the Linux branch
abbrev pub make_config_file_path : Parser → Text
make_config_file_path p = p.service_path ++ p.file_name

abbrev look_at : Text → Text → Exception
look_at what file = runtime_error (what ++ (codes "Look at the " ++ file))

-- the value of `key` in the tree `root`, for the configuration file `file`
value_of : Text → Text → Option Text → Outcome Text
value_of file key none = throws (runtime_error (codes "No such node (" ++ (key ++ codes ")")))
value_of file key (some v) =
    if is_empty v then throws (look_at (key ++ codes " is empty. ") file) else ok v

unfoldable pub get_value : Text → Action Parser Text
unfolding value_of
get_value key p = (if p.root.is_bare then ok [] else value_of p.file_name key (p.root.value key), p)

-- A number that must lie above 0 and not above `top`; else what `init` throws.
unfoldable pub check_range : ℕ → (Text → Text → Text) → Text → Text → ℤ → Outcome (Unit {0})
check_range top message key text n =
    if leb_ℤ n (pos 0) || ltb_ℤ (pos top) n
    then throws (runtime_error (message key text))
    else ok tt

abbrev isnt_correct_value : Text → Text → Text → Text
isnt_correct_value file key text =
    key ++ (codes " isn't correct: " ++ (text ++ (codes ". Look at the " ++ file)))

abbrev isnt_correct : Text → Text → Text → Text
isnt_correct file key text = key ++ (codes " isn't correct. Look at the " ++ file)

abbrev more_than_60 : Text → Text → Text → Text
more_than_60 file key text = key ++ (codes " more than 60 secs. Look at the " ++ file)

-- `get_value`, `atol` or `atoi`, and the range that `init` demands
unfoldable pub get_number : ℕ → (Text → Text → Text) → Text → Action Parser ℤ
unfolding get_value check_range
get_number top message key = do
  text ← get_value key
  lift (check_range top message key text (atoi (c_str text)))
  pure (atoi (c_str text))

-- what `init` reads of the tree, with the three paths of the parser at hand
unfoldable pub read_entries : Text → Text → Text → Action Parser Options
read_entries service file logs = do
  unp ← get_value (codes "LICENSE.unp")
  prod ← get_value (codes "LICENSE.prod")
  agent ← get_value (codes "LICENSE.agentId")
  app ← get_value (codes "FILES.lic")
  lic ← get_value (codes "FILES.lic_file_name")
  uid_cmd ← get_value (codes "LICENSE.make_uid_cmd")
  uid_file ← get_value (codes "FILES.uid_file_name")
  uri ← get_value (codes "LICENSE.license_manager_uri")
  update ← get_number 31 (isnt_correct_value file) (codes "CONFIG.day_license_update")
  check ← get_number 31 (isnt_correct file) (codes "CONFIG.day_license_check")
  mins ← get_number 60 (more_than_60 file) (codes "CONFIG.next_try_get_license_mins")
  hours ← get_number 24 (more_than_60 file) (codes "CONFIG.next_day_waiting_hours")
  kill ← get_value (codes "FILES.kill_file_name")
  openvpn ← get_value (codes "FILES.openvpn")
  pure (record {
    unp = unp;
    prod = prod;
    lic_app = app;
    agent_id = agent;
    lic_file = lic;
    service_path = service;
    make_uid_cmd = uid_cmd;
    uid_file_name = uid_file;
    lic_file_name = split_file_name lic;
    kill_file_name = kill;
    log_files_path = logs;
    day_license_check = check;
    day_license_update = update;
    openvpn_file_path = openvpn;
    next_day_waiting_hours = hours;
    license_manager_uri = uri;
    next_try_get_license_mins = mins;
  })

-- what `init` does once the tree is read, up to `set_options`
unfoldable pub read_options : Action Parser Options
unfolding read_entries
read_options p = read_entries p.service_path p.file_name p.log_file_path p

set_options : Options → Action Parser ℤ
set_options o p = (ok (pos 0), record p { options = some o })

-- The tree is replaced only if the file is read to its end.
store_root : Outcome PropTree → Action Parser (Unit {0})
store_root (ok tree) p = (ok tt, record p { root = tree })
store_root (throws e) p = (throws e, p)
store_root fault p = (fault, p)

module _ {D J : Type 0} (os : Platform D J) (read_ini : Text → Outcome PropTree) (disk : D) where
  open_root : Text → Option Text → Action Parser (Unit {0})
  open_root name none = throw (runtime_error (codes "can't open ini file - " ++ name))
  open_root name (some content) = store_root (read_ini (skip_bom content))

  unfoldable pub create_root : Text → Action Parser (Unit {0})
  unfolding open_root store_root
  create_root name = open_root name (os.read_file disk name)

  unfoldable pub init_body : Action Parser ℤ
  unfolding set_options
  init_body p = (do create_root (make_config_file_path p); o ← read_options; set_options o) p

  -- Every exception here is a `std::exception`, so `init` returns -1 for it.
  unfoldable pub init : Action Parser ℤ
  init = catch init_body (λ e. pure (negsuc 0))

  -- `make_paths`: the start of the agent, from the path of the configuration file
  unfoldable pub make_paths : Action Parser ℤ
  make_paths p =
      let service = split_file_path (c_str p.config_file_path) in
      init (record p {
        service_path = service;
        file_name = split_file_name (c_str p.config_file_path);
        log_file_path = service ++ codes "logs";
      })
