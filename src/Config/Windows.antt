-- ===== src/Config/Windows.antt =====
-- parser/parser_ini.cpp and tools/tools.cpp, under `_WIN32`: the reading of the configuration on Windows.
use license_checker.Config.{
  PropTree, Options, Parser, create_root, make_config_file_path, read_options, set_options,
}
use license_checker.Platform.{Platform}
use license_checker.Prelude.{ℤ, negsuc, Text, Outcome, catch, Action, pure, ◌>>=◌, ◌>>◌}
use license_checker.Tools.Windows

-- `lic_file_name` is what follows the last backslash of `lic_file`, not the last slash.
unfoldable pub name_license : Options → Options
name_license o = record o { lic_file_name = Windows.split_file_name o.lic_file }

module _ {D J : Type 0} (os : Platform D J) (read_ini : Text → Outcome PropTree) (disk : D) where
  -- `init`. The path of the file is the one of Linux: where `service_path_` is empty, it is the name.
  unfoldable pub init_body : Action Parser ℤ
  unfolding name_license set_options
  init_body p =
      (do
        create_root os read_ini disk (make_config_file_path p)
        o ← read_options
        set_options (name_license o))
        p

  unfoldable pub init : Action Parser ℤ
  unfolding init_body
  init = catch init_body (λ e. pure (negsuc 0))
