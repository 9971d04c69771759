-- ===== src/App/Options.antt =====
-- `Options` and `parseOptions` (src/app/Cli.hpp, src/app/Cli.cpp).
pub mod Spelled
use cannect.Base.{
  ℕ, ◌+◌, Bool, true, false, ◌||◌, if◌then◌else◌, Option, none, some, List, [], ◌∷◌, ◌++◌,
}
use cannect.Dispatcher.{same_name}
use cannect.App.Text.{Text, codes, Result, ok, err, runtime_error, and_then}
use cannect.App.Numbers.{parse_u8}

-- `send_arg_index` is none where the code has -1.
pub record Options : Type 0 where
  pub iface_spec : Text
  pub output_file : Text
  pub local_node : ℕ
  pub show_help : Bool
  pub has_send_command : Bool
  pub send_arg_index : Option ℕ

abbrev pub defaults : Options
defaults = record {
  iface_spec = [];
  output_file = [];
  local_node = 65;
  show_help = false;
  has_send_command = false;
  send_arg_index = none;
}

abbrev pub either : Text → Text → Text → Bool
either short long arg = same_name arg short || same_name arg long

-- An argument that is no option, or an option whose value is missing.
abbrev pub unknown : Text → Result Options
unknown arg = err (runtime_error (codes "Unknown argument: " ++ arg))

-- The loop over `argv[i]` up to `argv[argc]`. At the last argument `i + 1 < argc` fails.
unfoldable pub parse_from : ℕ → List Text → Options → Result Options
parse_from i [] o = ok o
parse_from i (arg ∷ []) o =
    if either (codes "-h") (codes "--help") arg
    then ok (record o { show_help = true })
    else unknown arg
parse_from i (arg ∷ value ∷ rest) o =
    let iface = parse_from (i + 2) rest (record o { iface_spec = value }) in
    let output = parse_from (i + 2) rest (record o { output_file = value }) in
    let node =
      and_then (parse_u8 value) λ n. parse_from (i + 2) rest (record o { local_node = n }) in
    let help = parse_from (i + 1) (value ∷ rest) (record o { show_help = true }) in
    if either (codes "-i") (codes "--iface") arg
    then iface
    else if either (codes "-o") (codes "--output") arg
    then output
    else if either (codes "-n") (codes "--node") arg
    then node
    else if either (codes "-h") (codes "--help") arg
    then help
    else if either (codes "-s") (codes "--send") arg
    then ok (record o { has_send_command = true; send_arg_index = some (i + 1) })
    else unknown arg

-- `argv` has the program's name first, which is skipped.
unfoldable pub parse_options : List Text → Result Options
unfolding parse_from
parse_options [] = ok defaults
parse_options (prog ∷ args) = parse_from 1 args defaults
