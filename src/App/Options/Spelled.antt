-- ===== src/App/Options/Spelled.antt =====
-- What `parseOptions` makes of a command line (src/app/Cli.cpp).
use cannect.Base.{
  ℕ, ◌+◌, ◌≡◌, refl, ◌∙◌, ap, arith, Bool, true, false, if◌then◌else◌, some, List, [], ◌∷◌,
}
use cannect.Dispatcher.{same_name}
use cannect.App.Text.{Text, codes, ok}
use cannect.App.Numbers.{parse_u8}
use cannect.App.Options.{Options, defaults, parse_from, parse_options}

-- An option of the command line, with its value; the flag chooses the long spelling.
pub data Setting : Type 0 where
  iface output : Bool → Text → Setting
  node : Bool → Text → ℕ → Setting
  help : Bool → Setting

abbrev pub spelled : Setting → List Text → List Text
spelled (iface long spec) rest = (if long then codes "--iface" else codes "-i") ∷ spec ∷ rest
spelled (output long file) rest = (if long then codes "--output" else codes "-o") ∷ file ∷ rest
spelled (node long arg n) rest = (if long then codes "--node" else codes "-n") ∷ arg ∷ rest
spelled (help long) rest = (if long then codes "--help" else codes "-h") ∷ rest

abbrev pub applied : Setting → Options → Options
applied (iface long spec) o = record o { iface_spec = spec }
applied (output long file) o = record o { output_file = file }
applied (node long arg n) o = record o { local_node = n }
applied (help long) o = record o { show_help = true }

-- The number of a node is what its argument reads as.
abbrev pub IsRead : Setting → Type 0
IsRead (node long arg n) = parse_u8 arg ≡ ok n
IsRead s = Unit {0}

abbrev pub AreRead : List Setting → Type 0
AreRead [] = Unit {0}
AreRead (s ∷ settings) = IsRead s × AreRead settings

abbrev pub spelled_all : List Setting → List Text → List Text
spelled_all [] rest = rest
spelled_all (s ∷ settings) rest = spelled s (spelled_all settings rest)

abbrev pub applied_all : List Setting → Options → Options
applied_all [] o = o
applied_all (s ∷ settings) o = applied_all settings (applied s o)

-- How many arguments a setting takes.
abbrev pub width : Setting → ℕ
width (help long) = 1
width s = 2

abbrev pub widths : List Setting → ℕ
widths [] = 0
widths (s ∷ settings) = width s + widths settings

-- One setting is applied, and the loop goes on behind it.
parse_from-spelled :
    (s : Setting) (i : ℕ) (rest : List Text) (o : Options)
    → IsRead s
    → parse_from i (spelled s rest) o ≡ parse_from (i + width s) rest (applied s o)
unfolding parse_from same_name
parse_from-spelled (iface true spec) i rest o h = refl
parse_from-spelled (iface false spec) i rest o h = refl
parse_from-spelled (output true file) i rest o h = refl
parse_from-spelled (output false file) i rest o h = refl
parse_from-spelled (node true arg n) i rest o h = rw h
parse_from-spelled (node false arg n) i rest o h = rw h
parse_from-spelled (help true) i [] o h = refl
parse_from-spelled (help false) i [] o h = refl
parse_from-spelled (help true) i (arg ∷ rest) o h = refl
parse_from-spelled (help false) i (arg ∷ rest) o h = refl

parse_from-spelled_all :
    (settings : List Setting) (i : ℕ) (rest : List Text) (o : Options)
    → AreRead settings
    → parse_from i (spelled_all settings rest) o
      ≡ parse_from (i + widths settings) rest (applied_all settings o)
parse_from-spelled_all [] i rest o h = ap (λ k. parse_from k rest o) (omega arith)
parse_from-spelled_all (s ∷ settings) i rest o (h, hs) =
    parse_from-spelled s i (spelled_all settings rest) o h
    ∙ parse_from-spelled_all settings (i + width s) rest (applied s o) hs
    ∙ ap (λ k. parse_from k rest (applied_all (s ∷ settings) o)) (omega arith)

-- The end of a command line: nothing, or --send with the command.
pub data Ending : Type 0 where
  listens : Ending
  sends : Bool → Text → List Text → Ending

abbrev pub ending_args : Ending → List Text
ending_args listens = []
ending_args (sends long command args) =
    (if long then codes "--send" else codes "-s") ∷ command ∷ args

abbrev pub ended : Ending → ℕ → Options → Options
ended listens i o = o
ended (sends long command args) i o = record o {
  has_send_command = true;
  send_arg_index = some (i + 1);
}

parse_from-ending :
    (e : Ending) (i : ℕ) (o : Options) → parse_from i (ending_args e) o ≡ ok (ended e i o)
unfolding parse_from same_name
parse_from-ending listens i o = refl
parse_from-ending (sends true command args) i o = refl
parse_from-ending (sends false command args) i o = refl

-- `parseOptions` reads back any list of options with their values, spelled short or long and in any
-- order: they are applied to the defaults one after the other, so the last of a kind counts. What stands
-- behind --send is not looked at, and the index of the command is the place where it stands.
pub parse_options-spelled :
    (prog : Text) (settings : List Setting) (e : Ending)
    → AreRead settings
    → parse_options (prog ∷ spelled_all settings (ending_args e))
      ≡ ok (ended e (1 + widths settings) (applied_all settings defaults))
unfolding parse_options
parse_options-spelled prog settings e h =
    parse_from-spelled_all settings 1 (ending_args e) defaults h
    ∙ parse_from-ending e (1 + widths settings) (applied_all settings defaults)
