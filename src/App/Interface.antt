-- ===== src/App/Interface.antt =====
-- `createInterface` (src/app/Cli.cpp).
pub mod Split
use cannect.Base.{
  ℕ, ◌==◌, if◌then◌else◌, Option, none, some, List, [], ◌∷◌, ◌++◌, ◌≡◌, refl, sym, ◌∙◌, ap, arith,
  ◌↔◌, Bool, true, false, ◌&&◌,
}
use cannect.Dispatcher.{same_name}
use cannect.Socket as Socket
use cannect.App.Text.{Text, codes, Result, ok, err, runtime_error}

-- `spec.find(':')`, with what stands before and behind it.
abbrev pub before : ℕ → Option (Text × Text) → Option (Text × Text)
before c none = none
before c (some (type, config)) = some (c ∷ type, config)

unfoldable pub split_spec : Text → Option (Text × Text)
split_spec [] = none
split_spec (c ∷ s) = let rest = before c (split_spec s) in if c == b':' then some ([], s) else rest

unfoldable pub interface_of : Text → Text → Result Socket.SocketCanInterface
interface_of type config =
    if same_name type (codes "socketcan")
    then ok (Socket.new config)
    else err (runtime_error (codes "Unknown interface type: " ++ type))

unfoldable pub create_interface : Text → Result Socket.SocketCanInterface
create_interface spec = elim (split_spec spec) [
  | none ↦ err (runtime_error (codes "Invalid interface format. Use type:config"))
  | some (type, config) ↦ interface_of type config
]
