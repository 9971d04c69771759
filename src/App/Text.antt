-- ===== src/App/Text.antt =====
-- What the files of App share: texts by their bytes, and what a function of src/app returns or throws.
use Prim.Native.Char.{code}
use Prim.Native.String.{String}
use cannect.Base.{ℕ, List, [], ◌∷◌}

-- A `std::string` or a C string, by its bytes.
abbrev pub Text : Type 0
Text = List ℕ

abbrev pub codes : String → Text
codes String.[] = []
codes (String.◌∷◌ c s) = code c ∷ codes s

-- The exceptions: those that src/app throws, with their message, and those of `std::stoul`.
pub data Failure : Type 0 where
  runtime_error : Text → Failure
  invalid_argument out_of_range : Failure

pub data Result {ℓ} (A : Type ℓ) : Type ℓ where
  ok : A → Result A
  err : Failure → Result A

-- The rest of the code runs on what the first part returns, and an exception passes through.
abbrev pub and_then {ℓ κ} : {A : Type ℓ} {B : Type κ} → Result A → (A → Result B) → Result B
and_then (ok a) f = f a
and_then (err e) f = err e
