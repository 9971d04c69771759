-- ===== src/App/Reader.antt =====
-- `ArgReader` of src/app/Cli.cpp: it reads the arguments behind the command's name.
pub mod Bytes
use cannect.Base.{
  ℕ, zero, suc, ◌≡◌, Bool, true, false, not, ◌||◌, ◌==◌, if◌then◌else◌, List, [], ◌∷◌, ◌++◌, length,
}
use cannect.Dispatcher.{same_name}
use cannect.Protocol.State.{zeros, copy_over}
use cannect.App.Text.{Text, codes, Result, ok, err, runtime_error, and_then}
use cannect.App.Numbers.{parse_u8, parse_u32}

-- `rest` are the arguments from `argv[index]` up to `argv[argc]`.
pub record ArgReader : Type 0 where
  pub rest : List Text
  pub timeout_ms : ℕ

-- DEFAULT_TIMEOUT_MS.
abbrev pub default_timeout_ms : ℕ
default_timeout_ms = 200

-- A method returns its result and the reader after it, or throws.
abbrev pub M : Type 0 → Type 0
M A = ArgReader → Result (A × ArgReader)

infixl 5 ◌>>=◌
abbrev pub ◌>>=◌ : {A B : Type 0} → M A → (A → M B) → M B
◌>>=◌ m f r = elim (m r) [ err e ↦ err e | ok (a, r') ↦ f a r' ]

abbrev pub pure : {A : Type 0} → A → M A
pure a r = ok (a, r)

-- `next`.
abbrev pub next_of : List Text → ℕ → Result (Text × ArgReader)
next_of [] t = err (runtime_error (codes "Missing command argument"))
next_of (arg ∷ rest) t = ok (arg, record { rest = rest; timeout_ms = t })

unfoldable pub next : M Text
next r = next_of r.rest r.timeout_ms

abbrev pub lift : {A : Type 0} → Result A → M A
lift x r = and_then x λ a. ok (a, r)

unfoldable pub next_u8 : M ℕ
unfolding next
next_u8 = next >>= λ arg. lift (parse_u8 arg)

abbrev pub has_dash : Text → Bool
has_dash [] = false
has_dash (c ∷ arg) = c == b'-'

-- What ends the loop of `readFrame` before the array is full: no argument, or one with a dash.
abbrev pub at_option : List Text → Bool
at_option [] = true
at_option (arg ∷ rest) = has_dash arg

-- The loop of `readFrame`, for the room that is left.
unfoldable pub read_bytes : ℕ → M (List ℕ)
read_bytes zero r = ok ([], r)
read_bytes (suc room) r =
    let more = (next_u8 >>= λ b. read_bytes room >>= λ bytes. pure (b ∷ bytes)) r in
    if at_option r.rest then ok ([], r) else more

-- `readFrame` into an array of zeros.
unfoldable pub read_frame : M (List ℕ)
read_frame = read_bytes 8 >>= λ bytes. pure (copy_over zeros bytes (length bytes))

abbrev pub timeout_option : Text
timeout_option = codes "--timeout"

-- The loop of `readVectorUntilTimeout`, with its `nextU8`.
unfoldable pub read_vector_of : List Text → ℕ → Result (List ℕ × ArgReader)
read_vector_of [] t = ok ([], record { rest = []; timeout_ms = t })
read_vector_of (arg ∷ rest) t =
    let more =
      and_then (parse_u8 arg)
        λ b. and_then (read_vector_of rest t) λ (bytes, r). ok (b ∷ bytes, r) in
    if same_name arg timeout_option
    then ok ([], record { rest = arg ∷ rest; timeout_ms = t })
    else more

unfoldable pub read_vector_until_timeout : M (List ℕ)
unfolding read_vector_of
read_vector_until_timeout r = read_vector_of r.rest r.timeout_ms

unfoldable pub read_address4 : M (List ℕ)
read_address4 =
    next_u8 >>= λ a. next_u8 >>= λ b. next_u8 >>= λ c. next_u8 >>= λ d. pure (a ∷ b ∷ c ∷ d ∷ [])

abbrev pub timeout_of : List Text → ℕ → Result (Unit {0} × ArgReader)
timeout_of [] t = ok (tt, record { rest = []; timeout_ms = t })
timeout_of (arg ∷ []) t =
    if same_name arg timeout_option
    then err (runtime_error (codes "Missing command argument"))
    else ok (tt, record { rest = arg ∷ []; timeout_ms = t })
timeout_of (arg ∷ value ∷ rest) t =
    if same_name arg timeout_option
    then and_then (parse_u32 value) (λ ms. ok (tt, record { rest = rest; timeout_ms = ms }))
    else ok (tt, record { rest = arg ∷ value ∷ rest; timeout_ms = t })

unfoldable pub read_optional_timeout : M (Unit {0})
read_optional_timeout r = timeout_of r.rest r.timeout_ms

-- A step that returns is followed by the next one.
pub >>=-of_ok :
    {A B : Type 0} (m : M A) (f : A → M B) (r : ArgReader) {a : A} {s : ArgReader}
    → m r ≡ ok (a, s)
    → (m >>= f) r ≡ f a s
>>=-of_ok m f r e = rw (e, ◌>>=◌)

pub next_u8-reads :
    (arg : Text) (rest : List Text) (t : ℕ) {b : ℕ}
    → parse_u8 arg ≡ ok b
    → next_u8 (record { rest = arg ∷ rest; timeout_ms = t })
      ≡ ok (b, record { rest = rest; timeout_ms = t })
unfolding next_u8
next_u8-reads arg rest t e = rw e
