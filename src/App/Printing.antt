-- ===== src/App/Printing.antt =====
-- What src/app/Handlers.cpp prints: `std::cout` is the text written to it.
pub mod Addresses
use cannect.Base.{ℕ, zero, suc, ◌+◌, ◌/◌, ◌%◌, ◌==◌, ltb, if◌then◌else◌, List, [], ◌∷◌, ◌++◌}
use cannect.App.Text.{Text, codes}

-- How a stream prints an `unsigned` in a base, `std::dec` or `std::hex`: no padding, small letters.
abbrev pub digit_char : ℕ → ℕ
digit_char d = if ltb d 10 then b'0' + d else 87 + d

unfoldable pub emit : ℕ → ℕ → ℕ → Text → Text
emit base zero n out = out
emit base (suc fuel) n out =
    let rest = emit base fuel (n / base) (digit_char (n % base) ∷ out) in
    if n / base == 0 then digit_char (n % base) ∷ out else rest

abbrev pub dec : ℕ → Text
dec n = emit 10 (suc n) n []

abbrev pub hex : ℕ → Text
hex n = emit 16 (suc n) n []

-- `printHexBytes`: its loop, with a space before each byte but the first.
abbrev pub hex_byte : ℕ → Text
hex_byte b = codes "0x" ++ hex b

unfoldable pub print_hex_bytes : List ℕ → Text
print_hex_bytes [] = []
print_hex_bytes (b ∷ []) = hex_byte b
print_hex_bytes (b ∷ c ∷ bytes) = hex_byte b ++ (b' ' ∷ print_hex_bytes (c ∷ bytes))

-- `printAddress`: the bytes from the last to the first, without padding.
unfoldable pub print_reversed : List ℕ → Text
print_reversed [] = []
print_reversed (b ∷ bytes) = print_reversed bytes ++ hex b

unfoldable pub print_address : List ℕ → Text
unfolding print_reversed
print_address address = codes "0x" ++ print_reversed address
