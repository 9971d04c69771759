-- ===== src/App/Numbers/RoundTrip.antt =====
-- What a stream prints of a number is read back by `std::stoul` (src/app/Cli.cpp, src/app/Handlers.cpp).
use cannect.Base.{
  ℕ, zero, suc, ◌/◌, ◌%◌, ◌<◌, ◌≡◌, sym, ◌∙◌, ap, arith, true, ◌==◌, Bool-cases, inl, inr, [], ◌∷◌,
  ==_iff,
}
use cannect.App.Text.{Text, ok}
use cannect.App.Printing.{digit_char, emit, hex_byte}
use cannect.App.Numbers.{digit_value, scan_digits, starts_with_digit, ulong_mod, stoul, parse_u8}

digit_value-digit_char : (d : ℕ) → d < 16 → digit_value (digit_char d) ≡ d
digit_value-digit_char d h = ground arith

scan_last :
    (n : ℕ) (out : Text)
    → scan_digits 16 (digit_char (n % 16) ∷ out) (n / 16) ≡ scan_digits 16 out n
unfolding scan_digits
scan_last n out = ground (arith, digit_value-digit_char (n % 16))

scan-emit :
    (fuel n : ℕ) (out : Text)
    → n < fuel
    → scan_digits 16 (emit 16 fuel n out) 0 ≡ scan_digits 16 out n
unfolding emit
scan-emit zero n out h = elim h [ ]
scan-emit (suc fuel) n out h = elim (Bool-cases (n / 16 == 0)) [
  | inl last ↦ rw last (
      ap (scan_digits 16 (digit_char (n % 16) ∷ out)) (sym ((==_iff (n / 16) 0).0 last))
      ∙ scan_last n out)
  | inr more ↦ rw more (scan-emit fuel (n / 16) _ (ground arith) ∙ scan_last n out)
]

starts-emit :
    (fuel n : ℕ) (out : Text) → n < fuel → starts_with_digit 16 (emit 16 fuel n out) ≡ true
unfolding emit
starts-emit zero n out h = elim h [ ]
starts-emit (suc fuel) n out h = elim (Bool-cases (n / 16 == 0)) [
  | inl last ↦ rw last (ground (arith, digit_value-digit_char (n % 16)))
  | inr more ↦ rw more (starts-emit fuel (n / 16) _ (ground arith))
]

-- A number below 2 ^ 64 that is printed as 0x and its hexadecimal digits is read back.
pub stoul-hex_byte : (n : ℕ) → n < ulong_mod → stoul (hex_byte n) ≡ ok n
unfolding stoul
stoul-hex_byte n h =
    ground (arith, scan-emit (suc n) n [] (omega arith), starts-emit (suc n) n [] (omega arith))

pub parse_u8-hex_byte : (b : ℕ) → b < 256 → parse_u8 (hex_byte b) ≡ ok b
unfolding parse_u8
parse_u8-hex_byte b h = rw (stoul-hex_byte b (omega arith)) (ap ok (omega arith))
