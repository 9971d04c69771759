-- ===== src/App/Numbers.antt =====
-- The numbers of the command line (src/app/Cli.cpp): `parseU8` and `parseU32`, with the
-- `std::stoul(s, nullptr, 0)` that they call, for an `unsigned long` of 64 bits.
pub mod RoundTrip
use cannect.Base.{
  ℕ, ◌+◌, ◌-◌, ◌*◌, ◌%◌, ◌^◌, Bool, true, false, not, ◌&&◌, ◌||◌, ltb, leb, ◌==◌, if◌then◌else◌, [],
  ◌∷◌, u8, u32,
}
use cannect.App.Text.{Text, Result, ok, err, invalid_argument, out_of_range, and_then}

-- `isspace` of the C locale.
abbrev pub is_space : ℕ → Bool
is_space c = c == 32 || leb 9 c && leb c 13

unfoldable pub skip_spaces : Text → Text
skip_spaces [] = []
skip_spaces (c ∷ s) = let rest = skip_spaces s in if is_space c then rest else c ∷ s

-- The value of a digit or letter, and 36 for any other character.
abbrev pub digit_value : ℕ → ℕ
digit_value c =
    if leb b'0' c && leb c b'9'
    then c - b'0'
    else if leb b'a' c && leb c b'z'
    then c - 87
    else if leb b'A' c && leb c b'Z'
    then c - 55
    else 36

abbrev pub is_digit : ℕ → ℕ → Bool
is_digit base c = ltb (digit_value c) base

-- The digits up to the first character that is none.
unfoldable pub scan_digits : ℕ → Text → ℕ → ℕ
scan_digits base [] n = n
scan_digits base (c ∷ s) n =
    let rest = scan_digits base s (n * base + digit_value c) in if is_digit base c then rest else n

abbrev pub starts_with_digit : ℕ → Text → Bool
starts_with_digit base [] = false
starts_with_digit base (c ∷ s) = is_digit base c

-- ULONG_MAX + 1.
abbrev pub ulong_mod : ℕ
ulong_mod = 2 ^ 64

-- With a minus sign the value is negated as an unsigned number.
unfoldable pub convert : ℕ → Bool → Text → Result ℕ
convert base negative s =
    let n = scan_digits base s 0 in
    if not (starts_with_digit base s)
    then err invalid_argument
    else if not (ltb n ulong_mod)
    then err out_of_range
    else ok (if negative then (ulong_mod - n) % ulong_mod else n)

-- Base 0: 0x and a hexadecimal digit, or 0, or neither.
unfoldable pub by_prefix : Bool → Text → Result ℕ
by_prefix negative (c ∷ x ∷ s) =
    if c == b'0' && ((x == b'x' || x == b'X') && starts_with_digit 16 s)
    then convert 16 negative s
    else convert (if c == b'0' then 8 else 10) negative (c ∷ x ∷ s)
by_prefix negative s = convert 10 negative s

unfoldable pub by_sign : Text → Result ℕ
by_sign [] = err invalid_argument
by_sign (c ∷ s) =
    if c == b'-' then by_prefix true s else by_prefix false (if c == b'+' then s else c ∷ s)

unfoldable pub stoul : Text → Result ℕ
unfolding skip_spaces by_sign by_prefix convert scan_digits
stoul s = by_sign (skip_spaces s)

unfoldable pub parse_u8 : Text → Result ℕ
parse_u8 s = and_then (stoul s) λ n. ok (u8 n)

unfoldable pub parse_u32 : Text → Result ℕ
parse_u32 s = and_then (stoul s) λ n. ok (u32 n)
