-- ===== src/App/Printing/Addresses.antt =====
-- What `printAddress` shows of an address (src/app/Handlers.cpp).
use mathlib.Core.List.{append_assoc}
use cannect.Base.{
  ℕ, suc, ◌+◌, ◌-◌, ◌*◌, ◌/◌, ◌%◌, ◌≤◌, ◌<◌, ◌≡◌, ◌≢◌, sym, ◌∙◌, ap, arith, ◌==◌, if_false, false,
  List, [], ◌∷◌, ◌++◌, get_or,
}
use cannect.App.Text.{Text, codes}
use cannect.App.Printing.{digit_char, emit, hex, print_reversed, print_address}

-- A byte has one digit or two.
emit_last : (fuel d : ℕ) (out : Text) → d < 16 → emit 16 (suc fuel) d out ≡ digit_char d ∷ out
unfolding emit
emit_last fuel d out h = ground arith

emit_two :
    (fuel a b : ℕ)
    → 1 ≤ a
    → a < 16
    → b < 16
    → emit 16 (suc (suc fuel)) (16 * a + b) [] ≡ digit_char a ∷ digit_char b ∷ []
emit_two fuel a b ha ha' hb =
    let high : (16 * a + b) / 16 ≡ a = omega arith in
    let low : (16 * a + b) % 16 ≡ b = omega arith in
    let more : ((16 * a + b) / 16 == 0) ≡ false = ground arith in
    unfold emit in if_false _ _ more ∙ rw (high, low) (emit_last fuel a (digit_char b ∷ []) ha')

hex_two : (a b : ℕ) → 1 ≤ a → a < 16 → b < 16 → hex (16 * a + b) ≡ digit_char a ∷ digit_char b ∷ []
hex_two a b ha ha' hb =
    let fuel : 16 * a + b ≡ suc (16 * a + b - 1) = omega arith in
    ap (λ k. emit 16 (suc k) (16 * a + b) []) fuel ∙ emit_two (16 * a + b - 1) a b ha ha' hb

-- An address whose first byte is 16 or more and whose second one is from 1 to 15 is printed like
-- another address: the one in which a digit of the first byte has moved to the second.
pub print_address_ambiguous :
    (a b c : ℕ) (rest : List ℕ)
    → 1 ≤ a
    → a < 16
    → 1 ≤ b
    → b < 16
    → c < 16
    → (print_address ((16 * b + c) ∷ a ∷ rest) ≡ print_address (c ∷ (16 * a + b) ∷ rest))
      × ◌≢◌ {A = List ℕ} ((16 * b + c) ∷ a ∷ rest) (c ∷ (16 * a + b) ∷ rest)
unfolding print_address
print_address_ambiguous a b c rest ha ha' hb hb' hc = (
  ap (λ t. codes "0x" ++ t)
      (append_assoc (print_reversed rest) (hex a) (hex (16 * b + c))
        ∙ ap (λ t. print_reversed rest ++ t) same
        ∙ sym (append_assoc (print_reversed rest) (hex (16 * a + b)) (hex c))),
  λ e. absurd (omega (arith, ap (λ (l : List ℕ). get_or l 1 0) e)),
)
  where
    same : hex a ++ hex (16 * b + c) ≡ hex (16 * a + b) ++ hex c
    same =
        rw
          (emit_last a a [] ha', hex_two b c hb hb' hc, hex_two a b ha ha' hb', emit_last c c [] hc)
