-- ===== src/Codec/Bitmap.antt =====
-- The bitmap of received blocks: bit `i` of byte `i / 8`, and what the reader of a bitmap sees.
use cannect.Base.{
  ℕ, zero, suc, ◌+◌, ◌-◌, ◌*◌, ◌/◌, ◌%◌, ◌^◌, ◌<◌, ◌≤◌, ◌≡◌, refl, sym, ◌∙◌, arith, bit_and, bit_or,
  u8, Bool, true, false, not, ◌&&◌, ◌||◌, if◌then◌else◌, ◌==◌, leb, leb→le, dec_lt, List, [], ◌∷◌,
  length, get_or, set, replicate, length-set, length-replicate, Bool-cases, inl, inr,
}
use cannect.Bits.{all_below, all_below_sound}
use cannect.Codec.{mark, mark_all, make_bitmap, bitmap_bit_is_set, bitmap_size_bytes}

-- What setting a bit does to every bit of a byte, by evaluation.
bit_set : ℕ → ℕ → Bool
bit_set b j = not (bit_and b (u8 (2 ^ j)) == 0)

abbrev same : Bool → Bool → Bool
same true b = b
same false b = not b

same-eq : (a b : Bool) → same a b ≡ true → a ≡ b
same-eq a b h = ground arith

abbrev marked_right : ℕ → ℕ → ℕ → Bool
marked_right j i b = same (bit_set (u8 (bit_or b (u8 (2 ^ i)))) j) (i == j || bit_set b j)

marks_table : all_below 8 (λ j. all_below 8 (λ i. all_below 256 (marked_right j i))) ≡ true
unfolding all_below bit_set
marks_table = refl

bit_set-mark :
    (b i j : ℕ)
    → b < 256
    → i < 8
    → j < 8
    → bit_set (u8 (bit_or b (u8 (2 ^ i)))) j ≡ (i == j || bit_set b j)
bit_set-mark b i j hb hi hj = same-eq _ _ (
    all_below_sound 256 (marked_right j i) b
      (all_below_sound 8 (λ i. all_below 256 (marked_right j i)) i
        (all_below_sound 8 (λ j. all_below 8 (λ i. all_below 256 (marked_right j i))) j marks_table
          hj)
        hi)
      hb)

get_or_past {ℓ} : {A : Type ℓ} (xs : List A) (k : ℕ) (d : A) → length xs ≤ k → get_or xs k d ≡ d
get_or_past [] k d h = refl
get_or_past (x ∷ xs) zero d h = absurd (omega arith)
get_or_past (x ∷ xs) (suc k) d h = get_or_past xs k d (omega arith)

pub get_or-set {ℓ} :
    {A : Type ℓ} (xs : List A) (k j : ℕ) (v d : A)
    → k < length xs
    → get_or (set xs k v) j d ≡ (if k == j then v else get_or xs j d)
get_or-set [] k j v d h = absurd (omega arith)
get_or-set (x ∷ xs) zero zero v d h = refl
get_or-set (x ∷ xs) zero (suc j) v d h = ground arith
get_or-set (x ∷ xs) (suc k) zero v d h = ground arith
get_or-set (x ∷ xs) (suc k) (suc j) v d h = get_or-set xs k j v d (omega arith) ∙ ground arith

-- Bit `j` of a bitmap; past its end it is clear.
bit : List ℕ → ℕ → Bool
bit bitmap j = bit_set (get_or bitmap (j / 8) 0) (j % 8)

zero_bits : all_below 8 (λ j. same (bit_set 0 j) false) ≡ true
unfolding all_below bit_set
zero_bits = refl

bit_set-zero : (j : ℕ) → j < 8 → bit_set 0 j ≡ false
bit_set-zero j h = same-eq _ _ (all_below_sound 8 (λ j. same (bit_set 0 j) false) j zero_bits h)

bitmap_bit_is_set-bit : (bitmap : List ℕ) (j : ℕ) → bitmap_bit_is_set bitmap j ≡ bit bitmap j
unfolding bitmap_bit_is_set bit
bitmap_bit_is_set-bit bitmap j = elim (Bool-cases (leb (length bitmap) (j / 8))) [
  | inl past ↦ rw past (
      rw (get_or_past bitmap (j / 8) 0 (leb→le _ _ past))
        (sym (bit_set-zero (j % 8) (omega arith))))
  | inr inside ↦ rw inside (unfold bit_set in refl)
]

abbrev AreBytes : List ℕ → Type 0
AreBytes bitmap = (k : ℕ) → get_or bitmap k 0 < 256

mark-AreBytes :
    (bitmap : List ℕ) (i : ℕ) → i / 8 < length bitmap → AreBytes bitmap → AreBytes (mark bitmap i)
unfolding mark
mark-AreBytes bitmap i h b k = rw (get_or-set bitmap (i / 8) k _ 0 h) (ground (arith, b k))

same_byte :
    (bitmap : List ℕ) (i j : ℕ)
    → AreBytes bitmap
    → i / 8 ≡ j / 8
    → bit_set (u8 (bit_or (get_or bitmap (i / 8) 0) (u8 (2 ^ (i % 8))))) (j % 8)
      ≡ (i == j || bit_set (get_or bitmap (j / 8) 0) (j % 8))
same_byte bitmap i j b e =
    bit_set-mark (get_or bitmap (i / 8) 0) (i % 8) (j % 8) (b (i / 8)) (omega arith) (omega arith)
    ∙ rw e (same_place (bit_set (get_or bitmap (j / 8) 0) (j % 8)))
  where
    same_place : (c : Bool) → (i % 8 == j % 8 || c) ≡ (i == j || c)
    same_place c = ground arith

bit-mark :
    (bitmap : List ℕ) (i j : ℕ)
    → i / 8 < length bitmap
    → AreBytes bitmap
    → bit (mark bitmap i) j ≡ (i == j || bit bitmap j)
unfolding mark bit
bit-mark bitmap i j h b = elim (Bool-cases (i / 8 == j / 8)) [
  | inl hit ↦
      rw (get_or-set bitmap (i / 8) (j / 8) _ 0 h) (rw hit (same_byte bitmap i j b (ground arith)))
  | inr miss ↦ rw (get_or-set bitmap (i / 8) (j / 8) _ 0 h) (rw miss (ground arith))
]

length-mark : (bitmap : List ℕ) (i : ℕ) → length (mark bitmap i) ≡ length bitmap
unfolding mark
length-mark bitmap i = length-set bitmap (i / 8) _

-- The flags from index `i` on, with the first one taken apart.
first_flag :
    (v : Bool) (received : List Bool) (i j : ℕ)
    → (leb i j && get_or (v ∷ received) (j - i) false)
      ≡ (i == j && v || leb (i + 1) j && get_or received (j - (i + 1)) false)
first_flag v received i j = elim (dec_lt i j) [
  | yes later ↦ let e : j - i ≡ suc (j - (i + 1)) = omega arith in rw e (ground arith)
  | no earlier ↦ elim (dec_lt j i) [
    | yes before ↦ ground arith
    | no after ↦ let e : j - i ≡ 0 = omega arith in rw e (ground arith)
  ]
]

-- The loop of `makeBitmap`: it adds the bits of `received`, shifted by `i`, to the bitmap.
bit-mark_all :
    (received : List Bool) (i : ℕ) (bitmap : List ℕ) (j : ℕ)
    → i + length received ≤ length bitmap * 8
    → AreBytes bitmap
    → bit (mark_all received i bitmap) j
      ≡ (bit bitmap j || leb i j && get_or received (j - i) false)
unfolding mark_all
bit-mark_all [] i bitmap j h b = ground arith
bit-mark_all (false ∷ received) i bitmap j h b =
    bit-mark_all received (i + 1) bitmap j (omega arith) b
    ∙ ground (arith, first_flag false received i j)
bit-mark_all (true ∷ received) i bitmap j h b =
    bit-mark_all received (i + 1) (mark bitmap i) j (omega (arith, length-mark bitmap i))
      (mark-AreBytes bitmap i (omega arith) b)
    ∙ ground (arith, first_flag true received i j, bit-mark bitmap i j (omega arith) b)

length-mark_all :
    (received : List Bool) (i : ℕ) (bitmap : List ℕ)
    → length (mark_all received i bitmap) ≡ length bitmap
unfolding mark_all mark
length-mark_all [] i bitmap = refl
length-mark_all (false ∷ received) i bitmap = length-mark_all received (i + 1) bitmap
length-mark_all (true ∷ received) i bitmap =
    length-mark_all received (i + 1) (mark bitmap i) ∙ length-mark bitmap i

get_or-replicate : (n k : ℕ) → get_or {A = ℕ} (replicate n 0) k 0 ≡ 0
get_or-replicate zero k = refl
get_or-replicate (suc n) zero = refl
get_or-replicate (suc n) (suc k) = get_or-replicate n k

bit-replicate : (n j : ℕ) → bit (replicate n 0) j ≡ false
unfolding bit
bit-replicate n j = rw (get_or-replicate n (j / 8)) (bit_set-zero (j % 8) (omega arith))

-- A bitmap has one byte for each eight blocks or part of eight.
pub length-make_bitmap :
    (received : List Bool) → length (make_bitmap received) ≡ bitmap_size_bytes (length received)
unfolding make_bitmap bitmap_size_bytes
length-make_bitmap received =
    length-mark_all received 0 _ ∙ length-replicate ((length received + 7) / 8) 0

room :
    (received : List Bool)
    → 0 + length received ≤ length {A = ℕ} (replicate ((length received + 7) / 8) 0) * 8
room received = omega (arith, length-replicate {A = ℕ} ((length received + 7) / 8) 0)

-- Reading bit `j` of a bitmap gives the flag of block `j`; past the last block it is clear.
pub bitmap_bit_is_set-make_bitmap :
    (received : List Bool) (j : ℕ)
    → bitmap_bit_is_set (make_bitmap received) j ≡ get_or received j false
unfolding make_bitmap
bitmap_bit_is_set-make_bitmap received j =
    bitmap_bit_is_set-bit _ j
    ∙ bit-mark_all received 0 (replicate ((length received + 7) / 8) 0) j (room received)
        (λ k. rw (get_or-replicate ((length received + 7) / 8) k) (omega arith))
    ∙ rw (bit-replicate ((length received + 7) / 8) j) (ground arith)
