-- ===== src/SetBlock/Blocks.antt =====
-- `setBlock` cuts its data into blocks of eight bytes and fills the last one up with zeros.
use cannect.Base.{
  ℕ, zero, suc, ◌+◌, ◌-◌, ◌*◌, ◌/◌, ◌≤◌, ◌≡◌, refl, sym, ◌∙◌, ap, arith, min, List, [], ◌∷◌, ◌++◌,
  length, take, drop, replicate, length-drop, true,
}
use cannect.SetBlock.Receiver.{concat_blocks, received_blocks}
use cannect.SetBlock.Sender.{block_at, split_blocks}

-- The first `k` bytes, with zeros where the data ends before.
abbrev pub pad : ℕ → List ℕ → List ℕ
pad zero xs = []
pad (suc k) [] = 0 ∷ pad k []
pad (suc k) (x ∷ xs) = x ∷ pad k xs

pub length-pad : (k : ℕ) (xs : List ℕ) → length (pad k xs) ≡ k
length-pad zero xs = refl
length-pad (suc k) [] = ap suc (length-pad k [])
length-pad (suc k) (x ∷ xs) = ap suc (length-pad k xs)

pad-nil : (k : ℕ) → pad k [] ≡ replicate k 0
pad-nil zero = refl
pad-nil (suc k) = ap (λ t. 0 ∷ t) (pad-nil k)

-- Padding keeps the data and adds zeros only.
pub pad-fits : (k : ℕ) (xs : List ℕ) → length xs ≤ k → pad k xs ≡ xs ++ replicate (k - length xs) 0
pad-fits zero [] h = refl
pad-fits zero (x ∷ xs) h = absurd (omega arith)
pad-fits (suc k) [] h = let e : suc k - 0 ≡ suc k = omega arith in rw e (pad-nil (suc k))
pad-fits (suc k) (x ∷ xs) h =
    let e : suc k - suc (length xs) ≡ k - length xs = omega arith in
    rw e (ap (λ t. x ∷ t) (pad-fits k xs (omega arith)))

drop-nil : (k : ℕ) → drop {A = ℕ} k [] ≡ []
drop-nil zero = refl
drop-nil (suc k) = refl

pad-add : (j k : ℕ) (xs : List ℕ) → pad (j + k) xs ≡ pad j xs ++ pad k (drop j xs)
pad-add zero k xs = let e : 0 + k ≡ k = omega arith in rw e
pad-add (suc j) k [] =
    let e : suc j + k ≡ suc (j + k) = omega arith in
    rw e (ap (λ t. 0 ∷ t) (pad-add j k [] ∙ ap (λ t. pad j [] ++ pad k t) (drop-nil j)))
pad-add (suc j) k (x ∷ xs) =
    let e : suc j + k ≡ suc (j + k) = omega arith in rw e (ap (λ t. x ∷ t) (pad-add j k xs))

-- The copy into a zeroed block.
copied :
    (k : ℕ) (xs : List ℕ)
    → take (min k (length xs)) xs ++ replicate (k - min k (length xs)) 0 ≡ pad k xs
copied zero xs = let e : min 0 (length xs) ≡ 0 = omega arith in rw e
copied (suc k) [] =
    let e : min (suc k) 0 ≡ 0 = omega arith in
    let d : suc k - 0 ≡ suc k = omega arith in rw (e, d) (sym (pad-nil (suc k)))
copied (suc k) (x ∷ xs) =
    let e : min (suc k) (suc (length xs)) ≡ suc (min k (length xs)) = omega arith in
    let d : suc k - suc (min k (length xs)) ≡ k - min k (length xs) = omega arith in
    rw (e, d) (ap (λ t. x ∷ t) (copied k xs))

drop-drop : (j k : ℕ) (xs : List ℕ) → drop k (drop j xs) ≡ drop (j + k) xs
drop-drop zero k xs = let e : 0 + k ≡ k = omega arith in rw e
drop-drop (suc j) k [] = let e : suc j + k ≡ suc (j + k) = omega arith in rw e (drop-nil k)
drop-drop (suc j) k (x ∷ xs) =
    let e : suc j + k ≡ suc (j + k) = omega arith in rw e (drop-drop j k xs)

pub block_at-pad : (bytes : List ℕ) (i : ℕ) → block_at bytes i ≡ pad 8 (drop (i * 8) bytes)
block_at-pad bytes i = rw (sym (length-drop (i * 8) bytes)) (copied 8 (drop (i * 8) bytes))

concat-split_from :
    (bytes : List ℕ) (n i : ℕ)
    → concat_blocks (split_blocks bytes n i) ≡ pad (n * 8) (drop (i * 8) bytes)
unfolding split_blocks
concat-split_from bytes zero i = refl
concat-split_from bytes (suc n) i =
    let e : suc n * 8 ≡ 8 + n * 8 = omega arith in
    let d : i * 8 + 8 ≡ (i + 1) * 8 = omega arith in
    rw
      (
        block_at-pad bytes i,
        concat-split_from bytes n (i + 1),
        e,
        pad-add 8 (n * 8) (drop (i * 8) bytes),
        drop-drop (i * 8) 8 bytes,
        d,
      )
      refl

-- The blocks joined in order are the data, filled up with zeros to a multiple of eight bytes.
pub concat-split_blocks :
    (bytes : List ℕ)
    → concat_blocks (split_blocks bytes ((length bytes + 7) / 8) 0)
      ≡ bytes ++ replicate ((length bytes + 7) / 8 * 8 - length bytes) 0
concat-split_blocks bytes =
    concat-split_from bytes ((length bytes + 7) / 8) 0 ∙ pad-fits _ bytes (omega arith)

-- Every block has eight bytes.
abbrev pub AreBlocks : List (List ℕ) → Type 0
AreBlocks [] = Unit {0}
AreBlocks (b ∷ bs) = (length b ≡ 8) × AreBlocks bs

pub split_blocks-AreBlocks : (bytes : List ℕ) (n i : ℕ) → AreBlocks (split_blocks bytes n i)
unfolding split_blocks
split_blocks-AreBlocks bytes zero i = tt
split_blocks-AreBlocks bytes (suc n) i =
    (ap length (block_at-pad bytes i) ∙ length-pad 8 _, split_blocks-AreBlocks bytes n (i + 1))

pub length-split_blocks : (bytes : List ℕ) (n i : ℕ) → length (split_blocks bytes n i) ≡ n
unfolding split_blocks
length-split_blocks bytes zero i = refl
length-split_blocks bytes (suc n) i = ap suc (length-split_blocks bytes n (i + 1))

-- Blocks of eight bytes count as received.
pub received_blocks-AreBlocks :
    (bs : List (List ℕ)) → AreBlocks bs → received_blocks bs ≡ replicate (length bs) true
received_blocks-AreBlocks [] h = refl
received_blocks-AreBlocks ([] ∷ bs) h = absurd (omega arith)
received_blocks-AreBlocks ((x ∷ b) ∷ bs) h = ap (λ t. true ∷ t) (received_blocks-AreBlocks bs h.1)
