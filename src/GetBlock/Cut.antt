-- ===== src/GetBlock/Cut.antt =====
-- A provider cuts its response into blocks of eight bytes, which joined again are the response.
use mathlib.Core.List.{append-nil}
use cannect.Base.{
  ℕ, zero, suc, ◌+◌, ◌-◌, ◌*◌, ◌/◌, ◌≤◌, ◌≡◌, refl, sym, ◌∙◌, ap, subst, arith, List, [], ◌∷◌, ◌++◌,
  length, take, drop, replicate, length-drop,
}
use mathlib.Core.Path.{ap₂}
use cannect.SetBlock.Receiver.{concat_blocks}
use cannect.SetBlock.Sender.{split_blocks}
use cannect.SetBlock.Blocks.{
  pad, block_at-pad, concat-split_blocks, AreBlocks, split_blocks-AreBlocks, length-split_blocks,
}
use cannect.GetBlock.Provider.{cut_blocks}

take-pad : (k : ℕ) (xs : List ℕ) → k ≤ length xs → take k xs ≡ pad k xs
take-pad zero xs h = refl
take-pad (suc k) [] h = absurd (omega arith)
take-pad (suc k) (x ∷ xs) h = ap (λ t. x ∷ t) (take-pad k xs (omega arith))

-- Where the data fills the blocks, a provider cuts it as `setBlock` does.
pub cut-split :
    (response : List ℕ) (n i : ℕ)
    → (i + n) * 8 ≤ length response
    → cut_blocks response n i ≡ split_blocks response n i
unfolding split_blocks
cut-split response zero i h = refl
cut-split response (suc n) i h =
    ap₂ ◌∷◌
      (take-pad 8 (drop (i * 8) response) (omega (arith, length-drop (i * 8) response))
        ∙ sym (block_at-pad response i))
      (cut-split response n (i + 1) (omega arith))

pub record IsCut (n : ℕ) (response : List ℕ) (blocks : List (List ℕ)) : Type 0 where
  pub counted : length blocks ≡ n
  pub sized : AreBlocks blocks
  pub joined : concat_blocks blocks ≡ response

split-IsCut :
    (response : List ℕ) (n : ℕ)
    → length response ≡ n * 8
    → IsCut n response (split_blocks response n 0)
split-IsCut response n e =
    let k : (length response + 7) / 8 ≡ n = omega arith in
    let none_left : n * 8 - length response ≡ 0 = omega arith in
    record {
      counted = length-split_blocks response n 0;
      sized = split_blocks-AreBlocks response n 0;
      joined =
          subst
            (λ j.
              concat_blocks (split_blocks response j 0)
              ≡ response ++ replicate (j * 8 - length response) 0)
            k (concat-split_blocks response)
          ∙ ap (λ j. response ++ replicate j 0) none_left
          ∙ append-nil response;
    }

pub cut_blocks-IsCut :
    (response : List ℕ) (n : ℕ)
    → length response ≡ n * 8
    → IsCut n response (cut_blocks response n 0)
cut_blocks-IsCut response n e =
    subst (IsCut n response) (sym (cut-split response n 0 (omega arith))) (split-IsCut response n e)
