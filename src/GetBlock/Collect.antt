-- ===== src/GetBlock/Collect.antt =====
-- A requesting node that is sent all the blocks in order collects the data.
use mathlib.Core.Path.{ap₂}
use mathlib.Core.List.{append-nil, append_assoc}
use cannect.Base.{
  ℕ, zero, suc, ◌+◌, ◌≤◌, ◌<◌, ◌≡◌, refl, sym, ◌∙◌, ap, arith, true, false, not, ◌||◌, List, [],
  ◌∷◌, ◌++◌, length, take, replicate, set, leb, ◌==◌, if_true, if_false, length-append, u8, min,
}
use cannect.Types.{CanFrame, CanTsHeader, payload}
use cannect.Codec.{GetBlockFrameType, get_get_block_type, get_get_block_low6, all_blocks_received}
use cannect.Codec.Command.{get_block_command_fields}
use cannect.Wire.{make_frame}
use cannect.SetBlock.Receiver.{concat_blocks, is_empty}
use cannect.SetBlock.Blocks.{AreBlocks}
use cannect.SetBlock.Link.{received}
use cannect.SetBlock.Transfers.{take_all, payload_of_block}
use cannect.GetBlock.State.{PendingState, Effect, send}
use cannect.GetBlock.Provider.{on_transfer, take_block, complete, send_blocks, transfer_header}
use cannect.GetBlock.Requester.{started, armed}
use cannect.GetBlock.Progress.{Progress, step_progress, next_progress, progress_after}
use cannect.GetBlock.Link.{arrivals, decode-header}

-- The request is acknowledged.
abbrev pub acked_pending : ℕ → ℕ → PendingState
acked_pending peer n = record (started peer n) { acked = true; waiting_ack = false }

-- The blocks `pre` have come, and `k` are missing.
abbrev pub collecting : ℕ → ℕ → ℕ → List (List ℕ) → PendingState
collecting peer n k pre = record (armed n (acked_pending peer n)) {
  blocks = pre ++ replicate k [];
  received = replicate (length pre) true ++ replicate k false;
}

set_at {ℓ} :
    {A : Type ℓ} (pre rest : List A) (x v : A)
    → set (pre ++ x ∷ rest) (length pre) v ≡ (pre ++ v ∷ []) ++ rest
set_at [] rest x v = refl
set_at (p ∷ pre) rest x v = ap (λ t. p ∷ t) (set_at pre rest x v)

set_flag :
    (a b : ℕ)
    → set (replicate a true ++ replicate (suc b) false) a true
      ≡ replicate (suc a) true ++ replicate b false
set_flag zero b = refl
set_flag (suc a) b = ap (λ t. true ∷ t) (set_flag a b)

some_missing : (a b : ℕ) → all_blocks_received (replicate a true ++ replicate (suc b) false) ≡ false
unfolding all_blocks_received
some_missing zero b = refl
some_missing (suc a) b = some_missing a b

none_missing : (a : ℕ) → all_blocks_received (replicate a true ++ []) ≡ true
unfolding all_blocks_received
none_missing zero = refl
none_missing (suc a) = none_missing a

-- One block is stored.
block_taken :
    (peer n k : ℕ) (pre : List (List ℕ)) (frame : CanFrame)
    → take_block (collecting peer n (suc k) pre) (length pre) frame
      ≡ collecting peer n k (pre ++ payload frame ∷ [])
unfolding take_block
block_taken peer n k pre frame =
    let more : length (pre ++ payload frame ∷ []) ≡ suc (length pre) =
      omega (arith, length-append pre (payload frame ∷ [])) in
    ap₂ (λ bs r. record (collecting peer n k pre) { blocks = bs; received = r })
      (set_at pre (replicate k []) [] (payload frame))
      (set_flag (length pre) k ∙ ap (λ a. replicate a true ++ replicate k false) (sym more))

transfer_taken :
    (peer n k : ℕ) (pre : List (List ℕ)) (last : List ℕ) (h : CanTsHeader) (frame : CanFrame)
    → h.from ≡ peer
    → get_get_block_low6 h.command ≡ length pre
    → length pre < n
    → on_transfer (collecting peer n (suc k) pre) last h frame
      ≡ complete (collecting peer n k (pre ++ payload frame ∷ [])) last
unfolding on_transfer
transfer_taken peer n k pre last h frame from at lt =
    let p = collecting peer n (suc k) pre in
    let ours : (not true || not (peer == h.from)) ≡ false = ground arith in
    let inside : leb n (get_get_block_low6 h.command) ≡ false = ground arith in
    if_false _ _ ours
    ∙ if_false _ _ inside
    ∙ ap (λ i. complete (take_block p i frame) last) at
    ∙ ap (λ t. complete t last) (block_taken peer n k pre frame)

-- The transaction once every block has come.
abbrev pub collected : ℕ → ℕ → List (List ℕ) → Progress
collected peer n blocks = record {
  pending = record (collecting peer n 0 blocks) { done = true; ok = true };
  last_data = concat_blocks blocks;
}

complete_more :
    (peer n k : ℕ) (pre : List (List ℕ)) (last : List ℕ)
    → complete (collecting peer n (suc k) pre) last ≡ (collecting peer n (suc k) pre, last)
unfolding complete
complete_more peer n k pre last = if_false _ _ (some_missing (length pre) k)

complete_all :
    (peer n : ℕ) (pre : List (List ℕ)) (last : List ℕ)
    → length pre ≡ n
    → complete (collecting peer n 0 pre) last
      ≡ (record (collecting peer n 0 pre) { done = true; ok = true }, concat_blocks pre)
unfolding complete
complete_all peer n pre last e =
    if_true _ _ (none_missing (length pre))
    ∙ ap (λ bs. (record (collecting peer n 0 pre) { done = true; ok = true }, concat_blocks bs))
        (ap (take n) (append-nil pre) ∙ ap (λ k. take k pre) (sym e) ∙ take_all pre)

abbrev pair : PendingState × List ℕ → Progress
pair t = record { pending = t.0; last_data = t.1 }

block_arrives :
    (peer local now n k : ℕ) (pre : List (List ℕ)) (b last : List ℕ)
    → peer < 256
    → local < 256
    → n ≤ 64
    → length pre < n
    → length b ≡ 8
    → next_progress
        (record { pending = collecting peer n (suc k) pre; last_data = last })
        (received now (transfer_header peer local (length pre)) b 8)
      ≡ pair (complete (collecting peer n k (pre ++ b ∷ [])) last)
block_arrives peer local now n k pre b last hp hl hn lt e =
    let p : Progress = record { pending = collecting peer n (suc k) pre; last_data = last } in
    let h = transfer_header peer local (length pre) in
    let f = make_frame h b 8 in
    let (type, low6, _) =
      get_block_command_fields GetBlockFrameType.transfer (length pre) refl (omega arith) in
    ap (λ g. step_progress (get_get_block_type g.command) p g f)
      (decode-header peer local GetBlockFrameType.transfer (length pre) 8 b hp hl (omega arith))
    ∙ ap (λ t. step_progress t p h f) type
    ∙ ap pair (transfer_taken peer n k pre last h f refl (omega (arith, low6)) lt)
    ∙ ap (λ l. pair (complete (collecting peer n k (pre ++ l ∷ [])) last)) (payload_of_block h b e)

-- A TRANSFER for each block, in order, the first one numbered `i`.
abbrev pub transfers : ℕ → ℕ → ℕ → List (List ℕ) → List Effect
transfers peer local i [] = []
transfers peer local i (b ∷ bs) =
    send (transfer_header peer local i) b 8 ∷ transfers peer local (i + 1) bs

pub block_size : (b : List ℕ) → length b ≡ 8 → (is_empty b ≡ false) × (u8 (min (length b) 8) ≡ 8)
block_size [] e = absurd (omega arith)
block_size (x ∷ b) e = (refl, omega arith)

pub send_blocks-transfers :
    (peer local i : ℕ) (bs : List (List ℕ))
    → AreBlocks bs
    → send_blocks peer local (length bs) i bs ≡ transfers peer local i bs
unfolding send_blocks
send_blocks-transfers peer local i [] sized = refl
send_blocks-transfers peer local i (b ∷ bs) sized =
    let (full, size) = block_size b sized.0 in
    if_false _ _ full
    ∙ ap₂ (λ d es. send (transfer_header peer local i) b d ∷ es) size
        (send_blocks-transfers peer local (i + 1) bs sized.1)

-- The frames of all the blocks, from `length pre` on, complete the transaction.
pub blocks_collected :
    (peer local now n : ℕ) (pre : List (List ℕ)) (b : List ℕ) (bs : List (List ℕ)) (last : List ℕ)
    → peer < 256
    → local < 256
    → n ≤ 64
    → length pre + length (b ∷ bs) ≡ n
    → AreBlocks (b ∷ bs)
    → progress_after
        (record { pending = collecting peer n (length (b ∷ bs)) pre; last_data = last })
        (arrivals now (transfers peer local (length pre) (b ∷ bs)))
      ≡ collected peer n (pre ++ b ∷ bs)
blocks_collected peer local now n pre b [] last hp hl hn e sized =
    block_arrives peer local now n 0 pre b last hp hl hn (omega arith) sized.0
    ∙ ap pair (complete_all peer n (pre ++ b ∷ []) last (length-append pre (b ∷ []) ∙ e))
blocks_collected peer local now n pre b (b' ∷ bs) last hp hl hn e sized =
    let at : length (pre ++ b ∷ []) ≡ length pre + 1 = length-append pre (b ∷ []) in
    let rest = arrivals now (transfers peer local (length pre + 1) (b' ∷ bs)) in
    ap (λ p. progress_after p rest)
      (block_arrives peer local now n (suc (length bs)) pre b last hp hl hn (omega arith) sized.0
        ∙ ap pair (complete_more peer n (length bs) (pre ++ b ∷ []) last))
    ∙ ap
        (λ i.
          progress_after
            (record {
              pending = collecting peer n (length (b' ∷ bs)) (pre ++ b ∷ []);
              last_data = last;
            })
            (arrivals now (transfers peer local i (b' ∷ bs))))
        (sym at)
    ∙ blocks_collected peer local now n (pre ++ b ∷ []) b' bs last hp hl hn (omega (arith, at))
        sized.1
    ∙ ap (collected peer n) (append_assoc pre (b ∷ []) (b' ∷ bs))
