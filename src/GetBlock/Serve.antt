-- ===== src/GetBlock/Serve.antt =====
-- A providing node through one block-read transaction: REQUEST, then START with every bit set.

use mathlib.Core.Path.{ap₂}
use cannect.Base.{
  ℕ, zero, suc, ◌+◌, ◌*◌, ◌≤◌, ◌<◌, ◌≡◌, refl, ◌∙◌, ap, subst, arith, Bool, true, false, not,
  Option, some, List, [], ◌∷◌, ◌++◌, length, replicate, ◌==◌, if◌then◌else◌, if_true, if_false, u8,
}
use cannect.Bits.{all_below, all_below_sound}
use cannect.Types.{CanFrame, CanTsHeader, payload}
use cannect.Codec.{
  GetBlockFrameType, get_get_block_type, get_get_block_low6, bitmap_bit_is_set, bitmap_size_bytes,
}
use cannect.GetBlock.State.{Handler, Session, GetBlockManager, Effect, send, ask, store}
use cannect.GetBlock.Provider.{
  reply, run_handler, refuses, fresh_session, cut_blocks, on_request, mask_blocks, send_blocks,
  start_transfers, on_start, dispatch, on_frame,
}
use cannect.GetBlock.Requester.{start_bitmap}
use cannect.GetBlock.Cut.{IsCut, cut_blocks-IsCut}
use cannect.GetBlock.Collect.{transfers, send_blocks-transfers}

-- `on_request` past the handler.
abbrev answer_with :
    GetBlockManager
    → ℕ
    → CanTsHeader
    → CanFrame
    → (Bool × List ℕ) × List Effect
    → ℕ
    → GetBlockManager × List Effect
answer_with m now h frame r n =
    if refuses (r.0).0 (r.0).1 n frame
    then (m, r.1 ++ send (reply m h GetBlockFrameType.nack) frame.bytes frame.dlc ∷ [])
    else (
      record m { sessions = store m.sessions h.from (some (fresh_session now h frame n (r.0).1)) },
      r.1 ++ send (reply m h GetBlockFrameType.ack) frame.bytes frame.dlc ∷ [],
    )

request_accepted :
    (q : GetBlockManager) (f : Handler) (now n : ℕ) (response : List ℕ) (h : CanTsHeader)
    (frame : CanFrame)
    → q.handler ≡ some f
    → f h.from 0 ≡ (true, response)
    → 1 ≤ n
    → n ≤ 64
    → length response ≡ n * 8
    → u8 (get_get_block_low6 h.command + 1) ≡ n
    → 1 ≤ frame.dlc
    → on_request q now h frame ≡ (
      record q { sessions = store q.sessions h.from (some (fresh_session now h frame n response)) },
      ask h.from 0 ∷ send (reply q h GetBlockFrameType.ack) frame.bytes frame.dlc ∷ [],
    )
unfolding on_request
request_accepted q f now n response h frame set gives lo hi size e full =
    let good : refuses true response n frame ≡ false = ground arith in
    ap
      (λ g.
        answer_with q now h frame (run_handler g h.from) (u8 (get_get_block_low6 h.command + 1)))
      set
    ∙ ap₂ (λ r k. answer_with q now h frame (r, ask h.from 0 ∷ []) k) gives e
    ∙ if_false _ _ good

start_accepted :
    (q : GetBlockManager) (now : ℕ) (h : CanTsHeader) (frame : CanFrame) (s : Session)
    → q.sessions h.from ≡ some s
    → s.accepted ≡ true
    → on_start q now h frame ≡ start_transfers q now h frame s
unfolding on_start
start_accepted q now h frame s found a = rw (found, on_start) (if_true _ _ a)

-- A mask of ones leaves the blocks as they are.
mask_kept :
    (bitmap : List ℕ) (n i : ℕ) (blocks : List (List ℕ))
    → ((j : ℕ) → i ≤ j → j < i + n → bitmap_bit_is_set bitmap j ≡ true)
    → mask_blocks bitmap n i blocks ≡ blocks
unfolding mask_blocks
mask_kept bitmap zero i blocks all = refl
mask_kept bitmap (suc n) i [] all = refl
mask_kept bitmap (suc n) i (b ∷ blocks) all =
    let marked : not (bitmap_bit_is_set bitmap i) ≡ false =
      ap not (all i (omega arith) (omega arith)) in
    ap₂ ◌∷◌ (if_false _ _ marked)
      (mask_kept bitmap n (i + 1) blocks (λ j lo hi. all j (omega arith) (omega arith)))

-- The bitmap that `getBlock` sends has a bit for each of its 64 blocks.
pub start_bitmap-eq : start_bitmap 64 ≡ replicate 8 0xff
unfolding start_bitmap bitmap_size_bytes
start_bitmap-eq = refl

all_marked : all_below 64 (bitmap_bit_is_set (replicate 8 0xff)) ≡ true
unfolding all_below bitmap_bit_is_set
all_marked = refl

stored :
    (sessions : ℕ → Option Session) (key k : ℕ) (v : Option Session)
    → k ≡ key
    → store sessions key v k ≡ v
stored sessions key k v e = let same : (k == key) ≡ true = ground arith in if_true _ _ same

-- The answers to a REQUEST for 64 blocks that the handler gives the data for, and to START.
pub request_served :
    (q : GetBlockManager) (f : Handler) (now : ℕ) (response : List ℕ) (h : CanTsHeader)
    (frame : CanFrame) (bitmap : CanFrame) (g : CanTsHeader)
    → q.handler ≡ some f
    → f h.from 0 ≡ (true, response)
    → length response ≡ 512
    → get_get_block_type h.command ≡ GetBlockFrameType.request
    → get_get_block_low6 h.command ≡ 63
    → 1 ≤ frame.dlc
    → get_get_block_type g.command ≡ GetBlockFrameType.start
    → g.from ≡ h.from
    → payload bitmap ≡ replicate 8 0xff
    → let r = on_frame q now h frame in
      (r.1 ≡ ask h.from 0 ∷ send (reply q h GetBlockFrameType.ack) frame.bytes frame.dlc ∷ [])
      × ((blocks : List (List ℕ)) × IsCut 64 response blocks
          × ((on_frame r.0 now g bitmap).1 ≡ transfers q.local_address h.from 0 blocks))
unfolding on_frame dispatch start_transfers
request_served q f now response h frame bitmap g set gives size request low6 full start from bits =
    let accepted =
      request_accepted q f now 64 response h frame set gives (omega arith) (omega arith) size
        (omega (arith, low6)) full in
    let first : on_frame q now h frame ≡ _ =
      ap (λ t. dispatch t q now h frame) request ∙ accepted in
    let s = fresh_session now h frame 64 response in
    let q' = record q { sessions = store q.sessions h.from (some s) } in
    let cut = cut_blocks-IsCut response 64 size in
    let found : q'.sessions g.from ≡ some s = stored q.sessions h.from g.from (some s) from in
    let all : (j : ℕ) → 0 ≤ j → j < 0 + 64 → bitmap_bit_is_set (payload bitmap) j ≡ true =
      λ j lo hi.
        ap (λ b. bitmap_bit_is_set b j) bits
        ∙ all_below_sound 64 (bitmap_bit_is_set (replicate 8 0xff)) j all_marked (omega arith) in
    (
      ap (λ r. r.1) first,
      (
        cut_blocks response 64 0,
        cut,
        ap (λ r. (on_frame r.0 now g bitmap).1) first
            ∙ ap (λ t. (dispatch t q' now g bitmap).1) start
            ∙ ap (λ r. r.1) (start_accepted q' now g bitmap s found refl)
            ∙ ap₂ (λ a bs. send_blocks q.local_address a 64 0 bs) from
                (mask_kept (payload bitmap) 64 0 (cut_blocks response 64 0) all)
            ∙ subst
                (λ k.
                  send_blocks q.local_address h.from k 0 (cut_blocks response 64 0)
                  ≡ transfers q.local_address h.from 0 (cut_blocks response 64 0))
                cut.counted
                (send_blocks-transfers q.local_address h.from 0 (cut_blocks response 64 0)
                  cut.sized),
      ),
    )
