-- ===== src/SetBlock/Report.antt =====
-- The end of a block-write transaction: STATUS_REQUEST at the receiving node, REPORT at the sender.
use mathlib.Core.Path.{ap₂}
use cannect.Base.{
  ℕ, zero, suc, ◌+◌, ◌≤◌, ◌<◌, ◌≡◌, refl, sym, ◌∙◌, ap, arith, Bool, true, false, not, Option, some,
  List, [], ◌∷◌, ◌++◌, length, take, replicate, length-replicate, ◌&&◌, bit_and, u8, min, get_or,
  if_true,
}
use cannect.Types.{CanFrame, CanTsHeader, payload, setblock}
use cannect.Codec.{
  SetBlockFrameType, get_set_block_type, make_set_block_report_command, decode, make_bitmap,
  all_blocks_received, bitmap_bit_is_set, bitmap_size_bytes,
}
use cannect.Codec.Command.{report_as_sum}
use cannect.Codec.Bitmap.{length-make_bitmap, bitmap_bit_is_set-make_bitmap}
use cannect.Wire.{make_frame, payload-make_frame}
use cannect.SetBlock.State.{Handler, Session, SetBlockManager, send, call}
use cannect.SetBlock.Receiver.{
  is_empty, report, assembled_data, hand_over, run_handler, report_status, on_status_request,
  on_frame, dispatch, concat_blocks, received_blocks,
}
use cannect.SetBlock.Sender.{all_bits_set}
use cannect.SetBlock.Blocks.{AreBlocks, received_blocks-AreBlocks}
use cannect.SetBlock.Link.{decode-block_header}
use cannect.SetBlock.Peer.{Receiving, on_frame-dispatch}
use cannect.SetBlock.Transfers.{take_all}

-- The REPORT of a node whose `n` blocks have all come and been taken.
abbrev pub full_bitmap : ℕ → List ℕ
full_bitmap n = make_bitmap (replicate n true)

abbrev pub full_report : ℕ → ℕ → ℕ → CanTsHeader
full_report peer local n = record {
  to = local;
  from = peer;
  type = setblock;
  command = make_set_block_report_command (u8 (bit_and (length (full_bitmap n)) 0x3f)) true;
}

all_true : (n : ℕ) → all_blocks_received (replicate n true) ≡ true
unfolding all_blocks_received
all_true zero = refl
all_true (suc n) = all_true n

concat_not_empty :
    (bs : List (List ℕ)) → AreBlocks bs → 1 ≤ length bs → is_empty (concat_blocks bs) ≡ false
concat_not_empty [] h l = absurd (omega arith)
concat_not_empty ([] ∷ bs) h l = absurd (omega arith)
concat_not_empty ((x ∷ b) ∷ bs) h l = refl

take-append {ℓ} : {A : Type ℓ} (xs ys : List A) → take (length xs) (xs ++ ys) ≡ xs
take-append [] ys = refl
take-append (x ∷ xs) ys = ap (λ t. x ∷ t) (take-append xs ys)

-- All slots of the session hold the blocks that came.
session_blocks :
    {q : SetBlockManager} {handler : Option Handler} {peer local n : ℕ} {bs : List (List ℕ)}
    (v : Receiving q handler peer local n 0 bs)
    → length bs ≡ n
    → take v.session.num_blocks v.session.blocks ≡ bs
session_blocks {bs = bs} v e = ap₂ take (v.counted ∙ sym e) v.shape ∙ take-append bs v.slots

reported_as :
    (q : SetBlockManager) (h : CanTsHeader) (frame : CanFrame) (s : Session)
    → q.sessions h.from ≡ some s
    → s.accepted ≡ true
    → on_status_request q h frame ≡ report_status q h s
unfolding on_status_request
reported_as q h frame s found accepted = rw (found, on_status_request) (if_true _ _ accepted)

handed_over :
    (q : SetBlockManager) (h : CanTsHeader) (s : Session) (f : Handler) (request : List ℕ)
    → q.handler ≡ some f
    → s.done ≡ false
    → assembled_data s ≡ request
    → is_empty request ≡ false
    → f h.from 0 request ≡ true
    → (report_status q h s).1 ≡ call h.from 0 request ∷ report q h (record s { done = true }) ∷ []
unfolding report_status hand_over
handed_over q h s f request set undone whole some_data takes =
    let r : run_handler q.handler h (assembled_data s) ≡ (true, call h.from 0 request ∷ []) =
      ap₂ (λ g d. run_handler g h d) set whole ∙ ap (λ b. (b, call h.from 0 request ∷ [])) takes in
    let go : (not (is_empty (assembled_data s)) && not s.done) ≡ true =
      rw (whole, some_data, undone) in
    ap (λ t. t.1) (if_true (hand_over q h s) (q, report q h s ∷ []) go)
    ∙ ap (λ t. t.1 ++ report q h (record s { done = t.0 }) ∷ []) r

assembled_full :
    (s : Session) (bs : List (List ℕ))
    → s.done ≡ false
    → take s.num_blocks s.blocks ≡ bs
    → AreBlocks bs
    → assembled_data s ≡ concat_blocks bs
unfolding assembled_data
assembled_full s bs undone e blocks =
    let full : all_blocks_received (received_blocks (take s.num_blocks s.blocks)) ≡ true =
      ap all_blocks_received (ap received_blocks e ∙ received_blocks-AreBlocks bs blocks)
      ∙ all_true (length bs) in
    let go : (all_blocks_received (received_blocks (take s.num_blocks s.blocks)) && not s.done)
        ≡ true =
      rw (full, undone) in
    if_true _ [] go ∙ ap concat_blocks e

-- A complete session whose handler takes the data: one call of it, with the blocks joined in order,
-- and a REPORT with the done bit and a full bitmap.
pub status_reported :
    (q : SetBlockManager) (f : Handler) (peer now n : ℕ) (bs : List (List ℕ)) (h : CanTsHeader)
    (frame : CanFrame)
    → Receiving q (some f) peer h.from n 0 bs
    → length bs ≡ n
    → 1 ≤ n
    → AreBlocks bs
    → f h.from 0 (concat_blocks bs) ≡ true
    → get_set_block_type h.command ≡ SetBlockFrameType.status_request
    → (on_frame q now h frame).1
      ≡ call h.from 0 (concat_blocks bs)
        ∷ send (full_report peer h.from n) (full_bitmap n) (u8 (min (length (full_bitmap n)) 8))
        ∷ []
unfolding dispatch report
status_reported q f peer now n bs h frame v e lo blocks takes t =
    let s = v.session in
    let held = session_blocks v e in
    let bitmap : make_bitmap (received_blocks (take s.num_blocks s.blocks)) ≡ full_bitmap n =
      ap make_bitmap (
        ap received_blocks held
        ∙ received_blocks-AreBlocks bs blocks
        ∙ ap (λ k. replicate k true) e) in
    ap (λ r. r.1) (on_frame-dispatch SetBlockFrameType.status_request q now h frame t)
    ∙ ap (λ r. r.1) (reported_as q h frame s v.found v.accepted)
    ∙ handed_over q h s f (concat_blocks bs) v.same_handler v.undone
        (assembled_full s bs v.undone held blocks) (concat_not_empty bs blocks (omega arith)) takes
    ∙ ap₂
        (λ a bm.
          call h.from 0 (concat_blocks bs)
          ∷ send
              (record {
                to = h.from;
                from = a;
                type = setblock;
                command = make_set_block_report_command (u8 (bit_and (length bm) 0x3f)) true;
              })
              bm (u8 (min (length bm) 8))
          ∷ [])
        v.same_address bitmap

all_bits_set-intro :
    (bitmap : List ℕ) (n i : ℕ)
    → ((j : ℕ) → i ≤ j → j < i + n → bitmap_bit_is_set bitmap j ≡ true)
    → all_bits_set bitmap n i ≡ true
unfolding all_bits_set
all_bits_set-intro bitmap zero i h = refl
all_bits_set-intro bitmap (suc n) i h = ground (
  arith,
  h i (omega arith) (omega arith),
  all_bits_set-intro bitmap n (i + 1) (λ j lo hi. h j (omega arith) (omega arith)),
)

get_or-replicate-true : (n j : ℕ) → j < n → get_or (replicate n true) j false ≡ true
get_or-replicate-true zero j h = absurd (omega arith)
get_or-replicate-true (suc n) zero h = refl
get_or-replicate-true (suc n) (suc j) h = get_or-replicate-true n j (omega arith)

pub full_bitmap-all : (n : ℕ) → all_bits_set (full_bitmap n) n 0 ≡ true
full_bitmap-all n = all_bits_set-intro (full_bitmap n) n 0 λ j lo hi.
    bitmap_bit_is_set-make_bitmap (replicate n true) j ∙ get_or-replicate-true n j (omega arith)

full_bitmap-le : (n : ℕ) → n ≤ 64 → length (full_bitmap n) ≤ 8
unfolding bitmap_size_bytes
full_bitmap-le n h =
    omega (arith, length-make_bitmap (replicate n true), length-replicate {A = Bool} n true)

full_report_header :
    (peer local n : ℕ)
    → peer < 256
    → local < 256
    → let f =
        make_frame
          (full_report peer local n)
          (full_bitmap n)
          (u8 (min (length (full_bitmap n)) 8)) in
      decode f.id ≡ full_report peer local n
unfolding make_frame
full_report_header peer local n hp hl =
    decode-block_header local peer _ hl hp
      (omega (arith, report_as_sum (u8 (bit_and (length (full_bitmap n)) 0x3f)) true))

-- The report as it arrives.
pub full_report_arrives :
    (peer local n : ℕ)
    → peer < 256
    → local < 256
    → n ≤ 64
    → let f =
        make_frame
          (full_report peer local n)
          (full_bitmap n)
          (u8 (min (length (full_bitmap n)) 8)) in
      (decode f.id ≡ full_report peer local n) × (payload f ≡ full_bitmap n)
full_report_arrives peer local n hp hl hn =
    let bm = full_bitmap n in
    let size : u8 (min (length bm) 8) ≡ length bm = omega (arith, full_bitmap-le n hn) in
    (
      full_report_header peer local n hp hl,
      payload-make_frame (full_report peer local n) bm _ (omega (arith, size))
          ∙ ap (λ k. take k bm) size
          ∙ take_all bm,
    )
