-- ===== src/GetBlock/Sessions.antt =====
-- What holds of the sessions of a providing node, whatever frames arrive, and what START then sends.
use cannect.Base.{
  ℕ, ◌+◌, ◌*◌, ◌≤◌, ◌≡◌, refl, subst, arith, Bool, true, false, some, List, [], ◌∷◌, length, u8,
  if◌then◌else◌, Bool-cases, inl, inr,
}
use mathlib.Core.Path.{ap₂}
use cannect.Types.{CanFrame, CanTsHeader, payload}
use cannect.Codec.{GetBlockFrameType, get_get_block_type, get_get_block_low6, bitmap_bit_is_set}
use cannect.SetBlock.Sender.{Arrival}
use cannect.SetBlock.Blocks.{AreBlocks}
use cannect.GetBlock.State.{Session, GetBlockManager, Effect, send, new, store}
use cannect.GetBlock.Provider.{
  fresh_session, refuses, run_handler, on_start, start_transfers, on_abort, mask_blocks,
  send_blocks, transfer_header, dispatch, on_frame,
}
use cannect.GetBlock.Requester.{on_frames}
use cannect.GetBlock.Cut.{cut_blocks-IsCut}
use cannect.GetBlock.Progress.{on_request_cases, on_start_cases}
use cannect.GetBlock.Collect.{block_size}

-- A session is accepted, and holds 1 to 64 blocks of eight bytes, as many as it counts.
pub record IsSession (s : Session) : Type 0 where
  pub counted : length s.blocks ≡ s.num_blocks
  pub sized : AreBlocks s.blocks
  pub some_block : 1 ≤ s.num_blocks
  pub few_blocks : s.num_blocks ≤ 64
  pub is_accepted : s.accepted ≡ true

-- Every stored session is such, and stands under its peer's address.
abbrev pub AreProvided : GetBlockManager → Type 0
AreProvided m = (k : ℕ) (s : Session) → m.sessions k ≡ some s → IsSession s × (s.peer ≡ k)

pub store-AreProvided :
    (m : GetBlockManager) (key : ℕ) (s : Session)
    → AreProvided m
    → IsSession s
    → s.peer ≡ key
    → AreProvided (record m { sessions = store m.sessions key (some s) })
store-AreProvided m key s all one p k t e = ground (arith, all k t)

accepts :
    (ok : Bool) (response : List ℕ) (n : ℕ) (frame : CanFrame)
    → refuses ok response n frame ≡ false
    → (length response ≡ n * 8) × (1 ≤ n) × (n ≤ 64)
accepts ok response n frame e = ground arith

fresh-IsSession :
    (ok : Bool) (now n : ℕ) (h : CanTsHeader) (frame : CanFrame) (response : List ℕ)
    → refuses ok response n frame ≡ false
    → IsSession (fresh_session now h frame n response)
fresh-IsSession ok now n h frame response e =
    let (size, lo, hi) = accepts ok response n frame e in
    let cut = cut_blocks-IsCut response n size in
    record {
      counted = cut.counted;
      sized = cut.sized;
      some_block = lo;
      few_blocks = hi;
      is_accepted = refl;
    }

dispatch-AreProvided :
    (type : GetBlockFrameType) (m : GetBlockManager) (now : ℕ) (h : CanTsHeader) (frame : CanFrame)
    → AreProvided m
    → AreProvided (dispatch type m now h frame).0
unfolding dispatch start_transfers on_abort
dispatch-AreProvided GetBlockFrameType.request m now h frame all =
    let r = run_handler m.handler h.from in
    on_request_cases (λ t. AreProvided t.0) m now h frame (λ _. all)
      λ e.
        store-AreProvided m h.from
          (fresh_session now h frame (u8 (get_get_block_low6 h.command + 1)) (r.0).1) all
          (fresh-IsSession (r.0).0 now (u8 (get_get_block_low6 h.command + 1)) h frame (r.0).1 e)
          refl
dispatch-AreProvided GetBlockFrameType.start m now h frame all =
    on_start_cases (λ t. AreProvided t.0) m now h frame all
      λ s e a.
        let v = (all h.from s e).0 in
        store-AreProvided m h.from (record s { last_activity = now }) all
          (record {
            counted = v.counted;
            sized = v.sized;
            some_block = v.some_block;
            few_blocks = v.few_blocks;
            is_accepted = v.is_accepted;
          })
          (all h.from s e).1
dispatch-AreProvided GetBlockFrameType.abort m now h frame all = λ k s e. ground (arith, all k s)
dispatch-AreProvided GetBlockFrameType.ack m now h frame all = all
dispatch-AreProvided GetBlockFrameType.nack m now h frame all = all
dispatch-AreProvided GetBlockFrameType.transfer m now h frame all = all
dispatch-AreProvided (GetBlockFrameType.other n) m now h frame all = all

-- After any frames at all, from a manager with no sessions on, each session of a providing node holds
-- 1 to 64 blocks of eight bytes, as many as it counts, is accepted, and is stored under its peer.
pub on_frames-AreProvided :
    (m : GetBlockManager) (arrivals : List Arrival)
    → AreProvided m
    → AreProvided (on_frames m arrivals).0
unfolding on_frames on_frame
on_frames-AreProvided m [] all = all
on_frames-AreProvided m (a ∷ rest) all =
    on_frames-AreProvided (on_frame m a.now a.header a.frame).0 rest
      (dispatch-AreProvided (get_get_block_type a.header.command) m a.now a.header a.frame all)

pub new-AreProvided : (local_address : ℕ) → AreProvided (new local_address)
new-AreProvided local_address k s e = cc

-- The blocks with their numbers, and those of them that a bitmap marks.
abbrev pub numbered : ℕ → List (List ℕ) → List (ℕ × List ℕ)
numbered i [] = []
numbered i (b ∷ blocks) = (i, b) ∷ numbered (i + 1) blocks

abbrev pub marked : List ℕ → List (ℕ × List ℕ) → List (ℕ × List ℕ)
marked bitmap [] = []
marked bitmap (e ∷ es) =
    let rest = marked bitmap es in if bitmap_bit_is_set bitmap e.0 then e ∷ rest else rest

abbrev pub sent_each : ℕ → ℕ → List (ℕ × List ℕ) → List Effect
sent_each local to [] = []
sent_each local to (e ∷ es) = send (transfer_header local to e.0) e.1 8 ∷ sent_each local to es

masked_sent :
    (local to i : ℕ) (bitmap : List ℕ) (blocks : List (List ℕ))
    → AreBlocks blocks
    → send_blocks local to (length blocks) i (mask_blocks bitmap (length blocks) i blocks)
      ≡ sent_each local to (marked bitmap (numbered i blocks))
unfolding send_blocks mask_blocks
masked_sent local to i bitmap [] sized = refl
masked_sent local to i bitmap (b ∷ blocks) sized =
    let rest = masked_sent local to (i + 1) bitmap blocks sized.1 in
    let (full, size) = block_size b sized.0 in
    elim (Bool-cases (bitmap_bit_is_set bitmap i)) [
      | inl e ↦ rw (e, full) (ap₂ (λ d es. send (transfer_header local to i) b d ∷ es) size rest)
      | inr e ↦ rw e rest
    ]

-- With well-formed sessions, a START from a peer that has a session is answered by a TRANSFER of each
-- block whose bit is set in its payload, all eight bytes of it, in increasing order, and nothing else.
pub on_start-sends_marked :
    (m : GetBlockManager) (now : ℕ) (h : CanTsHeader) (frame : CanFrame) (s : Session)
    → AreProvided m
    → m.sessions h.from ≡ some s
    → (on_start m now h frame).1
      ≡ sent_each m.local_address h.from (marked (payload frame) (numbered 0 s.blocks))
unfolding on_start start_transfers
on_start-sends_marked m now h frame s all found =
    let v = (all h.from s found).0 in
    rw (found, on_start)
      (rw v.is_accepted (
        subst
          (λ n.
            send_blocks m.local_address h.from n 0 (mask_blocks (payload frame) n 0 s.blocks)
            ≡ sent_each m.local_address h.from (marked (payload frame) (numbered 0 s.blocks)))
          v.counted (masked_sent m.local_address h.from 0 (payload frame) s.blocks v.sized)))
