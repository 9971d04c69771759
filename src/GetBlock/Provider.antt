-- ===== src/GetBlock/Provider.antt =====
-- GetBlockManager::onFrame (src/cants/GetBlockManager.cpp): the receiver thread's handler. The mutex
-- makes each locked section atomic.
use cannect.Base.{
  ℕ, zero, suc, ◌+◌, ◌*◌, Bool, true, false, not, ◌&&◌, ◌||◌, Option, none, some, List, [], ◌∷◌,
  ◌++◌, min, u8, ◌==◌, leb, ltb, if◌then◌else◌, length, set, take, drop,
}
use cannect.Types.{CanFrame, CanTsHeader, payload, getblock, can_frame_max_data}
use cannect.Codec.{
  GetBlockFrameType, can_ts_max_block_bytes, make_get_block_command, get_get_block_type,
  get_get_block_low6, ack_command_low7, all_blocks_received, bitmap_bit_is_set,
}
use cannect.SetBlock.Receiver.{is_empty, concat_blocks}
use cannect.GetBlock.State.{
  Handler, Effect, send, ask, Session, PendingState, GetBlockManager, store,
}

-- The header that the ACK and NACK answers build.
abbrev pub reply : GetBlockManager → CanTsHeader → GetBlockFrameType → CanTsHeader
reply m h type = record {
  to = h.from;
  from = m.local_address;
  type = getblock;
  command = make_get_block_command type (ack_command_low7 h.command);
}

-- What the handler answers; without a handler the answer is false and the response is empty.
abbrev pub run_handler : Option Handler → ℕ → (Bool × List ℕ) × List Effect
run_handler none from = ((false, []), [])
run_handler (some f) from = (f from 0, ask from 0 ∷ [])

-- The loop that cuts the response: block `i` is bytes `8 i` up to `8 (i + 1)`.
abbrev pub cut_blocks : List ℕ → ℕ → ℕ → List (List ℕ)
cut_blocks response zero i = []
cut_blocks response (suc n) i =
    take can_frame_max_data (drop (i * can_frame_max_data) response) ∷ cut_blocks response n (i + 1)

-- The session of a REQUEST that is accepted.
abbrev pub fresh_session : ℕ → CanTsHeader → CanFrame → ℕ → List ℕ → Session
fresh_session now h frame num_blocks response = record {
  peer = h.from;
  channel = 0;
  address = payload frame;
  num_blocks = num_blocks;
  blocks = cut_blocks response num_blocks 0;
  last_activity = now;
  prepared = true;
  accepted = true;
}

-- The test that refuses a REQUEST.
abbrev pub refuses : Bool → List ℕ → ℕ → CanFrame → Bool
refuses ok response num_blocks frame =
    not ok
    || num_blocks == 0
    || ltb 64 num_blocks
    || ltb can_ts_max_block_bytes (length response)
    || not (length response == num_blocks * can_frame_max_data)
    || frame.dlc == 0

-- case REQUEST, with the time that `steady_clock::now()` reads.
unfoldable pub on_request :
    GetBlockManager → ℕ → CanTsHeader → CanFrame → GetBlockManager × List Effect
on_request m now h frame =
    let num_blocks = u8 (get_get_block_low6 h.command + 1) in
    let r = run_handler m.handler h.from in
    if refuses (r.0).0 (r.0).1 num_blocks frame
    then (m, r.1 ++ send (reply m h GetBlockFrameType.nack) frame.bytes frame.dlc ∷ [])
    else (
      record m {
        sessions = store m.sessions h.from (some (fresh_session now h frame num_blocks (r.0).1));
      },
      r.1 ++ send (reply m h GetBlockFrameType.ack) frame.bytes frame.dlc ∷ [],
    )

-- The loop that clears the blocks whose bit is not set, from block `i` on, `n` of them.
unfoldable pub mask_blocks : List ℕ → ℕ → ℕ → List (List ℕ) → List (List ℕ)
mask_blocks bitmap zero i blocks = blocks
mask_blocks bitmap (suc n) i [] = []
mask_blocks bitmap (suc n) i (b ∷ blocks) =
    (if not (bitmap_bit_is_set bitmap i) then [] else b) ∷ mask_blocks bitmap n (i + 1) blocks

-- The header of TRANSFER `i`.
abbrev pub transfer_header : ℕ → ℕ → ℕ → CanTsHeader
transfer_header local_address to i = record {
  to = to;
  from = local_address;
  type = getblock;
  command = make_get_block_command GetBlockFrameType.transfer i;
}

-- The loop that sends the blocks which are not empty, from block `i` on, `n` of them.
unfoldable pub send_blocks : ℕ → ℕ → ℕ → ℕ → List (List ℕ) → List Effect
send_blocks local_address to zero i blocks = []
send_blocks local_address to (suc n) i [] = []
send_blocks local_address to (suc n) i (b ∷ blocks) =
    let rest = send_blocks local_address to n (i + 1) blocks in
    if is_empty b
    then rest
    else send (transfer_header local_address to i) b (u8 (min (length b) can_frame_max_data)) ∷ rest

-- case START, at an accepted session.
unfoldable pub start_transfers :
    GetBlockManager → ℕ → CanTsHeader → CanFrame → Session → GetBlockManager × List Effect
start_transfers m now h frame s = (
  record m { sessions = store m.sessions h.from (some (record s { last_activity = now })) },
  send_blocks m.local_address h.from s.num_blocks 0
      (mask_blocks (payload frame) s.num_blocks 0 s.blocks),
)

-- case START.
unfoldable pub on_start :
    GetBlockManager → ℕ → CanTsHeader → CanFrame → GetBlockManager × List Effect
on_start m now h frame =
    let refused : GetBlockManager × List Effect =
      (m, send (reply m h GetBlockFrameType.nack) frame.bytes frame.dlc ∷ []) in
    elim (m.sessions h.from) [
      | none ↦ refused
      | some s ↦ if s.accepted then start_transfers m now h frame s else refused
    ]

-- case ABORT, which is not answered.
unfoldable pub on_abort : GetBlockManager → CanTsHeader → GetBlockManager
on_abort m h = record m { sessions = store m.sessions h.from none }

-- cases ACK and NACK change `pending` only.
unfoldable pub on_ack : PendingState → CanTsHeader → PendingState
on_ack p h =
    if p.waiting_ack && p.peer == h.from then record p { acked = true; waiting_ack = false } else p

unfoldable pub on_nack : PendingState → CanTsHeader → PendingState
on_nack p h =
    if (p.waiting_ack || p.waiting_transfers) && p.peer == h.from
    then record p { done = true; ok = false }
    else p

-- case TRANSFER, where the block is stored.
unfoldable pub take_block : PendingState → ℕ → CanFrame → PendingState
take_block p seq frame = record p {
  blocks = set p.blocks seq (payload frame);
  received = set p.received seq true;
}

-- case TRANSFER, once every block has come.
unfoldable pub complete : PendingState → List ℕ → PendingState × List ℕ
complete p last_data =
    if all_blocks_received p.received
    then (record p { done = true; ok = true }, concat_blocks (take p.num_blocks p.blocks))
    else (p, last_data)

-- case TRANSFER, which changes `pending` and `lastData`.
unfoldable pub on_transfer : PendingState → List ℕ → CanTsHeader → CanFrame → PendingState × List ℕ
on_transfer p last_data h frame =
    let seq = get_get_block_low6 h.command in
    if not p.waiting_transfers || not (p.peer == h.from)
    then (p, last_data)
    else if leb p.num_blocks seq
    then (p, last_data)
    else complete (take_block p seq frame) last_data

abbrev pub with_pending : GetBlockManager → PendingState × List ℕ → GetBlockManager × List Effect
with_pending m t = (record m { pending = t.0; last_data = t.1 }, [])

-- The `switch` of `onFrame`.
unfoldable pub dispatch :
    GetBlockFrameType → GetBlockManager → ℕ → CanTsHeader → CanFrame → GetBlockManager × List Effect
dispatch GetBlockFrameType.request m now h frame = on_request m now h frame
dispatch GetBlockFrameType.start m now h frame = on_start m now h frame
dispatch GetBlockFrameType.abort m now h frame = (on_abort m h, [])
dispatch GetBlockFrameType.ack m now h frame = with_pending m (on_ack m.pending h, m.last_data)
dispatch GetBlockFrameType.nack m now h frame = with_pending m (on_nack m.pending h, m.last_data)
dispatch GetBlockFrameType.transfer m now h frame =
    with_pending m (on_transfer m.pending m.last_data h frame)
dispatch (GetBlockFrameType.other n) m now h frame = (m, [])

unfoldable pub on_frame :
    GetBlockManager → ℕ → CanTsHeader → CanFrame → GetBlockManager × List Effect
unfolding dispatch
on_frame m now h frame = dispatch (get_get_block_type h.command) m now h frame
