-- ===== src/SetBlock/Sender.antt =====
-- SetBlockManager::setBlock (src/cants/SetBlockManager.cpp): the blocking call of another thread. The
-- frames that the receiver thread handles where it does not hold the lock are arguments.
use cannect.Base.{
  ℕ, zero, suc, ◌+◌, ◌-◌, ◌*◌, ◌/◌, Bool, true, false, not, ◌&&◌, ◌||◌, List, [], ◌∷◌, ◌++◌, min,
  u8, ◌==◌, ltb, if◌then◌else◌, length, replicate, take, drop,
}
use cannect.Types.{CanFrame, CanTsHeader, setblock, can_frame_max_data}
use cannect.Codec.{
  SetBlockFrameType, can_ts_max_block_bytes, make_set_block_command, bitmap_bit_is_set,
}
use cannect.SetBlock.State.{
  FrameSender, Effect, send, PendingState, SetBlockManager, no_pending, reset,
}
use cannect.SetBlock.Receiver.{is_empty, on_frame}

-- One frame that the receiver thread handles, and when.
pub record Arrival : Type 0 where
  pub now : ℕ
  pub header : CanTsHeader
  pub frame : CanFrame

unfoldable pub on_frames : SetBlockManager → List Arrival → SetBlockManager × List Effect
on_frames m [] = (m, [])
on_frames m (a ∷ rest) =
    let r = on_frame m a.now a.header a.frame in let r' = on_frames r.0 rest in (r'.0, r.1 ++ r'.1)

-- The frames handled between two locked sections of `set_block`: until its first wait returns, until
-- it arms the report, and until its second wait returns.
pub record Gaps : Type 0 where
  pub until_acked : List Arrival
  pub until_armed : List Arrival
  pub until_reported : List Arrival

-- `sent` are the calls of `frameSender` by `set_block`, `answers` what the receiver thread did.
pub record Outcome : Type 0 where
  pub manager : SetBlockManager
  pub sent : List Effect
  pub answers : List Effect
  pub result : Bool

abbrev pub give_up : SetBlockManager → Outcome
give_up m = record { manager = reset m; sent = []; answers = []; result = false }

abbrev pub after : List Effect → List Effect → Outcome → Outcome
after sent answers o = record o { sent = sent ++ o.sent; answers = answers ++ o.answers }

abbrev pub request_header : SetBlockManager → ℕ → SetBlockFrameType → ℕ → CanTsHeader
request_header m to type low6 = record {
  to = to;
  from = m.local_address;
  type = setblock;
  command = make_set_block_command type low6;
}

-- Block `i` of the data, filled up with zeros.
abbrev pub block_at : List ℕ → ℕ → List ℕ
block_at bytes i =
    let start = i * can_frame_max_data in
    let len = min can_frame_max_data (length bytes - start) in
    take len (drop start bytes) ++ replicate (can_frame_max_data - len) 0

-- Blocks `i`, `i + 1`, … of the data, `n` of them.
unfoldable pub split_blocks : List ℕ → ℕ → ℕ → List (List ℕ)
split_blocks bytes zero i = []
split_blocks bytes (suc n) i = block_at bytes i ∷ split_blocks bytes n (i + 1)

-- The TRANSFER loop from block `i` on, which stops where a frame is not sent.
unfoldable pub send_transfers :
    FrameSender → SetBlockManager → ℕ → List (List ℕ) → ℕ → Bool × List Effect
send_transfers sender m to [] i = (true, [])
send_transfers sender m to (b ∷ blocks) i =
    let h = request_header m to SetBlockFrameType.transfer i in
    let rest = send_transfers sender m to blocks (i + 1) in
    if sender h b can_frame_max_data
    then (rest.0, send h b can_frame_max_data ∷ rest.1)
    else (false, send h b can_frame_max_data ∷ [])

-- `allSet` over the blocks from `i` on, `n` of them.
unfoldable pub all_bits_set : List ℕ → ℕ → ℕ → Bool
all_bits_set bitmap zero i = true
all_bits_set bitmap (suc n) i = bitmap_bit_is_set bitmap i && all_bits_set bitmap n (i + 1)

-- The locked section after the second wait, and the ABORT that ends the transaction.
unfoldable pub take_report : ℕ → ℕ → SetBlockManager → Outcome
take_report to num_blocks m =
    let p = m.pending in
    let got_report = p.report_received || p.done in
    if not got_report || not p.ok || not p.report_received then give_up m else record {
      manager = reset m;
      sent = send (request_header m to SetBlockFrameType.abort 0) [] 0 ∷ [];
      answers = [];
      result = all_bits_set p.bitmap num_blocks 0 && p.done;
    }

abbrev pub armed : PendingState → PendingState
armed p = record p { waiting_report = true; report_received = false; done = false; ok = false }

-- From the section that arms the report on.
unfoldable pub ask_status : FrameSender → ℕ → ℕ → List Arrival → SetBlockManager → Outcome
ask_status sender to num_blocks arrivals m =
    let h = request_header m to SetBlockFrameType.status_request 0 in
    let r = on_frames (record m { pending = armed m.pending }) arrivals in
    after (send h [] 0 ∷ []) r.1
      (if sender h [] 0 then take_report to num_blocks r.0 else give_up r.0)

-- The TRANSFER loop and what follows.
unfoldable pub transfer_blocks :
    FrameSender → ℕ → List (List ℕ) → ℕ → Gaps → SetBlockManager → Outcome
transfer_blocks sender to blocks num_blocks gaps m =
    let t = send_transfers sender m to blocks 0 in
    let r = on_frames m gaps.until_armed in
    after t.1 r.1
      (if t.0 then ask_status sender to num_blocks gaps.until_reported r.0 else give_up r.0)

-- The locked section after the first wait.
unfoldable pub check_ack : FrameSender → ℕ → List (List ℕ) → ℕ → Gaps → SetBlockManager → Outcome
check_ack sender to blocks num_blocks gaps m =
    let p = m.pending in
    let got_request_ack = p.request_acked || p.done in
    if not got_request_ack || p.done || not p.request_acked
    then give_up m
    else transfer_blocks sender to blocks num_blocks gaps m

abbrev pub started : ℕ → ℕ → PendingState
started to num_blocks = record no_pending {
  active = true;
  waiting_request_ack = true;
  peer = to;
  num_blocks = num_blocks;
}

-- From the section that starts the transaction on.
unfoldable pub request_write :
    FrameSender → ℕ → List ℕ → List (List ℕ) → ℕ → Gaps → SetBlockManager → Outcome
request_write sender to address_le blocks num_blocks gaps m =
    let h = request_header m to SetBlockFrameType.request (u8 (num_blocks + 256 - 1)) in
    let dlc = u8 (min (length address_le) can_frame_max_data) in
    let r = on_frames (record m { pending = started to num_blocks }) gaps.until_acked in
    after (send h address_le dlc ∷ []) r.1 (
      if sender h address_le dlc
      then check_ack sender to blocks num_blocks gaps r.0
      else give_up r.0)

abbrev pub refused_call : SetBlockManager → Outcome
refused_call m = record { manager = m; sent = []; answers = []; result = false }

unfoldable pub set_block : FrameSender → ℕ → List ℕ → List ℕ → Gaps → SetBlockManager → Outcome
set_block sender to address_le bytes gaps m =
    let num_blocks_sz = (length bytes + can_frame_max_data - 1) / can_frame_max_data in
    let num_blocks = u8 num_blocks_sz in
    if is_empty address_le || is_empty bytes || ltb can_ts_max_block_bytes (length bytes)
    then refused_call m
    else if num_blocks_sz == 0 || ltb 64 num_blocks_sz
    then refused_call m
    else request_write sender to address_le (split_blocks bytes num_blocks 0) num_blocks gaps m
