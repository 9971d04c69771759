-- ===== src/GetBlock/Requester.antt =====
-- GetBlockManager::getBlock (src/cants/GetBlockManager.cpp): the blocking call of another thread. The
-- frames that the receiver thread handles where it does not hold the lock are arguments.
use cannect.Base.{
  ℕ, ◌+◌, ◌-◌, ◌*◌, Bool, true, false, not, ◌&&◌, ◌||◌, List, [], ◌∷◌, ◌++◌, min, u8, ltb,
  if◌then◌else◌, length, replicate, get_or, set, bit_and, shr,
}
use cannect.Types.{CanTsHeader, getblock, can_frame_max_data}
use cannect.Codec.{GetBlockFrameType, make_get_block_command, bitmap_size_bytes}
use cannect.SetBlock.Receiver.{is_empty}
use cannect.SetBlock.Sender.{Arrival}
use cannect.GetBlock.State.{
  FrameSender, Effect, send, PendingState, GetBlockManager, no_pending, reset,
}
use cannect.GetBlock.Provider.{on_frame}

unfoldable pub on_frames : GetBlockManager → List Arrival → GetBlockManager × List Effect
on_frames m [] = (m, [])
on_frames m (a ∷ rest) =
    let r = on_frame m a.now a.header a.frame in let r' = on_frames r.0 rest in (r'.0, r.1 ++ r'.1)

-- The frames handled until the first wait returns, and from there until the second wait returns.
pub record Gaps : Type 0 where
  pub until_acked : List Arrival
  pub until_done : List Arrival

-- `sent` are the calls of `frameSender` by `get_block`, `answers` what the receiver thread did.
pub record Outcome : Type 0 where
  pub manager : GetBlockManager
  pub sent : List Effect
  pub answers : List Effect
  pub result : Bool

abbrev pub give_up : GetBlockManager → Outcome
give_up m = record { manager = reset m; sent = []; answers = []; result = false }

abbrev pub after : List Effect → List Effect → Outcome → Outcome
after sent answers o = record o { sent = sent ++ o.sent; answers = answers ++ o.answers }

abbrev pub request_header : GetBlockManager → ℕ → GetBlockFrameType → ℕ → CanTsHeader
request_header m to type low6 = record {
  to = to;
  from = m.local_address;
  type = getblock;
  command = make_get_block_command type low6;
}

-- The number of blocks that `getBlock` asks for.
abbrev pub fixed_blocks : ℕ
fixed_blocks = 64

-- The bitmap of START, with the bits past the last block cleared.
unfoldable pub start_bitmap : ℕ → List ℕ
start_bitmap num_blocks =
    let bitmap = replicate (bitmap_size_bytes num_blocks) 0xff in
    let last = length bitmap - 1 in
    let extra_bits = u8 (length bitmap * 8 - num_blocks) in
    if not (is_empty bitmap) && ltb 0 extra_bits
    then set bitmap last (bit_and (get_or bitmap last 0) (shr 0xff extra_bits))
    else bitmap

abbrev pub armed : ℕ → PendingState → PendingState
armed num_blocks p = record p {
  waiting_transfers = true;
  blocks = replicate num_blocks [];
  received = replicate num_blocks false;
}

-- The locked section after the second wait.
unfoldable pub finish : GetBlockManager → Outcome
finish m = record {
  manager = reset m;
  sent = [];
  answers = [];
  result = m.pending.done && m.pending.ok;
}

-- The locked section after the first wait, and what follows.
unfoldable pub start : FrameSender → ℕ → ℕ → List Arrival → GetBlockManager → Outcome
start sender to num_blocks arrivals m =
    let p = m.pending in
    let h = request_header m to GetBlockFrameType.start 0 in
    let bitmap = start_bitmap num_blocks in
    let dlc = u8 (min (length bitmap) can_frame_max_data) in
    let r = on_frames (record m { pending = armed num_blocks p }) arrivals in
    if not (p.acked || p.done) || p.done
    then give_up m
    else after (send h bitmap dlc ∷ []) r.1
        (if sender h bitmap dlc then finish r.0 else give_up r.0)

abbrev pub started : ℕ → ℕ → PendingState
started to num_blocks = record no_pending { waiting_ack = true; peer = to; num_blocks = num_blocks }

-- From the section that starts the transaction on.
unfoldable pub request_read : FrameSender → ℕ → List ℕ → ℕ → Gaps → GetBlockManager → Outcome
request_read sender to address_le num_blocks gaps m =
    let h = request_header m to GetBlockFrameType.request (u8 (num_blocks + 256 - 1)) in
    let dlc = u8 (min (length address_le) can_frame_max_data) in
    let r = on_frames (record m { pending = started to num_blocks }) gaps.until_acked in
    after (send h address_le dlc ∷ []) r.1 (
      if sender h address_le dlc
      then start sender to num_blocks gaps.until_done r.0
      else give_up r.0)

unfoldable pub get_block : FrameSender → ℕ → List ℕ → Gaps → GetBlockManager → Outcome
get_block sender to address_le gaps m =
    if is_empty address_le
    then record { manager = m; sent = []; answers = []; result = false }
    else request_read sender to address_le fixed_blocks gaps m
