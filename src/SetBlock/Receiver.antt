-- ===== src/SetBlock/Receiver.antt =====
-- SetBlockManager::onFrame (src/cants/SetBlockManager.cpp): the receiver thread's handler. The mutex
-- makes each locked section atomic.
use cannect.Base.{
  ℕ, ◌+◌, ◌*◌, Bool, true, false, not, ◌&&◌, ◌||◌, Option, none, some, List, [], ◌∷◌, ◌++◌, map,
  bit_and, min, u8, ◌==◌, leb, ltb, if◌then◌else◌, length, replicate, set, take,
}
use cannect.Types.{CanFrame, CanTsHeader, payload, setblock, can_frame_max_data}
use cannect.Codec.{
  SetBlockFrameType, can_ts_max_block_bytes, make_set_block_command, make_set_block_report_command,
  get_set_block_type, get_set_block_low6, get_set_block_done, ack_command_low7, make_bitmap,
  all_blocks_received,
}
use cannect.SetBlock.State.{
  Handler, Effect, send, call, Session, PendingState, SetBlockManager, store,
}

-- The header that each answer of the handler builds.
abbrev pub reply : SetBlockManager → CanTsHeader → SetBlockFrameType → CanTsHeader
reply m h type = record {
  to = h.from;
  from = m.local_address;
  type = setblock;
  command = make_set_block_command type (ack_command_low7 h.command);
}

abbrev pub ack_or_nack : Bool → SetBlockFrameType
ack_or_nack accepted = if accepted then SetBlockFrameType.ack else SetBlockFrameType.nack

abbrev pub is_empty {ℓ} : {A : Type ℓ} → List A → Bool
is_empty [] = true
is_empty (x ∷ xs) = false

-- The session that a REQUEST begins.
abbrev pub fresh_session : ℕ → CanTsHeader → CanFrame → Session
fresh_session now h frame =
    let num_blocks = u8 (get_set_block_low6 h.command + 1) in
    record {
      peer = h.from;
      channel = 0;
      address = payload frame;
      num_blocks = num_blocks;
      blocks = replicate num_blocks [];
      last_activity = now;
      prepared = true;
      done = false;
      accepted =
          ltb 0 num_blocks
          && leb num_blocks 64
          && leb (num_blocks * can_frame_max_data) can_ts_max_block_bytes
          && not (is_empty (payload frame));
    }

-- case REQUEST, with the time that `steady_clock::now()` reads.
unfoldable pub on_request :
    SetBlockManager → ℕ → CanTsHeader → CanFrame → SetBlockManager × List Effect
on_request m now h frame =
    let session = fresh_session now h frame in
    (
      record m { sessions = store m.sessions h.from (some session) },
      send (reply m h (ack_or_nack session.accepted)) frame.bytes frame.dlc ∷ [],
    )

-- The test and the write of case TRANSFER at the session that was found.
abbrev pub takes_block : Session → ℕ → Bool
takes_block s seq = s.accepted && ltb seq s.num_blocks

abbrev pub with_block : ℕ → ℕ → CanFrame → Session → Session
with_block now seq frame s = record s {
  blocks = set s.blocks seq (payload frame);
  last_activity = now;
}

-- case TRANSFER.
unfoldable pub on_transfer :
    SetBlockManager → ℕ → CanTsHeader → CanFrame → SetBlockManager × List Effect
on_transfer m now h frame =
    let seq = get_set_block_low6 h.command in
    let refused : SetBlockManager × List Effect =
      (m, send (reply m h SetBlockFrameType.nack) frame.bytes frame.dlc ∷ []) in
    elim (m.sessions h.from) [
      | none ↦ refused
      | some s ↦
          if takes_block s seq
          then (
            record m { sessions = store m.sessions h.from (some (with_block now seq frame s)) },
            send (reply m h SetBlockFrameType.ack) frame.bytes frame.dlc ∷ [],
          )
          else refused
    ]

-- `received[i] = !blocks[i].empty()` for each of the `num_blocks` blocks.
abbrev pub received_blocks : List (List ℕ) → List Bool
received_blocks = map λ b. not (is_empty b)

-- Appends the blocks in order.
abbrev pub concat_blocks : List (List ℕ) → List ℕ
concat_blocks [] = []
concat_blocks (b ∷ bs) = b ++ concat_blocks bs

-- What the first locked section of STATUS_REQUEST assembles.
unfoldable pub assembled_data : Session → List ℕ
assembled_data s =
    if all_blocks_received (received_blocks (take s.num_blocks s.blocks)) && not s.done
    then concat_blocks (take s.num_blocks s.blocks)
    else []

-- The REPORT for the session as it is in the last locked section.
unfoldable pub report : SetBlockManager → CanTsHeader → Session → Effect
report m h s =
    let bitmap = make_bitmap (received_blocks (take s.num_blocks s.blocks)) in
    send
      (record {
        to = h.from;
        from = m.local_address;
        type = setblock;
        command = make_set_block_report_command (u8 (bit_and (length bitmap) 0x3f)) s.done;
      })
      bitmap (u8 (min (length bitmap) can_frame_max_data))

-- The handler's call and the write of `done`. A handler that is not set counts as done.
abbrev pub run_handler : Option Handler → CanTsHeader → List ℕ → Bool × List Effect
run_handler none h request = (true, [])
run_handler (some f) h request = (f h.from 0 request, call h.from 0 request ∷ [])

-- case STATUS_REQUEST, where the handler is given the data and its answer is written to the session.
unfoldable pub hand_over : SetBlockManager → CanTsHeader → Session → SetBlockManager × List Effect
hand_over m h s =
    let r = run_handler m.handler h (assembled_data s) in
    let s' = record s { done = r.0 } in
    (record m { sessions = store m.sessions h.from (some s') }, r.1 ++ report m h s' ∷ [])

-- case STATUS_REQUEST, at an accepted session.
unfoldable pub report_status :
    SetBlockManager → CanTsHeader → Session → SetBlockManager × List Effect
report_status m h s =
    if not (is_empty (assembled_data s)) && not s.done
    then hand_over m h s
    else (m, report m h s ∷ [])

-- case STATUS_REQUEST. The receiver thread alone changes the sessions, so the three locked sections
-- see the same session.
unfoldable pub on_status_request :
    SetBlockManager → CanTsHeader → CanFrame → SetBlockManager × List Effect
on_status_request m h frame =
    let refused : SetBlockManager × List Effect =
      (m, send (reply m h SetBlockFrameType.nack) frame.bytes frame.dlc ∷ []) in
    elim (m.sessions h.from) [
      | none ↦ refused
      | some s ↦ if s.accepted then report_status m h s else refused
    ]

-- case ABORT.
unfoldable pub on_abort : SetBlockManager → CanTsHeader → CanFrame → SetBlockManager × List Effect
on_abort m h frame = (
  record m { sessions = store m.sessions h.from none },
  send (reply m h SetBlockFrameType.ack) frame.bytes frame.dlc ∷ [],
)

-- cases ACK, NACK and REPORT change `pending` only.
unfoldable pub on_ack : PendingState → CanTsHeader → PendingState
on_ack p h =
    if p.active && p.peer == h.from && p.waiting_request_ack
    then record p { request_acked = true; waiting_request_ack = false }
    else p

unfoldable pub on_nack : PendingState → CanTsHeader → PendingState
on_nack p h =
    if p.active && p.peer == h.from
    then (if p.waiting_request_ack || p.waiting_report
        then record p { done = true; ok = false }
        else p)
    else p

unfoldable pub on_report : PendingState → CanTsHeader → CanFrame → PendingState
on_report p h frame =
    if p.active && p.peer == h.from && p.waiting_report
    then record p {
      bitmap = payload frame;
      done = get_set_block_done h.command;
      ok = true;
      report_received = true;
    }
    else p

abbrev pub with_pending : SetBlockManager → PendingState → SetBlockManager × List Effect
with_pending m p = (record m { pending = p }, [])

-- The `switch` of `onFrame`.
unfoldable pub dispatch :
    SetBlockFrameType → SetBlockManager → ℕ → CanTsHeader → CanFrame → SetBlockManager × List Effect
dispatch SetBlockFrameType.request m now h frame = on_request m now h frame
dispatch SetBlockFrameType.transfer m now h frame = on_transfer m now h frame
dispatch SetBlockFrameType.status_request m now h frame = on_status_request m h frame
dispatch SetBlockFrameType.abort m now h frame = on_abort m h frame
dispatch SetBlockFrameType.ack m now h frame = with_pending m (on_ack m.pending h)
dispatch SetBlockFrameType.nack m now h frame = with_pending m (on_nack m.pending h)
dispatch SetBlockFrameType.report m now h frame = with_pending m (on_report m.pending h frame)
dispatch (SetBlockFrameType.other n) m now h frame = (m, [])

unfoldable pub on_frame :
    SetBlockManager → ℕ → CanTsHeader → CanFrame → SetBlockManager × List Effect
unfolding dispatch
on_frame m now h frame = dispatch (get_set_block_type h.command) m now h frame
