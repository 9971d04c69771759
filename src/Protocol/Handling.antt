-- ===== src/Protocol/Handling.antt =====
-- CanTsProtocol::onFrame and the handlers that it calls (src/cants/CanTsProtocol.cpp): what the
-- receiver thread does with a frame.
use cannect.Base.{
  ℕ, Bool, true, false, not, ◌&&◌, Option, none, some, List, [], ◌∷◌, ◌++◌, ◌==◌, if◌then◌else◌,
}
use cannect.Types.{
  CanFrame, CanTsHeader, CanTsMessageType, timesync, unsolicited, telecommand, telemetry, setblock,
  getblock, other, Status, success, unsuccess, can_frame_max_data,
}
use cannect.Codec.{CanTsReqAck, decode, make_tc_tm_command, get_tc_tm_kind, get_channel}
use cannect.SetBlock.Receiver as SetBlock
use cannect.GetBlock.Provider as GetBlock
use cannect.Protocol.State.{
  TcHandler, TmHandler, Effect, telecommand_call, telemetry_call, unsolicited_call, time_sync_call,
  PendingTcTm, CanTsProtocol, zeros, copy_over, send_frame, set_block_effects, get_block_effects,
  note_peer_alive,
}

-- The header of the answer to a REQ.
abbrev pub response : CanTsProtocol → CanTsHeader → CanTsMessageType → Bool → ℕ → CanTsHeader
response p h type ok channel = record {
  to = h.from;
  from = p.local_address;
  type = type;
  command = make_tc_tm_command (if ok then CanTsReqAck.ack else CanTsReqAck.nack) channel;
}

abbrev pub run_tc_handler : Option TcHandler → ℕ → ℕ → List ℕ → Bool × List Effect
run_tc_handler none from channel req = (false, [])
run_tc_handler (some f) from channel req =
    (f from channel req, telecommand_call from channel req ∷ [])

unfoldable pub answer_telecommand : CanTsProtocol → CanTsHeader → CanFrame → List Effect
answer_telecommand p h frame =
    let channel = get_channel h.command in
    let req = copy_over zeros frame.bytes frame.dlc in
    let r = run_tc_handler p.tc_handler h.from channel req in
    r.1 ++ (send_frame p (response p h telecommand r.0 channel) frame.bytes frame.dlc).1

-- The test and the write that an ACK or a NACK makes at the pending request.
abbrev pub is_for : PendingTcTm → ℕ → ℕ → Bool
is_for q from channel = q.waiting && q.peer == from && q.channel == channel

abbrev pub answered : Bool → CanFrame → PendingTcTm → PendingTcTm
answered ok frame q = record q {
  done = true;
  ok = ok;
  dlc = frame.dlc;
  bytes = copy_over q.bytes frame.bytes frame.dlc;
}

unfoldable pub finish_telecommand : CanTsProtocol → CanTsHeader → CanFrame → Bool → CanTsProtocol
finish_telecommand p h frame ok =
    if is_for p.pending_tc h.from (get_channel h.command)
    then record p { pending_tc = answered ok frame p.pending_tc }
    else p

-- `handleTelecommand`, by the kind of the frame.
unfoldable pub telecommand_by_kind :
    CanTsReqAck → CanTsProtocol → CanTsHeader → CanFrame → CanTsProtocol × List Effect
telecommand_by_kind CanTsReqAck.req p h frame = (p, answer_telecommand p h frame)
telecommand_by_kind CanTsReqAck.ack p h frame = (finish_telecommand p h frame true, [])
telecommand_by_kind CanTsReqAck.nack p h frame = (finish_telecommand p h frame false, [])
telecommand_by_kind (CanTsReqAck.other n) p h frame = (p, [])

unfoldable pub handle_telecommand :
    CanTsProtocol → CanTsHeader → CanFrame → CanTsProtocol × List Effect
unfolding telecommand_by_kind
handle_telecommand p h frame = telecommand_by_kind (get_tc_tm_kind h.command) p h frame

abbrev pub run_tm_handler : Option TmHandler → ℕ → ℕ → (Bool × List ℕ) × List Effect
run_tm_handler none from channel = ((false, zeros), [])
run_tm_handler (some f) from channel = (f from channel, telemetry_call from channel ∷ [])

unfoldable pub answer_telemetry : CanTsProtocol → CanTsHeader → List Effect
answer_telemetry p h =
    let channel = get_channel h.command in
    let r = run_tm_handler p.tm_handler h.from channel in
    let ok = (r.0).0 in
    let resp = response p h telemetry ok channel in
    r.1 ++ (send_frame p resp (if ok then (r.0).1 else []) (if ok then can_frame_max_data else 0)).1

unfoldable pub finish_telemetry : CanTsProtocol → CanTsHeader → CanFrame → Bool → CanTsProtocol
finish_telemetry p h frame ok =
    if is_for p.pending_tm h.from (get_channel h.command)
    then record p {
      pending_tm = answered ok frame p.pending_tm;
      last_telemetry = copy_over p.last_telemetry frame.bytes frame.dlc;
      last_telemetry_dlc = frame.dlc;
    }
    else p

-- `handleTelemetry`, by the kind of the frame.
unfoldable pub telemetry_by_kind :
    CanTsReqAck → CanTsProtocol → CanTsHeader → CanFrame → CanTsProtocol × List Effect
telemetry_by_kind CanTsReqAck.req p h frame = (p, answer_telemetry p h)
telemetry_by_kind CanTsReqAck.ack p h frame = (finish_telemetry p h frame true, [])
telemetry_by_kind CanTsReqAck.nack p h frame = (finish_telemetry p h frame false, [])
telemetry_by_kind (CanTsReqAck.other n) p h frame = (p, [])

unfoldable pub handle_telemetry :
    CanTsProtocol → CanTsHeader → CanFrame → CanTsProtocol × List Effect
unfolding telemetry_by_kind
handle_telemetry p h frame = telemetry_by_kind (get_tc_tm_kind h.command) p h frame

unfoldable pub handle_unsolicited : CanTsProtocol → CanTsHeader → CanFrame → List Effect
handle_unsolicited p h frame =
    if not p.has_utm_handler
    then []
    else unsolicited_call h.from (get_channel h.command) (copy_over zeros frame.bytes frame.dlc)
      ∷ []

unfoldable pub handle_time_sync : CanTsProtocol → CanTsHeader → CanFrame → List Effect
handle_time_sync p h frame =
    if not p.has_ts_handler
    then []
    else time_sync_call h.from (copy_over zeros frame.bytes frame.dlc) ∷ []

-- The `switch` of `onFrame`.
unfoldable pub by_type :
    CanTsMessageType → CanTsProtocol → ℕ → CanTsHeader → CanFrame → CanTsProtocol × List Effect
by_type telecommand p now h frame = handle_telecommand p h frame
by_type telemetry p now h frame = handle_telemetry p h frame
by_type unsolicited p now h frame = (p, handle_unsolicited p h frame)
by_type timesync p now h frame = (p, handle_time_sync p h frame)
by_type setblock p now h frame =
    let r = SetBlock.on_frame p.set_block_mgr now h frame in
    (record p { set_block_mgr = r.0 }, set_block_effects p r.1)
by_type getblock p now h frame =
    let r = GetBlock.on_frame p.get_block_mgr now h frame in
    (record p { get_block_mgr = r.0 }, get_block_effects p r.1)
by_type (other n) p now h frame = (p, [])

pub record Handled : Type 0 where
  pub status : Status
  pub protocol : CanTsProtocol
  pub effects : List Effect

-- The test that lets a frame through: addressed to this node, or to all.
abbrev pub is_addressed : CanTsProtocol → CanTsHeader → Bool
is_addressed p h = not (not (h.to == p.local_address) && not (h.to == 0))

abbrev handled : CanTsProtocol × List Effect → Handled
handled r = record { status = success; protocol = r.0; effects = r.1 }

unfoldable pub on_frame : CanTsProtocol → ℕ → CanFrame → Handled
unfolding by_type note_peer_alive
on_frame p now frame =
    let header = decode frame.id in
    let p' = note_peer_alive p now header.from in
    if is_addressed p header
    then handled (by_type header.type p' now header frame)
    else record { status = unsuccess; protocol = p'; effects = [] }
