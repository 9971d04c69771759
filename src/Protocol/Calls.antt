-- ===== src/Protocol/Calls.antt =====
-- The calls that the application makes of CanTsProtocol (src/cants/CanTsProtocol.cpp). The frames that
-- the receiver thread handles while a call does not hold the lock are arguments.
use cannect.Base.{
  ℕ, ◌-◌, ◌/◌, Bool, true, false, ◌&&◌, Option, none, some, List, [], ◌∷◌, ◌++◌, ◌==◌, leb,
  if◌then◌else◌, take, u16,
}
use cannect.Types.{
  CanFrame, CanTsHeader, timesync, unsolicited, telecommand, telemetry, can_frame_max_data,
}
use cannect.Codec.{CanTsReqAck, make_tc_tm_command}
use cannect.SetBlock.Sender as SetBlock
use cannect.GetBlock.Requester as GetBlock
use cannect.GetBlock.State.{get_last_data}
use cannect.Protocol.State.{
  Effect, PendingTcTm, CanTsProtocol, no_pending, send_frame, set_block_effects, get_block_effects,
}
use cannect.Protocol.Handling.{on_frame}

-- One frame that the receiver thread handles, and when.
pub record Incoming : Type 0 where
  pub now : ℕ
  pub frame : CanFrame

unfoldable pub on_frames : CanTsProtocol → List Incoming → CanTsProtocol × List Effect
on_frames p [] = (p, [])
on_frames p (a ∷ rest) =
    let r = on_frame p a.now a.frame in
    let r' = on_frames r.protocol rest in (r'.0, r.effects ++ r'.1)

-- `sent` is what the call gives to the transmitter, `answers` what the receiver thread does.
pub record Outcome : Type 0 where
  pub protocol : CanTsProtocol
  pub sent : List Effect
  pub answers : List Effect
  pub result : Bool

abbrev pub waiting_for : ℕ → ℕ → PendingTcTm
waiting_for to channel = record no_pending { waiting = true; peer = to; channel = channel }

abbrev pub tc_header : CanTsProtocol → ℕ → ℕ → CanTsHeader
tc_header p to channel = record {
  to = to;
  from = p.local_address;
  type = telecommand;
  command = make_tc_tm_command CanTsReqAck.req channel;
}

abbrev pub tm_header : CanTsProtocol → ℕ → ℕ → CanTsHeader
tm_header p to channel = record {
  to = to;
  from = p.local_address;
  type = telemetry;
  command = make_tc_tm_command CanTsReqAck.req channel;
}

unfoldable pub send_telecommand : CanTsProtocol → ℕ → ℕ → List ℕ → List Incoming → Outcome
send_telecommand p to channel bytes arrivals =
    let s = send_frame p (tc_header p to channel) bytes can_frame_max_data in
    let r = on_frames (record p { pending_tc = waiting_for to channel }) arrivals in
    let q = (r.0).pending_tc in
    if p.pending_tc.waiting
    then record { protocol = p; sent = []; answers = []; result = false }
    else record {
      protocol = record r.0 { pending_tc = no_pending };
      sent = s.1;
      answers = r.1;
      result = s.0 && (q.done && q.ok);
    }

unfoldable pub request_telemetry : CanTsProtocol → ℕ → ℕ → List Incoming → Outcome
request_telemetry p to channel arrivals =
    let s = send_frame p (tm_header p to channel) [] 0 in
    let r = on_frames (record p { pending_tm = waiting_for to channel }) arrivals in
    let q = (r.0).pending_tm in
    if p.pending_tm.waiting
    then record { protocol = p; sent = []; answers = []; result = false }
    else record {
      protocol = record r.0 { pending_tm = no_pending };
      sent = s.1;
      answers = r.1;
      result = s.0 && (q.done && q.ok);
    }

unfoldable pub send_unsolicited_telemetry : CanTsProtocol → ℕ → ℕ → List ℕ → Bool × List Effect
send_unsolicited_telemetry p to channel bytes =
    send_frame p
      (record { to = to; from = p.local_address; type = unsolicited; command = u16 channel }) bytes
      can_frame_max_data

unfoldable pub broadcast_time_sync : CanTsProtocol → List ℕ → Bool × List Effect
broadcast_time_sync p time_le =
    send_frame p (record { to = 0; from = p.local_address; type = timesync; command = 0 }) time_le
      can_frame_max_data

-- Here the arrivals are the frames that reach the manager.
unfoldable pub set_block : CanTsProtocol → ℕ → List ℕ → List ℕ → SetBlock.Gaps → Outcome
set_block p to address_le bytes gaps =
    let o =
      SetBlock.set_block (λ h b d. (send_frame p h b d).0) to address_le bytes gaps
        p.set_block_mgr in
    record {
      protocol = record p { set_block_mgr = o.manager };
      sent = set_block_effects p o.sent;
      answers = set_block_effects p o.answers;
      result = o.result;
    }

unfoldable pub get_block : CanTsProtocol → ℕ → List ℕ → GetBlock.Gaps → Outcome
get_block p to address_le gaps =
    let o =
      GetBlock.get_block (λ h b d. (send_frame p h b d).0) to address_le gaps p.get_block_mgr in
    record {
      protocol = record p { get_block_mgr = o.manager };
      sent = get_block_effects p o.sent;
      answers = get_block_effects p o.answers;
      result = o.result;
    }

-- The bytes written to `out`, and `dlc`.
unfoldable pub get_last_telemetry : CanTsProtocol → Option (List ℕ × ℕ)
get_last_telemetry p =
    if p.last_telemetry_dlc == 0
    then none
    else some (take p.last_telemetry_dlc p.last_telemetry, p.last_telemetry_dlc)

abbrev pub get_last_get_block_data : CanTsProtocol → Bool × Option (List ℕ)
get_last_get_block_data p = get_last_data p.get_block_mgr

-- Times are in nanoseconds, the timeout in milliseconds.
unfoldable pub is_peer_connected : CanTsProtocol → ℕ → ℕ → ℕ → Bool
is_peer_connected p now peer timeout_ms = elim (p.peers peer) [
  | none ↦ false
  | some last_seen ↦ leb ((now - last_seen) / 1000000) timeout_ms
]

-- CAN_TS_KEEPALIVE_ADDRESS.
abbrev pub can_ts_keepalive_address : ℕ
can_ts_keepalive_address = 1

unfoldable pub send_keep_alive : CanTsProtocol → ℕ → List ℕ → Bool × List Effect
unfolding send_unsolicited_telemetry
send_keep_alive p channel bytes =
    send_unsolicited_telemetry p can_ts_keepalive_address channel bytes
