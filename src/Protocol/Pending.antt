-- ===== src/Protocol/Pending.antt =====
-- How the frames that arrive change a pending telecommand and a pending telemetry request.

use cannect.Base.{ℕ, ◌≡◌, refl, Bool, true, false, ◌&&◌, if◌then◌else◌, inl, inr, Bool-cases}
use cannect.Types.{
  CanFrame, CanTsHeader, CanTsMessageType, telecommand, telemetry, setblock, getblock, timesync,
  unsolicited, other,
}
use cannect.Codec.{CanTsReqAck, decode, get_tc_tm_kind, get_channel}
use cannect.Protocol.State.{PendingTcTm, CanTsProtocol, note_peer_alive}
use cannect.Protocol.Handling.{
  is_for, answered, finish_telecommand, telecommand_by_kind, handle_telecommand, by_type,
  is_addressed, on_frame,
}
use cannect.Protocol.Routing.{by_type-Untouched}

-- What an answer of a kind makes of a pending request.
abbrev pub step_by_kind : CanTsReqAck → PendingTcTm → CanTsHeader → CanFrame → PendingTcTm
step_by_kind CanTsReqAck.ack q h frame =
    if is_for q h.from (get_channel h.command) then answered true frame q else q
step_by_kind CanTsReqAck.nack q h frame =
    if is_for q h.from (get_channel h.command) then answered false frame q else q
step_by_kind _ q h frame = q

abbrev pub is_telecommand : CanTsMessageType → Bool
is_telecommand telecommand = true
is_telecommand _ = false

abbrev pub is_telemetry : CanTsMessageType → Bool
is_telemetry telemetry = true
is_telemetry _ = false

-- A frame that does not concern the request changes nothing of it.
abbrev pub step_pending : Bool → PendingTcTm → CanTsHeader → CanFrame → PendingTcTm
step_pending true q h frame = step_by_kind (get_tc_tm_kind h.command) q h frame
step_pending false q h frame = q

finish_telecommand-pending :
    (p : CanTsProtocol) (h : CanTsHeader) (frame : CanFrame) (ok : Bool)
    → (finish_telecommand p h frame ok).pending_tc ≡ (
        if is_for p.pending_tc h.from (get_channel h.command)
        then answered ok frame p.pending_tc
        else p.pending_tc)
unfolding finish_telecommand
finish_telecommand-pending p h frame ok = push (is_for p.pending_tc h.from (get_channel h.command))
  where
    push :
        (b : Bool)
        → (if b then record p { pending_tc = answered ok frame p.pending_tc } else p).pending_tc
          ≡ (if b then answered ok frame p.pending_tc else p.pending_tc)
    push true = refl
    push false = refl

telecommand_by_kind-pending :
    (kind : CanTsReqAck) (p : CanTsProtocol) (h : CanTsHeader) (frame : CanFrame)
    → (telecommand_by_kind kind p h frame).0.pending_tc ≡ step_by_kind kind p.pending_tc h frame
unfolding telecommand_by_kind
telecommand_by_kind-pending CanTsReqAck.ack p h frame = finish_telecommand-pending p h frame true
telecommand_by_kind-pending CanTsReqAck.nack p h frame = finish_telecommand-pending p h frame false
telecommand_by_kind-pending CanTsReqAck.req p h frame = refl
telecommand_by_kind-pending (CanTsReqAck.other n) p h frame = refl

by_type-pending_tc :
    (type : CanTsMessageType) (p : CanTsProtocol) (now : ℕ) (h : CanTsHeader) (frame : CanFrame)
    → (by_type type p now h frame).0.pending_tc
      ≡ step_pending (is_telecommand type) p.pending_tc h frame
unfolding by_type handle_telecommand
by_type-pending_tc telecommand p now h frame =
    telecommand_by_kind-pending (get_tc_tm_kind h.command) p h frame
by_type-pending_tc telemetry p now h frame =
    (by_type-Untouched telemetry p now h frame).telecommands (λ e. cc)
by_type-pending_tc setblock p now h frame = refl
by_type-pending_tc getblock p now h frame = refl
by_type-pending_tc timesync p now h frame = refl
by_type-pending_tc unsolicited p now h frame = refl
by_type-pending_tc (other n) p now h frame = refl

-- Whether the frame is for this node and is a telecommand.
abbrev pub is_command : CanTsProtocol → CanFrame → Bool
is_command p frame = is_addressed p (decode frame.id) && is_telecommand (decode frame.id).type

pub on_frame-pending_tc :
    (p : CanTsProtocol) (now : ℕ) (frame : CanFrame)
    → (on_frame p now frame).protocol.pending_tc
      ≡ step_pending (is_command p frame) p.pending_tc (decode frame.id) frame
unfolding on_frame note_peer_alive
on_frame-pending_tc p now frame = elim (Bool-cases (is_addressed p (decode frame.id))) [
  | inl e ↦ rw e (
      by_type-pending_tc (decode frame.id).type (note_peer_alive p now (decode frame.id).from) now
        (decode frame.id) frame)
  | inr e ↦ rw e refl
]
