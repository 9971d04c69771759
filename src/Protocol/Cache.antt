-- ===== src/Protocol/Cache.antt =====
-- What a frame does to a pending telemetry request and to the last telemetry that is kept.

use cannect.Base.{ℕ, ◌≡◌, refl, Bool, true, false, ◌&&◌, List, if◌then◌else◌, inl, inr, Bool-cases}
use cannect.Types.{
  CanFrame, CanTsHeader, CanTsMessageType, telecommand, telemetry, setblock, getblock, timesync,
  unsolicited, other,
}
use cannect.Codec.{CanTsReqAck, decode, get_tc_tm_kind, get_channel}
use cannect.Protocol.State.{PendingTcTm, CanTsProtocol, note_peer_alive, copy_over}
use cannect.Protocol.Handling.{
  is_for, answered, finish_telemetry, telemetry_by_kind, handle_telemetry, by_type, is_addressed,
  on_frame,
}
use cannect.Protocol.Pending.{is_telemetry}
use cannect.Protocol.Routing.{by_type-Untouched}

-- What a telemetry answer can change.
pub record Cache : Type 0 where
  pub pending : PendingTcTm
  pub bytes : List ℕ
  pub dlc : ℕ

abbrev pub cache : CanTsProtocol → Cache
cache p = record { pending = p.pending_tm; bytes = p.last_telemetry; dlc = p.last_telemetry_dlc }

abbrev pub stored : Bool → CanFrame → Cache → Cache
stored ok frame c = record {
  pending = answered ok frame c.pending;
  bytes = copy_over c.bytes frame.bytes frame.dlc;
  dlc = frame.dlc;
}

abbrev pub step_by_kind : CanTsReqAck → Cache → CanTsHeader → CanFrame → Cache
step_by_kind CanTsReqAck.ack c h frame =
    if is_for c.pending h.from (get_channel h.command) then stored true frame c else c
step_by_kind CanTsReqAck.nack c h frame =
    if is_for c.pending h.from (get_channel h.command) then stored false frame c else c
step_by_kind _ c h frame = c

abbrev pub step : Bool → Cache → CanTsHeader → CanFrame → Cache
step true c h frame = step_by_kind (get_tc_tm_kind h.command) c h frame
step false c h frame = c

push_cache :
    (b : Bool) (p q : CanTsProtocol) → cache (if b then p else q) ≡ (if b then cache p else cache q)
push_cache true p q = refl
push_cache false p q = refl

finish_telemetry-cache :
    (p : CanTsProtocol) (h : CanTsHeader) (frame : CanFrame) (ok : Bool)
    → cache (finish_telemetry p h frame ok) ≡ (
        if is_for p.pending_tm h.from (get_channel h.command)
        then stored ok frame (cache p)
        else cache p)
unfolding finish_telemetry
finish_telemetry-cache p h frame ok =
    push_cache (is_for p.pending_tm h.from (get_channel h.command))
      (record p {
        pending_tm = answered ok frame p.pending_tm;
        last_telemetry = copy_over p.last_telemetry frame.bytes frame.dlc;
        last_telemetry_dlc = frame.dlc;
      })
      p

telemetry_by_kind-cache :
    (kind : CanTsReqAck) (p : CanTsProtocol) (h : CanTsHeader) (frame : CanFrame)
    → cache (telemetry_by_kind kind p h frame).0 ≡ step_by_kind kind (cache p) h frame
unfolding telemetry_by_kind
telemetry_by_kind-cache CanTsReqAck.ack p h frame = finish_telemetry-cache p h frame true
telemetry_by_kind-cache CanTsReqAck.nack p h frame = finish_telemetry-cache p h frame false
telemetry_by_kind-cache CanTsReqAck.req p h frame = refl
telemetry_by_kind-cache (CanTsReqAck.other n) p h frame = refl

cache_kept :
    (p q : CanTsProtocol)
    → (q.pending_tm ≡ p.pending_tm)
      × (q.last_telemetry ≡ p.last_telemetry)
      × (q.last_telemetry_dlc ≡ p.last_telemetry_dlc)
    → cache q ≡ cache p
cache_kept p q (a, b, c) = cc

by_type-cache :
    (type : CanTsMessageType) (p : CanTsProtocol) (now : ℕ) (h : CanTsHeader) (frame : CanFrame)
    → cache (by_type type p now h frame).0 ≡ step (is_telemetry type) (cache p) h frame
unfolding by_type handle_telemetry
by_type-cache telemetry p now h frame = telemetry_by_kind-cache (get_tc_tm_kind h.command) p h frame
by_type-cache telecommand p now h frame =
    cache_kept p (by_type telecommand p now h frame).0
      ((by_type-Untouched telecommand p now h frame).telemetries (λ e. cc))
by_type-cache setblock p now h frame = refl
by_type-cache getblock p now h frame = refl
by_type-cache timesync p now h frame = refl
by_type-cache unsolicited p now h frame = refl
by_type-cache (other n) p now h frame = refl

-- Whether the frame is for this node and is telemetry.
abbrev pub is_response : CanTsProtocol → CanFrame → Bool
is_response p frame = is_addressed p (decode frame.id) && is_telemetry (decode frame.id).type

pub on_frame-cache :
    (p : CanTsProtocol) (now : ℕ) (frame : CanFrame)
    → cache (on_frame p now frame).protocol
      ≡ step (is_response p frame) (cache p) (decode frame.id) frame
unfolding on_frame note_peer_alive
on_frame-cache p now frame = elim (Bool-cases (is_addressed p (decode frame.id))) [
  | inl e ↦ rw e (
      by_type-cache (decode frame.id).type (note_peer_alive p now (decode frame.id).from) now
        (decode frame.id) frame)
  | inr e ↦ rw e refl
]
