-- ===== src/Protocol/Routing.antt =====
-- Which part of a node a frame reaches.
use cannect.Base.{ℕ, ◌≡◌, ◌≢◌, refl, Bool, true, false, [], if_cases, ◌⊎◌, inl, inr}
use cannect.Types.{
  CanFrame, CanTsHeader, CanTsMessageType, telecommand, telemetry, setblock, getblock, timesync,
  unsolicited, other, success, unsuccess,
}
use cannect.Codec.{CanTsReqAck, decode, get_tc_tm_kind, get_channel}
use cannect.Protocol.State.{CanTsProtocol, note_peer_alive, copy_over}
use cannect.Protocol.Handling.{
  Handled, is_for, answered, finish_telecommand, finish_telemetry, telecommand_by_kind,
  handle_telecommand, telemetry_by_kind, handle_telemetry, by_type, is_addressed, on_frame,
}

-- The configuration of a node, which no frame changes.
abbrev pub SameNode : CanTsProtocol → CanTsProtocol → Type 0
SameNode p q =
    (q.local_address ≡ p.local_address)
    × (q.transmitter ≡ p.transmitter)
    × (q.tc_handler ≡ p.tc_handler)
    × (q.tm_handler ≡ p.tm_handler)
    × (q.has_utm_handler ≡ p.has_utm_handler)
    × (q.has_ts_handler ≡ p.has_ts_handler)
    × (q.peers ≡ p.peers)

-- What a frame of a type leaves as it was.
pub record Untouched (type : CanTsMessageType) (p q : CanTsProtocol) : Type 0 where
  pub node : SameNode p q
  pub telecommands : type ≢ telecommand → q.pending_tc ≡ p.pending_tc
  pub telemetries :
      type ≢ telemetry
      → (q.pending_tm ≡ p.pending_tm)
        × (q.last_telemetry ≡ p.last_telemetry)
        × (q.last_telemetry_dlc ≡ p.last_telemetry_dlc)
  pub block_writes : type ≢ setblock → q.set_block_mgr ≡ p.set_block_mgr
  pub block_reads : type ≢ getblock → q.get_block_mgr ≡ p.get_block_mgr

untouched : (type : CanTsMessageType) (p : CanTsProtocol) → Untouched type p p
untouched type p = record {
  node = (refl, refl, refl, refl, refl, refl, refl);
  telecommands = λ _. refl;
  telemetries = λ _. (refl, refl, refl);
  block_writes = λ _. refl;
  block_reads = λ _. refl;
}

finish_telecommand-Untouched :
    (p : CanTsProtocol) (h : CanTsHeader) (frame : CanFrame) (ok : Bool)
    → Untouched telecommand p (finish_telecommand p h frame ok)
unfolding finish_telecommand
finish_telecommand-Untouched p h frame ok =
    if_cases (Untouched telecommand p) (is_for p.pending_tc h.from (get_channel h.command))
      {x = record p { pending_tc = answered ok frame p.pending_tc }} {y = p}
      (λ _. record {
        node = (refl, refl, refl, refl, refl, refl, refl);
        telecommands = λ n. absurd (n refl);
        telemetries = λ _. (refl, refl, refl);
        block_writes = λ _. refl;
        block_reads = λ _. refl;
      })
      (λ _. untouched telecommand p)

finish_telemetry-Untouched :
    (p : CanTsProtocol) (h : CanTsHeader) (frame : CanFrame) (ok : Bool)
    → Untouched telemetry p (finish_telemetry p h frame ok)
unfolding finish_telemetry
finish_telemetry-Untouched p h frame ok =
    if_cases (Untouched telemetry p) (is_for p.pending_tm h.from (get_channel h.command))
      {x = record p {
        pending_tm = answered ok frame p.pending_tm;
        last_telemetry = copy_over p.last_telemetry frame.bytes frame.dlc;
        last_telemetry_dlc = frame.dlc;
      }}
      {y = p}
      (λ _. record {
        node = (refl, refl, refl, refl, refl, refl, refl);
        telecommands = λ _. refl;
        telemetries = λ n. absurd (n refl);
        block_writes = λ _. refl;
        block_reads = λ _. refl;
      })
      (λ _. untouched telemetry p)

telecommand_by_kind-Untouched :
    (kind : CanTsReqAck) (p : CanTsProtocol) (h : CanTsHeader) (frame : CanFrame)
    → Untouched telecommand p (telecommand_by_kind kind p h frame).0
unfolding telecommand_by_kind
telecommand_by_kind-Untouched CanTsReqAck.ack p h frame =
    finish_telecommand-Untouched p h frame true
telecommand_by_kind-Untouched CanTsReqAck.nack p h frame =
    finish_telecommand-Untouched p h frame false
telecommand_by_kind-Untouched CanTsReqAck.req p h frame = untouched telecommand p
telecommand_by_kind-Untouched (CanTsReqAck.other n) p h frame = untouched telecommand p

telemetry_by_kind-Untouched :
    (kind : CanTsReqAck) (p : CanTsProtocol) (h : CanTsHeader) (frame : CanFrame)
    → Untouched telemetry p (telemetry_by_kind kind p h frame).0
unfolding telemetry_by_kind
telemetry_by_kind-Untouched CanTsReqAck.ack p h frame = finish_telemetry-Untouched p h frame true
telemetry_by_kind-Untouched CanTsReqAck.nack p h frame = finish_telemetry-Untouched p h frame false
telemetry_by_kind-Untouched CanTsReqAck.req p h frame = untouched telemetry p
telemetry_by_kind-Untouched (CanTsReqAck.other n) p h frame = untouched telemetry p

pub by_type-Untouched :
    (type : CanTsMessageType) (p : CanTsProtocol) (now : ℕ) (h : CanTsHeader) (frame : CanFrame)
    → Untouched type p (by_type type p now h frame).0
unfolding by_type handle_telecommand handle_telemetry
by_type-Untouched telecommand p now h frame =
    telecommand_by_kind-Untouched (get_tc_tm_kind h.command) p h frame
by_type-Untouched telemetry p now h frame =
    telemetry_by_kind-Untouched (get_tc_tm_kind h.command) p h frame
by_type-Untouched setblock p now h frame = record {
  node = (refl, refl, refl, refl, refl, refl, refl);
  telecommands = λ _. refl;
  telemetries = λ _. (refl, refl, refl);
  block_writes = λ n. absurd (n refl);
  block_reads = λ _. refl;
}
by_type-Untouched getblock p now h frame = record {
  node = (refl, refl, refl, refl, refl, refl, refl);
  telecommands = λ _. refl;
  telemetries = λ _. (refl, refl, refl);
  block_writes = λ _. refl;
  block_reads = λ n. absurd (n refl);
}
by_type-Untouched timesync p now h frame = untouched timesync p
by_type-Untouched unsolicited p now h frame = untouched unsolicited p
by_type-Untouched (other n) p now h frame = untouched (other n) p

-- A frame makes its sender seen now and changes nothing else of the configuration. Addressed to this
-- node or to all, it is answered with SUCCESS and can change only the component of its type; any
-- other frame is answered with UNSUCCESS, has no effect and changes no component.
pub on_frame-Untouched :
    (p : CanTsProtocol) (now : ℕ) (frame : CanFrame)
    → let h = decode frame.id in
      let r = on_frame p now frame in
      Untouched h.type (note_peer_alive p now h.from) r.protocol
      × ((is_addressed p h ≡ true) × (r.status ≡ success)
          ⊎ (is_addressed p h ≡ false)
            × (r.status ≡ unsuccess)
            × (r.effects ≡ [])
            × (r.protocol ≡ note_peer_alive p now h.from))
unfolding on_frame
on_frame-Untouched p now frame =
    let h = decode frame.id in
    let q = note_peer_alive p now h.from in
    if_cases
      (λ (r : Handled).
        Untouched h.type q r.protocol
        × ((is_addressed p h ≡ true) × (r.status ≡ success)
            ⊎ (is_addressed p h ≡ false)
              × (r.status ≡ unsuccess)
              × (r.effects ≡ [])
              × (r.protocol ≡ q)))
      (is_addressed p h) (λ e. (by_type-Untouched h.type q now h frame, inl (e, refl)))
      (λ e. (untouched h.type q, inr (e, refl, refl, refl)))
