-- ===== src/Protocol/Exchange.antt =====
-- A whole telecommand between two nodes: the answering node handles the frame that was sent, and its
-- answer arrives before the wait returns.
use mathlib.Core.Path.{ap₂}
use cannect.Base.{
  ℕ, ◌<◌, ◌≤◌, ◌≡◌, refl, ◌∙◌, ap, arith, Bool, true, false, ◌&&◌, some, List, [], ◌∷◌, ◌++◌,
  length, if◌then◌else◌, if_true, if_false,
}
use cannect.Types.{CanFrame, CanTsHeader, success, telecommand}
use cannect.Codec.{CanTsReqAck, req_ack_code, to_req_ack, make_tc_tm_command, get_channel}
use cannect.Codec.Command.{tc_tm_command_fields}
use cannect.Wire.{make_frame}
use cannect.Protocol.State.{
  Transmitter, TcHandler, Effect, transmit, telecommand_call, PendingTcTm, CanTsProtocol, zeros,
  copy_over, is_success, send_frame, note_peer_alive, no_pending,
}
use cannect.Protocol.Handling.{
  Handled, response, is_addressed, is_for, answered, run_tc_handler, answer_telecommand,
  telecommand_by_kind, handle_telecommand, by_type, on_frame,
}
use cannect.Protocol.Calls.{Outcome, on_frames, waiting_for, tc_header, send_telecommand}
use cannect.Protocol.Pending.{step_by_kind, step_pending, is_telecommand, on_frame-pending_tc}
use cannect.Protocol.Wire.{
  transmitted, on_frame-routed, decode-tc_tm, send_frame-some, copy_of_frame,
}

answer_telecommand-some :
    (q : CanTsProtocol) (tx : Transmitter) (f : TcHandler) (h : CanTsHeader) (frame : CanFrame)
    → q.transmitter ≡ some tx
    → q.tc_handler ≡ some f
    → frame.dlc ≤ 8
    → let channel = get_channel h.command in
      let req = copy_over zeros frame.bytes frame.dlc in
      answer_telecommand q h frame
      ≡ telecommand_call h.from channel req
        ∷ transmit (
            make_frame
              (response q h telecommand (f h.from channel req) channel)
              frame.bytes
              frame.dlc)
        ∷ []
unfolding answer_telecommand
answer_telecommand-some q tx f h frame t e fits =
    let channel = get_channel h.command in
    let req = copy_over zeros frame.bytes frame.dlc in
    ap
      (λ g.
        let r = run_tc_handler g h.from channel req in
        r.1 ++ (send_frame q (response q h telecommand r.0 channel) frame.bytes frame.dlc).1)
      e
    ∙ ap (λ r. telecommand_call h.from channel req ∷ r.1)
        (send_frame-some q tx (response q h telecommand (f h.from channel req) channel) frame.bytes
          frame.dlc t fits)

-- The kind of the answer.
abbrev pub answer_kind : Bool → CanTsReqAck
answer_kind ok = if ok then CanTsReqAck.ack else CanTsReqAck.nack

pub answer_kind_fits :
    (ok : Bool)
    → (req_ack_code (answer_kind ok) < 4)
      × (to_req_ack (req_ack_code (answer_kind ok)) ≡ answer_kind ok)
answer_kind_fits true = (omega arith, refl)
answer_kind_fits false = (omega arith, refl)

-- The header of the answer.
abbrev answer_header : ℕ → ℕ → Bool → ℕ → CanTsHeader
answer_header to from ok channel = record {
  to = to;
  from = from;
  type = telecommand;
  command = make_tc_tm_command (answer_kind ok) channel;
}

telecommand_handled :
    (p q : CanTsProtocol) (tx : Transmitter) (f : TcHandler) (now channel : ℕ) (bytes : List ℕ)
    → p.local_address < 256
    → q.local_address < 256
    → channel < 256
    → length bytes ≡ 8
    → q.transmitter ≡ some tx
    → q.tc_handler ≡ some f
    → let frame = make_frame (tc_header p q.local_address channel) bytes 8 in
      (on_frame q now frame).effects
      ≡ telecommand_call p.local_address channel bytes
        ∷ transmit (
            make_frame
              (answer_header p.local_address q.local_address
                (f p.local_address channel bytes)
                channel)
              frame.bytes
              8)
        ∷ []
unfolding by_type handle_telecommand telecommand_by_kind note_peer_alive make_frame
telecommand_handled p q tx f now channel bytes hp hq hc e t set =
    let h = tc_header p q.local_address channel in
    let frame = make_frame h bytes 8 in
    let q' = note_peer_alive q now p.local_address in
    let (kind, ch) = tc_tm_command_fields CanTsReqAck.req channel refl (omega arith) hc in
    let mine : is_addressed q h ≡ true = ground arith in
    ap (λ (r : Handled). r.effects)
      (on_frame-routed q now h frame (
        decode-tc_tm q.local_address p.local_address channel 8 telecommand CanTsReqAck.req bytes hq
          hp (omega arith) refl (omega arith) hc))
    ∙ ap (λ (r : Handled). r.effects) (if_true _ _ mine)
    ∙ ap (λ k. (telecommand_by_kind k q' h frame).1) kind
    ∙ answer_telecommand-some q' tx f h frame t set (omega arith)
    ∙ ap
        (λ c.
          telecommand_call p.local_address c (copy_over zeros frame.bytes 8)
          ∷ transmit (
              make_frame
                (response q' h telecommand (f p.local_address c (copy_over zeros frame.bytes 8)) c)
                frame.bytes 8)
          ∷ [])
        ch
    ∙ ap
        (λ b.
          telecommand_call p.local_address channel b
          ∷ transmit (
              make_frame (response q' h telecommand (f p.local_address channel b) channel)
                frame.bytes 8)
          ∷ [])
        (copy_of_frame h bytes e)

step_answer :
    (ok : Bool) (q : PendingTcTm) (h : CanTsHeader) (frame : CanFrame)
    → is_for q h.from (get_channel h.command) ≡ true
    → step_by_kind (answer_kind ok) q h frame ≡ answered ok frame q
step_answer true q h frame e = if_true _ _ e
step_answer false q h frame e = if_true _ _ e

answer_arrives :
    (p : CanTsProtocol) (from now channel : ℕ) (ok : Bool) (bytes : List ℕ)
    → p.local_address < 256
    → from < 256
    → channel < 256
    → let frame = make_frame (answer_header p.local_address from ok channel) bytes 8 in
      (on_frame (record p { pending_tc = waiting_for from channel }) now frame).protocol.pending_tc
      ≡ answered ok frame (waiting_for from channel)
answer_arrives p from now channel ok bytes hp hf hc =
    let p' = record p { pending_tc = waiting_for from channel } in
    let h = answer_header p.local_address from ok channel in
    let frame = make_frame h bytes 8 in
    let (fits, named) = answer_kind_fits ok in
    let (kind, ch) = tc_tm_command_fields (answer_kind ok) channel named fits hc in
    let mine : (is_addressed p' h && true) ≡ true = ground arith in
    let here : is_for p'.pending_tc h.from (get_channel h.command) ≡ true = ground arith in
    on_frame-pending_tc p' now frame
    ∙ ap (λ g. step_pending (is_addressed p' g && is_telecommand g.type) p'.pending_tc g frame)
        (decode-tc_tm p.local_address from channel 8 telecommand (answer_kind ok) bytes hp hf
          (omega arith) refl fits hc)
    ∙ ap (λ b. step_pending b p'.pending_tc h frame) mine
    ∙ ap (λ k. step_by_kind k p'.pending_tc h frame) kind
    ∙ step_answer ok p'.pending_tc h frame here

-- What `sendTelecommand` returns past its guard.
abbrev finished : CanTsProtocol → CanTsProtocol × List Effect → Bool × List Effect → Outcome
finished p r s = record {
  protocol = record r.0 { pending_tc = no_pending };
  sent = s.1;
  answers = r.1;
  result = s.0 && (((r.0).pending_tc).done && ((r.0).pending_tc).ok);
}

-- Between nodes with working transmitters, `sendTelecommand` of eight bytes, with none pending, calls
-- the peer's handler once with the sender's address, the channel and the bytes, and returns what the
-- handler answers. Nothing is pending after it.
pub send_telecommand_answered :
    (p q : CanTsProtocol) (tx ty : Transmitter) (f : TcHandler) (now channel : ℕ) (bytes : List ℕ)
    → p.local_address < 256
    → q.local_address < 256
    → channel < 256
    → length bytes ≡ 8
    → p.pending_tc.waiting ≡ false
    → p.transmitter ≡ some tx
    → q.transmitter ≡ some ty
    → q.tc_handler ≡ some f
    → tx (make_frame (tc_header p q.local_address channel) bytes 8) ≡ success
    → let sent = make_frame (tc_header p q.local_address channel) bytes 8 in
      let r = on_frame q now sent in
      let o = send_telecommand p q.local_address channel bytes (transmitted now r.effects) in
      (o.sent ≡ transmit sent ∷ [])
      × ((answer : CanFrame) × (r.effects
            ≡ telecommand_call p.local_address channel bytes ∷ transmit answer ∷ []))
      × (o.result ≡ f p.local_address channel bytes)
      × (o.protocol.pending_tc ≡ no_pending)
send_telecommand_answered p q tx ty f now channel bytes hp hq hc e idle t u set taken =
    let h = tc_header p q.local_address channel in
    let sent = make_frame h bytes 8 in
    let ok = f p.local_address channel bytes in
    let p' = record p { pending_tc = waiting_for q.local_address channel } in
    let answer =
      make_frame (answer_header p.local_address q.local_address ok channel) sent.bytes 8 in
    let effects = telecommand_handled p q ty f now channel bytes hp hq hc e u set in
    let sends = send_frame-some p tx h bytes 8 t (omega arith) in
    let came : (on_frames p' (transmitted now (on_frame q now sent).effects)).0.pending_tc
        ≡ answered ok answer (waiting_for q.local_address channel) =
      ap (λ es. (on_frames p' (transmitted now es)).0.pending_tc) effects
      ∙ unfold on_frames in answer_arrives p q.local_address now channel ok sent.bytes hp hq hc in
    let taken_ : is_success (tx sent) ≡ true = ap is_success taken in
    let ran : send_telecommand p q.local_address channel bytes
          (transmitted now (on_frame q now sent).effects)
        ≡ finished p (on_frames p' (transmitted now (on_frame q now sent).effects))
            (send_frame p h bytes 8) =
      unfold send_telecommand in if_false _ _ idle in
    (
      ap (λ (o : Outcome). o.sent) ran ∙ ap (λ s. s.1) sends,
      (answer, effects),
      ap (λ (o : Outcome). o.result) ran
          ∙ ap₂ (λ a (q : PendingTcTm). a && (q.done && q.ok)) (ap (λ s. s.0) sends ∙ taken_) came,
      ap (λ (o : Outcome). o.protocol.pending_tc) ran,
    )
