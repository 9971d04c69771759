-- ===== src/Protocol/Reading.antt =====
-- A whole telemetry request between two nodes: the answering node handles the frame that was sent, and
-- its answer arrives before the wait returns.
use mathlib.Core.Path.{ap₂}
use cannect.Base.{
  ℕ, ◌<◌, ◌≤◌, ◌≡◌, refl, ◌∙◌, ap, arith, Bool, true, false, ◌&&◌, some, List, [], ◌∷◌, ◌++◌,
  length, take, length-append, length-take, if◌then◌else◌, if_true, if_false,
}
use cannect.Types.{CanFrame, CanTsHeader, success, telemetry}
use cannect.Codec.{CanTsReqAck, make_tc_tm_command, get_channel}
use cannect.Codec.Command.{tc_tm_command_fields}
use cannect.Wire.{make_frame}
use cannect.SetBlock.Transfers.{payload_of_block}
use cannect.Protocol.State.{
  Transmitter, TmHandler, Effect, transmit, telemetry_call, CanTsProtocol, is_success, send_frame,
  note_peer_alive, no_pending,
}
use cannect.Protocol.Handling.{
  Handled, response, is_addressed, is_for, run_tm_handler, answer_telemetry, telemetry_by_kind,
  handle_telemetry, by_type, on_frame,
}
use cannect.Protocol.Calls.{
  Outcome, on_frames, waiting_for, tm_header, request_telemetry, get_last_telemetry,
}
use cannect.Protocol.Wire.{transmitted, on_frame-routed, decode-tc_tm, send_frame-some}
use cannect.Protocol.Exchange.{answer_kind, answer_kind_fits}
use cannect.Protocol.Pending.{is_telemetry}
use cannect.Protocol.Cache.{Cache, cache, stored, step_by_kind, step, on_frame-cache}
use cannect.Protocol.Telemetry.{cached_payload}

-- The bytes and the DLC of the answer.
abbrev answer_bytes : Bool → List ℕ → List ℕ
answer_bytes ok bytes = if ok then bytes else []

abbrev answer_dlc : Bool → ℕ
answer_dlc ok = if ok then 8 else 0

answer_dlc-le : (ok : Bool) → answer_dlc ok ≤ 8
answer_dlc-le true = omega arith
answer_dlc-le false = omega arith

abbrev answer_header : ℕ → ℕ → Bool → ℕ → CanTsHeader
answer_header to from ok channel = record {
  to = to;
  from = from;
  type = telemetry;
  command = make_tc_tm_command (answer_kind ok) channel;
}

abbrev answer_frame : ℕ → ℕ → Bool → ℕ → List ℕ → CanFrame
answer_frame to from ok channel bytes =
    make_frame (answer_header to from ok channel) (answer_bytes ok bytes) (answer_dlc ok)

answer_telemetry-some :
    (q : CanTsProtocol) (tx : Transmitter) (f : TmHandler) (h : CanTsHeader) (channel : ℕ)
    (ok : Bool) (bytes : List ℕ)
    → q.transmitter ≡ some tx
    → q.tm_handler ≡ some f
    → get_channel h.command ≡ channel
    → f h.from channel ≡ (ok, bytes)
    → answer_telemetry q h
      ≡ telemetry_call h.from channel
        ∷ transmit (answer_frame h.from q.local_address ok channel bytes)
        ∷ []
unfolding answer_telemetry
answer_telemetry-some q tx f h channel ok bytes t e ch gives =
    let answer : (Bool × List ℕ) × List Effect → ℕ → List Effect = λ r c.
      r.1
      ++ (send_frame q (response q h telemetry (r.0).0 c) (answer_bytes (r.0).0 (r.0).1)
          (answer_dlc (r.0).0)).1 in
    ap₂ (λ g c. answer (run_tm_handler g h.from c) c) e ch
    ∙ ap (λ r. answer (r, telemetry_call h.from channel ∷ []) channel) gives
    ∙ ap (λ r. telemetry_call h.from channel ∷ r.1)
        (send_frame-some q tx (answer_header h.from q.local_address ok channel)
          (answer_bytes ok bytes) (answer_dlc ok) t (answer_dlc-le ok))

telemetry_handled :
    (p q : CanTsProtocol) (tx : Transmitter) (f : TmHandler) (now channel : ℕ) (ok : Bool)
    (bytes : List ℕ)
    → p.local_address < 256
    → q.local_address < 256
    → channel < 256
    → q.transmitter ≡ some tx
    → q.tm_handler ≡ some f
    → f p.local_address channel ≡ (ok, bytes)
    → (on_frame q now (make_frame (tm_header p q.local_address channel) [] 0)).effects
      ≡ telemetry_call p.local_address channel
        ∷ transmit (answer_frame p.local_address q.local_address ok channel bytes)
        ∷ []
unfolding by_type handle_telemetry telemetry_by_kind note_peer_alive
telemetry_handled p q tx f now channel ok bytes hp hq hc t set gives =
    let h = tm_header p q.local_address channel in
    let frame = make_frame h [] 0 in
    let q' = note_peer_alive q now p.local_address in
    let (kind, ch) = tc_tm_command_fields CanTsReqAck.req channel refl (omega arith) hc in
    let mine : is_addressed q h ≡ true = ground arith in
    ap (λ (r : Handled). r.effects)
      (on_frame-routed q now h frame (
        decode-tc_tm q.local_address p.local_address channel 0 telemetry CanTsReqAck.req [] hq hp
          (omega arith) refl (omega arith) hc))
    ∙ ap (λ (r : Handled). r.effects) (if_true _ _ mine)
    ∙ ap (λ k. (telemetry_by_kind k q' h frame).1) kind
    ∙ answer_telemetry-some q' tx f h channel ok bytes t set ch gives

step_answer :
    (ok : Bool) (c : Cache) (h : CanTsHeader) (frame : CanFrame)
    → is_for c.pending h.from (get_channel h.command) ≡ true
    → step_by_kind (answer_kind ok) c h frame ≡ stored ok frame c
step_answer true c h frame e = if_true _ _ e
step_answer false c h frame e = if_true _ _ e

answer_arrives :
    (p : CanTsProtocol) (from now channel : ℕ) (ok : Bool) (bytes : List ℕ)
    → p.local_address < 256
    → from < 256
    → channel < 256
    → let frame = answer_frame p.local_address from ok channel bytes in
      let p' = record p { pending_tm = waiting_for from channel } in
      cache (on_frame p' now frame).protocol ≡ stored ok frame (cache p')
answer_arrives p from now channel ok bytes hp hf hc =
    let p' = record p { pending_tm = waiting_for from channel } in
    let h = answer_header p.local_address from ok channel in
    let frame = answer_frame p.local_address from ok channel bytes in
    let (fits, named) = answer_kind_fits ok in
    let (kind, ch) = tc_tm_command_fields (answer_kind ok) channel named fits hc in
    let mine : (is_addressed p' h && true) ≡ true = ground arith in
    let here : is_for p'.pending_tm h.from (get_channel h.command) ≡ true = ground arith in
    on_frame-cache p' now frame
    ∙ ap (λ g. step (is_addressed p' g && is_telemetry g.type) (cache p') g frame)
        (decode-tc_tm p.local_address from channel (answer_dlc ok) telemetry (answer_kind ok)
          (answer_bytes ok bytes) hp hf (omega arith) refl fits hc)
    ∙ ap (λ b. step b (cache p') h frame) mine
    ∙ ap (λ k. step_by_kind k (cache p') h frame) kind
    ∙ step_answer ok (cache p') h frame here

answer_cached :
    (r : CanTsProtocol) (to from channel : ℕ) (ok : Bool) (bytes : List ℕ) (c : Cache)
    → cache r ≡ stored ok (answer_frame to from ok channel bytes) c
    → length bytes ≡ 8
    → ok ≡ true
    → get_last_telemetry (record r { pending_tm = no_pending }) ≡ some (bytes, 8)
unfolding make_frame
answer_cached r to from channel false bytes c e size good = cc
answer_cached r to from channel true bytes c e size good =
    let frame = answer_frame to from true channel bytes in
    let room : 8 ≤ length frame.bytes =
      omega (arith, size, length-append (take 8 bytes) [], length-take 8 bytes) in
    cached_payload (record r { pending_tm = no_pending }) frame room
      (ap (λ (d : Cache). d.dlc) e, (c.bytes, ap (λ (d : Cache). d.bytes) e))
    ∙ ap (λ b. some (b, 8)) (payload_of_block (answer_header to from true channel) bytes size)

-- What `requestTelemetry` returns past its guard.
abbrev finished : CanTsProtocol × List Effect → Bool × List Effect → Outcome
finished r s = record {
  protocol = record r.0 { pending_tm = no_pending };
  sent = s.1;
  answers = r.1;
  result = s.0 && (((r.0).pending_tm).done && ((r.0).pending_tm).ok);
}

-- Between nodes with working transmitters, `requestTelemetry`, with none pending, calls the peer's
-- handler once with the requester's address and the channel, and returns what the handler answers. When
-- that is true, `getLastTelemetry` then gives the handler's eight bytes. Nothing is pending after it.
pub request_telemetry_answered :
    (p q : CanTsProtocol) (tx ty : Transmitter) (f : TmHandler) (now channel : ℕ) (ok : Bool)
    (bytes : List ℕ)
    → p.local_address < 256
    → q.local_address < 256
    → channel < 256
    → length bytes ≡ 8
    → p.pending_tm.waiting ≡ false
    → p.transmitter ≡ some tx
    → q.transmitter ≡ some ty
    → q.tm_handler ≡ some f
    → f p.local_address channel ≡ (ok, bytes)
    → tx (make_frame (tm_header p q.local_address channel) [] 0) ≡ success
    → let r = on_frame q now (make_frame (tm_header p q.local_address channel) [] 0) in
      let o = request_telemetry p q.local_address channel (transmitted now r.effects) in
      ((answer : CanFrame) × (r.effects
          ≡ telemetry_call p.local_address channel ∷ transmit answer ∷ []))
      × (o.result ≡ ok)
      × (ok ≡ true → get_last_telemetry o.protocol ≡ some (bytes, 8))
      × (o.protocol.pending_tm ≡ no_pending)
request_telemetry_answered p q tx ty f now channel ok bytes hp hq hc e idle t u set gives taken =
    let h = tm_header p q.local_address channel in
    let sent = make_frame h [] 0 in
    let arrived = transmitted now (on_frame q now sent).effects in
    let p' = record p { pending_tm = waiting_for q.local_address channel } in
    let answer = answer_frame p.local_address q.local_address ok channel bytes in
    let effects = telemetry_handled p q ty f now channel ok bytes hp hq hc u set gives in
    let sends = send_frame-some p tx h [] 0 t (omega arith) in
    let came : cache (on_frames p' arrived).0 ≡ stored ok answer (cache p') =
      ap (λ es. cache (on_frames p' (transmitted now es)).0) effects
      ∙ unfold on_frames in answer_arrives p q.local_address now channel ok bytes hp hq hc in
    let taken_ : is_success (tx sent) ≡ true = ap is_success taken in
    let ran : request_telemetry p q.local_address channel arrived
        ≡ finished (on_frames p' arrived) (send_frame p h [] 0) =
      unfold request_telemetry in if_false _ _ idle in
    (
      (answer, effects),
      ap (λ (o : Outcome). o.result) ran
          ∙ ap₂ (λ a (c : Cache). a && (c.pending.done && c.pending.ok))
              (ap (λ s. s.0) sends ∙ taken_) came,
      λ good.
          ap (λ (o : Outcome). get_last_telemetry o.protocol) ran
          ∙ answer_cached (on_frames p' arrived).0 p.local_address q.local_address channel ok bytes
              (cache p') came e good,
      ap (λ (o : Outcome). o.protocol.pending_tm) ran,
    )
