-- ===== src/Protocol/Telemetry.antt =====
-- What `requestTelemetry` has seen when it returns true, and what `getLastTelemetry` then gives.
use mathlib.Core.List.{Memᴰ}
use mathlib.Core.Path.{ap₂}
use cannect.Base.{
  ℕ, ◌≡◌, ◌≤◌, refl, sym, ◌∙◌, ap, subst, arith, Bool, true, false, none, some, List, [], ◌∷◌, ◌==◌,
  if◌then◌else◌, if_cases, if_false, ◌⊎◌, inl, inr, length, take,
}
use cannect.Types.{CanFrame, CanTsHeader, payload}
use cannect.Codec.{CanTsReqAck, decode, get_tc_tm_kind, get_channel}
use cannect.Wire.{take_back}
use cannect.Protocol.State.{CanTsProtocol, send_frame, note_peer_alive, copy_over, no_pending}
use cannect.Protocol.Handling.{is_for, on_frame}
use cannect.Protocol.Calls.{
  Incoming, Outcome, on_frames, waiting_for, tm_header, request_telemetry, get_last_telemetry,
}
use cannect.Protocol.Pending.{is_telemetry}
use cannect.Protocol.Telecommand.{IsAck, SameRequest, for_request}
use cannect.Protocol.Routing.{on_frame-Untouched}
use cannect.Protocol.Cache.{Cache, cache, step_by_kind, step, is_response, on_frame-cache}

-- The cached bytes are those that `frame` left.
abbrev pub Caches : CanFrame → Cache → Type 0
Caches frame c =
    (c.dlc ≡ frame.dlc) × ((old : List ℕ) × (c.bytes ≡ copy_over old frame.bytes frame.dlc))

-- Either the step left a good answer as it was, or the frame is an ACK and is cached.
abbrev Steps : Bool → Cache → CanTsHeader → CanFrame → Cache → Type 0
Steps mine c h frame d =
    SameRequest c.pending d.pending
    × (d.pending.ok ≡ true → (d ≡ c) ⊎ (mine ≡ true) × IsAck c.pending h × Caches frame d)

step_by_kind-Steps :
    (kind : CanTsReqAck) (c : Cache) (h : CanTsHeader) (frame : CanFrame)
    → get_tc_tm_kind h.command ≡ kind
    → Steps true c h frame (step_by_kind kind c h frame)
step_by_kind-Steps CanTsReqAck.ack c h frame e =
    if_cases (Steps true c h frame) (is_for c.pending h.from (get_channel h.command))
      (λ f. (
        (refl, refl),
        λ _.
            let (from, channel) = for_request c.pending h.from (get_channel h.command) f in
            inr (refl, (e, from, channel), (refl, (c.bytes, refl))),
      ))
      (λ _. ((refl, refl), λ o. inl refl))
step_by_kind-Steps CanTsReqAck.nack c h frame e =
    if_cases (Steps true c h frame) (is_for c.pending h.from (get_channel h.command))
      (λ f. ((refl, refl), λ o. cc)) (λ _. ((refl, refl), λ o. inl refl))
step_by_kind-Steps CanTsReqAck.req c h frame e = ((refl, refl), λ o. inl refl)
step_by_kind-Steps (CanTsReqAck.other n) c h frame e = ((refl, refl), λ o. inl refl)

step-Steps :
    (mine : Bool) (c : Cache) (h : CanTsHeader) (frame : CanFrame)
    → Steps mine c h frame (step mine c h frame)
step-Steps true c h frame = step_by_kind-Steps (get_tc_tm_kind h.command) c h frame refl
step-Steps false c h frame = ((refl, refl), λ o. inl refl)

-- The frame answers, with an ACK for this node, a telemetry request to a peer's channel.
abbrev pub Responds : ℕ → ℕ → ℕ → CanFrame → Type 0
Responds local to channel frame =
    let h = decode frame.id in
    ((h.to ≡ local) ⊎ (h.to ≡ 0))
    × (is_telemetry h.type ≡ true)
    × (get_tc_tm_kind h.command ≡ CanTsReqAck.ack)
    × (h.from ≡ to)
    × (get_channel h.command ≡ channel)

response_parts :
    (p : CanTsProtocol) (frame : CanFrame)
    → is_response p frame ≡ true
    → (((decode frame.id).to ≡ p.local_address) ⊎ ((decode frame.id).to ≡ 0))
      × (is_telemetry (decode frame.id).type ≡ true)
response_parts p frame e = ground arith

-- A good answer that is pending is that of a frame, which is cached, or was there before.
remembered :
    (p : CanTsProtocol) (arrivals : List Incoming)
    → (cache (on_frames p arrivals).0).pending.ok ≡ true
    → (cache (on_frames p arrivals).0 ≡ cache p)
      ⊎ ((a : Incoming) × Memᴰ a arrivals
          × Responds p.local_address p.pending_tm.peer p.pending_tm.channel a.frame
          × Caches a.frame (cache (on_frames p arrivals).0))
unfolding on_frames note_peer_alive
remembered p [] o = inl refl
remembered p (a ∷ rest) o =
    let q = (on_frame p a.now a.frame).protocol in
    let end = cache (on_frames q rest).0 in
    let e = on_frame-cache p a.now a.frame in
    let local = ((on_frame-Untouched p a.now a.frame).0.node).0 in
    let ((peer, channel), ok) =
      subst (Steps (is_response p a.frame) (cache p) (decode a.frame.id) a.frame) (sym e)
        (step-Steps (is_response p a.frame) (cache p) (decode a.frame.id) a.frame) in
    elim (remembered q rest o) [
      | inl same ↦ elim (ok (ap (λ (c : Cache). c.pending.ok) (sym same) ∙ o)) [
        | inl old ↦ inl (same ∙ old)
        | inr (mine, (kind, from, ch), left) ↦
            let (to, type) = response_parts p a.frame mine in
            inr (
              a,
              Memᴰ.head refl,
              (to, type, kind, from, ch),
              subst (Caches a.frame) (sym same) left,
            )
      ]
      | inr (b, m, (to, type, kind, from, ch), left) ↦ inr (
        b,
        Memᴰ.tail m,
        (
          elim to [ inl l ↦ inl (l ∙ local) | inr z ↦ inr z ],
          type,
          kind,
          from ∙ peer,
          ch ∙ channel,
        ),
        left,
      )
    ]

-- `getLastTelemetry` reads what a frame left.
pub cached_payload :
    (p : CanTsProtocol) (frame : CanFrame)
    → frame.dlc ≤ length frame.bytes
    → Caches frame (cache p)
    → get_last_telemetry p ≡ (if frame.dlc == 0 then none else some (payload frame, frame.dlc))
unfolding get_last_telemetry
cached_payload p frame fits (dlc, (old, bytes)) =
    ap₂ (λ d (b : List ℕ). if d == 0 then none else some (take d b, d)) dlc bytes
    ∙ ap (λ b. if frame.dlc == 0 then none else some (b, frame.dlc))
        (take_back frame.dlc frame.bytes _ fits)

-- When `requestTelemetry` returns true, no request was pending, the transmitter took the frame, and an
-- ACK of a telemetry request came from the peer on the channel, addressed to this node or to all.
-- `getLastTelemetry` then gives that frame's payload, or nothing where its DLC is 0. The frames that
-- arrive hold at least as many bytes as their DLC says.
pub request_telemetry-true :
    (p : CanTsProtocol) (to channel : ℕ) (arrivals : List Incoming)
    → ((a : Incoming) → Memᴰ a arrivals → a.frame.dlc ≤ length a.frame.bytes)
    → (request_telemetry p to channel arrivals).result ≡ true
    → (p.pending_tm.waiting ≡ false)
      × ((send_frame p (tm_header p to channel) [] 0).0 ≡ true)
      × ((a : Incoming) × Memᴰ a arrivals
          × Responds p.local_address to channel a.frame
          × (get_last_telemetry (request_telemetry p to channel arrivals).protocol
              ≡ (if a.frame.dlc == 0 then none else some (payload a.frame, a.frame.dlc))))
unfolding request_telemetry
request_telemetry-true p to channel arrivals fits e =
    let p' = record p { pending_tm = waiting_for to channel } in
    let idle : p.pending_tm.waiting ≡ false = ground arith in
    let r = on_frames p' arrivals in
    (
      idle,
      ground arith,
      elim (remembered p' arrivals (ground arith)) [
        | inl same ↦ absurd (still_bad r.0 (ground arith) (ap (λ (c : Cache). c.pending.ok) same))
        | inr (a, m, ack, left) ↦ (
          a,
          m,
          ack,
          ap (λ (o : Outcome). get_last_telemetry o.protocol)
                (if_false {b = p.pending_tm.waiting} _ _ idle)
              ∙ cached_payload (record r.0 { pending_tm = no_pending }) a.frame (fits a m) left,
        )
      ],
    )
  where
    still_bad : (q : CanTsProtocol) → q.pending_tm.ok ≡ true → q.pending_tm.ok ≡ false → ⊥
    still_bad q h k = cc
