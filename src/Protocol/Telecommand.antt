-- ===== src/Protocol/Telecommand.antt =====
-- What `sendTelecommand` has seen when it returns true.
use mathlib.Core.List.{Memᴰ}
use cannect.Base.{
  ℕ, ◌≡◌, refl, sym, ◌∙◌, ap, subst, arith, Bool, true, false, List, [], ◌∷◌, if_cases, ◌⊎◌, inl,
  inr,
}
use cannect.Types.{CanFrame, CanTsHeader}
use cannect.Codec.{CanTsReqAck, decode, get_tc_tm_kind, get_channel}
use cannect.Protocol.State.{PendingTcTm, CanTsProtocol, send_frame, note_peer_alive}
use cannect.Protocol.Handling.{is_for, on_frame}
use cannect.Protocol.Calls.{Incoming, on_frames, waiting_for, tc_header, send_telecommand}
use cannect.Protocol.Pending.{
  step_by_kind, step_pending, is_command, is_telecommand, on_frame-pending_tc,
}
use cannect.Protocol.Routing.{on_frame-Untouched}

-- The frame is an ACK of the pending request.
abbrev pub IsAck : PendingTcTm → CanTsHeader → Type 0
IsAck q h =
    (get_tc_tm_kind h.command ≡ CanTsReqAck.ack)
    × (h.from ≡ q.peer)
    × (get_channel h.command ≡ q.channel)

abbrev pub SameRequest : PendingTcTm → PendingTcTm → Type 0
SameRequest q r = (r.peer ≡ q.peer) × (r.channel ≡ q.channel)

pub for_request :
    (q : PendingTcTm) (from channel : ℕ)
    → is_for q from channel ≡ true
    → (from ≡ q.peer) × (channel ≡ q.channel)
for_request q from channel e = ground arith

-- A case rule for the step at a pending request.
pub step_by_kind-ok :
    (kind : CanTsReqAck) (q : PendingTcTm) (h : CanTsHeader) (frame : CanFrame)
    → get_tc_tm_kind h.command ≡ kind
    → SameRequest q (step_by_kind kind q h frame)
      × ((step_by_kind kind q h frame).ok ≡ true → (q.ok ≡ true) ⊎ IsAck q h)
step_by_kind-ok CanTsReqAck.ack q h frame e =
    if_cases (λ (r : PendingTcTm). SameRequest q r × (r.ok ≡ true → (q.ok ≡ true) ⊎ IsAck q h))
      (is_for q h.from (get_channel h.command))
      (λ f. (
        (refl, refl),
        λ _.
            let (from, channel) = for_request q h.from (get_channel h.command) f in
            inr (e, from, channel),
      ))
      (λ _. ((refl, refl), λ o. inl o))
step_by_kind-ok CanTsReqAck.nack q h frame e =
    if_cases (λ (r : PendingTcTm). SameRequest q r × (r.ok ≡ true → (q.ok ≡ true) ⊎ IsAck q h))
      (is_for q h.from (get_channel h.command)) (λ f. ((refl, refl), λ o. cc))
      (λ _. ((refl, refl), λ o. inl o))
step_by_kind-ok CanTsReqAck.req q h frame e = ((refl, refl), λ o. inl o)
step_by_kind-ok (CanTsReqAck.other n) q h frame e = ((refl, refl), λ o. inl o)

pub step_pending-ok :
    (mine : Bool) (q : PendingTcTm) (h : CanTsHeader) (frame : CanFrame)
    → SameRequest q (step_pending mine q h frame)
      × ((step_pending mine q h frame).ok ≡ true → (q.ok ≡ true) ⊎ (mine ≡ true) × IsAck q h)
step_pending-ok true q h frame =
    let (same, ok) = step_by_kind-ok (get_tc_tm_kind h.command) q h frame refl in
    (same, λ o. elim (ok o) [ inl old ↦ inl old | inr a ↦ inr (refl, a) ])
step_pending-ok false q h frame = ((refl, refl), λ o. inl o)

-- The frame answers, with an ACK for this node, a telecommand of this node to a peer's channel.
abbrev pub Acknowledges : ℕ → ℕ → ℕ → CanFrame → Type 0
Acknowledges local to channel frame =
    let h = decode frame.id in
    ((h.to ≡ local) ⊎ (h.to ≡ 0))
    × (is_telecommand h.type ≡ true)
    × (get_tc_tm_kind h.command ≡ CanTsReqAck.ack)
    × (h.from ≡ to)
    × (get_channel h.command ≡ channel)

command_parts :
    (p : CanTsProtocol) (frame : CanFrame)
    → is_command p frame ≡ true
    → (((decode frame.id).to ≡ p.local_address) ⊎ ((decode frame.id).to ≡ 0))
      × (is_telecommand (decode frame.id).type ≡ true)
command_parts p frame e = ground arith

step-Acknowledges :
    (p : CanTsProtocol) (now : ℕ) (frame : CanFrame)
    → let q = (on_frame p now frame).protocol in
      (q.local_address ≡ p.local_address)
      × SameRequest p.pending_tc q.pending_tc
      × (q.pending_tc.ok ≡ true
          → (p.pending_tc.ok ≡ true)
            ⊎ Acknowledges p.local_address p.pending_tc.peer p.pending_tc.channel frame)
unfolding note_peer_alive
step-Acknowledges p now frame =
    let h = decode frame.id in
    let r = (on_frame p now frame).protocol.pending_tc in
    let e = on_frame-pending_tc p now frame in
    let (same, ok) = step_pending-ok (is_command p frame) p.pending_tc h frame in
    (
      ((on_frame-Untouched p now frame).0.node).0,
      subst (SameRequest p.pending_tc) (sym e) same,
      λ o. elim (ok (ap (λ t. t.ok) (sym e) ∙ o)) [
        | inl old ↦ inl old
        | inr (mine, (kind, from, channel)) ↦
            let (to, type) = command_parts p frame mine in inr (to, type, kind, from, channel)
      ],
    )

acknowledged :
    (p : CanTsProtocol) (arrivals : List Incoming)
    → (on_frames p arrivals).0.pending_tc.ok ≡ true
    → (p.pending_tc.ok ≡ true)
      ⊎ ((a : Incoming) × Memᴰ a arrivals
          × Acknowledges p.local_address p.pending_tc.peer p.pending_tc.channel a.frame)
unfolding on_frames
acknowledged p [] o = inl o
acknowledged p (a ∷ rest) o =
    let (same, (peer, channel), ok) = step-Acknowledges p a.now a.frame in
    elim (acknowledged (on_frame p a.now a.frame).protocol rest o) [
      | inl now ↦ elim (ok now) [ inl old ↦ inl old | inr ack ↦ inr (a, Memᴰ.head refl, ack) ]
      | inr (b, m, (to, type, kind, from, ch)) ↦ inr (
        b,
        Memᴰ.tail m,
        (elim to [ inl l ↦ inl (l ∙ same) | inr z ↦ inr z ], type, kind, from ∙ peer, ch ∙ channel),
      )
    ]

-- When `sendTelecommand` returns true, no telecommand was pending, the transmitter took the frame,
-- and an ACK of a telecommand came from the peer on the channel, addressed to this node or to all.
pub send_telecommand-true :
    (p : CanTsProtocol) (to channel : ℕ) (bytes : List ℕ) (arrivals : List Incoming)
    → (send_telecommand p to channel bytes arrivals).result ≡ true
    → (p.pending_tc.waiting ≡ false)
      × ((send_frame p (tc_header p to channel) bytes 8).0 ≡ true)
      × ((a : Incoming) × Memᴰ a arrivals × Acknowledges p.local_address to channel a.frame)
unfolding send_telecommand
send_telecommand-true p to channel bytes arrivals e =
    let p' = record p { pending_tc = waiting_for to channel } in
    (
      ground arith,
      ground arith,
      elim (acknowledged p' arrivals (ground arith)) [ inl old ↦ cc | inr a ↦ a ],
    )
