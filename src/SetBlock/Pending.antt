-- ===== src/SetBlock/Pending.antt =====
-- How the frames that arrive change the pending transaction of a sending node.

use cannect.Base.{ℕ, ◌≡◌, refl, ◌∙◌, ap, arith, true, List, [], ◌∷◌, ◌⊎◌, inl}
use cannect.Types.{CanFrame, CanTsHeader, payload}
use cannect.Codec.{SetBlockFrameType, get_set_block_type, get_set_block_done}
use cannect.SetBlock.State.{PendingState, SetBlockManager, Effect}
use cannect.SetBlock.Receiver.{
  on_request, hand_over, on_abort, on_ack, on_nack, on_report, dispatch, on_frame,
}
use cannect.SetBlock.Sender.{Arrival, on_frames}
use cannect.SetBlock.Cases.{on_transfer_cases, on_status_request_cases, report_status_cases}

-- The part of `onFrame` that concerns the pending transaction.
abbrev pub step_pending : SetBlockFrameType → PendingState → CanTsHeader → CanFrame → PendingState
step_pending SetBlockFrameType.ack p h frame = on_ack p h
step_pending SetBlockFrameType.nack p h frame = on_nack p h
step_pending SetBlockFrameType.report p h frame = on_report p h frame
step_pending _ p h frame = p

abbrev Keeps : SetBlockManager → SetBlockManager × List Effect → Type 0
Keeps m r = (r.0.pending ≡ m.pending) × (r.0.local_address ≡ m.local_address)

dispatch-pending :
    (type : SetBlockFrameType) (m : SetBlockManager) (now : ℕ) (h : CanTsHeader) (frame : CanFrame)
    → ((dispatch type m now h frame).0.pending ≡ step_pending type m.pending h frame)
      × ((dispatch type m now h frame).0.local_address ≡ m.local_address)
unfolding dispatch on_request on_abort hand_over
dispatch-pending SetBlockFrameType.transfer m now h frame =
    on_transfer_cases (Keeps m) m now h frame (refl, refl) λ s e t. (refl, refl)
dispatch-pending SetBlockFrameType.status_request m now h frame =
    on_status_request_cases (Keeps m) m h frame (refl, refl)
      λ s e a. report_status_cases (Keeps m) m h s (λ _. (refl, refl)) (λ _. (refl, refl))
dispatch-pending SetBlockFrameType.request m now h frame = (refl, refl)
dispatch-pending SetBlockFrameType.abort m now h frame = (refl, refl)
dispatch-pending _ m now h frame = (refl, refl)

abbrev pub next_pending : PendingState → Arrival → PendingState
next_pending p a = step_pending (get_set_block_type a.header.command) p a.header a.frame

pub on_frame-pending :
    (m : SetBlockManager) (a : Arrival)
    → ((on_frame m a.now a.header a.frame).0.pending ≡ next_pending m.pending a)
      × ((on_frame m a.now a.header a.frame).0.local_address ≡ m.local_address)
unfolding on_frame
on_frame-pending m a =
    dispatch-pending (get_set_block_type a.header.command) m a.now a.header a.frame

abbrev pub pending_after : PendingState → List Arrival → PendingState
pending_after p [] = p
pending_after p (a ∷ rest) = pending_after (next_pending p a) rest

pub on_frames-pending :
    (m : SetBlockManager) (arrivals : List Arrival)
    → ((on_frames m arrivals).0.pending ≡ pending_after m.pending arrivals)
      × ((on_frames m arrivals).0.local_address ≡ m.local_address)
unfolding on_frames
on_frames-pending m [] = (refl, refl)
on_frames-pending m (a ∷ rest) =
    let m' = (on_frame m a.now a.header a.frame).0 in
    let (p, l) = on_frames-pending m' rest in
    let (p', l') = on_frame-pending m a in (p ∙ ap (λ q. pending_after q rest) p', l ∙ l')

-- A frame of the given type from the given peer.
abbrev pub IsFrom : SetBlockFrameType → ℕ → Arrival → Type 0
IsFrom type peer a = (get_set_block_type a.header.command ≡ type) × (a.header.from ≡ peer)

-- One step: the acknowledgement is new only by an ACK from the peer.
pub step-acked :
    (type : SetBlockFrameType) (p : PendingState) (h : CanTsHeader) (frame : CanFrame)
    → (step_pending type p h frame).request_acked ≡ true
    → (p.request_acked ≡ true) ⊎ ((type ≡ SetBlockFrameType.ack) × (h.from ≡ p.peer))
unfolding on_ack on_nack on_report
step-acked SetBlockFrameType.ack p h frame e = ground arith
step-acked SetBlockFrameType.nack p h frame e = ground arith
step-acked SetBlockFrameType.report p h frame e = ground arith
step-acked _ p h frame e = inl e

pub step-peer :
    (type : SetBlockFrameType) (p : PendingState) (h : CanTsHeader) (frame : CanFrame)
    → (step_pending type p h frame).peer ≡ p.peer
unfolding on_ack on_nack on_report
step-peer SetBlockFrameType.ack p h frame = ground arith
step-peer SetBlockFrameType.nack p h frame = ground arith
step-peer SetBlockFrameType.report p h frame = ground arith
step-peer _ p h frame = refl

-- One step: a good report is the one that was there, or has just come from the peer.
pub step-reported :
    (type : SetBlockFrameType) (p : PendingState) (h : CanTsHeader) (frame : CanFrame)
    → (step_pending type p h frame).ok ≡ true
    → ((p.ok ≡ true)
        × ((step_pending type p h frame).bitmap ≡ p.bitmap)
        × ((step_pending type p h frame).done ≡ p.done))
      ⊎ ((type ≡ SetBlockFrameType.report)
          × (h.from ≡ p.peer)
          × ((step_pending type p h frame).bitmap ≡ payload frame)
          × ((step_pending type p h frame).done ≡ get_set_block_done h.command))
unfolding on_ack on_nack on_report
step-reported SetBlockFrameType.ack p h frame e = ground arith
step-reported SetBlockFrameType.nack p h frame e = ground arith
step-reported SetBlockFrameType.report p h frame e = ground arith
step-reported _ p h frame e = inl (e, refl, refl)
