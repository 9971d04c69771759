-- ===== src/SetBlock/Delivery.antt =====
-- When the registered handler is called, and with what.
use cannect.Base.{
  ℕ, ◌≡◌, refl, ap, ◌∙◌, arith, true, false, not, ◌&&◌, Option, none, some, List, [], ◌∷◌, ◌++◌,
  take, ◌⊎◌, inl, inr, ◌==◌, if◌then◌else◌, subst,
}
use cannect.Types.{CanFrame, CanTsHeader}
use cannect.Codec.{SetBlockFrameType, get_set_block_type, all_blocks_received}
use mathlib.Core.List.{append-nil}
use cannect.SetBlock.State.{Handler, Session, SetBlockManager, Effect, send, call}
use cannect.SetBlock.Receiver.{
  is_empty, on_request, report_status, hand_over, on_abort, dispatch, on_frame, assembled_data,
  received_blocks, concat_blocks, report, run_handler,
}
use cannect.SetBlock.Cases.{on_transfer_cases, on_status_request_cases, report_status_cases}

-- The data of the handler's calls for peer `k`.
abbrev pub calls_from : ℕ → List Effect → List (List ℕ)
calls_from k [] = []
calls_from k (send h bytes dlc ∷ es) = calls_from k es
calls_from k (call from channel request ∷ es) =
    let rest = calls_from k es in if from == k then request ∷ rest else rest

pub calls_from-append :
    (k : ℕ) (es fs : List Effect) → calls_from k (es ++ fs) ≡ calls_from k es ++ calls_from k fs
calls_from-append k [] fs = refl
calls_from-append k (send h bytes dlc ∷ es) fs = calls_from-append k es fs
calls_from-append k (call from channel request ∷ es) fs = ground (arith, calls_from-append k es fs)

-- All blocks of the session have come, and the handler has not yet taken them.
pub record IsComplete (s : Session) : Type 0 where
  pub accepted : s.accepted ≡ true
  pub undone : s.done ≡ false
  pub complete : all_blocks_received (received_blocks (take s.num_blocks s.blocks)) ≡ true

abbrev pub CallsComplete : SetBlockManager → CanTsHeader → ℕ → List Effect → Type 0
CallsComplete m h k effects =
    (calls_from k effects ≡ [])
    ⊎ ((s : Session) × (h.from ≡ k)
        × (m.sessions k ≡ some s)
        × IsComplete s
        × (calls_from k effects ≡ concat_blocks (take s.num_blocks s.blocks) ∷ []))

-- Only a complete session has data to hand over.
assembled_data_cases :
    (s : Session)
    → (not (is_empty (assembled_data s)) && not s.done) ≡ true
    → (s.done ≡ false)
      × (all_blocks_received (received_blocks (take s.num_blocks s.blocks)) ≡ true)
      × (assembled_data s ≡ concat_blocks (take s.num_blocks s.blocks))
unfolding assembled_data
assembled_data_cases s h = ground arith

run_handler-calls :
    (f : Option Handler) (h : CanTsHeader) (request : List ℕ) (k : ℕ)
    → (calls_from k (run_handler f h request).1 ≡ [])
      ⊎ ((h.from ≡ k) × (calls_from k (run_handler f h request).1 ≡ request ∷ []))
run_handler-calls none h request k = inl refl
run_handler-calls (some f) h request k = ground arith

pub hand_over-calls :
    (m : SetBlockManager) (h : CanTsHeader) (s : Session) (k : ℕ)
    → calls_from k (hand_over m h s).1 ≡ calls_from k (run_handler m.handler h (assembled_data s)).1
unfolding hand_over report
hand_over-calls m h s k =
    calls_from-append k (run_handler m.handler h (assembled_data s)).1 _ ∙ append-nil _

report_status-calls :
    (m : SetBlockManager) (h : CanTsHeader) (s : Session) (k : ℕ)
    → m.sessions h.from ≡ some s
    → s.accepted ≡ true
    → CallsComplete m h k (report_status m h s).1
unfolding report
report_status-calls m h s k e a =
    report_status_cases (λ r. CallsComplete m h k r.1) m h s
      (λ t. elim (run_handler-calls m.handler h (assembled_data s) k) [
        | inl quiet ↦ inl (hand_over-calls m h s k ∙ quiet)
        | inr (from, called) ↦
            let (undone, complete, whole) = assembled_data_cases s t in
            inr (
              s,
              from,
              subst (λ j. m.sessions j ≡ some s) from e,
              record { accepted = a; undone = undone; complete = complete },
              hand_over-calls m h s k ∙ called ∙ ap (λ d. d ∷ []) whole,
            )
      ])
      (λ _. inl refl)

dispatch-calls :
    (type : SetBlockFrameType) (m : SetBlockManager) (now : ℕ) (h : CanTsHeader) (frame : CanFrame)
    (k : ℕ)
    → CallsComplete m h k (dispatch type m now h frame).1
unfolding dispatch on_request on_abort
dispatch-calls SetBlockFrameType.request m now h frame k = inl refl
dispatch-calls SetBlockFrameType.transfer m now h frame k =
    on_transfer_cases (λ r. CallsComplete m h k r.1) m now h frame (inl refl) λ s e t. inl refl
dispatch-calls SetBlockFrameType.status_request m now h frame k =
    on_status_request_cases (λ r. CallsComplete m h k r.1) m h frame (inl refl)
      λ s e a. report_status-calls m h s k e a
dispatch-calls SetBlockFrameType.abort m now h frame k = inl refl
dispatch-calls _ m now h frame k = inl refl

-- A frame makes the handler called for peer `k` at most once, and then the frame is from `k`, and
-- `k` has an accepted session that is not done and whose blocks have all come, and the handler is
-- given these blocks, joined in order.
pub on_frame-calls :
    (m : SetBlockManager) (now : ℕ) (h : CanTsHeader) (frame : CanFrame) (k : ℕ)
    → CallsComplete m h k (on_frame m now h frame).1
unfolding on_frame
on_frame-calls m now h frame k = dispatch-calls (get_set_block_type h.command) m now h frame k
