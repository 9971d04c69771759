-- ===== src/GetBlock/Progress.antt =====
-- How the frames that arrive change the pending transaction of a requesting node.
use cannect.Base.{
  ℕ, ◌≡◌, refl, ◌∙◌, ap, true, false, some, List, [], ◌∷◌, ◌++◌, inl, inr, Option-cases, if_cases,
  u8, ◌+◌,
}
use cannect.Types.{CanFrame, CanTsHeader}
use cannect.Codec.{GetBlockFrameType, get_get_block_type, get_get_block_low6}
use cannect.SetBlock.Sender.{Arrival}
use cannect.GetBlock.State.{Session, PendingState, GetBlockManager, Effect, send, store}
use cannect.GetBlock.Provider.{
  reply, fresh_session, refuses, run_handler, on_request, on_start, start_transfers, on_abort,
  on_ack, on_nack, on_transfer, dispatch, on_frame,
}
use cannect.GetBlock.Requester.{on_frames}

-- A case rule: the REQUEST is refused and changes nothing, or a session begins.
pub on_request_cases {ℓ} :
    (P : GetBlockManager × List Effect → Type ℓ) (m : GetBlockManager) (now : ℕ) (h : CanTsHeader)
    (frame : CanFrame)
    → (let r = run_handler m.handler h.from in
        refuses (r.0).0 (r.0).1 (u8 (get_get_block_low6 h.command + 1)) frame ≡ true
        → P (m, r.1 ++ send (reply m h GetBlockFrameType.nack) frame.bytes frame.dlc ∷ []))
    → (let r = run_handler m.handler h.from in
        let n = u8 (get_get_block_low6 h.command + 1) in
        refuses (r.0).0 (r.0).1 n frame ≡ false
        → P (
          record m {
            sessions = store m.sessions h.from (some (fresh_session now h frame n (r.0).1));
          },
          r.1 ++ send (reply m h GetBlockFrameType.ack) frame.bytes frame.dlc ∷ [],
        ))
    → P (on_request m now h frame)
unfolding on_request
on_request_cases P m now h frame refused accepted = if_cases P _ refused accepted

-- A case rule: the START is refused and changes nothing, or an accepted session sends its blocks.
pub on_start_cases {ℓ} :
    (P : GetBlockManager × List Effect → Type ℓ) (m : GetBlockManager) (now : ℕ) (h : CanTsHeader)
    (frame : CanFrame)
    → P (m, send (reply m h GetBlockFrameType.nack) frame.bytes frame.dlc ∷ [])
    → ((s : Session)
        → m.sessions h.from ≡ some s
        → s.accepted ≡ true
        → P (start_transfers m now h frame s))
    → P (on_start m now h frame)
unfolding on_start
on_start_cases P m now h frame refused started = elim (Option-cases (m.sessions h.from)) [
  | inl e ↦ rw (e, on_start) refused
  | inr (s, e) ↦ rw (e, on_start) (if_cases P s.accepted (started s e) (λ _. refused))
]

-- The pending transaction and `lastData`.
pub record Progress : Type 0 where
  pub pending : PendingState
  pub last_data : List ℕ

abbrev pub progress : GetBlockManager → Progress
progress m = record { pending = m.pending; last_data = m.last_data }

-- The part of `onFrame` that concerns them.
abbrev pub step_progress : GetBlockFrameType → Progress → CanTsHeader → CanFrame → Progress
step_progress GetBlockFrameType.ack p h frame = record p { pending = on_ack p.pending h }
step_progress GetBlockFrameType.nack p h frame = record p { pending = on_nack p.pending h }
step_progress GetBlockFrameType.transfer p h frame =
    let t = on_transfer p.pending p.last_data h frame in record { pending = t.0; last_data = t.1 }
step_progress _ p h frame = p

abbrev Keeps : GetBlockManager → GetBlockManager × List Effect → Type 0
Keeps m r = (progress r.0 ≡ progress m) × (r.0.local_address ≡ m.local_address)

dispatch-progress :
    (type : GetBlockFrameType) (m : GetBlockManager) (now : ℕ) (h : CanTsHeader) (frame : CanFrame)
    → (progress (dispatch type m now h frame).0 ≡ step_progress type (progress m) h frame)
      × ((dispatch type m now h frame).0.local_address ≡ m.local_address)
unfolding dispatch on_abort start_transfers
dispatch-progress GetBlockFrameType.request m now h frame =
    on_request_cases (Keeps m) m now h frame (λ _. (refl, refl)) (λ _. (refl, refl))
dispatch-progress GetBlockFrameType.start m now h frame =
    on_start_cases (Keeps m) m now h frame (refl, refl) (λ s e a. (refl, refl))
dispatch-progress GetBlockFrameType.abort m now h frame = (refl, refl)
dispatch-progress GetBlockFrameType.ack m now h frame = (refl, refl)
dispatch-progress GetBlockFrameType.nack m now h frame = (refl, refl)
dispatch-progress GetBlockFrameType.transfer m now h frame = (refl, refl)
dispatch-progress (GetBlockFrameType.other n) m now h frame = (refl, refl)

abbrev pub next_progress : Progress → Arrival → Progress
next_progress p a = step_progress (get_get_block_type a.header.command) p a.header a.frame

abbrev pub progress_after : Progress → List Arrival → Progress
progress_after p [] = p
progress_after p (a ∷ rest) = progress_after (next_progress p a) rest

pub on_frame-local :
    (m : GetBlockManager) (a : Arrival)
    → (on_frame m a.now a.header a.frame).0.local_address ≡ m.local_address
unfolding on_frame
on_frame-local m a =
    (dispatch-progress (get_get_block_type a.header.command) m a.now a.header a.frame).1

pub on_frames-progress :
    (m : GetBlockManager) (arrivals : List Arrival)
    → (progress (on_frames m arrivals).0 ≡ progress_after (progress m) arrivals)
      × ((on_frames m arrivals).0.local_address ≡ m.local_address)
unfolding on_frames on_frame
on_frames-progress m [] = (refl, refl)
on_frames-progress m (a ∷ rest) =
    let (e, l) = dispatch-progress (get_get_block_type a.header.command) m a.now a.header a.frame in
    let (e', l') = on_frames-progress (on_frame m a.now a.header a.frame).0 rest in
    (e' ∙ ap (λ p. progress_after p rest) e, l' ∙ l)
