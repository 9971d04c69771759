-- ===== src/SetBlock/Once.antt =====
-- Peers do not disturb one another, and data that the handler took is not given to it again.
use cannect.Base.{
  ℕ, ◌≡◌, ◌≢◌, refl, sym, ◌∙◌, arith, Bool, true, false, not, ◌&&◌, Option, some, if◌then◌else◌, ap,
  List, [], ◌∷◌, ◌++◌, inl, inr, ◌==◌, ℕ_discrete,
}
use cannect.Types.{CanFrame, CanTsHeader}
use cannect.Codec.{SetBlockFrameType, get_set_block_type}
use mathlib.Core.Path.{ap₂}
use cannect.SetBlock.State.{Handler, Session, SetBlockManager, Effect, store}
use cannect.SetBlock.Receiver.{
  on_request, report_status, hand_over, on_abort, dispatch, on_frame, report, run_handler,
  assembled_data,
}
use cannect.SetBlock.Sender.{Arrival, on_frames}
use cannect.SetBlock.Cases.{on_transfer_cases, on_status_request_cases, report_status_cases}
use cannect.SetBlock.Delivery.{
  CallsComplete, calls_from, calls_from-append, hand_over-calls, on_frame-calls,
}

-- The session of peer `k` is as before.
abbrev Leaves : ℕ → SetBlockManager → SetBlockManager × List Effect → Type 0
Leaves k m r = r.0.sessions k ≡ m.sessions k

store_elsewhere :
    (sessions : ℕ → Option Session) (key k : ℕ) (v : Option Session)
    → key ≢ k
    → store sessions key v k ≡ sessions k
store_elsewhere sessions key k v ne = ground arith

report_status-Leaves :
    (m : SetBlockManager) (h : CanTsHeader) (s : Session) (k : ℕ)
    → h.from ≢ k
    → Leaves k m (report_status m h s)
unfolding hand_over
report_status-Leaves m h s k ne =
    report_status_cases (Leaves k m) m h s (λ _. store_elsewhere m.sessions h.from k _ ne)
      (λ _. refl)

dispatch-Leaves :
    (type : SetBlockFrameType) (m : SetBlockManager) (now : ℕ) (h : CanTsHeader) (frame : CanFrame)
    (k : ℕ)
    → h.from ≢ k
    → Leaves k m (dispatch type m now h frame)
unfolding dispatch on_request on_abort
dispatch-Leaves SetBlockFrameType.request m now h frame k ne =
    store_elsewhere m.sessions h.from k _ ne
dispatch-Leaves SetBlockFrameType.transfer m now h frame k ne =
    on_transfer_cases (Leaves k m) m now h frame refl
      λ s e t. store_elsewhere m.sessions h.from k _ ne
dispatch-Leaves SetBlockFrameType.status_request m now h frame k ne =
    on_status_request_cases (Leaves k m) m h frame refl λ s e a. report_status-Leaves m h s k ne
dispatch-Leaves SetBlockFrameType.abort m now h frame k ne =
    store_elsewhere m.sessions h.from k _ ne
dispatch-Leaves _ m now h frame k ne = refl

-- A frame from one peer leaves the session of every other peer as it was, and makes no call of the
-- handler on another peer's behalf.
pub on_frame_isolates :
    (m : SetBlockManager) (now : ℕ) (h : CanTsHeader) (frame : CanFrame) (k : ℕ)
    → h.from ≢ k
    → ((on_frame m now h frame).0.sessions k ≡ m.sessions k)
      × (calls_from k (on_frame m now h frame).1 ≡ [])
unfolding on_frame
on_frame_isolates m now h frame k ne = (
  dispatch-Leaves (get_set_block_type h.command) m now h frame k ne,
  quiet (on_frame-calls m now h frame k),
)
  where
    quiet :
        CallsComplete m h k (on_frame m now h frame).1
        → calls_from k (on_frame m now h frame).1 ≡ []
    quiet (inl e) = e
    quiet (inr called) = absurd (ne called.1)

-- The handler has taken the data of peer `k`.
abbrev pub IsTaken : ℕ → SetBlockManager → Type 0
IsTaken k m = (s : Session) × (m.sessions k ≡ some s) × (s.done ≡ true)

-- A peer begins again by a REQUEST or an ABORT.
abbrev pub restarts : SetBlockFrameType → Bool
restarts SetBlockFrameType.request = true
restarts SetBlockFrameType.abort = true
restarts _ = false

abbrev pub begins_again : ℕ → Arrival → Bool
begins_again k a = restarts (get_set_block_type a.header.command) && a.header.from == k

abbrev pub none_begins_again : ℕ → List Arrival → Bool
none_begins_again k [] = true
none_begins_again k (a ∷ rest) = not (begins_again k a) && none_begins_again k rest

store-IsTaken :
    (m : SetBlockManager) (key k : ℕ) (s s' : Session)
    → m.sessions key ≡ some s
    → s'.done ≡ s.done
    → IsTaken k m
    → IsTaken k (record m { sessions = store m.sessions key (some s') })
store-IsTaken m key k s s' e same (t, at, taken) = elim (ℕ_discrete key k) [
  | yes here ↦ (s', ground arith, ground arith)
  | no there ↦ (t, store_elsewhere m.sessions key k _ there ∙ at, taken)
]

report_status-IsTaken :
    (m : SetBlockManager) (h : CanTsHeader) (s : Session) (k : ℕ)
    → m.sessions h.from ≡ some s
    → IsTaken k m
    → IsTaken k (report_status m h s).0
unfolding hand_over
report_status-IsTaken m h s k e (t, at, taken) = elim (ℕ_discrete h.from k) [
  | yes here ↦
      report_status_cases (λ r. IsTaken k r.0) m h s (λ open_. ground arith) (λ _. (t, at, taken))
  | no there ↦ (t, report_status-Leaves m h s k there ∙ at, taken)
]

dispatch-IsTaken :
    (type : SetBlockFrameType) (m : SetBlockManager) (now : ℕ) (h : CanTsHeader) (frame : CanFrame)
    (k : ℕ)
    → (restarts type && h.from == k) ≡ false
    → IsTaken k m
    → IsTaken k (dispatch type m now h frame).0
unfolding dispatch
dispatch-IsTaken SetBlockFrameType.request m now h frame k b (t, at, taken) =
    (t, dispatch-Leaves SetBlockFrameType.request m now h frame k (ground arith) ∙ at, taken)
dispatch-IsTaken SetBlockFrameType.transfer m now h frame k b t =
    on_transfer_cases (λ r. IsTaken k r.0) m now h frame t
      λ s found takes. store-IsTaken m h.from k s _ found refl t
dispatch-IsTaken SetBlockFrameType.status_request m now h frame k b t =
    on_status_request_cases (λ r. IsTaken k r.0) m h frame t
      λ s found a. report_status-IsTaken m h s k found t
dispatch-IsTaken SetBlockFrameType.abort m now h frame k b (t, at, taken) =
    (t, dispatch-Leaves SetBlockFrameType.abort m now h frame k (ground arith) ∙ at, taken)
dispatch-IsTaken _ m now h frame k b t = t

on_frame-IsTaken :
    (k : ℕ) (m : SetBlockManager) (now : ℕ) (h : CanTsHeader) (frame : CanFrame)
    → (restarts (get_set_block_type h.command) && h.from == k) ≡ false
    → IsTaken k m
    → IsTaken k (on_frame m now h frame).0 × (calls_from k (on_frame m now h frame).1 ≡ [])
unfolding on_frame
on_frame-IsTaken k m now h frame b t = (
  dispatch-IsTaken (get_set_block_type h.command) m now h frame k b t,
  silent t (on_frame-calls m now h frame k),
)
  where
    silent :
        IsTaken k m
        → CallsComplete m h k (on_frame m now h frame).1
        → calls_from k (on_frame m now h frame).1 ≡ []
    silent taken (inl e) = e
    silent (s, at, done) (inr (s', from, at', open_, called)) =
        absurd (clash (sym at ∙ at') done open_.undone)
      where
        clash : ◌≡◌ {A = Option Session} (some s) (some s') → s.done ≡ true → s'.done ≡ false → ⊥
        clash e p q = cc

-- A call that the handler takes leaves the session taken.
abbrev Takes : ℕ → List ℕ → SetBlockManager × List Effect → Type 0
Takes k request r = calls_from k r.1 ≡ request ∷ [] → IsTaken k r.0

store_here :
    (sessions : ℕ → Option Session) (key k : ℕ) (v : Option Session)
    → key ≡ k
    → store sessions key v k ≡ v
store_here sessions key k v e = ground arith

-- One call was made, of this data.
the_call :
    (b : Bool) (given request : List ℕ)
    → ◌≡◌ {A = List (List ℕ)} (if b then given ∷ [] else []) (request ∷ [])
    → (b ≡ true) × (given ≡ request)
the_call true given request e = (refl, cc)
the_call false given request e = cc

-- The answer of the handler is stored.
hand_over-IsTaken :
    (m : SetBlockManager) (f : Handler) (h : CanTsHeader) (s : Session) (k : ℕ) (request : List ℕ)
    → m.handler ≡ some f
    → f k 0 request ≡ true
    → calls_from k (hand_over m h s).1 ≡ request ∷ []
    → IsTaken k (hand_over m h s).0
unfolding hand_over
hand_over-IsTaken m f h s k request set takes called =
    let data_ = assembled_data s in
    let (from, same) = the_call (h.from == k) data_ request (
      ap (λ g. calls_from k (run_handler g h data_).1) (sym set)
      ∙ sym (hand_over-calls m h s k)
      ∙ called) in
    let here : h.from ≡ k = ground arith in
    let done : (run_handler m.handler h data_).0 ≡ true =
      ap (λ g. (run_handler g h data_).0) set ∙ ap₂ (λ j r. f j 0 r) here same ∙ takes in
    (
      record s { done = (run_handler m.handler h data_).0 },
      store_here m.sessions h.from k _ here,
      done,
    )

dispatch-Takes :
    (type : SetBlockFrameType) (m : SetBlockManager) (f : Handler) (now : ℕ) (h : CanTsHeader)
    (frame : CanFrame) (k : ℕ) (request : List ℕ)
    → m.handler ≡ some f
    → f k 0 request ≡ true
    → Takes k request (dispatch type m now h frame)
unfolding dispatch on_request on_abort report
dispatch-Takes SetBlockFrameType.transfer m f now h frame k request set takes =
    on_transfer_cases (Takes k request) m now h frame (λ e. cc) λ s found t. (λ e. cc)
dispatch-Takes SetBlockFrameType.status_request m f now h frame k request set takes =
    on_status_request_cases (Takes k request) m h frame (λ e. cc)
      λ s found a.
        report_status_cases (Takes k request) m h s
          (λ _. hand_over-IsTaken m f h s k request set takes) (λ _ e. cc)
dispatch-Takes _ m f now h frame k request set takes = λ e. cc

-- A taken session stays taken, and the handler is not called, until the peer begins again.
on_frames-IsTaken :
    (k : ℕ) (m : SetBlockManager) (arrivals : List Arrival)
    → IsTaken k m
    → none_begins_again k arrivals ≡ true
    → IsTaken k (on_frames m arrivals).0 × (calls_from k (on_frames m arrivals).1 ≡ [])
unfolding on_frames
on_frames-IsTaken k m [] t quiet = (t, refl)
on_frames-IsTaken k m (a ∷ rest) t quiet =
    let m' = (on_frame m a.now a.header a.frame).0 in
    let (t', silent) = on_frame-IsTaken k m a.now a.header a.frame (ground arith) t in
    let (end, calm) = on_frames-IsTaken k m' rest t' (ground arith) in
    (
      end,
      calls_from-append k (on_frame m a.now a.header a.frame).1 (on_frames m' rest).1
          ∙ ap₂ ◌++◌ silent calm,
    )

-- When a frame makes the handler called on a peer's behalf, and the handler takes the data, then this
-- is the one call on that peer's behalf in that frame and all that follow, until the peer sends a
-- REQUEST or an ABORT.
pub on_frames-taken_once :
    (k : ℕ) (m : SetBlockManager) (f : Handler) (a : Arrival) (rest : List Arrival)
    (request : List ℕ)
    → m.handler ≡ some f
    → calls_from k (on_frame m a.now a.header a.frame).1 ≡ request ∷ []
    → f k 0 request ≡ true
    → none_begins_again k rest ≡ true
    → calls_from k (on_frames m (a ∷ rest)).1 ≡ request ∷ []
unfolding on_frame on_frames
on_frames-taken_once k m f a rest request set called takes quiet =
    let r = on_frame m a.now a.header a.frame in
    let taken =
      dispatch-Takes (get_set_block_type a.header.command) m f a.now a.header a.frame k request set
        takes called in
    calls_from-append k r.1 (on_frames r.0 rest).1
    ∙ ap₂ ◌++◌ called (on_frames-IsTaken k r.0 rest taken quiet).1
