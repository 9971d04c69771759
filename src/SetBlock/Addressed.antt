-- ===== src/SetBlock/Addressed.antt =====
-- The frames that a SetBlockManager answers (src/cants/SetBlockManager.cpp): whom they are for, and that
-- they fit.
use cannect.Base.{
  ℕ, ◌≤◌, ◌<◌, ◌≡◌, refl, ◌∙◌, ap, subst, arith, Bool, true, false, Option, some, none, List, [],
  ◌∷◌, ◌++◌, u8, min,
}
use cannect.Types.{CanFrame, CanTsHeader, CanTsMessageType, setblock}
use cannect.Codec.{
  SetBlockFrameType, set_block_code, get_set_block_type, make_set_block_report_command, encode,
  decode, ack_command_low7,
}
use cannect.Codec.Command.{report_as_sum}
use cannect.Wire.{make_frame}
use cannect.SetBlock.State.{Handler, Effect, send, call, Session, SetBlockManager}
use cannect.SetBlock.Receiver.{
  reply, ack_or_nack, report, run_handler, assembled_data, hand_over, on_request, on_abort,
  dispatch, on_frame,
}
use cannect.SetBlock.Sender.{Arrival, on_frames}
use cannect.SetBlock.Cases.{on_transfer_cases, on_status_request_cases, report_status_cases}
use cannect.SetBlock.Link.{received, arrivals, decode-block_header, make_set_block_command-lt}
use cannect.SetBlock.Pending.{on_frame-pending}

-- A header of a frame between two nodes, which survives the identifier.
pub record IsBetween (type : CanTsMessageType) (from to : ℕ) (h : CanTsHeader) : Type 0 where
  pub addressed : h.to ≡ to
  pub sent_by : h.from ≡ from
  pub typed : h.type ≡ type
  pub survives : decode (encode h) ≡ h

-- Each frame is a SETBLOCK frame between these nodes and holds at most eight bytes.
abbrev pub AreBetween : ℕ → ℕ → List Effect → Type 0
AreBetween from to [] = Unit {0}
AreBetween from to (send h bytes dlc ∷ es) =
    (IsBetween setblock from to h × (dlc ≤ 8)) × AreBetween from to es
AreBetween from to (call k channel request ∷ es) = AreBetween from to es

pub AreBetween-append :
    (from to : ℕ) (es fs : List Effect)
    → AreBetween from to es
    → AreBetween from to fs
    → AreBetween from to (es ++ fs)
AreBetween-append from to [] fs h k = k
AreBetween-append from to (send g bytes dlc ∷ es) fs h k =
    (h.0, AreBetween-append from to es fs h.1 k)
AreBetween-append from to (call c channel request ∷ es) fs h k = AreBetween-append from to es fs h k

pub decode-sent :
    {type : CanTsMessageType} {from to : ℕ} (h : CanTsHeader) (bytes : List ℕ) (dlc : ℕ)
    → IsBetween type from to h
    → decode (make_frame h bytes dlc).id ≡ h
unfolding make_frame
decode-sent h bytes dlc b = b.survives

pub header_IsBetween :
    (from to command : ℕ)
    → from < 256
    → to < 256
    → command < 1024
    → IsBetween setblock from to
        (record { to = to; from = from; type = setblock; command = command })
header_IsBetween from to command hf ht hc = record {
  addressed = refl;
  sent_by = refl;
  typed = refl;
  survives = decode-block_header to from command ht hf hc;
}

report_command-lt : (low6 : ℕ) (done : Bool) → make_set_block_report_command low6 done < 1024
report_command-lt low6 false = omega (arith, report_as_sum low6 false)
report_command-lt low6 true = omega (arith, report_as_sum low6 true)

one_frame : (n : ℕ) → u8 (min n 8) ≤ 8
one_frame n = omega arith

abbrev Answers : ℕ → CanTsHeader → SetBlockManager × List Effect → Type 0
Answers local h r = AreBetween local h.from r.1

module _ (m : SetBlockManager) (h : CanTsHeader) (frame : CanFrame) (local : m.local_address < 256)
    (from : h.from < 256) (fits : frame.dlc ≤ 8) where
  reply-AreBetween :
      (type : SetBlockFrameType)
      → set_block_code type < 8
      → AreBetween m.local_address h.from (send (reply m h type) frame.bytes frame.dlc ∷ [])
  reply-AreBetween type named = (
    (
      header_IsBetween m.local_address h.from _ local from
          (make_set_block_command-lt type (ack_command_low7 h.command) named),
      fits,
    ),
    tt,
  )

  report-AreBetween : (s : Session) → AreBetween m.local_address h.from (report m h s ∷ [])
  unfolding report
  report-AreBetween s = (
    (
      header_IsBetween m.local_address h.from _ local from (report_command-lt _ s.done),
      one_frame _,
    ),
    tt,
  )

  handler-AreBetween :
      (f : Option Handler) (request : List ℕ)
      → AreBetween m.local_address h.from (run_handler f h request).1
  handler-AreBetween none request = tt
  handler-AreBetween (some f) request = tt

  hand_over-Answers : (s : Session) → Answers m.local_address h (hand_over m h s)
  unfolding hand_over
  hand_over-Answers s =
      AreBetween-append m.local_address h.from (run_handler m.handler h (assembled_data s)).1 _
        (handler-AreBetween m.handler (assembled_data s)) (report-AreBetween _)

  ack_or_nack-Answers :
      (b : Bool)
      → AreBetween m.local_address h.from
          (send (reply m h (ack_or_nack b)) frame.bytes frame.dlc ∷ [])
  ack_or_nack-Answers true = reply-AreBetween SetBlockFrameType.ack (omega arith)
  ack_or_nack-Answers false = reply-AreBetween SetBlockFrameType.nack (omega arith)

  dispatch-Answers :
      (type : SetBlockFrameType) (now : ℕ) → Answers m.local_address h (dispatch type m now h frame)
  unfolding dispatch on_request on_abort
  dispatch-Answers SetBlockFrameType.request now = ack_or_nack-Answers _
  dispatch-Answers SetBlockFrameType.transfer now =
      on_transfer_cases (Answers m.local_address h) m now h frame
        (reply-AreBetween SetBlockFrameType.nack (omega arith))
        λ _ _ _. reply-AreBetween SetBlockFrameType.ack (omega arith)
  dispatch-Answers SetBlockFrameType.status_request now =
      on_status_request_cases (Answers m.local_address h) m h frame
        (reply-AreBetween SetBlockFrameType.nack (omega arith))
        λ s _ _.
          report_status_cases (Answers m.local_address h) m h s (λ _. hand_over-Answers s)
            (λ _. report-AreBetween s)
  dispatch-Answers SetBlockFrameType.abort now =
      reply-AreBetween SetBlockFrameType.ack (omega arith)
  dispatch-Answers SetBlockFrameType.ack now = tt
  dispatch-Answers SetBlockFrameType.nack now = tt
  dispatch-Answers SetBlockFrameType.report now = tt
  dispatch-Answers (SetBlockFrameType.other n) now = tt

pub on_frame-AreBetween :
    (m : SetBlockManager) (a : Arrival) (local from : ℕ)
    → m.local_address ≡ local
    → local < 256
    → a.header.from ≡ from
    → from < 256
    → a.frame.dlc ≤ 8
    → AreBetween local from (on_frame m a.now a.header a.frame).1
unfolding on_frame
on_frame-AreBetween m a local from el hl ef hf fits =
    subst (λ l. AreBetween l from (on_frame m a.now a.header a.frame).1) el
      (subst (λ f. AreBetween m.local_address f (on_frame m a.now a.header a.frame).1) ef
        (dispatch-Answers m a.header a.frame (omega (arith, el)) (omega (arith, ef)) fits
          (get_set_block_type a.header.command) a.now))

-- A node that handles frames from a peer answers only that peer, with SETBLOCK frames of at most eight
-- bytes whose headers survive the identifier.
pub on_frames-AreBetween :
    (m : SetBlockManager) (now from local : ℕ) (es : List Effect)
    → m.local_address ≡ local
    → local < 256
    → from < 256
    → AreBetween from local es
    → AreBetween local from (on_frames m (arrivals now es)).1
unfolding on_frames
on_frames-AreBetween m now from local [] el hl hf sent = tt
on_frames-AreBetween m now from local (call k channel request ∷ es) el hl hf sent =
    on_frames-AreBetween m now from local es el hl hf sent
on_frames-AreBetween m now from local (send h bytes dlc ∷ es) el hl hf ((b, fits), sent) =
    let a = received now h bytes dlc in
    let m' = (on_frame m now a.header a.frame).0 in
    AreBetween-append local from (on_frame m now a.header a.frame).1
      (on_frames m' (arrivals now es)).1
      (on_frame-AreBetween m a local from el hl
        (ap (λ (g : CanTsHeader). g.from) (decode-sent h bytes dlc b) ∙ b.sent_by) hf
        (unfold make_frame in fits))
      (on_frames-AreBetween m' now from local es ((on_frame-pending m a).1 ∙ el) hl hf sent)
