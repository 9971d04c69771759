-- ===== src/GetBlock/Addressed.antt =====
-- The frames that a GetBlockManager sends (src/cants/GetBlockManager.cpp): whom they are for, and that
-- they fit.
use cannect.Base.{
  ℕ, zero, suc, ◌+◌, ◌≤◌, ◌<◌, ◌≡◌, refl, ◌∙◌, ap, subst, arith, Option, none, some, List, [], ◌∷◌,
  ◌++◌, if_cases,
}
use cannect.Types.{CanFrame, CanTsHeader, getblock, payload}
use cannect.Codec.{GetBlockFrameType, get_block_code, get_get_block_type, ack_command_low7}
use cannect.Wire.{make_frame}
use cannect.SetBlock.Receiver.{is_empty}
use cannect.SetBlock.Sender.{Arrival}
use cannect.SetBlock.Link.{received}
use cannect.SetBlock.Addressed.{IsBetween, decode-sent}
use cannect.GetBlock.State.{Handler, Effect, send, ask, GetBlockManager}
use cannect.GetBlock.Provider.{
  reply, run_handler, mask_blocks, send_blocks, start_transfers, dispatch, on_frame,
}
use cannect.GetBlock.Requester.{on_frames}
use cannect.GetBlock.Link.{arrivals, header, decode-header}
use cannect.GetBlock.Progress.{on_request_cases, on_start_cases, on_frame-local}

-- Each frame is a GETBLOCK frame between these nodes and holds at most eight bytes.
abbrev pub AreBetween : ℕ → ℕ → List Effect → Type 0
AreBetween from to [] = Unit {0}
AreBetween from to (send h bytes dlc ∷ es) =
    (IsBetween getblock from to h × (dlc ≤ 8)) × AreBetween from to es
AreBetween from to (ask k channel ∷ es) = AreBetween from to es

pub AreBetween-append :
    (from to : ℕ) (es fs : List Effect)
    → AreBetween from to es
    → AreBetween from to fs
    → AreBetween from to (es ++ fs)
AreBetween-append from to [] fs h k = k
AreBetween-append from to (send g bytes dlc ∷ es) fs h k =
    (h.0, AreBetween-append from to es fs h.1 k)
AreBetween-append from to (ask c channel ∷ es) fs h k = AreBetween-append from to es fs h k

pub header-IsBetween :
    (from to : ℕ) (type : GetBlockFrameType) (low6 : ℕ)
    → from < 256
    → to < 256
    → get_block_code type < 8
    → IsBetween getblock from to (header from to type low6)
unfolding make_frame
header-IsBetween from to type low6 hf ht named = record {
  addressed = refl;
  sent_by = refl;
  typed = refl;
  survives = decode-header from to type low6 0 [] hf ht named;
}

send_blocks-AreBetween :
    (from to n i : ℕ) (blocks : List (List ℕ))
    → from < 256
    → to < 256
    → AreBetween from to (send_blocks from to n i blocks)
unfolding send_blocks
send_blocks-AreBetween from to zero i blocks hf ht = tt
send_blocks-AreBetween from to (suc n) i [] hf ht = tt
send_blocks-AreBetween from to (suc n) i (b ∷ blocks) hf ht =
    let rest = send_blocks-AreBetween from to n (i + 1) blocks hf ht in
    if_cases (AreBetween from to) (is_empty b) (λ _. rest)
      (λ _. (
        (header-IsBetween from to GetBlockFrameType.transfer i hf ht (omega arith), omega arith),
        rest,
      ))

abbrev Answers : ℕ → CanTsHeader → GetBlockManager × List Effect → Type 0
Answers local h r = AreBetween local h.from r.1

module _ (m : GetBlockManager) (h : CanTsHeader) (frame : CanFrame) (local : m.local_address < 256)
    (from : h.from < 256) (fits : frame.dlc ≤ 8) where
  reply-AreBetween :
      (type : GetBlockFrameType)
      → get_block_code type < 8
      → AreBetween m.local_address h.from (send (reply m h type) frame.bytes frame.dlc ∷ [])
  reply-AreBetween type named = (
    (
      header-IsBetween m.local_address h.from type (ack_command_low7 h.command) local from named,
      fits,
    ),
    tt,
  )

  handler-AreBetween :
      (f : Option Handler) → AreBetween m.local_address h.from (run_handler f h.from).1
  handler-AreBetween none = tt
  handler-AreBetween (some f) = tt

  asked-AreBetween :
      (type : GetBlockFrameType)
      → get_block_code type < 8
      → AreBetween m.local_address h.from
          ((run_handler m.handler h.from).1 ++ send (reply m h type) frame.bytes frame.dlc ∷ [])
  asked-AreBetween type named =
      AreBetween-append m.local_address h.from (run_handler m.handler h.from).1
        (send (reply m h type) frame.bytes frame.dlc ∷ []) (handler-AreBetween m.handler)
        (reply-AreBetween type named)

  dispatch-Answers :
      (type : GetBlockFrameType) (now : ℕ) → Answers m.local_address h (dispatch type m now h frame)
  unfolding dispatch start_transfers
  dispatch-Answers GetBlockFrameType.request now =
      on_request_cases (Answers m.local_address h) m now h frame
        (λ _. asked-AreBetween GetBlockFrameType.nack (omega arith))
        (λ _. asked-AreBetween GetBlockFrameType.ack (omega arith))
  dispatch-Answers GetBlockFrameType.start now =
      on_start_cases (Answers m.local_address h) m now h frame
        (reply-AreBetween GetBlockFrameType.nack (omega arith))
        (λ s _ _.
          send_blocks-AreBetween m.local_address h.from s.num_blocks 0
            (mask_blocks (payload frame) s.num_blocks 0 s.blocks) local from)
  dispatch-Answers GetBlockFrameType.abort now = tt
  dispatch-Answers GetBlockFrameType.ack now = tt
  dispatch-Answers GetBlockFrameType.nack now = tt
  dispatch-Answers GetBlockFrameType.transfer now = tt
  dispatch-Answers (GetBlockFrameType.other n) now = tt

pub on_frame-AreBetween :
    (m : GetBlockManager) (a : Arrival) (local from : ℕ)
    → m.local_address ≡ local
    → local < 256
    → a.header.from ≡ from
    → from < 256
    → a.frame.dlc ≤ 8
    → AreBetween local from (on_frame m a.now a.header a.frame).1
unfolding on_frame
on_frame-AreBetween m a local from el hl ef hf fits =
    subst (λ l. AreBetween l from (on_frame m a.now a.header a.frame).1) el
      (subst (λ f. AreBetween m.local_address f (on_frame m a.now a.header a.frame).1) ef
        (dispatch-Answers m a.header a.frame (omega (arith, el)) (omega (arith, ef)) fits
          (get_get_block_type a.header.command) a.now))

-- A node that handles frames from a peer answers only that peer, with GETBLOCK frames of at most eight
-- bytes whose headers survive the identifier.
pub on_frames-AreBetween :
    (m : GetBlockManager) (now from local : ℕ) (es : List Effect)
    → m.local_address ≡ local
    → local < 256
    → from < 256
    → AreBetween from local es
    → AreBetween local from (on_frames m (arrivals now es)).1
unfolding on_frames
on_frames-AreBetween m now from local [] el hl hf sent = tt
on_frames-AreBetween m now from local (ask k channel ∷ es) el hl hf sent =
    on_frames-AreBetween m now from local es el hl hf sent
on_frames-AreBetween m now from local (send h bytes dlc ∷ es) el hl hf ((b, fits), sent) =
    let a = received now h bytes dlc in
    let m' = (on_frame m now a.header a.frame).0 in
    AreBetween-append local from (on_frame m now a.header a.frame).1
      (on_frames m' (arrivals now es)).1
      (on_frame-AreBetween m a local from el hl
        (ap (λ (g : CanTsHeader). g.from) (decode-sent h bytes dlc b) ∙ b.sent_by) hf
        (unfold make_frame in fits))
      (on_frames-AreBetween m' now from local es (on_frame-local m a ∙ el) hl hf sent)
