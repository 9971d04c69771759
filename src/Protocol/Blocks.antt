-- ===== src/Protocol/Blocks.antt =====
-- The block writes of a node's manager as frames of the node (src/cants/CanTsProtocol.cpp): what
-- `frameSender` gives to the transmitter, and which frames `onFrame` gives to the manager.
use mathlib.Core.Path.{ap₂}
use cannect.Base.{
  ℕ, ◌≡◌, refl, ◌∙◌, ap, true, ◌==◌, some, List, [], ◌∷◌, ◌++◌, if◌then◌else◌, if_true,
}
use cannect.Types.{CanFrame, setblock, success}
use cannect.Codec.{decode}
use cannect.Wire.{make_frame}
use cannect.SetBlock.State as SetBlock
use cannect.SetBlock.Receiver as Receiver
use cannect.SetBlock.Link.{received, arrivals}
use cannect.SetBlock.Delivery.{calls_from}
use cannect.SetBlock.Addressed.{AreBetween}
use cannect.Protocol.State.{
  Transmitter, Effect, transmit, telecommand_call, telemetry_call, unsolicited_call, time_sync_call,
  set_block_call, get_block_call, CanTsProtocol, set_block_effects, note_peer_alive,
}
use cannect.Protocol.Handling.{Handled, is_addressed, by_type, on_frame}
use cannect.Protocol.Heard.{is_set_block, heard, sent_is_heard}
use cannect.Protocol.Wire.{transmitted, send_frame-some}

-- What a node with a transmitter does for its manager.
abbrev pub as_frames : List SetBlock.Effect → List Effect
as_frames [] = []
as_frames (SetBlock.send h bytes dlc ∷ es) = transmit (make_frame h bytes dlc) ∷ as_frames es
as_frames (SetBlock.call from channel request ∷ es) =
    set_block_call from channel request ∷ as_frames es

pub set_block_effects-as_frames :
    (p : CanTsProtocol) (tx : Transmitter) (from to : ℕ) (es : List SetBlock.Effect)
    → p.transmitter ≡ some tx
    → AreBetween from to es
    → set_block_effects p es ≡ as_frames es
set_block_effects-as_frames p tx from to [] e between = refl
set_block_effects-as_frames p tx from to (SetBlock.send h bytes dlc ∷ es) e ((b, fits), between) =
    ap₂ (λ s rest. s ++ rest) (ap (λ s. s.1) (send_frame-some p tx h bytes dlc e fits))
      (set_block_effects-as_frames p tx from to es e between)
set_block_effects-as_frames p tx from to (SetBlock.call f channel request ∷ es) e between =
    ap (λ rest. set_block_call f channel request ∷ rest)
      (set_block_effects-as_frames p tx from to es e between)

-- The calls of the node's block-write callback on behalf of a node, in order.
abbrev pub block_calls : ℕ → List Effect → List (List ℕ)
block_calls k [] = []
block_calls k (set_block_call from channel request ∷ es) =
    let rest = block_calls k es in if from == k then request ∷ rest else rest
block_calls k (transmit frame ∷ es) = block_calls k es
block_calls k (telecommand_call from channel request ∷ es) = block_calls k es
block_calls k (telemetry_call from channel ∷ es) = block_calls k es
block_calls k (unsolicited_call from channel bytes ∷ es) = block_calls k es
block_calls k (time_sync_call from bytes ∷ es) = block_calls k es
block_calls k (get_block_call from channel ∷ es) = block_calls k es

pub block_calls-as_frames :
    (k : ℕ) (es : List SetBlock.Effect) → block_calls k (as_frames es) ≡ calls_from k es
block_calls-as_frames k [] = refl
block_calls-as_frames k (SetBlock.send h bytes dlc ∷ es) = block_calls-as_frames k es
block_calls-as_frames k (SetBlock.call from channel request ∷ es) =
    ap (λ rest. if from == k then request ∷ rest else rest) (block_calls-as_frames k es)

pub as_frames-append :
    (es fs : List SetBlock.Effect) → as_frames (es ++ fs) ≡ as_frames es ++ as_frames fs
as_frames-append [] fs = refl
as_frames-append (SetBlock.send h bytes dlc ∷ es) fs =
    ap (λ rest. transmit (make_frame h bytes dlc) ∷ rest) (as_frames-append es fs)
as_frames-append (SetBlock.call from channel request ∷ es) fs =
    ap (λ rest. set_block_call from channel request ∷ rest) (as_frames-append es fs)

pub heard-as_frames :
    (now from local : ℕ) (es : List SetBlock.Effect)
    → AreBetween from local es
    → heard is_set_block local (transmitted now (as_frames es)) ≡ arrivals now es
heard-as_frames now from local [] between = refl
heard-as_frames now from local (SetBlock.call f channel request ∷ es) between =
    heard-as_frames now from local es between
heard-as_frames now from local (SetBlock.send h bytes dlc ∷ es) ((b, fits), between) =
    if_true _ _ (sent_is_heard is_set_block local dlc h bytes refl b)
    ∙ ap (λ rest. received now h bytes dlc ∷ rest) (heard-as_frames now from local es between)

-- A node after a frame of a block write.
abbrev pub with_writes : CanTsProtocol → ℕ → ℕ → SetBlock.SetBlockManager → CanTsProtocol
with_writes q now from m = record (note_peer_alive q now from) { set_block_mgr = m }

abbrev pub succeeded : CanTsProtocol × List Effect → Handled
succeeded r = record { status = success; protocol = r.0; effects = r.1 }

pub block_handled :
    (q : CanTsProtocol) (now : ℕ) (frame : CanFrame)
    → is_addressed q (decode frame.id) ≡ true
    → (decode frame.id).type ≡ setblock
    → let h = decode frame.id in
      let r = Receiver.on_frame q.set_block_mgr now h frame in
      on_frame q now frame ≡ record {
        status = success;
        protocol = with_writes q now h.from r.0;
        effects = set_block_effects (note_peer_alive q now h.from) r.1;
      }
unfolding on_frame by_type note_peer_alive
block_handled q now frame mine typed =
    let h = decode frame.id in
    if_true _ _ mine
    ∙ ap (λ type. let r = by_type type (note_peer_alive q now h.from) now h frame in succeeded r)
        typed
