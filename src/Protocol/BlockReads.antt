-- ===== src/Protocol/BlockReads.antt =====
-- The block reads of a node's manager as frames of the node (src/cants/CanTsProtocol.cpp): what
-- `frameSender` gives to the transmitter, and a node that handles the frames of a block read.
use mathlib.Core.Path.{ap₂}
use cannect.Base.{
  ℕ, ◌<◌, ◌≡◌, refl, sym, subst, ◌∙◌, ap, arith, true, ◌&&◌, not, ◌==◌, some, List, [], ◌∷◌, ◌++◌,
  if_true,
}
use cannect.Types.{CanFrame, CanTsHeader, getblock, success}
use cannect.Codec.{decode}
use cannect.Wire.{make_frame}
use cannect.SetBlock.Link.{received}
use cannect.SetBlock.Addressed.{decode-sent}
use cannect.GetBlock.State as GetBlock
use cannect.GetBlock.Provider as Provider
use cannect.GetBlock.Requester as Requester
use cannect.GetBlock.Link.{arrivals}
use cannect.GetBlock.Progress.{on_frame-local}
use cannect.GetBlock.Addressed.{AreBetween, on_frame-AreBetween}
use cannect.Protocol.State.{
  Transmitter, Effect, transmit, get_block_call, CanTsProtocol, get_block_effects, note_peer_alive,
}
use cannect.Protocol.Handling.{Handled, is_addressed, by_type, on_frame}
use cannect.Protocol.Calls.{Incoming, on_frames}
use cannect.Protocol.Wire.{transmitted, send_frame-some}
use cannect.Protocol.Heard.{is_get_block, heard, sent_is_heard}
use cannect.Protocol.Blocks.{succeeded}
use cannect.Protocol.Serving.{sent_is_addressed, then_frames}
pub mod Parts
pub mod Answered

-- What a node with a transmitter does for its manager.
abbrev pub as_frames : List GetBlock.Effect → List Effect
as_frames [] = []
as_frames (GetBlock.send h bytes dlc ∷ es) = transmit (make_frame h bytes dlc) ∷ as_frames es
as_frames (GetBlock.ask from channel ∷ es) = get_block_call from channel ∷ as_frames es

pub get_block_effects-as_frames :
    (p : CanTsProtocol) (tx : Transmitter) (from to : ℕ) (es : List GetBlock.Effect)
    → p.transmitter ≡ some tx
    → AreBetween from to es
    → get_block_effects p es ≡ as_frames es
get_block_effects-as_frames p tx from to [] e between = refl
get_block_effects-as_frames p tx from to (GetBlock.send h bytes dlc ∷ es) e ((b, fits), between) =
    ap₂ (λ s rest. s ++ rest) (ap (λ s. s.1) (send_frame-some p tx h bytes dlc e fits))
      (get_block_effects-as_frames p tx from to es e between)
get_block_effects-as_frames p tx from to (GetBlock.ask f channel ∷ es) e between =
    ap (λ rest. get_block_call f channel ∷ rest)
      (get_block_effects-as_frames p tx from to es e between)

as_frames-append :
    (es fs : List GetBlock.Effect) → as_frames (es ++ fs) ≡ as_frames es ++ as_frames fs
as_frames-append [] fs = refl
as_frames-append (GetBlock.send h bytes dlc ∷ es) fs =
    ap (λ rest. transmit (make_frame h bytes dlc) ∷ rest) (as_frames-append es fs)
as_frames-append (GetBlock.ask from channel ∷ es) fs =
    ap (λ rest. get_block_call from channel ∷ rest) (as_frames-append es fs)

pub heard-as_frames :
    (now from local : ℕ) (es : List GetBlock.Effect)
    → AreBetween from local es
    → heard is_get_block local (transmitted now (as_frames es)) ≡ arrivals now es
heard-as_frames now from local [] between = refl
heard-as_frames now from local (GetBlock.ask f channel ∷ es) between =
    heard-as_frames now from local es between
heard-as_frames now from local (GetBlock.send h bytes dlc ∷ es) ((b, fits), between) =
    if_true _ _ (sent_is_heard is_get_block local dlc h bytes refl b)
    ∙ ap (λ rest. received now h bytes dlc ∷ rest) (heard-as_frames now from local es between)

-- A node after a frame of a block read.
abbrev with_reads : CanTsProtocol → ℕ → ℕ → GetBlock.GetBlockManager → CanTsProtocol
with_reads q now from m = record (note_peer_alive q now from) { get_block_mgr = m }

read_handled :
    (q : CanTsProtocol) (now : ℕ) (frame : CanFrame)
    → is_addressed q (decode frame.id) ≡ true
    → (decode frame.id).type ≡ getblock
    → let h = decode frame.id in
      let r = Provider.on_frame q.get_block_mgr now h frame in
      on_frame q now frame ≡ record {
        status = success;
        protocol = with_reads q now h.from r.0;
        effects = get_block_effects (note_peer_alive q now h.from) r.1;
      }
unfolding on_frame by_type note_peer_alive
read_handled q now frame mine typed =
    let h = decode frame.id in
    if_true _ _ mine
    ∙ ap (λ type. let r = by_type type (note_peer_alive q now h.from) now h frame in succeeded r)
        typed

read_answered :
    (q : CanTsProtocol) (ty : Transmitter) (now from dlc : ℕ) (h : CanTsHeader) (bytes : List ℕ)
    → q.transmitter ≡ some ty
    → q.get_block_mgr.local_address ≡ q.local_address
    → q.local_address < 256
    → from < 256
    → AreBetween from q.local_address (GetBlock.send h bytes dlc ∷ [])
    → let frame = make_frame h bytes dlc in
      let r = Provider.on_frame q.get_block_mgr now (decode frame.id) frame in
      on_frame q now frame ≡ record {
        status = success;
        protocol = with_reads q now (decode frame.id).from r.0;
        effects = as_frames r.1;
      }
unfolding note_peer_alive
read_answered q ty now from dlc h bytes t el hq hf ((b, fits), _) =
    let frame = make_frame h bytes dlc in
    let back = decode-sent h bytes dlc b in
    let g = decode frame.id in
    let r = Provider.on_frame q.get_block_mgr now g frame in
    let answers =
      on_frame-AreBetween q.get_block_mgr (record { now = now; header = g; frame = frame })
        q.local_address from el hq (ap (λ (k : CanTsHeader). k.from) back ∙ b.sent_by) hf
        (unfold make_frame in fits) in
    read_handled q now frame (sent_is_addressed q dlc h bytes b)
      (ap (λ (k : CanTsHeader). k.type) back ∙ b.typed)
    ∙ ap (λ es. record { status = success; protocol = with_reads q now g.from r.0; effects = es })
        (get_block_effects-as_frames (note_peer_alive q now g.from) ty q.local_address from r.1 t
          answers)

-- The node after the frames of a block read, and its answers.
pub record HasProvided (q : CanTsProtocol) (r : CanTsProtocol × List Effect)
    (s : GetBlock.GetBlockManager × List GetBlock.Effect) : Type 0 where
  pub manager : (r.0).get_block_mgr ≡ s.0
  pub address : (r.0).local_address ≡ q.local_address
  pub transmitter : (r.0).transmitter ≡ q.transmitter
  pub effects : r.1 ≡ as_frames s.1

pub on_frames-HasProvided :
    (q : CanTsProtocol) (ty : Transmitter) (now from : ℕ) (es : List GetBlock.Effect)
    → q.transmitter ≡ some ty
    → q.get_block_mgr.local_address ≡ q.local_address
    → q.local_address < 256
    → from < 256
    → AreBetween from q.local_address es
    → HasProvided q
        (on_frames q (transmitted now (as_frames es)))
        (Requester.on_frames q.get_block_mgr (arrivals now es))
unfolding on_frames Requester.on_frames note_peer_alive
on_frames-HasProvided q ty now from [] t el hq hf between = record {
  manager = refl;
  address = refl;
  transmitter = refl;
  effects = refl;
}
on_frames-HasProvided q ty now from (GetBlock.ask k channel ∷ es) t el hq hf between =
    on_frames-HasProvided q ty now from es t el hq hf between
on_frames-HasProvided q ty now from (GetBlock.send h bytes dlc ∷ es) t el hq hf (first, between) =
    let frame = make_frame h bytes dlc in
    let g = decode frame.id in
    let r = Provider.on_frame q.get_block_mgr now g frame in
    let rest =
      on_frames-HasProvided (with_reads q now g.from r.0) ty now from es t
        (on_frame-local q.get_block_mgr (record { now = now; header = g; frame = frame }) ∙ el) hq
        hf between in
    subst
      (λ (handled : Handled).
        HasProvided q (then_frames handled (transmitted now (as_frames es)))
          (Requester.on_frames q.get_block_mgr (arrivals now (GetBlock.send h bytes dlc ∷ es))))
      (sym (read_answered q ty now from dlc h bytes t el hq hf (first, tt)))
      (record {
        manager = rest.manager;
        address = rest.address;
        transmitter = rest.transmitter;
        effects =
            ap (λ fs. as_frames r.1 ++ fs) rest.effects
            ∙ sym (as_frames-append r.1 (Requester.on_frames r.0 (arrivals now es)).1);
      })
