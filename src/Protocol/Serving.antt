-- ===== src/Protocol/Serving.antt =====
-- A node that handles the frames of a block write (src/cants/CanTsProtocol.cpp).

use cannect.Base.{
  ℕ, ◌<◌, ◌≡◌, refl, sym, subst, ◌∙◌, ap, arith, true, ◌&&◌, not, ◌==◌, some, List, [], ◌∷◌, ◌++◌,
}
use cannect.Types.{CanTsHeader, CanTsMessageType, success}
use cannect.Codec.{decode}
use cannect.Wire.{make_frame}
use cannect.SetBlock.State as SetBlock
use cannect.SetBlock.Receiver as Receiver
use cannect.SetBlock.Sender as Sender
use cannect.SetBlock.Link.{arrivals}
use cannect.SetBlock.Pending.{on_frame-pending}
use cannect.SetBlock.Addressed.{IsBetween, AreBetween, decode-sent, on_frame-AreBetween}
use cannect.Protocol.State.{Transmitter, Effect, CanTsProtocol, note_peer_alive}
use cannect.Protocol.Handling.{Handled, is_addressed, on_frame}
use cannect.Protocol.Calls.{Incoming, on_frames}
use cannect.Protocol.Wire.{transmitted}
use cannect.Protocol.Blocks.{
  as_frames, as_frames-append, set_block_effects-as_frames, with_writes, block_handled,
}

pub sent_is_addressed :
    (q : CanTsProtocol) {type : CanTsMessageType} {from : ℕ} (dlc : ℕ) (h : CanTsHeader)
    (bytes : List ℕ)
    → IsBetween type from q.local_address h
    → is_addressed q (decode (make_frame h bytes dlc).id) ≡ true
sent_is_addressed q dlc h bytes b =
    let own : (q.local_address == q.local_address) ≡ true = ground arith in
    ap (is_addressed q) (decode-sent h bytes dlc b)
    ∙ ap (λ to. not (not (to == q.local_address) && not (to == 0))) b.addressed
    ∙ rw own refl

block_answered :
    (q : CanTsProtocol) (ty : Transmitter) (now from dlc : ℕ) (h : CanTsHeader) (bytes : List ℕ)
    → q.transmitter ≡ some ty
    → q.set_block_mgr.local_address ≡ q.local_address
    → q.local_address < 256
    → from < 256
    → AreBetween from q.local_address (SetBlock.send h bytes dlc ∷ [])
    → let frame = make_frame h bytes dlc in
      let r = Receiver.on_frame q.set_block_mgr now (decode frame.id) frame in
      on_frame q now frame ≡ record {
        status = success;
        protocol = with_writes q now (decode frame.id).from r.0;
        effects = as_frames r.1;
      }
unfolding note_peer_alive
block_answered q ty now from dlc h bytes t el hq hf ((b, fits), _) =
    let frame = make_frame h bytes dlc in
    let back = decode-sent h bytes dlc b in
    let g = decode frame.id in
    let r = Receiver.on_frame q.set_block_mgr now g frame in
    let answers =
      on_frame-AreBetween q.set_block_mgr (record { now = now; header = g; frame = frame })
        q.local_address from el hq (ap (λ (k : CanTsHeader). k.from) back ∙ b.sent_by) hf
        (unfold make_frame in fits) in
    block_handled q now frame (sent_is_addressed q dlc h bytes b)
      (ap (λ (k : CanTsHeader). k.type) back ∙ b.typed)
    ∙ ap (λ es. record { status = success; protocol = with_writes q now g.from r.0; effects = es })
        (set_block_effects-as_frames (note_peer_alive q now g.from) ty q.local_address from r.1 t
          answers)

-- The node after the frames of a block write, and its answers.
pub record HasServed (q : CanTsProtocol) (r : CanTsProtocol × List Effect)
    (s : SetBlock.SetBlockManager × List SetBlock.Effect) : Type 0 where
  pub manager : (r.0).set_block_mgr ≡ s.0
  pub address : (r.0).local_address ≡ q.local_address
  pub transmitter : (r.0).transmitter ≡ q.transmitter
  pub effects : r.1 ≡ as_frames s.1

abbrev pub then_frames : Handled → List Incoming → CanTsProtocol × List Effect
then_frames handled rest = let r = on_frames handled.protocol rest in (r.0, handled.effects ++ r.1)

pub on_frames-HasServed :
    (q : CanTsProtocol) (ty : Transmitter) (now from : ℕ) (es : List SetBlock.Effect)
    → q.transmitter ≡ some ty
    → q.set_block_mgr.local_address ≡ q.local_address
    → q.local_address < 256
    → from < 256
    → AreBetween from q.local_address es
    → HasServed q
        (on_frames q (transmitted now (as_frames es)))
        (Sender.on_frames q.set_block_mgr (arrivals now es))
unfolding on_frames Sender.on_frames note_peer_alive
on_frames-HasServed q ty now from [] t el hq hf between = record {
  manager = refl;
  address = refl;
  transmitter = refl;
  effects = refl;
}
on_frames-HasServed q ty now from (SetBlock.call k channel request ∷ es) t el hq hf between =
    on_frames-HasServed q ty now from es t el hq hf between
on_frames-HasServed q ty now from (SetBlock.send h bytes dlc ∷ es) t el hq hf (first, between) =
    let frame = make_frame h bytes dlc in
    let g = decode frame.id in
    let r = Receiver.on_frame q.set_block_mgr now g frame in
    let rest =
      on_frames-HasServed (with_writes q now g.from r.0) ty now from es t
        ((on_frame-pending q.set_block_mgr (record { now = now; header = g; frame = frame })).1
          ∙ el)
        hq hf between in
    subst
      (λ (handled : Handled).
        HasServed q (then_frames handled (transmitted now (as_frames es)))
          (Sender.on_frames q.set_block_mgr (arrivals now (SetBlock.send h bytes dlc ∷ es))))
      (sym (block_answered q ty now from dlc h bytes t el hq hf (first, tt)))
      (record {
        manager = rest.manager;
        address = rest.address;
        transmitter = rest.transmitter;
        effects =
            ap (λ fs. as_frames r.1 ++ fs) rest.effects
            ∙ sym (as_frames-append r.1 (Sender.on_frames r.0 (arrivals now es)).1);
      })
