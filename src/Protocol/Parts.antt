-- ===== src/Protocol/Parts.antt =====
-- The parts of a block write between two nodes (`setBlock` of src/cants/CanTsProtocol.cpp).

use cannect.Base.{ℕ, ◌+◌, ◌/◌, ◌<◌, ◌≡◌, sym, subst, ◌∙◌, ap, arith, some, List, length}
use cannect.Types.{CanFrame, success}
use cannect.Wire.{make_frame}
use cannect.SetBlock.State as SetBlock
use cannect.SetBlock.Sender as Sender
use cannect.SetBlock.Link.{arrivals}
use cannect.SetBlock.Pending.{on_frames-pending}
use cannect.SetBlock.Answers.{requested, transferred, asked}
use cannect.SetBlock.Addressed.{AreBetween, on_frames-AreBetween}
use cannect.SetBlock.Senders.{TakesFrames}
use cannect.Protocol.State.{Transmitter, Effect, CanTsProtocol, is_success, send_frame}
use cannect.Protocol.Calls.{on_frames}
use cannect.Protocol.Wire.{transmitted, send_frame-some}
use cannect.Protocol.Blocks.{as_frames, heard-as_frames}
use cannect.Protocol.Heard.{is_set_block, heard}
use cannect.Protocol.Serving.{on_frames-HasServed}

-- The peer after each part of a block write, with what it does.
pub record Run : Type 0 where
  pub to_request : CanTsProtocol × List Effect
  pub to_transfers : CanTsProtocol × List Effect
  pub to_status : CanTsProtocol × List Effect

-- A node handles what another gives to its transmitter, all at one time.
abbrev pub serves : ℕ → CanTsProtocol → List SetBlock.Effect → CanTsProtocol × List Effect
serves now q es = on_frames q (transmitted now (as_frames es))

abbrev pub run : ℕ → CanTsProtocol → CanTsProtocol → ℕ → List ℕ → List ℕ → Run
run now p q to address_le bytes =
    let n = (length bytes + 7) / 8 in
    let c = p.set_block_mgr in
    let a = serves now q (requested c to address_le n) in
    let b = serves now a.0 (transferred c to (Sender.split_blocks bytes n 0)) in
    record { to_request = a; to_transfers = b; to_status = serves now b.0 (asked c to) }

-- The answers come to the manager of `p` before the wait that follows what they answer returns.
abbrev pub gaps_at : ℕ → CanTsProtocol → Run → Sender.Gaps
gaps_at now p r = record {
  until_acked = heard is_set_block p.local_address (transmitted now (r.to_request).1);
  until_armed = heard is_set_block p.local_address (transmitted now (r.to_transfers).1);
  until_reported = heard is_set_block p.local_address (transmitted now (r.to_status).1);
}

-- The addresses of a node's managers.
abbrev pub write_address : CanTsProtocol → ℕ
write_address p = p.set_block_mgr.local_address

abbrev pub read_address : CanTsProtocol → ℕ
read_address p = p.get_block_mgr.local_address

-- A node whose manager has its address, and whose transmitter takes every frame.
pub record IsWorking (address : CanTsProtocol → ℕ) (p : CanTsProtocol) : Type 0 where
  pub fits : p.local_address < 256
  pub same_address : address p ≡ p.local_address
  pub transmitter : Transmitter
  pub is_set : p.transmitter ≡ some transmitter
  pub takes : (frame : CanFrame) → transmitter frame ≡ success

pub sender_takes :
    {address : CanTsProtocol → ℕ} (p : CanTsProtocol)
    → IsWorking address p
    → TakesFrames (λ h bytes dlc. (send_frame p h bytes dlc).0)
sender_takes p w h bytes dlc fits =
    ap (λ s. s.0) (send_frame-some p w.transmitter h bytes dlc w.is_set fits)
    ∙ ap is_success (w.takes (make_frame h bytes dlc))

-- What the peer does, beside what its manager does.
pub record IsPart (p q : CanTsProtocol) (now : ℕ) (r : CanTsProtocol × List Effect)
    (s : SetBlock.SetBlockManager × List SetBlock.Effect) : Type 0 where
  pub manager : (r.0).set_block_mgr ≡ s.0
  pub effects : r.1 ≡ as_frames s.1
  pub comes_back : heard is_set_block p.local_address (transmitted now r.1) ≡ arrivals now s.1
  pub address : (r.0).local_address ≡ q.local_address
  pub working : IsWorking write_address r.0

serves-IsPart :
    (p q : CanTsProtocol) (now : ℕ) (es : List SetBlock.Effect)
    → IsWorking write_address p
    → IsWorking write_address q
    → AreBetween p.local_address q.local_address es
    → IsPart p q now (serves now q es) (Sender.on_frames q.set_block_mgr (arrivals now es))
serves-IsPart p q now es w v between =
    let r = serves now q es in
    let s = Sender.on_frames q.set_block_mgr (arrivals now es) in
    let done =
      on_frames-HasServed q v.transmitter now p.local_address es v.is_set v.same_address v.fits
        w.fits between in
    let back =
      on_frames-AreBetween q.set_block_mgr now p.local_address q.local_address es v.same_address
        v.fits w.fits between in
    record {
      manager = done.manager;
      effects = done.effects;
      comes_back =
          ap (λ fs. heard is_set_block p.local_address (transmitted now fs)) done.effects
          ∙ heard-as_frames now q.local_address p.local_address s.1 back;
      address = done.address;
      working = record {
        fits = omega (arith, v.fits, done.address);
        same_address =
            ap (λ (m : SetBlock.SetBlockManager). m.local_address) done.manager
            ∙ (on_frames-pending q.set_block_mgr (arrivals now es)).1
            ∙ v.same_address
            ∙ sym done.address;
        transmitter = v.transmitter;
        is_set = done.transmitter ∙ v.is_set;
        takes = v.takes;
      };
    }

-- A part of the exchange between two nodes, where the managers are known.
pub serves-IsPart_at :
    (p q : CanTsProtocol) (now from to : ℕ) (m : SetBlock.SetBlockManager)
    (es : List SetBlock.Effect)
    → IsWorking write_address p
    → IsWorking write_address q
    → q.set_block_mgr ≡ m
    → from ≡ p.local_address
    → to ≡ q.local_address
    → AreBetween from to es
    → IsPart p q now (serves now q es) (Sender.on_frames m (arrivals now es))
serves-IsPart_at p q now from to m es w v same ef et between =
    subst (λ k. IsPart p q now (serves now q es) (Sender.on_frames k (arrivals now es))) same
      (serves-IsPart p q now es w v (
        subst (λ t. AreBetween p.local_address t es) et
          (subst (λ f. AreBetween f to es) ef between)))
