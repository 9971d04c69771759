-- ===== src/Protocol/BlockReads/Parts.antt =====
-- The parts of a block read between two nodes (`getBlock` of src/cants/CanTsProtocol.cpp).

use cannect.Base.{ℕ, ◌≡◌, sym, subst, ◌∙◌, ap, arith, List}
use cannect.GetBlock.State as GetBlock
use cannect.GetBlock.Requester as Requester
use cannect.GetBlock.Link.{arrivals}
use cannect.GetBlock.Progress.{on_frames-progress}
use cannect.GetBlock.Answers.{requested, started_frames}
use cannect.GetBlock.Addressed.{AreBetween, on_frames-AreBetween}
use cannect.Protocol.State.{Effect, CanTsProtocol}
use cannect.Protocol.Calls.{on_frames}
use cannect.Protocol.Wire.{transmitted}
use cannect.Protocol.Heard.{is_get_block, heard}
use cannect.Protocol.Parts.{read_address, IsWorking}
use cannect.Protocol.BlockReads.{as_frames, heard-as_frames, on_frames-HasProvided}

-- The peer after each part of a block read, with what it does.
pub record ReadRun : Type 0 where
  pub to_request : CanTsProtocol × List Effect
  pub to_start : CanTsProtocol × List Effect

-- A node handles what another gives to its transmitter, all at one time.
abbrev pub provides : ℕ → CanTsProtocol → List GetBlock.Effect → CanTsProtocol × List Effect
provides now q es = on_frames q (transmitted now (as_frames es))

abbrev pub read_run : ℕ → CanTsProtocol → ℕ → ℕ → List ℕ → ReadRun
read_run now q local to address_le =
    let a = provides now q (requested local to address_le) in
    record { to_request = a; to_start = provides now a.0 (started_frames local to) }

-- The answers come to the manager of `p` before the wait that follows what they answer returns.
abbrev pub read_gaps : ℕ → CanTsProtocol → ReadRun → Requester.Gaps
read_gaps now p r = record {
  until_acked = heard is_get_block p.local_address (transmitted now (r.to_request).1);
  until_done = heard is_get_block p.local_address (transmitted now (r.to_start).1);
}

-- What the peer does, beside what its manager does.
pub record IsReadPart (p q : CanTsProtocol) (now : ℕ) (r : CanTsProtocol × List Effect)
    (s : GetBlock.GetBlockManager × List GetBlock.Effect) : Type 0 where
  pub manager : (r.0).get_block_mgr ≡ s.0
  pub effects : r.1 ≡ as_frames s.1
  pub comes_back : heard is_get_block p.local_address (transmitted now r.1) ≡ arrivals now s.1
  pub address : (r.0).local_address ≡ q.local_address
  pub working : IsWorking read_address r.0

provides-IsReadPart :
    (p q : CanTsProtocol) (now : ℕ) (es : List GetBlock.Effect)
    → IsWorking read_address p
    → IsWorking read_address q
    → AreBetween p.local_address q.local_address es
    → IsReadPart p q now (provides now q es) (Requester.on_frames q.get_block_mgr (arrivals now es))
provides-IsReadPart p q now es w v between =
    let s = Requester.on_frames q.get_block_mgr (arrivals now es) in
    let done =
      on_frames-HasProvided q v.transmitter now p.local_address es v.is_set v.same_address v.fits
        w.fits between in
    let back =
      on_frames-AreBetween q.get_block_mgr now p.local_address q.local_address es v.same_address
        v.fits w.fits between in
    record {
      manager = done.manager;
      effects = done.effects;
      comes_back =
          ap (λ fs. heard is_get_block p.local_address (transmitted now fs)) done.effects
          ∙ heard-as_frames now q.local_address p.local_address s.1 back;
      address = done.address;
      working = record {
        fits = omega (arith, v.fits, done.address);
        same_address =
            ap (λ (m : GetBlock.GetBlockManager). m.local_address) done.manager
            ∙ (on_frames-progress q.get_block_mgr (arrivals now es)).1
            ∙ v.same_address
            ∙ sym done.address;
        transmitter = v.transmitter;
        is_set = done.transmitter ∙ v.is_set;
        takes = v.takes;
      };
    }

-- A part of the exchange between two nodes, where the managers are known.
pub provides-IsReadPart_at :
    (p q : CanTsProtocol) (now from to : ℕ) (m : GetBlock.GetBlockManager)
    (es : List GetBlock.Effect)
    → IsWorking read_address p
    → IsWorking read_address q
    → q.get_block_mgr ≡ m
    → from ≡ p.local_address
    → to ≡ q.local_address
    → AreBetween from to es
    → IsReadPart p q now (provides now q es) (Requester.on_frames m (arrivals now es))
provides-IsReadPart_at p q now from to m es w v same ef et between =
    subst (λ k. IsReadPart p q now (provides now q es) (Requester.on_frames k (arrivals now es)))
      same
      (provides-IsReadPart p q now es w v (
        subst (λ t. AreBetween p.local_address t es) et
          (subst (λ f. AreBetween f to es) ef between)))
