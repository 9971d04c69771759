-- ===== src/GetBlock/Success.antt =====
-- What `getBlock` has seen when it returns true.
use mathlib.Core.List.{Memᴰ}
use cannect.Base.{
  ℕ, zero, suc, ◌<◌, ◌≡◌, refl, sym, ◌∙◌, ap, subst, arith, Bool, true, false, some, List, [], ◌∷◌,
  length, get_or, get_elem?, replicate, ◌⊎◌, inl, inr,
}
use cannect.Types.{CanFrame, CanTsHeader}
use cannect.Codec.{GetBlockFrameType, get_get_block_type, all_blocks_received}
use cannect.SetBlock.Receiver.{concat_blocks}
use cannect.SetBlock.Sender.{Arrival}
use cannect.GetBlock.State.{FrameSender, GetBlockManager}
use cannect.GetBlock.Provider.{on_ack, on_nack, on_transfer, take_block, complete}
use cannect.GetBlock.Requester.{
  on_frames, Gaps, armed, finish, start, started, request_read, get_block,
}
use cannect.GetBlock.Progress.{
  Progress, progress, step_progress, next_progress, progress_after, on_frames-progress,
}
use cannect.GetBlock.Kept.{IsFrom, IsBlock, IsKept, all_received_at, progress_after-IsKept}

-- One step: the acknowledgement is new only by an ACK from the peer, whom no frame changes.
step-acked :
    (type : GetBlockFrameType) (p : Progress) (h : CanTsHeader) (frame : CanFrame)
    → let q = step_progress type p h frame in
      (q.pending.peer ≡ p.pending.peer)
      × (q.pending.num_blocks ≡ p.pending.num_blocks)
      × (q.pending.ok ≡ true → (p.pending.ok ≡ true) ⊎ (p.pending.waiting_transfers ≡ true))
      × (q.pending.waiting_transfers ≡ p.pending.waiting_transfers)
      × (q.pending.acked ≡ true
          → (p.pending.acked ≡ true) ⊎ ((type ≡ GetBlockFrameType.ack) × (h.from ≡ p.pending.peer)))
unfolding on_ack on_nack on_transfer take_block complete
step-acked GetBlockFrameType.ack p h frame = ground arith
step-acked GetBlockFrameType.nack p h frame = ground arith
step-acked GetBlockFrameType.transfer p h frame = ground arith
step-acked GetBlockFrameType.request p h frame = ground arith
step-acked GetBlockFrameType.start p h frame = ground arith
step-acked GetBlockFrameType.abort p h frame = ground arith
step-acked (GetBlockFrameType.other x) p h frame = ground arith

abbrev Acked : ℕ → List Arrival → Type 0
Acked to arrivals = (a : Arrival) × Memᴰ a arrivals × IsFrom GetBlockFrameType.ack to a

-- The frames that arrive before the transfers are awaited.
acked_by :
    (p : Progress) (arrivals : List Arrival)
    → p.pending.waiting_transfers ≡ false
    → let q = progress_after p arrivals in
      (q.pending.peer ≡ p.pending.peer)
      × (q.pending.num_blocks ≡ p.pending.num_blocks)
      × (q.pending.ok ≡ true → p.pending.ok ≡ true)
      × (q.pending.acked ≡ true → (p.pending.acked ≡ true) ⊎ Acked p.pending.peer arrivals)
acked_by p [] w = (refl, refl, λ o. o, λ o. inl o)
acked_by p (a ∷ rest) w =
    let q = next_progress p a in
    let (peer, num, ok, waits, acked) =
      step-acked (get_get_block_type a.header.command) p a.header a.frame in
    let (peer', num', ok', acked') = acked_by q rest (waits ∙ w) in
    (
      peer' ∙ peer,
      num' ∙ num,
      λ o. elim (ok (ok' o)) [ inl old ↦ old | inr waiting ↦ cc ],
      λ o. elim (acked' o) [
        | inl before ↦ elim (acked before) [
          | inl old ↦ inl old
          | inr (t, f) ↦ inr (a, Memᴰ.head refl, (t, f))
        ]
        | inr (b, m, (t, f)) ↦ inr (b, Memᴰ.tail m, (t, f ∙ peer))
      ],
    )

abbrev Came : ℕ → List Arrival → ℕ → List ℕ → Type 0
Came to arrivals i b = (a : Arrival) × Memᴰ a arrivals × IsBlock to i b a

-- An ACK came from the peer, and then blocks from it, which joined are `last_data`.
pub record IsRead (to : ℕ) (gaps : Gaps) (last_data : List ℕ) : Type 0 where
  pub acked : Arrival
  pub acked_in : Memᴰ acked gaps.until_acked
  pub acked_from : IsFrom GetBlockFrameType.ack to acked
  pub blocks : List (List ℕ)
  pub counted : length blocks ≡ 64
  pub came :
      (i : ℕ) (b : List ℕ)
      → get_elem? blocks i ≡ some b
      → (a : Arrival) × Memᴰ a gaps.until_done × IsBlock to i b a
  pub joined : last_data ≡ concat_blocks blocks

no_flag : (n i : ℕ) → get_or (replicate n false) i false ≡ false
no_flag zero i = refl
no_flag (suc n) zero = refl
no_flag (suc n) (suc i) = no_flag n i

index_fits :
    (blocks : List (List ℕ)) (i : ℕ) (b : List ℕ) → get_elem? blocks i ≡ some b → i < length blocks
index_fits [] i b e = cc
index_fits (x ∷ blocks) zero b e = omega arith
index_fits (x ∷ blocks) (suc i) b e = omega (arith, index_fits blocks i b e)

-- Nothing has come yet where the transfers begin to be awaited.
armed-IsKept :
    (to : ℕ) (arrivals : List Arrival) (p : Progress)
    → p.pending.peer ≡ to
    → p.pending.num_blocks ≡ 64
    → (p.pending.ok ≡ true → false ≡ true)
    → IsKept 64 to (Came to arrivals) (record p { pending = armed 64 p.pending })
armed-IsKept to arrivals p peer num bad = record {
  counted = num;
  same_peer = peer;
  slots = refl;
  flags = refl;
  each = λ i b e f. absurd (no_truth _ (no_flag 64 i) f);
  good = λ o. absurd (no_truth false refl (bad o));
}
  where
    no_truth : (b : Bool) → b ≡ false → b ≡ true → ⊥
    no_truth b h k = cc

start-true :
    (sender : FrameSender) (to : ℕ) (arrivals : List Arrival) (m : GetBlockManager)
    → (start sender to 64 arrivals m).result ≡ true
    → let r = (on_frames (record m { pending = armed 64 m.pending }) arrivals).0 in
      (m.pending.acked ≡ true)
      × (r.pending.ok ≡ true)
      × ((start sender to 64 arrivals m).manager.last_data ≡ r.last_data)
unfolding start finish
start-true sender to arrivals m e = (ground arith, ground arith, ground arith)

get_block_runs :
    (sender : FrameSender) (to : ℕ) (address_le : List ℕ) (gaps : Gaps) (c : GetBlockManager)
    → (get_block sender to address_le gaps c).result ≡ true
    → let r = (on_frames (record c { pending = started to 64 }) gaps.until_acked).0 in
      let o = start sender to 64 gaps.until_done r in
      (o.result ≡ true)
      × ((get_block sender to address_le gaps c).manager.last_data ≡ o.manager.last_data)
unfolding get_block request_read
get_block_runs sender to address_le gaps c e = (ground arith, ground arith)

-- When `getBlock` returns true, an ACK came from the peer before the first wait returned, and 64 blocks
-- came from it after that, each in a TRANSFER with its number; joined in order they are `lastData`.
pub get_block-true :
    (sender : FrameSender) (to : ℕ) (address_le : List ℕ) (gaps : Gaps) (c : GetBlockManager)
    → (get_block sender to address_le gaps c).result ≡ true
    → IsRead to gaps (get_block sender to address_le gaps c).manager.last_data
get_block-true sender to address_le gaps c e =
    let c' = record c { pending = started to 64 } in
    let r = (on_frames c' gaps.until_acked).0 in
    let (ran, same) = get_block_runs sender to address_le gaps c e in
    let (acked, ok, kept) = start-true sender to gaps.until_done r ran in
    let moved = (on_frames-progress c' gaps.until_acked).0 in
    let (peer, num, bad, by) = acked_by (progress c') gaps.until_acked refl in
    let ready =
      armed-IsKept to gaps.until_done (progress r)
        (ap (λ (p : Progress). p.pending.peer) moved ∙ peer)
        (ap (λ (p : Progress). p.pending.num_blocks) moved ∙ num)
        (λ o. bad (ap (λ (p : Progress). p.pending.ok) (sym moved) ∙ o)) in
    let r' = record r { pending = armed 64 r.pending } in
    let last = (on_frames r' gaps.until_done).0 in
    let k =
      subst (IsKept 64 to (Came to gaps.until_done)) (sym (on_frames-progress r' gaps.until_done).0)
        (progress_after-IsKept 64 to (Came to gaps.until_done) (progress r') gaps.until_done ready
          (λ a m f. (a, m, (f, refl, refl)))) in
    let (all, joined) = k.good ok in
    read last k all (same ∙ kept ∙ joined)
      (by (ap (λ (p : Progress). p.pending.acked) (sym moved) ∙ acked))
  where
    read :
        (m : GetBlockManager)
        → IsKept 64 to (Came to gaps.until_done) (progress m)
        → all_blocks_received m.pending.received ≡ true
        → (get_block sender to address_le gaps c).manager.last_data ≡ concat_blocks m.pending.blocks
        → (false ≡ true) ⊎ Acked to gaps.until_acked
        → IsRead to gaps (get_block sender to address_le gaps c).manager.last_data
    read m k all joined (inl h) = cc
    read m k all joined (inr (a, inside, from)) = record {
      acked = a;
      acked_in = inside;
      acked_from = from;
      blocks = m.pending.blocks;
      counted = k.slots;
      came = λ i b e. k.each i b e (
          all_received_at m.pending.received i all
            (omega (arith, k.flags, k.slots, index_fits m.pending.blocks i b e)));
      joined = joined;
    }
