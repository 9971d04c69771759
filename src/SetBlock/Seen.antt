-- ===== src/SetBlock/Seen.antt =====
-- What the receiver thread's answers tell a pending transaction: which frame left which flag.
use mathlib.Core.List.{Memᴰ}
use cannect.Base.{ℕ, ◌≡◌, refl, ◌∙◌, Bool, true, List, [], ◌∷◌, ◌⊎◌, inl, inr}
use cannect.Types.{payload}
use cannect.Codec.{SetBlockFrameType, get_set_block_done}
use cannect.SetBlock.State.{PendingState}
use cannect.SetBlock.Sender.{Arrival}
use cannect.SetBlock.Pending.{
  IsFrom, next_pending, pending_after, step-acked, step-peer, step-reported,
}

pub acked_by :
    (p : PendingState) (arrivals : List Arrival)
    → (pending_after p arrivals).request_acked ≡ true
    → (p.request_acked ≡ true)
      ⊎ ((a : Arrival) × Memᴰ a arrivals × IsFrom SetBlockFrameType.ack p.peer a)
acked_by p [] e = inl e
acked_by p (a ∷ rest) e = elim (acked_by (next_pending p a) rest e) [
  | inl before ↦ elim (step-acked _ p a.header a.frame before) [
    | inl old ↦ inl old
    | inr now ↦ inr (a, Memᴰ.head refl, now)
  ]
  | inr (b, m, (t, f)) ↦ inr (b, Memᴰ.tail m, (t, f ∙ step-peer _ p a.header a.frame))
]

-- A REPORT from the peer that left this bitmap and this done bit.
abbrev pub IsReport : ℕ → List ℕ → Bool → Arrival → Type 0
IsReport peer bitmap done a =
    IsFrom SetBlockFrameType.report peer a
    × (bitmap ≡ payload a.frame)
    × (done ≡ get_set_block_done a.header.command)

pub reported_by :
    (p : PendingState) (arrivals : List Arrival)
    → (pending_after p arrivals).ok ≡ true
    → ((p.ok ≡ true)
        × ((pending_after p arrivals).bitmap ≡ p.bitmap)
        × ((pending_after p arrivals).done ≡ p.done))
      ⊎ ((a : Arrival) × Memᴰ a arrivals
          × IsReport p.peer (pending_after p arrivals).bitmap (pending_after p arrivals).done a)
reported_by p [] e = inl (e, refl, refl)
reported_by p (a ∷ rest) e = elim (reported_by (next_pending p a) rest e) [
  | inl (before, b, d) ↦ elim (step-reported _ p a.header a.frame before) [
    | inl (old, b', d') ↦ inl (old, b ∙ b', d ∙ d')
    | inr (t, f, b', d') ↦ inr (a, Memᴰ.head refl, ((t, f), b ∙ b', d ∙ d'))
  ]
  | inr (r, m, ((t, f), b, d)) ↦
      inr (r, Memᴰ.tail m, ((t, f ∙ step-peer _ p a.header a.frame), b, d))
]
