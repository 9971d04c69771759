-- ===== src/GetBlock/Kept.antt =====
-- What the blocks of a pending transaction are, whatever frames arrive.
use mathlib.Core.List.{Memᴰ}
use cannect.Base.{
  ℕ, zero, suc, ◌<◌, ◌≡◌, ◌≢◌, refl, sym, ◌∙◌, ap, subst, arith, Bool, true, false, not, ◌&&◌, ◌||◌,
  some, List, [], ◌∷◌, length, take, set, get_or, get_elem?, length-set, get_elem?-set_self,
  get_elem?-set_ne, leb, ◌==◌, if_cases, if_false, ℕ_discrete,
}
use cannect.Types.{CanFrame, CanTsHeader, payload}
use cannect.Codec.{GetBlockFrameType, get_get_block_type, get_get_block_low6, all_blocks_received}
use cannect.Codec.Bitmap.{get_or-set}
use cannect.SetBlock.Receiver.{concat_blocks}
use cannect.SetBlock.Sender.{Arrival}
use cannect.SetBlock.Transfers.{take_all}
use cannect.GetBlock.State.{PendingState}
use cannect.GetBlock.Provider.{on_ack, on_nack, on_transfer, take_block, complete}
use cannect.GetBlock.Progress.{Progress, step_progress, next_progress, progress_after}

-- The frame is of a type and from the peer.
abbrev pub IsFrom : GetBlockFrameType → ℕ → Arrival → Type 0
IsFrom type peer a = (get_get_block_type a.header.command ≡ type) × (a.header.from ≡ peer)

-- It is block `i`.
abbrev pub IsBlock : ℕ → ℕ → List ℕ → Arrival → Type 0
IsBlock peer i b a =
    IsFrom GetBlockFrameType.transfer peer a
    × (get_get_block_low6 a.header.command ≡ i)
    × (payload a.frame ≡ b)

-- Of `n` blocks, those that are marked received came, in the sense of `Came`; when all is well, all of
-- them did, and they are `lastData`.
pub record IsKept (n peer : ℕ) (Came : ℕ → List ℕ → Type 0) (p : Progress) : Type 0 where
  pub counted : p.pending.num_blocks ≡ n
  pub same_peer : p.pending.peer ≡ peer
  pub slots : length p.pending.blocks ≡ n
  pub flags : length p.pending.received ≡ n
  pub each :
      (i : ℕ) (b : List ℕ)
      → get_elem? p.pending.blocks i ≡ some b
      → get_or p.pending.received i false ≡ true
      → Came i b
  pub good :
      p.pending.ok ≡ true
      → (all_blocks_received p.pending.received ≡ true)
        × (p.last_data ≡ concat_blocks p.pending.blocks)

all_received_set :
    (received : List Bool) (i : ℕ)
    → all_blocks_received received ≡ true
    → all_blocks_received (set received i true) ≡ true
unfolding all_blocks_received
all_received_set [] i e = refl
all_received_set (v ∷ received) zero e = ground arith
all_received_set (v ∷ received) (suc i) e = ground (arith, all_received_set received i)

pub all_received_at :
    (received : List Bool) (i : ℕ)
    → all_blocks_received received ≡ true
    → i < length received
    → get_or received i false ≡ true
unfolding all_blocks_received
all_received_at [] i e h = absurd (omega arith)
all_received_at (v ∷ received) zero e h = ground arith
all_received_at (v ∷ received) (suc i) e h = all_received_at received i (ground arith) (omega arith)

-- A block that comes is stored: the blocks may all be there now, and `lastData` may not be theirs yet.
taken_each :
    (n peer : ℕ) (Came : ℕ → List ℕ → Type 0) (p : Progress) (seq : ℕ) (frame : CanFrame)
    → IsKept n peer Came p
    → seq < n
    → Came seq (payload frame)
    → (i : ℕ) (b : List ℕ) → get_elem? (set p.pending.blocks seq (payload frame)) i ≡ some b
    → get_or (set p.pending.received seq true) i false ≡ true
    → Came i b
taken_each n peer Came p seq frame k lt came i b e r = elim (ℕ_discrete seq i) [
  | yes here ↦
      subst (λ j. Came j b) here
        (subst (Came seq)
          (some_eq (
            sym (get_elem?-set_self p.pending.blocks seq (payload frame) (omega (arith, k.slots)))
            ∙ subst (λ j. get_elem? (set p.pending.blocks seq (payload frame)) j ≡ some b)
                (sym here) e))
          came)
  | no other ↦
      k.each i b (sym (get_elem?-set_ne p.pending.blocks (payload frame) other) ∙ e)
        (sym (kept_flag p.pending.received seq i (omega (arith, k.flags)) other) ∙ r)
]
  where
    some_eq : {x y : List ℕ} → some x ≡ some y → x ≡ y
    some_eq h = cc

    kept_flag :
        (received : List Bool) (i j : ℕ)
        → i < length received
        → i ≢ j
        → get_or (set received i true) j false ≡ get_or received j false
    kept_flag received i j h ne =
        let miss : (i == j) ≡ false = ground arith in
        get_or-set received i j true false h ∙ if_false _ _ miss

complete-IsKept :
    (n peer : ℕ) (Came : ℕ → List ℕ → Type 0) (p : Progress) (seq : ℕ) (frame : CanFrame)
    → IsKept n peer Came p
    → seq < n
    → Came seq (payload frame)
    → (let t = complete (take_block p.pending seq frame) p.last_data in
        IsKept n peer Came (record { pending = t.0; last_data = t.1 }))
unfolding complete take_block
complete-IsKept n peer Came p seq frame k lt came =
    let all = all_blocks_received (set p.pending.received seq true) in
    let blocks = set p.pending.blocks seq (payload frame) in
    let sized : length blocks ≡ n = length-set p.pending.blocks seq _ ∙ k.slots in
    if_cases
      (λ (t : PendingState × List ℕ).
        IsKept n peer Came (record { pending = t.0; last_data = t.1 }))
      all
      (λ e. record {
        counted = k.counted;
        same_peer = k.same_peer;
        slots = sized;
        flags = length-set p.pending.received seq true ∙ k.flags;
        each = taken_each n peer Came p seq frame k lt came;
        good = λ _. (
          e,
          ap concat_blocks (ap (λ j. take j blocks) (k.counted ∙ sym sized) ∙ take_all blocks),
        );
      })
      (λ e. record {
        counted = k.counted;
        same_peer = k.same_peer;
        slots = sized;
        flags = length-set p.pending.received seq true ∙ k.flags;
        each = taken_each n peer Came p seq frame k lt came;
        good = λ ok. absurd (not_both _ (all_received_set p.pending.received seq (k.good ok).0) e);
      })
  where
    not_both : (b : Bool) → b ≡ true → b ≡ false → ⊥
    not_both b h k = cc

step-IsKept :
    (type : GetBlockFrameType) (n peer : ℕ) (Came : ℕ → List ℕ → Type 0) (p : Progress)
    (h : CanTsHeader) (frame : CanFrame)
    → IsKept n peer Came p
    → (type ≡ GetBlockFrameType.transfer
        → h.from ≡ peer
        → Came (get_get_block_low6 h.command) (payload frame))
    → IsKept n peer Came (step_progress type p h frame)
unfolding on_ack on_nack on_transfer
step-IsKept GetBlockFrameType.ack n peer Came p h frame k came =
    if_cases (λ (q : PendingState). IsKept n peer Came (record p { pending = q }))
      (p.pending.waiting_ack && p.pending.peer == h.from)
      (λ _. record {
        counted = k.counted;
        same_peer = k.same_peer;
        slots = k.slots;
        flags = k.flags;
        each = k.each;
        good = k.good;
      })
      (λ _. k)
step-IsKept GetBlockFrameType.nack n peer Came p h frame k came =
    if_cases (λ (q : PendingState). IsKept n peer Came (record p { pending = q }))
      ((p.pending.waiting_ack || p.pending.waiting_transfers) && p.pending.peer == h.from)
      (λ _. record {
        counted = k.counted;
        same_peer = k.same_peer;
        slots = k.slots;
        flags = k.flags;
        each = k.each;
        good = λ o. cc;
      })
      (λ _. k)
step-IsKept GetBlockFrameType.transfer n peer Came p h frame k came =
    let seq = get_get_block_low6 h.command in
    let P : PendingState × List ℕ → Type 0 =
      λ t. IsKept n peer Came (record { pending = t.0; last_data = t.1 }) in
    if_cases P (not p.pending.waiting_transfers || not (p.pending.peer == h.from)) (λ _. k)
      λ ours.
        if_cases P (leb p.pending.num_blocks seq) (λ _. k)
          λ inside.
            complete-IsKept n peer Came p seq frame k (ground (arith, k.counted))
              (came refl (ground (arith, k.same_peer)))
step-IsKept GetBlockFrameType.request n peer Came p h frame k came = k
step-IsKept GetBlockFrameType.start n peer Came p h frame k came = k
step-IsKept GetBlockFrameType.abort n peer Came p h frame k came = k
step-IsKept (GetBlockFrameType.other x) n peer Came p h frame k came = k

pub progress_after-IsKept :
    (n peer : ℕ) (Came : ℕ → List ℕ → Type 0) (p : Progress) (arrivals : List Arrival)
    → IsKept n peer Came p
    → ((a : Arrival)
        → Memᴰ a arrivals
        → IsFrom GetBlockFrameType.transfer peer a
        → Came (get_get_block_low6 a.header.command) (payload a.frame))
    → IsKept n peer Came (progress_after p arrivals)
progress_after-IsKept n peer Came p [] k came = k
progress_after-IsKept n peer Came p (a ∷ rest) k came =
    progress_after-IsKept n peer Came (next_progress p a) rest
      (step-IsKept (get_get_block_type a.header.command) n peer Came p a.header a.frame k
        (λ t f. came a (Memᴰ.head refl) (t, f)))
      (λ b m. came b (Memᴰ.tail m))
