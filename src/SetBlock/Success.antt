-- ===== src/SetBlock/Success.antt =====
-- What `setBlock` has seen when it returns true.
use mathlib.Core.List.{Memᴰ}
use cannect.Base.{
  ℕ, zero, suc, ◌+◌, ◌-◌, ◌/◌, ◌<◌, ◌≤◌, ◌≡◌, refl, sym, ◌∙◌, ap, subst, arith, Bool, true, false,
  List, [], ◌∷◌, ◌⊎◌, inl, inr, ◌||◌, u8, length, ltb, ◌==◌, Bool-cases, ℕ_discrete,
}
use cannect.Types.{payload}
use cannect.Codec.{SetBlockFrameType, get_set_block_done, bitmap_bit_is_set, can_ts_max_block_bytes}
use cannect.SetBlock.State.{FrameSender, PendingState, SetBlockManager}
use cannect.SetBlock.Receiver.{is_empty}
use cannect.SetBlock.Sender.{
  Arrival, Gaps, on_frames, all_bits_set, take_report, ask_status, transfer_blocks, check_ack,
  request_write, set_block, armed, started, split_blocks,
}
use cannect.SetBlock.Pending.{IsFrom, next_pending, pending_after, on_frames-pending, step-peer}
use cannect.SetBlock.Seen.{acked_by, reported_by}

pub all_bits_set-bit :
    (bitmap : List ℕ) (n i j : ℕ)
    → all_bits_set bitmap n i ≡ true
    → i ≤ j
    → j < i + n
    → bitmap_bit_is_set bitmap j ≡ true
unfolding all_bits_set
all_bits_set-bit bitmap zero i j e lo hi = absurd (omega arith)
all_bits_set-bit bitmap (suc n) i j e lo hi = elim (ℕ_discrete i j) [
  | yes here ↦ subst (λ k. bitmap_bit_is_set bitmap k ≡ true) here (ground arith)
  | no later ↦ all_bits_set-bit bitmap n (i + 1) j (ground arith) (omega arith) (omega arith)
]

-- `setBlock` saw an ACK and a REPORT from the peer; the report has the done bit and the bits of all
-- the blocks.
pub record IsConfirmed (to num_blocks : ℕ) (gaps : Gaps) : Type 0 where
  pub acked : Arrival
  pub acked_in : Memᴰ acked gaps.until_acked
  pub acked_from : IsFrom SetBlockFrameType.ack to acked
  pub reported : Arrival
  pub reported_in : Memᴰ reported gaps.until_reported
  pub reported_from : IsFrom SetBlockFrameType.report to reported
  pub is_done : get_set_block_done reported.header.command ≡ true
  pub all_set : (i : ℕ) → i < num_blocks → bitmap_bit_is_set (payload reported.frame) i ≡ true

take_report-true :
    (to n : ℕ) (m : SetBlockManager)
    → (take_report to n m).result ≡ true
    → (m.pending.ok ≡ true) × (all_bits_set m.pending.bitmap n 0 ≡ true) × (m.pending.done ≡ true)
unfolding take_report
take_report-true to n m e = ground arith

abbrev Reported : ℕ → ℕ → List Arrival → Type 0
Reported to n arrivals =
    (a : Arrival) × Memᴰ a arrivals
    × IsFrom SetBlockFrameType.report to a
    × (get_set_block_done a.header.command ≡ true)
    × (all_bits_set (payload a.frame) n 0 ≡ true)

abbrev Acked : ℕ → List Arrival → Type 0
Acked to arrivals = (a : Arrival) × Memᴰ a arrivals × IsFrom SetBlockFrameType.ack to a

-- A report that is good after an armed wait came during the wait.
report_came :
    (p q : PendingState) (to n : ℕ) (arrivals : List Arrival)
    → p.peer ≡ to
    → p.ok ≡ false
    → q ≡ pending_after p arrivals
    → (q.ok ≡ true) × (all_bits_set q.bitmap n 0 ≡ true) × (q.done ≡ true)
    → Reported to n arrivals
report_came p q to n arrivals at fresh same (ok, bits, done) =
    elim (reported_by p arrivals (subst (λ r. r.ok ≡ true) same ok)) [
      | inl (old, _, _) ↦ cc
      | inr (a, m, ((t, f), b, d)) ↦ (
        a,
        m,
        (t, f ∙ at),
        sym d ∙ subst (λ r. r.done ≡ true) same done,
        subst (λ l. all_bits_set l n 0 ≡ true) b
            (subst (λ r. all_bits_set r.bitmap n 0 ≡ true) same bits),
      )
    ]

ask_status-true :
    (sender : FrameSender) (to n : ℕ) (arrivals : List Arrival) (m : SetBlockManager)
    → m.pending.peer ≡ to
    → (ask_status sender to n arrivals m).result ≡ true
    → Reported to n arrivals
unfolding ask_status
ask_status-true sender to n arrivals m at e =
    let m' = record m { pending = armed m.pending } in
    report_came m'.pending (on_frames m' arrivals).0.pending to n arrivals at refl
      (on_frames-pending m' arrivals).0
      (take_report-true to n (on_frames m' arrivals).0 (ground arith))

pending_after-peer :
    (p : PendingState) (arrivals : List Arrival) → (pending_after p arrivals).peer ≡ p.peer
pending_after-peer p [] = refl
pending_after-peer p (a ∷ rest) =
    pending_after-peer (next_pending p a) rest ∙ step-peer _ p a.header a.frame

on_frames-peer :
    (m : SetBlockManager) (arrivals : List Arrival)
    → (on_frames m arrivals).0.pending.peer ≡ m.pending.peer
on_frames-peer m arrivals =
    ap (λ p. p.peer) (on_frames-pending m arrivals).0 ∙ pending_after-peer m.pending arrivals

check_ack-true :
    (sender : FrameSender) (to : ℕ) (blocks : List (List ℕ)) (n : ℕ) (gaps : Gaps)
    (m : SetBlockManager)
    → m.pending.peer ≡ to
    → (check_ack sender to blocks n gaps m).result ≡ true
    → (m.pending.request_acked ≡ true) × Reported to n gaps.until_reported
unfolding check_ack transfer_blocks
check_ack-true sender to blocks n gaps m at e = (
  ground arith,
  ask_status-true sender to n gaps.until_reported (on_frames m gaps.until_armed).0
      (on_frames-peer m gaps.until_armed ∙ at) (ground arith),
)

request_write-true :
    (sender : FrameSender) (to : ℕ) (address_le : List ℕ) (blocks : List (List ℕ)) (n : ℕ)
    (gaps : Gaps) (m : SetBlockManager)
    → (request_write sender to address_le blocks n gaps m).result ≡ true
    → Acked to gaps.until_acked × Reported to n gaps.until_reported
unfolding request_write
request_write-true sender to address_le blocks n gaps m e =
    let m' = record m { pending = started to n } in
    let r = (on_frames m' gaps.until_acked).0 in
    let (acked, reported) =
      check_ack-true sender to blocks n gaps r (on_frames-peer m' gaps.until_acked)
        (ground arith) in
    (
      came (
          acked_by m'.pending gaps.until_acked
            (ap (λ p. p.request_acked) (sym (on_frames-pending m' gaps.until_acked).0) ∙ acked)),
      reported,
    )
  where
    came :
        (false ≡ true)
          ⊎ ((a : Arrival) × Memᴰ a gaps.until_acked × IsFrom SetBlockFrameType.ack to a)
        → Acked to gaps.until_acked
    came (inl e) = cc
    came (inr a) = a

-- Past its checks `setBlock` runs the transaction with a block for each eight bytes, at most 64.
pub set_block_checked :
    (sender : FrameSender) (to : ℕ) (address_le bytes : List ℕ) (gaps : Gaps) (m : SetBlockManager)
    → is_empty address_le ≡ false
    → is_empty bytes ≡ false
    → length bytes ≤ can_ts_max_block_bytes
    → set_block sender to address_le bytes gaps m ≡ (
        let n = (length bytes + 7) / 8 in
        request_write sender to address_le (split_blocks bytes n 0) n gaps m)
unfolding set_block
set_block_checked sender to address_le [] gaps m a b h = cc
set_block_checked sender to address_le (x ∷ bytes) gaps m a b h =
    let size = length (x ∷ bytes) in
    let c : (is_empty address_le || false || ltb can_ts_max_block_bytes size) ≡ false =
      ground arith in
    let d : ((size + 8 - 1) / 8 == 0 || ltb 64 ((size + 8 - 1) / 8)) ≡ false = ground arith in
    let e : u8 ((size + 8 - 1) / 8) ≡ (size + 7) / 8 = omega arith in rw c (rw d (rw e))

set_block_runs :
    (sender : FrameSender) (to : ℕ) (address_le bytes : List ℕ) (gaps : Gaps) (m : SetBlockManager)
    → (set_block sender to address_le bytes gaps m).result ≡ true
    → (let n = (length bytes + 7) / 8 in
        (request_write sender to address_le (split_blocks bytes n 0) n gaps m).result ≡ true)
unfolding set_block
set_block_runs sender to address_le bytes gaps m e = elim (Bool-cases checks) [
  | inl bad ↦ absurd (refuse bad)
  | inr good ↦
      subst (λ o. o.result ≡ true)
        (set_block_checked sender to address_le bytes gaps m (ground arith) (ground arith)
          (ground arith))
        e
]
  where
    checks : Bool
    checks = is_empty address_le || is_empty bytes || ltb can_ts_max_block_bytes (length bytes)

    refuse : checks ≡ true → ⊥
    refuse bad = ground arith

-- `setBlock` returns true only if, while it waited, an ACK came from the peer, and after all blocks
-- were sent a REPORT came from the peer that has the done bit and the bit of every block.
pub set_block-true :
    (sender : FrameSender) (to : ℕ) (address_le bytes : List ℕ) (gaps : Gaps) (m : SetBlockManager)
    → (set_block sender to address_le bytes gaps m).result ≡ true
    → IsConfirmed to ((length bytes + 7) / 8) gaps
set_block-true sender to address_le bytes gaps m e =
    let n = (length bytes + 7) / 8 in
    let sent = set_block_runs sender to address_le bytes gaps m e in
    let (a, r) = request_write-true sender to address_le (split_blocks bytes n 0) n gaps m sent in
    record {
      acked = a.0;
      acked_in = a.1;
      acked_from = a.2;
      reported = r.0;
      reported_in = r.1;
      reported_from = r.2;
      is_done = r.3;
      all_set = λ i h. all_bits_set-bit (payload (r.0).frame) n 0 i r.4 (omega arith) (omega arith);
    }
