-- ===== src/SetBlock/Transaction.antt =====
-- A whole block-write transaction between two nodes, over a link that loses nothing: the receiving
-- node answers what was sent before each wait of `setBlock` returns.
use mathlib.Core.Path.{ap₂}
use cannect.Base.{
  ℕ, ◌+◌, ◌-◌, ◌*◌, ◌/◌, ◌≤◌, ◌<◌, ◌≡◌, refl, sym, ◌∙◌, ap, subst, arith, true, false, some, List,
  [], ◌∷◌, ◌++◌, length, replicate, ◌==◌,
}
use cannect.SetBlock.State.{Handler, SetBlockManager, no_pending}
use cannect.SetBlock.Receiver.{is_empty, concat_blocks}
use cannect.SetBlock.Sender.{split_blocks, armed, started, set_block}
use cannect.SetBlock.Blocks.{split_blocks-AreBlocks, length-split_blocks, concat-split_blocks}
use cannect.SetBlock.Link.{arrivals}
use cannect.SetBlock.Transfers.{reliable, AreAcks, acks_ignored, acks_call_nothing}
use cannect.SetBlock.Pending.{pending_after}
use cannect.SetBlock.Answers.{
  requested, transferred, asked, aborted, Answers, answers, gaps_of, Served, served,
}
use cannect.SetBlock.Success.{set_block_checked}
use cannect.SetBlock.Delivery.{calls_from, calls_from-append}
use cannect.SetBlock.Finish.{
  acked_pending, reported_pending, Finishes, report_arrives, ack_arrives, request_write-done,
}

-- The answers of a node that takes the data bring the pending transaction to its end.
arrivals_finish :
    (c q : SetBlockManager) (now n : ℕ) (bs : List (List ℕ)) (a : Answers)
    → c.local_address < 256
    → q.local_address < 256
    → n ≤ 64
    → Served c q bs n a
    → let peer = q.local_address in
      let gaps = gaps_of now a in
      (pending_after (started peer n) gaps.until_acked ≡ acked_pending peer n)
      × (pending_after (acked_pending peer n) gaps.until_armed ≡ acked_pending peer n)
      × (pending_after (armed (acked_pending peer n)) gaps.until_reported ≡ reported_pending peer n)
arrivals_finish c q now n bs a hc hq hi s =
    let peer = q.local_address in
    (
      ap (λ es. pending_after (started peer n) (arrivals now es)) s.one_answer
          ∙ ack_arrives peer c.local_address now n s.header s.bytes s.dlc hq hc
              (subst (AreAcks peer c.local_address) s.one_answer s.acked),
      acks_ignored (acked_pending peer n) now peer c.local_address (a.to_transfers).1 hq hc refl
          s.transfers_acked,
      ap (λ es. pending_after (armed (acked_pending peer n)) (arrivals now es)) s.reported
          ∙ report_arrives peer c.local_address now n hq hc hi,
    )

-- The calls of the receiving node's handler on behalf of the sender, in the whole transaction.
abbrev pub all_calls : ℕ → Answers → List (List ℕ)
all_calls local a = calls_from local ((a.to_request).1 ++ ((a.to_transfers).1 ++ (a.to_status).1))

Served-calls :
    (c q : SetBlockManager) (bs : List (List ℕ)) (n : ℕ) (a : Answers)
    → Served c q bs n a
    → all_calls c.local_address a ≡ concat_blocks bs ∷ []
Served-calls c q bs n a s =
    let k = c.local_address in
    let own : (k == k) ≡ true = ground arith in
    calls_from-append k (a.to_request).1 _
    ∙ ap₂ ◌++◌ (acks_call_nothing q.local_address k k (a.to_request).1 s.acked) (
        calls_from-append k (a.to_transfers).1 _
        ∙ ap₂ ◌++◌ (acks_call_nothing q.local_address k k (a.to_transfers).1 s.transfers_acked)
            (ap (calls_from k) s.reported ∙ rw own refl))

-- The data, filled up with zeros.
abbrev pub padded : List ℕ → List ℕ
padded bytes = bytes ++ replicate ((length bytes + 7) / 8 * 8 - length bytes) 0

not_empty : (bytes : List ℕ) → 1 ≤ length bytes → is_empty bytes ≡ false
not_empty [] h = absurd (omega arith)
not_empty (x ∷ bytes) h = refl

-- Over a link that loses nothing, `setBlock` of 1 to 512 bytes at a non-empty address to a node whose
-- handler takes the data returns true. It has then sent a REQUEST, a TRANSFER for each eight bytes, a
-- STATUS_REQUEST and an ABORT; nothing is pending; and the node's handler was called once, with the
-- data followed by zeros up to a multiple of eight bytes.
pub set_block_delivers :
    (c q : SetBlockManager) (f : Handler) (now : ℕ) (address_le bytes : List ℕ)
    → c.local_address < 256
    → q.local_address < 256
    → q.handler ≡ some f
    → is_empty address_le ≡ false
    → 1 ≤ length bytes
    → length bytes ≤ 512
    → f c.local_address 0 (padded bytes) ≡ true
    → let peer = q.local_address in
      let n = (length bytes + 7) / 8 in
      let bs = split_blocks bytes n 0 in
      let a = answers now c q address_le bs n in
      let o = set_block reliable peer address_le bytes (gaps_of now a) c in
      (o.result ≡ true)
      × (o.sent
          ≡ requested c peer address_le n
            ++ (transferred c peer bs ++ (asked c peer ++ aborted c peer)))
      × (o.manager.pending ≡ no_pending)
      × (all_calls c.local_address a ≡ padded bytes ∷ [])
set_block_delivers c q f now address_le bytes hc hq set full lo hi takes =
    let peer = q.local_address in
    let n = (length bytes + 7) / 8 in
    let bs = split_blocks bytes n 0 in
    let whole : concat_blocks bs ≡ padded bytes = concat-split_blocks bytes in
    let a = answers now c q address_le bs n in
    let s =
      served c q f now n address_le bs hc hq set full (omega arith) (omega arith)
        (length-split_blocks bytes n 0) (split_blocks-AreBlocks bytes n 0)
        (ap (f c.local_address 0) whole ∙ takes) in
    let (acked, quiet, reported) = arrivals_finish c q now n bs a hc hq (omega arith) s in
    let (result, sent, idle) =
      subst (Finishes _)
        (sym (
          set_block_checked reliable peer address_le bytes (gaps_of now a) c full
            (not_empty bytes lo) hi))
        (request_write-done c peer n address_le bs (gaps_of now a) (omega arith) (omega arith) acked
          quiet reported) in
    (result, sent, idle, Served-calls c q bs n a s ∙ ap (λ d. d ∷ []) whole)
