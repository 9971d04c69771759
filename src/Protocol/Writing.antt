-- ===== src/Protocol/Writing.antt =====
-- A whole block write between two nodes (`setBlock` of src/cants/CanTsProtocol.cpp).
use mathlib.Core.Path.{ap₂}
use cannect.Base.{
  ℕ, ◌+◌, ◌/◌, ◌≤◌, ◌<◌, ◌≡◌, refl, sym, subst, ◌∙◌, ap, arith, true, false, some, List, [], ◌∷◌,
  ◌++◌, length,
}
use cannect.SetBlock.State as SetBlock
use cannect.SetBlock.Receiver.{is_empty}
use cannect.SetBlock.Sender as Sender
use cannect.SetBlock.Link.{arrivals}
use cannect.SetBlock.Delivery.{calls_from}
use cannect.SetBlock.Transfers.{reliable}
use cannect.SetBlock.Answers.{Answers, answers, gaps_of, requested, transferred, asked, aborted}
use cannect.SetBlock.Addressed.{AreBetween, AreBetween-append}
use cannect.SetBlock.Senders.{
  set_block-reliable, requested-AreBetween, transferred-AreBetween, asked-AreBetween,
  aborted-AreBetween,
}
use cannect.SetBlock.Transaction.{padded, all_calls, set_block_delivers}
use cannect.Protocol.State.{CanTsProtocol, send_frame, set_block_effects}
use cannect.Protocol.Calls.{set_block}
use cannect.Protocol.Wire.{transmitted}
use cannect.Protocol.Blocks.{
  as_frames, as_frames-append, set_block_effects-as_frames, block_calls, block_calls-as_frames,
}
use cannect.Protocol.Heard.{is_set_block, heard}
use cannect.Protocol.Parts.{
  write_address, IsPart, IsWorking, Run, run, gaps_at, sender_takes, serves-IsPart_at,
}

-- What is stated of a block write to the node with address `to`.
abbrev Delivered : CanTsProtocol → CanTsProtocol → ℕ → List ℕ → List ℕ → ℕ → Type 0
Delivered p q now address_le bytes to =
    let n = (length bytes + 7) / 8 in
    let c = p.set_block_mgr in
    let r = run now p q to address_le bytes in
    let o = set_block p to address_le bytes (gaps_at now p r) in
    (o.result ≡ true)
    × (o.sent
        ≡ as_frames (
            requested c to address_le n
            ++ (transferred c to (Sender.split_blocks bytes n 0) ++ (asked c to ++ aborted c to))))
    × (o.protocol.set_block_mgr.pending ≡ SetBlock.no_pending)
    × (block_calls p.local_address ((r.to_request).1 ++ ((r.to_transfers).1 ++ (r.to_status).1))
        ≡ padded bytes ∷ [])

module _ (p q : CanTsProtocol) (now : ℕ) (address_le bytes : List ℕ) (w : IsWorking write_address p)
    (v : IsWorking write_address q) where
  abbrev to : ℕ
  to = q.set_block_mgr.local_address

  abbrev n : ℕ
  n = (length bytes + 7) / 8

  abbrev the_run : Run
  the_run = run now p q to address_le bytes

  abbrev the_answers : Answers
  the_answers =
      answers now p.set_block_mgr q.set_block_mgr address_le (Sender.split_blocks bytes n 0) n

  -- The three parts of the run.
  record Parts : Type 0 where
    first : IsPart p q now the_run.to_request the_answers.to_request
    second : IsPart p (the_run.to_request).0 now the_run.to_transfers the_answers.to_transfers
    third : IsPart p (the_run.to_transfers).0 now the_run.to_status the_answers.to_status

  parts : Parts
  parts =
      let c = p.set_block_mgr in
      let hc : c.local_address < 256 = omega (arith, w.fits, w.same_address) in
      let ht : to < 256 = omega (arith, v.fits, v.same_address) in
      let a =
        serves-IsPart_at p q now c.local_address to q.set_block_mgr (requested c to address_le n) w
          v refl w.same_address v.same_address (requested-AreBetween c to hc ht address_le n) in
      let b =
        serves-IsPart_at p (the_run.to_request).0 now c.local_address to (the_answers.to_request).0
          (transferred c to (Sender.split_blocks bytes n 0)) w a.working a.manager w.same_address
          (v.same_address ∙ sym a.address)
          (transferred-AreBetween c to hc ht (Sender.split_blocks bytes n 0)) in
      record {
        first = a;
        second = b;
        third =
            serves-IsPart_at p (the_run.to_transfers).0 now c.local_address to
              (the_answers.to_transfers).0 (asked c to) w b.working b.manager w.same_address
              (v.same_address ∙ sym a.address ∙ sym b.address) (asked-AreBetween c to hc ht);
      }

  same_gaps : gaps_at now p the_run ≡ gaps_of now the_answers
  same_gaps =
      ap
        (λ g. record {
          until_acked = g;
          until_armed =
              heard is_set_block p.local_address (transmitted now (the_run.to_transfers).1);
          until_reported =
              heard is_set_block p.local_address (transmitted now (the_run.to_status).1);
        })
        parts.first.comes_back
      ∙ ap₂
          (λ g h. record {
            until_acked = arrivals now (the_answers.to_request).1;
            until_armed = g;
            until_reported = h;
          })
          parts.second.comes_back parts.third.comes_back

  same_outcome :
      Sender.set_block
        (λ h b d. (send_frame p h b d).0)
        to
        address_le
        bytes
        (gaps_at now p the_run)
        p.set_block_mgr
      ≡ Sender.set_block reliable to address_le bytes (gaps_of now the_answers) p.set_block_mgr
  same_outcome =
      set_block-reliable _ (sender_takes p w) to address_le bytes (gaps_at now p the_run)
        p.set_block_mgr
      ∙ ap (λ g. Sender.set_block reliable to address_le bytes g p.set_block_mgr) same_gaps

  same_calls :
      block_calls p.local_address
        ((the_run.to_request).1 ++ ((the_run.to_transfers).1 ++ (the_run.to_status).1))
      ≡ all_calls p.set_block_mgr.local_address the_answers
  same_calls =
      let k = p.local_address in
      let a = (the_answers.to_request).1 in
      let b = (the_answers.to_transfers).1 in
      let d = (the_answers.to_status).1 in
      ap (block_calls k) (
        ap₂ (λ x y. x ++ y) parts.first.effects
          (ap₂ (λ x y. x ++ y) parts.second.effects parts.third.effects
            ∙ sym (as_frames-append b d))
        ∙ sym (as_frames-append a (b ++ d)))
      ∙ block_calls-as_frames k (a ++ (b ++ d))
      ∙ ap (λ l. calls_from l (a ++ (b ++ d))) (sym w.same_address)

  -- All that `p` sends.
  abbrev everything : List SetBlock.Effect
  everything =
      let c = p.set_block_mgr in
      requested c to address_le n
      ++ (transferred c to (Sender.split_blocks bytes n 0) ++ (asked c to ++ aborted c to))

  everything-AreBetween : AreBetween p.set_block_mgr.local_address to everything
  everything-AreBetween =
      let c = p.set_block_mgr in
      let k = c.local_address in
      let hc : k < 256 = omega (arith, w.fits, w.same_address) in
      let ht : to < 256 = omega (arith, v.fits, v.same_address) in
      let bs = Sender.split_blocks bytes n 0 in
      let end = asked c to ++ aborted c to in
      AreBetween-append k to (requested c to address_le n) (transferred c to bs ++ end)
        (requested-AreBetween c to hc ht address_le n)
        (AreBetween-append k to (transferred c to bs) end (transferred-AreBetween c to hc ht bs) (
          AreBetween-append k to (asked c to) (aborted c to) (asked-AreBetween c to hc ht)
            (aborted-AreBetween c to hc ht)))

  to_manager :
      (f : SetBlock.Handler)
      → q.set_block_mgr.handler ≡ some f
      → is_empty address_le ≡ false
      → 1 ≤ length bytes
      → length bytes ≤ 512
      → f p.local_address 0 (padded bytes) ≡ true
      → Delivered p q now address_le bytes to
  unfolding set_block
  to_manager f set full lo hi takes =
      let c = p.set_block_mgr in
      let hc : c.local_address < 256 = omega (arith, w.fits, w.same_address) in
      let ht : to < 256 = omega (arith, v.fits, v.same_address) in
      let (result, sent, idle, calls) =
        set_block_delivers c q.set_block_mgr f now address_le bytes hc ht set full lo hi
          (ap (λ k. f k 0 (padded bytes)) w.same_address ∙ takes) in
      (
        ap (λ (o : Sender.Outcome). o.result) same_outcome ∙ result,
        ap (λ (o : Sender.Outcome). set_block_effects p o.sent) same_outcome
            ∙ ap (set_block_effects p) sent
            ∙ set_block_effects-as_frames p w.transmitter c.local_address to everything w.is_set
                everything-AreBetween,
        ap (λ (o : Sender.Outcome). o.manager.pending) same_outcome ∙ idle,
        same_calls ∙ calls,
      )

-- Two nodes have addresses below 256, managers with their node's address, and transmitters that take
-- every frame; the peer's block-write callback is set and takes the data, filled up with zeros. Where
-- the address is not empty, the data has 1 to 512 bytes, and each part of what is sent is handled and
-- answered before the wait behind it ends, `setBlock` returns true. The frames given to the transmitter
-- are a REQUEST, a TRANSFER for each eight bytes, a STATUS_REQUEST and an ABORT; nothing is pending
-- after it; and the peer's callback was called once for this node, with the data filled up with zeros.
pub set_block_answered :
    (p q : CanTsProtocol) (f : SetBlock.Handler) (now : ℕ) (address_le bytes : List ℕ)
    → IsWorking write_address p
    → IsWorking write_address q
    → q.set_block_mgr.handler ≡ some f
    → is_empty address_le ≡ false
    → 1 ≤ length bytes
    → length bytes ≤ 512
    → f p.local_address 0 (padded bytes) ≡ true
    → let n = (length bytes + 7) / 8 in
      let c = p.set_block_mgr in
      let to = q.local_address in
      let r = run now p q to address_le bytes in
      let o = set_block p to address_le bytes (gaps_at now p r) in
      (o.result ≡ true)
      × (o.sent
          ≡ as_frames (
              requested c to address_le n
              ++ (transferred c to (Sender.split_blocks bytes n 0)
                  ++ (asked c to ++ aborted c to))))
      × (o.protocol.set_block_mgr.pending ≡ SetBlock.no_pending)
      × (block_calls p.local_address ((r.to_request).1 ++ ((r.to_transfers).1 ++ (r.to_status).1))
          ≡ padded bytes ∷ [])
set_block_answered p q f now address_le bytes w v set full lo hi takes =
    subst (Delivered p q now address_le bytes) v.same_address
      (to_manager p q now address_le bytes w v f set full lo hi takes)
