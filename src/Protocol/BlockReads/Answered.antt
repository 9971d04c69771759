-- ===== src/Protocol/BlockReads/Answered.antt =====
-- A whole block read between two nodes (`getBlock` of src/cants/CanTsProtocol.cpp).
use mathlib.Core.Path.{ap₂}
use cannect.Base.{
  ℕ, ◌<◌, ◌≡◌, refl, sym, subst, ◌∙◌, ap, arith, true, false, some, List, [], ◌∷◌, ◌++◌, length,
}
use cannect.Types.{CanFrame}
use cannect.SetBlock.Receiver.{is_empty}
use cannect.GetBlock.State as GetBlock
use cannect.GetBlock.Requester as Requester
use cannect.GetBlock.Answers.{
  Answers, answers, gaps_of, requested, started_frames, reliable, served,
}
use cannect.GetBlock.Addressed.{AreBetween-append}
use cannect.GetBlock.Senders.{get_block-reliable, requested-AreBetween, started-AreBetween}
use cannect.GetBlock.Transaction.{get_block_delivers}
use cannect.Protocol.State.{transmit, get_block_call, CanTsProtocol, send_frame, get_block_effects}
use cannect.Protocol.Calls.{get_block, get_last_get_block_data}
use cannect.Protocol.Parts.{read_address, IsWorking, sender_takes}
use cannect.Protocol.BlockReads.Parts.{
  ReadRun, read_run, read_gaps, IsReadPart, provides-IsReadPart_at,
}
use cannect.Protocol.BlockReads.{as_frames, get_block_effects-as_frames}

-- What is stated of a block read from the node with address `to` by the one with address `local`.
abbrev Delivered : CanTsProtocol → CanTsProtocol → ℕ → List ℕ → List ℕ → ℕ → ℕ → Type 0
Delivered p q now address_le response local to =
    let r = read_run now q local to address_le in
    let o = get_block p to address_le (read_gaps now p r) in
    (o.result ≡ true)
    × (get_last_get_block_data o.protocol ≡ (true, some response))
    × (o.sent ≡ as_frames (requested local to address_le ++ started_frames local to))
    × (o.protocol.get_block_mgr.pending ≡ GetBlock.no_pending)
    × ((answer : CanFrame) × ((r.to_request).1 ≡ get_block_call local 0 ∷ transmit answer ∷ []))

module _ (p q : CanTsProtocol) (now : ℕ) (address_le : List ℕ) (w : IsWorking read_address p)
    (v : IsWorking read_address q) where
  abbrev local : ℕ
  local = p.get_block_mgr.local_address

  abbrev to : ℕ
  to = q.get_block_mgr.local_address

  abbrev the_run : ReadRun
  the_run = read_run now q local to address_le

  abbrev the_answers : Answers
  the_answers = answers now local q.get_block_mgr address_le

  local_fits : local < 256
  local_fits = omega (arith, w.fits, w.same_address)

  to_fits : to < 256
  to_fits = omega (arith, v.fits, v.same_address)

  first : IsReadPart p q now the_run.to_request the_answers.to_request
  first =
      provides-IsReadPart_at p q now local to q.get_block_mgr (requested local to address_le) w v
        refl w.same_address v.same_address
        (requested-AreBetween local to local_fits to_fits address_le)

  second : IsReadPart p (the_run.to_request).0 now the_run.to_start the_answers.to_start
  second =
      provides-IsReadPart_at p (the_run.to_request).0 now local to (the_answers.to_request).0
        (started_frames local to) w first.working first.manager w.same_address
        (v.same_address ∙ sym first.address) (started-AreBetween local to local_fits to_fits)

  same_outcome :
      Requester.get_block
        (λ h b d. (send_frame p h b d).0)
        to
        address_le
        (read_gaps now p the_run)
        p.get_block_mgr
      ≡ Requester.get_block reliable to address_le (gaps_of now the_answers) p.get_block_mgr
  same_outcome =
      get_block-reliable _ (sender_takes p w) to address_le (read_gaps now p the_run)
        p.get_block_mgr
      ∙ ap₂
          (λ a d.
            Requester.get_block reliable to address_le (record { until_acked = a; until_done = d })
              p.get_block_mgr)
          first.comes_back second.comes_back

  to_manager :
      (f : GetBlock.Handler) (response : List ℕ)
      → q.get_block_mgr.handler ≡ some f
      → is_empty address_le ≡ false
      → f local 0 ≡ (true, response)
      → length response ≡ 512
      → Delivered p q now address_le response local to
  unfolding get_block
  to_manager f response set full gives size =
      let (result, kept, sent, idle) =
        get_block_delivers p.get_block_mgr q.get_block_mgr f now address_le response local_fits
          to_fits set full gives size in
      let s =
        served q.get_block_mgr f now local address_le response local_fits to_fits set full gives
          size in
      let all = requested local to address_le ++ started_frames local to in
      (
        ap (λ (o : Requester.Outcome). o.result) same_outcome ∙ result,
        ap (λ (o : Requester.Outcome). GetBlock.get_last_data o.manager) same_outcome ∙ kept,
        ap (λ (o : Requester.Outcome). get_block_effects p o.sent) same_outcome
            ∙ ap (get_block_effects p) sent
            ∙ get_block_effects-as_frames p w.transmitter local to all w.is_set (
                AreBetween-append local to (requested local to address_le) (started_frames local to)
                  (requested-AreBetween local to local_fits to_fits address_le)
                  (started-AreBetween local to local_fits to_fits)),
        ap (λ (o : Requester.Outcome). o.manager.pending) same_outcome ∙ idle,
        (_, first.effects ∙ ap as_frames s.acked),
      )

-- Two nodes have addresses below 256, managers with their node's address, and transmitters that take
-- every frame; the peer's block-read callback gives 512 bytes. Where the address is not empty, and each
-- part of what is sent is handled and answered before the wait behind it ends, `getBlock` returns true,
-- and `getLastGetBlockData` then gives those bytes. The frames given to the transmitter are a REQUEST
-- and a START; nothing is pending after it; and the peer's callback was called once for the REQUEST,
-- which was answered with one frame.
pub get_block_answered :
    (p q : CanTsProtocol) (f : GetBlock.Handler) (now : ℕ) (address_le response : List ℕ)
    → IsWorking read_address p
    → IsWorking read_address q
    → q.get_block_mgr.handler ≡ some f
    → is_empty address_le ≡ false
    → f p.local_address 0 ≡ (true, response)
    → length response ≡ 512
    → let local = p.local_address in
      let to = q.local_address in
      let r = read_run now q local to address_le in
      let o = get_block p to address_le (read_gaps now p r) in
      (o.result ≡ true)
      × (get_last_get_block_data o.protocol ≡ (true, some response))
      × (o.sent ≡ as_frames (requested local to address_le ++ started_frames local to))
      × (o.protocol.get_block_mgr.pending ≡ GetBlock.no_pending)
      × ((answer : CanFrame) × ((r.to_request).1 ≡ get_block_call local 0 ∷ transmit answer ∷ []))
get_block_answered p q f now address_le response w v set full gives size =
    subst (Delivered p q now address_le response p.local_address) v.same_address (
      subst (λ l. Delivered p q now address_le response l q.get_block_mgr.local_address)
        w.same_address
        (to_manager p q now address_le w v f response set full
          (ap (λ k. f k 0) w.same_address ∙ gives) size))
