-- ===== src/SetBlock/Finish.antt =====
-- How `setBlock` ends when the answers it waits for have come.
use mathlib.Core.Path.{ap₂}
use cannect.Base.{
  ℕ, ◌+◌, ◌-◌, ◌≤◌, ◌<◌, ◌≡◌, refl, sym, ◌∙◌, ap, subst, arith, true, false, not, List, [], ◌∷◌,
  ◌++◌, length, ◌==◌, ◌&&◌, ◌||◌, u8, min, if_true, if_false, bit_and,
}
use cannect.Types.{CanTsHeader, setblock}
use cannect.Codec.{SetBlockFrameType, get_set_block_type, make_set_block_command}
use cannect.Codec.Command.{set_block_command_fields, set_block_report_fields}
use cannect.Wire.{make_frame}
use cannect.SetBlock.State.{PendingState, SetBlockManager, Effect, send, no_pending}
use cannect.SetBlock.Receiver.{on_ack, on_report}
use cannect.SetBlock.Sender.{
  Arrival, Gaps, Outcome, on_frames, request_header, send_transfers, take_report, armed, ask_status,
  transfer_blocks, check_ack, started, request_write,
}
use cannect.SetBlock.Link.{received}
use cannect.SetBlock.Transfers.{reliable, AreAcks, ack_header, ack_received}
use cannect.SetBlock.Report.{full_bitmap, full_report, full_bitmap-all, full_report_arrives}
use cannect.SetBlock.Pending.{step_pending, next_pending, pending_after, on_frames-pending}
use cannect.SetBlock.Answers.{requested, transferred, asked, aborted}

-- The pending transaction once the request is acknowledged, and once the report has come.
abbrev pub acked_pending : ℕ → ℕ → PendingState
acked_pending peer n = record (started peer n) { request_acked = true; waiting_request_ack = false }

abbrev pub reported_pending : ℕ → ℕ → PendingState
reported_pending peer n = record (armed (acked_pending peer n)) {
  bitmap = full_bitmap n;
  done = true;
  ok = true;
  report_received = true;
}

-- The transaction succeeds, after sending these frames, and leaves nothing pending.
abbrev pub Finishes : List Effect → Outcome → Type 0
Finishes sent o = (o.result ≡ true) × (o.sent ≡ sent) × (o.manager.pending ≡ no_pending)

abbrev Is : SetBlockManager → PendingState → SetBlockManager → Type 0
Is c p m = (m.pending ≡ p) × (m.local_address ≡ c.local_address)

request_header-eq :
    (c m : SetBlockManager) (peer : ℕ) (type : SetBlockFrameType) (low6 : ℕ)
    → m.local_address ≡ c.local_address
    → request_header m peer type low6 ≡ request_header c peer type low6
request_header-eq c m peer type low6 e =
    ap
      (λ a. record {
        to = peer;
        from = a;
        type = setblock;
        command = make_set_block_command type low6;
      })
      e

send_transfers-eq :
    (c m : SetBlockManager) (peer : ℕ) (bs : List (List ℕ)) (i : ℕ)
    → m.local_address ≡ c.local_address
    → ((send_transfers reliable m peer bs i).0 ≡ true)
      × ((send_transfers reliable m peer bs i).1 ≡ (send_transfers reliable c peer bs i).1)
unfolding send_transfers
send_transfers-eq c m peer [] i e = (refl, refl)
send_transfers-eq c m peer (b ∷ bs) i e =
    let (ok, same) = send_transfers-eq c m peer bs (i + 1) e in
    (
      ok,
      ap₂ (λ h es. send h b 8 ∷ es) (request_header-eq c m peer SetBlockFrameType.transfer i e)
          same,
    )

take_report-done :
    (c m : SetBlockManager) (peer n : ℕ)
    → Is c (reported_pending peer n) m
    → Finishes (aborted c peer) (take_report peer n m)
unfolding take_report
take_report-done c m peer n (p, l) =
    subst (λ r. Finishes (aborted c peer) (take_report peer n (record m { pending = r }))) (sym p)
      (
        rw (full_bitmap-all n),
        ap (λ h. send h [] 0 ∷ []) (request_header-eq c m peer SetBlockFrameType.abort 0 l),
        refl,
      )

-- The pending transaction when the report arrives.
pub report_arrives :
    (peer local now n : ℕ)
    → peer < 256
    → local < 256
    → n ≤ 64
    → next_pending (armed (acked_pending peer n)) (
        received now
          (full_report peer local n)
          (full_bitmap n)
          (u8 (min (length (full_bitmap n)) 8)))
      ≡ reported_pending peer n
unfolding on_report
report_arrives peer local now n hp hl hn =
    let p = armed (acked_pending peer n) in
    let h = full_report peer local n in
    let f = make_frame h (full_bitmap n) (u8 (min (length (full_bitmap n)) 8)) in
    let (same, bytes) = full_report_arrives peer local n hp hl hn in
    let (type, _, done) =
      set_block_report_fields (u8 (bit_and (length (full_bitmap n)) 0x3f)) true in
    let from : (true && peer == peer && true) ≡ true = ground arith in
    ap (λ g. step_pending (get_set_block_type g.command) p g f) same
    ∙ ap (λ t. step_pending t p h f) type
    ∙ if_true _ p from
    ∙ ap₂ (λ b d. record p { bitmap = b; done = d; ok = true; report_received = true }) bytes done

pub ack_arrives :
    (peer local now n : ℕ) (h : CanTsHeader) (bytes : List ℕ) (dlc : ℕ)
    → peer < 256
    → local < 256
    → AreAcks peer local (send h bytes dlc ∷ [])
    → next_pending (started peer n) (received now h bytes dlc) ≡ acked_pending peer n
unfolding on_ack
ack_arrives peer local now n h bytes dlc hp hl acks =
    let p = started peer n in
    let a = ack_header peer local (acks.0).0 in
    let f = make_frame h bytes dlc in
    let from : (true && peer == peer && true) ≡ true = ground arith in
    ap (λ g. step_pending (get_set_block_type g.command) p g f)
      (ack_received peer local h bytes dlc hp hl acks.0)
    ∙ ap (λ t. step_pending t p a f)
        (set_block_command_fields SetBlockFrameType.ack (acks.0).0 refl (omega arith)).0
    ∙ if_true _ p from

-- Only `pending` and the address of the sending node matter, and no frame changes the address.
frames-Is :
    (c m : SetBlockManager) (p r : PendingState) (arrived : List Arrival)
    → Is c p m
    → pending_after p arrived ≡ r
    → Is c r (on_frames m arrived).0
frames-Is c m p r arrived (e, l) after_ =
    let (e', l') = on_frames-pending m arrived in
    (e' ∙ ap (λ t. pending_after t arrived) e ∙ after_, l' ∙ l)

ask_status-done :
    (c m : SetBlockManager) (peer n : ℕ) (arrived : List Arrival)
    → Is c (acked_pending peer n) m
    → pending_after (armed (acked_pending peer n)) arrived ≡ reported_pending peer n
    → Finishes (asked c peer ++ aborted c peer) (ask_status reliable peer n arrived m)
unfolding ask_status
ask_status-done c m peer n arrived (e, l) after_ =
    let (result, sent, idle) = take_report-done c _ peer n (
      frames-Is c (record m { pending = armed m.pending }) (armed (acked_pending peer n)) _ arrived
        (ap armed e, l) after_) in
    (
      result,
      ap₂ (λ h es. send h [] 0 ∷ es)
          (request_header-eq c m peer SetBlockFrameType.status_request 0 l) sent,
      idle,
    )

transfer_blocks-done :
    (c m : SetBlockManager) (peer n : ℕ) (bs : List (List ℕ)) (gaps : Gaps)
    → Is c (acked_pending peer n) m
    → pending_after (acked_pending peer n) gaps.until_armed ≡ acked_pending peer n
    → pending_after (armed (acked_pending peer n)) gaps.until_reported ≡ reported_pending peer n
    → Finishes
        (transferred c peer bs ++ (asked c peer ++ aborted c peer))
        (transfer_blocks reliable peer bs n gaps m)
unfolding transfer_blocks
transfer_blocks-done c m peer n bs gaps (e, l) quiet after_ =
    let (ok, same) = send_transfers-eq c m peer bs 0 l in
    let (result, sent, idle) =
      ask_status-done c (on_frames m gaps.until_armed).0 peer n gaps.until_reported
        (frames-Is c m (acked_pending peer n) (acked_pending peer n) gaps.until_armed (e, l) quiet)
        after_ in
    rw ok (result, ap₂ ◌++◌ same sent, idle)

check_ack-done :
    (c m : SetBlockManager) (peer n : ℕ) (bs : List (List ℕ)) (gaps : Gaps)
    → Is c (acked_pending peer n) m
    → pending_after (acked_pending peer n) gaps.until_armed ≡ acked_pending peer n
    → pending_after (armed (acked_pending peer n)) gaps.until_reported ≡ reported_pending peer n
    → Finishes
        (transferred c peer bs ++ (asked c peer ++ aborted c peer))
        (check_ack reliable peer bs n gaps m)
unfolding check_ack
check_ack-done c m peer n bs gaps i quiet after_ =
    let acked : (not (m.pending.request_acked || m.pending.done)
          || m.pending.done
          || not m.pending.request_acked)
        ≡ false =
      ap (λ p. not (p.request_acked || p.done) || p.done || not p.request_acked) i.0 in
    subst (Finishes (transferred c peer bs ++ (asked c peer ++ aborted c peer)))
      (sym (if_false _ _ acked)) (transfer_blocks-done c m peer n bs gaps i quiet after_)

pub request_write-done :
    (c : SetBlockManager) (peer n : ℕ) (address_le : List ℕ) (bs : List (List ℕ)) (gaps : Gaps)
    → 1 ≤ n
    → n ≤ 64
    → pending_after (started peer n) gaps.until_acked ≡ acked_pending peer n
    → pending_after (acked_pending peer n) gaps.until_armed ≡ acked_pending peer n
    → pending_after (armed (acked_pending peer n)) gaps.until_reported ≡ reported_pending peer n
    → Finishes
        (requested c peer address_le n
          ++ (transferred c peer bs ++ (asked c peer ++ aborted c peer)))
        (request_write reliable peer address_le bs n gaps c)
unfolding request_write
request_write-done c peer n address_le bs gaps lo hi acked quiet after_ =
    let last : u8 (n + 256 - 1) ≡ n - 1 = omega arith in
    let (result, sent, idle) =
      check_ack-done c _ peer n bs gaps
        (frames-Is c (record c { pending = started peer n }) (started peer n) _ gaps.until_acked
          (refl, refl) acked)
        quiet after_ in
    (
      result,
      ap₂
          (λ k es.
            send (request_header c peer SetBlockFrameType.request k) address_le
              (u8 (min (length address_le) 8))
            ∷ es)
          last sent,
      idle,
    )
