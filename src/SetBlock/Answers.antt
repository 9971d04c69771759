-- ===== src/SetBlock/Answers.antt =====
-- What a receiving node answers to a whole block-write transaction, over a link that loses nothing.

use mathlib.Core.List.{append-nil}
use cannect.Base.{
  ℕ, suc, ◌-◌, ◌≤◌, ◌<◌, ◌≡◌, refl, sym, ◌∙◌, ap, subst, arith, true, false, some, List, [], ◌∷◌,
  ◌++◌, length, u8, min,
}
use cannect.Types.{CanTsHeader, payload}
use cannect.Codec.{SetBlockFrameType, decode}
use cannect.Codec.Command.{set_block_command_fields}
use cannect.Wire.{make_frame}
use cannect.SetBlock.State.{Handler, SetBlockManager, Effect, send, call}
use cannect.SetBlock.Receiver.{is_empty, on_frame, concat_blocks}
use cannect.SetBlock.Sender.{Gaps, on_frames, request_header, send_transfers}
use cannect.SetBlock.Blocks.{AreBlocks}
use cannect.SetBlock.Link.{arrivals}
use cannect.SetBlock.Peer.{Receiving, Stepped, peer_requested}
use cannect.SetBlock.Transfers.{
  reliable, AreAcks, decode-request_header, Stepped-AreAcks, transfers_received,
}
use cannect.SetBlock.Report.{full_bitmap, full_report, status_reported}

-- What `setBlock` sends before its first wait, between its waits, and at the end.
abbrev pub requested : SetBlockManager → ℕ → List ℕ → ℕ → List Effect
requested c peer address_le n =
    send (request_header c peer SetBlockFrameType.request (n - 1)) address_le
      (u8 (min (length address_le) 8))
    ∷ []

abbrev pub transferred : SetBlockManager → ℕ → List (List ℕ) → List Effect
transferred c peer blocks = (send_transfers reliable c peer blocks 0).1

abbrev pub asked : SetBlockManager → ℕ → List Effect
asked c peer = send (request_header c peer SetBlockFrameType.status_request 0) [] 0 ∷ []

abbrev pub aborted : SetBlockManager → ℕ → List Effect
aborted c peer = send (request_header c peer SetBlockFrameType.abort 0) [] 0 ∷ []

-- The receiving node handles what was sent.
abbrev pub handles : ℕ → SetBlockManager → List Effect → SetBlockManager × List Effect
handles now q es = on_frames q (arrivals now es)

-- The receiving node after each part, with its answers.
pub record Answers : Type 0 where
  pub to_request : SetBlockManager × List Effect
  pub to_transfers : SetBlockManager × List Effect
  pub to_status : SetBlockManager × List Effect

abbrev pub answers : ℕ → SetBlockManager → SetBlockManager → List ℕ → List (List ℕ) → ℕ → Answers
answers now c q address_le blocks n =
    let peer = q.local_address in
    let a = handles now q (requested c peer address_le n) in
    let b = handles now a.0 (transferred c peer blocks) in
    record { to_request = a; to_transfers = b; to_status = handles now b.0 (asked c peer) }

abbrev pub gaps_of : ℕ → Answers → Gaps
gaps_of now a = record {
  until_acked = arrivals now (a.to_request).1;
  until_armed = arrivals now (a.to_transfers).1;
  until_reported = arrivals now (a.to_status).1;
}

-- The answers of a node that takes the data: ACKs, and a full REPORT after one call of its handler.
pub record Served (c q : SetBlockManager) (bs : List (List ℕ)) (n : ℕ) (a : Answers) : Type 0 where
  pub header : CanTsHeader
  pub bytes : List ℕ
  pub dlc : ℕ
  pub one_answer : (a.to_request).1 ≡ send header bytes dlc ∷ []
  pub acked : AreAcks q.local_address c.local_address (a.to_request).1
  pub transfers_acked : AreAcks q.local_address c.local_address (a.to_transfers).1
  pub reported :
      (a.to_status).1
      ≡ call c.local_address 0 (concat_blocks bs)
        ∷ send
            (full_report q.local_address c.local_address n)
            (full_bitmap n)
            (u8 (min (length (full_bitmap n)) 8))
        ∷ []

request_payload :
    (h : CanTsHeader) (address_le : List ℕ)
    → is_empty address_le ≡ false
    → is_empty (payload (make_frame h address_le (u8 (min (length address_le) 8)))) ≡ false
unfolding make_frame
request_payload h [] e = cc
request_payload h (x ∷ address_le) e =
    let d : u8 (min (suc (length address_le)) 8) ≡ suc (u8 (min (suc (length address_le)) 8) - 1) =
      omega arith in
    rw d

one_frame :
    (q : SetBlockManager) (now : ℕ) (h : CanTsHeader) (bytes : List ℕ) (dlc : ℕ)
    → decode (make_frame h bytes dlc).id ≡ h
    → handles now q (send h bytes dlc ∷ []) ≡ on_frame q now h (make_frame h bytes dlc)
unfolding on_frames
one_frame q now h bytes dlc e =
    ap (λ t. (t.0, t.1 ++ [])) (ap (λ g. on_frame q now g (make_frame h bytes dlc)) e)
    ∙ ap (λ es. ((on_frame q now h (make_frame h bytes dlc)).0, es)) (append-nil _)

request_served :
    (c q : SetBlockManager) (now n : ℕ) (address_le : List ℕ)
    → c.local_address < 256
    → q.local_address < 256
    → is_empty address_le ≡ false
    → 1 ≤ n
    → n ≤ 64
    → let h = request_header c q.local_address SetBlockFrameType.request (n - 1) in
      let f = make_frame h address_le (u8 (min (length address_le) 8)) in
      Stepped q q.handler n n q.local_address [] h f
        (handles now q (requested c q.local_address address_le n))
request_served c q now n address_le hc hq full lo hi =
    let h = request_header c q.local_address SetBlockFrameType.request (n - 1) in
    let dlc = u8 (min (length address_le) 8) in
    let f = make_frame h address_le dlc in
    subst (Stepped q q.handler n n q.local_address [] h f)
      (sym (
        one_frame q now h address_le dlc (
          decode-request_header c q.local_address SetBlockFrameType.request (n - 1) dlc address_le
            hc hq (omega arith))))
      (peer_requested q now n h f lo hi refl (request_payload h address_le full))

pub served :
    (c q : SetBlockManager) (f : Handler) (now n : ℕ) (address_le : List ℕ) (bs : List (List ℕ))
    → c.local_address < 256
    → q.local_address < 256
    → q.handler ≡ some f
    → is_empty address_le ≡ false
    → 1 ≤ n
    → n ≤ 64
    → length bs ≡ n
    → AreBlocks bs
    → f c.local_address 0 (concat_blocks bs) ≡ true
    → Served c q bs n (answers now c q address_le bs n)
served c q f now n address_le bs hc hq set full lo hi e blocks takes =
    let peer = q.local_address in
    let h = request_header c peer SetBlockFrameType.request (n - 1) in
    let ask = request_header c peer SetBlockFrameType.status_request 0 in
    let a = answers now c q address_le bs n in
    let (v, one) = request_served c q now n address_le hc hq full lo hi in
    let (w, acks) =
      transfers_received c (a.to_request).0 q.handler peer now n bs [] hc hq hi (omega (arith, e))
        blocks
        (subst (λ k. Receiving (a.to_request).0 q.handler peer c.local_address n k []) (sym e) v) in
    record {
      header = _;
      bytes = _;
      dlc = _;
      one_answer = one;
      acked =
          Stepped-AreAcks q q.handler n n peer [] h
            (make_frame h address_le (u8 (min (length address_le) 8))) a.to_request refl (v, one);
      transfers_acked = acks;
      reported =
          ap (λ r. r.1)
            (one_frame (a.to_transfers).0 now ask [] 0 (
              decode-request_header c peer SetBlockFrameType.status_request 0 0 [] hc hq
                (omega arith)))
          ∙ status_reported (a.to_transfers).0 f peer now n bs ask (make_frame ask [] 0)
              (subst (λ g. Receiving (a.to_transfers).0 g peer c.local_address n 0 bs) set w) e lo
              blocks takes
              (set_block_command_fields SetBlockFrameType.status_request 0 refl (omega arith)).0;
    }
