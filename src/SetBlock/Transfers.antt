-- ===== src/SetBlock/Transfers.antt =====
-- The TRANSFER loop of a sending node against a receiving node.
use mathlib.Core.List.{append_assoc, append-nil}
use cannect.Base.{
  ℕ, suc, ◌+◌, ◌≤◌, ◌<◌, ◌≡◌, refl, sym, ◌∙◌, ap, subst, arith, true, false, Option, List, [], ◌∷◌,
  ◌++◌, length, take, length-append,
}
use cannect.Types.{CanFrame, CanTsHeader, payload, setblock}
use cannect.Codec.{
  SetBlockFrameType, set_block_code, get_set_block_type, make_set_block_command, encode, decode,
  ack_command_low7,
}
use cannect.Codec.Command.{set_block_command_fields}
use cannect.Wire.{make_frame, payload-make_frame}
use cannect.SetBlock.State.{Handler, FrameSender, PendingState, SetBlockManager, Effect, send, call}
use cannect.SetBlock.Receiver.{on_ack, on_frame}
use cannect.SetBlock.Sender.{on_frames, request_header, send_transfers}
use cannect.SetBlock.Blocks.{AreBlocks}
use cannect.SetBlock.Link.{received, arrivals, decode-block_header, make_set_block_command-lt}
use cannect.SetBlock.Peer.{Receiving, Stepped, peer_transferred}
use cannect.SetBlock.Pending.{step_pending, next_pending, pending_after}
use cannect.SetBlock.Delivery.{calls_from}

-- A link that takes every frame.
abbrev pub reliable : FrameSender
reliable h bytes dlc = true

-- The header of an ACK.
abbrev pub ack_header : ℕ → ℕ → ℕ → CanTsHeader
ack_header peer local x = record {
  to = local;
  from = peer;
  type = setblock;
  command = make_set_block_command SetBlockFrameType.ack x;
}

-- Only ACK frames from `peer` to `local`.
abbrev pub AreAcks : ℕ → ℕ → List Effect → Type 0
AreAcks peer local [] = Unit {0}
AreAcks peer local (call from channel request ∷ es) = ⊥
AreAcks peer local (send h bytes dlc ∷ es) =
    ((x : ℕ) × (h ≡ ack_header peer local x)) × AreAcks peer local es

pub take_all {ℓ} : {A : Type ℓ} (xs : List A) → take (length xs) xs ≡ xs
take_all [] = refl
take_all (x ∷ xs) = ap (λ t. x ∷ t) (take_all xs)

pub payload_of_block :
    (h : CanTsHeader) (b : List ℕ) → length b ≡ 8 → payload (make_frame h b 8) ≡ b
payload_of_block h b e =
    payload-make_frame h b 8 (omega arith) ∙ ap (λ k. take k b) (sym e) ∙ take_all b

AreAcks-append :
    (peer local : ℕ) (es fs : List Effect)
    → AreAcks peer local es
    → AreAcks peer local fs
    → AreAcks peer local (es ++ fs)
AreAcks-append peer local [] fs h k = k
AreAcks-append peer local (send g bytes dlc ∷ es) fs h k =
    (h.0, AreAcks-append peer local es fs h.1 k)
AreAcks-append peer local (call from channel request ∷ es) fs h k = absurd h

-- The headers of a node's requests survive the identifier.
pub decode-request_header :
    (c : SetBlockManager) (peer : ℕ) (type : SetBlockFrameType) (low6 dlc : ℕ) (bytes : List ℕ)
    → c.local_address < 256
    → peer < 256
    → set_block_code type < 8
    → decode (make_frame (request_header c peer type low6) bytes dlc).id
      ≡ request_header c peer type low6
unfolding make_frame
decode-request_header c peer type low6 dlc bytes hc hp ht =
    decode-block_header peer c.local_address _ hp hc (make_set_block_command-lt type low6 ht)

-- One step of the transaction leaves only an ACK.
pub Stepped-AreAcks :
    (q : SetBlockManager) (handler : Option Handler) (n k peer : ℕ) (pre : List (List ℕ))
    (h : CanTsHeader) (frame : CanFrame) (r : SetBlockManager × List Effect)
    → q.local_address ≡ peer
    → Stepped q handler n k peer pre h frame r
    → AreAcks peer h.from r.1
Stepped-AreAcks q handler n k peer pre h frame r at s = subst (AreAcks peer h.from) (sym s.1) (
  (
    ack_command_low7 h.command,
    ap
        (λ a. record {
          to = h.from;
          from = a;
          type = setblock;
          command = make_set_block_command SetBlockFrameType.ack (ack_command_low7 h.command);
        })
        at,
  ),
  tt,
)

transfer_received :
    (c q : SetBlockManager) (handler : Option Handler) (peer now n k : ℕ) (b : List ℕ)
    (pre : List (List ℕ))
    → c.local_address < 256
    → peer < 256
    → n ≤ 64
    → length pre < n
    → length b ≡ 8
    → Receiving q handler peer c.local_address n (suc k) pre
    → let h = request_header c peer SetBlockFrameType.transfer (length pre) in
      let f = make_frame h b 8 in
      let r = on_frame q now (decode f.id) f in
      Receiving r.0 handler peer c.local_address n k (pre ++ b ∷ [])
      × AreAcks peer c.local_address r.1
transfer_received c q handler peer now n k b pre hc hp hn lt e v =
    let h = request_header c peer SetBlockFrameType.transfer (length pre) in
    let f = make_frame h b 8 in
    let s = peer_transferred q handler peer now n k pre h f v lt hn refl in
    subst
      (λ g.
        Receiving (on_frame q now g f).0 handler peer c.local_address n k (pre ++ b ∷ [])
        × AreAcks peer c.local_address (on_frame q now g f).1)
      (sym (
        decode-request_header c peer SetBlockFrameType.transfer (length pre) 8 b hc hp
          (omega arith)))
      (
        subst
            (λ l. Receiving (on_frame q now h f).0 handler peer c.local_address n k (pre ++ l ∷ []))
            (payload_of_block h b e) s.0,
        Stepped-AreAcks q handler n k peer _ h f _ v.same_address s,
      )

-- The receiving node stores the blocks in order and answers each by an ACK.
pub transfers_received :
    (c q : SetBlockManager) (handler : Option Handler) (peer now n : ℕ) (bs pre : List (List ℕ))
    → c.local_address < 256
    → peer < 256
    → n ≤ 64
    → length pre + length bs ≡ n
    → AreBlocks bs
    → Receiving q handler peer c.local_address n (length bs) pre
    → let r = on_frames q (arrivals now (send_transfers reliable c peer bs (length pre)).1) in
      Receiving r.0 handler peer c.local_address n 0 (pre ++ bs) × AreAcks peer c.local_address r.1
unfolding on_frames send_transfers
transfers_received c q handler peer now n [] pre hc hp hn e sized v =
    (subst (λ l. Receiving q handler peer c.local_address n 0 l) (sym (append-nil pre)) v, tt)
transfers_received c q handler peer now n (b ∷ bs) pre hc hp hn e sized v =
    let h = request_header c peer SetBlockFrameType.transfer (length pre) in
    let f = make_frame h b 8 in
    let q' = (on_frame q now (decode f.id) f).0 in
    let (v', acks) =
      transfer_received c q handler peer now n (length bs) b pre hc hp hn (omega arith) sized.0 v in
    let out =
      (on_frames q' (arrivals now (send_transfers reliable c peer bs (length pre + 1)).1)).0 in
    let at : length (pre ++ b ∷ []) ≡ length pre + 1 = length-append pre (b ∷ []) in
    let (end, acks') =
      subst
        (λ i.
          let r = on_frames q' (arrivals now (send_transfers reliable c peer bs i).1) in
          Receiving r.0 handler peer c.local_address n 0 ((pre ++ b ∷ []) ++ bs)
          × AreAcks peer c.local_address r.1)
        at
        (transfers_received c q' handler peer now n bs (pre ++ b ∷ []) hc hp hn (omega (arith, at))
          sized.1 v') in
    (
      subst (λ l. Receiving out handler peer c.local_address n 0 l) (append_assoc pre (b ∷ []) bs)
          end,
      AreAcks-append peer c.local_address _ _ acks acks',
    )

pub ack_received :
    (peer local : ℕ) (h : CanTsHeader) (bytes : List ℕ) (dlc : ℕ)
    → peer < 256
    → local < 256
    → (a : (x : ℕ) × (h ≡ ack_header peer local x))
    → decode (make_frame h bytes dlc).id ≡ ack_header peer local a.0
unfolding make_frame
ack_received peer local h bytes dlc hp hl (x, e) =
    ap (λ g. decode (encode g)) e
    ∙ decode-block_header local peer _ hl hp
        (make_set_block_command-lt SetBlockFrameType.ack x (omega arith))

ack_ignored :
    (p : PendingState) (peer local : ℕ) (frame : CanFrame)
    → p.waiting_request_ack ≡ false
    → (x : ℕ)
    → step_pending
        (get_set_block_type (ack_header peer local x).command)
        p
        (ack_header peer local x)
        frame
      ≡ p
unfolding on_ack
ack_ignored p peer local frame w x =
    rw ((set_block_command_fields SetBlockFrameType.ack x refl (omega arith)).0) (ground arith)

-- An acknowledged sending node takes no notice of further ACKs.
pub acks_ignored :
    (p : PendingState) (now peer local : ℕ) (es : List Effect)
    → peer < 256
    → local < 256
    → p.waiting_request_ack ≡ false
    → AreAcks peer local es
    → pending_after p (arrivals now es) ≡ p
unfolding on_ack
acks_ignored p now peer local [] hp hl w acks = refl
acks_ignored p now peer local (call from channel request ∷ es) hp hl w acks = absurd acks
acks_ignored p now peer local (send h bytes dlc ∷ es) hp hl w acks =
    let still : next_pending p (received now h bytes dlc) ≡ p =
      ap (λ g. step_pending (get_set_block_type g.command) p g (make_frame h bytes dlc))
        (ack_received peer local h bytes dlc hp hl acks.0)
      ∙ ack_ignored p peer local (make_frame h bytes dlc) w (acks.0).0 in
    ap (λ r. pending_after r (arrivals now es)) still
    ∙ acks_ignored p now peer local es hp hl w acks.1

pub acks_call_nothing :
    (peer local k : ℕ) (es : List Effect) → AreAcks peer local es → calls_from k es ≡ []
acks_call_nothing peer local k [] acks = refl
acks_call_nothing peer local k (call from channel request ∷ es) acks = absurd acks
acks_call_nothing peer local k (send h bytes dlc ∷ es) acks =
    acks_call_nothing peer local k es acks.1
