-- ===== src/GetBlock/Transaction.antt =====
-- A whole block-read transaction between two nodes, over a link that loses nothing: the providing node
-- answers what was sent before each wait of `getBlock` returns.

use mathlib.Core.Path.{ap₂}
use cannect.Base.{
  ℕ, ◌<◌, ◌≡◌, refl, sym, ◌∙◌, ap, subst, arith, true, false, not, ◌&&◌, ◌||◌, some, List, [], ◌∷◌,
  ◌++◌, length, ◌==◌, if_true, if_false, u8, min,
}
use cannect.Codec.{GetBlockFrameType, get_get_block_type}
use cannect.Codec.Command.{get_block_command_fields}
use cannect.Wire.{make_frame}
use cannect.SetBlock.Receiver.{is_empty}
use cannect.SetBlock.Sender.{Arrival}
use cannect.SetBlock.Link.{received}
use cannect.GetBlock.State.{Handler, GetBlockManager, Effect, send, no_pending, get_last_data}
use cannect.GetBlock.Provider.{on_ack}
use cannect.GetBlock.Requester.{
  on_frames, Outcome, armed, finish, start, started, request_read, get_block,
}
use cannect.GetBlock.Cut.{IsCut}
use cannect.GetBlock.Link.{arrivals, header, decode-header}
use cannect.GetBlock.Progress.{
  Progress, progress, step_progress, next_progress, progress_after, on_frames-progress,
}
use cannect.GetBlock.Collect.{acked_pending, collecting, collected, transfers, blocks_collected}
use cannect.GetBlock.Serve.{start_bitmap-eq}
use cannect.GetBlock.Answers.{reliable, requested, started_frames, answers, gaps_of, served}

-- The acknowledgement arrives.
ack_arrives :
    (peer local now n low7 dlc : ℕ) (bytes last : List ℕ)
    → peer < 256
    → local < 256
    → next_progress
        (record { pending = started peer n; last_data = last })
        (received now (header peer local GetBlockFrameType.ack low7) bytes dlc)
      ≡ record { pending = acked_pending peer n; last_data = last }
unfolding on_ack
ack_arrives peer local now n low7 dlc bytes last hp hl =
    let p : Progress = record { pending = started peer n; last_data = last } in
    let h = header peer local GetBlockFrameType.ack low7 in
    let f = make_frame h bytes dlc in
    let from : (true && peer == peer) ≡ true = ground arith in
    ap (λ g. step_progress (get_get_block_type g.command) p g f)
      (decode-header peer local GetBlockFrameType.ack low7 dlc bytes hp hl (omega arith))
    ∙ ap (λ t. step_progress t p h f)
        (get_block_command_fields GetBlockFrameType.ack low7 refl (omega arith)).0
    ∙ ap (λ q. record p { pending = q }) (if_true _ _ from)

-- The transaction succeeds with this data.
abbrev Finishes : List ℕ → List Effect → Outcome → Type 0
Finishes response sent o =
    (o.result ≡ true)
    × (o.sent ≡ sent)
    × (o.manager.pending ≡ no_pending)
    × (o.manager.last_data ≡ response)

blocks_arrive :
    (peer local now : ℕ) (response last : List ℕ) (blocks : List (List ℕ))
    → peer < 256
    → local < 256
    → IsCut 64 response blocks
    → progress_after
        (record { pending = collecting peer 64 64 []; last_data = last })
        (arrivals now (transfers peer local 0 blocks))
      ≡ collected peer 64 blocks
blocks_arrive peer local now response last [] hp hl cut = absurd (omega (arith, cut.counted))
blocks_arrive peer local now response last (b ∷ bs) hp hl cut =
    subst
      (λ k.
        progress_after (record { pending = collecting peer 64 k []; last_data = last })
          (arrivals now (transfers peer local 0 (b ∷ bs)))
        ≡ collected peer 64 (b ∷ bs))
      cut.counted
      (blocks_collected peer local now 64 [] b bs last hp hl (omega arith)
        (omega (arith, cut.counted)) cut.sized)

finish-done :
    (m : GetBlockManager) (peer : ℕ) (response : List ℕ) (blocks : List (List ℕ))
    → IsCut 64 response blocks
    → progress m ≡ collected peer 64 blocks
    → Finishes response [] (finish m)
unfolding finish
finish-done m peer response blocks cut e = (
  ap (λ (p : Progress). p.pending.done && p.pending.ok) e,
  refl,
  refl,
  ap (λ (p : Progress). p.last_data) e ∙ cut.joined,
)

start-done :
    (m : GetBlockManager) (peer local now : ℕ) (response last : List ℕ) (blocks : List (List ℕ))
    (arrived : List Arrival)
    → peer < 256
    → local < 256
    → IsCut 64 response blocks
    → arrived ≡ arrivals now (transfers peer local 0 blocks)
    → m.local_address ≡ local
    → progress m ≡ record { pending = acked_pending peer 64; last_data = last }
    → Finishes response (started_frames local peer) (start reliable peer 64 arrived m)
unfolding start finish
start-done m peer local now response last blocks arrived hp hl cut came own e =
    let m' = record m { pending = armed 64 m.pending } in
    let acked : (not (m.pending.acked || m.pending.done) || m.pending.done) ≡ false =
      ap (λ (p : Progress). not (p.pending.acked || p.pending.done) || p.pending.done) e in
    let ready : progress m' ≡ record { pending = collecting peer 64 64 []; last_data = last } =
      ap (λ (p : Progress). record p { pending = armed 64 p.pending }) e in
    let end : progress (on_frames m' arrived).0 ≡ collected peer 64 blocks =
      (on_frames-progress m' arrived).0
      ∙ ap₂ progress_after ready came
      ∙ blocks_arrive peer local now response last blocks hp hl cut in
    let (result, sent, idle, kept) =
      finish-done (on_frames m' arrived).0 peer response blocks cut end in
    subst (Finishes response (started_frames local peer)) (sym (if_false _ _ acked)) (
      result,
      ap₂
          (λ a (b : List ℕ).
            send (header a peer GetBlockFrameType.start 0) b (u8 (min (length b) 8)) ∷ [])
          own start_bitmap-eq,
      idle,
      kept,
    )

given :
    (m : GetBlockManager) {response : List ℕ}
    → m.last_data ≡ response
    → length response ≡ 512
    → get_last_data m ≡ (true, some response)
unfolding get_last_data
given m {response = []} e size = absurd (omega arith)
given m {response = x ∷ response} e size = rw e refl

-- Over a link that loses nothing, `getBlock` at a non-empty address of a node whose handler gives 512
-- bytes returns true, and `getLastData` then gives those bytes. It has sent a REQUEST and a START;
-- nothing is pending.
pub get_block_delivers :
    (c q : GetBlockManager) (f : Handler) (now : ℕ) (address_le response : List ℕ)
    → c.local_address < 256
    → q.local_address < 256
    → q.handler ≡ some f
    → is_empty address_le ≡ false
    → f c.local_address 0 ≡ (true, response)
    → length response ≡ 512
    → let local = c.local_address in
      let peer = q.local_address in
      let o = get_block reliable peer address_le (gaps_of now (answers now local q address_le)) c in
      (o.result ≡ true)
      × (get_last_data o.manager ≡ (true, some response))
      × (o.sent ≡ requested local peer address_le ++ started_frames local peer)
      × (o.manager.pending ≡ no_pending)
unfolding get_block request_read get_last_data
get_block_delivers c q f now address_le response hc hq set full gives size =
    let local = c.local_address in
    let peer = q.local_address in
    let a = answers now local q address_le in
    let gaps = gaps_of now a in
    let s = served q f now local address_le response hc hq set full gives size in
    let c' = record c { pending = started peer 64 } in
    let r = (on_frames c' gaps.until_acked).0 in
    let (moved, same) = on_frames-progress c' gaps.until_acked in
    let acked : progress r ≡ record { pending = acked_pending peer 64; last_data = c.last_data } =
      moved
      ∙ ap (λ es. progress_after (progress c') (arrivals now es)) s.acked
      ∙ ack_arrives peer local now 64 s.low7 s.dlc s.bytes c.last_data hq hc in
    let (result, sent, idle, kept) =
      start-done r peer local now response c.last_data s.blocks gaps.until_done hq hc s.cut
        (ap (arrivals now) s.sent) same acked in
    let whole : get_block reliable peer address_le gaps c
        ≡ request_read reliable peer address_le 64 gaps c =
      if_false _ _ full in
    (
      ap (λ (o : Outcome). o.result) whole ∙ result,
      ap (λ (o : Outcome). get_last_data o.manager) whole
          ∙ given (request_read reliable peer address_le 64 gaps c).manager kept size,
      ap (λ (o : Outcome). o.sent) whole ∙ ap (λ es. requested local peer address_le ++ es) sent,
      ap (λ (o : Outcome). o.manager.pending) whole ∙ idle,
    )
