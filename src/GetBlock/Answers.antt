-- ===== src/GetBlock/Answers.antt =====
-- What a providing node answers to a whole block-read transaction, over a link that loses nothing.
use mathlib.Core.List.{append-nil}
use cannect.Base.{
  ℕ, ◌≤◌, ◌<◌, ◌≡◌, refl, ◌∙◌, ap, arith, true, false, some, List, [], ◌∷◌, ◌++◌, length, replicate,
  u8, min,
}
use cannect.Types.{CanTsHeader}
use cannect.Codec.{GetBlockFrameType, decode, ack_command_low7}
use cannect.Codec.Command.{get_block_command_fields}
use cannect.Wire.{make_frame, payload-make_frame}
use cannect.SetBlock.Receiver.{is_empty}
use cannect.GetBlock.State.{Handler, FrameSender, GetBlockManager, Effect, send, ask}
use cannect.GetBlock.Provider.{on_frame}
use cannect.GetBlock.Requester.{on_frames, Gaps}
use cannect.GetBlock.Cut.{IsCut}
use cannect.GetBlock.Link.{arrivals, header, decode-header}
use cannect.GetBlock.Collect.{transfers}
use cannect.GetBlock.Serve.{request_served}

-- A link that takes every frame.
abbrev pub reliable : FrameSender
reliable h bytes dlc = true

-- What `getBlock` sends before its first wait and before its second.
abbrev pub requested : ℕ → ℕ → List ℕ → List Effect
requested local peer address_le =
    send (header local peer GetBlockFrameType.request 63) address_le
      (u8 (min (length address_le) 8))
    ∷ []

abbrev pub started_frames : ℕ → ℕ → List Effect
started_frames local peer =
    send (header local peer GetBlockFrameType.start 0) (replicate 8 0xff) 8 ∷ []

-- The providing node after each part, with its answers.
pub record Answers : Type 0 where
  pub to_request : GetBlockManager × List Effect
  pub to_start : GetBlockManager × List Effect

abbrev pub answers : ℕ → ℕ → GetBlockManager → List ℕ → Answers
answers now local q address_le =
    let a = on_frames q (arrivals now (requested local q.local_address address_le)) in
    record {
      to_request = a;
      to_start = on_frames a.0 (arrivals now (started_frames local q.local_address));
    }

abbrev pub gaps_of : ℕ → Answers → Gaps
gaps_of now a = record {
  until_acked = arrivals now (a.to_request).1;
  until_done = arrivals now (a.to_start).1;
}

-- The answers of a node that has the data.
pub record Served (local peer : ℕ) (response : List ℕ) (a : Answers) : Type 0 where
  pub low7 : ℕ
  pub bytes : List ℕ
  pub dlc : ℕ
  pub acked :
      (a.to_request).1
      ≡ ask local 0 ∷ send (header peer local GetBlockFrameType.ack low7) bytes dlc ∷ []
  pub blocks : List (List ℕ)
  pub cut : IsCut 64 response blocks
  pub sent : (a.to_start).1 ≡ transfers peer local 0 blocks

one_frame :
    (q : GetBlockManager) (now : ℕ) (h : CanTsHeader) (bytes : List ℕ) (dlc : ℕ)
    → decode (make_frame h bytes dlc).id ≡ h
    → on_frames q (arrivals now (send h bytes dlc ∷ [])) ≡ on_frame q now h (make_frame h bytes dlc)
unfolding on_frames
one_frame q now h bytes dlc e =
    ap (λ t. (t.0, t.1 ++ [])) (ap (λ g. on_frame q now g (make_frame h bytes dlc)) e)
    ∙ ap (λ es. ((on_frame q now h (make_frame h bytes dlc)).0, es)) (append-nil _)

address_dlc :
    (address_le : List ℕ) → is_empty address_le ≡ false → 1 ≤ u8 (min (length address_le) 8)
address_dlc [] e = cc
address_dlc (x ∷ address_le) e = omega arith

pub served :
    (q : GetBlockManager) (f : Handler) (now local : ℕ) (address_le response : List ℕ)
    → local < 256
    → q.local_address < 256
    → q.handler ≡ some f
    → is_empty address_le ≡ false
    → f local 0 ≡ (true, response)
    → length response ≡ 512
    → Served local q.local_address response (answers now local q address_le)
unfolding make_frame
served q f now local address_le response hl hq set full gives size =
    let peer = q.local_address in
    let dlc = u8 (min (length address_le) 8) in
    let h = header local peer GetBlockFrameType.request 63 in
    let g = header local peer GetBlockFrameType.start 0 in
    let bitmap = make_frame g (replicate 8 0xff) 8 in
    let (type, low6, _) =
      get_block_command_fields GetBlockFrameType.request 63 refl (omega arith) in
    let (type', _, _) = get_block_command_fields GetBlockFrameType.start 0 refl (omega arith) in
    let (acks, (blocks, cut, sent)) =
      request_served q f now response h (make_frame h address_le dlc) bitmap g set gives size type
        low6 (address_dlc address_le full) type' refl
        (payload-make_frame g (replicate 8 0xff) 8 (omega arith)) in
    let first =
      one_frame q now h address_le dlc (
        decode-header local peer GetBlockFrameType.request 63 dlc address_le hl hq (omega arith)) in
    record {
      low7 = ack_command_low7 h.command;
      bytes = (make_frame h address_le dlc).bytes;
      dlc = dlc;
      acked = ap (λ r. r.1) first ∙ acks;
      blocks = blocks;
      cut = cut;
      sent =
          ap (λ (r : GetBlockManager × List Effect). r.1)
            (one_frame (answers now local q address_le).to_request.0 now g (replicate 8 0xff) 8 (
              decode-header local peer GetBlockFrameType.start 0 8 (replicate 8 0xff) hl hq
                (omega arith)))
          ∙ ap (λ r. (on_frame r.0 now g bitmap).1) first
          ∙ sent;
    }
