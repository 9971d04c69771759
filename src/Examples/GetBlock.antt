-- ===== src/Examples/GetBlock.antt =====
-- Block reads by node 1 from node 2 (src/cants/GetBlockManager.cpp).
use cannect.Base.{ℕ, ◌≡◌, refl, arith, true, some, none, List, [], ◌∷◌, ◌++◌, replicate}
use cannect.Types.{CanFrame, CanTsHeader, payload}
use cannect.Codec.{GetBlockFrameType}
use cannect.Wire.{make_frame}
use cannect.SetBlock.Sender.{Arrival}
use cannect.GetBlock.State.{
  Handler, Session, GetBlockManager, no_pending, new, set_handler, store, get_last_data,
}
use cannect.GetBlock.Provider.{on_start}
use cannect.GetBlock.Requester.{on_frames, get_block}
use cannect.GetBlock.Link.{arrivals, header}
use cannect.GetBlock.Sessions.{
  IsSession, AreProvided, new-AreProvided, store-AreProvided, on_frames-AreProvided, numbered,
  marked, sent_each, on_start-sends_marked,
}
use cannect.GetBlock.Success.{IsRead, get_block-true}
use cannect.GetBlock.Answers.{Answers, answers, gaps_of, reliable, requested, started_frames}
use cannect.GetBlock.Transaction.{get_block_delivers}

-- 512 bytes.
abbrev image : List ℕ
image = replicate 511 7 ++ 9 ∷ []

abbrev gives_image : Handler
gives_image from channel = (true, image)

abbrev reader : GetBlockManager
reader = new 1

abbrev giver : GetBlockManager
giver = set_handler (some gives_image) (new 2)

abbrev address : List ℕ
address = 0x10 ∷ 0x20 ∷ []

abbrev run : Answers
run = answers 0 1 giver address

get_block_delivers_example :
    let o = get_block reliable 2 address (gaps_of 0 run) reader in
    (o.result ≡ true)
    × (get_last_data o.manager ≡ (true, some image))
    × (o.sent ≡ requested 1 2 address ++ started_frames 1 2)
    × (o.manager.pending ≡ no_pending)
get_block_delivers_example =
    get_block_delivers reader giver gives_image 0 address image (omega arith) (omega arith) refl
      refl refl refl

get_block-true_example :
    IsRead 2 (gaps_of 0 run) (get_block reliable 2 address (gaps_of 0 run) reader).manager.last_data
get_block-true_example =
    get_block-true reliable 2 address (gaps_of 0 run) reader get_block_delivers_example.0

-- A REQUEST, then a START.
abbrev opening : List Arrival
opening = arrivals 3 (requested 1 2 address ++ started_frames 1 2)

on_frames-AreProvided_example : AreProvided (on_frames giver opening).0
on_frames-AreProvided_example = on_frames-AreProvided giver opening (new-AreProvided 2)

-- A session of two blocks, of which the second is asked for.
abbrev two_blocks : Session
two_blocks = record {
  peer = 1;
  channel = 0;
  address = address;
  num_blocks = 2;
  blocks = replicate 8 5 ∷ replicate 8 6 ∷ [];
  last_activity = 0;
  prepared = true;
  accepted = true;
}

abbrev holder : GetBlockManager
holder = record giver { sessions = store (λ _. none) 1 (some two_blocks) }

two_blocks-IsSession : IsSession two_blocks
two_blocks-IsSession = record {
  counted = refl;
  sized = (refl, (refl, tt));
  some_block = omega arith;
  few_blocks = omega arith;
  is_accepted = refl;
}

holder-AreProvided : AreProvided holder
holder-AreProvided =
    store-AreProvided giver 1 two_blocks (new-AreProvided 2) two_blocks-IsSession refl

abbrev start_header : CanTsHeader
start_header = header 1 2 GetBlockFrameType.start 0

abbrev second_only : CanFrame
second_only = make_frame start_header (2 ∷ []) 1

on_start-sends_marked_example :
    (on_start holder 4 start_header second_only).1
    ≡ sent_each 2 1 (marked (payload second_only) (numbered 0 two_blocks.blocks))
on_start-sends_marked_example =
    on_start-sends_marked holder 4 start_header second_only two_blocks holder-AreProvided refl
