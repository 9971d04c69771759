-- ===== src/Examples/SetBlock.antt =====
-- Block writes from node 1 to node 2 (src/cants/SetBlockManager.cpp).
use cannect.Base.{ℕ, ◌≡◌, refl, arith, true, false, some, none, List, [], ◌∷◌, ◌++◌, replicate}
use cannect.Types.{CanFrame, CanTsHeader}
use cannect.Codec.{
  all_blocks_received, SetBlockFrameType, make_set_block_command, get_set_block_type,
}
use cannect.Wire.{make_frame}
use cannect.SetBlock.State.{Handler, Session, SetBlockManager, no_pending, new, set_handler, store}
use cannect.SetBlock.Receiver.{
  on_frame, concat_blocks, dispatch, on_status_request, report_status, hand_over, assembled_data,
  report,
}
use cannect.SetBlock.Sender.{Arrival, on_frames, request_header, split_blocks, set_block}
use cannect.SetBlock.Sessions.{AreSessions, new-AreSessions, on_frames-AreSessions}
use cannect.SetBlock.Delivery.{CallsComplete, calls_from, on_frame-calls}
use cannect.SetBlock.Once.{none_begins_again, on_frame_isolates, on_frames-taken_once}
use cannect.SetBlock.Blocks.{concat-split_blocks}
use cannect.SetBlock.Link.{arrivals}
use cannect.SetBlock.Transfers.{reliable}
use cannect.SetBlock.Answers.{Answers, answers, gaps_of, requested, transferred, asked, aborted}
use cannect.SetBlock.Success.{IsConfirmed, set_block-true}
use cannect.SetBlock.Transaction.{all_calls, set_block_delivers}

abbrev takes_all : Handler
takes_all from channel request = true

abbrev writer : SetBlockManager
writer = new 1

abbrev taker : SetBlockManager
taker = set_handler (some takes_all) (new 2)

abbrev address : List ℕ
address = 0x10 ∷ 0x20 ∷ []

-- Ten bytes: two blocks.
abbrev ten_bytes : List ℕ
ten_bytes = 1 ∷ 2 ∷ 3 ∷ 4 ∷ 5 ∷ 6 ∷ 7 ∷ 8 ∷ 9 ∷ 10 ∷ []

abbrev blocks : List (List ℕ)
blocks = split_blocks ten_bytes 2 0

abbrev run : Answers
run = answers 0 writer taker address blocks 2

-- The blocks of ten bytes: the second one is filled up.
blocks_of_ten :
    blocks ≡ (1 ∷ 2 ∷ 3 ∷ 4 ∷ 5 ∷ 6 ∷ 7 ∷ 8 ∷ []) ∷ (9 ∷ 10 ∷ 0 ∷ 0 ∷ 0 ∷ 0 ∷ 0 ∷ 0 ∷ []) ∷ []
unfolding split_blocks
blocks_of_ten = refl

set_block_delivers_example :
    let o = set_block reliable 2 address ten_bytes (gaps_of 0 run) writer in
    (o.result ≡ true)
    × (o.sent
        ≡ requested writer 2 address 2
          ++ (transferred writer 2 blocks ++ (asked writer 2 ++ aborted writer 2)))
    × (o.manager.pending ≡ no_pending)
    × (all_calls 1 run ≡ (ten_bytes ++ replicate 6 0) ∷ [])
set_block_delivers_example =
    set_block_delivers writer taker takes_all 0 address ten_bytes (omega arith) (omega arith) refl
      refl (omega arith) (omega arith) refl

set_block-true_example : IsConfirmed 2 2 (gaps_of 0 run)
set_block-true_example =
    set_block-true reliable 2 address ten_bytes (gaps_of 0 run) writer set_block_delivers_example.0

-- The node with the blocks, and the STATUS_REQUEST for them.
abbrev status_request : CanTsHeader
status_request = request_header writer 2 SetBlockFrameType.status_request 0

abbrev status_frame : CanFrame
status_frame = make_frame status_request [] 0

on_frame-calls_example :
    CallsComplete run.to_transfers.0 status_request 1
      (on_frame run.to_transfers.0 5 status_request status_frame).1
on_frame-calls_example = on_frame-calls run.to_transfers.0 5 status_request status_frame 1

abbrev taken_session : Session
taken_session = record {
  peer = 1;
  channel = 0;
  address = address;
  num_blocks = 1;
  blocks = (7 ∷ []) ∷ [];
  last_activity = 0;
  prepared = true;
  done = true;
  accepted = true;
}

abbrev taken_node : SetBlockManager
taken_node = record taker { sessions = store (λ _. none) 1 (some taken_session) }

-- The status is asked for again, twice.
abbrev asked_once : Arrival
asked_once = record { now = 9; header = status_request; frame = status_frame }

abbrev asked_again : List Arrival
asked_again = asked_once ∷ asked_once ∷ []

asked_begins_nothing : none_begins_again 1 asked_again ≡ true
unfolding get_set_block_type make_set_block_command
asked_begins_nothing = refl

-- The blocks have come and the data is not yet taken.
abbrev whole_session : Session
whole_session = record taken_session { done = false }

abbrev whole_node : SetBlockManager
whole_node = record taker { sessions = store (λ _. none) 1 (some whole_session) }

whole_is_called : calls_from 1 (on_frame whole_node 9 status_request status_frame).1 ≡ (7 ∷ []) ∷ []
unfolding on_frame dispatch on_status_request report_status hand_over assembled_data
    all_blocks_received report get_set_block_type make_set_block_command
whole_is_called = refl

on_frames-taken_once_example :
    calls_from 1 (on_frames whole_node (asked_once ∷ asked_again)).1 ≡ (7 ∷ []) ∷ []
on_frames-taken_once_example =
    on_frames-taken_once 1 whole_node takes_all asked_once asked_again (7 ∷ []) refl whole_is_called
      refl asked_begins_nothing

-- A bus on which node 1 begins a write while node 3 asks for a status.
abbrev mixed : List Arrival
mixed = arrivals 9 (requested writer 2 address 2 ++ asked (new 3) 2)

on_frames-AreSessions_example : AreSessions (on_frames taker mixed).0
on_frames-AreSessions_example = on_frames-AreSessions taker mixed (new-AreSessions 2)

on_frame_isolates_example :
    ((on_frame taken_node 5
          (request_header (new 3) 2 SetBlockFrameType.request 4)
          status_frame).0.sessions
        1
      ≡ some taken_session)
    × (calls_from 1
          (on_frame taken_node 5
            (request_header (new 3) 2 SetBlockFrameType.request 4)
            status_frame).1
        ≡ [])
on_frame_isolates_example =
    on_frame_isolates taken_node 5 (request_header (new 3) 2 SetBlockFrameType.request 4)
      status_frame 1 (λ e. absurd (omega (arith, e)))

concat-split_blocks_example :
    concat_blocks (split_blocks ten_bytes 2 0) ≡ ten_bytes ++ replicate 6 0
concat-split_blocks_example = concat-split_blocks ten_bytes
