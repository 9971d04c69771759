-- ===== src/Examples/Writing.antt =====
-- Block writes and reads between nodes 1 and 2 over the frames of both (src/cants/CanTsProtocol.cpp).
use cannect.Base.{ℕ, ◌≡◌, refl, arith, true, some, List, [], ◌∷◌, ◌++◌, replicate}
use cannect.Types.{CanFrame, success}
use cannect.SetBlock.State as SetBlock
use cannect.SetBlock.Sender as Sender
use cannect.GetBlock.Requester as Requester
use cannect.SetBlock.Answers as Writes
use cannect.GetBlock.State as GetBlock
use cannect.GetBlock.Answers.{requested, started_frames}
use cannect.Protocol.State.{
  Transmitter, transmit, get_block_call, CanTsProtocol, new, set_set_block_handler,
  set_get_block_handler,
}
use cannect.Protocol.Calls.{Incoming, on_frames, set_block, get_block, get_last_get_block_data}
use cannect.Protocol.Wire.{transmitted}
use cannect.Protocol.Blocks.{as_frames, block_calls}
use cannect.Protocol.Heard.{is_set_block, is_get_block, heard}
use cannect.Protocol.Hearing.{on_frames-heard}
use cannect.Protocol.Parts.{Run, run, gaps_at, write_address, read_address, IsWorking}
use cannect.Protocol.BlockReads as Reads
use cannect.Protocol.BlockReads.Parts.{ReadRun, read_run, read_gaps}
use cannect.Protocol.BlockReads.Answered.{get_block_answered}
use cannect.Protocol.Writing.{set_block_answered}

abbrev takes_frames : Transmitter
takes_frames frame = success

abbrev takes_all : SetBlock.Handler
takes_all from channel request = true

abbrev writer : CanTsProtocol
writer = record (new 1) { transmitter = some takes_frames }

abbrev taker : CanTsProtocol
taker = record (set_set_block_handler (some takes_all) (new 2)) { transmitter = some takes_frames }

writer-IsWorking : IsWorking write_address writer
writer-IsWorking = record {
  fits = omega arith;
  same_address = refl;
  transmitter = takes_frames;
  is_set = refl;
  takes = λ frame. refl;
}

taker-IsWorking : IsWorking write_address taker
taker-IsWorking = record {
  fits = omega arith;
  same_address = refl;
  transmitter = takes_frames;
  is_set = refl;
  takes = λ frame. refl;
}

abbrev address : List ℕ
address = 0x10 ∷ 0x20 ∷ []

-- Ten bytes: two blocks.
abbrev ten_bytes : List ℕ
ten_bytes = 1 ∷ 2 ∷ 3 ∷ 4 ∷ 5 ∷ 6 ∷ 7 ∷ 8 ∷ 9 ∷ 10 ∷ []

abbrev exchange : Run
exchange = run 0 writer taker 2 address ten_bytes

abbrev mgr : SetBlock.SetBlockManager
mgr = writer.set_block_mgr

set_block_answered_example :
    let o = set_block writer 2 address ten_bytes (gaps_at 0 writer exchange) in
    (o.result ≡ true)
    × (o.sent
        ≡ as_frames (
            Writes.requested mgr 2 address 2
            ++ (Writes.transferred mgr 2 (Sender.split_blocks ten_bytes 2 0)
                ++ (Writes.asked mgr 2 ++ Writes.aborted mgr 2))))
    × (o.protocol.set_block_mgr.pending ≡ SetBlock.no_pending)
    × (block_calls 1
          ((exchange.to_request).1 ++ ((exchange.to_transfers).1 ++ (exchange.to_status).1))
        ≡ (ten_bytes ++ replicate 6 0) ∷ [])
set_block_answered_example =
    set_block_answered writer taker takes_all 0 address ten_bytes writer-IsWorking taker-IsWorking
      refl refl (omega arith) (omega arith) refl

-- The REQUEST and the TRANSFERs come to node 2.
abbrev arrived : List Incoming
arrived = transmitted 3 (
    as_frames (
      Writes.requested mgr 2 address 2
      ++ Writes.transferred mgr 2 (Sender.split_blocks ten_bytes 2 0)))

on_frames-heard_example :
    ((on_frames taker arrived).0.set_block_mgr
      ≡ (Sender.on_frames taker.set_block_mgr (heard is_set_block 2 arrived)).0)
    × ((on_frames taker arrived).0.get_block_mgr
        ≡ (Requester.on_frames taker.get_block_mgr (heard is_get_block 2 arrived)).0)
on_frames-heard_example = on_frames-heard taker arrived

-- Node 2 gives 512 bytes for any address.
abbrev sevens : List ℕ
sevens = replicate 512 7

abbrev gives_sevens : GetBlock.Handler
gives_sevens from channel = (true, sevens)

abbrev giver : CanTsProtocol
giver = record (set_get_block_handler (some gives_sevens) (new 2)) {
  transmitter = some takes_frames;
}

reader-IsWorking : IsWorking read_address writer
reader-IsWorking = record {
  fits = omega arith;
  same_address = refl;
  transmitter = takes_frames;
  is_set = refl;
  takes = λ frame. refl;
}

giver-IsWorking : IsWorking read_address giver
giver-IsWorking = record {
  fits = omega arith;
  same_address = refl;
  transmitter = takes_frames;
  is_set = refl;
  takes = λ frame. refl;
}

abbrev reading : ReadRun
reading = read_run 0 giver 1 2 address

get_block_answered_example :
    let o = get_block writer 2 address (read_gaps 0 writer reading) in
    (o.result ≡ true)
    × (get_last_get_block_data o.protocol ≡ (true, some sevens))
    × (o.sent ≡ Reads.as_frames (requested 1 2 address ++ started_frames 1 2))
    × (o.protocol.get_block_mgr.pending ≡ GetBlock.no_pending)
    × ((answer : CanFrame) × ((reading.to_request).1 ≡ get_block_call 1 0 ∷ transmit answer ∷ []))
get_block_answered_example =
    get_block_answered writer giver gives_sevens 0 address sevens reader-IsWorking giver-IsWorking
      refl refl refl refl
