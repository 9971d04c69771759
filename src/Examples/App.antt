-- ===== src/Examples/App.antt =====
-- The console program from its arguments to the handler of another node (src/app).
use cannect.Base.{ℕ, ◌≡◌, refl, Bool, arith, true, false, some, List, [], ◌∷◌}
use cannect.Types.{CanFrame, success, getblock}
use cannect.Wire.{make_frame}
use cannect.Codec.{GetBlockFrameType, make_get_block_command}
use cannect.GetBlock.Requester.{on_frames}
use cannect.SetBlock.Sender.{Arrival}
use cannect.Protocol.State.{Transmitter, transmit, telecommand_call, CanTsProtocol, no_pending, new}
use cannect.Protocol.Handling.{on_frame}
use cannect.Protocol.Calls.{tc_header}
use cannect.Protocol.Wire.{transmitted}
use cannect.App.Text.{Text, codes, ok}
use cannect.App.Numbers.{stoul, parse_u8}
use cannect.App.Options.Spelled.{Setting, iface, node, spelled_all, sends, ending_args}
use cannect.App.Handlers.{on_telecommand}
use cannect.App.Handlers.Reads.{ProvidesNothing, AreRefusals, on_frames-Refused}
use cannect.App.Reader.Bytes.{Spells}
use cannect.App.Commands.{Meanwhile, Ran, command_of, execute_send_command}
use cannect.App.Commands.Telecommand.{filled, telecommand_answered}
use cannect.App.Main.{World, node_of, main}
use cannect.App.Main.Ends.{EndsWell, main-EndsWell}
use cannect.App.Main.Left.{stopped_app, console_node, exit_by}
use cannect.App.Main.Sends.{main-sends}

abbrev takes_frames : Transmitter
takes_frames frame = success

abbrev nothing_comes : Meanwhile
nothing_comes = record {
  arrivals = [];
  until_written = record { until_acked = []; until_armed = []; until_reported = [] };
  until_read = record { until_acked = []; until_done = [] };
}

abbrev opens_all : List ℕ → Bool
opens_all name = true

abbrev world : World
world = record {
  file_opens = opens_all;
  opens = opens_all;
  spawns = opens_all;
  transmitter = takes_frames;
  meanwhile = nothing_comes;
}

-- The node that sends, and the one of another run of the program.
abbrev sender : CanTsProtocol
sender = record (new 65) { transmitter = some takes_frames }

abbrev console : CanTsProtocol
console = record (new 2) { transmitter = some takes_frames; tc_handler = some on_telecommand }

abbrev values : List Text
values = codes "1" ∷ codes "0x20" ∷ codes "3" ∷ []

abbrev command_line : List Text
command_line = codes "cannect" ∷ codes "-s" ∷ codes "telecommand" ∷ codes "2" ∷ codes "7" ∷ values

values-Spells : Spells values (1 ∷ 0x20 ∷ 3 ∷ [])
unfolding parse_u8 stoul
values-Spells = (refl, refl, (refl, refl, (refl, refl, tt)))

two : parse_u8 (codes "2") ≡ ok 2
unfolding parse_u8 stoul
two = refl

seven : parse_u8 (codes "7") ≡ ok 7
unfolding parse_u8 stoul
seven = refl

abbrev command_frame : CanFrame
command_frame = make_frame (tc_header sender 2 7) (filled (1 ∷ 0x20 ∷ 3 ∷ [])) 8

telecommand_answered_example :
    let r = on_frame console 0 command_frame in
    let w = record nothing_comes { arrivals = transmitted 0 r.effects } in
    (ran : Ran) × (execute_send_command w sender command_line 2 ≡ ok ran)
    × (ran.sent ≡ transmit command_frame ∷ [])
    × ((answer : CanFrame) × (r.effects
          ≡ telecommand_call 65 7 (filled (1 ∷ 0x20 ∷ 3 ∷ [])) ∷ transmit answer ∷ []))
    × (ran.done ≡ true)
    × (ran.protocol.pending_tc ≡ no_pending)
telecommand_answered_example =
    telecommand_answered nothing_comes sender console takes_frames takes_frames on_telecommand
      command_line [] values (codes "2") (codes "7") 2 7 0 (1 ∷ 0x20 ∷ 3 ∷ []) refl two seven
      values-Spells (omega arith) refl (omega arith) (omega arith) (omega arith) refl refl refl refl
      refl

abbrev settings : List Setting
settings = iface true (codes "socketcan:can0") ∷ node false (codes "7") 7 ∷ []

abbrev arguments : List Text
arguments = codes "cannect" ∷ spelled_all settings (ending_args (sends false (codes "timesync") []))

main-sends_example :
    main world arguments
    ≡ exit_by
        (stopped_app opens_all (codes "can0"))
        (command_of nothing_comes (console_node takes_frames 7) (codes "timesync" ∷ []))
main-sends_example =
    main-sends world (codes "cannect") settings false (codes "timesync") [] (codes "can0")
      (tt, (seven, tt)) refl refl refl refl

main-EndsWell_example : EndsWell (main world arguments)
main-EndsWell_example = main-EndsWell world arguments

-- A REQUEST of one block and an ABORT from node 9.
abbrev reads : List Arrival
reads =
    record {
      now = 5;
      header = record {
        to = 2;
        from = 9;
        type = getblock;
        command = make_get_block_command GetBlockFrameType.request 0;
      };
      frame = record { id = 0; dlc = 4; bytes = 1 ∷ 2 ∷ 3 ∷ 4 ∷ 0 ∷ 0 ∷ 0 ∷ 0 ∷ [] };
    }
    ∷ []

console_manager : ProvidesNothing (node_of takes_frames 2).get_block_mgr
unfolding node_of
console_manager = record { console = refl; unknown = λ peer. refl }

on_frames-Refused_example :
    ProvidesNothing (on_frames (node_of takes_frames 2).get_block_mgr reads).0
    × AreRefusals (on_frames (node_of takes_frames 2).get_block_mgr reads).1
on_frames-Refused_example =
    on_frames-Refused (node_of takes_frames 2).get_block_mgr reads console_manager
