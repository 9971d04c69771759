-- ===== src/Examples/Protocol.antt =====
-- Telecommands and telemetry between nodes 1 and 2 (src/cants/CanTsProtocol.cpp).
use mathlib.Core.List.{Memᴰ}
use cannect.Base.{
  ℕ, ◌≤◌, ◌≡◌, ◌==◌, refl, sym, subst, arith, true, false, some, none, List, [], ◌∷◌, length,
  if◌then◌else◌, ◌⊎◌,
}
use cannect.Types.{CanFrame, success, unsuccess, telemetry, payload}
use cannect.Codec.{CanTsReqAck, decode, encode, make_tc_tm_command, get_tc_tm_kind, get_channel}
use cannect.Wire.{make_frame}
use cannect.Protocol.State.{
  TmHandler, telemetry_call, Transmitter, TcHandler, transmit, telecommand_call, CanTsProtocol, new,
  no_pending, send_frame, note_peer_alive,
}
use cannect.Protocol.Handling.{
  on_frame, is_addressed, handle_telemetry, telemetry_by_kind, finish_telemetry, by_type,
}
use cannect.Protocol.Calls.{
  is_peer_connected, Incoming, on_frames, tc_header, tm_header, send_telecommand, request_telemetry,
  get_last_telemetry,
}
use cannect.Protocol.Routing.{Untouched, on_frame-Untouched}
use cannect.Protocol.Reading.{request_telemetry_answered}
use cannect.Protocol.Peers.{is_peer_connected-on_frame}
use cannect.Protocol.Wire.{transmitted}
use cannect.Protocol.Exchange.{send_telecommand_answered}
use cannect.Protocol.Telecommand.{Acknowledges, send_telecommand-true}
use cannect.Protocol.Telemetry.{Responds, request_telemetry-true}

abbrev takes_frames : Transmitter
takes_frames frame = success

-- The handler takes the commands of channel 7.
abbrev takes_channel_7 : TcHandler
takes_channel_7 from channel request = channel == 7

abbrev sender : CanTsProtocol
sender = record (new 1) { transmitter = some takes_frames }

abbrev answerer : CanTsProtocol
answerer = record (new 2) { transmitter = some takes_frames; tc_handler = some takes_channel_7 }

abbrev eight : List ℕ
eight = 1 ∷ 2 ∷ 3 ∷ 4 ∷ 5 ∷ 6 ∷ 7 ∷ 8 ∷ []

abbrev command_frame : CanFrame
command_frame = make_frame (tc_header sender 2 7) eight 8

abbrev replies : List Incoming
replies = transmitted 0 (on_frame answerer 0 command_frame).effects

send_telecommand_answered_example :
    let o = send_telecommand sender 2 7 eight replies in
    (o.sent ≡ transmit command_frame ∷ [])
    × ((answer : CanFrame) × ((on_frame answerer 0 command_frame).effects
          ≡ telecommand_call 1 7 eight ∷ transmit answer ∷ []))
    × (o.result ≡ true)
    × (o.protocol.pending_tc ≡ no_pending)
send_telecommand_answered_example =
    send_telecommand_answered sender answerer takes_frames takes_frames takes_channel_7 0 7 eight
      (omega arith) (omega arith) (omega arith) refl refl refl refl refl refl

send_telecommand-true_example :
    (sender.pending_tc.waiting ≡ false)
    × ((send_frame sender (tc_header sender 2 7) eight 8).0 ≡ true)
    × ((a : Incoming) × Memᴰ a replies × Acknowledges 1 2 7 a.frame)
send_telecommand-true_example =
    send_telecommand-true sender 2 7 eight replies (send_telecommand_answered_example.2)

-- A telemetry answer of node 2 on channel 7.
abbrev answer_frame : CanFrame
answer_frame =
    make_frame
      (record {
        to = 1;
        from = 2;
        type = telemetry;
        command = make_tc_tm_command CanTsReqAck.ack 7;
      })
      eight 8

abbrev answered : List Incoming
answered = record { now = 4; frame = answer_frame } ∷ []

frames_fit : (a : Incoming) → Memᴰ a answered → a.frame.dlc ≤ length a.frame.bytes
unfolding make_frame
frames_fit a (Memᴰ.head e) =
    let base : 8 ≤ 8 = omega arith in
    subst (λ (x : Incoming). x.frame.dlc ≤ length x.frame.bytes) (sym e) base
frames_fit a (Memᴰ.tail m) = elim m [ ]

telemetry_comes : (request_telemetry sender 2 7 answered).result ≡ true
unfolding request_telemetry on_frames on_frame by_type handle_telemetry telemetry_by_kind
    finish_telemetry note_peer_alive make_frame send_frame decode encode make_tc_tm_command
    get_tc_tm_kind get_channel
telemetry_comes = refl

request_telemetry-true_example :
    (sender.pending_tm.waiting ≡ false)
    × ((send_frame sender (tm_header sender 2 7) [] 0).0 ≡ true)
    × ((a : Incoming) × Memᴰ a answered
        × Responds 1 2 7 a.frame
        × (get_last_telemetry (request_telemetry sender 2 7 answered).protocol
            ≡ (if a.frame.dlc == 0 then none else some (payload a.frame, a.frame.dlc))))
request_telemetry-true_example =
    request_telemetry-true sender 2 7 answered frames_fit telemetry_comes

on_frame-Untouched_example :
    let h = decode command_frame.id in
    let r = on_frame answerer 6 command_frame in
    Untouched h.type (note_peer_alive answerer 6 h.from) r.protocol
    × ((is_addressed answerer h ≡ true) × (r.status ≡ success)
        ⊎ (is_addressed answerer h ≡ false)
          × (r.status ≡ unsuccess)
          × (r.effects ≡ [])
          × (r.protocol ≡ note_peer_alive answerer 6 h.from))
on_frame-Untouched_example = on_frame-Untouched answerer 6 command_frame

-- The handler gives eight bytes on every channel.
abbrev gives_eight : TmHandler
gives_eight from channel = (true, eight)

abbrev teller : CanTsProtocol
teller = record (new 2) { transmitter = some takes_frames; tm_handler = some gives_eight }

abbrev question : CanFrame
question = make_frame (tm_header sender 2 7) [] 0

request_telemetry_answered_example :
    let r = on_frame teller 0 question in
    let o = request_telemetry sender 2 7 (transmitted 0 r.effects) in
    ((answer : CanFrame) × (r.effects ≡ telemetry_call 1 7 ∷ transmit answer ∷ []))
    × (o.result ≡ true)
    × (true ≡ true → get_last_telemetry o.protocol ≡ some (eight, 8))
    × (o.protocol.pending_tm ≡ no_pending)
request_telemetry_answered_example =
    request_telemetry_answered sender teller takes_frames takes_frames gives_eight 0 7 true eight
      (omega arith) (omega arith) (omega arith) refl refl refl refl refl refl refl

-- Half a second after a frame, its sender is connected with a timeout of 600 ms.
is_peer_connected-on_frame_example :
    is_peer_connected (on_frame answerer 1000000 command_frame).protocol 501000000 1 600 ≡ (
      if 1 == (decode command_frame.id).from
      then true
      else is_peer_connected answerer 501000000 1 600)
is_peer_connected-on_frame_example =
    is_peer_connected-on_frame answerer 1000000 501000000 1 600 command_frame
