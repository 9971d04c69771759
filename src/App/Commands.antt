-- ===== src/App/Commands.antt =====
-- The commands of the console program (src/app/Cli.cpp): `executeSendCommand` and the function of each
-- command.
pub mod Telecommand
use cannect.Base.{
  ℕ, Bool, true, false, if◌then◌else◌, Option, none, some, List, [], ◌∷◌, ◌++◌, length, drop,
}
use cannect.Dispatcher.{same_name}
use cannect.SetBlock.Sender as SetBlock
use cannect.GetBlock.Requester as GetBlock
use cannect.Protocol.State.{Effect, CanTsProtocol}
use cannect.Protocol.Calls.{
  Incoming, Outcome, send_telecommand, request_telemetry, send_unsolicited_telemetry,
  broadcast_time_sync, set_block, get_block, get_last_telemetry, get_last_get_block_data,
  send_keep_alive,
}
use cannect.App.Text.{Text, codes, Result, ok, err, runtime_error, and_then}
use cannect.App.Printing.{dec, print_hex_bytes, print_address}
use cannect.App.Handlers.{newline}
use cannect.App.Reader.{
  ArgReader, M, ◌>>=◌, pure, default_timeout_ms, next, next_u8, read_frame,
  read_vector_until_timeout, read_address4, read_optional_timeout,
}

-- What the interface thread does while a command waits for its answer.
pub record Meanwhile : Type 0 where
  pub arrivals : List Incoming
  pub until_written : SetBlock.Gaps
  pub until_read : GetBlock.Gaps

-- What a command does: the protocol after it, what it gave to the transmitter, what the interface
-- thread did, what it printed, and what it returns.
pub record Ran : Type 0 where
  pub protocol : CanTsProtocol
  pub sent : List Effect
  pub answers : List Effect
  pub output : Text
  pub done : Bool

abbrev pub verdict : Bool → Text
verdict done = (if done then codes "OK" else codes "FAIL") ++ newline

-- A call that waits, with the text that the command prints around it.
abbrev pub ran_call : Outcome → Text → Ran
ran_call o output = record {
  protocol = o.protocol;
  sent = o.sent;
  answers = o.answers;
  output = output;
  done = o.result;
}

-- A call that only sends.
abbrev pub ran_send : CanTsProtocol → Bool × List Effect → Text → Ran
ran_send p s output = record { protocol = p; sent = s.1; answers = []; output = output; done = s.0 }

abbrev pub to_node : Text → ℕ → ℕ → Text
to_node label to channel = label ++ (codes " -> node " ++ (dec to ++ (codes " ch=" ++ dec channel)))

abbrev pub with_data : List ℕ → Bool → Text
with_data bytes done =
    codes " data=[ " ++ (print_hex_bytes bytes ++ (codes " ] : " ++ verdict done))

unfoldable pub execute_telecommand : Meanwhile → CanTsProtocol → M Ran
execute_telecommand w p = next_u8 >>= λ to. next_u8 >>= λ channel. read_frame >>= λ bytes.
    let o = send_telecommand p to channel bytes w.arrivals in
    pure (ran_call o (to_node (codes "TELECOMMAND") to channel ++ with_data bytes o.result))

-- What is printed of the response, where there is one.
abbrev pub response_text : Option (List ℕ × ℕ) → Text
response_text none = []
response_text (some (bytes, dlc)) =
    codes "  response ("
    ++ (dec dlc ++ (codes " bytes): [ " ++ (print_hex_bytes bytes ++ (codes " ]" ++ newline))))

unfoldable pub execute_telemetry : Meanwhile → CanTsProtocol → M Ran
execute_telemetry w p = next_u8 >>= λ to. next_u8 >>= λ channel.
    let o = request_telemetry p to channel w.arrivals in
    let response = if o.result then response_text (get_last_telemetry o.protocol) else [] in
    pure (
      ran_call o (
        to_node (codes "TELEMETRY REQUEST") to channel
        ++ (codes " : " ++ (verdict o.result ++ response))))

unfoldable pub execute_unsolicited : CanTsProtocol → M Ran
execute_unsolicited p = next_u8 >>= λ to. next_u8 >>= λ channel. read_frame >>= λ bytes.
    let s = send_unsolicited_telemetry p to channel bytes in
    pure (ran_send p s (to_node (codes "UNSOLICITED TELEMETRY") to channel ++ with_data bytes s.0))

unfoldable pub execute_time_sync : CanTsProtocol → M Ran
execute_time_sync p = read_frame >>= λ bytes.
    let s = broadcast_time_sync p bytes in
    pure (ran_send p s (codes "TIMESYNC broadcast" ++ with_data bytes s.0))

abbrev pub at_address : Text → ℕ → List ℕ → Text
at_address label to address =
    label ++ (codes " -> node " ++ (dec to ++ (codes " addr=" ++ print_address address)))

-- The timeout that was read is in the reader; how long `setBlock` waits is left open.
unfoldable pub execute_set_block : Meanwhile → CanTsProtocol → M Ran
execute_set_block w p = next_u8 >>= λ to. read_address4 >>= λ address.
    read_vector_until_timeout >>= λ bytes. read_optional_timeout >>= λ _.
    let o = set_block p to address bytes w.until_written in
    pure (
      ran_call o (
        at_address (codes "SETBLOCK") to address
        ++ (codes " size="
            ++ (dec (length bytes)
                ++ (codes " ..." ++ (newline ++ (codes "SETBLOCK : " ++ verdict o.result)))))))

abbrev pub received_text : Bool × Option (List ℕ) → Text
received_text (true, some bytes) =
    codes "  received ("
    ++ (dec (length bytes)
        ++ (codes " bytes): [ " ++ (print_hex_bytes bytes ++ (codes " ]" ++ newline))))
received_text r = []

unfoldable pub execute_get_block : Meanwhile → CanTsProtocol → M Ran
execute_get_block w p = next_u8 >>= λ to. read_address4 >>= λ address.
    read_optional_timeout >>= λ _.
    let o = get_block p to address w.until_read in
    let received = if o.result then received_text (get_last_get_block_data o.protocol) else [] in
    pure (
      ran_call o (
        at_address (codes "GETBLOCK") to address
        ++ (codes " ..." ++ (newline ++ (codes "GETBLOCK : " ++ (verdict o.result ++ received))))))

unfoldable pub execute_keep_alive : CanTsProtocol → M Ran
execute_keep_alive p = next_u8 >>= λ channel. read_frame >>= λ bytes.
    let s = send_keep_alive p channel bytes in
    pure (ran_send p s (codes "KEEPALIVE ch=" ++ (dec channel ++ with_data bytes s.0)))

unfoldable pub by_command : Meanwhile → CanTsProtocol → Text → M Ran
by_command w p command r =
    if same_name command (codes "telecommand")
    then execute_telecommand w p r
    else if same_name command (codes "telemetry")
    then execute_telemetry w p r
    else if same_name command (codes "unsolicited")
    then execute_unsolicited p r
    else if same_name command (codes "timesync")
    then execute_time_sync p r
    else if same_name command (codes "setblock")
    then execute_set_block w p r
    else if same_name command (codes "getblock")
    then execute_get_block w p r
    else if same_name command (codes "keepalive")
    then execute_keep_alive p r
    else err (runtime_error (codes "Unknown send command: " ++ command))

abbrev pub closing : Bool → Text
closing done =
    (if done
      then codes "(connection open -- press Ctrl+C to exit)"
      else codes "(send failed -- press Ctrl+C to exit)")
    ++ newline

abbrev pub with_closing : Ran → Ran
with_closing ran = record ran { output = ran.output ++ closing ran.done }

unfoldable pub command_of : Meanwhile → CanTsProtocol → List Text → Result Ran
command_of w p [] = err (runtime_error (codes "Missing command after --send"))
command_of w p (command ∷ rest) =
    and_then (by_command w p command (record { rest = rest; timeout_ms = default_timeout_ms }))
      λ (ran, r). ok (with_closing ran)

-- `args` are `argv`, and `start_index` is where the command's name stands.
unfoldable pub execute_send_command : Meanwhile → CanTsProtocol → List Text → ℕ → Result Ran
unfolding command_of
execute_send_command w p args start_index = command_of w p (drop start_index args)
