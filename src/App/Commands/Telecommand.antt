-- ===== src/App/Commands/Telecommand.antt =====
-- The command `telecommand` from the arguments of the console program to the handler of the peer
-- (src/app/Cli.cpp over src/cants/CanTsProtocol.cpp).
use cannect.Base.{
  ℕ, ◌≤◌, ◌<◌, ◌≡◌, refl, ◌∙◌, ap, arith, true, false, some, List, [], ◌∷◌, ◌++◌, length,
  length-append, length-take, length-drop, take, drop,
}
use cannect.Types.{CanFrame, success}
use cannect.Wire.{make_frame}
use cannect.Dispatcher.{same_name}
use cannect.Protocol.State.{
  Transmitter, TcHandler, transmit, telecommand_call, CanTsProtocol, no_pending, zeros, copy_over,
}
use cannect.Protocol.Handling.{on_frame}
use cannect.Protocol.Calls.{send_telecommand, tc_header}
use cannect.Protocol.Wire.{transmitted}
use cannect.Protocol.Exchange.{send_telecommand_answered}
use cannect.App.Text.{Text, codes, ok, and_then}
use cannect.App.Numbers.{parse_u8}
use cannect.App.Reader.{next_u8-reads, ◌>>=◌, at_option, default_timeout_ms}
use cannect.App.Reader.Bytes.{Spells, read_frame-Spells}
use cannect.App.Commands.{
  Meanwhile, Ran, ran_call, to_node, with_data, with_closing, execute_telecommand, by_command,
  command_of, execute_send_command,
}

-- The bytes followed by zeros up to eight.
abbrev pub filled : List ℕ → List ℕ
filled bytes = copy_over zeros bytes (length bytes)

length-filled : (bytes : List ℕ) → length bytes ≤ 8 → length (filled bytes) ≡ 8
length-filled bytes h = omega (
  arith,
  length-append (take (length bytes) bytes) (drop (length bytes) zeros),
  length-take (length bytes) bytes,
  length-drop (length bytes) zeros,
)

abbrev telecommand_ran : Meanwhile → CanTsProtocol → ℕ → ℕ → List ℕ → Ran
telecommand_ran w p to channel bytes =
    let o = send_telecommand p to channel bytes w.arrivals in
    ran_call o (to_node (codes "TELECOMMAND") to channel ++ with_data bytes o.result)

execute_telecommand-reads :
    (w : Meanwhile) (p : CanTsProtocol) (arg_to arg_channel : Text) (args rest : List Text)
    (to channel t : ℕ) (bytes : List ℕ)
    → parse_u8 arg_to ≡ ok to
    → parse_u8 arg_channel ≡ ok channel
    → Spells args bytes
    → length bytes ≤ 8
    → at_option rest ≡ true
    → execute_telecommand w p
        (record { rest = arg_to ∷ arg_channel ∷ (args ++ rest); timeout_ms = t })
      ≡ ok (telecommand_ran w p to channel (filled bytes), record { rest = rest; timeout_ms = t })
unfolding execute_telecommand
execute_telecommand-reads w p arg_to arg_channel args rest to channel t bytes ht hc s fits ends =
    rw (next_u8-reads arg_to (arg_channel ∷ (args ++ rest)) t ht, ◌>>=◌)
      (rw (next_u8-reads arg_channel (args ++ rest) t hc, ◌>>=◌)
        (rw (read_frame-Spells args rest bytes t s fits ends, ◌>>=◌)))

command_of-telecommand :
    (w : Meanwhile) (p : CanTsProtocol) (args : List Text)
    → command_of w p (codes "telecommand" ∷ args)
      ≡ and_then
          (execute_telecommand w p (record { rest = args; timeout_ms = default_timeout_ms }))
          (λ r. ok (with_closing r.0))
unfolding command_of by_command same_name
command_of-telecommand w p args = refl

execute_telecommand-ran :
    (w : Meanwhile) (p : CanTsProtocol) (args rest values : List Text) (arg_to arg_channel : Text)
    (start_index to channel : ℕ) (bytes : List ℕ)
    → drop start_index args ≡ codes "telecommand" ∷ arg_to ∷ arg_channel ∷ (values ++ rest)
    → parse_u8 arg_to ≡ ok to
    → parse_u8 arg_channel ≡ ok channel
    → Spells values bytes
    → length bytes ≤ 8
    → at_option rest ≡ true
    → execute_send_command w p args start_index
      ≡ ok (with_closing (telecommand_ran w p to channel (filled bytes)))
unfolding execute_send_command
execute_telecommand-ran w p args rest values arg_to arg_channel start_index to channel bytes line ht
      hc s fits ends =
    ap (command_of w p) line
    ∙ command_of-telecommand w p (arg_to ∷ arg_channel ∷ (values ++ rest))
    ∙ ap (λ r. and_then r (λ x. ok (with_closing x.0)))
        (execute_telecommand-reads w p arg_to arg_channel values rest to channel default_timeout_ms
          bytes ht hc s fits ends)

-- `--send telecommand` with a node, a channel and at most eight numbers, then nothing or an option, at
-- a node with a working transmitter and no telecommand pending: the peer's handler is called once, with
-- the sender's address, the channel and the bytes followed by zeros up to eight, and the command
-- succeeds exactly when the handler takes them. Nothing is pending after it.
pub telecommand_answered :
    (w : Meanwhile) (p q : CanTsProtocol) (tx ty : Transmitter) (f : TcHandler)
    (args rest values : List Text) (arg_to arg_channel : Text) (start_index channel now : ℕ)
    (bytes : List ℕ)
    → drop start_index args ≡ codes "telecommand" ∷ arg_to ∷ arg_channel ∷ (values ++ rest)
    → parse_u8 arg_to ≡ ok q.local_address
    → parse_u8 arg_channel ≡ ok channel
    → Spells values bytes
    → length bytes ≤ 8
    → at_option rest ≡ true
    → p.local_address < 256
    → q.local_address < 256
    → channel < 256
    → p.pending_tc.waiting ≡ false
    → p.transmitter ≡ some tx
    → q.transmitter ≡ some ty
    → q.tc_handler ≡ some f
    → tx (make_frame (tc_header p q.local_address channel) (filled bytes) 8) ≡ success
    → let sent = make_frame (tc_header p q.local_address channel) (filled bytes) 8 in
      let r = on_frame q now sent in
      let w' = record w { arrivals = transmitted now r.effects } in
      (ran : Ran) × (execute_send_command w' p args start_index ≡ ok ran)
      × (ran.sent ≡ transmit sent ∷ [])
      × ((answer : CanFrame) × (r.effects
            ≡ telecommand_call p.local_address channel (filled bytes) ∷ transmit answer ∷ []))
      × (ran.done ≡ f p.local_address channel (filled bytes))
      × (ran.protocol.pending_tc ≡ no_pending)
telecommand_answered w p q tx ty f args rest values arg_to arg_channel start_index channel now bytes
      line ht hc s fits ends hp hq hch idle t u set taken =
    let (sends, calls, answer, none_left) =
      send_telecommand_answered p q tx ty f now channel (filled bytes) hp hq hch
        (length-filled bytes fits) idle t u set taken in
    let sent = make_frame (tc_header p q.local_address channel) (filled bytes) 8 in
    let w' = record w { arrivals = transmitted now (on_frame q now sent).effects } in
    (
      with_closing (telecommand_ran w' p q.local_address channel (filled bytes)),
      execute_telecommand-ran w' p args rest values arg_to arg_channel start_index q.local_address
          channel bytes line ht hc s fits ends,
      sends,
      calls,
      answer,
      none_left,
    )
