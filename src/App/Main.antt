-- ===== src/App/Main.antt =====
-- `main` (src/app/main.cpp): it sets up a node, starts it, sends a command or listens, and stops it when
-- a signal comes.
pub mod Ends
pub mod Left
pub mod Sends
use cannect.Base.{
  ℕ, Bool, true, false, not, ◌&&◌, if◌then◌else◌, Option, none, some, List, [], ◌∷◌, ◌++◌,
}
use cannect.Types.{Status, success}
use cannect.SetBlock.Receiver.{is_empty}
use cannect.Dispatcher.{
  Name, Cannect, is_success, cannect_add_interface, cannect_add_handler, cannect_start,
  cannect_start_thrown, cannect_stop, cannect_destroy,
}
use cannect.Dispatcher as Dispatcher
use cannect.Socket.{SocketCanInterface}
use cannect.Protocol.State.{
  Transmitter, CanTsProtocol, set_frame_transmitter, set_telecommand_handler, set_telemetry_handler,
  set_unsolicited_telemetry_handler, set_time_sync_handler, set_get_block_handler,
  set_set_block_handler,
}
use cannect.Protocol.State as Protocol
use cannect.App.Text.{Text, codes, Result, ok, err}
use cannect.App.Options.{Options, parse_options}
use cannect.App.Interface.{create_interface}
use cannect.App.Handlers.{on_telecommand, on_telemetry, on_set_block, on_get_block}
use cannect.App.Commands.{Meanwhile, Ran, execute_send_command}

-- What the program meets: whether a log file opens, whether an interface opens,
-- whether a thread can be made for it, what `send` of the
-- interface answers, and what the interface thread does while a command waits.
pub record World : Type 0 where
  pub file_opens : Text → Bool
  pub opens : Name → Bool
  pub spawns : Name → Bool
  pub transmitter : Transmitter
  pub meanwhile : Meanwhile

-- How `main` ends: what it returns; the `Cannect` after its destructor, if it was made; and what the
-- command did, if one was sent.
pub record Exit : Type 0 where
  pub code : ℕ
  pub app : Option Cannect
  pub ran : Option Ran

-- Before `Cannect` is made.
abbrev pub early : ℕ → Exit
early code = record { code = code; app = none; ran = none }

-- The destructors stop it, whether `main` returns or an exception leaves the block.
abbrev pub leaves : ℕ → Cannect → Option Ran → Exit
leaves code app ran = record { code = code; app = some (cannect_destroy app); ran = ran }

-- The node with its handlers and the interface that it sends through.
unfoldable pub node_of : Transmitter → ℕ → CanTsProtocol
unfolding set_frame_transmitter
node_of tx local_node =
    (set_frame_transmitter (some tx) (
      set_get_block_handler (some on_get_block) (
        set_set_block_handler (some on_set_block) (
          set_time_sync_handler true (
            set_unsolicited_telemetry_handler true (
              set_telemetry_handler (some on_telemetry)
                (set_telecommand_handler (some on_telecommand) (Protocol.new local_node)))))))).1

abbrev pub fresh : Cannect
fresh = record { dispatcher = Dispatcher.new; started = false }

-- `waitSignal` stops it when the signal comes, and `main` stops it again.
abbrev pub waits : Cannect → Cannect
waits app = cannect_stop (cannect_stop app)

abbrev pub finish : Cannect → Result Ran → Exit
finish app (err e) = leaves 1 app none
finish app (ok ran) = leaves 0 (waits app) (some ran)

-- Behind `app.start()`.
unfoldable pub run_running : World → List Text → Options → CanTsProtocol → Cannect → Exit
run_running w args o p started =
    if o.has_send_command
    then elim o.send_arg_index [
      | none ↦ leaves 1 started none
      | some index ↦ finish started (execute_send_command w.meanwhile p args index)
    ]
    else leaves 0 (waits started) none

-- From `app.start()` on, which may throw.
unfoldable pub run_started : World → List Text → Options → CanTsProtocol → Cannect → Exit
unfolding run_running
run_started w args o p app = elim (cannect_start_thrown w.opens w.spawns app) [
  | some thrown ↦ leaves 1 thrown none
  | none ↦ run_running w args o p (cannect_start w.opens app).1
]

-- From `Cannect app` on. The protocol is receiver 0.
unfoldable pub run_app : World → List Text → Options → SocketCanInterface → Exit
run_app w args o iface =
    let added = cannect_add_interface iface.name fresh in
    let handled = cannect_add_handler iface.name (some 0) added.1 in
    if not (is_success added.0)
    then leaves 1 added.1 none
    else if not (is_success handled.0)
    then leaves 1 handled.1 none
    else run_started w args o (node_of w.transmitter o.local_node) handled.1

abbrev pub with_interface : World → List Text → Options → Result SocketCanInterface → Exit
with_interface w args o (err e) = early 1
with_interface w args o (ok iface) = run_app w args o iface

-- Behind `parseOptions`. `FileSink` throws where its file does not open.
unfoldable pub run_options : World → List Text → Options → Exit
run_options w args o =
    if o.show_help
    then early 0
    else if is_empty o.iface_spec
    then early 1
    else if not (is_empty o.output_file) && not (w.file_opens o.output_file)
    then early 1
    else with_interface w args o (create_interface o.iface_spec)

abbrev pub with_options : World → List Text → Result Options → Exit
with_options w args (err e) = early 1
with_options w args (ok o) = run_options w args o

unfoldable pub main : World → List Text → Exit
main w args = with_options w args (parse_options args)
