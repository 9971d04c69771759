-- ===== src/App/Main/Sends.antt =====
-- A command line with --send, from `main` (src/app/main.cpp) to the command.
use cannect.Base.{
  ℕ, suc, ◌+◌, ◌≡◌, refl, ◌∙◌, ap, arith, Bool, true, false, not, ◌&&◌, if◌then◌else◌, if_false,
  Bool-cases, inl, inr, Option, none, some, List, [], ◌∷◌, ◌++◌, drop,
}
use native.Mathlib.Nat.{add_assoc}
use cannect.Types.{Status, success}
use cannect.SetBlock.Receiver.{is_empty}
use cannect.Dispatcher.{
  Name, DispatcherEntry, Cannect, find_entry, change_entry, add_interface, add_to, add_receiver,
  is_success, cannect_add_interface, cannect_add_handler, start, cannect_start,
  cannect_start_thrown, start_thrown, thrown_at,
}
use cannect.Dispatcher.Names.{same_name_refl}
use cannect.Socket as Socket
use cannect.Protocol.State.{CanTsProtocol}
use cannect.App.Text.{Text, codes}
use cannect.App.Options.{Options, defaults}
use cannect.App.Options.Spelled.{
  Setting, iface, output, node, help, spelled, spelled_all, applied_all, AreRead, width, widths,
  sends, ended, ending_args, parse_options-spelled,
}
use cannect.App.Interface.Split.{create_interface_iff}
use cannect.App.Commands.{command_of, execute_send_command}
use cannect.App.Main.Left.{
  new_entry, running_app, stopped_app, console_node, exit_by, node_of-console_node, finish-exit_by,
}
use cannect.App.Main.{
  World, Exit, leaves, fresh as new_app, node_of, finish, run_running, run_started, run_app,
  with_interface, run_options, with_options, main,
}

drop-one : (a : Text) (rest : List Text) (k : ℕ) → drop (1 + k) (a ∷ rest) ≡ drop k rest
drop-one a rest k = let e : 1 + k ≡ suc k = omega arith in ap (λ n. drop n (a ∷ rest)) e

drop-two : (a b : Text) (rest : List Text) (k : ℕ) → drop (2 + k) (a ∷ b ∷ rest) ≡ drop k rest
drop-two a b rest k = let e : 2 + k ≡ suc (suc k) = omega arith in ap (λ n. drop n (a ∷ b ∷ rest)) e

drop-spelled :
    (s : Setting) (k : ℕ) (rest : List Text) → drop (width s + k) (spelled s rest) ≡ drop k rest
drop-spelled (iface long spec) k rest = drop-two _ spec rest k
drop-spelled (output long file) k rest = drop-two _ file rest k
drop-spelled (node long arg n) k rest = drop-two _ arg rest k
drop-spelled (help long) k rest = drop-one _ rest k

drop-spelled_all :
    (settings : List Setting) (k : ℕ) (rest : List Text)
    → drop (widths settings + k) (spelled_all settings rest) ≡ drop k rest
drop-spelled_all [] k rest = ap (λ n. drop n rest) (omega arith)
drop-spelled_all (s ∷ settings) k rest =
    ap (λ n. drop n (spelled s (spelled_all settings rest)))
      (add_assoc (width s) (widths settings) k)
    ∙ drop-spelled s (widths settings + k) (spelled_all settings rest)
    ∙ drop-spelled_all settings k rest

idle_app : DispatcherEntry → Cannect
idle_app e = record {
  dispatcher = record { entries = e ∷ []; is_running = false };
  started = false;
}

handler_added :
    (name : Name)
    → cannect_add_handler name (some 0) (idle_app (new_entry name []))
      ≡ (success, idle_app (new_entry name (0 ∷ [])))
unfolding idle_app add_receiver add_to find_entry change_entry
handler_added name = ground (arith, same_name_refl name)

interface_added :
    (name : Name) → cannect_add_interface name new_app ≡ (success, idle_app (new_entry name []))
unfolding idle_app add_interface find_entry
interface_added name = refl

run_app_lem :
    (w : World) (args : List Text) (o : Options) (name : Name)
    → run_app w args o (Socket.new name)
      ≡ run_started w args o
          (node_of w.transmitter o.local_node)
          (idle_app (new_entry name (0 ∷ [])))
unfolding run_app
run_app_lem w args o name =
    let P = λ (a : Status × Cannect) (h : Status × Cannect).
      if not (is_success a.0)
      then leaves 1 a.1 none
      else if not (is_success h.0)
      then leaves 1 h.1 none
      else run_started w args o (node_of w.transmitter o.local_node) h.1 in
    ap (λ a. P a (cannect_add_handler name (some 0) a.1)) (interface_added name)
    ∙ ap (P (success, idle_app (new_entry name []))) (handler_added name)

started_lem :
    (opens : Name → Bool) (name : Name)
    → (cannect_start opens (idle_app (new_entry name (0 ∷ [])))).1 ≡ running_app opens name
unfolding cannect_start start idle_app
started_lem opens name = refl

not_thrown :
    (opens spawns : Name → Bool) (name : Name)
    → spawns name ≡ true
    → cannect_start_thrown opens spawns (idle_app (new_entry name (0 ∷ []))) ≡ none
unfolding cannect_start_thrown start_thrown thrown_at idle_app
not_thrown opens spawns name e = elim (Bool-cases (opens name)) [
  | inl on ↦ rw (on, e) refl
  | inr off ↦ rw off refl
]

run_running-sends :
    (w : World) (args : List Text) (o : Options) (p : CanTsProtocol) (c : Cannect) (index : ℕ)
    → o.has_send_command ≡ true
    → o.send_arg_index ≡ some index
    → run_running w args o p c ≡ finish c (execute_send_command w.meanwhile p args index)
unfolding run_running
run_running-sends w args o p c index hs hi = rw hs (rw hi refl)

run_started-sends :
    (w : World) (args : List Text) (o : Options) (name : Name) (index : ℕ)
    → w.spawns name ≡ true
    → o.has_send_command ≡ true
    → o.send_arg_index ≡ some index
    → run_started w args o (node_of w.transmitter o.local_node) (idle_app (new_entry name (0 ∷ [])))
      ≡ finish
          (running_app w.opens name)
          (execute_send_command w.meanwhile (node_of w.transmitter o.local_node) args index)
unfolding run_started
run_started-sends w args o name index threads hs hi =
    let p = node_of w.transmitter o.local_node in
    let idle = idle_app (new_entry name (0 ∷ [])) in
    ap
      (λ (x : Option Cannect). elim x as (λ _. Exit) [
        | some thrown ↦ leaves 1 thrown none
        | none ↦ run_running w args o p (cannect_start w.opens idle).1
      ])
      (not_thrown w.opens w.spawns name threads)
    ∙ run_running-sends w args o p (cannect_start w.opens idle).1 index hs hi
    ∙ ap (λ c. finish c (execute_send_command w.meanwhile p args index)) (started_lem w.opens name)

run_options-sends :
    (w : World) (args : List Text) (o : Options) (name : Name) (index : ℕ)
    → o.show_help ≡ false
    → o.iface_spec ≡ codes "socketcan:" ++ name
    → (not (is_empty o.output_file) && not (w.file_opens o.output_file)) ≡ false
    → w.spawns name ≡ true
    → o.has_send_command ≡ true
    → o.send_arg_index ≡ some index
    → run_options w args o
      ≡ finish
          (running_app w.opens name)
          (execute_send_command w.meanwhile (node_of w.transmitter o.local_node) args index)
unfolding run_options
run_options-sends w args o name index no_help spec logs threads hs hi =
    if_false _ _ no_help
    ∙ if_false _ _ (ap is_empty spec)
    ∙ if_false _ _ logs
    ∙ ap (with_interface w args o) ((create_interface_iff o.iface_spec name).1 spec)
    ∙ run_app_lem w args o name
    ∙ run_started-sends w args o name index threads hs hi

drop-line :
    (prog : Text) (settings : List Setting) (long : Bool) (command : Text) (args : List Text)
    → drop
        (1 + widths settings + 1)
        (prog ∷ spelled_all settings (ending_args (sends long command args)))
      ≡ command ∷ args
drop-line prog settings long command args =
    let rest = ending_args (sends long command args) in
    let e : 1 + widths settings + 1 ≡ 1 + (widths settings + 1) = omega arith in
    ap (λ n. drop n (prog ∷ spelled_all settings rest)) e
    ∙ drop-one prog (spelled_all settings rest) (widths settings + 1)
    ∙ drop-spelled_all settings 1 rest

-- `main` with any options, which name an interface socketcan:NAME, no help, and a log file that opens
-- if there is one, and then --send, where a thread can be made for the interface: it runs the command
-- with the arguments behind --send on a node that has the address of the options, the callbacks of the
-- console program and the interface as transmitter. It returns 0 where the command ends, and 1 where it
-- throws. It leaves an interface of that name with this node as its only receiver, closed, and with its
-- thread joined if it had opened.
pub main-sends :
    (w : World) (prog : Text) (settings : List Setting) (long : Bool) (command : Text)
    (args : List Text) (name : Name)
    → AreRead settings
    → (applied_all settings defaults).show_help ≡ false
    → (applied_all settings defaults).iface_spec ≡ codes "socketcan:" ++ name
    → (not (is_empty (applied_all settings defaults).output_file)
        && not (w.file_opens (applied_all settings defaults).output_file))
      ≡ false
    → w.spawns name ≡ true
    → main w (prog ∷ spelled_all settings (ending_args (sends long command args)))
      ≡ exit_by (stopped_app w.opens name) (
          command_of w.meanwhile
            (console_node w.transmitter (applied_all settings defaults).local_node)
            (command ∷ args))
unfolding main execute_send_command
main-sends w prog settings long command args name read no_help spec logs threads =
    let line = prog ∷ spelled_all settings (ending_args (sends long command args)) in
    let index = 1 + widths settings + 1 in
    let o = ended (sends long command args) (1 + widths settings) (applied_all settings defaults) in
    ap (with_options w line) (parse_options-spelled prog settings (sends long command args) read)
    ∙ run_options-sends w line o name index no_help spec logs threads refl refl
    ∙ ap
        (λ a.
          finish (running_app w.opens name)
            (command_of w.meanwhile (node_of w.transmitter o.local_node) a))
        (drop-line prog settings long command args)
    ∙ finish-exit_by w.opens name _
    ∙ ap (λ p. exit_by (stopped_app w.opens name) (command_of w.meanwhile p (command ∷ args)))
        (node_of-console_node w.transmitter o.local_node)
