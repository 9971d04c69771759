-- ===== src/App/Main/Ends.antt =====
-- However `main` ends (src/app/main.cpp), and what it has set up.
use cannect.Base.{
  ℕ, ◌≡◌, refl, sym, ◌∙◌, arith, Bool, true, false, not, ◌&&◌, if_cases, Option, none, some, List,
}
use cannect.Dispatcher.{
  Name, DispatcherEntry, CanDispatcher, Cannect, is_success, stop, thrown_at, start_thrown,
  cannect_stop, cannect_start, cannect_start_thrown, cannect_destroy, cannect_add_interface,
  cannect_add_handler,
}
use cannect.SetBlock.Receiver.{is_empty}
use cannect.Dispatcher.Runs.{
  stopped_lem, Reachable, Reachable-IsSound, NoneRunning, NoneRunning-join, adds_interface,
  adds_handler, starts, fresh, later,
}
use cannect.Socket.{SocketCanInterface}
use cannect.Protocol.State.{CanTsProtocol}
use cannect.App.Text.{Text, Result, ok, err}
use cannect.App.Options.{Options, parse_options}
use cannect.App.Interface.{create_interface}
use cannect.App.Commands.{Ran, execute_send_command}
use cannect.App.Main.{
  World, Exit, early, node_of, fresh as new_app, leaves, waits, finish, run_running, run_started,
  run_app, with_interface, run_options, with_options, main,
}

-- No thread of an interface may still run where the dispatcher does not run.
abbrev Calm : CanDispatcher → Type 0
Calm d = d.is_running ≡ false → NoneRunning d.entries

-- The façade that is left: it is stopped, and each thread was joined.
pub record IsStopped (c : Cannect) : Type 0 where
  pub stopped : c.started ≡ false
  pub not_running : c.dispatcher.is_running ≡ false
  pub quiet : NoneRunning c.dispatcher.entries

abbrev pub LeavesNone : Option Cannect → Type 0
LeavesNone none = Unit {0}
LeavesNone (some c) = IsStopped c

pub record EndsWell (x : Exit) : Type 0 where
  pub none_left : LeavesNone x.app

stop-quiet :
    (d : CanDispatcher) → Calm d → ((stop d).is_running ≡ false) × NoneRunning (stop d).entries
unfolding stop
stop-quiet d calm =
    if_cases (λ (x : CanDispatcher). (x.is_running ≡ false) × NoneRunning x.entries)
      (not d.is_running) (λ idle. let off : d.is_running ≡ false = ground arith in (off, calm off))
      (λ _. (refl, NoneRunning-join d.entries))

cannect_stop-Calm : (c : Cannect) → Calm c.dispatcher → Calm (cannect_stop c).dispatcher
unfolding cannect_stop
cannect_stop-Calm c calm =
    if_cases (λ (x : Cannect). Calm x.dispatcher) (not c.started) (λ _. calm)
      (λ _ _. (stop-quiet c.dispatcher calm).1)

IsStopped-destroy : (c : Cannect) → Calm c.dispatcher → IsStopped (cannect_destroy c)
IsStopped-destroy c calm =
    let (off, quiet) = stop-quiet (cannect_stop c).dispatcher (cannect_stop-Calm c calm) in
    record { stopped = stopped_lem c; not_running = off; quiet = quiet }

Reachable-Calm : (c : Cannect) → Reachable c → Calm c.dispatcher
Reachable-Calm c r = let s = Reachable-IsSound r in λ off. s.quiet (sym s.in_step ∙ off)

-- Where the constructor of a thread throws, the dispatcher is left running.
abbrev RunsOn : Option CanDispatcher → Type 0
RunsOn none = Unit {0}
RunsOn (some d) = d.is_running ≡ true

abbrev IsCalm : Option Cannect → Type 0
IsCalm none = Unit {0}
IsCalm (some c) = Calm c.dispatcher

start_thrown-RunsOn :
    (opens spawns : Name → Bool) (d : CanDispatcher) → RunsOn (start_thrown opens spawns d)
unfolding start_thrown
start_thrown-RunsOn opens spawns d =
    if_cases RunsOn d.is_running (λ _. tt) (λ _. by_entries (thrown_at opens spawns d.entries))
  where
    by_entries :
        (o : Option (List DispatcherEntry))
        → RunsOn (elim o [
          | none ↦ none
          | some entries ↦ some (record { entries = entries; is_running = true })
        ])
    by_entries none = tt
    by_entries (some entries) = refl

start_thrown-IsCalm :
    (opens spawns : Name → Bool) (c : Cannect) → IsCalm (cannect_start_thrown opens spawns c)
unfolding cannect_start_thrown
start_thrown-IsCalm opens spawns c =
    if_cases IsCalm c.started (λ _. tt)
      (λ _.
        by_dispatcher (start_thrown opens spawns c.dispatcher)
          (start_thrown-RunsOn opens spawns c.dispatcher))
  where
    by_dispatcher :
        (o : Option CanDispatcher)
        → RunsOn o
        → IsCalm (elim o [ none ↦ none | some d ↦ some (record c { dispatcher = d }) ])
    by_dispatcher none runs = tt
    by_dispatcher (some d) runs = λ off. absurd (clash runs off)
      where
        clash : {b : Bool} → b ≡ true → b ≡ false → ⊥
        clash p q = cc

failed : (c : Cannect) (ran : Option Ran) → Calm c.dispatcher → EndsWell (leaves 1 c ran)
failed c ran calm = record { none_left = IsStopped-destroy c calm }

ended : (c : Cannect) (ran : Option Ran) → Calm c.dispatcher → EndsWell (leaves 0 (waits c) ran)
ended c ran calm = record {
  none_left =
      IsStopped-destroy (waits c) (cannect_stop-Calm (cannect_stop c) (cannect_stop-Calm c calm));
}

finish-EndsWell : (c : Cannect) (x : Result Ran) → Calm c.dispatcher → EndsWell (finish c x)
finish-EndsWell c (err e) calm = failed c none calm
finish-EndsWell c (ok ran) calm = ended c (some ran) calm

run_running-EndsWell :
    (w : World) (args : List Text) (o : Options) (p : CanTsProtocol) (c : Cannect)
    → Calm c.dispatcher
    → EndsWell (run_running w args o p c)
unfolding run_running
run_running-EndsWell w args o p c calm =
    if_cases EndsWell o.has_send_command (λ _. sent o.send_arg_index) (λ _. ended c none calm)
  where
    sent :
        (i : Option ℕ)
        → EndsWell (elim i [
          | none ↦ leaves 1 c none
          | some index ↦ finish c (execute_send_command w.meanwhile p args index)
        ])
    sent none = failed c none calm
    sent (some index) = finish-EndsWell c _ calm

run_started-EndsWell :
    (w : World) (args : List Text) (o : Options) (p : CanTsProtocol) (c : Cannect)
    → Reachable c
    → EndsWell (run_started w args o p c)
unfolding run_started
run_started-EndsWell w args o p c r =
    by_start (cannect_start_thrown w.opens w.spawns c) (start_thrown-IsCalm w.opens w.spawns c)
  where
    by_start :
        (x : Option Cannect)
        → IsCalm x
        → EndsWell (elim x [
          | some thrown ↦ leaves 1 thrown none
          | none ↦ run_running w args o p (cannect_start w.opens c).1
        ])
    by_start (some thrown) calm = failed thrown none calm
    by_start none calm =
        run_running-EndsWell w args o p (cannect_start w.opens c).1
          (Reachable-Calm _ (later r (starts w.opens c)))

run_app-EndsWell :
    (w : World) (args : List Text) (o : Options) (iface : SocketCanInterface)
    → EndsWell (run_app w args o iface)
unfolding run_app
run_app-EndsWell w args o iface =
    let c₁ = cannect_add_interface iface.name new_app in
    let c₂ = cannect_add_handler iface.name (some 0) c₁.1 in
    let added = later fresh (adds_interface iface.name new_app) in
    let handled = later added (adds_handler iface.name (some 0) c₁.1) in
    if_cases EndsWell (not (is_success c₁.0)) (λ _. failed c₁.1 none (Reachable-Calm c₁.1 added))
      λ _.
        if_cases EndsWell (not (is_success c₂.0))
          (λ _. failed c₂.1 none (Reachable-Calm c₂.1 handled))
          λ _. run_started-EndsWell w args o (node_of w.transmitter o.local_node) c₂.1 handled

early-EndsWell : (code : ℕ) → EndsWell (early code)
early-EndsWell code = record { none_left = tt }

with_interface-EndsWell :
    (w : World) (args : List Text) (o : Options) (x : Result SocketCanInterface)
    → EndsWell (with_interface w args o x)
with_interface-EndsWell w args o (err e) = early-EndsWell 1
with_interface-EndsWell w args o (ok iface) = run_app-EndsWell w args o iface

run_options-EndsWell :
    (w : World) (args : List Text) (o : Options) → EndsWell (run_options w args o)
unfolding run_options
run_options-EndsWell w args o =
    if_cases EndsWell o.show_help (λ _. early-EndsWell 0)
      λ _.
        if_cases EndsWell (is_empty o.iface_spec) (λ _. early-EndsWell 1)
          λ _.
            if_cases EndsWell (not (is_empty o.output_file) && not (w.file_opens o.output_file))
              (λ _. early-EndsWell 1)
              λ _. with_interface-EndsWell w args o (create_interface o.iface_spec)

with_options-EndsWell :
    (w : World) (args : List Text) (x : Result Options) → EndsWell (with_options w args x)
with_options-EndsWell w args (err e) = early-EndsWell 1
with_options-EndsWell w args (ok o) = run_options-EndsWell w args o

-- Whatever the arguments are and wherever `main` ends, by an exception of the options, of the interface,
-- of the constructor of a thread in `app.start()` or of the command included: where it made a `Cannect`,
-- this and its dispatcher have been stopped when `main` has ended, and no interface has a thread that is
-- not joined.
pub main-EndsWell : (w : World) (args : List Text) → EndsWell (main w args)
unfolding main
main-EndsWell w args = with_options-EndsWell w args (parse_options args)
