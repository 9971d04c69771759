-- ===== src/App/Main/Left.antt =====
-- What `main` leaves behind a command (src/app/main.cpp): the node, the façade and the exit.
use cannect.Base.{
  ℕ, ◌≡◌, refl, ap, Bool, true, false, if◌then◌else◌, Bool-cases, inl, inr, none, some, List, [],
  ◌∷◌,
}
use cannect.Dispatcher.{
  Name, Thread, DispatcherEntry, Cannect, stop, start_entry, cannect_stop, cannect_destroy,
}
use cannect.SetBlock.State as SetBlock
use cannect.GetBlock.State as GetBlock
use cannect.Protocol.State.{Transmitter, CanTsProtocol, zeros, no_pending}
use cannect.App.Text.{Result, ok, err}
use cannect.App.Handlers.{on_telecommand, on_telemetry, on_set_block, on_get_block}
use cannect.App.Commands.{Ran}
use cannect.App.Main.{Exit, finish, node_of}

abbrev pub new_entry : Name → List ℕ → DispatcherEntry
new_entry name receivers = record {
  name = name;
  filters = [];
  receivers = receivers;
  opened = false;
  thread = Thread.no_thread;
}

-- The façade that runs one interface, with the protocol as its receiver.
abbrev pub running_app : (Name → Bool) → Name → Cannect
running_app opens name = record {
  dispatcher = record {
    entries = start_entry opens (new_entry name (0 ∷ [])) ∷ [];
    is_running = true;
  };
  started = true;
}

-- The façade that is left: one interface, closed, whose receiver is the protocol, and whose thread was
-- joined if the interface had opened.
abbrev pub stopped_app : (Name → Bool) → Name → Cannect
stopped_app opens name = record {
  dispatcher = record {
    entries =
        record {
          name = name;
          filters = [];
          receivers = 0 ∷ [];
          opened = false;
          thread = if opens name then Thread.joined else Thread.no_thread;
        }
        ∷ [];
    is_running = false;
  };
  started = false;
}

-- The node of the console program at an address.
abbrev pub console_node : Transmitter → ℕ → CanTsProtocol
console_node tx address = record {
  local_address = address;
  transmitter = some tx;
  tc_handler = some on_telecommand;
  tm_handler = some on_telemetry;
  has_utm_handler = true;
  has_ts_handler = true;
  peers = λ _. none;
  pending_tc = no_pending;
  pending_tm = no_pending;
  last_telemetry = zeros;
  last_telemetry_dlc = 0;
  set_block_mgr = record (SetBlock.new address) { handler = some on_set_block };
  get_block_mgr = record (GetBlock.new address) { handler = some on_get_block };
}

-- The exit by how the command ended.
abbrev pub exit_by : Cannect → Result Ran → Exit
exit_by app (ok ran) = record { code = 0; app = some app; ran = some ran }
exit_by app (err e) = record { code = 1; app = some app; ran = none }

pub node_of-console_node :
    (tx : Transmitter) (address : ℕ) → node_of tx address ≡ console_node tx address
unfolding node_of
node_of-console_node tx address = refl

running_stopped :
    (opens : Name → Bool) (name : Name)
    → cannect_stop (running_app opens name) ≡ stopped_app opens name
unfolding cannect_stop stop
running_stopped opens name = elim (Bool-cases (opens name)) [
  | inl on ↦ rw on refl
  | inr off ↦ rw off refl
]

pub finish-exit_by :
    (opens : Name → Bool) (name : Name) (x : Result Ran)
    → finish (running_app opens name) x ≡ exit_by (stopped_app opens name) x
unfolding cannect_stop stop
finish-exit_by opens name (ok ran) =
    ap (λ c. record { code = 0; app = some (cannect_destroy (cannect_stop c)); ran = some ran })
      (running_stopped opens name)
finish-exit_by opens name (err e) =
    ap
      (λ (c : Cannect). record {
        code = 1;
        app = some (record c { dispatcher = stop c.dispatcher });
        ran = none;
      })
      (running_stopped opens name)
