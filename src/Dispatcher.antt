-- ===== src/Dispatcher.antt =====
-- src/CanDispatcher.cpp and src/Cannect.cpp: the interfaces with their filters and receivers, the
-- thread that reads each of them, and the façade of the library. An interface, a filter and a receiver
-- are virtual classes: what they answer is an argument, and a receiver is a number.
pub mod Names
pub mod Runs
pub mod Given
pub mod Registry
use cannect.Base.{
  ℕ, Bool, true, false, not, ◌&&◌, Option, none, some, List, [], ◌∷◌, ◌++◌, map, ◌==◌,
  if◌then◌else◌,
}
use cannect.Types.{
  CanFrame, Status, success, unsuccess, invalid_argument, interface_already_open,
  interface_invalid_name,
}

-- A `std::string`, by its bytes.
abbrev pub Name : Type 0
Name = List ℕ

-- `operator==` of strings.
unfoldable pub same_name : Name → Name → Bool
same_name [] [] = true
same_name [] (b ∷ bs) = false
same_name (a ∷ as_) [] = false
same_name (a ∷ as_) (b ∷ bs) = a == b && same_name as_ bs

-- What `IFilter::isValid` answers.
abbrev pub Filter : Type 0
Filter = CanFrame → Bool

-- `ifaceThread`: null, joinable, or joined.
pub data Thread : Type 0 where
  no_thread running joined : Thread

-- `opened` is whether `open()` of the interface answered SUCCESS and `close()` was not called since.
pub record DispatcherEntry : Type 0 where
  pub name : Name
  pub filters : List Filter
  pub receivers : List ℕ
  pub opened : Bool
  pub thread : Thread

pub record CanDispatcher : Type 0 where
  pub entries : List DispatcherEntry
  pub is_running : Bool

abbrev pub new : CanDispatcher
new = record { entries = []; is_running = false }

-- `findEntry`.
unfoldable pub find_entry : List DispatcherEntry → Name → Option DispatcherEntry
find_entry [] name = none
find_entry (e ∷ entries) name = if same_name e.name name then some e else find_entry entries name

-- `addInterface` of an interface that is not null, by its name.
unfoldable pub add_interface : Name → CanDispatcher → Status × CanDispatcher
add_interface name d =
    let entry : DispatcherEntry = record {
      name = name;
      filters = [];
      receivers = [];
      opened = false;
      thread = Thread.no_thread;
    } in
    if d.is_running then (unsuccess, d) else elim (find_entry d.entries name) [
      | some e ↦ (interface_already_open, d)
      | none ↦ (success, record d { entries = d.entries ++ entry ∷ [] })
    ]

-- The write through the pointer that `findEntry` returns.
unfoldable pub change_entry :
    (DispatcherEntry → DispatcherEntry) → List DispatcherEntry → Name → List DispatcherEntry
change_entry f [] name = []
change_entry f (e ∷ entries) name =
    let rest = change_entry f entries name in
    if same_name e.name name then f e ∷ entries else e ∷ rest

abbrev pub with_receiver : ℕ → DispatcherEntry → DispatcherEntry
with_receiver r e = record e { receivers = e.receivers ++ r ∷ [] }

abbrev pub with_filter : Filter → DispatcherEntry → DispatcherEntry
with_filter f e = record e { filters = e.filters ++ f ∷ [] }

-- The search and the write, in one locked section.
unfoldable pub add_to :
    (DispatcherEntry → DispatcherEntry) → Name → CanDispatcher → Status × CanDispatcher
add_to f name d = elim (find_entry d.entries name) [
  | none ↦ (interface_invalid_name, d)
  | some e ↦ (success, record d { entries = change_entry f d.entries name })
]

unfoldable pub add_receiver : Name → Option ℕ → CanDispatcher → Status × CanDispatcher
add_receiver name none d = (invalid_argument, d)
add_receiver name (some r) d = add_to (with_receiver r) name d

unfoldable pub add_filter : Name → Option Filter → CanDispatcher → Status × CanDispatcher
add_filter name none d = (invalid_argument, d)
add_filter name (some f) d = add_to (with_filter f) name d

-- The loop of `start`: `opens` is whether `open()` of the interface of a name answers SUCCESS.
abbrev pub start_entry : (Name → Bool) → DispatcherEntry → DispatcherEntry
start_entry opens e =
    if opens e.name then record e { opened = true; thread = Thread.running } else e

-- `start` where it throws nothing.
unfoldable pub start : (Name → Bool) → CanDispatcher → CanDispatcher
start opens d =
    if d.is_running
    then d
    else record { entries = map (start_entry opens) d.entries; is_running = true }

-- The entries where the constructor of `std::thread` throws, if it does: `spawns` is whether it
-- succeeds for the interface of a name. That interface is open, and the later ones are not reached.
unfoldable pub thrown_at :
    (Name → Bool) → (Name → Bool) → List DispatcherEntry → Option (List DispatcherEntry)
thrown_at opens spawns [] = none
thrown_at opens spawns (e ∷ entries) =
    let later : Option (List DispatcherEntry) = elim (thrown_at opens spawns entries) [
      | none ↦ none
      | some rest ↦ some (start_entry opens e ∷ rest)
    ] in
    if opens e.name && not (spawns e.name)
    then some (record e { opened = true } ∷ entries)
    else later

-- The dispatcher that `start` leaves by that exception, if it does.
unfoldable pub start_thrown : (Name → Bool) → (Name → Bool) → CanDispatcher → Option CanDispatcher
unfolding thrown_at
start_thrown opens spawns d =
    if d.is_running then none else elim (thrown_at opens spawns d.entries) [
      | none ↦ none
      | some entries ↦ some (record { entries = entries; is_running = true })
    ]

-- The loop that closes the interfaces.
abbrev pub close_entry : DispatcherEntry → DispatcherEntry
close_entry e = record e { opened = false }

-- The loop that joins the threads. A thread ends when its interface is closed, which ends the `receive`
-- that it is in, and `running` is false; one whose interface is open would not be joined.
abbrev pub join_thread : Bool → Thread → Thread
join_thread false Thread.running = Thread.joined
join_thread opened t = t

abbrev pub join_entry : DispatcherEntry → DispatcherEntry
join_entry e = record e { thread = join_thread e.opened e.thread }

unfoldable pub stop : CanDispatcher → CanDispatcher
stop d =
    if not d.is_running
    then d
    else record { entries = map join_entry (map close_entry d.entries); is_running = false }

-- The loop over the filters, with its `break`.
unfoldable pub accepted : List Filter → CanFrame → Bool
accepted [] frame = true
accepted (f ∷ filters) frame = if not (f frame) then false else accepted filters frame

-- The loop over the receivers: the calls of `onFrame`, by receiver.
abbrev pub give : List ℕ → CanFrame → List (ℕ × CanFrame)
give [] frame = []
give (r ∷ receivers) frame = (r, frame) ∷ give receivers frame

abbrev pub is_success : Status → Bool
is_success success = true
is_success _ = false

-- `runInterface`, for what `receive` answers while the dispatcher runs.
unfoldable pub run_interface : DispatcherEntry → List (Status × CanFrame) → List (ℕ × CanFrame)
run_interface e [] = []
run_interface e (r ∷ received) =
    let rest = run_interface e received in
    if not (is_success r.0)
    then rest
    else if not (accepted e.filters r.1)
    then rest
    else give e.receivers r.1 ++ rest

-- `Cannect`, whose state is its dispatcher and a flag of its own.
pub record Cannect : Type 0 where
  pub dispatcher : CanDispatcher
  pub started : Bool

unfoldable pub cannect_start : (Name → Bool) → Cannect → Status × Cannect
cannect_start opens c =
    if c.started
    then (interface_already_open, c)
    else (success, record { dispatcher = start opens c.dispatcher; started = true })

-- The façade that its `start` leaves by an exception, if it does: `running` is not set.
unfoldable pub cannect_start_thrown : (Name → Bool) → (Name → Bool) → Cannect → Option Cannect
cannect_start_thrown opens spawns c =
    if c.started then none else elim (start_thrown opens spawns c.dispatcher) [
      | none ↦ none
      | some d ↦ some (record c { dispatcher = d })
    ]

unfoldable pub cannect_stop : Cannect → Cannect
cannect_stop c =
    if not c.started then c else record { dispatcher = stop c.dispatcher; started = false }

-- `~Cannect`, and then `~CanDispatcher` of its member.
abbrev pub cannect_destroy : Cannect → Cannect
cannect_destroy c = let c' = cannect_stop c in record c' { dispatcher = stop c'.dispatcher }

abbrev pub cannect_add_interface : Name → Cannect → Status × Cannect
cannect_add_interface name c =
    let r = add_interface name c.dispatcher in (r.0, record c { dispatcher = r.1 })

abbrev pub cannect_add_handler : Name → Option ℕ → Cannect → Status × Cannect
cannect_add_handler name handler c =
    let r = add_receiver name handler c.dispatcher in (r.0, record c { dispatcher = r.1 })

abbrev pub cannect_add_filter : Name → Option Filter → Cannect → Status × Cannect
cannect_add_filter name filter c =
    let r = add_filter name filter c.dispatcher in (r.0, record c { dispatcher = r.1 })
