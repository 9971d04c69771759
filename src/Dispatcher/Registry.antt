-- ===== src/Dispatcher/Registry.antt =====
-- What `CanDispatcher` promises, as a map from names to registrations, and that it keeps the promise
-- (src/CanDispatcher.cpp).
pub mod Entries
pub mod Refines
use cannect.Base.{
  ℕ, ◌≡◌, refl, sym, ◌∙◌, ap, fun_ext, arith, Bool, true, false, not, if◌then◌else◌, if_true,
  if_false, if_cases, Bool-cases, Option-cases, inl, inr, Option, none, some, List, [], ◌∷◌, ◌++◌,
  map,
}
use cannect.Types.{
  Status, success, unsuccess, invalid_argument, interface_already_open, interface_invalid_name,
}
use cannect.Dispatcher.{
  Name, Filter, Thread, DispatcherEntry, CanDispatcher, same_name, new, find_entry, add_interface,
  change_entry, with_receiver, with_filter, add_to, add_receiver, add_filter, start, start_entry,
  stop, join_entry,
}
use cannect.Dispatcher.Names.{same_name_refl, same_name-eq}

-- What is registered at an interface.
pub record Registration : Type 0 where
  pub filters : List Filter
  pub receivers : List ℕ

abbrev pub Registry : Type 0
Registry = Name → Option Registration

-- The specification's state: what is registered under each name, and whether it runs.
pub record Spec : Type 0 where
  pub registry : Registry
  pub is_running : Bool

abbrev pub put : Name → Registration → Registry → Registry
put name x g m = if same_name name m then some x else g m

abbrev pub nothing_yet : Registration
nothing_yet = record { filters = []; receivers = [] }

abbrev pub more_receivers : ℕ → Registration → Registration
more_receivers r x = record x { receivers = x.receivers ++ r ∷ [] }

abbrev pub more_filters : Filter → Registration → Registration
more_filters f x = record x { filters = x.filters ++ f ∷ [] }

-- A call of the dispatcher; a null pointer is none.
pub data Call : Type 0 where
  adds_interface : Name → Call
  adds_receiver : Name → Option ℕ → Call
  adds_filter : Name → Option Filter → Call
  starts : (Name → Bool) → Call
  stops : Call

abbrev pub new_name : Name → Spec → Option Registration → Status × Spec
new_name name s none = (success, record s { registry = put name nothing_yet s.registry })
new_name name s (some x) = (interface_already_open, s)

abbrev pub known_name :
    (Registration → Registration) → Name → Spec → Option Registration → Status × Spec
known_name f name s none = (interface_invalid_name, s)
known_name f name s (some x) = (success, record s { registry = put name (f x) s.registry })

-- What each call promises: its status, and the state after it.
abbrev pub promised : Call → Spec → Status × Spec
promised (adds_interface name) s =
    if s.is_running then (unsuccess, s) else new_name name s (s.registry name)
promised (adds_receiver name none) s = (invalid_argument, s)
promised (adds_receiver name (some r)) s = known_name (more_receivers r) name s (s.registry name)
promised (adds_filter name none) s = (invalid_argument, s)
promised (adds_filter name (some f)) s = known_name (more_filters f) name s (s.registry name)
promised (starts opens) s = (success, record s { is_running = true })
promised stops s = (success, record s { is_running = false })

-- What each call does. `start` and `stop` return nothing, and a `start` that throws is left out.
abbrev pub called : Call → CanDispatcher → Status × CanDispatcher
called (adds_interface name) d = add_interface name d
called (adds_receiver name r) d = add_receiver name r d
called (adds_filter name f) d = add_filter name f d
called (starts opens) d = (success, start opens d)
called stops d = (success, stop d)

abbrev pub registration : Option DispatcherEntry → Option Registration
registration none = none
registration (some e) = some (record { filters = e.filters; receivers = e.receivers })

-- The abstract view: the order of the entries and their threads are forgotten.
abbrev pub view : CanDispatcher → Spec
view d = record {
  registry = λ name. registration (find_entry d.entries name);
  is_running = d.is_running;
}

abbrev pub view_result : Status × CanDispatcher → Status × Spec
view_result r = (r.0, view r.1)
