-- ===== src/Dispatcher/Registry/Refines.antt =====
-- Each call of the dispatcher (src/CanDispatcher.cpp) does what its specification promises.
use mathlib.Core.Path.{ap₂}
use cannect.Base.{
  ◌≡◌, refl, ◌∙◌, ap, arith, Bool, true, false, not, if◌then◌else◌, if_cases, Option, none, some,
  List, [], ◌∷◌, ◌++◌, map,
}
use cannect.Types.{Status, success, unsuccess, interface_already_open, interface_invalid_name}
use cannect.Dispatcher.{
  Name, Thread, DispatcherEntry, CanDispatcher, find_entry, add_interface, change_entry,
  with_receiver, with_filter, add_to, add_receiver, add_filter, start, start_entry, stop,
  close_entry, join_entry,
}
use cannect.Dispatcher.Registry.{
  Registration, Spec, put, more_receivers, more_filters, Call, adds_interface, adds_receiver,
  adds_filter, starts, stops, new_name, known_name, promised, called, registration, view,
  view_result,
}
use cannect.Dispatcher.Registry.Entries.{added_view, changed_view, mapped_view}

abbrev bare : Name → DispatcherEntry
bare name = record {
  name = name;
  filters = [];
  receivers = [];
  opened = false;
  thread = Thread.no_thread;
}

add_interface-refines :
    (name : Name) (d : CanDispatcher)
    → view_result (add_interface name d) ≡ promised (adds_interface name) (view d)
unfolding add_interface
add_interface-refines name d = by_running d.is_running
  where
    by_entry :
        (o : Option DispatcherEntry)
        → find_entry d.entries name ≡ o
        → view_result (elim o [
          | some e ↦ (interface_already_open, d)
          | none ↦ (success, record d { entries = d.entries ++ bare name ∷ [] })
        ])
          ≡ new_name name (view d) (registration o)
    by_entry (some e) found = refl
    by_entry none none_ = ap (λ s. (success, s)) (added_view d (bare name) none_)

    by_running :
        (b : Bool)
        → view_result (
            if b then (unsuccess, d) else elim (find_entry d.entries name) [
              | some e ↦ (interface_already_open, d)
              | none ↦ (success, record d { entries = d.entries ++ bare name ∷ [] })
            ])
          ≡ (if b then (unsuccess, view d) else new_name name (view d) ((view d).registry name))
    by_running true = refl
    by_running false = by_entry (find_entry d.entries name) refl

add_to-refines :
    (f : DispatcherEntry → DispatcherEntry) (g : Registration → Registration) (name : Name)
    (d : CanDispatcher) (keeps : (e : DispatcherEntry) → (f e).name ≡ e.name)
    → ((e : DispatcherEntry)
        → record { filters = (f e).filters; receivers = (f e).receivers }
          ≡ g (record { filters = e.filters; receivers = e.receivers }))
    → view_result (add_to f name d) ≡ known_name g name (view d) ((view d).registry name)
unfolding add_to
add_to-refines f g name d keeps same = by_entry (find_entry d.entries name) refl
  where
    by_entry :
        (o : Option DispatcherEntry)
        → find_entry d.entries name ≡ o
        → view_result (elim o [
          | none ↦ (interface_invalid_name, d)
          | some e ↦ (success, record d { entries = change_entry f d.entries name })
        ])
          ≡ known_name g name (view d) (registration o)
    by_entry none none_ = refl
    by_entry (some e) found =
        ap (λ s. (success, s)) (changed_view f d name e keeps found)
        ∙ ap (λ x. (success, record (view d) { registry = put name x (view d).registry })) (same e)

start-refines :
    (opens : Name → Bool) (d : CanDispatcher)
    → view (start opens d) ≡ record (view d) { is_running = true }
unfolding start
start-refines opens d =
    if_cases (λ (x : CanDispatcher). view x ≡ record (view d) { is_running = true }) d.is_running
      (λ on. ap (λ b. record (view d) { is_running = b }) on)
      (λ _. mapped_view (start_entry opens) d true (λ e. ground arith) (λ e. ground arith))

stop-refines : (d : CanDispatcher) → view (stop d) ≡ record (view d) { is_running = false }
unfolding stop
stop-refines d =
    if_cases (λ (x : CanDispatcher). view x ≡ record (view d) { is_running = false })
      (not d.is_running) (λ idle. ap (λ b. record (view d) { is_running = b }) (not_true idle))
      (λ _.
        mapped_view join_entry (record d { entries = map close_entry d.entries }) false (λ e. refl)
          (λ e. refl)
        ∙ ap (λ (s : Spec). record s { is_running = false })
            (mapped_view close_entry d d.is_running (λ e. refl) (λ e. refl)))
  where
    not_true : {b : Bool} → not b ≡ true → b ≡ false
    not_true {b = true} h = cc
    not_true {b = false} h = refl

called-refines : (c : Call) (d : CanDispatcher) → view_result (called c d) ≡ promised c (view d)
unfolding add_receiver add_filter
called-refines (adds_interface name) d = add_interface-refines name d
called-refines (adds_receiver name none) d = refl
called-refines (adds_receiver name (some r)) d =
    add_to-refines (with_receiver r) (more_receivers r) name d (λ e. refl) (λ e. refl)
called-refines (adds_filter name none) d = refl
called-refines (adds_filter name (some f)) d =
    add_to-refines (with_filter f) (more_filters f) name d (λ e. refl) (λ e. refl)
called-refines (starts opens) d = ap (λ s. (success, s)) (start-refines opens d)
called-refines stops d = ap (λ s. (success, s)) (stop-refines d)

-- The calls one after the other, with their statuses.
abbrev pub all_called : List Call → CanDispatcher → List Status × CanDispatcher
all_called [] d = ([], d)
all_called (c ∷ calls) d =
    let r = called c d in let rest = all_called calls r.1 in (r.0 ∷ rest.0, rest.1)

abbrev pub all_promised : List Call → Spec → List Status × Spec
all_promised [] s = ([], s)
all_promised (c ∷ calls) s =
    let r = promised c s in let rest = all_promised calls r.1 in (r.0 ∷ rest.0, rest.1)

-- After any calls of a dispatcher, their statuses and what is registered under each name, and whether
-- it runs, are those that the specification promises, which is a map from names to registrations: a
-- name is registered once and not while the dispatcher runs, a receiver or filter is added behind those
-- of its name, and nothing is added to a name that is not registered.
pub all_called-refines :
    (calls : List Call) (d : CanDispatcher)
    → ((all_called calls d).0, view (all_called calls d).1) ≡ all_promised calls (view d)
all_called-refines [] d = refl
all_called-refines (c ∷ calls) d =
    ap₂ (λ (r : Status × Spec) (rest : List Status × Spec). (r.0 ∷ rest.0, rest.1))
      (called-refines c d)
      (all_called-refines calls (called c d).1
        ∙ ap (λ (r : Status × Spec). all_promised calls r.1) (called-refines c d))
