-- ===== src/Dispatcher/Registry/Entries.antt =====
-- How the searches and writes of the entries (src/CanDispatcher.cpp) look in the abstract view.
use cannect.Base.{
  ◌≡◌, refl, ◌∙◌, ap, fun_ext, arith, Bool, if◌then◌else◌, none, some, List, [], ◌∷◌, ◌++◌, map,
}
use cannect.Dispatcher.{Name, DispatcherEntry, CanDispatcher, same_name, find_entry, change_entry}
use cannect.Dispatcher.Names.{same_name_refl, same_name-eq}
use cannect.Dispatcher.Registry.{Registry, Spec, put, registration, view}

find_entry-snoc :
    (es : List DispatcherEntry) (e : DispatcherEntry) (m : Name)
    → find_entry es e.name ≡ none
    → find_entry (es ++ e ∷ []) m ≡ (if same_name e.name m then some e else find_entry es m)
unfolding find_entry
find_entry-snoc [] e m h = refl
find_entry-snoc (x ∷ es) e m h = ground (
  arith,
  same_name-eq x.name m,
  same_name-eq e.name m,
  same_name_refl x.name,
  find_entry-snoc es e m,
)

find_entry-change :
    (f : DispatcherEntry → DispatcherEntry) (es : List DispatcherEntry) (n m : Name)
    (keeps : (e : DispatcherEntry) → (f e).name ≡ e.name) (e : DispatcherEntry)
    → find_entry es n ≡ some e
    → find_entry (change_entry f es n) m ≡ (if same_name n m then some (f e) else find_entry es m)
unfolding find_entry change_entry
find_entry-change f [] n m keeps e h = cc
find_entry-change f (x ∷ es) n m keeps e h = ground (
  arith,
  keeps x,
  same_name-eq x.name m,
  same_name-eq x.name n,
  same_name-eq n m,
  same_name_refl n,
  find_entry-change f es n m keeps e,
)

registration-map :
    (h : DispatcherEntry → DispatcherEntry) (es : List DispatcherEntry) (m : Name)
    → ((e : DispatcherEntry) → (h e).name ≡ e.name)
    → ((e : DispatcherEntry) → registration (some (h e)) ≡ registration (some e))
    → registration (find_entry (map h es) m) ≡ registration (find_entry es m)
unfolding find_entry
registration-map h [] m keeps same = refl
registration-map h (x ∷ es) m keeps same =
    ground (arith, keeps x, same x, registration-map h es m keeps same)

with_registry :
    (s : Spec) {g : Registry} → ((m : Name) → s.registry m ≡ g m) → s ≡ record s { registry = g }
with_registry s h = ap (λ g. record s { registry = g }) (fun_ext h)

pub added_view :
    (d : CanDispatcher) (e : DispatcherEntry)
    → find_entry d.entries e.name ≡ none
    → view (record d { entries = d.entries ++ e ∷ [] }) ≡ record {
      registry =
          put e.name (record { filters = e.filters; receivers = e.receivers }) (view d).registry;
      is_running = d.is_running;
    }
added_view d e h =
    with_registry (view (record d { entries = d.entries ++ e ∷ [] }))
      λ m. ap registration (find_entry-snoc d.entries e m h) ∙ ground arith

pub changed_view :
    (f : DispatcherEntry → DispatcherEntry) (d : CanDispatcher) (name : Name) (e : DispatcherEntry)
    (keeps : (e : DispatcherEntry) → (f e).name ≡ e.name)
    → find_entry d.entries name ≡ some e
    → view (record d { entries = change_entry f d.entries name }) ≡ record {
      registry =
          put name
            (record { filters = (f e).filters; receivers = (f e).receivers })
            (view d).registry;
      is_running = d.is_running;
    }
changed_view f d name e keeps h =
    with_registry (view (record d { entries = change_entry f d.entries name }))
      λ m. ap registration (find_entry-change f d.entries name m keeps e h) ∙ ground arith

pub mapped_view :
    (h : DispatcherEntry → DispatcherEntry) (d : CanDispatcher) (running : Bool)
    → ((e : DispatcherEntry) → (h e).name ≡ e.name)
    → ((e : DispatcherEntry) → registration (some (h e)) ≡ registration (some e))
    → view (record { entries = map h d.entries; is_running = running })
      ≡ record { registry = (view d).registry; is_running = running }
mapped_view h d running keeps same =
    with_registry (view (record { entries = map h d.entries; is_running = running }))
      λ m. registration-map h d.entries m keeps same
