-- ===== src/Dispatcher/Runs.antt =====
-- What holds of a node's façade after any calls of it.
use cannect.Base.{
  ℕ, ◌≡◌, ◌≢◌, refl, sym, ◌∙◌, ap, subst, arith, Bool, true, false, not, Option, none, some, List,
  [], ◌∷◌, ◌++◌, map, if_cases, if_false, Option-cases, inl, inr,
}
use cannect.Types.{Status, success, interface_already_open}
use cannect.Dispatcher.{
  Name, Filter, Thread, DispatcherEntry, CanDispatcher, Cannect, same_name, new, find_entry,
  add_interface, change_entry, with_receiver, with_filter, add_to, add_receiver, add_filter, start,
  start_entry, stop, close_entry, join_entry, join_thread, cannect_start, cannect_stop,
  cannect_add_interface, cannect_add_handler, cannect_add_filter,
}
use cannect.Dispatcher.Names.{Distinct, names, Distinct-added, names-change_entry, names-map}

-- A call of the façade that returns.
pub data Step : Cannect → Cannect → Type 0 where
  adds_interface : (name : Name) (c : Cannect) → Step c (cannect_add_interface name c).1
  adds_handler :
      (name : Name) (h : Option ℕ) (c : Cannect) → Step c (cannect_add_handler name h c).1
  adds_filter :
      (name : Name) (f : Option Filter) (c : Cannect) → Step c (cannect_add_filter name f c).1
  starts : (opens : Name → Bool) (c : Cannect) → Step c (cannect_start opens c).1
  stops : (c : Cannect) → Step c (cannect_stop c)

pub data Reachable : Cannect → Type 0 where
  fresh : Reachable (record { dispatcher = new; started = false })
  later : {c d : Cannect} → Reachable c → Step c d → Reachable d

-- No entry has a thread that may still run.
abbrev pub NoneRunning : List DispatcherEntry → Type 0
NoneRunning [] = Unit {0}
NoneRunning (e ∷ entries) = (e.thread ≢ Thread.running) × NoneRunning entries

pub record IsSound (c : Cannect) : Type 0 where
  pub distinct : Distinct (names c.dispatcher.entries)
  pub in_step : c.dispatcher.is_running ≡ c.started
  pub quiet : c.started ≡ false → NoneRunning c.dispatcher.entries

NoneRunning-snoc :
    (entries : List DispatcherEntry) (e : DispatcherEntry)
    → NoneRunning entries
    → e.thread ≢ Thread.running
    → NoneRunning (entries ++ e ∷ [])
NoneRunning-snoc [] e q n = (n, tt)
NoneRunning-snoc (x ∷ entries) e q n = (q.0, NoneRunning-snoc entries e q.1 n)

NoneRunning-change :
    (f : DispatcherEntry → DispatcherEntry) (entries : List DispatcherEntry) (name : Name)
    → ((e : DispatcherEntry) → (f e).thread ≡ e.thread)
    → NoneRunning entries
    → NoneRunning (change_entry f entries name)
unfolding change_entry
NoneRunning-change f [] name keeps q = tt
NoneRunning-change f (e ∷ entries) name keeps q =
    if_cases NoneRunning (same_name e.name name) (λ _. ((λ r. q.0 (sym (keeps e) ∙ r)), q.1))
      (λ _. (q.0, NoneRunning-change f entries name keeps q.1))

pub NoneRunning-join :
    (entries : List DispatcherEntry) → NoneRunning (map join_entry (map close_entry entries))
NoneRunning-join [] = tt
NoneRunning-join (e ∷ entries) = (joined_thread e.thread, NoneRunning-join entries)
  where
    joined_thread : (t : Thread) → join_thread false t ≢ Thread.running
    joined_thread Thread.no_thread h = cc
    joined_thread Thread.running h = cc
    joined_thread Thread.joined h = cc

add_interface-IsSound :
    (name : Name) (c : Cannect) → IsSound c → IsSound (cannect_add_interface name c).1
unfolding add_interface
add_interface-IsSound name c s = if_cases P c.dispatcher.is_running (λ _. kept) λ _. found
  where
    P : Status × CanDispatcher → Type 0
    P r = IsSound (record c { dispatcher = r.1 })

    kept : IsSound (record c { dispatcher = c.dispatcher })
    kept = record { distinct = s.distinct; in_step = s.in_step; quiet = s.quiet }

    entry : DispatcherEntry
    entry = record {
      name = name;
      filters = [];
      receivers = [];
      opened = false;
      thread = Thread.no_thread;
    }

    found : P (elim (find_entry c.dispatcher.entries name) [
      | some e ↦ (interface_already_open, c.dispatcher)
      | none ↦ (success, record c.dispatcher { entries = c.dispatcher.entries ++ entry ∷ [] })
    ])
    found = elim (Option-cases (find_entry c.dispatcher.entries name)) [
      | inr (e, f) ↦ rw f kept
      | inl f ↦ rw f record {
        distinct = Distinct-added c.dispatcher.entries entry s.distinct f;
        in_step = s.in_step;
        quiet = λ q. NoneRunning-snoc c.dispatcher.entries entry (s.quiet q) (λ h. cc);
      }
    ]

add_to-IsSound :
    (f : DispatcherEntry → DispatcherEntry) (name : Name) (c : Cannect)
    → ((e : DispatcherEntry) → ((f e).name ≡ e.name) × ((f e).thread ≡ e.thread))
    → IsSound c
    → IsSound (record c { dispatcher = (add_to f name c.dispatcher).1 })
unfolding add_to
add_to-IsSound f name c keeps s = elim (Option-cases (find_entry c.dispatcher.entries name)) [
  | inl e ↦ rw (e, add_to) record { distinct = s.distinct; in_step = s.in_step; quiet = s.quiet }
  | inr (x, e) ↦
      rw (e, add_to)
        record {
          distinct =
              subst Distinct
                (sym (names-change_entry f c.dispatcher.entries name (λ y. (keeps y).0)))
                s.distinct;
          in_step = s.in_step;
          quiet =
              λ q. NoneRunning-change f c.dispatcher.entries name (λ y. (keeps y).1) (s.quiet q);
        }
]

start_entry-name : (opens : Name → Bool) (e : DispatcherEntry) → (start_entry opens e).name ≡ e.name
start_entry-name opens e =
    if_cases (λ (x : DispatcherEntry). x.name ≡ e.name) (opens e.name) (λ _. refl) (λ _. refl)

start-IsSound : (opens : Name → Bool) (c : Cannect) → IsSound c → IsSound (cannect_start opens c).1
unfolding cannect_start start
start-IsSound opens c s =
    if_cases (λ (r : Status × Cannect). IsSound r.1) c.started (λ _. s)
      λ e.
        let d : CanDispatcher = record {
          entries = map (start_entry opens) c.dispatcher.entries;
          is_running = true;
        } in
        subst (λ x. IsSound (record { dispatcher = x; started = true }))
          (sym (if_false c.dispatcher d (s.in_step ∙ e)))
          (record {
            distinct =
                subst Distinct
                  (sym
                    (names-map (start_entry opens) c.dispatcher.entries (start_entry-name opens)))
                  s.distinct;
            in_step = refl;
            quiet = λ q. cc;
          })

stop-IsSound : (c : Cannect) → IsSound c → IsSound (cannect_stop c)
unfolding cannect_stop stop
stop-IsSound c s =
    if_cases IsSound (not c.started) (λ _. s)
      λ e.
        let d : CanDispatcher = record {
          entries = map join_entry (map close_entry c.dispatcher.entries);
          is_running = false;
        } in
        subst (λ x. IsSound (record { dispatcher = x; started = false }))
          (sym (if_false c.dispatcher d (ap not s.in_step ∙ e)))
          (record {
            distinct =
                subst Distinct
                  (sym (
                    names-map join_entry (map close_entry c.dispatcher.entries) (λ _. refl)
                    ∙ names-map close_entry c.dispatcher.entries (λ _. refl)))
                  s.distinct;
            in_step = refl;
            quiet = λ _. NoneRunning-join c.dispatcher.entries;
          })

Step-IsSound : {c d : Cannect} → Step c d → IsSound c → IsSound d
unfolding add_receiver add_filter
Step-IsSound (Step.adds_interface name c) s = add_interface-IsSound name c s
Step-IsSound (Step.adds_handler name none c) s = record {
  distinct = s.distinct;
  in_step = s.in_step;
  quiet = s.quiet;
}
Step-IsSound (Step.adds_handler name (some r) c) s =
    add_to-IsSound (with_receiver r) name c (λ _. (refl, refl)) s
Step-IsSound (Step.adds_filter name none c) s = record {
  distinct = s.distinct;
  in_step = s.in_step;
  quiet = s.quiet;
}
Step-IsSound (Step.adds_filter name (some f) c) s =
    add_to-IsSound (with_filter f) name c (λ _. (refl, refl)) s
Step-IsSound (Step.starts opens c) s = start-IsSound opens c s
Step-IsSound (Step.stops c) s = stop-IsSound c s

-- After any calls of `Cannect` that return: the names of the interfaces are pairwise distinct, the dispatcher runs
-- exactly when `Cannect` is started, and when it is not, no interface has a thread that is not joined.
pub Reachable-IsSound : {c : Cannect} → Reachable c → IsSound c
Reachable-IsSound Reachable.fresh = record { distinct = tt; in_step = refl; quiet = λ _. tt }
Reachable-IsSound (Reachable.later r step) = Step-IsSound step (Reachable-IsSound r)

pub stopped_lem : (c : Cannect) → (cannect_stop c).started ≡ false
unfolding cannect_stop
stopped_lem c =
    if_cases (λ (d : Cannect). d.started ≡ false) (not c.started) (λ idle. ground arith) (λ _. refl)
