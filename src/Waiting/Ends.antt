-- ===== src/Waiting/Ends.antt =====
-- When `Cannect::waitSignal` returns (src/Cannect.cpp).
use cannect.Base.{ℕ, suc, ◌≤◌, ◌≡◌, refl, ◌∙◌, ap, subst, arith, Bool, true, false}
use cannect.Dispatcher.{Cannect, cannect_stop}
use cannect.Dispatcher.Runs.{stopped_lem}
use cannect.Waiting.{
  Place, Wait, wait_signal, notified, signal_handler, test, test_by, Own, tests, blocks, own, wakes,
  signals, Reaches, here, next,
}

-- How many signals have come.
abbrev pub signal_count : {s t : Wait} → Reaches s t → ℕ
signal_count here = 0
signal_count (next r (own st)) = signal_count r
signal_count (next r (wakes s e)) = signal_count r
signal_count (next r (signals s)) = suc (signal_count r)

-- What holds at a place, after `n` signals.
abbrev At : Cannect → ℕ → Place → Cannect → Type 0
At app n Place.testing c = c ≡ app
At app n Place.blocking c = c ≡ app
At app n Place.blocked c = c ≡ app
At app n Place.returned c = (1 ≤ n) × (c ≡ cannect_stop app)

record Kept (app : Cannect) (n : ℕ) (s : Wait) : Type 0 where
  set_off : s.running ≡ false → 1 ≤ n
  at : At app n s.place s.app

At-notified :
    (app : Cannect) (n : ℕ) (p : Place) (c : Cannect) → At app n p c → At app (suc n) (notified p) c
At-notified app n Place.testing c a = a
At-notified app n Place.blocking c a = a
At-notified app n Place.blocked c a = a
At-notified app n Place.returned c a = (omega arith, a.1)

At-subst : (app : Cannect) (n : ℕ) {p q : Place} (c : Cannect) → p ≡ q → At app n p c → At app n q c
At-subst app n c e a = subst (λ r. At app n r c) e a

tested-Kept :
    (app : Cannect) (n : ℕ) (s : Wait) (b : Bool)
    → s.place ≡ Place.testing
    → s.running ≡ b
    → Kept app n s
    → Kept app n (test_by b s)
tested-Kept app n s true e on k = record { set_off = k.set_off; at = At-subst app n s.app e k.at }
tested-Kept app n s false e off k = record {
  set_off = k.set_off;
  at = (k.set_off off, ap cannect_stop (At-subst app n s.app e k.at));
}

Own-Kept : (app : Cannect) (n : ℕ) {s t : Wait} → Own s t → Kept app n s → Kept app n t
unfolding test
Own-Kept app n (tests s e) k = tested-Kept app n s s.running e refl k
Own-Kept app n (blocks s e) k = record { set_off = k.set_off; at = At-subst app n s.app e k.at }

Step-Kept :
    (app : Cannect) {s t : Wait} (r : Reaches s t) → Kept app 0 s → Kept app (signal_count r) t
unfolding signal_handler
Step-Kept app here k = k
Step-Kept app (next r (own st)) k = Own-Kept app (signal_count r) st (Step-Kept app r k)
Step-Kept app (next r (wakes s e)) k =
    let j = Step-Kept app r k in
    record { set_off = j.set_off; at = At-subst app (signal_count r) s.app e j.at }
Step-Kept app (next r (signals s)) k =
    let j = Step-Kept app r k in
    record { set_off = λ _. omega arith; at = At-notified app (signal_count r) s.place s.app j.at }

-- `waitSignal` returns only after a signal has come, and it has then stopped the `Cannect` that it was
-- called on. The signals may come at any moment, and the wait may wake up without one.
pub wait_signal-returned :
    (app : Cannect) {s : Wait} (r : Reaches (wait_signal app) s)
    → s.place ≡ Place.returned
    → (1 ≤ signal_count r) × (s.app ≡ cannect_stop app) × (s.app.started ≡ false)
wait_signal-returned app {s} r e =
    let k = Step-Kept app r (record { set_off = λ off. absurd (on_ne_off off); at = refl }) in
    let (came, stopped) = At-subst app (signal_count r) s.app e k.at in
    (came, stopped, ap (λ (c : Cannect). c.started) stopped ∙ stopped_lem app)
  where
    on_ne_off : true ≡ false → ⊥
    on_ne_off h = cc
