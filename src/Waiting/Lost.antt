-- ===== src/Waiting/Lost.antt =====
-- What a signal does to the wait, by the moment at which it comes (src/Cannect.cpp).
use cannect.Base.{◌≡◌, ◌≢◌, refl, ap, Bool, true, false, ◌⊎◌, inl, inr}
use cannect.Dispatcher.{cannect_stop}
use cannect.Waiting.{Place, Wait, notified, signal_handler, test, test_by, Own, tests, blocks}

-- The thread is blocked although the predicate holds.
pub record IsLost (s : Wait) : Type 0 where
  pub unset : s.running ≡ false
  pub held : s.place ≡ Place.blocked

-- The thread can go on, and it can only end the wait and stop the `Cannect`.
pub record Returns (s : Wait) : Type 0 where
  pub goes_on : (t : Wait) × Own s t
  pub ends : (t : Wait) → Own s t → (t.place ≡ Place.returned) × (t.app ≡ cannect_stop s.app)

-- The thread can go on, and it can only block for good.
pub record Loses (s : Wait) : Type 0 where
  pub goes_on : (t : Wait) × Own s t
  pub loses : (t : Wait) → Own s t → IsLost t × ((u : Wait) → Own t u → ⊥)

testing-ne-blocked : (p : Place) → p ≡ Place.testing → p ≡ Place.blocked → ⊥
testing-ne-blocked p e f = cc

blocking-ne-blocked : (p : Place) → p ≡ Place.blocking → p ≡ Place.blocked → ⊥
blocking-ne-blocked p e f = cc

testing-ne-blocking : (p : Place) → p ≡ Place.testing → p ≡ Place.blocking → ⊥
testing-ne-blocking p e f = cc

-- A lost wait has no step of its own.
pub IsLost-Own : {s t : Wait} → IsLost s → Own s t → ⊥
IsLost-Own l (tests s e) = testing-ne-blocked s.place e l.held
IsLost-Own l (blocks s e) = blocking-ne-blocked s.place e l.held

ended :
    (s : Wait) (b : Bool)
    → b ≡ false
    → ((test_by b s).place ≡ Place.returned) × ((test_by b s).app ≡ cannect_stop s.app)
ended s true e = absurd (on_ne_off e)
  where
    on_ne_off : true ≡ false → ⊥
    on_ne_off h = cc
ended s false e = (refl, refl)

step_ends :
    {s t : Wait}
    → s.running ≡ false
    → s.place ≡ Place.testing
    → Own s t
    → (t.place ≡ Place.returned) × (t.app ≡ cannect_stop s.app)
unfolding test
step_ends off e (tests s _) = ended s s.running off
step_ends off e (blocks s f) = absurd (testing-ne-blocking s.place e f)

testing-Returns : (s : Wait) → s.running ≡ false → s.place ≡ Place.testing → Returns s
testing-Returns s off e = record {
  goes_on = (test s, tests s e);
  ends = λ t st. step_ends off e st;
}

step_loses :
    {s t : Wait}
    → s.running ≡ false
    → s.place ≡ Place.blocking
    → Own s t
    → IsLost t × ((u : Wait) → Own t u → ⊥)
step_loses off e (tests s f) = absurd (testing-ne-blocking s.place f e)
step_loses off e (blocks s _) =
    let l : IsLost (record s { place = Place.blocked }) = record { unset = off; held = refl } in
    (l, λ u st. IsLost-Own l st)

blocking-Loses : (s : Wait) → s.running ≡ false → s.place ≡ Place.blocking → Loses s
blocking-Loses s off e = record {
  goes_on = (record s { place = Place.blocked }, blocks s e);
  loses = λ t st. step_loses off e st;
}

-- A signal that comes while the thread is blocked, or before it tests the predicate, ends the wait with
-- the thread's next step. One that comes after the test and before the block is lost: the thread then
-- blocks although the predicate holds, and has no step of its own.
pub signal_handler_lem :
    (s : Wait)
    → s.place ≢ Place.returned
    → ((s.place ≢ Place.blocking) × Returns (signal_handler s))
      ⊎ ((s.place ≡ Place.blocking) × Loses (signal_handler s))
unfolding signal_handler
signal_handler_lem s n = by_place s.place refl
  where
    by_place :
        (p : Place)
        → s.place ≡ p
        → ((s.place ≢ Place.blocking) × Returns (signal_handler s))
          ⊎ ((s.place ≡ Place.blocking) × Loses (signal_handler s))
    by_place Place.testing e = inl (
      (λ f. testing-ne-blocking s.place e f),
      testing-Returns (signal_handler s) refl (ap notified e),
    )
    by_place Place.blocked e = inl (
      (λ f. blocking-ne-blocked s.place f e),
      testing-Returns (signal_handler s) refl (ap notified e),
    )
    by_place Place.returned e = absurd (n e)
    by_place Place.blocking e = inr (e, blocking-Loses (signal_handler s) refl (ap notified e))
