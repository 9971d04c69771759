-- ===== src/Dispatcher/Given.antt =====
-- What a receiver is given by the thread that reads its interface.
use mathlib.Core.Path.{ap₂}
use cannect.Base.{
  ℕ, suc, ◌≡◌, refl, ◌∙◌, ap, arith, Bool, true, ◌&&◌, List, [], ◌∷◌, ◌++◌, ◌==◌, replicate,
  if◌then◌else◌, Bool-cases, inl, inr,
}
use cannect.Types.{CanFrame, Status, success}
use cannect.Dispatcher.{Filter, DispatcherEntry, accepted, give, is_success, run_interface}

-- The frames that receiver `r` is given, in order.
abbrev pub given_to : ℕ → List (ℕ × CanFrame) → List CanFrame
given_to r [] = []
given_to r (c ∷ calls) = let rest = given_to r calls in if c.0 == r then c.1 ∷ rest else rest

-- How often `r` is registered.
abbrev pub registered : ℕ → List ℕ → ℕ
registered r [] = 0
registered r (x ∷ receivers) = let n = registered r receivers in if x == r then suc n else n

-- All filters of a list pass a frame.
abbrev pub all_pass : List Filter → CanFrame → Bool
all_pass [] frame = true
all_pass (f ∷ filters) frame = f frame && all_pass filters frame

-- The frames that were received with SUCCESS and that a test passes.
abbrev pub passing : (CanFrame → Bool) → List (Status × CanFrame) → List CanFrame
passing test [] = []
passing test ((success, frame) ∷ received) =
    let rest = passing test received in if test frame then frame ∷ rest else rest
passing test ((_, frame) ∷ received) = passing test received

given_to-append :
    (r : ℕ) (cs ds : List (ℕ × CanFrame)) → given_to r (cs ++ ds) ≡ given_to r cs ++ given_to r ds
given_to-append r [] ds = refl
given_to-append r (c ∷ cs) ds = elim (Bool-cases (c.0 == r)) [
  | inl e ↦ rw e (ap (λ t. c.1 ∷ t) (given_to-append r cs ds))
  | inr e ↦ rw e (given_to-append r cs ds)
]

given_to-give :
    (r : ℕ) (receivers : List ℕ) (frame : CanFrame)
    → given_to r (give receivers frame) ≡ replicate (registered r receivers) frame
given_to-give r [] frame = refl
given_to-give r (x ∷ receivers) frame = elim (Bool-cases (x == r)) [
  | inl e ↦ rw e (ap (λ t. frame ∷ t) (given_to-give r receivers frame))
  | inr e ↦ rw e (given_to-give r receivers frame)
]

accepted-all_pass :
    (filters : List Filter) (frame : CanFrame) → accepted filters frame ≡ all_pass filters frame
unfolding accepted
accepted-all_pass [] frame = refl
accepted-all_pass (f ∷ filters) frame = ground (arith, accepted-all_pass filters frame)

-- A received frame by its status.
passing-more :
    (test : CanFrame → Bool) (x : Status × CanFrame) (received : List (Status × CanFrame))
    → passing test (x ∷ received)
      ≡ (if is_success x.0 && test x.1 then x.1 ∷ passing test received else passing test received)
passing-more test (success, frame) received = refl
passing-more test (_, frame) received = refl

-- While the dispatcher runs, a receiver that is registered once at an interface is given, in order and
-- once each, exactly the frames that the interface received with SUCCESS and that all its filters pass.
pub run_interface-given_to :
    (e : DispatcherEntry) (received : List (Status × CanFrame)) (r : ℕ)
    → registered r e.receivers ≡ 1
    → given_to r (run_interface e received) ≡ passing (all_pass e.filters) received
unfolding run_interface
run_interface-given_to e [] r once = refl
run_interface-given_to e (x ∷ received) r once =
    let rest = run_interface-given_to e received r once in
    let same = accepted-all_pass e.filters x.1 in
    let more = passing-more (all_pass e.filters) x received in
    elim (Bool-cases (is_success x.0)) [
      | inr bad ↦ rw (more, bad) rest
      | inl good ↦ elim (Bool-cases (all_pass e.filters x.1)) [
        | inr no_ ↦ rw (more, good, same, no_) rest
        | inl yes_ ↦
            rw (more, good, same, yes_)
              (given_to-append r (give e.receivers x.1) (run_interface e received)
                ∙ ap₂ ◌++◌ (given_to-give r e.receivers x.1 ∙ ap (λ n. replicate n x.1) once) rest)
      ]
    ]
