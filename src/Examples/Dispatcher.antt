-- ===== src/Examples/Dispatcher.antt =====
-- A dispatcher with one interface (src/CanDispatcher.cpp, src/Cannect.cpp).

use cannect.Base.{◌≡◌, refl, Bool, true, false, List, [], ◌∷◌, ◌==◌}
use cannect.Types.{CanFrame, Status, success, unsuccess}
use cannect.Dispatcher.{
  Name, Filter, Thread, DispatcherEntry, Cannect, run_interface, new, cannect_add_interface,
  cannect_start, cannect_stop,
}
use cannect.Dispatcher.Runs.{Step, Reachable, IsSound, Reachable-IsSound}
use cannect.Dispatcher.Given.{given_to, all_pass, passing, run_interface-given_to}

-- "can0".
abbrev can0 : Name
can0 = 99 ∷ 97 ∷ 110 ∷ 48 ∷ []

abbrev short : Filter
short frame = frame.dlc == 1

abbrev from_id_5 : Filter
from_id_5 frame = frame.id == 5

abbrev entry : DispatcherEntry
entry = record {
  name = can0;
  filters = short ∷ from_id_5 ∷ [];
  receivers = 1 ∷ 2 ∷ [];
  opened = true;
  thread = Thread.running;
}

abbrev good : CanFrame
good = record { id = 5; dlc = 1; bytes = 9 ∷ [] }

abbrev other_id : CanFrame
other_id = record { id = 6; dlc = 1; bytes = 9 ∷ [] }

abbrev read : List (Status × CanFrame)
read = (success, good) ∷ (unsuccess, good) ∷ (success, other_id) ∷ (success, good) ∷ []

read_passes : passing (all_pass entry.filters) read ≡ good ∷ good ∷ []
read_passes = refl

run_interface-given_to_example :
    given_to 2 (run_interface entry read) ≡ passing (all_pass entry.filters) read
run_interface-given_to_example = run_interface-given_to entry read 2 refl

abbrev opens_all : Name → Bool
opens_all name = true

abbrev at_first : Cannect
at_first = record { dispatcher = new; started = false }

abbrev with_can0 : Cannect
with_can0 = (cannect_add_interface can0 at_first).1

abbrev started : Cannect
started = (cannect_start opens_all with_can0).1

abbrev stopped : Cannect
stopped = cannect_stop started

stopped-Reachable : Reachable stopped
stopped-Reachable =
    Reachable.later
      (Reachable.later (Reachable.later Reachable.fresh (Step.adds_interface can0 at_first))
        (Step.starts opens_all with_can0))
      (Step.stops started)

Reachable-IsSound_example : IsSound stopped
Reachable-IsSound_example = Reachable-IsSound stopped-Reachable
