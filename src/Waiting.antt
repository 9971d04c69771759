-- ===== src/Waiting.antt =====
-- `Cannect::waitSignal` and the signal handler of src/Cannect.cpp, as steps of the thread that waits and
-- of the signals that come.
pub mod Ends
pub mod Lost
use cannect.Base.{ℕ, Bool, true, false, ◌≡◌}
use cannect.Dispatcher.{Cannect, cannect_stop}

-- Where the thread is in `gCv.wait(lock, ...)`: about to evaluate the predicate; about to block, since
-- the predicate was false; blocked; or behind the wait and `stop()`.
pub data Place : Type 0 where
  testing blocking blocked returned : Place

-- `running` is `gRunning`.
pub record Wait : Type 0 where
  pub running : Bool
  pub place : Place
  pub app : Cannect

-- `waitSignal` up to the wait.
abbrev pub wait_signal : Cannect → Wait
wait_signal app = record { running = true; place = Place.testing; app = app }

-- `notify_one` wakes a thread that is blocked, and does nothing to another.
abbrev pub notified : Place → Place
notified Place.testing = Place.testing
notified Place.blocking = Place.blocking
notified Place.blocked = Place.testing
notified Place.returned = Place.returned

-- `signalHandler`, which does not take `gMutex`.
unfoldable pub signal_handler : Wait → Wait
signal_handler s = record s { running = false; place = notified s.place }

-- The predicate, and what follows it: the wait blocks, or it ends and `stop()` is called.
abbrev pub test_by : Bool → Wait → Wait
test_by true s = record s { place = Place.blocking }
test_by false s = record s { place = Place.returned; app = cannect_stop s.app }

unfoldable pub test : Wait → Wait
test s = test_by s.running s

-- A step of the waiting thread.
pub data Own : Wait → Wait → Type 0 where
  tests : (s : Wait) → s.place ≡ Place.testing → Own s (test s)
  blocks : (s : Wait) → s.place ≡ Place.blocking → Own s (record s { place = Place.blocked })

-- Any step: also a wake-up without a notification, which a condition variable may have, and a signal.
pub data Step : Wait → Wait → Type 0 where
  own : {s t : Wait} → Own s t → Step s t
  wakes : (s : Wait) → s.place ≡ Place.blocked → Step s (record s { place = Place.testing })
  signals : (s : Wait) → Step s (signal_handler s)

pub data Reaches (s : Wait) : Wait → Type 0 where
  here : Reaches s s
  next : {t u : Wait} → Reaches s t → Step t u → Reaches s u
