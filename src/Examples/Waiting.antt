-- ===== src/Examples/Waiting.antt =====
-- A wait that ends, one whose signal is lost, calls of a dispatcher and of the logger.
use cannect.Base.{◌≤◌, ◌≡◌, ◌≢◌, ◌⊎◌, refl, Bool, true, false, some, List, [], ◌∷◌}
use cannect.Dispatcher.{Name, Cannect, CanDispatcher, cannect_stop}
use cannect.Dispatcher as Dispatcher
use cannect.Dispatcher.Registry.{Call, adds_interface, adds_receiver, starts, stops, view}
use cannect.Dispatcher.Registry.Refines.{all_called, all_promised, all_called-refines}
use cannect.Waiting.{
  Place, Wait, wait_signal, signal_handler, test, tests, blocks, Reaches, here, next, own, signals,
}
use cannect.Waiting.Ends.{signal_count, wait_signal-returned}
use cannect.Waiting.Lost.{Returns, Loses, signal_handler_lem}
use cannect.Logger.{LogLevel, LogLocation, callback_sink, console_sink, new}
use cannect.Logger.Received.{Call as LogCall, adds, removes, logs}

abbrev started : Cannect
started = record { dispatcher = record { entries = []; is_running = true }; started = true }

-- The thread tests, blocks, and a signal comes.
abbrev asleep : Wait
asleep = record { running = true; place = Place.blocked; app = started }

woken : Reaches (wait_signal started) (test (signal_handler asleep))
unfolding test signal_handler
woken =
    next
      (next (next (next here (own (tests (wait_signal started) refl))) (own (blocks _ refl)))
        (signals asleep))
      (own (tests (signal_handler asleep) refl))

woken_returned : (test (signal_handler asleep)).place ≡ Place.returned
unfolding test signal_handler
woken_returned = refl

differs : Place.blocking ≢ Place.returned
differs e = cc

wait_signal-returned_example :
    (1 ≤ signal_count woken)
    × ((test (signal_handler asleep)).app ≡ cannect_stop started)
    × ((test (signal_handler asleep)).app.started ≡ false)
wait_signal-returned_example = wait_signal-returned started woken woken_returned

abbrev about_to_block : Wait
about_to_block = record { running = true; place = Place.blocking; app = started }

signal_handler_lem_example :
    ((about_to_block.place ≢ Place.blocking) × Returns (signal_handler about_to_block))
    ⊎ ((about_to_block.place ≡ Place.blocking) × Loses (signal_handler about_to_block))
signal_handler_lem_example = signal_handler_lem about_to_block differs

abbrev opens_all : Name → Bool
opens_all name = true

abbrev can0 : Name
can0 = 99 ∷ 97 ∷ 110 ∷ 48 ∷ []

abbrev calls : List Call
calls =
    adds_interface can0
    ∷ adds_receiver can0 (some 1)
    ∷ adds_receiver [] (some 1)
    ∷ starts opens_all
    ∷ adds_interface []
    ∷ stops
    ∷ []

all_called-refines_example :
    ((all_called calls Dispatcher.new).0, view (all_called calls Dispatcher.new).1)
    ≡ all_promised calls (view Dispatcher.new)
all_called-refines_example = all_called-refines calls Dispatcher.new

abbrev place : LogLocation
place = record { file = 47 ∷ 97 ∷ []; func = []; line = 12 }

abbrev history : List LogCall
history =
    adds (callback_sink (some 4))
    ∷ logs LogLevel.info (104 ∷ 105 ∷ []) place
    ∷ adds console_sink
    ∷ logs LogLevel.error (104 ∷ 105 ∷ []) place
    ∷ removes
    ∷ logs LogLevel.error [] place
    ∷ []
