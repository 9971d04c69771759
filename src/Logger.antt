-- ===== src/Logger.antt =====
-- src/Logger.cpp, include/cannect/Logger.hpp, include/cannect/ILogSink.hpp and
-- include/cannect/LogSinks.hpp: the logger, which gives each message to all its sinks, and the sinks.
pub mod Received
use cannect.Base.{ℕ, ◌==◌, leb, if◌then◌else◌, Option, none, some, List, [], ◌∷◌, ◌++◌}
use cannect.App.Text.{Text, codes}
use cannect.App.Printing.{dec}

pub data LogLevel : Type 0 where
  debug info warning error : LogLevel

abbrev pub level_code : LogLevel → ℕ
level_code debug = 0
level_code info = 1
level_code warning = 2
level_code error = 3

pub record LogLocation : Type 0 where
  pub file : Text
  pub func : Text
  pub line : ℕ

-- The sinks: a console; a file, by its path; and a callback, which may be empty.
pub data LogSink : Type 0 where
  console_sink : LogSink
  file_sink : Text → LogSink
  callback_sink : Option ℕ → LogSink

-- What a sink does with a message: it writes to `std::cout` or `std::cerr`, appends to its file, or
-- calls its callback.
pub data Written : Type 0 where
  out err : Text → Written
  appended : Text → Text → Written
  called : ℕ → LogLevel → Text → Written

abbrev pub prefix : LogLevel → Text
prefix debug = codes "[DBG]"
prefix info = codes "[INF]"
prefix warning = codes "[WRN]"
prefix error = codes "[ERR]"

abbrev pub line_of : LogLevel → Text → Text
line_of level message = prefix level ++ (b' ' ∷ (message ++ 10 ∷ []))

abbrev pub console_log : LogLevel → Text → List Written
console_log level message =
    (if leb 2 (level_code level)
      then Written.err (line_of level message)
      else out (line_of level message))
    ∷ []

abbrev pub callback_log : Option ℕ → LogLevel → Text → List Written
callback_log none level message = []
callback_log (some cb) level message = called cb level message ∷ []

unfoldable pub sink_log : LogSink → LogLevel → Text → List Written
sink_log console_sink level message = console_log level message
sink_log (file_sink path) level message = appended path (line_of level message) ∷ []
sink_log (callback_sink cb) level message = callback_log cb level message

pub record Logger : Type 0 where
  pub sinks : List LogSink

abbrev pub new : Logger
new = record { sinks = [] }

unfoldable pub add_sink : LogSink → Logger → Logger
add_sink sink l = record { sinks = l.sinks ++ sink ∷ [] }

unfoldable pub remove_sinks : Logger → Logger
remove_sinks l = record { sinks = [] }

-- `path(file).filename()`: what stands behind the last slash.
unfoldable pub after_slash : Text → Option Text
after_slash [] = none
after_slash (c ∷ s) = elim (after_slash s) [
  | some t ↦ some t
  | none ↦ if c == b'/' then some s else none
]

unfoldable pub file_name : Text → Text
unfolding after_slash
file_name path = elim (after_slash path) [ some t ↦ t | none ↦ path ]

unfoldable pub full_text : Text → LogLocation → Text
full_text message loc =
    codes "["
    ++ (file_name loc.file
        ++ (codes ":" ++ (dec loc.line ++ (codes " " ++ (loc.func ++ (codes "] " ++ message))))))

-- The loop over the sinks.
unfoldable pub give_all : List LogSink → LogLevel → Text → List Written
give_all [] level full = []
give_all (sink ∷ sinks) level full = sink_log sink level full ++ give_all sinks level full

unfoldable pub log : LogLevel → Text → LogLocation → Logger → List Written
log level message loc l = give_all l.sinks level (full_text message loc)

-- LOG_DEBUG to LOG_ERROR, where the macro LOG_LEVEL is `threshold`.
unfoldable pub log_enabled : ℕ → LogLevel → Text → LogLocation → Logger → List Written
log_enabled threshold level message loc l =
    if leb threshold (level_code level) then log level message loc l else []

-- `debug`, `info`, `warning` and `error`, which give no location.
abbrev pub nowhere : LogLocation
nowhere = record { file = codes "?"; func = codes "?"; line = 0 }

unfoldable pub say : LogLevel → Text → Logger → List Written
say level message l = log level message nowhere l
