-- ===== src/Logger/Received.antt =====
-- What a callback is told over any history of calls of the logger (src/Logger.cpp).
use cannect.Base.{
  ℕ, ◌+◌, Bool, ◌==◌, leb, if◌then◌else◌, none, some, List, [], ◌∷◌, ◌++◌, replicate,
}
use cannect.App.Text.{Text}
use cannect.App.Printing.{dec}
use cannect.Logger.{
  LogLevel, LogLocation, LogSink, console_sink, file_sink, callback_sink, Written, out, err,
  appended, called, Logger, add_sink, remove_sinks, log_enabled,
}

-- A call of the logger.
pub data Call : Type 0 where
  adds : LogSink → Call
  removes : Call
  logs : LogLevel → Text → LogLocation → Call

unfoldable pub run : ℕ → Logger → List Call → List Written
run threshold l [] = []
run threshold l (adds sink ∷ calls) = run threshold (add_sink sink l) calls
run threshold l (removes ∷ calls) = run threshold (remove_sinks l) calls
run threshold l (logs level message loc ∷ calls) =
    log_enabled threshold level message loc l ++ run threshold l calls

-- What the callback `k` is given.
abbrev pub told : ℕ → List Written → List (LogLevel × Text)
told k [] = []
told k (out t ∷ ws) = told k ws
told k (err t ∷ ws) = told k ws
told k (appended path t ∷ ws) = told k ws
told k (called cb level t ∷ ws) =
    let rest = told k ws in if cb == k then (level, t) ∷ rest else rest

abbrev pub is_sink_of : ℕ → LogSink → ℕ
is_sink_of k console_sink = 0
is_sink_of k (file_sink path) = 0
is_sink_of k (callback_sink none) = 0
is_sink_of k (callback_sink (some cb)) = if cb == k then 1 else 0

-- The name of a file, by what has been read of it since the last slash.
abbrev pub base_name : Text → Text → Text
base_name read [] = read
base_name read (c ∷ s) = if c == b'/' then base_name [] s else base_name (read ++ c ∷ []) s

-- A message with the place that it comes from.
abbrev pub located : Text → LogLocation → Text
located message loc =
    b'['
    ∷ (base_name [] loc.file ++ b':' ∷ (dec loc.line ++ 32 ∷ (loc.func ++ b']' ∷ 32 ∷ message)))

-- LOG_LEVEL is at most the level's number, in the order of the levels.
abbrev pub enabled : ℕ → LogLevel → Bool
enabled threshold LogLevel.debug = leb threshold 0
enabled threshold LogLevel.info = leb threshold 1
enabled threshold LogLevel.warning = leb threshold 2
enabled threshold LogLevel.error = leb threshold 3

-- What it should be given: `n` is how often it is registered.
abbrev pub due : ℕ → ℕ → ℕ → List Call → List (LogLevel × Text)
due threshold k n [] = []
due threshold k n (adds sink ∷ calls) = due threshold k (n + is_sink_of k sink) calls
due threshold k n (removes ∷ calls) = due threshold k 0 calls
due threshold k n (logs level message loc ∷ calls) =
    let rest = due threshold k n calls in
    if enabled threshold level then replicate n (level, located message loc) ++ rest else rest

registrations : ℕ → List LogSink → ℕ
registrations k [] = 0
registrations k (sink ∷ sinks) = is_sink_of k sink + registrations k sinks
