-- ===== src/SetBlock/State.antt =====
-- The state of SetBlockManager (include/cannect/cants/SetBlockManager.hpp) and what it does outside.
use cannect.Base.{ℕ, Bool, false, Option, none, List, [], ◌==◌, if◌then◌else◌}
use cannect.Types.{CanTsHeader}

-- The registered callback, `bool(from, channel, request)`. It is given a copy of the data.
abbrev pub Handler : Type 0
Handler = ℕ → ℕ → List ℕ → Bool

-- What a registered `frameSender` answers.
abbrev pub FrameSender : Type 0
FrameSender = CanTsHeader → List ℕ → ℕ → Bool

-- What a call does outside the manager: `frameSender(header, data, dlc)` and the handler's call.
pub data Effect : Type 0 where
  send : CanTsHeader → List ℕ → ℕ → Effect
  call : ℕ → ℕ → List ℕ → Effect

pub record Session : Type 0 where
  pub peer : ℕ
  pub channel : ℕ
  pub address : List ℕ
  pub num_blocks : ℕ
  pub blocks : List (List ℕ)
  pub last_activity : ℕ
  pub prepared : Bool
  pub done : Bool
  pub accepted : Bool

pub record PendingState : Type 0 where
  pub active : Bool
  pub waiting_request_ack : Bool
  pub request_acked : Bool
  pub waiting_report : Bool
  pub report_received : Bool
  pub done : Bool
  pub ok : Bool
  pub peer : ℕ
  pub channel : ℕ
  pub num_blocks : ℕ
  pub bitmap : List ℕ

-- `sessions` is the unordered_map, as a function of the key.
pub record SetBlockManager : Type 0 where
  pub local_address : ℕ
  pub handler : Option Handler
  pub sessions : ℕ → Option Session
  pub pending : PendingState

-- `pending = {}`.
abbrev pub no_pending : PendingState
no_pending = record {
  active = false;
  waiting_request_ack = false;
  request_acked = false;
  waiting_report = false;
  report_received = false;
  done = false;
  ok = false;
  peer = 0;
  channel = 0;
  num_blocks = 0;
  bitmap = [];
}

abbrev pub new : ℕ → SetBlockManager
new local_address = record {
  local_address = local_address;
  handler = none;
  sessions = λ _. none;
  pending = no_pending;
}

abbrev pub set_handler : Option Handler → SetBlockManager → SetBlockManager
set_handler h m = record m { handler = h }

-- `sessions[key] = v` and `sessions.erase(key)`.
abbrev pub store : (ℕ → Option Session) → ℕ → Option Session → ℕ → Option Session
store sessions key v k = if k == key then v else sessions k

abbrev pub reset : SetBlockManager → SetBlockManager
reset m = record m { pending = no_pending }
