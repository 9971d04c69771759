-- ===== src/GetBlock/State.antt =====
-- The state of GetBlockManager (include/cannect/cants/GetBlockManager.hpp) and what it does outside.
use cannect.Base.{ℕ, Bool, true, false, Option, none, List, [], ◌==◌, if◌then◌else◌}
use cannect.Types.{CanTsHeader}
use cannect.SetBlock.Receiver.{is_empty}

-- The registered callback, `bool(from, channel, response&)`: its answer, and the response it leaves.
abbrev pub Handler : Type 0
Handler = ℕ → ℕ → Bool × List ℕ

abbrev pub FrameSender : Type 0
FrameSender = CanTsHeader → List ℕ → ℕ → Bool

-- What a call does outside the manager: `frameSender(header, data, dlc)` and the handler's call.
pub data Effect : Type 0 where
  send : CanTsHeader → List ℕ → ℕ → Effect
  ask : ℕ → ℕ → Effect

pub record Session : Type 0 where
  pub peer : ℕ
  pub channel : ℕ
  pub address : List ℕ
  pub num_blocks : ℕ
  pub blocks : List (List ℕ)
  pub last_activity : ℕ
  pub prepared : Bool
  pub accepted : Bool

pub record PendingState : Type 0 where
  pub waiting_ack : Bool
  pub acked : Bool
  pub waiting_transfers : Bool
  pub done : Bool
  pub ok : Bool
  pub peer : ℕ
  pub channel : ℕ
  pub num_blocks : ℕ
  pub blocks : List (List ℕ)
  pub received : List Bool

-- `sessions` is the unordered_map, as a function of the key.
pub record GetBlockManager : Type 0 where
  pub local_address : ℕ
  pub handler : Option Handler
  pub sessions : ℕ → Option Session
  pub pending : PendingState
  pub last_data : List ℕ

-- `pending = {}`.
abbrev pub no_pending : PendingState
no_pending = record {
  waiting_ack = false;
  acked = false;
  waiting_transfers = false;
  done = false;
  ok = false;
  peer = 0;
  channel = 0;
  num_blocks = 0;
  blocks = [];
  received = [];
}

abbrev pub new : ℕ → GetBlockManager
new local_address = record {
  local_address = local_address;
  handler = none;
  sessions = λ _. none;
  pending = no_pending;
  last_data = [];
}

abbrev pub set_handler : Option Handler → GetBlockManager → GetBlockManager
set_handler h m = record m { handler = h }

-- `sessions[key] = v` and `sessions.erase(key)`.
abbrev pub store : (ℕ → Option Session) → ℕ → Option Session → ℕ → Option Session
store sessions key v k = if k == key then v else sessions k

abbrev pub reset : GetBlockManager → GetBlockManager
reset m = record m { pending = no_pending }

-- The answer and the bytes written to `out`.
unfoldable pub get_last_data : GetBlockManager → Bool × Option (List ℕ)
get_last_data m = if is_empty m.last_data then (false, none) else (true, Option.some m.last_data)
