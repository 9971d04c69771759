-- ===== src/Protocol/State.antt =====
-- The state of CanTsProtocol (include/cannect/cants/CanTsProtocol.hpp), what it does outside, and how
-- it sends a frame (CanTsProtocol::sendFrame of src/cants/CanTsProtocol.cpp).
use cannect.Base.{
  ℕ, Bool, true, false, Option, none, some, List, [], ◌∷◌, ◌++◌, ltb, ◌==◌, if◌then◌else◌,
  replicate, take, drop,
}
use cannect.Types.{CanFrame, CanTsHeader, Status, success, invalid_argument, can_frame_max_data}
use cannect.Wire.{make_frame}
use cannect.SetBlock.State as SetBlock
use cannect.GetBlock.State as GetBlock

-- What `ICanFrameTransmitter::send` answers for a frame.
abbrev pub Transmitter : Type 0
Transmitter = CanFrame → Status

-- `bool(from, channel, request[8])`.
abbrev pub TcHandler : Type 0
TcHandler = ℕ → ℕ → List ℕ → Bool

-- `bool(from, channel, response[8])`: its answer and the eight bytes that it leaves.
abbrev pub TmHandler : Type 0
TmHandler = ℕ → ℕ → Bool × List ℕ

-- What a call does outside: the frames that it gives to the transmitter and the callbacks that it
-- calls.
pub data Effect : Type 0 where
  transmit : CanFrame → Effect
  telecommand_call : ℕ → ℕ → List ℕ → Effect
  telemetry_call : ℕ → ℕ → Effect
  unsolicited_call : ℕ → ℕ → List ℕ → Effect
  time_sync_call : ℕ → List ℕ → Effect
  set_block_call : ℕ → ℕ → List ℕ → Effect
  get_block_call : ℕ → ℕ → Effect

-- `bytes` is the array `data`.
pub record PendingTcTm : Type 0 where
  pub waiting : Bool
  pub done : Bool
  pub ok : Bool
  pub peer : ℕ
  pub channel : ℕ
  pub bytes : List ℕ
  pub dlc : ℕ

-- `peers` is the unordered_map of `lastSeen` in nanoseconds, as a function of the key. The callbacks
-- `utmHandler` and `tsHandler` answer nothing: only whether they are set matters.
pub record CanTsProtocol : Type 0 where
  pub local_address : ℕ
  pub transmitter : Option Transmitter
  pub tc_handler : Option TcHandler
  pub tm_handler : Option TmHandler
  pub has_utm_handler : Bool
  pub has_ts_handler : Bool
  pub peers : ℕ → Option ℕ
  pub pending_tc : PendingTcTm
  pub pending_tm : PendingTcTm
  pub last_telemetry : List ℕ
  pub last_telemetry_dlc : ℕ
  pub set_block_mgr : SetBlock.SetBlockManager
  pub get_block_mgr : GetBlock.GetBlockManager

-- An array of CAN_FRAME_MAX_DATA zeros.
abbrev pub zeros : List ℕ
zeros = replicate can_frame_max_data 0

-- `PendingTcTm{}`.
abbrev pub no_pending : PendingTcTm
no_pending = record {
  waiting = false;
  done = false;
  ok = false;
  peer = 0;
  channel = 0;
  bytes = zeros;
  dlc = 0;
}

abbrev pub new : ℕ → CanTsProtocol
new local_address = record {
  local_address = local_address;
  transmitter = none;
  tc_handler = none;
  tm_handler = none;
  has_utm_handler = false;
  has_ts_handler = false;
  peers = λ _. none;
  pending_tc = no_pending;
  pending_tm = no_pending;
  last_telemetry = zeros;
  last_telemetry_dlc = 0;
  set_block_mgr = SetBlock.new local_address;
  get_block_mgr = GetBlock.new local_address;
}

unfoldable pub set_frame_transmitter : Option Transmitter → CanTsProtocol → Status × CanTsProtocol
set_frame_transmitter none p = (invalid_argument, record p { transmitter = none })
set_frame_transmitter (some tx) p = (success, record p { transmitter = some tx })

abbrev pub set_telecommand_handler : Option TcHandler → CanTsProtocol → CanTsProtocol
set_telecommand_handler handler p = record p { tc_handler = handler }

abbrev pub set_telemetry_handler : Option TmHandler → CanTsProtocol → CanTsProtocol
set_telemetry_handler handler p = record p { tm_handler = handler }

abbrev pub set_unsolicited_telemetry_handler : Bool → CanTsProtocol → CanTsProtocol
set_unsolicited_telemetry_handler is_set p = record p { has_utm_handler = is_set }

abbrev pub set_time_sync_handler : Bool → CanTsProtocol → CanTsProtocol
set_time_sync_handler is_set p = record p { has_ts_handler = is_set }

abbrev pub set_get_block_handler : Option GetBlock.Handler → CanTsProtocol → CanTsProtocol
set_get_block_handler handler p = record p {
  get_block_mgr = GetBlock.set_handler handler p.get_block_mgr;
}

abbrev pub set_set_block_handler : Option SetBlock.Handler → CanTsProtocol → CanTsProtocol
set_set_block_handler handler p = record p {
  set_block_mgr = SetBlock.set_handler handler p.set_block_mgr;
}

-- `memcpy(dst, src, n)`.
abbrev pub copy_over : List ℕ → List ℕ → ℕ → List ℕ
copy_over dst src n = take n src ++ drop n dst

abbrev pub is_success : Status → Bool
is_success success = true
is_success _ = false

-- The answer, and what is given to the transmitter. A null `data` is the empty list.
unfoldable pub send_frame : CanTsProtocol → CanTsHeader → List ℕ → ℕ → Bool × List Effect
send_frame p h bytes dlc = elim p.transmitter [
  | none ↦ (false, [])
  | some tx ↦
      if ltb can_frame_max_data dlc
      then (false, [])
      else (is_success (tx (make_frame h bytes dlc)), transmit (make_frame h bytes dlc) ∷ [])
]

-- `sendFrame` and the callbacks as the managers call them.
abbrev pub set_block_effects : CanTsProtocol → List SetBlock.Effect → List Effect
set_block_effects p [] = []
set_block_effects p (SetBlock.send h bytes dlc ∷ es) =
    (send_frame p h bytes dlc).1 ++ set_block_effects p es
set_block_effects p (SetBlock.call from channel request ∷ es) =
    set_block_call from channel request ∷ set_block_effects p es

abbrev pub get_block_effects : CanTsProtocol → List GetBlock.Effect → List Effect
get_block_effects p [] = []
get_block_effects p (GetBlock.send h bytes dlc ∷ es) =
    (send_frame p h bytes dlc).1 ++ get_block_effects p es
get_block_effects p (GetBlock.ask from channel ∷ es) =
    get_block_call from channel ∷ get_block_effects p es

unfoldable pub note_peer_alive : CanTsProtocol → ℕ → ℕ → CanTsProtocol
note_peer_alive p now peer = record p { peers = λ k. if k == peer then some now else p.peers k }
