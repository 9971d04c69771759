-- ===== src/Types.antt =====
-- include/cannect/Types.hpp, include/cannect/cants/Types.hpp and include/cannect/Status.hpp.
-- An `enum class` over uint8_t can hold a value that has no enumerator: that is `other`.
use cannect.Base.{ℕ, List, if◌then◌else◌, ◌==◌, take}
use Prim.Native.String.{String}

-- CAN_FRAME_MAX_DATA.
abbrev pub can_frame_max_data : ℕ
can_frame_max_data = 8

-- `bytes` is the array `data`, of CAN_FRAME_MAX_DATA bytes.
pub record CanFrame : Type 0 where
  pub id : ℕ  -- uint32_t
  pub dlc : ℕ  -- uint8_t
  pub bytes : List ℕ  -- uint8_t[8]

-- The range `frame.data, frame.data + frame.dlc`.
abbrev pub payload : CanFrame → List ℕ
payload frame = take frame.dlc frame.bytes

pub data CanTsMessageType : Type 0 where
  timesync unsolicited telecommand telemetry setblock getblock : CanTsMessageType
  other : ℕ → CanTsMessageType

-- The underlying value, and the `static_cast` back.
abbrev pub message_code : CanTsMessageType → ℕ
message_code timesync = 0
message_code unsolicited = 1
message_code telecommand = 2
message_code telemetry = 3
message_code setblock = 4
message_code getblock = 5
message_code (other n) = n

abbrev pub to_message_type : ℕ → CanTsMessageType
to_message_type n =
    if n == 0
    then timesync
    else if n == 1
    then unsolicited
    else if n == 2
    then telecommand
    else if n == 3
    then telemetry
    else if n == 4
    then setblock
    else if n == 5
    then getblock
    else other n

pub record CanTsHeader : Type 0 where
  pub to : ℕ  -- uint8_t
  pub from : ℕ  -- uint8_t
  pub type : CanTsMessageType
  pub command : ℕ  -- uint16_t

pub data Status : Type 0 where
  success unsuccess invalid_argument interface_already_open interface_invalid_name : Status

unfoldable pub status_to_string : Status → String
status_to_string success = "SUCCESS"
status_to_string unsuccess = "UNSUCCESS"
status_to_string invalid_argument = "INVALID_ARGUMENT"
status_to_string interface_already_open = "INTERFACE_ALREADY_OPEN"
status_to_string interface_invalid_name = "INTERFACE_INVALID_NAME"

unfoldable pub status_description : Status → String
status_description success = "Success"
status_description unsuccess = "Unsuccess"
status_description invalid_argument = "Invalid argument"
status_description interface_already_open = "Interface already open"
status_description interface_invalid_name = "Interface name is invalid"
