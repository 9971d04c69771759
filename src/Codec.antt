-- ===== src/Codec.antt =====
-- src/cants/CanTsCodec.hpp: how a CAN-TS header packs into the 29 bits of a CAN identifier, how the
-- 10 command bits are divided, and the bitmaps of received blocks.
pub mod Header
pub mod Command
pub mod Bitmap
use cannect.Base.{
  ℕ, ◌+◌, ◌*◌, ◌/◌, ◌%◌, ◌^◌, Bool, true, false, not, ◌&&◌, List, [], ◌∷◌, bit_and, bit_or, u8, u16,
  shl32, shr, ◌==◌, leb, if◌then◌else◌, length, replicate, set, get_or,
}
use cannect.Types.{CanTsHeader, CanTsMessageType, message_code, to_message_type}

-- CAN_TS_MAX_BLOCK_BYTES.
abbrev pub can_ts_max_block_bytes : ℕ
can_ts_max_block_bytes = 512

pub data CanTsReqAck : Type 0 where
  req ack nack : CanTsReqAck
  other : ℕ → CanTsReqAck

pub data SetBlockFrameType : Type 0 where
  request transfer ack abort nack status_request report : SetBlockFrameType
  other : ℕ → SetBlockFrameType

pub data GetBlockFrameType : Type 0 where
  request ack abort nack start transfer : GetBlockFrameType
  other : ℕ → GetBlockFrameType

abbrev pub req_ack_code : CanTsReqAck → ℕ
req_ack_code CanTsReqAck.req = 0
req_ack_code CanTsReqAck.ack = 1
req_ack_code CanTsReqAck.nack = 2
req_ack_code (CanTsReqAck.other n) = n

abbrev pub to_req_ack : ℕ → CanTsReqAck
to_req_ack n =
    if n == 0
    then CanTsReqAck.req
    else if n == 1
    then CanTsReqAck.ack
    else if n == 2
    then CanTsReqAck.nack
    else CanTsReqAck.other n

abbrev pub set_block_code : SetBlockFrameType → ℕ
set_block_code SetBlockFrameType.request = 0
set_block_code SetBlockFrameType.transfer = 1
set_block_code SetBlockFrameType.ack = 2
set_block_code SetBlockFrameType.abort = 3
set_block_code SetBlockFrameType.nack = 4
set_block_code SetBlockFrameType.status_request = 6
set_block_code SetBlockFrameType.report = 7
set_block_code (SetBlockFrameType.other n) = n

abbrev pub to_set_block_type : ℕ → SetBlockFrameType
to_set_block_type n =
    if n == 0
    then SetBlockFrameType.request
    else if n == 1
    then SetBlockFrameType.transfer
    else if n == 2
    then SetBlockFrameType.ack
    else if n == 3
    then SetBlockFrameType.abort
    else if n == 4
    then SetBlockFrameType.nack
    else if n == 6
    then SetBlockFrameType.status_request
    else if n == 7
    then SetBlockFrameType.report
    else SetBlockFrameType.other n

abbrev pub get_block_code : GetBlockFrameType → ℕ
get_block_code GetBlockFrameType.request = 0
get_block_code GetBlockFrameType.ack = 2
get_block_code GetBlockFrameType.abort = 3
get_block_code GetBlockFrameType.nack = 4
get_block_code GetBlockFrameType.start = 6
get_block_code GetBlockFrameType.transfer = 7
get_block_code (GetBlockFrameType.other n) = n

abbrev pub to_get_block_type : ℕ → GetBlockFrameType
to_get_block_type n =
    if n == 0
    then GetBlockFrameType.request
    else if n == 2
    then GetBlockFrameType.ack
    else if n == 3
    then GetBlockFrameType.abort
    else if n == 4
    then GetBlockFrameType.nack
    else if n == 6
    then GetBlockFrameType.start
    else if n == 7
    then GetBlockFrameType.transfer
    else GetBlockFrameType.other n

abbrev to_mask : ℕ
to_mask = shl32 0xff 21

abbrev type_mask : ℕ
type_mask = shl32 0x7 18

abbrev from_mask : ℕ
from_mask = shl32 0xff 10

abbrev cmd_mask : ℕ
cmd_mask = shl32 0x3ff 0

unfoldable pub encode : CanTsHeader → ℕ
encode h =
    let id = bit_or 0 (bit_and (shl32 h.to 21) to_mask) in
    let id = bit_or id (bit_and (shl32 (message_code h.type) 18) type_mask) in
    let id = bit_or id (bit_and (shl32 h.from 10) from_mask) in
    bit_or id (bit_and (shl32 h.command 0) cmd_mask)

unfoldable pub decode : ℕ → CanTsHeader
decode can_id = record {
  to = u8 (shr (bit_and can_id to_mask) 21);
  from = u8 (shr (bit_and can_id from_mask) 10);
  type = to_message_type (shr (bit_and can_id type_mask) 18);
  command = u16 (shr (bit_and can_id cmd_mask) 0);
}

unfoldable pub make_tc_tm_command : CanTsReqAck → ℕ → ℕ
make_tc_tm_command kind channel = u16 (bit_or (req_ack_code kind * 2 ^ 8) channel)

unfoldable pub get_tc_tm_kind : ℕ → CanTsReqAck
get_tc_tm_kind command = to_req_ack (shr (bit_and command (0x3 * 2 ^ 8)) 8)

unfoldable pub get_channel : ℕ → ℕ
get_channel command = u8 (bit_and command 0xff)

unfoldable pub make_set_block_command : SetBlockFrameType → ℕ → ℕ
make_set_block_command type low6 = u16 (bit_or (set_block_code type * 2 ^ 7) (bit_and low6 0x3f))

unfoldable pub make_set_block_report_command : ℕ → Bool → ℕ
make_set_block_report_command low6 done =
    let cmd = make_set_block_command SetBlockFrameType.report low6 in
    if done then bit_or cmd (2 ^ 6) else cmd

unfoldable pub get_set_block_type : ℕ → SetBlockFrameType
get_set_block_type command = to_set_block_type (shr (bit_and command (0x7 * 2 ^ 7)) 7)

unfoldable pub get_set_block_low6 : ℕ → ℕ
get_set_block_low6 command = u8 (bit_and command 0x3f)

unfoldable pub get_set_block_done : ℕ → Bool
get_set_block_done command = not (bit_and command (2 ^ 6) == 0)

unfoldable pub make_get_block_command : GetBlockFrameType → ℕ → ℕ
make_get_block_command type low6 = u16 (bit_or (get_block_code type * 2 ^ 7) (bit_and low6 0x3f))

unfoldable pub get_get_block_type : ℕ → GetBlockFrameType
get_get_block_type command = to_get_block_type (shr (bit_and command (0x7 * 2 ^ 7)) 7)

unfoldable pub get_get_block_low6 : ℕ → ℕ
get_get_block_low6 command = u8 (bit_and command 0x3f)

unfoldable pub ack_command_low7 : ℕ → ℕ
ack_command_low7 command = bit_and command 0x7f

unfoldable pub bitmap_size_bytes : ℕ → ℕ
bitmap_size_bytes num_blocks = (num_blocks + 7) / 8

unfoldable pub all_blocks_received : List Bool → Bool
all_blocks_received [] = true
all_blocks_received (v ∷ received) = v && all_blocks_received received

-- The body of the loop of `makeBitmap`: `bitmap[i / 8] |= 1 << (i % 8)`.
mark : List ℕ → ℕ → List ℕ
mark bitmap i = set bitmap (i / 8) (u8 (bit_or (get_or bitmap (i / 8) 0) (u8 (2 ^ (i % 8)))))

-- The loop from index `i` on.
mark_all : List Bool → ℕ → List ℕ → List ℕ
unfolding mark
mark_all [] i bitmap = bitmap
mark_all (v ∷ received) i bitmap = mark_all received (i + 1) (if v then mark bitmap i else bitmap)

unfoldable pub make_bitmap : List Bool → List ℕ
unfolding mark_all
make_bitmap received = mark_all received 0 (replicate ((length received + 7) / 8) 0)

unfoldable pub bitmap_bit_is_set : List ℕ → ℕ → Bool
bitmap_bit_is_set bitmap index =
    let byte_index = index / 8 in
    let bit_index = index % 8 in
    if leb (length bitmap) byte_index
    then false
    else not (bit_and (get_or bitmap byte_index 0) (u8 (2 ^ bit_index)) == 0)
