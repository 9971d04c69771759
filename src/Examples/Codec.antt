-- ===== src/Examples/Codec.antt =====
-- Identifiers, commands and bitmaps (src/cants/CanTsCodec.hpp).
use cannect.Base.{◌%◌, ◌^◌, ◌≡◌, refl, arith, Bool, true, false, List, [], ◌∷◌}
use cannect.Types.{CanTsHeader, telecommand}
use cannect.Codec.{
  CanTsReqAck, encode, decode, make_tc_tm_command, get_tc_tm_kind, get_channel, make_bitmap,
  bitmap_bit_is_set,
}
use cannect.Codec.Header.{IsHeader, decode-encode, encode-decode}
use cannect.Codec.Command.{tc_tm_command_fields}
use cannect.Codec.Bitmap.{bitmap_bit_is_set-make_bitmap}

abbrev command_header : CanTsHeader
command_header = record { to = 2; from = 1; type = telecommand; command = 0x107 }

command_header-IsHeader : IsHeader command_header
command_header-IsHeader = record {
  to_fits = omega arith;
  from_fits = omega arith;
  type_fits = omega arith;
  type_named = refl;
  command_fits = omega arith;
}

command_header_code : encode command_header ≡ 4719879
unfolding encode
command_header_code = refl

decode-encode_example : decode (encode command_header) ≡ command_header
decode-encode_example = decode-encode command_header command_header-IsHeader

-- An identifier as the socket gives it, with the flag of an extended frame.
encode-decode_example : encode (decode 0x88480507) ≡ 0x88480507 % 2 ^ 29
encode-decode_example = encode-decode 0x88480507

tc_tm_command_fields_example :
    (get_tc_tm_kind (make_tc_tm_command CanTsReqAck.nack 7) ≡ CanTsReqAck.nack)
    × (get_channel (make_tc_tm_command CanTsReqAck.nack 7) ≡ 7)
tc_tm_command_fields_example =
    tc_tm_command_fields CanTsReqAck.nack 7 refl (omega arith) (omega arith)

-- Ten blocks, of which the last one is missing.
abbrev nine_of_ten : List Bool
nine_of_ten = true ∷ true ∷ true ∷ true ∷ true ∷ true ∷ true ∷ true ∷ true ∷ false ∷ []

bitmap_bit_is_set-make_bitmap_example : bitmap_bit_is_set (make_bitmap nine_of_ten) 9 ≡ false
bitmap_bit_is_set-make_bitmap_example = bitmap_bit_is_set-make_bitmap nine_of_ten 9
