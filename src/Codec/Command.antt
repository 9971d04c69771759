-- ===== src/Codec/Command.antt =====
-- The 10 command bits: the round trips of the telecommand, telemetry and block commands.
use cannect.Base.{
  ℕ, ◌+◌, ◌*◌, ◌/◌, ◌%◌, ◌^◌, ◌<◌, ◌≡◌, refl, ap, ◌∙◌, arith, bit_and, bit_or, shr, Bool, true,
  false, ==_iff, ◌⊎◌, inl, inr, ◌==◌,
}
use cannect.Bits.{all_below, all_below_sound, bit_or_disjoint, bit_and_field, bit_and_ones}
use cannect.Codec.{
  CanTsReqAck, SetBlockFrameType, GetBlockFrameType, req_ack_code, to_req_ack, set_block_code,
  to_set_block_type, get_block_code, to_get_block_type, make_tc_tm_command, get_tc_tm_kind,
  get_channel, make_set_block_command, make_set_block_report_command, get_set_block_type,
  get_set_block_low6, get_set_block_done, make_get_block_command, get_get_block_type,
  get_get_block_low6, ack_command_low7,
}

-- A command below 1024 keeps to the 10 bits that an identifier has for it.
pub tc_tm_as_sum :
    (kind : CanTsReqAck) (channel : ℕ)
    → req_ack_code kind < 4
    → channel < 256
    → make_tc_tm_command kind channel ≡ req_ack_code kind * 256 + channel
unfolding make_tc_tm_command
tc_tm_as_sum kind channel hk hc =
    rw (bit_or_disjoint 8 (req_ack_code kind) channel hc) (omega arith)

pub set_block_as_sum :
    (type : SetBlockFrameType) (low6 : ℕ)
    → set_block_code type < 8
    → make_set_block_command type low6 ≡ set_block_code type * 128 + low6 % 64
unfolding make_set_block_command
set_block_as_sum type low6 h =
    rw (bit_and_ones 6 low6 0x3f refl)
      (rw (bit_or_disjoint 7 (set_block_code type) (low6 % 2 ^ 6) (omega arith)) (omega arith))

pub get_block_as_sum :
    (type : GetBlockFrameType) (low6 : ℕ)
    → get_block_code type < 8
    → make_get_block_command type low6 ≡ get_block_code type * 128 + low6 % 64
unfolding make_get_block_command
get_block_as_sum type low6 h =
    rw (bit_and_ones 6 low6 0x3f refl)
      (rw (bit_or_disjoint 7 (get_block_code type) (low6 % 2 ^ 6) (omega arith)) (omega arith))

kind_cut : (c : ℕ) → shr (bit_and c (0x3 * 2 ^ 8)) 8 ≡ c / 256 % 4
kind_cut c = rw (bit_and_field 2 8 c 3 refl) (omega arith)

block_kind_cut : (c : ℕ) → shr (bit_and c (0x7 * 2 ^ 7)) 7 ≡ c / 128 % 8
block_kind_cut c = rw (bit_and_field 3 7 c 7 refl) (omega arith)

pub get_set_block_type_lem : (c : ℕ) → get_set_block_type c ≡ to_set_block_type (c / 128 % 8)
unfolding get_set_block_type
get_set_block_type_lem c = ap to_set_block_type (block_kind_cut c)

pub get_get_block_type_lem : (c : ℕ) → get_get_block_type c ≡ to_get_block_type (c / 128 % 8)
unfolding get_get_block_type
get_get_block_type_lem c = ap to_get_block_type (block_kind_cut c)

pub get_set_block_low6_lem : (c : ℕ) → get_set_block_low6 c ≡ c % 64
unfolding get_set_block_low6
get_set_block_low6_lem c = rw (bit_and_ones 6 c 0x3f refl) (omega arith)

pub get_get_block_low6_lem : (c : ℕ) → get_get_block_low6 c ≡ c % 64
unfolding get_get_block_low6
get_get_block_low6_lem c = rw (bit_and_ones 6 c 0x3f refl) (omega arith)

pub ack_command_low7_lem : (c : ℕ) → ack_command_low7 c ≡ c % 128
unfolding ack_command_low7
ack_command_low7_lem c = bit_and_ones 7 c 0x7f refl

done_cut : (c : ℕ) → bit_and c (2 ^ 6) ≡ c / 64 % 2 * 64
done_cut c = bit_and_field 1 6 c 1 refl

pub get_set_block_done_lem : (c : ℕ) → get_set_block_done c ≡ (c / 64 % 2 == 1)
unfolding get_set_block_done
get_set_block_done_lem c = rw (done_cut c) (ground arith)

kind_back : (k c : ℕ) → k < 4 → c < 256 → shr (bit_and (k * 256 + c) (0x3 * 2 ^ 8)) 8 ≡ k
kind_back k c hk hc = rw (kind_cut (k * 256 + c)) (omega arith)

-- A telecommand or telemetry command carries its kind, which is one with an enumerator or the spare code,
-- and its channel, which is below 256.
pub tc_tm_command_fields :
    (kind : CanTsReqAck) (channel : ℕ)
    → to_req_ack (req_ack_code kind) ≡ kind
    → req_ack_code kind < 4
    → channel < 256
    → (get_tc_tm_kind (make_tc_tm_command kind channel) ≡ kind)
      × (get_channel (make_tc_tm_command kind channel) ≡ channel)
unfolding get_tc_tm_kind get_channel
tc_tm_command_fields kind channel e hk hc = rw (tc_tm_as_sum kind channel hk hc) (
  ap to_req_ack (kind_back (req_ack_code kind) channel hk hc) ∙ e,
  rw (bit_and_ones 8 _ 0xff refl) (omega arith),
)

-- A SETBLOCK command carries its frame type, which is one with an enumerator or a spare code below 8,
-- and the low six bits of its number; the low seven bits that an answer copies are that number.
pub set_block_command_fields :
    (type : SetBlockFrameType) (low6 : ℕ)
    → to_set_block_type (set_block_code type) ≡ type
    → set_block_code type < 8
    → (get_set_block_type (make_set_block_command type low6) ≡ type)
      × (get_set_block_low6 (make_set_block_command type low6) ≡ low6 % 64)
      × (ack_command_low7 (make_set_block_command type low6) ≡ low6 % 64)
set_block_command_fields type low6 e h =
    let c : make_set_block_command type low6 / 128 % 8 ≡ set_block_code type =
      omega (arith, set_block_as_sum type low6) in
    (
      get_set_block_type_lem _ ∙ ap to_set_block_type c ∙ e,
      get_set_block_low6_lem _ ∙ omega (arith, set_block_as_sum type low6),
      ack_command_low7_lem _ ∙ omega (arith, set_block_as_sum type low6),
    )

-- A GETBLOCK command carries its frame type, which is one with an enumerator or a spare code below 8,
-- and the low six bits of its number; the low seven bits that an answer copies are that number.
pub get_block_command_fields :
    (type : GetBlockFrameType) (low6 : ℕ)
    → to_get_block_type (get_block_code type) ≡ type
    → get_block_code type < 8
    → (get_get_block_type (make_get_block_command type low6) ≡ type)
      × (get_get_block_low6 (make_get_block_command type low6) ≡ low6 % 64)
      × (ack_command_low7 (make_get_block_command type low6) ≡ low6 % 64)
get_block_command_fields type low6 e h =
    let c : make_get_block_command type low6 / 128 % 8 ≡ get_block_code type =
      omega (arith, get_block_as_sum type low6) in
    (
      get_get_block_type_lem _ ∙ ap to_get_block_type c ∙ e,
      get_get_block_low6_lem _ ∙ omega (arith, get_block_as_sum type low6),
      ack_command_low7_lem _ ∙ omega (arith, get_block_as_sum type low6),
    )

abbrev pub flag : Bool → ℕ
flag true = 64
flag false = 0

done_table : all_below 64 (λ l. bit_or (7 * 128 + l) (2 ^ 6) == 7 * 128 + 64 + l) ≡ true
unfolding all_below
done_table = refl

with_done : (l : ℕ) → l < 64 → bit_or (7 * 128 + l) (2 ^ 6) ≡ 7 * 128 + 64 + l
with_done l h =
    (==_iff _ _).0
      (all_below_sound 64 (λ l. bit_or (7 * 128 + l) (2 ^ 6) == 7 * 128 + 64 + l) l done_table h)

pub report_as_sum :
    (low6 : ℕ) (done : Bool)
    → make_set_block_report_command low6 done ≡ 7 * 128 + flag done + low6 % 64
unfolding make_set_block_report_command
report_as_sum low6 false = set_block_as_sum SetBlockFrameType.report low6 (omega arith)
report_as_sum low6 true =
    rw (set_block_as_sum SetBlockFrameType.report low6 (omega arith))
      (with_done (low6 % 64) (omega arith))

pub flag_cases : (done : Bool) → (flag done ≡ 0) ⊎ (flag done ≡ 64)
flag_cases false = inl refl
flag_cases true = inr refl

done_read : (l : ℕ) (done : Bool) → ((7 * 128 + flag done + l % 64) / 64 % 2 == 1) ≡ done
done_read l false = ground arith
done_read l true = ground arith

-- A REPORT command carries the done bit beside the number.
pub set_block_report_fields :
    (low6 : ℕ) (done : Bool)
    → (get_set_block_type (make_set_block_report_command low6 done) ≡ SetBlockFrameType.report)
      × (get_set_block_low6 (make_set_block_report_command low6 done) ≡ low6 % 64)
      × (get_set_block_done (make_set_block_report_command low6 done) ≡ done)
set_block_report_fields low6 done =
    let e = report_as_sum low6 done in
    let c : make_set_block_report_command low6 done / 128 % 8 ≡ 7 =
      omega (arith, e, flag_cases done) in
    let d : make_set_block_report_command low6 done % 64 ≡ low6 % 64 =
      omega (arith, e, flag_cases done) in
    (
      get_set_block_type_lem _ ∙ ap to_set_block_type c,
      get_set_block_low6_lem _ ∙ d,
      get_set_block_done_lem _ ∙ rw e (done_read low6 done),
    )
