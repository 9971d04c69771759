-- ===== src/Codec/Header.antt =====
-- The CAN identifier of a header, as arithmetic, and the round trips of `encode` and `decode`.
use cannect.Base.{
  ℕ, ◌+◌, ◌*◌, ◌/◌, ◌%◌, ◌^◌, ◌<◌, ◌≡◌, refl, ap, ◌∙◌, arith, bit_and, bit_or, u8, u16, shl32, shr,
}
use cannect.Bits.{bit_or_disjoint, bit_and_field, zero-bit_or}
use cannect.Types.{CanTsHeader, message_code, to_message_type}
use cannect.Codec.{encode, decode}

-- A header whose fields fit the bits that the identifier has for them.
pub record IsHeader (h : CanTsHeader) : Type 0 where
  pub to_fits : h.to < 256
  pub from_fits : h.from < 256
  pub type_fits : message_code h.type < 8
  pub type_named : to_message_type (message_code h.type) ≡ h.type
  pub command_fits : h.command < 1024

regroup_18 : (t y : ℕ) → t * 2 ^ 21 + y * 2 ^ 18 ≡ (t * 8 + y) * 2 ^ 18
regroup_18 t y = omega arith

regroup_10 : (t y f : ℕ) → (t * 8 + y) * 2 ^ 18 + f * 2 ^ 10 ≡ (t * 2048 + y * 256 + f) * 2 ^ 10
regroup_10 t y f = omega arith

-- The four fields do not overlap, so `|` adds them.
join :
    (t y f c : ℕ)
    → y < 8
    → f < 256
    → c < 1024
    → bit_or (bit_or (bit_or (bit_or 0 (t * 2 ^ 21)) (y * 2 ^ 18)) (f * 2 ^ 10)) c
      ≡ t * 2 ^ 21 + y * 2 ^ 18 + f * 2 ^ 10 + c
join t y f c hy hf hc = rw zero-bit_or (
    rw (bit_or_disjoint 21 t (y * 2 ^ 18) (omega arith)) (
      rw (regroup_18 t y) (
        rw (bit_or_disjoint 18 (t * 8 + y) (f * 2 ^ 10) (omega arith)) (
          rw (regroup_10 t y f)
            (rw (bit_or_disjoint 10 (t * 2048 + y * 256 + f) c hc) (omega arith))))))

to_placed : (x : ℕ) → shl32 x 21 / 2 ^ 21 % 2 ^ 8 ≡ x % 256
to_placed x = omega arith

type_placed : (x : ℕ) → shl32 x 18 / 2 ^ 18 % 2 ^ 3 ≡ x % 8
type_placed x = omega arith

from_placed : (x : ℕ) → shl32 x 10 / 2 ^ 10 % 2 ^ 8 ≡ x % 256
from_placed x = omega arith

command_placed : (x : ℕ) → shl32 x 0 / 2 ^ 0 % 2 ^ 10 * 2 ^ 0 ≡ x % 1024
command_placed x = omega arith

pub encode_as_sum :
    (h : CanTsHeader)
    → encode h
      ≡ h.to % 256 * 2 ^ 21
        + message_code h.type % 8 * 2 ^ 18
        + h.from % 256 * 2 ^ 10
        + h.command % 1024
unfolding encode
encode_as_sum h =
    let t = message_code h.type in
    rw
      (
        bit_and_field 8 21 (shl32 h.to 21) 255 refl,
        bit_and_field 3 18 (shl32 (message_code h.type) 18) 7 refl,
        bit_and_field 8 10 (shl32 h.from 10) 255 refl,
        bit_and_field 10 0 (shl32 h.command 0) 1023 refl,
        to_placed h.to,
        type_placed t,
        from_placed h.from,
        command_placed h.command,
      )
      (join (h.to % 256) (t % 8) (h.from % 256) (h.command % 1024) (omega arith) (omega arith)
        (omega arith))

header_path :
    (h k : CanTsHeader)
    → h.to ≡ k.to
    → h.from ≡ k.from
    → h.type ≡ k.type
    → h.command ≡ k.command
    → h ≡ k
header_path h k p q r s = λ i. record { to = p i; from = q i; type = r i; command = s i }

to_cut : (id : ℕ) → u8 (shr (bit_and id (255 * 2 ^ 21)) 21) ≡ id / 2 ^ 21 % 256
to_cut id = rw (bit_and_field 8 21 id 255 refl) (omega arith)

from_cut : (id : ℕ) → u8 (shr (bit_and id (255 * 2 ^ 10)) 10) ≡ id / 2 ^ 10 % 256
from_cut id = rw (bit_and_field 8 10 id 255 refl) (omega arith)

type_cut : (id : ℕ) → shr (bit_and id (7 * 2 ^ 18)) 18 ≡ id / 2 ^ 18 % 8
type_cut id = rw (bit_and_field 3 18 id 7 refl) (omega arith)

command_cut : (id : ℕ) → u16 (shr (bit_and id (1023 * 2 ^ 0)) 0) ≡ id % 1024
command_cut id = rw (bit_and_field 10 0 id 1023 refl) (omega arith)

-- Each field of a decoded header, as arithmetic on the identifier.
pub decode_as_fields :
    (id : ℕ)
    → decode id ≡ record {
      to = id / 2 ^ 21 % 256;
      from = id / 2 ^ 10 % 256;
      type = to_message_type (id / 2 ^ 18 % 8);
      command = id % 1024;
    }
unfolding decode
decode_as_fields id =
    header_path _ _ (to_cut id) (from_cut id) (ap to_message_type (type_cut id)) (command_cut id)

-- A cast to the enum and back keeps the value.
pub message_code-to_message_type : (n : ℕ) → message_code (to_message_type n) ≡ n
message_code-to_message_type n = ground arith

-- Decoding an encoded header gives it back, if each field fits its place and the type is spelled by
-- its enumerator.
pub decode-encode : (h : CanTsHeader) → IsHeader h → decode (encode h) ≡ h
decode-encode h v =
    let e : encode h / 2 ^ 18 % 8 ≡ message_code h.type = omega (arith, encode_as_sum h) in
    rw (decode_as_fields (encode h)) (
      header_path _ _ (omega (arith, encode_as_sum h)) (omega (arith, encode_as_sum h))
        (ap to_message_type e ∙ v.type_named) (omega (arith, encode_as_sum h)))

-- Encoding what was decoded keeps the 29 bits of an extended identifier and drops the flags above.
pub encode-decode : (id : ℕ) → encode (decode id) ≡ id % 2 ^ 29
encode-decode id =
    rw (decode_as_fields id, encode_as_sum, message_code-to_message_type) (omega arith)
