-- ===== src/SetBlock/Link.antt =====
-- Two nodes on a bus: what one sends, the other handles.
use cannect.Base.{ℕ, ◌<◌, ◌≡◌, refl, arith, List, [], ◌∷◌}
use cannect.Types.{CanTsHeader, setblock}
use cannect.Codec.{SetBlockFrameType, encode, decode, set_block_code, make_set_block_command}
use cannect.Codec.Header.{decode-encode}
use cannect.Codec.Command.{set_block_as_sum}
use cannect.Wire.{make_frame}
use cannect.SetBlock.State.{Effect, send, call}
use cannect.SetBlock.Sender.{Arrival}

-- The frame of a `frameSender` call, as the other node decodes it.
abbrev pub received : ℕ → CanTsHeader → List ℕ → ℕ → Arrival
received now h bytes dlc = record {
  now = now;
  header = decode (make_frame h bytes dlc).id;
  frame = make_frame h bytes dlc;
}

-- The frames among the effects, in order.
abbrev pub arrivals : ℕ → List Effect → List Arrival
arrivals now [] = []
arrivals now (send h bytes dlc ∷ es) = received now h bytes dlc ∷ arrivals now es
arrivals now (call from channel request ∷ es) = arrivals now es

-- A SETBLOCK header between two node addresses survives the identifier.

pub decode-block_header :
    (to from command : ℕ)
    → to < 256
    → from < 256
    → command < 1024
    → decode (encode (record { to = to; from = from; type = setblock; command = command }))
      ≡ record { to = to; from = from; type = setblock; command = command }
decode-block_header to from command t f c = decode-encode _ (record {
  to_fits = t;
  from_fits = f;
  type_fits = omega arith;
  type_named = refl;
  command_fits = c;
})

pub make_set_block_command-lt :
    (type : SetBlockFrameType) (low6 : ℕ)
    → set_block_code type < 8
    → make_set_block_command type low6 < 1024
make_set_block_command-lt type low6 h = omega (arith, set_block_as_sum type low6 h)
