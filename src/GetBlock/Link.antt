-- ===== src/GetBlock/Link.antt =====
-- Two nodes on a bus: what one sends, the other handles.
use cannect.Base.{ℕ, ◌<◌, ◌≡◌, refl, arith, List, [], ◌∷◌}
use cannect.Types.{CanTsHeader, getblock}
use cannect.Codec.{GetBlockFrameType, decode, get_block_code, make_get_block_command}
use cannect.Codec.Header.{decode-encode}
use cannect.Codec.Command.{get_block_as_sum}
use cannect.Wire.{make_frame}
use cannect.SetBlock.Sender.{Arrival}
use cannect.SetBlock.Link.{received}
use cannect.GetBlock.State.{Effect, send, ask}

-- The frames among the effects, in order.
abbrev pub arrivals : ℕ → List Effect → List Arrival
arrivals now [] = []
arrivals now (send h bytes dlc ∷ es) = received now h bytes dlc ∷ arrivals now es
arrivals now (ask from channel ∷ es) = arrivals now es

-- A GETBLOCK header between two nodes.
abbrev pub header : ℕ → ℕ → GetBlockFrameType → ℕ → CanTsHeader
header from to type low6 = record {
  to = to;
  from = from;
  type = getblock;
  command = make_get_block_command type low6;
}

-- It survives the identifier.
pub decode-header :
    (from to : ℕ) (type : GetBlockFrameType) (low6 dlc : ℕ) (bytes : List ℕ)
    → from < 256
    → to < 256
    → get_block_code type < 8
    → decode (make_frame (header from to type low6) bytes dlc).id ≡ header from to type low6
unfolding make_frame
decode-header from to type low6 dlc bytes hf ht h = decode-encode _ (record {
  to_fits = ht;
  from_fits = hf;
  type_fits = omega arith;
  type_named = refl;
  command_fits = omega (arith, get_block_as_sum type low6 h);
})
