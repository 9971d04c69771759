-- ===== src/Protocol/Heard.antt =====
-- Which of the frames that come to a node its block managers handle (`onFrame` of
-- src/cants/CanTsProtocol.cpp).
use mathlib.Core.Path.{ap₂}
use cannect.Base.{
  ℕ, ◌≡◌, ◌∙◌, ap, arith, Bool, true, false, ◌&&◌, not, ◌==◌, List, [], ◌∷◌, if◌then◌else◌,
}
use cannect.Types.{CanTsHeader, CanTsMessageType, setblock, getblock}
use cannect.Codec.{decode}
use cannect.Wire.{make_frame}
use cannect.SetBlock.Sender.{Arrival}
use cannect.SetBlock.Addressed.{IsBetween, decode-sent}
use cannect.Protocol.Calls.{Incoming}

-- The cases of the `switch` that give a frame to a manager.
abbrev pub is_set_block : CanTsMessageType → Bool
is_set_block setblock = true
is_set_block _ = false

abbrev pub is_get_block : CanTsMessageType → Bool
is_get_block getblock = true
is_get_block _ = false

-- The test of `onFrame` before a frame comes to a manager.
abbrev pub is_heard : (CanTsMessageType → Bool) → ℕ → CanTsHeader → Bool
is_heard of_type local h = not (not (h.to == local) && not (h.to == 0)) && of_type h.type

-- The frames that come to the manager of a node, of those that come to the node.
abbrev pub heard : (CanTsMessageType → Bool) → ℕ → List Incoming → List Arrival
heard of_type local [] = []
heard of_type local (a ∷ rest) =
    let h = decode a.frame.id in
    let more = heard of_type local rest in
    if is_heard of_type local h
    then record { now = a.now; header = h; frame = a.frame } ∷ more
    else more

pub sent_is_heard :
    (of_type : CanTsMessageType → Bool) {type : CanTsMessageType} {from : ℕ} (local dlc : ℕ)
    (h : CanTsHeader) (bytes : List ℕ)
    → of_type type ≡ true
    → IsBetween type from local h
    → is_heard of_type local (decode (make_frame h bytes dlc).id) ≡ true
sent_is_heard of_type local dlc h bytes same b =
    let own : (local == local) ≡ true = ground arith in
    ap (is_heard of_type local) (decode-sent h bytes dlc b)
    ∙ ap₂ (λ to type. not (not (to == local) && not (to == 0)) && of_type type) b.addressed b.typed
    ∙ rw own same
