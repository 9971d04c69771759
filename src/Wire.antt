-- ===== src/Wire.antt =====
-- The frame that CanTsProtocol::sendFrame (src/cants/CanTsProtocol.cpp) builds and gives to the
-- transmitter.
use cannect.Base.{
  ℕ, zero, suc, ◌-◌, ◌≤◌, ◌≡◌, refl, ap, arith, List, [], ◌∷◌, ◌++◌, length, take, replicate,
}
use cannect.Types.{CanFrame, CanTsHeader, payload, can_frame_max_data}
use cannect.Codec.{encode}

unfoldable pub make_frame : CanTsHeader → List ℕ → ℕ → CanFrame
make_frame h bytes dlc = record {
  id = encode h;
  dlc = dlc;
  bytes = take dlc bytes ++ replicate (can_frame_max_data - dlc) 0;
}

pub take_back {ℓ} :
    {A : Type ℓ} (n : ℕ) (xs ys : List A) → n ≤ length xs → take n (take n xs ++ ys) ≡ take n xs
take_back zero xs ys h = refl
take_back (suc n) [] ys h = absurd (omega arith)
take_back (suc n) (x ∷ xs) ys h = ap (λ t. x ∷ t) (take_back n xs ys (omega arith))

-- The payload of a frame that is built of bytes and a DLC which is at most their number is the first DLC
-- of them.
pub payload-make_frame :
    (h : CanTsHeader) (bytes : List ℕ) (dlc : ℕ)
    → dlc ≤ length bytes
    → payload (make_frame h bytes dlc) ≡ take dlc bytes
unfolding make_frame
payload-make_frame h bytes dlc fits = take_back dlc bytes _ fits
