-- ===== src/Socket/Frames.antt =====
-- What one interface sends, another one receives.
use cannect.Base.{
  ℕ, ◌%◌, ◌^◌, ◌≤◌, ◌<◌, ◌≡◌, refl, sym, ◌∙◌, ap, subst, arith, true, false, not, Option, none,
  some, length, take, drop, length-append, length-take, ltb, leb, if◌then◌else◌, if_true, if_false,
  Bool-cases, ◌⊎◌, inl, inr, bit_and, bit_or, dec_lt, dec_le,
}
use cannect.Bits.{bit_or_disjoint, bit_or_swapped, bit_and_ones}
use cannect.Types.{CanFrame, Status, success, unsuccess, payload}
use cannect.Wire.{take_back}
use cannect.Protocol.State.{zeros, copy_over}
use cannect.Socket.{
  SocketCanInterface, Selected, KernelFrame, CanConstants, copy_frame, receive, can_id_of, with_id,
  write_frame, send_frame,
}

-- The values that the documentation of SocketCAN gives for the constants.
pub record IsDocumented (c : CanConstants) : Type 0 where
  pub standard_mask : c.can_sff_mask ≡ 0x7ff
  pub extended_mask : c.can_eff_mask ≡ 0x1fffffff
  pub extended_flag : c.can_eff_flag ≡ 0x80000000

abbrev linux : CanConstants
linux = record { can_sff_mask = 0x7ff; can_eff_mask = 0x1fffffff; can_eff_flag = 0x80000000 }

-- The identifier that `send` writes, and what `receive` reads of it.
abbrev wire_id : ℕ → ℕ
wire_id id = if leb id linux.can_sff_mask then id else bit_or id linux.can_eff_flag

wire_id-read : (id : ℕ) → id < 2 ^ 29 → bit_and (wire_id id) linux.can_eff_mask ≡ id
wire_id-read id h = elim (Bool-cases (leb id linux.can_sff_mask)) [
  | inl e ↦ rw e (bit_and_ones 29 id linux.can_eff_mask refl ∙ omega arith)
  | inr e ↦ rw e (
      bit_and_ones 29 (bit_or id linux.can_eff_flag) linux.can_eff_mask refl
      ∙ ap (λ w. w % 2 ^ 29)
          (bit_or_swapped id linux.can_eff_flag ∙ bit_or_disjoint 31 1 id (omega arith))
      ∙ omega arith)
]

abbrev sent_frame : CanFrame → KernelFrame
sent_frame frame = record {
  can_id = wire_id frame.id;
  can_dlc = frame.dlc;
  bytes = copy_over zeros frame.bytes frame.dlc;
}

can_id_of-fits : (id : ℕ) → id < 2 ^ 29 → can_id_of linux id ≡ some (wire_id id)
unfolding can_id_of
can_id_of-fits id h =
    let wide : leb id linux.can_eff_mask ≡ true = ground arith in
    elim (Bool-cases (leb id linux.can_sff_mask)) [ inl e ↦ rw e | inr e ↦ rw e (rw wide refl) ]

can_id_of-rejects : (id : ℕ) → 2 ^ 29 ≤ id → can_id_of linux id ≡ none
unfolding can_id_of
can_id_of-rejects id h =
    let long : leb id linux.can_sff_mask ≡ false = ground arith in
    let wide : leb id linux.can_eff_mask ≡ false = ground arith in
    if_false _ _ long ∙ if_false _ _ wide

with_id-fits :
    (frame : CanFrame)
    → frame.dlc ≤ 8
    → with_id frame (some (wire_id frame.id)) ≡ some (sent_frame frame)
unfolding with_id
with_id-fits frame h = let short : ltb 8 frame.dlc ≡ false = ground arith in if_false _ _ short

with_id-rejects : (frame : CanFrame) (id : Option ℕ) → 8 < frame.dlc → with_id frame id ≡ none
unfolding with_id
with_id-rejects frame none h = refl
with_id-rejects frame (some id) h =
    let long : ltb 8 frame.dlc ≡ true = ground arith in if_true _ _ long

sends :
    (s : SocketCanInterface) (frame : CanFrame) (k : Option KernelFrame)
    → s.is_open ≡ true
    → with_id frame (can_id_of linux frame.id) ≡ k
    → send_frame linux s frame true ≡ write_frame true k
unfolding send_frame
sends s frame k so e = if_false _ _ (ap not so) ∙ ap (write_frame true) e

received_frame :
    (t : SocketCanInterface) (k : KernelFrame) (out : CanFrame)
    → t.is_open ≡ true
    → receive linux t Selected.readable (some k) out ≡ (success, copy_frame linux k out)
unfolding receive
received_frame t k out to = if_false _ _ (ap not to)

copied :
    (frame out : CanFrame)
    → frame.dlc ≤ length frame.bytes
    → payload (copy_frame linux (sent_frame frame) out) ≡ payload frame
unfolding copy_frame
copied frame out fits =
    let bytes = copy_over zeros frame.bytes frame.dlc in
    let room : frame.dlc ≤ length bytes = omega (
      arith,
      length-append (take frame.dlc frame.bytes) (drop frame.dlc zeros),
      length-take frame.dlc frame.bytes,
    ) in
    take_back frame.dlc bytes _ room ∙ take_back frame.dlc frame.bytes _ fits

-- The frame is sent and received again, or rejected.
abbrev pub Travels :
    CanConstants → SocketCanInterface → SocketCanInterface → CanFrame → CanFrame → Type 0
Travels c s t frame out =
    (frame.id < 2 ^ 29)
      × (frame.dlc ≤ 8)
      × ((k : KernelFrame) × (send_frame c s frame true ≡ (success, some k))
          × ((receive c t Selected.readable (some k) out).0 ≡ success)
          × ((receive c t Selected.readable (some k) out).1.id ≡ frame.id)
          × ((receive c t Selected.readable (some k) out).1.dlc ≡ frame.dlc)
          × (payload (receive c t Selected.readable (some k) out).1 ≡ payload frame))
    ⊎ ((2 ^ 29 ≤ frame.id) ⊎ (8 < frame.dlc)) × (send_frame c s frame true ≡ (unsuccess, none))

travels :
    (s t : SocketCanInterface) (frame out : CanFrame)
    → s.is_open ≡ true
    → t.is_open ≡ true
    → frame.dlc ≤ length frame.bytes
    → Travels linux s t frame out
unfolding write_frame copy_frame with_id
travels s t frame out so to fits = elim (dec_lt frame.id (2 ^ 29)) [
  | no wide ↦
      let big : 2 ^ 29 ≤ frame.id = omega arith in
      inr (inl big, sends s frame none so (ap (with_id frame) (can_id_of-rejects frame.id big)))
  | yes fit ↦ elim (dec_le frame.dlc 8) [
    | no long ↦
        let over : 8 < frame.dlc = omega arith in
        inr
          (inr over, sends s frame none so (with_id-rejects frame (can_id_of linux frame.id) over))
    | yes short ↦
        let k = sent_frame frame in
        let got = received_frame t k out to in
        inl (
          fit,
          short,
          (
            k,
            sends s frame (some k) so
                (ap (with_id frame) (can_id_of-fits frame.id fit) ∙ with_id-fits frame short),
            ap (λ r. r.0) got,
            ap (λ (r : Status × CanFrame). r.1.id) got ∙ wire_id-read frame.id fit,
            ap (λ (r : Status × CanFrame). r.1.dlc) got,
            ap (λ (r : Status × CanFrame). payload r.1) got ∙ copied frame out fits,
          ),
        )
  ]
]

documented : (c : CanConstants) → IsDocumented c → c ≡ linux
documented c d = cc

-- An open interface sends a frame whose identifier has at most 29 bits and whose DLC is at most 8, and
-- an open interface that reads what was written receives the same identifier, DLC and payload. Any
-- other frame is answered with UNSUCCESS and nothing is written. The frame has the bytes of its DLC.
pub receive-send_frame :
    (c : CanConstants) (s t : SocketCanInterface) (frame out : CanFrame)
    → IsDocumented c
    → s.is_open ≡ true
    → t.is_open ≡ true
    → frame.dlc ≤ length frame.bytes
    → Travels c s t frame out
receive-send_frame c s t frame out d so to fits =
    subst (λ k. Travels k s t frame out) (sym (documented c d)) (travels s t frame out so to fits)
