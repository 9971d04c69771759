-- ===== src/Protocol/Wire.antt =====
-- Two nodes on a bus: what one gives to its transmitter, the other handles.
use mathlib.Core.List.{append-nil}
use cannect.Base.{
  ℕ, ◌<◌, ◌≤◌, ◌≡◌, refl, ◌∙◌, ap, arith, false, some, List, [], ◌∷◌, ◌++◌, length, ltb,
  if◌then◌else◌,
}
use cannect.Types.{
  CanFrame, CanTsHeader, CanTsMessageType, message_code, to_message_type, success, unsuccess,
}
use cannect.Codec.{CanTsReqAck, decode, req_ack_code, make_tc_tm_command}
use cannect.Codec.Header.{decode-encode}
use cannect.Codec.Command.{tc_tm_as_sum}
use cannect.Wire.{make_frame}
use cannect.SetBlock.Transfers.{payload_of_block}
use cannect.Protocol.State.{
  Transmitter, Effect, transmit, telecommand_call, telemetry_call, unsolicited_call, time_sync_call,
  set_block_call, get_block_call, CanTsProtocol, zeros, copy_over, is_success, send_frame,
  note_peer_alive,
}
use cannect.Protocol.Handling.{Handled, is_addressed, by_type, on_frame}
use cannect.Protocol.Calls.{Incoming}

-- The frames among the effects, in order, all handled at one time.
abbrev pub transmitted : ℕ → List Effect → List Incoming
transmitted now [] = []
transmitted now (transmit frame ∷ es) = record { now = now; frame = frame } ∷ transmitted now es
transmitted now (telecommand_call from channel request ∷ es) = transmitted now es
transmitted now (telemetry_call from channel ∷ es) = transmitted now es
transmitted now (unsolicited_call from channel bytes ∷ es) = transmitted now es
transmitted now (time_sync_call from bytes ∷ es) = transmitted now es
transmitted now (set_block_call from channel request ∷ es) = transmitted now es
transmitted now (get_block_call from channel ∷ es) = transmitted now es

-- `on_frame` past the decoding.
abbrev pub routed : CanTsProtocol → ℕ → CanTsHeader → CanFrame → Handled
routed p now h frame =
    let p' = note_peer_alive p now h.from in
    let r = by_type h.type p' now h frame in
    if is_addressed p h
    then record { status = success; protocol = r.0; effects = r.1 }
    else record { status = unsuccess; protocol = p'; effects = [] }

pub on_frame-routed :
    (p : CanTsProtocol) (now : ℕ) (h : CanTsHeader) (frame : CanFrame)
    → decode frame.id ≡ h
    → on_frame p now frame ≡ routed p now h frame
unfolding on_frame
on_frame-routed p now h frame e = ap (λ g. routed p now g frame) e

pub kind_fits :
    (kind : CanTsReqAck) (channel : ℕ)
    → req_ack_code kind < 4
    → channel < 256
    → make_tc_tm_command kind channel < 1024
kind_fits kind channel hk hc = omega (arith, tc_tm_as_sum kind channel hk hc)

pub decode-tc_tm :
    (to from channel dlc : ℕ) (type : CanTsMessageType) (kind : CanTsReqAck) (bytes : List ℕ)
    → to < 256
    → from < 256
    → message_code type < 8
    → to_message_type (message_code type) ≡ type
    → req_ack_code kind < 4
    → channel < 256
    → let h : CanTsHeader = record {
      to = to;
      from = from;
      type = type;
      command = make_tc_tm_command kind channel;
    } in
      decode (make_frame h bytes dlc).id ≡ h
unfolding make_frame
decode-tc_tm to from channel dlc type kind bytes ht hf fits named hk hc = decode-encode _ (record {
  to_fits = ht;
  from_fits = hf;
  type_fits = fits;
  type_named = named;
  command_fits = kind_fits kind channel hk hc;
})

-- A working transmitter takes a frame of at most eight bytes.
pub send_frame-some :
    (p : CanTsProtocol) (tx : Transmitter) (h : CanTsHeader) (bytes : List ℕ) (dlc : ℕ)
    → p.transmitter ≡ some tx
    → dlc ≤ 8
    → send_frame p h bytes dlc
      ≡ (is_success (tx (make_frame h bytes dlc)), transmit (make_frame h bytes dlc) ∷ [])
unfolding send_frame
send_frame-some p tx h bytes dlc e fits =
    let small : ltb 8 dlc ≡ false = ground arith in rw e (rw small refl)

pub copy_of_frame :
    (h : CanTsHeader) (bytes : List ℕ)
    → length bytes ≡ 8
    → copy_over zeros (make_frame h bytes 8).bytes 8 ≡ bytes
unfolding make_frame
copy_of_frame h bytes e = ap (λ t. t ++ []) (payload_of_block h bytes e) ∙ append-nil bytes
