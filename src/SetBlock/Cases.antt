-- ===== src/SetBlock/Cases.antt =====
-- Case rules for the answers of a receiving node: what is to hold of a call is proved of its branches.
use cannect.Base.{
  ℕ, ◌≡◌, true, false, some, List, [], ◌∷◌, inl, inr, Option-cases, if_cases, not, ◌&&◌,
}
use cannect.Types.{CanFrame, CanTsHeader}
use cannect.Codec.{SetBlockFrameType, get_set_block_low6}
use cannect.SetBlock.State.{Session, SetBlockManager, Effect, send, store}
use cannect.SetBlock.Receiver.{
  reply, with_block, takes_block, on_transfer, on_status_request, report_status, hand_over, report,
  assembled_data, is_empty,
}

-- A case rule: the frame is refused and changes nothing, or the block is stored.
pub on_transfer_cases {ℓ} :
    (P : SetBlockManager × List Effect → Type ℓ) (m : SetBlockManager) (now : ℕ) (h : CanTsHeader)
    (frame : CanFrame)
    → P (m, send (reply m h SetBlockFrameType.nack) frame.bytes frame.dlc ∷ [])
    → ((s : Session)
        → m.sessions h.from ≡ some s
        → takes_block s (get_set_block_low6 h.command) ≡ true
        → P (
          record m {
            sessions =
                store m.sessions h.from
                  (some (with_block now (get_set_block_low6 h.command) frame s));
          },
          send (reply m h SetBlockFrameType.ack) frame.bytes frame.dlc ∷ [],
        ))
    → P (on_transfer m now h frame)
unfolding on_transfer
on_transfer_cases P m now h frame refused taken = elim (Option-cases (m.sessions h.from)) [
  | inl e ↦ rw (e, on_transfer) refused
  | inr (s, e) ↦ rw (e, on_transfer) (if_cases P _ (taken s e) (λ _. refused))
]

-- A case rule: the frame is refused and changes nothing, or an accepted session is reported.
pub on_status_request_cases {ℓ} :
    (P : SetBlockManager × List Effect → Type ℓ) (m : SetBlockManager) (h : CanTsHeader)
    (frame : CanFrame)
    → P (m, send (reply m h SetBlockFrameType.nack) frame.bytes frame.dlc ∷ [])
    → ((s : Session) → m.sessions h.from ≡ some s → s.accepted ≡ true → P (report_status m h s))
    → P (on_status_request m h frame)
unfolding on_status_request
on_status_request_cases P m h frame refused reported = elim (Option-cases (m.sessions h.from)) [
  | inl e ↦ rw (e, on_status_request) refused
  | inr (s, e) ↦ rw (e, on_status_request) (if_cases P s.accepted (reported s e) (λ _. refused))
]

-- A case rule: the handler is given the data, or nothing changes.
pub report_status_cases {ℓ} :
    (P : SetBlockManager × List Effect → Type ℓ) (m : SetBlockManager) (h : CanTsHeader)
    (s : Session)
    → ((not (is_empty (assembled_data s)) && not s.done) ≡ true → P (hand_over m h s))
    → ((not (is_empty (assembled_data s)) && not s.done) ≡ false → P (m, report m h s ∷ []))
    → P (report_status m h s)
unfolding report_status
report_status_cases P m h s handled reported = if_cases P _ handled reported
