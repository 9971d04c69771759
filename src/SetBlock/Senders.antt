-- ===== src/SetBlock/Senders.antt =====
-- `SetBlockManager::setBlock` over any sender of frames that takes at most eight bytes
-- (src/cants/SetBlockManager.cpp), and the frames that it sends.

use cannect.Base.{
  ℕ, ◌+◌, ◌-◌, ◌≤◌, ◌<◌, ◌≡◌, refl, arith, true, List, [], ◌∷◌, length, u8, min, ◌/◌,
}
use cannect.Types.{CanTsHeader, setblock}
use cannect.Codec.{SetBlockFrameType, set_block_code}
use cannect.SetBlock.State.{FrameSender, SetBlockManager}
use cannect.SetBlock.Sender.{
  Arrival, Gaps, started, split_blocks, on_frames, request_header, send_transfers, ask_status,
  transfer_blocks, check_ack, request_write, set_block,
}
use cannect.SetBlock.Link.{make_set_block_command-lt}
use cannect.SetBlock.Transfers.{reliable}
use cannect.SetBlock.Answers.{requested, transferred, asked, aborted}
use cannect.SetBlock.Addressed.{IsBetween, AreBetween, header_IsBetween}

-- The sender takes every frame of at most eight bytes.
abbrev pub TakesFrames : FrameSender → Type 0
TakesFrames sender =
    (h : CanTsHeader) (bytes : List ℕ) (dlc : ℕ) → dlc ≤ 8 → sender h bytes dlc ≡ true

module _ (sender : FrameSender) (takes : TakesFrames sender) where
  send_transfers-reliable :
      (m : SetBlockManager) (to : ℕ) (blocks : List (List ℕ)) (i : ℕ)
      → send_transfers sender m to blocks i ≡ send_transfers reliable m to blocks i
  unfolding send_transfers
  send_transfers-reliable m to [] i = refl
  send_transfers-reliable m to (b ∷ blocks) i =
      rw (takes (request_header m to SetBlockFrameType.transfer i) b 8 (omega arith))
        (rw (send_transfers-reliable m to blocks (i + 1)) refl)

  ask_status-reliable :
      (to n : ℕ) (arrivals : List Arrival) (m : SetBlockManager)
      → ask_status sender to n arrivals m ≡ ask_status reliable to n arrivals m
  unfolding ask_status
  ask_status-reliable to n arrivals m =
      rw (takes (request_header m to SetBlockFrameType.status_request 0) [] 0 (omega arith)) refl

  transfer_blocks-reliable :
      (to : ℕ) (blocks : List (List ℕ)) (n : ℕ) (gaps : Gaps) (m : SetBlockManager)
      → transfer_blocks sender to blocks n gaps m ≡ transfer_blocks reliable to blocks n gaps m
  unfolding transfer_blocks
  transfer_blocks-reliable to blocks n gaps m =
      rw (send_transfers-reliable m to blocks 0)
        (simp (ask_status-reliable to n gaps.until_reported) refl)

  check_ack-reliable :
      (to : ℕ) (blocks : List (List ℕ)) (n : ℕ) (gaps : Gaps) (m : SetBlockManager)
      → check_ack sender to blocks n gaps m ≡ check_ack reliable to blocks n gaps m
  unfolding check_ack
  check_ack-reliable to blocks n gaps m = rw (transfer_blocks-reliable to blocks n gaps m) refl

  request_write-reliable :
      (to : ℕ) (address_le : List ℕ) (blocks : List (List ℕ)) (n : ℕ) (gaps : Gaps)
      (m : SetBlockManager)
      → request_write sender to address_le blocks n gaps m
        ≡ request_write reliable to address_le blocks n gaps m
  unfolding request_write
  request_write-reliable to address_le blocks n gaps m =
      let r = on_frames (record m { pending = started to n }) gaps.until_acked in
      rw
        (takes (request_header m to SetBlockFrameType.request (u8 (n + 256 - 1))) address_le
          (u8 (min (length address_le) 8)) (omega arith))
        (rw (check_ack-reliable to blocks n gaps r.0) refl)

  pub set_block-reliable :
      (to : ℕ) (address_le bytes : List ℕ) (gaps : Gaps) (m : SetBlockManager)
      → set_block sender to address_le bytes gaps m ≡ set_block reliable to address_le bytes gaps m
  unfolding set_block
  set_block-reliable to address_le bytes gaps m =
      let n = u8 ((length bytes + 8 - 1) / 8) in
      rw (request_write-reliable to address_le (split_blocks bytes n 0) n gaps m) refl

module _ (c : SetBlockManager) (to : ℕ) (hc : c.local_address < 256) (ht : to < 256) where
  header-IsBetween :
      (type : SetBlockFrameType) (low6 : ℕ)
      → set_block_code type < 8
      → IsBetween setblock c.local_address to (request_header c to type low6)
  header-IsBetween type low6 h =
      header_IsBetween c.local_address to _ hc ht (make_set_block_command-lt type low6 h)

  pub requested-AreBetween :
      (address_le : List ℕ) (n : ℕ) → AreBetween c.local_address to (requested c to address_le n)
  requested-AreBetween address_le n =
      ((header-IsBetween SetBlockFrameType.request (n - 1) (omega arith), omega arith), tt)

  send_transfers-AreBetween :
      (blocks : List (List ℕ)) (i : ℕ)
      → AreBetween c.local_address to (send_transfers reliable c to blocks i).1
  unfolding send_transfers
  send_transfers-AreBetween [] i = tt
  send_transfers-AreBetween (b ∷ blocks) i = (
    (header-IsBetween SetBlockFrameType.transfer i (omega arith), omega arith),
    send_transfers-AreBetween blocks (i + 1),
  )

  pub transferred-AreBetween :
      (blocks : List (List ℕ)) → AreBetween c.local_address to (transferred c to blocks)
  transferred-AreBetween blocks = send_transfers-AreBetween blocks 0

  pub asked-AreBetween : AreBetween c.local_address to (asked c to)
  asked-AreBetween =
      ((header-IsBetween SetBlockFrameType.status_request 0 (omega arith), omega arith), tt)

  pub aborted-AreBetween : AreBetween c.local_address to (aborted c to)
  aborted-AreBetween = ((header-IsBetween SetBlockFrameType.abort 0 (omega arith), omega arith), tt)
