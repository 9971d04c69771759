-- ===== src/GetBlock/Senders.antt =====
-- `GetBlockManager::getBlock` over any sender of frames that takes at most eight bytes
-- (src/cants/GetBlockManager.cpp), and the frames that it sends.
use cannect.Base.{ℕ, ◌+◌, ◌-◌, ◌<◌, ◌≡◌, refl, arith, List, length, u8, min}
use cannect.Codec.{GetBlockFrameType}
use cannect.SetBlock.Sender.{Arrival}
use cannect.SetBlock.Senders.{TakesFrames}
use cannect.GetBlock.State.{FrameSender, GetBlockManager}
use cannect.GetBlock.Requester.{
  Gaps, request_header, start_bitmap, start, started, on_frames, request_read, get_block,
}
use cannect.GetBlock.Answers.{reliable, requested, started_frames}
use cannect.GetBlock.Addressed.{AreBetween, header-IsBetween}

module _ (sender : FrameSender) (takes : TakesFrames sender) where
  start-reliable :
      (to n : ℕ) (arrivals : List Arrival) (m : GetBlockManager)
      → start sender to n arrivals m ≡ start reliable to n arrivals m
  unfolding start
  start-reliable to n arrivals m =
      rw
        (takes (request_header m to GetBlockFrameType.start 0) (start_bitmap n)
          (u8 (min (length (start_bitmap n)) 8)) (omega arith))
        refl

  request_read-reliable :
      (to : ℕ) (address_le : List ℕ) (n : ℕ) (gaps : Gaps) (m : GetBlockManager)
      → request_read sender to address_le n gaps m ≡ request_read reliable to address_le n gaps m
  unfolding request_read
  request_read-reliable to address_le n gaps m =
      let r = on_frames (record m { pending = started to n }) gaps.until_acked in
      rw
        (takes (request_header m to GetBlockFrameType.request (u8 (n + 256 - 1))) address_le
          (u8 (min (length address_le) 8)) (omega arith))
        (rw (start-reliable to n gaps.until_done r.0) refl)

  pub get_block-reliable :
      (to : ℕ) (address_le : List ℕ) (gaps : Gaps) (m : GetBlockManager)
      → get_block sender to address_le gaps m ≡ get_block reliable to address_le gaps m
  unfolding get_block
  get_block-reliable to address_le gaps m = rw (request_read-reliable to address_le 64 gaps m) refl

module _ (from to : ℕ) (hf : from < 256) (ht : to < 256) where
  pub requested-AreBetween :
      (address_le : List ℕ) → AreBetween from to (requested from to address_le)
  requested-AreBetween address_le =
      ((header-IsBetween from to GetBlockFrameType.request 63 hf ht (omega arith), omega arith), tt)

  pub started-AreBetween : AreBetween from to (started_frames from to)
  started-AreBetween =
      ((header-IsBetween from to GetBlockFrameType.start 0 hf ht (omega arith), omega arith), tt)
