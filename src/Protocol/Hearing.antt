-- ===== src/Protocol/Hearing.antt =====
-- Which frames come to the block managers of a node (src/cants/CanTsProtocol.cpp).
use cannect.Base.{ℕ, ◌≡◌, refl, sym, ◌∙◌, ap, Bool, true, false, ◌&&◌, List, [], ◌∷◌, if◌then◌else◌}
use cannect.Types.{
  CanFrame, CanTsHeader, CanTsMessageType, setblock, unsuccess, timesync, unsolicited, telecommand,
  telemetry, getblock, other,
}
use cannect.Codec.{decode}
use cannect.SetBlock.Receiver as Receiver
use cannect.SetBlock.Sender as Sender
use cannect.GetBlock.Provider as Provider
use cannect.GetBlock.Requester as Requester
use cannect.Protocol.State.{CanTsProtocol, note_peer_alive}
use cannect.Protocol.Handling.{is_addressed, by_type, on_frame}
use cannect.Protocol.Calls.{Incoming, on_frames}
use cannect.Protocol.Routing.{by_type-Untouched, on_frame-Untouched}
use cannect.Protocol.Blocks.{succeeded}
use cannect.Protocol.Heard.{is_set_block, is_get_block, heard, is_heard}

abbrev arrival : ℕ → CanTsHeader → CanFrame → Sender.Arrival
arrival now h frame = record { now = now; header = h; frame = frame }

-- A part of the node that one message type is for.
module _ {M : Type 0} (part : CanTsProtocol → M) (of_type : CanTsMessageType → Bool)
    (step : M → Sender.Arrival → M) (run : M → List Sender.Arrival → M)
    (run_none : (m : M) → run m [] ≡ m)
    (run_more : (m : M) (a : Sender.Arrival) (rest : List Sender.Arrival)
      → run m (a ∷ rest) ≡ run (step m a) rest)
    (alive : (p : CanTsProtocol) (now k : ℕ) → part (note_peer_alive p now k) ≡ part p)
    (switched : (type : CanTsMessageType) (p : CanTsProtocol) (now : ℕ) (h : CanTsHeader)
        (frame : CanFrame)
      → part (by_type type p now h frame).0
        ≡ (if of_type type then step (part p) (arrival now h frame) else part p)) where
  by_addressed :
      (b : Bool) (p : CanTsProtocol) (now : ℕ) (h : CanTsHeader) (frame : CanFrame)
      → let q = note_peer_alive p now h.from in
        part
          (if b
            then succeeded (by_type h.type q now h frame)
            else record { status = unsuccess; protocol = q; effects = [] }).protocol
        ≡ (if b && of_type h.type then step (part p) (arrival now h frame) else part p)
  by_addressed true p now h frame =
      switched h.type (note_peer_alive p now h.from) now h frame
      ∙ ap (λ m. if of_type h.type then step m (arrival now h frame) else m) (alive p now h.from)
  by_addressed false p now h frame = alive p now h.from

  on_frame-part :
      (p : CanTsProtocol) (now : ℕ) (frame : CanFrame)
      → let h = decode frame.id in
        part (on_frame p now frame).protocol ≡ (
          if is_heard of_type p.local_address h
          then step (part p) (arrival now h frame)
          else part p)
  unfolding on_frame
  on_frame-part p now frame =
      by_addressed (is_addressed p (decode frame.id)) p now (decode frame.id) frame

  run_if :
      (b : Bool) (m : M) (a : Sender.Arrival) (more : List Sender.Arrival)
      → run (if b then step m a else m) more ≡ run m (if b then a ∷ more else more)
  run_if true m a more = sym (run_more m a more)
  run_if false m a more = refl

  on_frames-part :
      (p : CanTsProtocol) (arrived : List Incoming)
      → part (on_frames p arrived).0 ≡ run (part p) (heard of_type p.local_address arrived)
  unfolding on_frames note_peer_alive
  on_frames-part p [] = sym (run_none (part p))
  on_frames-part p (a ∷ rest) =
      let h = decode a.frame.id in
      let r = (on_frame p a.now a.frame).protocol in
      let (same, _, _, _, _, _, _) = (on_frame-Untouched p a.now a.frame).0.node in
      on_frames-part r rest
      ∙ ap (λ local. run (part r) (heard of_type local rest)) same
      ∙ ap (λ m. run m (heard of_type p.local_address rest)) (on_frame-part p a.now a.frame)
      ∙ run_if (is_heard of_type p.local_address h) (part p) (arrival a.now h a.frame)
          (heard of_type p.local_address rest)

by_type-set_block :
    (type : CanTsMessageType) (p : CanTsProtocol) (now : ℕ) (h : CanTsHeader) (frame : CanFrame)
    → (by_type type p now h frame).0.set_block_mgr ≡ (
        if is_set_block type
        then (Receiver.on_frame p.set_block_mgr now h frame).0
        else p.set_block_mgr)
unfolding by_type
by_type-set_block setblock p now h frame = refl
by_type-set_block telecommand p now h frame =
    (by_type-Untouched telecommand p now h frame).block_writes (λ e. cc)
by_type-set_block telemetry p now h frame =
    (by_type-Untouched telemetry p now h frame).block_writes (λ e. cc)
by_type-set_block getblock p now h frame = refl
by_type-set_block timesync p now h frame = refl
by_type-set_block unsolicited p now h frame = refl
by_type-set_block (other n) p now h frame = refl

by_type-get_block :
    (type : CanTsMessageType) (p : CanTsProtocol) (now : ℕ) (h : CanTsHeader) (frame : CanFrame)
    → (by_type type p now h frame).0.get_block_mgr ≡ (
        if is_get_block type
        then (Provider.on_frame p.get_block_mgr now h frame).0
        else p.get_block_mgr)
unfolding by_type
by_type-get_block setblock p now h frame = refl
by_type-get_block telecommand p now h frame =
    (by_type-Untouched telecommand p now h frame).block_reads (λ e. cc)
by_type-get_block telemetry p now h frame =
    (by_type-Untouched telemetry p now h frame).block_reads (λ e. cc)
by_type-get_block getblock p now h frame = refl
by_type-get_block timesync p now h frame = refl
by_type-get_block unsolicited p now h frame = refl
by_type-get_block (other n) p now h frame = refl

-- The frames of a node's two block managers are those of their type, SETBLOCK and GETBLOCK, that are
-- addressed to the node or to all: after any frames, each manager is as if it had handled these alone,
-- in their order.
pub on_frames-heard :
    (p : CanTsProtocol) (arrived : List Incoming)
    → ((on_frames p arrived).0.set_block_mgr
        ≡ (Sender.on_frames p.set_block_mgr (heard is_set_block p.local_address arrived)).0)
      × ((on_frames p arrived).0.get_block_mgr
          ≡ (Requester.on_frames p.get_block_mgr (heard is_get_block p.local_address arrived)).0)
unfolding Sender.on_frames Requester.on_frames note_peer_alive
on_frames-heard p arrived = (
  on_frames-part (λ (q : CanTsProtocol). q.set_block_mgr) is_set_block
      (λ m a. (Receiver.on_frame m a.now a.header a.frame).0)
      (λ m came. (Sender.on_frames m came).0) (λ m. refl) (λ m a rest. refl) (λ q now k. refl)
      by_type-set_block p arrived,
  on_frames-part (λ (q : CanTsProtocol). q.get_block_mgr) is_get_block
      (λ m a. (Provider.on_frame m a.now a.header a.frame).0)
      (λ m came. (Requester.on_frames m came).0) (λ m. refl) (λ m a rest. refl) (λ q now k. refl)
      by_type-get_block p arrived,
)
