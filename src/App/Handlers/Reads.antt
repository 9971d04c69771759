-- ===== src/App/Handlers/Reads.antt =====
-- How a node with the handlers of the console program answers the reading of a block
-- (src/app/Handlers.cpp over src/cants/GetBlockManager.cpp).
use cannect.Base.{ℕ, zero, suc, ◌≡◌, refl, arith, true, Option, none, some, List, [], ◌∷◌, ◌++◌}
use cannect.Types.{CanTsHeader, CanFrame}
use cannect.Codec.{GetBlockFrameType, get_get_block_type}
use cannect.Codec.Command.{get_block_command_fields}
use cannect.SetBlock.Sender.{Arrival}
use cannect.GetBlock.State.{Effect, send, ask, Session, GetBlockManager, store}
use cannect.GetBlock.Provider.{reply, refuses, on_request, on_start, on_abort, dispatch, on_frame}
use cannect.GetBlock.Requester.{on_frames}
use cannect.App.Handlers.{on_get_block}

-- The manager of a node that provides nothing.
pub record ProvidesNothing (m : GetBlockManager) : Type 0 where
  pub console : m.handler ≡ some on_get_block
  pub unknown : (peer : ℕ) → m.sessions peer ≡ none

-- Each frame that is sent is a NACK.
abbrev pub IsRefusal : Effect → Type 0
IsRefusal (send h bytes dlc) = get_get_block_type h.command ≡ GetBlockFrameType.nack
IsRefusal (ask from channel) = Unit {0}

abbrev pub AreRefusals : List Effect → Type 0
AreRefusals [] = Unit {0}
AreRefusals (e ∷ es) = IsRefusal e × AreRefusals es

AreRefusals-append :
    (es fs : List Effect) → AreRefusals es → AreRefusals fs → AreRefusals (es ++ fs)
AreRefusals-append [] fs h k = k
AreRefusals-append (e ∷ es) fs (he, h) k = (he, AreRefusals-append es fs h k)

nack_sent :
    (m : GetBlockManager) (h : CanTsHeader) (frame : CanFrame)
    → AreRefusals (send (reply m h GetBlockFrameType.nack) frame.bytes frame.dlc ∷ [])
nack_sent m h frame = ((get_block_command_fields GetBlockFrameType.nack _ refl (omega arith)).0, tt)

-- No number of blocks fits an empty response.
always_refuses : (n : ℕ) (frame : CanFrame) → refuses true [] n frame ≡ true
always_refuses zero frame = refl
always_refuses (suc n) frame = ground arith

abbrev Refused : GetBlockManager × List Effect → Type 0
Refused r = ProvidesNothing r.0 × AreRefusals r.1

on_request-Refused :
    (m : GetBlockManager) (now : ℕ) (h : CanTsHeader) (frame : CanFrame)
    → ProvidesNothing m
    → Refused (on_request m now h frame)
unfolding on_request
on_request-Refused m now h frame p = simp (p.console, always_refuses) (p, (tt, nack_sent m h frame))

on_start-Refused :
    (m : GetBlockManager) (now : ℕ) (h : CanTsHeader) (frame : CanFrame)
    → ProvidesNothing m
    → Refused (on_start m now h frame)
unfolding on_start
on_start-Refused m now h frame p = rw (p.unknown h.from, on_start) (p, nack_sent m h frame)

store-none :
    (sessions : ℕ → Option Session) (k peer : ℕ)
    → sessions peer ≡ none
    → store sessions k none peer ≡ none
store-none sessions k peer e = ground arith

dispatch-Refused :
    (type : GetBlockFrameType) (m : GetBlockManager) (now : ℕ) (h : CanTsHeader) (frame : CanFrame)
    → ProvidesNothing m
    → Refused (dispatch type m now h frame)
unfolding dispatch
dispatch-Refused GetBlockFrameType.request m now h frame p = on_request-Refused m now h frame p
dispatch-Refused GetBlockFrameType.start m now h frame p = on_start-Refused m now h frame p
dispatch-Refused GetBlockFrameType.abort m now h frame p = (
  unfold on_abort in
      record {
        console = p.console;
        unknown = λ peer. store-none m.sessions h.from peer (p.unknown peer);
      },
  tt,
)
dispatch-Refused GetBlockFrameType.ack m now h frame p =
    (record { console = p.console; unknown = p.unknown }, tt)
dispatch-Refused GetBlockFrameType.nack m now h frame p =
    (record { console = p.console; unknown = p.unknown }, tt)
dispatch-Refused GetBlockFrameType.transfer m now h frame p =
    (record { console = p.console; unknown = p.unknown }, tt)
dispatch-Refused (GetBlockFrameType.other n) m now h frame p = (p, tt)

-- A node with the console program's handler for reads answers every frame with NACKs at most and never
-- has a session: whatever frames come, it never accepts a REQUEST and never sends a block, though the
-- handler answers true.
pub on_frames-Refused :
    (m : GetBlockManager) (arrivals : List Arrival)
    → ProvidesNothing m
    → ProvidesNothing (on_frames m arrivals).0 × AreRefusals (on_frames m arrivals).1
unfolding on_frames on_frame
on_frames-Refused m [] p = (p, tt)
on_frames-Refused m (a ∷ arrivals) p =
    let type = get_get_block_type a.header.command in
    let (q, es) = dispatch-Refused type m a.now a.header a.frame p in
    let (q', fs) = on_frames-Refused (dispatch type m a.now a.header a.frame).0 arrivals q in
    (q', AreRefusals-append _ _ es fs)
