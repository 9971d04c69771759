-- ===== src/SetBlock/Peer.antt =====
-- A receiving node through one block-write transaction: REQUEST, the TRANSFERs in order, and the
-- STATUS_REQUEST.
use cannect.Base.{
  ℕ, suc, ◌+◌, ◌-◌, ◌%◌, ◌≤◌, ◌<◌, ◌≡◌, refl, sym, ◌∙◌, ap, subst, arith, true, false, Option, some,
  List, [], ◌∷◌, ◌++◌, length, replicate, set, length-replicate, u8,
}
use mathlib.Core.Path.{ap₂}
use cannect.Types.{CanFrame, CanTsHeader, payload}
use cannect.Codec.{
  SetBlockFrameType, get_set_block_type, get_set_block_low6, make_set_block_command, set_block_code,
  to_set_block_type,
}
use cannect.Codec.Command.{set_block_command_fields}
use cannect.SetBlock.State.{Handler, Session, SetBlockManager, Effect, send, store}
use cannect.SetBlock.Receiver.{
  is_empty, reply, fresh_session, with_block, on_request, on_transfer, dispatch, on_frame,
  takes_block,
}

-- The node holds an accepted session for `local`, of `n` blocks: the first ones are `pre`, and `k`
-- slots are left. Its handler and its address are those given.
pub record Receiving (q : SetBlockManager) (handler : Option Handler) (peer local n k : ℕ)
    (pre : List (List ℕ)) : Type 0 where
  pub session : Session
  pub found : q.sessions local ≡ some session
  pub accepted : session.accepted ≡ true
  pub undone : session.done ≡ false
  pub counted : session.num_blocks ≡ n
  pub slots : List (List ℕ)
  pub shape : session.blocks ≡ pre ++ slots
  pub left : length slots ≡ k
  pub same_handler : q.handler ≡ handler
  pub same_address : q.local_address ≡ peer

command_type :
    (type : SetBlockFrameType) (h : CanTsHeader) (low6 : ℕ)
    → to_set_block_type (set_block_code type) ≡ type
    → set_block_code type < 8
    → h.command ≡ make_set_block_command type low6
    → (get_set_block_type h.command ≡ type) × (get_set_block_low6 h.command ≡ low6 % 64)
command_type type h low6 e b c =
    let (t, l, _) = set_block_command_fields type low6 e b in
    (ap get_set_block_type c ∙ t, ap get_set_block_low6 c ∙ l)

-- The clause of the `switch` that a frame's type selects.
pub on_frame-dispatch :
    (type : SetBlockFrameType) (q : SetBlockManager) (now : ℕ) (h : CanTsHeader) (frame : CanFrame)
    → get_set_block_type h.command ≡ type
    → on_frame q now h frame ≡ dispatch type q now h frame
unfolding on_frame
on_frame-dispatch type q now h frame e = ap (λ t. dispatch t q now h frame) e

-- What a step of the transaction leaves: the session, and one ACK.
abbrev pub Stepped :
    SetBlockManager
    → Option Handler
    → ℕ
    → ℕ
    → ℕ
    → List (List ℕ)
    → CanTsHeader
    → CanFrame
    → SetBlockManager × List Effect
    → Type 0
Stepped q handler n k peer pre h frame r =
    Receiving r.0 handler peer h.from n k pre
    × (r.1 ≡ send (reply q h SetBlockFrameType.ack) frame.bytes frame.dlc ∷ [])

request-Stepped :
    (q : SetBlockManager) (now n : ℕ) (h : CanTsHeader) (frame : CanFrame)
    → 1 ≤ n
    → n ≤ 64
    → u8 (get_set_block_low6 h.command + 1) ≡ n
    → is_empty (payload frame) ≡ false
    → Stepped q q.handler n n q.local_address [] h frame (on_request q now h frame)
unfolding on_request
request-Stepped q now n h frame lo hi e full =
    let a' : (fresh_session now h frame).accepted ≡ true = ground arith in
    (
      record {
        session = fresh_session now h frame;
        found = ground arith;
        accepted = a';
        undone = refl;
        counted = e;
        slots = replicate (u8 (get_set_block_low6 h.command + 1)) [];
        shape = refl;
        left = length-replicate _ [] ∙ e;
        same_handler = refl;
        same_address = refl;
      },
      rw a',
    )

pub peer_requested :
    (q : SetBlockManager) (now n : ℕ) (h : CanTsHeader) (frame : CanFrame)
    → 1 ≤ n
    → n ≤ 64
    → h.command ≡ make_set_block_command SetBlockFrameType.request (n - 1)
    → is_empty (payload frame) ≡ false
    → Stepped q q.handler n n q.local_address [] h frame (on_frame q now h frame)
unfolding dispatch
peer_requested q now n h frame lo hi c full =
    let (t, l) = command_type SetBlockFrameType.request h (n - 1) refl (omega arith) c in
    subst (Stepped q q.handler n n q.local_address [] h frame)
      (sym (on_frame-dispatch SetBlockFrameType.request q now h frame t))
      (request-Stepped q now n h frame lo hi (omega (arith, l)) full)

set_middle :
    (pre slots : List (List ℕ)) (v : List ℕ) (k : ℕ)
    → length slots ≡ suc k
    → (rest : List (List ℕ)) × (set (pre ++ slots) (length pre) v ≡ (pre ++ v ∷ []) ++ rest)
      × (length rest ≡ k)
set_middle [] [] v k h = absurd (omega arith)
set_middle [] (x ∷ slots) v k h = (slots, refl, omega arith)
set_middle (p ∷ pre) slots v k h =
    let (rest, e, l) = set_middle pre slots v k h in (rest, ap (λ t. p ∷ t) e, l)

on_transfer_taken :
    (q : SetBlockManager) (now : ℕ) (h : CanTsHeader) (frame : CanFrame) (s : Session)
    → q.sessions h.from ≡ some s
    → takes_block s (get_set_block_low6 h.command) ≡ true
    → on_transfer q now h frame ≡ (
      record q {
        sessions =
            store q.sessions h.from (some (with_block now (get_set_block_low6 h.command) frame s));
      },
      send (reply q h SetBlockFrameType.ack) frame.bytes frame.dlc ∷ [],
    )
unfolding on_transfer
on_transfer_taken q now h frame s found takes = rw (found, on_transfer) (rw takes)

transfer-Stepped :
    (q : SetBlockManager) (handler : Option Handler) (peer now n k : ℕ) (pre : List (List ℕ))
    (h : CanTsHeader) (frame : CanFrame)
    → Receiving q handler peer h.from n (suc k) pre
    → get_set_block_low6 h.command ≡ length pre
    → length pre < n
    → Stepped q handler n k peer (pre ++ payload frame ∷ []) h frame (on_transfer q now h frame)
unfolding on_transfer
transfer-Stepped q handler peer now n k pre h frame v at lt =
    let t : takes_block v.session (get_set_block_low6 h.command) ≡ true = ground arith in
    let (rest, shape, left) = set_middle pre v.slots (payload frame) k v.left in
    subst (Stepped q handler n k peer (pre ++ payload frame ∷ []) h frame)
      (sym (on_transfer_taken q now h frame v.session v.found t))
      (
        record {
          session = with_block now (get_set_block_low6 h.command) frame v.session;
          found = ground arith;
          accepted = v.accepted;
          undone = v.undone;
          counted = v.counted;
          slots = rest;
          shape = ap₂ (λ bs i. set bs i (payload frame)) v.shape at ∙ shape;
          left = left;
          same_handler = v.same_handler;
          same_address = v.same_address;
        },
        refl,
      )

pub peer_transferred :
    (q : SetBlockManager) (handler : Option Handler) (peer now n k : ℕ) (pre : List (List ℕ))
    (h : CanTsHeader) (frame : CanFrame)
    → Receiving q handler peer h.from n (suc k) pre
    → length pre < n
    → n ≤ 64
    → h.command ≡ make_set_block_command SetBlockFrameType.transfer (length pre)
    → Stepped q handler n k peer (pre ++ payload frame ∷ []) h frame (on_frame q now h frame)
unfolding dispatch
peer_transferred q handler peer now n k pre h frame v lt hi c =
    let (t, l) = command_type SetBlockFrameType.transfer h (length pre) refl (omega arith) c in
    subst (Stepped q handler n k peer (pre ++ payload frame ∷ []) h frame)
      (sym (on_frame-dispatch SetBlockFrameType.transfer q now h frame t))
      (transfer-Stepped q handler peer now n k pre h frame v (omega (arith, l)) lt)
