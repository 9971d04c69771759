-- ===== src/SetBlock/Sessions.antt =====
-- What holds of the sessions of a receiving node, whatever frames arrive.
use cannect.Base.{
  ℕ, ◌≤◌, ◌≡◌, refl, arith, true, not, some, List, [], ◌∷◌, length, length-set, length-replicate,
  ◌∙◌,
}
use cannect.Types.{CanFrame, CanTsHeader}
use cannect.Codec.{SetBlockFrameType, get_set_block_type}
use cannect.Codec.Command.{get_set_block_low6_lem}
use cannect.SetBlock.State.{Session, SetBlockManager, new, store}
use cannect.SetBlock.Receiver.{
  is_empty, on_request, on_transfer, report_status, hand_over, on_abort, dispatch, on_frame,
}
use cannect.SetBlock.Sender.{Arrival, on_frames}
use cannect.SetBlock.Cases.{on_transfer_cases, on_status_request_cases, report_status_cases}

-- A session has one slot for each block, between 1 and 64 of them; it is accepted exactly when the
-- request named an address, and only an accepted one is ever done.
pub record IsSession (s : Session) : Type 0 where
  pub sized : length s.blocks ≡ s.num_blocks
  pub some_block : 1 ≤ s.num_blocks
  pub few_blocks : s.num_blocks ≤ 64
  pub accepts_addressed : s.accepted ≡ not (is_empty s.address)
  pub done_accepted : s.done ≡ true → s.accepted ≡ true

-- Every stored session is such, and stands under its peer's address.
abbrev pub AreSessions : SetBlockManager → Type 0
AreSessions m = (k : ℕ) (s : Session) → m.sessions k ≡ some s → IsSession s × (s.peer ≡ k)

store-AreSessions :
    (m : SetBlockManager) (key : ℕ) (s : Session)
    → AreSessions m
    → IsSession s
    → s.peer ≡ key
    → AreSessions (record m { sessions = store m.sessions key (some s) })
store-AreSessions m key s all one p k t e = ground (arith, all k t)

on_request-AreSessions :
    (m : SetBlockManager) (now : ℕ) (h : CanTsHeader) (frame : CanFrame)
    → AreSessions m
    → AreSessions (on_request m now h frame).0
unfolding on_request
on_request-AreSessions m now h frame all =
    store-AreSessions m h.from _ all
      (record {
        sized = length-replicate _ [];
        some_block = omega (arith, get_set_block_low6_lem h.command);
        few_blocks = omega (arith, get_set_block_low6_lem h.command);
        accepts_addressed = ground (arith, get_set_block_low6_lem h.command);
        done_accepted = λ e. cc;
      })
      refl

on_transfer-AreSessions :
    (m : SetBlockManager) (now : ℕ) (h : CanTsHeader) (frame : CanFrame)
    → AreSessions m
    → AreSessions (on_transfer m now h frame).0
on_transfer-AreSessions m now h frame all =
    on_transfer_cases (λ r. AreSessions r.0) m now h frame all
      λ s e t.
        let v = (all h.from s e).0 in
        store-AreSessions m h.from _ all
          (record {
            sized = length-set s.blocks _ _ ∙ v.sized;
            some_block = v.some_block;
            few_blocks = v.few_blocks;
            accepts_addressed = v.accepts_addressed;
            done_accepted = v.done_accepted;
          })
          (all h.from s e).1

report_status-AreSessions :
    (m : SetBlockManager) (h : CanTsHeader) (s : Session)
    → m.sessions h.from ≡ some s
    → s.accepted ≡ true
    → AreSessions m
    → AreSessions (report_status m h s).0
unfolding hand_over
report_status-AreSessions m h s e a all =
    let v = (all h.from s e).0 in
    report_status_cases (λ r. AreSessions r.0) m h s
      (λ _.
        store-AreSessions m h.from _ all
          (record {
            sized = v.sized;
            some_block = v.some_block;
            few_blocks = v.few_blocks;
            accepts_addressed = v.accepts_addressed;
            done_accepted = λ _. a;
          })
          (all h.from s e).1)
      (λ _. all)

on_abort-AreSessions :
    (m : SetBlockManager) (h : CanTsHeader) (frame : CanFrame)
    → AreSessions m
    → AreSessions (on_abort m h frame).0
unfolding on_abort
on_abort-AreSessions m h frame all k s e = ground (arith, all k s)

dispatch-AreSessions :
    (type : SetBlockFrameType) (m : SetBlockManager) (now : ℕ) (h : CanTsHeader) (frame : CanFrame)
    → AreSessions m
    → AreSessions (dispatch type m now h frame).0
unfolding dispatch
dispatch-AreSessions SetBlockFrameType.request m now h frame all =
    on_request-AreSessions m now h frame all
dispatch-AreSessions SetBlockFrameType.transfer m now h frame all =
    on_transfer-AreSessions m now h frame all
dispatch-AreSessions SetBlockFrameType.status_request m now h frame all =
    on_status_request_cases (λ r. AreSessions r.0) m h frame all
      λ s e a. report_status-AreSessions m h s e a all
dispatch-AreSessions SetBlockFrameType.abort m now h frame all = on_abort-AreSessions m h frame all
dispatch-AreSessions _ m now h frame all = all

-- Every frame keeps the sessions well formed.
pub on_frame-AreSessions :
    (m : SetBlockManager) (now : ℕ) (h : CanTsHeader) (frame : CanFrame)
    → AreSessions m
    → AreSessions (on_frame m now h frame).0
unfolding on_frame
on_frame-AreSessions m now h frame all =
    dispatch-AreSessions (get_set_block_type h.command) m now h frame all

pub new-AreSessions : (local_address : ℕ) → AreSessions (new local_address)
new-AreSessions local_address k s e = cc

-- After any frames at all, from a new manager on, each session is well formed: as many slots as
-- blocks were announced, 1 to 64 of them; stored under its peer; accepted exactly when the request
-- had an address; done only when accepted.
pub on_frames-AreSessions :
    (m : SetBlockManager) (arrivals : List Arrival)
    → AreSessions m
    → AreSessions (on_frames m arrivals).0
unfolding on_frames
on_frames-AreSessions m [] all = all
on_frames-AreSessions m (a ∷ rest) all =
    on_frames-AreSessions (on_frame m a.now a.header a.frame).0 rest
      (on_frame-AreSessions m a.now a.header a.frame all)
