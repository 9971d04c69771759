-- ===== src/Protocol/Peers.antt =====
-- When a peer counts as connected (`isPeerConnected`).
use cannect.Base.{
  ℕ, ◌-◌, ◌/◌, ◌≡◌, refl, ap, Bool, true, false, Option, none, some, leb, ◌==◌, if◌then◌else◌, ◌∙◌,
}
use cannect.Types.{CanFrame}
use cannect.Codec.{decode}
use cannect.Protocol.State.{CanTsProtocol, note_peer_alive}
use cannect.Protocol.Handling.{on_frame}
use cannect.Protocol.Calls.{is_peer_connected}
use cannect.Protocol.Routing.{on_frame-Untouched}

abbrev recent : Option ℕ → ℕ → ℕ → Bool
recent seen now timeout_ms = elim seen [
  | none ↦ false
  | some last_seen ↦ leb ((now - last_seen) / 1000000) timeout_ms
]

-- After a frame, whomever it is for, its sender counts as connected until the timeout in milliseconds
-- has passed since then; whether any other peer is connected is as before.
pub is_peer_connected-on_frame :
    (p : CanTsProtocol) (seen now peer timeout_ms : ℕ) (frame : CanFrame)
    → is_peer_connected (on_frame p seen frame).protocol now peer timeout_ms ≡ (
        if peer == (decode frame.id).from
        then leb ((now - seen) / 1000000) timeout_ms
        else is_peer_connected p now peer timeout_ms)
unfolding is_peer_connected note_peer_alive
is_peer_connected-on_frame p seen now peer timeout_ms frame =
    let (_, _, _, _, _, _, peers) = (on_frame-Untouched p seen frame).0.node in
    ap (λ f. recent (f peer) now timeout_ms) peers ∙ pushed (peer == (decode frame.id).from)
  where
    pushed :
        (b : Bool)
        → recent (if b then some seen else p.peers peer) now timeout_ms ≡ (
            if b
            then leb ((now - seen) / 1000000) timeout_ms
            else recent (p.peers peer) now timeout_ms)
    pushed true = refl
    pushed false = refl
