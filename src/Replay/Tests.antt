-- ===== src/Replay/Tests.antt =====
-- Both windows at concrete packets.
use csqtt_android.Shared.{ℕ, ◌≡◌, ◌≢◌, refl, true, false, not, ◌&&◌, ◌||◌, ◌==◌, [], ◌∷◌, arith}
use csqtt_android.Replay.{ReplayState, set_srtp_bit, test_srtp_bit, clear_ahead}
use csqtt_android.Replay
use csqtt_android.Replay.Window.{in_window, knows, is_old}
use csqtt_android.Replay.Once.{new-IsReplay, accept-IsReplay, accept_answers, accepted_once, run}
use csqtt_android.Replay.Client
use csqtt_android.Replay.Client.{ReplayWindow, extended, accept_rtp, clear_bits, accept_after}
use csqtt_android.Replay.Client.Once
use csqtt_android.Replay.Client.Once.{known, window_answers, never_accepted_again}

-- Number 65,535 came, then 2 came.
abbrev wrapped : ReplayState
wrapped = (Replay.accept (Replay.accept Replay.new 65_535).0 2).0

wrapped-IsReplay : Replay.Window.IsReplay wrapped
wrapped-IsReplay =
    accept-IsReplay _ 2 (accept-IsReplay Replay.new 65_535 new-IsReplay (omega arith)) (omega arith)

accept_answers_example :
    let next = Replay.accept wrapped 65_535 in
    (next.1 ≡ not (wrapped.initialized && (knows wrapped 65_535 || is_old wrapped 65_535)))
    × (next.1 ≡ true → knows next.0 2 ≡ (2 == 65_535 || (knows wrapped 2 && in_window next.0 2)))
    × (next.1 ≡ false → next.0 ≡ wrapped)
accept_answers_example =
    accept_answers wrapped 65_535 2 wrapped-IsReplay (omega arith) (omega arith)

accepted_once_example :
    (Replay.accept (run (Replay.accept Replay.new 65_535).0 (2 ∷ 65_534 ∷ [])) 65_535).1 ≡ false
unfolding Replay.accept set_srtp_bit test_srtp_bit clear_ahead Replay.clear_srtp_bit
accepted_once_example =
    accepted_once Replay.new 65_535 (2 ∷ 65_534 ∷ []) new-IsReplay (omega arith)
      (omega arith, (omega arith, tt)) refl (omega arith, (omega arith, tt))

-- Packets 70,000 and 70,003 came at the client.
abbrev two_came : ReplayWindow
two_came = (Client.accept (Client.accept Client.new 70_000).0 70_003).0

window_answers_example :
    let next = Client.accept two_came 70_001 in
    (next.1 ≡ not (known two_came 70_001))
    × (next.1 ≡ false → next.0 ≡ two_came)
    × (next.1 ≡ true
        → Client.Once.in_window next.0 70_002 ≡ true
        → ◌≢◌ {A = ℕ} 70_002 70_001
        → known next.0 70_002 ≡ known two_came 70_002)
unfolding Client.accept accept_after
window_answers_example = window_answers two_came 70_001 70_002 (λ e. cc)

never_accepted_again_example :
    (Client.accept
      (Client.Once.run (Client.accept two_came 70_001).0 (90_000 ∷ 70_001 ∷ []))
      70_001).1
    ≡ false
never_accepted_again_example = never_accepted_again two_came 70_001 (90_000 ∷ 70_001 ∷ [])

-- A client whose first packet is number 5 takes a late one, from before it, for a leap of almost
-- 65,536, and after that number 5 is accepted again.
abbrev leapt : ReplayWindow
leapt = (accept_rtp (accept_rtp (accept_rtp Client.new 5).0 65_000).0 6).0

five_again : (accept_rtp leapt 5).1 ≡ true
unfolding accept_rtp extended Client.accept accept_after clear_bits set_srtp_bit test_srtp_bit
    Replay.clear_srtp_bit
five_again = refl
