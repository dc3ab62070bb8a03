-- ===== src/LossyProxy/Tests.antt =====
-- The theorem on src/bin/lossy_proxy.rs at an input: a client, an answer, and a datagram that is lost.
use entrouter_line.Base.{◌≡◌, true, false, List, [], ◌∷◌, arith}
use entrouter_line.LossyProxy.{Args, start, Event, datagram, run}
use entrouter_line.LossyProxy.Passage.{all_sent_to, passed, run-passed}

abbrev args : Args
args = record { listen = 9000; target = 8001; bidirectional = true }

abbrev events : List Event
events =
    datagram 7 (1 ∷ 2 ∷ []) false
    ∷ datagram 8001 (3 ∷ []) false
    ∷ datagram 7 (4 ∷ []) true
    ∷ datagram 7 (5 ∷ []) false
    ∷ []

run-passed_example : all_sent_to 8001 (run args start events).1 ≡ passed args events
run-passed_example =
    run-passed args start events (λ e. absurd (omega arith)) (λ addr e. absurd (cc))
