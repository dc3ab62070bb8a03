-- ===== src/TestHarness/Tests.antt =====
-- The theorems on src/bin/test_harness.rs at inputs, with two data shards and one parity shard.
use entrouter_line.Base.{ℕ, ◌∙◌, ◌≡◌, List, [], ◌∷◌, some, ok, Bytes, length, arith, All}
use entrouter_line.LossyProxy.{run}
use entrouter_line.Relay.Crypto.Toy.{toy, toy-Seals}
use entrouter_line.Relay.Fec.{FecConfig}
use entrouter_line.Relay.FecCodec.SumCode.{sum_code, sum_Recovers, length-plus}
use entrouter_line.Relay.Fec.Encoder.{Uniform}
use entrouter_line.TestHarness.{Arrival, failed, datagram, send_all, run_receiver, BlockResult}
use entrouter_line.TestHarness.Store.{Arrivals}
use entrouter_line.TestHarness.Recovery.{Recovered}
use entrouter_line.TestHarness.Sending.{AreBlocks}
use entrouter_line.TestHarness.EndToEnd.{
  Arrives, IsSendable, send_all-AreBlocks, run_receiver-Recovered,
}

abbrev key : Bytes
key = 7 ∷ []

abbrev config : FecConfig
config = record { data_shards = 2; parity_shards = 1 }

abbrev payload : Bytes
payload = 1 ∷ 2 ∷ 3 ∷ []

abbrev payloads : List Bytes
payloads = payload ∷ payload ∷ []

sum_Uniform :
    (n : ℕ) (data_part : List Bytes)
    → length data_part ≡ 2
    → Uniform n data_part
    → Uniform n (sum_Recovers.parity data_part)
sum_Uniform n (x ∷ y ∷ []) size (ex, (ey, _)) = (length-plus x y (omega arith) ∙ ex, tt)
sum_Uniform n (x ∷ y ∷ z ∷ data_part) size u = absurd (omega arith)
sum_Uniform n (x ∷ []) size u = absurd (omega arith)
sum_Uniform n [] size u = absurd (omega arith)

payloads-IsSendable : All (IsSendable config) payloads
payloads-IsSendable = ((omega arith, omega arith), ((omega arith, omega arith), tt))

-- The frames of the sender, of which one of the first block is lost, and two of the second.
abbrev picks : Arrivals
picks = (0, 2) ∷ (1, 1) ∷ (0, 0) ∷ []

made :
    (frames : List Bytes) × (send_all toy sum_code key config payloads ≡ ok frames)
    × ((arrivals : List Arrival) × Arrives frames 2 3 arrivals picks)
unfolding AreBlocks Arrives
made =
    let (block, frames, term, split, run, count, each, last, is_done) =
      send_all-AreBlocks toy sum_code key config sum_Recovers sum_Uniform toy-Seals (omega arith)
        (omega arith) payloads payloads-IsSendable (omega arith) in
    let (first, at_first, is_first) = each 0 2 (omega arith) (omega arith) in
    let (second, at_second, is_second) = each 1 1 (omega arith) (omega arith) in
    let (third, at_third, is_third) = each 0 0 (omega arith) (omega arith) in
    (
      frames,
      run,
      (
        datagram 5 first ∷ failed ∷ datagram 5 second ∷ datagram 5 third ∷ datagram 5 term ∷ [],
        (
          omega arith,
          omega arith,
          at_first,
          (omega arith, omega arith, at_second, (omega arith, omega arith, at_third, last)),
        ),
      ),
    )

run_receiver-Recovered_example :
    (results : List BlockResult) × (run_receiver toy sum_code key config 2 made.2.0
      ≡ some (ok results))
    × (length results ≡ 2)
    × Recovered picks 3 1 0 results
run_receiver-Recovered_example =
    run_receiver-Recovered toy sum_code key config sum_Recovers sum_Uniform toy-Seals (omega arith)
      (omega arith) payloads payloads-IsSendable (omega arith) made.0 made.2.0 picks made.1 made.2.1
