-- ===== src/TestHarness/Proxy.antt =====
-- src/bin/test_harness.rs and src/bin/lossy_proxy.rs: the two proxies.
use entrouter_line.Base.{
  ℕ, ◌+◌, ◌%◌, ◌^◌, ◌≡◌, refl, inl, inr, Bool, false, List, [], ◌∷◌, Bytes, take, ◌==◌, Bool-cases,
}
use entrouter_line.LossyProxy.{Args, Proxy, Event, failed, datagram, buffer_size, pass, step, run}
use entrouter_line.TestHarness.{proxy_pass, run_lossy_proxy}

abbrev one_way : ℕ → ℕ → Args
one_way listen target = record { listen = listen; target = target; bidirectional = false }

proxy_pass-pass :
    (listen target : ℕ) (p : Proxy) (from : ℕ) (packet : Bytes) (drop : Bool)
    → proxy_pass target p from packet drop
      ≡ pass (one_way listen target) false p from packet (from == target) drop
unfolding proxy_pass pass
proxy_pass-pass listen target p from packet drop = elim (Bool-cases (from == target)) [
  | inl back ↦ rw back refl
  | inr there ↦ elim (Bool-cases drop) [
    | inl lose ↦ rw (there, lose) refl
    | inr keep ↦ rw (there, keep) refl
  ]
]

-- The proxy inside the harness does what the lossy proxy does without its option `bidirectional`: the
-- same datagrams go out, and the same is counted, whatever address that one listens on.
run_lossy_proxy-run :
    (listen target : ℕ) (p : Proxy) (events : List Event)
    → run_lossy_proxy target p events ≡ run (one_way listen target) p events
unfolding run_lossy_proxy run step
run_lossy_proxy-run listen target p [] = refl
run_lossy_proxy-run listen target p (failed ∷ events) =
    rw (run_lossy_proxy-run listen target p events) refl
run_lossy_proxy-run listen target p (datagram from bytes drop ∷ events) =
    let p' : Proxy = record p { total = (p.total + 1) % 2 ^ 64 } in
    let same = proxy_pass-pass listen target p' from (take buffer_size bytes) drop in
    rw
      (
        same,
        run_lossy_proxy-run listen target
            (pass (one_way listen target) false p' from (take buffer_size bytes) (from == target)
              drop).0
            events,
      )
      refl
