-- ===== src/Relay/Tunnel/Gaps.antt =====
-- src/relay/tunnel.rs, `receive_loop`: the loop over the sequence numbers that were skipped.
use entrouter_line.Base.{
  ℕ, zero, suc, ◌+◌, ◌-◌, ◌%◌, ◌^◌, ◌≤◌, ◌<◌, ◌≡◌, ◌≢◌, refl, sym, ap, ◌∙◌, Bool, true, false, List,
  [], ◌∷◌, ◌++◌, none, some, ok, Bytes, length, drop, replicate, ◌==◌, ==_iff, arith,
  length-replicate, ok-injective,
}
use mathlib.Core.Path.{subst}
use entrouter_line.Relay.Crypto.{Aead, decrypt}
use entrouter_line.Relay.Fec.{LossTracker, record_packet}
use entrouter_line.Relay.Fec.Window.{
  IsTracker, history, lost, record_packet-slide, record_all, record_all-slide, lost-history,
  length-history,
}
use entrouter_line.Relay.Tunnel.{
  catch_up, Watch, Outcome, undecryptable, opened, after_gap, watch_frame,
}

-- How many numbers lie between the expected and the received one, counting up modulo 2 ^ 64.
abbrev pub gap : ℕ → ℕ → ℕ
gap expected_seq seq = (seq + 2 ^ 64 - expected_seq) % 2 ^ 64

ne→false : (a b : ℕ) → a ≢ b → a == b ≡ false
ne→false a b h = ground arith

catch_up_rounds :
    (n fuel e s : ℕ) (t : LossTracker)
    → e < 2 ^ 64
    → (e + n) % 2 ^ 64 ≡ s
    → n < 2 ^ 64
    → n < fuel
    → IsTracker t
    → (u : LossTracker) × (catch_up fuel e s t ≡ some (ok u))
      × (record_all t (replicate n false) ≡ ok u)
unfolding catch_up record_all
catch_up_rounds n zero e s t small sum bound enough v = absurd (omega arith)
catch_up_rounds zero (suc fuel) e s t small sum bound enough v =
    let here : e ≡ s = omega arith in (t, rw ((==_iff e s).1 here, catch_up), refl)
catch_up_rounds (suc n) (suc fuel) e s t small sum bound enough v =
    let (t', run, v', size, slid) = record_packet-slide t false v in
    let (u, runs, all) =
      catch_up_rounds n fuel ((e + 1) % 2 ^ 64) s t' (omega arith) (omega arith) (omega arith)
        (omega arith) v' in
    (u, rw (ne→false e s (omega arith), catch_up, run) runs, rw run all)

catch_up_short :
    (n fuel e s : ℕ) (t : LossTracker)
    → e < 2 ^ 64
    → (e + n) % 2 ^ 64 ≡ s
    → n < 2 ^ 64
    → fuel ≤ n
    → IsTracker t
    → catch_up fuel e s t ≡ none
unfolding catch_up
catch_up_short n zero e s t small sum bound few v = refl
catch_up_short zero (suc fuel) e s t small sum bound few v = absurd (omega arith)
catch_up_short (suc n) (suc fuel) e s t small sum bound few v =
    let (t', run, v', size, slid) = record_packet-slide t false v in
    rw (ne→false e s (omega arith), catch_up, run)
      (catch_up_short n fuel ((e + 1) % 2 ^ 64) s t' (omega arith) (omega arith) (omega arith)
        (omega arith) v')

-- The loop ends, after exactly `gap` rounds: with more fuel it records that many lost packets and
-- nothing else, with no more fuel than that it has not ended.
pub catch_up-gap :
    (e s : ℕ) (t : LossTracker)
    → e < 2 ^ 64
    → s < 2 ^ 64
    → IsTracker t
    → ((fuel : ℕ)
        → gap e s < fuel
        → (u : LossTracker) × (catch_up fuel e s t ≡ some (ok u))
          × (record_all t (replicate (gap e s) false) ≡ ok u))
      × ((fuel : ℕ) → fuel ≤ gap e s → catch_up fuel e s t ≡ none)
catch_up-gap e s t small_e small_s v = (
  λ fuel enough. catch_up_rounds (gap e s) fuel e s t small_e (omega arith) (omega arith) enough v,
  λ fuel few. catch_up_short (gap e s) fuel e s t small_e (omega arith) (omega arith) few v,
)

drop-append_ge :
    (h ys : List Bool) (n : ℕ) → length h ≤ n → drop n (h ++ ys) ≡ drop (n - length h) ys
drop-append_ge [] ys n e = let same : n ≡ n - 0 = omega arith in ap (λ k. drop k ys) same
drop-append_ge (x ∷ h) ys zero e = absurd (omega arith)
drop-append_ge (x ∷ h) ys (suc n) e =
    let same : n - length h ≡ suc n - suc (length h) = omega arith in
    drop-append_ge h ys n (omega arith) ∙ ap (λ k. drop k ys) same

lost-drop-false : (n m : ℕ) → lost (drop m (replicate n false)) ≡ n - m
unfolding lost
lost-drop-false zero zero = omega arith
lost-drop-false zero (suc m) = omega arith
lost-drop-false (suc n) zero = omega (arith, lost-drop-false n 0)
lost-drop-false (suc n) (suc m) = omega (arith, lost-drop-false n m)

-- A packet that comes late by `d` sequence numbers makes the loop run 2 ^ 64 - d times: it has not
-- ended before, and when it ends every packet of the loss window counts as lost.
pub catch_up_late :
    (e s : ℕ) (t : LossTracker)
    → s < e
    → e < 2 ^ 64
    → length t.window ≤ 2 ^ 64 - (e - s)
    → IsTracker t
    → ((fuel : ℕ) → fuel ≤ 2 ^ 64 - (e - s) → catch_up fuel e s t ≡ none)
      × ((u : LossTracker) × (catch_up (2 ^ 64) e s t ≡ some (ok u)) × (u.count ≡ length t.window))
catch_up_late e s t late small wide v =
    let n = gap e s in
    let count : n ≡ 2 ^ 64 - (e - s) = omega arith in
    let (ends, waits) = catch_up-gap e s t small (omega arith) v in
    let (u, run, all) = ends (2 ^ 64) (omega arith) in
    let (u', all', v', size, slid) = record_all-slide t (replicate n false) v in
    let same : u' ≡ u = ok-injective (sym all' ∙ all) in
    let old = history t in
    let wide' : length old ≤ n = omega (arith, length-history t) in
    let rest : lost (history u') ≡ n - (n - length old) =
      ap lost (slid ∙ ap (λ k. drop k (old ++ replicate n false)) (length-replicate n false))
      ∙ ap lost (drop-append_ge old (replicate n false) n wide')
      ∙ lost-drop-false n (n - length old) in
    let all_lost : u.count ≡ length t.window =
      sym (ap (λ (x : LossTracker). x.count) same)
      ∙ v'.counted
      ∙ sym (lost-history u')
      ∙ rest
      ∙ omega (arith, length-history t, wide') in
    (λ fuel few. waits fuel (omega arith), (u, run, all_lost))

-- The gap before a packet, and the packet itself.
pub catch_up-IsTracker :
    (e s : ℕ) (t : LossTracker)
    → e < 2 ^ 64
    → s < 2 ^ 64
    → IsTracker t
    → (u : LossTracker) × (u' : LossTracker) × (catch_up (2 ^ 64) e s t ≡ some (ok u))
      × (record_packet u true ≡ ok u')
      × IsTracker u'
catch_up-IsTracker e s t small_e small_s v =
    let n = gap e s in
    let (u, run, all) = (catch_up-gap e s t small_e small_s v).0 (2 ^ 64) (omega arith) in
    let (u', all', v', size, slid) = record_all-slide t (replicate n false) v in
    let same : u' ≡ u = ok-injective (sym all' ∙ all) in
    let (u₁, run₁, v₁, size₁, slid₁) = record_packet-slide u true (subst IsTracker same v') in
    (u, u₁, run, run₁, v₁)

after_gap_done :
    (seq : ℕ) (outcome : Outcome) (t : LossTracker)
    → IsTracker t
    → (w : Watch) × (after_gap seq outcome (some (ok t)) ≡ some (ok (w, outcome)))
      × IsTracker w.loss_tracker
      × (w.expected_seq ≡ (seq + 1) % 2 ^ 64)
after_gap_done seq undecryptable t v =
    let (t₁, run₁, v₁, size₁, slid₁) = record_packet-slide t true v in
    let (t₂, run₂, v₂, size₂, slid₂) = record_packet-slide t₁ false v₁ in
    (record { expected_seq = (seq + 1) % 2 ^ 64; loss_tracker = t₂ }, rw (run₁, run₂), v₂, refl)
after_gap_done seq _ t v =
    let (t₁, run₁, v₁, size₁, slid₁) = record_packet-slide t true v in
    (record { expected_seq = (seq + 1) % 2 ^ 64; loss_tracker = t₁ }, rw run₁, v₁, refl)

-- A whole frame of any sequence number is dealt with: the loop over the gap ends within 2 ^ 64
-- rounds, nothing panics, the loss counter stays exact, and the next number is expected.
pub watch_frame-total :
    (a : Aead) (key : Bytes) (w : Watch) (packet_type seq from : ℕ) (ciphertext : Bytes)
    → w.expected_seq < 2 ^ 64
    → seq < 2 ^ 64
    → IsTracker w.loss_tracker
    → (w' : Watch) × (outcome : Outcome) × (watch_frame a key w packet_type seq from ciphertext
        ≡ some (ok (w', outcome)))
      × IsTracker w'.loss_tracker
      × (w'.expected_seq ≡ (seq + 1) % 2 ^ 64)
unfolding watch_frame
watch_frame-total a key w packet_type seq from ciphertext small_e small_s v =
    let outcome = opened [] packet_type seq from (decrypt a key seq ciphertext) in
    let n = gap w.expected_seq seq in
    let (u, run, all) =
      (catch_up-gap w.expected_seq seq w.loss_tracker small_e small_s v).0 (2 ^ 64) (omega arith) in
    let (u', all', v', size, slid) = record_all-slide w.loss_tracker (replicate n false) v in
    let same : u' ≡ u = ok-injective (sym all' ∙ all) in
    let (w', done, v'', next) = after_gap_done seq outcome u (subst IsTracker same v') in
    (w', outcome, rw run done, v'', next)
