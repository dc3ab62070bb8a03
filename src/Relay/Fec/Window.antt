-- ===== src/Relay/Fec/Window.antt =====
-- src/relay/fec.rs, `LossTracker`: the ring is a sliding window over the packets, and its counter
-- is the number of lost packets in it.
use entrouter_line.Base.{
  ℕ, zero, suc, ◌+◌, ◌-◌, ◌%◌, ◌≤◌, ◌<◌, ◌≡◌, refl, sym, ap, ◌∙◌, Bool, true, List, [], ◌∷◌, ◌++◌,
  some, Run, ok, ◌>>=◌, length, get_elem?, set, take, drop, replicate, if◌then◌else◌, arith,
  length-append, length-set, length-replicate, length-drop, append_assoc, append-nil,
  take-append-drop, drop_all, take_all,
}
use native.Mathlib.Decide.{dec_lt}
use native.Mathlib.Nat.{mod-lt, mod-eq_of_lt, mod_self}
use entrouter_line.Relay.Fec.{LossTracker, new, record_packet, loss_rate}

-- The packets of a window that were lost.
unfoldable pub lost : List Bool → ℕ
lost [] = 0
lost (received ∷ w) = (if received then 0 else 1) + lost w

pub record IsTracker (t : LossTracker) : Type 0 where
  pub inside : t.pos < length t.window
  pub counted : t.count ≡ lost t.window

-- The window, the oldest packet first.
abbrev pub history : LossTracker → List Bool
history t = drop t.pos t.window ++ take t.pos t.window

-- What `record` does to the history: the oldest packet goes out, the new one comes in.
abbrev pub slide : List Bool → Bool → List Bool
slide w b = drop 1 w ++ b ∷ []

lost-append : (v w : List Bool) → lost (v ++ w) ≡ lost v + lost w
unfolding lost
lost-append [] w = omega arith
lost-append (b ∷ v) w = omega (arith, lost-append v w)

lost-replicate : (n : ℕ) → lost (replicate n true) ≡ 0
unfolding lost
lost-replicate zero = refl
lost-replicate (suc n) = omega (arith, lost-replicate n)

-- The cell at a position inside the window, with its share of the counter.
cell :
    (w : List Bool) (i : ℕ) (b : Bool)
    → i < length w
    → (old : Bool) × (get_elem? w i ≡ some old)
      × (lost (set w i b) + (if old then 0 else 1) ≡ lost w + (if b then 0 else 1))
      × ((if old then 0 else 1) ≤ lost w)
unfolding lost
cell [] i b h = absurd (omega arith)
cell (x ∷ w) zero b h = (x, refl, ground arith, ground arith)
cell (x ∷ w) (suc i) b h =
    let (old, e, sum, le) = cell w i b (omega arith) in
    (old, e, omega (arith, sum), omega (arith, le))

take-set :
    (w : List Bool) (i : ℕ) (b : Bool)
    → i < length w
    → take (suc i) (set w i b) ≡ take i w ++ b ∷ []
take-set [] i b h = absurd (omega arith)
take-set (x ∷ w) zero b h = refl
take-set (x ∷ w) (suc i) b h = ap (λ t. x ∷ t) (take-set w i b (omega arith))

drop-set : (w : List Bool) (i : ℕ) (b : Bool) → drop (suc i) (set w i b) ≡ drop (suc i) w
drop-set [] i b = refl
drop-set (x ∷ w) zero b = refl
drop-set (x ∷ w) (suc i) b = drop-set w i b

drop-drop_one : (w : List Bool) (i : ℕ) → i < length w → drop 1 (drop i w) ≡ drop (suc i) w
drop-drop_one [] i h = absurd (omega arith)
drop-drop_one (x ∷ w) zero h = refl
drop-drop_one (x ∷ w) (suc i) h = drop-drop_one w i (omega arith)

drop_one-append : (v w : List Bool) → 0 < length v → drop 1 (v ++ w) ≡ drop 1 v ++ w
drop_one-append [] w h = absurd (omega arith)
drop_one-append (x ∷ v) w h = refl

-- The old list, read from position `i` on, less its first packet.
slid :
    (w : List Bool) (i : ℕ) (b : Bool)
    → i < length w
    → slide (drop i w ++ take i w) b ≡ drop (suc i) w ++ (take i w ++ b ∷ [])
slid w i b h =
    rw (drop_one-append (drop i w) (take i w) (omega (arith, length-drop i w)))
      (rw (drop-drop_one w i h) (append_assoc (drop (suc i) w) (take i w) (b ∷ [])))

-- One write at `i`, read from the next position on, modulo the length.
turn :
    (w : List Bool) (i : ℕ) (b : Bool)
    → i < length w
    → let p = (i + 1) % length (set w i b) in
      drop p (set w i b) ++ take p (set w i b) ≡ slide (drop i w ++ take i w) b
turn w i b h = elim (dec_lt (suc i) (length w)) [
  | yes more ↦
      let step : (i + 1) % length (set w i b) ≡ suc i =
        rw (length-set w i b, mod-eq_of_lt {n = i + 1} {m = length w} (omega arith))
          (omega arith) in
      rw (step, drop-set w i b, take-set w i b h) (sym (slid w i b h))
  | no last ↦
      let step : (i + 1) % length (set w i b) ≡ 0 =
        let e : i + 1 ≡ length w = omega arith in rw (length-set w i b, e) (mod_self (length w)) in
      let whole : take (suc i) (set w i b) ≡ set w i b =
        take_all (set w i b) (suc i) (omega (arith, length-set w i b)) in
      rw (step, append-nil, slid w i b h, drop_all w (suc i) (omega arith))
        (sym whole ∙ take-set w i b h)
]

-- The counter after a write, from the share of the cell.
recount :
    (old b : Bool) (count before after : ℕ)
    → count ≡ before
    → after + (if old then 0 else 1) ≡ before + (if b then 0 else 1)
    → (if old then 0 else 1) ≤ before
    → (if b then (if old then count else count - 1) else (if old then count else count - 1) + 1)
      ≡ after
recount old b count before after e sum le = ground arith

-- Recording a packet keeps the counter exact, keeps the size of the window, and slides it by one.
pub record_packet-slide :
    (t : LossTracker) (b : Bool)
    → IsTracker t
    → (u : LossTracker) × (record_packet t b ≡ ok u)
      × IsTracker u
      × (length u.window ≡ length t.window)
      × (history u ≡ slide (history t) b)
unfolding record_packet
record_packet-slide t b v =
    let (old, e, sum, le) = cell t.window t.pos b v.inside in
    let u : LossTracker = record {
      window = set t.window t.pos b;
      pos = (t.pos + 1) % length (set t.window t.pos b);
      count =
          if b
          then (if old then t.count else t.count - 1)
          else (if old then t.count else t.count - 1) + 1;
    } in
    (
      u,
      rw e,
      record {
        inside = mod-lt _ (omega (arith, length-set t.window t.pos b));
        counted = recount old b t.count (lost t.window) _ v.counted sum le;
      },
      length-set t.window t.pos b,
      turn t.window t.pos b v.inside,
    )

-- The loop over packets.
unfoldable pub record_all : LossTracker → List Bool → Run LossTracker
record_all t [] = ok t
record_all t (b ∷ bs) = do u ← record_packet t b; record_all u bs

slide-append :
    (h : List Bool) (b : Bool) (bs : List Bool)
    → 0 < length h
    → drop (length bs) (slide h b ++ bs) ≡ drop (length (b ∷ bs)) (h ++ b ∷ bs)
slide-append [] b bs p = absurd (omega arith)
slide-append (x ∷ h) b bs p = ap (drop (length bs)) (append_assoc h (b ∷ []) bs)

pub length-history : (t : LossTracker) → length (history t) ≡ length t.window
length-history t = omega (
  arith,
  length-append (drop t.pos t.window) (take t.pos t.window),
  ap length (take-append-drop t.pos t.window),
  length-append (take t.pos t.window) (drop t.pos t.window),
)

pub record_all-slide :
    (t : LossTracker) (bs : List Bool)
    → IsTracker t
    → (u : LossTracker) × (record_all t bs ≡ ok u)
      × IsTracker u
      × (length u.window ≡ length t.window)
      × (history u ≡ drop (length bs) (history t ++ bs))
unfolding record_all
record_all-slide t [] v = (t, refl, v, refl, sym (append-nil (history t)))
record_all-slide t (b ∷ bs) v =
    let (u, run, w, size, slid) = record_packet-slide t b v in
    let (z, runs, w', size', slides) = record_all-slide u bs w in
    (
      z,
      rw run runs,
      w',
      size' ∙ size,
      slides ∙ rw slid (slide-append (history t) b bs (omega (arith, length-history t, v.inside))),
    )

pub lost-history : (t : LossTracker) → lost (history t) ≡ lost t.window
lost-history t = omega (
  arith,
  lost-append (drop t.pos t.window) (take t.pos t.window),
  ap lost (take-append-drop t.pos t.window),
  lost-append (take t.pos t.window) (drop t.pos t.window),
)

pub new-IsTracker : (n : ℕ) → 0 < n → IsTracker (new n)
unfolding new
new-IsTracker n h = record {
  inside = rw (length-replicate n true) h;
  counted = sym (lost-replicate n);
}

-- A tracker with a window of `n > 0` packets never panics, and after any sequence of packets its
-- counter is the number of lost ones among the last `n` (packets before the first count as received).
pub record_all-window :
    (n : ℕ) (bs : List Bool)
    → 0 < n
    → (u : LossTracker) × (record_all (new n) bs ≡ ok u)
      × ((loss_rate u).num ≡ lost (drop (length bs) (replicate n true ++ bs)))
      × ((loss_rate u).den ≡ n)
unfolding new
record_all-window n bs h =
    let (u, run, v, size, slid) = record_all-slide (new n) bs (new-IsTracker n h) in
    (
      u,
      run,
      v.counted ∙ (sym (lost-history u) ∙ ap lost (slid ∙ rw append-nil)),
      size ∙ length-replicate n true,
    )
