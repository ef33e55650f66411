-- ===== src/Adapter/Premiums.antt =====
-- mock_carrier.go: what a mock carrier answers.
use carrier_gateway.Prelude.{
  ℕ, zero, ◌/◌, ◌+◌, ◌*◌, ◌<◌, ◌≤◌, ◌≡◌, refl, ap, ◌∙◌, ℤ, negsuc, suc, ◌-◌, ◌-ℤ◌, ltb,
  to_int64-negsuc, if◌then◌else◌, pos, Text, bytes, Bool, true, false, Option, none, some, length,
  half64, arith, Bool-cases, inl, inr, ◌⊎◌, to_int64-pos, to_int64, ◌+ℤ◌, ◌*ℤ◌, ltb_int,
}
use carrier_gateway.Domain.{
  Context, QuoteRequest, QuoteResult, Error, sentinel, carrier_unavailable, Sentinel, Result, ok,
  err,
}
use carrier_gateway.Float.{FloatOps}
use carrier_gateway.Adapter.{register, call_native, convert_back}
use carrier_gateway.Adapter.Mock.{
  millisecond, MockCarrier, MockResponse, Simulation, draw_jitter, latency_at, inject, respond,
  call, unless_injected, after_sleep, sleep_for, mock_adapter, register_mock_carrier,
}

-- `rand.Intn(n)` is in [0, n).
abbrev pub DrawsBelow : {F W : Type 0} → Simulation F W → Type 0
DrawsBelow sim = (n : ℕ) (w : _) → 0 < n → (k : ℕ) × ((sim.intn (pos n) w).1 ≡ pos k × k < n)

-- A quote of the carrier in US dollars, from ten thousand cents per byte of its name up to fifty
-- thousand cents more.
abbrev pub IsQuoteOf : Text → QuoteResult → Type 0
IsQuoteOf id q =
    (q.carrier_id ≡ id)
    × ((q.premium.currency ≡ bytes "USD")
        × ((k : ℕ) × ((q.premium.amount ≡ pos (length id * 10000 + k)) × k < 50000)))

-- The latency that a jitter leads to.
abbrev latency_of : ℤ → ℤ → ℤ
latency_of base jitter =
    let latency = to_int64 (base +ℤ to_int64 (jitter *ℤ millisecond)) in
    if ltb_int latency (pos 0) then pos 0 else latency

latency_of-pos :
    (b d : ℕ) → b + d * 1000000 < half64 → latency_of (pos b) (pos d) ≡ pos (b + d * 1000000)
latency_of-pos b d h =
    ground (arith, to_int64-pos (d * 1000000) (omega arith), to_int64-pos (b + d * 1000000) h)

latency_of-negsuc :
    (b d : ℕ)
    → suc d * 1000000 ≤ b
    → b < half64
    → latency_of (pos b) (negsuc d) ≡ pos (b - suc d * 1000000)
latency_of-negsuc b d h k = ground (
  arith,
  to_int64-negsuc (suc d * 1000000 - 1) (omega arith),
  to_int64-pos (b - suc d * 1000000) (omega arith),
)

-- The numbers that are `j` milliseconds from `b` at most.
abbrev Near : ℕ → ℕ → ℤ → Type 0
Near b j x = (l : ℕ) × ((x ≡ pos l) × (b ≤ l + j * 1000000 × l ≤ b + j * 1000000))

jitter-below : (k j : ℕ) → k < j → j < half64 → to_int64 (pos k -ℤ pos j) ≡ negsuc (j - k - 1)
jitter-below k j h n = ground (arith, to_int64-negsuc (j - k - 1) (omega arith))

jitter-above : (k j : ℕ) → j ≤ k → k < half64 → to_int64 (pos k -ℤ pos j) ≡ pos (k - j)
jitter-above k j h n = ground (arith, to_int64-pos (k - j) (omega arith))

latency_of-Near :
    (b j k : ℕ)
    → j * 1000000 ≤ b
    → b + j * 1000000 < half64
    → k < 2 * j + 1
    → Near b j (latency_of (pos b) (to_int64 (pos k -ℤ pos j)))
latency_of-Near b j k small fits lt = elim (Bool-cases (ltb k j)) [
  | inl e ↦ (
    b - suc (j - k - 1) * 1000000,
    (
      ap (latency_of (pos b)) (jitter-below k j (ground arith) (omega arith))
          ∙ latency_of-negsuc b (j - k - 1) (ground arith) (omega arith),
      (ground arith, omega arith),
    ),
  )
  | inr e ↦
      let h : j ≤ k = ground arith in
      (
        b + (k - j) * 1000000,
        (
          ap (latency_of (pos b)) (jitter-above k j h (omega arith))
              ∙ latency_of-pos b (k - j) (omega arith),
          (omega arith, omega arith),
        ),
      )
]

jitter_bound : (j : ℕ) → j < half64 / 4 → to_int64 (pos j *ℤ pos 2 +ℤ pos 1) ≡ pos (2 * j + 1)
jitter_bound j h = ground (arith, to_int64-pos (2 * j + 1) (omega arith))

module _ {F W : Type 0} (o : FloatOps F) (sim : Simulation F W) (m : MockCarrier F)
    (ctx : Context W) (w : W) where
  -- The end of the context, or an injected failure of a carrier with a positive rate.
  abbrev pub IsExcused : Error → Type 0
  IsExcused e =
      ((s : Sentinel) × (((sleep_for o sim m ctx (draw_jitter o sim m w)).1 ≡ some s)
          × (e ≡ sentinel s)))
      ⊎ ((o.lt (o.ratio 0 1) m.cfg.failure_rate ≡ true) × (e ≡ sentinel carrier_unavailable))

  abbrev pub Answers : Result QuoteResult → Type 0
  Answers (ok q) = IsQuoteOf m.id q
  Answers (err e) = IsExcused e

  abbrev IsSound : Result MockResponse → Type 0
  IsSound (ok r) = (k : ℕ) × ((r.premium_cents ≡ pos (length m.id * 10000 + k)) × k < 50000)
  IsSound (err e) = IsExcused e

  back-Answers :
      (r : W × Result MockResponse)
      → IsSound r.1
      → Answers (convert_back (mock_adapter sim.now) (call o sim m) m.id ctx r).1
  unfolding convert_back mock_adapter
  back-Answers (v, ok r) h = (refl, (refl, h))
  back-Answers (v, err e) h = h

  premium_lem :
      (k l : ℕ)
      → l * 10000 + 50000 ≤ half64
      → k < 50000
      → to_int64 (to_int64 (pos l *ℤ pos 10000) +ℤ pos k) ≡ pos (l * 10000 + k)
  premium_lem k l h lt =
      ground (
        arith,
        to_int64-pos (l * 10000) (ground arith),
        to_int64-pos (l * 10000 + k) (ground arith),
      )

  respond-IsSound :
      DrawsBelow sim
      → length m.id * 10000 + 50000 ≤ half64
      → (v : W) → IsSound (respond o sim m v).1
  unfolding respond
  respond-IsSound d h v =
      let (k, (e, lt)) = d 50000 v (omega arith) in
      (
        k,
        (
          ap (λ n. to_int64 (to_int64 (pos (length m.id) *ℤ pos 10000) +ℤ n)) e
              ∙ premium_lem k (length m.id) h lt,
          lt,
        ),
      )

  unless_injected-IsSound :
      DrawsBelow sim
      → length m.id * 10000 + 50000 ≤ half64
      → (r : W × Bool) → (r.1 ≡ true → o.lt (o.ratio 0 1) m.cfg.failure_rate ≡ true)
      → IsSound (unless_injected o sim m r).1
  unless_injected-IsSound d h (v, true) e = inr (e refl, refl)
  unless_injected-IsSound d h (v, false) e = respond-IsSound d h v

  inject-lt : (v : W) → (inject o sim m v).1 ≡ true → o.lt (o.ratio 0 1) m.cfg.failure_rate ≡ true
  unfolding inject
  inject-lt v = elim (Bool-cases (o.lt (o.ratio 0 1) m.cfg.failure_rate)) [
    | inl e ↦ λ h. e
    | inr e ↦ rw (e, inject) (λ h. absurd (ground arith))
  ]

  after_sleep-IsSound :
      DrawsBelow sim
      → length m.id * 10000 + 50000 ≤ half64
      → (r : W × Option Sentinel) → ((s : Sentinel) → r.1 ≡ some s → IsExcused (sentinel s))
      → IsSound (after_sleep o sim m r).1
  after_sleep-IsSound d h (v, some s) e = e s refl
  after_sleep-IsSound d h (v, none) e = unless_injected-IsSound d h (inject o sim m v) (inject-lt v)

  -- A mock carrier answers a quote of its own in US dollars, between ten thousand cents per byte of
  -- its name and fifty thousand cents more, or the error of a context that ended while it slept, or
  -- that it is unavailable, the last only if its failure rate is positive; where rand.Intn draws below
  -- its argument and the premium fits an int64.
  pub register_mock_carrier-Answers :
      (req : QuoteRequest)
      → DrawsBelow sim
      → length m.id * 10000 + 50000 ≤ half64
      → Answers (register_mock_carrier o sim m ctx req w).1
  unfolding register_mock_carrier register call_native mock_adapter call
  register_mock_carrier-Answers req d h =
      back-Answers (after_sleep o sim m (sleep_for o sim m ctx (draw_jitter o sim m w))) (
        after_sleep-IsSound d h (sleep_for o sim m ctx (draw_jitter o sim m w))
          (λ s e. inl (s, (e, refl))))

  drawn-suc :
      (j k : ℕ)
      → m.cfg.jitter_ms ≡ pos j
      → ltb_int (pos 0) (pos j) ≡ true
      → j < half64 / 4
      → (sim.intn (pos (2 * j + 1)) w).1 ≡ pos k
      → (draw_jitter o sim m w).1 ≡ to_int64 (pos k -ℤ pos j)
  unfolding draw_jitter
  drawn-suc j k ej p h e = rw (ej, jitter_bound j h, draw_jitter, p, e) refl

  drawn-zero : m.cfg.jitter_ms ≡ pos 0 → (draw_jitter o sim m w).1 ≡ pos 0
  unfolding draw_jitter
  drawn-zero ej = rw (ej, draw_jitter) refl

  latency_at-Near :
      (b j : ℕ) (n : ℤ)
      → m.cfg.base_latency ≡ pos b
      → (draw_jitter o sim m w).1 ≡ n
      → Near b j (latency_of (pos b) n)
      → Near b j (latency_at o sim m (draw_jitter o sim m w).1)
  unfolding latency_at
  latency_at-Near b j n eb en h = rw (en, eb, latency_at) h

  -- A call sleeps for the base latency, JitterMs milliseconds more or less.
  pub latency_at-bounds :
      (b j : ℕ)
      → DrawsBelow sim
      → m.cfg.base_latency ≡ pos b
      → m.cfg.jitter_ms ≡ pos j
      → j * 1000000 ≤ b
      → b + j * 1000000 < half64
      → (l : ℕ) × ((latency_at o sim m (draw_jitter o sim m w).1 ≡ pos l)
          × (b ≤ l + j * 1000000 × l ≤ b + j * 1000000))
  latency_at-bounds b zero d eb ej small fits =
      latency_at-Near b 0 (pos 0) eb (drawn-zero ej)
        (b + 0 * 1000000, (latency_of-pos b 0 (omega arith), (omega arith, omega arith)))
  latency_at-bounds b (suc j) d eb ej small fits =
      let (k, (e, lt)) = d (2 * suc j + 1) w (omega arith) in
      latency_at-Near b (suc j) (to_int64 (pos k -ℤ pos (suc j))) eb
        (drawn-suc (suc j) k ej (ground arith) (omega arith) e)
        (latency_of-Near b (suc j) k small fits lt)
