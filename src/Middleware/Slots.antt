-- ===== src/Middleware/Slots.antt =====
-- concurrency.go: LimitConcurrency. The channel `sem` is the number of its items. Requests are
-- goroutines that enter and leave in any order.
use carrier_gateway.Prelude.{
  ℕ, suc, ◌-◌, pos, ltb, Text, bytes, none, some, List, [], ◌∷◌, ◌++◌, get_elem?, set,
  if◌then◌else◌,
}
use carrier_gateway.Middleware.{Writer, HttpHandler, set_header, write_header, write}

abbrev pub concurrency_full_body : Text
concurrency_full_body =
    bytes "{\"error\":\"SERVICE_UNAVAILABLE: too many concurrent requests\"}" ++ 10 ∷ []

abbrev pub write_full : Writer → Writer
write_full w = write concurrency_full_body (
    write_header (pos 503) (
      set_header (bytes "Retry-After") (bytes "1")
        (set_header (bytes "Content-Type") (bytes "application/json") w)))

-- The items of the channel, in the state of the process.
pub record Limited (W : Type 0) : Type 0 where
  pub in_flight : ℕ
  pub rest : W

-- `LimitConcurrency`, for a request during which no other one enters or leaves.
unfoldable pub limit_concurrency : {W : Type 0} → ℕ → HttpHandler W → HttpHandler (Limited W)
limit_concurrency max next r w s =
    if ltb s.in_flight max
    then (let entered = record s { in_flight = suc s.in_flight } in
        let (w', rest) = next r w entered.rest in
        (w', record entered { in_flight = entered.in_flight - 1; rest = rest }))
    else (write_full w, s)

-- Where a request is: not there yet, in the guarded handler, turned away, or answered.
pub data Pc : Type 0 where
  arriving inside full answered : Pc

-- One goroutine goes on: the send into `sem` or its default, or the return with its receive.
unfoldable pub advance : ℕ → Pc → ℕ → Pc × ℕ
advance max arriving used = if ltb used max then (inside, suc used) else (full, used)
advance max inside used = (answered, used - 1)
advance max full used = (full, used)
advance max answered used = (answered, used)

pub record Requests : Type 0 where
  pub used : ℕ
  pub pcs : List Pc

unfoldable pub step : ℕ → ℕ → Requests → Requests
unfolding advance
step max i s = elim (get_elem? s.pcs i) [
  | none ↦ s
  | some pc ↦
      let (pc', used) = advance max pc s.used in record { used = used; pcs = set s.pcs i pc' }
]

unfoldable pub run : ℕ → List ℕ → Requests → Requests
unfolding step
run max [] s = s
run max (i ∷ schedule) s = run max schedule (step max i s)
