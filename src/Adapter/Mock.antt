-- ===== src/Adapter/Mock.antt =====
-- internal/adapter/mock_carrier.go. math/rand, the timer and the clock are parameters.
use carrier_gateway.Prelude.{
  ℤ, pos, ◌+ℤ◌, ◌-ℤ◌, ◌*ℤ◌, ltb_int, to_int64, Text, bytes, Bool, true, false, Option, none, some,
  List, [], length, if◌then◌else◌,
}
use carrier_gateway.Domain.{Context, sentinel, carrier_unavailable, Sentinel, Result, ok, err}
use carrier_gateway.Float.{FloatOps}
use carrier_gateway.Orchestrator.State.{AdapterFunc}
use carrier_gateway.Adapter.{Adapter, register}

pub record MockRequest : Type 0 where
  pub request_id : Text
  pub coverage_lines : List Text

pub record MockResponse : Type 0 where
  pub carrier_id : Text
  pub premium_cents : ℤ
  pub expires_in_seconds : ℤ

pub record MockConfig (F : Type 0) : Type 0 where
  pub base_latency : ℤ
  pub jitter_ms : ℤ
  pub failure_rate : F

pub record MockCarrier (F : Type 0) : Type 0 where
  pub id : Text
  pub cfg : MockConfig F

-- `rand.Intn`, `rand.Float64`, the clock, and the wait for a timer or the end of the context, whose
-- error it returns.
pub record Simulation (F W : Type 0) : Type 0 where
  pub intn : ℤ → W → W × ℤ
  pub float64 : W → W × F
  pub now : W → ℤ
  pub sleep : Context W → ℤ → W → W × Option Sentinel

abbrev pub millisecond : ℤ
millisecond = pos 1000000

module _ {F : Type 0} (o : FloatOps F) where
  unfoldable pub new_alpha : MockCarrier F
  new_alpha = record {
    id = bytes "alpha";
    cfg = record { base_latency = pos 50000000; jitter_ms = pos 10; failure_rate = o.ratio 0 1 };
  }

  unfoldable pub new_beta : MockCarrier F
  new_beta = record {
    id = bytes "beta";
    cfg = record { base_latency = pos 200000000; jitter_ms = pos 20; failure_rate = o.ratio 1 10 };
  }

  unfoldable pub new_gamma : MockCarrier F
  new_gamma = record {
    id = bytes "gamma";
    cfg = record { base_latency = pos 800000000; jitter_ms = pos 50; failure_rate = o.ratio 0 1 };
  }

module _ {F W : Type 0} (o : FloatOps F) (sim : Simulation F W) (m : MockCarrier F) where
  -- The jitter, drawn only if there is one.
  unfoldable pub draw_jitter : W → W × ℤ
  draw_jitter w =
      if ltb_int (pos 0) m.cfg.jitter_ms
      then (let (w', n) = sim.intn (to_int64 (m.cfg.jitter_ms *ℤ pos 2 +ℤ pos 1)) w in
          (w', to_int64 (n -ℤ m.cfg.jitter_ms)))
      else (w, pos 0)

  -- The latency at a jitter, never negative.
  unfoldable pub latency_at : ℤ → ℤ
  latency_at jitter =
      let latency = to_int64 (m.cfg.base_latency +ℤ to_int64 (jitter *ℤ millisecond)) in
      if ltb_int latency (pos 0) then pos 0 else latency

  -- Whether a failure is injected; a number is drawn only where the rate is positive.
  unfoldable pub inject : W → W × Bool
  inject w =
      if o.lt (o.ratio 0 1) m.cfg.failure_rate
      then (let (w', x) = sim.float64 w in (w', o.lt x m.cfg.failure_rate))
      else (w, false)

  unfoldable pub respond : W → W × Result MockResponse
  respond w =
      let (w', n) = sim.intn (pos 50000) w in
      (
        w',
        ok (record {
          carrier_id = m.id;
          premium_cents = to_int64 (to_int64 (pos (length m.id) *ℤ pos 10000) +ℤ n);
          expires_in_seconds = pos 300;
        }),
      )

  abbrev pub unless_injected : W × Bool → W × Result MockResponse
  unless_injected (w, true) = (w, err (sentinel carrier_unavailable))
  unless_injected (w, false) = respond w

  abbrev pub after_sleep : W × Option Sentinel → W × Result MockResponse
  after_sleep (w, some s) = (w, err (sentinel s))
  after_sleep (w, none) = unless_injected (inject w)

  abbrev pub sleep_for : Context W → W × ℤ → W × Option Sentinel
  sleep_for ctx (w, jitter) = sim.sleep ctx (latency_at jitter) w

  -- `Call`
  unfoldable pub call : Context W → MockRequest → W → W × Result MockResponse
  unfolding draw_jitter latency_at inject respond
  call ctx req w = after_sleep (sleep_for ctx (draw_jitter w))

unfoldable pub mock_adapter : {W : Type 0} → (W → ℤ) → Adapter MockRequest MockResponse W
mock_adapter now = record {
  to_carrier_request =
      λ ctx q w. (w, ok (record { request_id = q.request_id; coverage_lines = q.coverage_lines }));
  from_carrier_response = λ ctx r id w. (
    w,
    ok (record {
      request_id = [];
      carrier_id = id;
      premium = record { amount = r.premium_cents; currency = bytes "USD" };
      expires_at = now w +ℤ to_int64 (r.expires_in_seconds *ℤ pos 1000000000);
      carrier_ref = [];
      latency = pos 0;
      is_hedged = false;
    }),
  );
}

-- `RegisterMockCarrier`
unfoldable pub register_mock_carrier :
    {F W : Type 0} → FloatOps F → Simulation F W → MockCarrier F → AdapterFunc W
unfolding mock_adapter
register_mock_carrier o sim m = register (mock_adapter sim.now) (call o sim m) m.id
