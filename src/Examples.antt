-- ===== src/Examples.antt =====
-- Concrete inputs: fixed-point numbers in place of float64, and a world that is its clock.
pub mod Breakers
pub mod Trackers
pub mod Hedges
pub mod Gateways
pub mod Requests
pub mod Clients
pub mod Tables
pub mod Stores
pub mod Caches
pub mod Programs
pub mod Guards
pub mod Servers
pub mod Fanouts
use Prim.Native.Nat.{◌/◌}
use carrier_gateway.Prelude.{
  ℕ, ◌+◌, ◌-◌, ◌*◌, ℤ, pos, negsuc, pos_part, ltb, ◌==◌, false, arith, Option, none, some,
}
use carrier_gateway.Domain.{Error, sentinel, carrier_unavailable}
use carrier_gateway.Float.{FloatOps, FloatLaws}
use carrier_gateway.Ports.{Env}

-- Numbers in thousandths.
abbrev pub fixed_point : FloatOps ℕ
fixed_point = record {
  lt = λ a b. ltb a b;
  eq = λ a b. a == b;
  add = λ a b. a + b;
  sub = λ a b. a - b;
  mul = λ a b. a * b / 1000;
  div = λ a b. a * 1000 / b;
  of_int = λ n. pos_part n * 1000;
  ratio = λ p q. p * 1000 / q;
  max_float = 1000000000000;
  is_nan = λ a. false;
}

pub fixed_point_laws : FloatLaws ℕ fixed_point
fixed_point_laws = record {
  lt_irrefl = λ a. ground arith;
  lt_trans = λ a b c h k. ground arith;
  eq_sym = λ a b h. ground arith;
  eq_trans = λ a b c h k. ground arith;
  eq-lt = λ a b c h k. ground arith;
  lt-eq = λ a b c h k. ground arith;
  lt-eq_false = λ a b h. ground arith;
  total = λ a b h k. ground arith;
}

-- The world is the clock; metrics leave no trace.
abbrev pub clock_env : Env ℕ ℤ
clock_env = record { now = λ w. w; record_metric = λ m w. w }

abbrev pub failure : Error
failure = sentinel carrier_unavailable

-- Calls that take no time.
abbrev pub fail : ℤ → ℤ × Option Error
fail w = (w, some failure)

abbrev pub succeed : ℤ → ℤ × Option Error
succeed w = (w, none)
