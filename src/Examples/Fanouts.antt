-- ===== src/Examples/Fanouts.antt =====
-- What a fan-out sends and answers, at concrete inputs.
use mathlib.Core.List.Permᴰ
use mathlib.Core.Path.{subst}
use carrier_gateway.Prelude.{some_inj, ℕ, ◌*◌, ◌≤◌, ◌≡◌, refl, bytes, none, [], length, arith}
use carrier_gateway.Orchestrator.State.{Gateway, AdapterFunc}
use carrier_gateway.Orchestrator.Equipped.{Returns}
use carrier_gateway.Orchestrator.Launch.{run_calls}
use carrier_gateway.Orchestrator.Quotes.{fan_out}
use carrier_gateway.Orchestrator.Vouched.{Quiet}
use carrier_gateway.Orchestrator.Origin.{asked, IsOwn, results_fit, fan_out-IsOwn}
use carrier_gateway.Examples.{fixed_point}
use carrier_gateway.Examples.Gateways.{
  bucket, orch, gateway, schedule, answer, request, only_entry, schedule-Tame, gateway-IsPopulated,
}

schedule-Quiet : Quiet bucket orch schedule
schedule-Quiet = record {
  adapters = λ k exec h ctx req g.
      subst (λ (f : AdapterFunc (Gateway ℕ ℕ)). (f ctx req g).0.channel ≡ g.channel)
        (only_entry k (bytes "beta") answer exec h) refl;
  waits = λ ctx l g. refl;
  wakings = (
    (λ f e g.
        subst (λ (h : Gateway ℕ ℕ → Gateway ℕ ℕ). (h g).channel ≡ g.channel) (some_inj e) refl),
    ((λ f e. absurd (ground arith)), tt),
  );
  order = λ cs. Permᴰ.refl cs;
}

results_fit_example :
    Returns
      (λ g. length g.channel ≤ length (asked orch request gateway) * 2)
      (run_calls fixed_point bucket orch schedule
        (λ g. none)
        request
        (asked orch request gateway)
        (record gateway { channel = [] }))
results_fit_example =
    results_fit fixed_point bucket orch schedule schedule-Tame schedule-Quiet (λ g. none) request
      gateway gateway-IsPopulated

fan_out-IsOwn_example :
    Returns
      (IsOwn orch request (asked orch request gateway))
      (fan_out fixed_point bucket orch schedule (λ g. none) request gateway)
fan_out-IsOwn_example =
    fan_out-IsOwn fixed_point bucket orch schedule schedule-Tame schedule-Quiet (λ g. none) request
      gateway gateway-IsPopulated
