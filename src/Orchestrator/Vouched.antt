-- ===== src/Orchestrator/Vouched.antt =====
-- orchestrator.go: how many results a fan-out sends, and whose they are.
use mathlib.Core.List.{Permᴰ}
use carrier_gateway.Prelude.{
  ℕ, suc, ◌+◌, ◌≤◌, ◌≡◌, refl, ap, Text, true, false, Bool, Option, none, some, List, [], ◌∷◌, ◌++◌,
  All, length, Option-cases, inl, inr, arith,
}
use carrier_gateway.Prelude.Maps.{lookup, member}
use carrier_gateway.Domain.{Carrier, Context, QuoteRequest, QuoteResult, Result, ok, err}
use carrier_gateway.Float.{FloatOps}
use carrier_gateway.Limiter.{TokenBucket}
use carrier_gateway.Hedging.{Fired, deliver_hedge}
use carrier_gateway.Hedging.Keeps.{IfSome}
use carrier_gateway.Orchestrator.State.{Gateway, AdapterFunc, Orchestrator}
use carrier_gateway.Orchestrator.Call.{call_carrier}
use carrier_gateway.Orchestrator.Channel.{
  Holds, Holds-same, Holds-append, Supplies, call_carrier-Holds,
}
use carrier_gateway.Orchestrator.Launch.{Schedule, call_all, deliver_all}

-- The code that the orchestrator calls does not write to the results channel, and the schedule runs
-- each eligible carrier's call once.
pub record Quiet {F B : Type 0} (tb : TokenBucket F B (Gateway F B)) (orch : Orchestrator F B)
    (sched : Schedule F B) : Type 0 where
  pub adapters :
      (k : Text) (exec : AdapterFunc (Gateway F B))
      → lookup k orch.registry ≡ some exec
      → (ctx : Context (Gateway F B)) (req : QuoteRequest) (g : Gateway F B)
      → (exec ctx req g).0.channel ≡ g.channel
  pub waits :
      (ctx : Context (Gateway F B)) (l : B) (g : Gateway F B)
      → (tb.wait ctx l g).1.channel ≡ g.channel
  pub wakings :
      All
        (λ w.
          (f : Gateway F B → Gateway F B)
          → w ≡ some f
          → (g : Gateway F B) → (f g).channel ≡ g.channel)
        sched.wakes
  pub order : (cs : List (Carrier F)) → Permᴰ cs (sched.early cs ++ sched.late cs)

-- What was sent is a result that the adapter of a carrier on the list returned for the request:
-- carrier, reference, premium and expiry are those.
pub record IsVouched {F B : Type 0} (orch : Orchestrator F B) (ks : List Text) (req : QuoteRequest)
    (q : QuoteResult) : Type 0 where
  pub carrier : Text
  pub exec : AdapterFunc (Gateway F B)
  pub ctx : Context (Gateway F B)
  pub before : Gateway F B
  pub result : QuoteResult
  pub listed : member carrier ks ≡ true
  pub registered : lookup carrier orch.registry ≡ some exec
  pub returned : (exec ctx req before).1 ≡ ok result
  pub same_carrier : q.carrier_id ≡ result.carrier_id
  pub same_ref : q.carrier_ref ≡ result.carrier_ref
  pub same_premium : q.premium ≡ result.premium
  pub same_expiry : q.expires_at ≡ result.expires_at

-- What a hedge goroutine sends is the result of the call, marked.
delivered :
    (sent : Bool) (r : Result QuoteResult) (q : QuoteResult)
    → deliver_hedge sent r ≡ some q
    → (x : QuoteResult) × ((r ≡ ok x) × (q ≡ record x { is_hedged = true }))
unfolding deliver_hedge
delivered true (ok x) q h = (x, (refl, (cc)))
delivered false (ok x) q h = absurd (ground arith)
delivered sent (err e) q h = absurd (ground arith)

pub IfSome-then :
    {A B : Type 0} (P : A → Type 0) (Q : B → Type 0) (r : Option A) (f : A → Option B)
    → IfSome P r
    → ((x : A) → P x → IfSome Q (f x))
    → IfSome Q (elim r as (λ _. Option B) [ none ↦ none | some x ↦ f x ])
IfSome-then P Q none f h k = tt
IfSome-then P Q (some x) f h k = k x h

module _ {F B : Type 0} (o : FloatOps F) (tb : TokenBucket F B (Gateway F B))
    (orch : Orchestrator F B) (sched : Schedule F B) (quiet : Quiet tb orch sched) (ks : List Text)
    (req : QuoteRequest) where
  abbrev pub Sent : ℕ → Gateway F B → Type 0
  Sent = Holds o tb (IsVouched orch ks req)

  -- A bound that is larger, also of a call that may not return.
  pub Sent-up : (n m : ℕ) (g : Gateway F B) → n ≤ m → Sent n g → Sent m g
  Sent-up n m g l h = (omega (arith, l, h.0), h.1)

  pub Sent-up? :
      (n m : ℕ) (r : Option (Gateway F B)) → n ≤ m → IfSome (Sent n) r → IfSome (Sent m) r
  Sent-up? n m none l h = tt
  Sent-up? n m (some g) l h = Sent-up n m g l h

  adapter-Supplies :
      (k : Text) (exec : AdapterFunc (Gateway F B)) (ctx : Context (Gateway F B))
      → member k ks ≡ true
      → lookup k orch.registry ≡ some exec
      → Supplies o tb (IsVouched orch ks req) exec ctx req
  adapter-Supplies k exec ctx listed known = record {
    quiet = quiet.adapters k exec known ctx req;
    good = λ g r e id latency. record {
      carrier = k;
      exec = exec;
      ctx = ctx;
      before = g;
      result = r;
      listed = listed;
      registered = known;
      returned = e;
      same_carrier = refl;
      same_ref = refl;
      same_premium = refl;
      same_expiry = refl;
    };
  }

  hedge-IsVouched :
      (f : Fired) (k : Text) (exec : AdapterFunc (Gateway F B)) (ctx : Context (Gateway F B))
      (g : Gateway F B) (q : QuoteResult)
      → member k ks ≡ true
      → lookup k orch.registry ≡ some exec
      → deliver_hedge (sched.sent f) (exec ctx req g).1 ≡ some q
      → IsVouched orch ks req q
  hedge-IsVouched f k exec ctx g q listed known sent =
      let (r, (returned, same)) = delivered (sched.sent f) (exec ctx req g).1 q sent in
      record {
        carrier = k;
        exec = exec;
        ctx = ctx;
        before = g;
        result = r;
        listed = listed;
        registered = known;
        returned = returned;
        same_carrier = ap (λ x. x.carrier_id) same;
        same_ref = ap (λ x. x.carrier_ref) same;
        same_premium = ap (λ x. x.premium) same;
        same_expiry = ap (λ x. x.expires_at) same;
      }

  pub call_all-Sent :
      (ctx : Context (Gateway F B)) (cs : List (Carrier F)) (n : ℕ) (g : Gateway F B)
      → All (λ c. member c.id ks ≡ true) cs
      → Sent n g
      → IfSome (Sent (length cs + n)) (call_all o tb orch sched.prefer ctx req cs g)
  unfolding call_all
  call_all-Sent ctx [] n g l h = Sent-up n (0 + n) g (omega arith) h
  call_all-Sent ctx (c ∷ cs) n g l h =
      IfSome-then (Sent (suc n)) (Sent (length (c ∷ cs) + n))
        (call_carrier o tb orch sched.prefer ctx req c g)
        (λ x. call_all o tb orch sched.prefer ctx req cs x)
        (call_carrier-Holds o tb (IsVouched orch ks req) orch sched.prefer ctx req c n g
          (λ exec e. adapter-Supplies c.id exec ctx l.0 e) (λ b. quiet.waits ctx b g) h)
        (λ g' h'.
          Sent-up? (length cs + suc n) (length (c ∷ cs) + n)
            (call_all o tb orch sched.prefer ctx req cs g') (omega arith)
            (call_all-Sent ctx cs (suc n) g' l.1 h'))

  pub deliver_all-Sent :
      (ctx : Context (Gateway F B)) (fs : List Fired) (n : ℕ) (g : Gateway F B)
      → All (λ f. member f.candidate ks ≡ true) fs
      → Sent n g
      → Sent (length fs + n) (deliver_all o tb orch sched.sent ctx req fs g)
  unfolding deliver_all
  deliver_all-Sent ctx [] n g l h = Sent-up n (0 + n) g (omega arith) h
  deliver_all-Sent ctx (f ∷ fs) n g l h = elim (Option-cases (lookup f.candidate orch.registry)) [
    | inl e ↦
        rw (e, deliver_all)
          (Sent-up (length fs + n) (length (f ∷ fs) + n)
            (deliver_all o tb orch sched.sent ctx req fs g) (omega arith)
            (deliver_all-Sent ctx fs n g l.1 h))
    | inr (exec, e) ↦
        let g1 = (exec ctx req g).0 in
        let h1 =
          Holds-same o tb (IsVouched orch ks req) n g g1
            (quiet.adapters f.candidate exec e ctx req g) h in
        elim (Option-cases (deliver_hedge (sched.sent f) (exec ctx req g).1)) [
          | inl none_sent ↦
              rw (e, deliver_all)
                (rw (none_sent, deliver_all)
                  (Sent-up (length fs + n) (length (f ∷ fs) + n)
                    (deliver_all o tb orch sched.sent ctx req fs g1) (omega arith)
                    (deliver_all-Sent ctx fs n g1 l.1 h1)))
          | inr (r, was_sent) ↦
              rw (e, deliver_all)
                (rw (was_sent, deliver_all)
                  (let g2 = record g1 { channel = g1.channel ++ r ∷ [] } in
                    let h2 =
                      Holds-append o tb (IsVouched orch ks req) n r g1
                        (hedge-IsVouched f f.candidate exec ctx g r l.0 e was_sent) h1 in
                    Sent-up (length fs + suc n) (length (f ∷ fs) + n)
                      (deliver_all o tb orch sched.sent ctx req fs g2) (omega arith)
                      (deliver_all-Sent ctx fs (suc n) g2 l.1 h2)))
        ]
  ]
