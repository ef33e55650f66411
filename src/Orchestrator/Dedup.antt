-- ===== src/Orchestrator/Dedup.antt =====
-- orchestrator.go, the end of fanOut: what is collected from the results channel.
use carrier_gateway.Prelude.{
  ◌≡◌, ◌≢◌, refl, sym, ◌∙◌, ap, Text, text_eq, text_eq_iff, true, false, Option, none, some, List,
  [], ◌∷◌, arith, All, Bool-cases, inl, inr, if◌then◌else◌,
}
use carrier_gateway.Prelude.Maps.{member}
use carrier_gateway.Domain.{QuoteResult}
use carrier_gateway.Orchestrator.Collect.{collect, sorted_insert, sort_quotes}
use carrier_gateway.Orchestrator.Order.{Ascending, after, sort-Ascending}

-- The first result of a carrier.
abbrev pub first_of : Text → List QuoteResult → Option QuoteResult
first_of k [] = none
first_of k (r ∷ rs) = if text_eq r.carrier_id k then some r else first_of k rs

-- No two results are of one carrier.
abbrev pub OneEach : List QuoteResult → Type 0
OneEach [] = Unit
OneEach (r ∷ rs) = All (λ s. r.carrier_id ≢ s.carrier_id) rs × OneEach rs

abbrev pub Unseen : List Text → List QuoteResult → Type 0
Unseen seen = All (λ s. member s.carrier_id seen ≡ false)

member_cons :
    (k j : Text) (seen : List Text)
    → member k (j ∷ seen) ≡ false
    → (j ≢ k) × (member k seen ≡ false)
unfolding member
member_cons k j seen h = ground (arith, text_eq_iff j k)

Unseen-cons :
    (j : Text) (seen : List Text) (rs : List QuoteResult)
    → Unseen (j ∷ seen) rs
    → All (λ s. j ≢ s.carrier_id) rs × Unseen seen rs
Unseen-cons j seen [] h = (tt, tt)
Unseen-cons j seen (r ∷ rs) h =
    let (d, u) = member_cons r.carrier_id j seen h.0 in
    let (ds, us) = Unseen-cons j seen rs h.1 in ((d, ds), (u, us))

collect-OneEach :
    (seen : List Text) (rs : List QuoteResult)
    → OneEach (collect seen rs) × Unseen seen (collect seen rs)
unfolding collect
collect-OneEach seen [] = (tt, tt)
collect-OneEach seen (r ∷ rs) = elim (Bool-cases (member r.carrier_id seen)) [
  | inl e ↦ rw (e, collect) (collect-OneEach seen rs)
  | inr e ↦
      let (one, unseen) = collect-OneEach (r.carrier_id ∷ seen) rs in
      let (others, unseen') =
        Unseen-cons r.carrier_id seen (collect (r.carrier_id ∷ seen) rs) unseen in
      rw (e, collect) ((others, one), (e, unseen'))
]

pub member-self_or :
    (k j : Text) (seen : List Text)
    → member k (j ∷ seen) ≡ (if text_eq j k then true else member k seen)
unfolding member
member-self_or k j seen = ground arith

first_of-collect :
    (k : Text) (seen : List Text) (rs : List QuoteResult)
    → first_of k (collect seen rs) ≡ (if member k seen then none else first_of k rs)
unfolding collect
first_of-collect k seen [] = ground arith
first_of-collect k seen (r ∷ rs) = ground (
  arith,
  text_eq_iff r.carrier_id k,
  member-self_or k r.carrier_id seen,
  first_of-collect k seen rs,
  first_of-collect k (r.carrier_id ∷ seen) rs,
)

All-insert :
    (P : QuoteResult → Type 0) (a : QuoteResult) (rs : List QuoteResult)
    → P a
    → All P rs
    → All P (sorted_insert a rs)
unfolding sorted_insert
All-insert P a [] h k = (h, tt)
All-insert P a (b ∷ rs) h k = elim (Bool-cases (after a b)) [
  | inl e ↦ rw e (k.0, All-insert P a rs h k.1)
  | inr e ↦ rw e (h, k)
]

insert-OneEach :
    (a : QuoteResult) (rs : List QuoteResult) → OneEach (a ∷ rs) → OneEach (sorted_insert a rs)
unfolding sorted_insert
insert-OneEach a [] h = h
insert-OneEach a (b ∷ rs) h = elim (Bool-cases (after a b)) [
  | inl e ↦ rw e (
    All-insert (λ s. b.carrier_id ≢ s.carrier_id) a rs (λ p. h.0.0 (sym p)) h.1.0,
    insert-OneEach a rs (h.0.1, h.1.1),
  )
  | inr e ↦ rw e h
]

pub All-sort :
    (P : QuoteResult → Type 0) (rs : List QuoteResult) → All P rs → All P (sort_quotes rs)
unfolding sort_quotes
All-sort P [] h = tt
All-sort P (r ∷ rs) h = All-insert P r (sort_quotes rs) h.0 (All-sort P rs h.1)

sort-OneEach : (rs : List QuoteResult) → OneEach rs → OneEach (sort_quotes rs)
unfolding sort_quotes
sort-OneEach [] h = tt
sort-OneEach (r ∷ rs) h = insert-OneEach r (sort_quotes rs) (All-sort _ rs h.0, sort-OneEach rs h.1)

first_of-insert :
    (k : Text) (a : QuoteResult) (rs : List QuoteResult)
    → All (λ s. a.carrier_id ≢ s.carrier_id) rs
    → first_of k (sorted_insert a rs) ≡ first_of k (a ∷ rs)
unfolding sorted_insert
first_of-insert k a [] d = refl
first_of-insert k a (b ∷ rs) d = elim (Bool-cases (after a b)) [
  | inl e ↦ rw e (
      ground
        (arith, first_of-insert k a rs d.1, text_eq_iff a.carrier_id k, text_eq_iff b.carrier_id k))
  | inr e ↦ rw e
]

first_of-sort :
    (k : Text) (rs : List QuoteResult) → OneEach rs → first_of k (sort_quotes rs) ≡ first_of k rs
unfolding sort_quotes
first_of-sort k [] h = refl
first_of-sort k (r ∷ rs) h =
    first_of-insert k r (sort_quotes rs) (All-sort _ rs h.0)
    ∙ ap (λ (x : Option QuoteResult). if text_eq r.carrier_id k then some r else x)
        (first_of-sort k rs h.1)

-- Whatever was sent on the results channel, the answer of the fan-out is in ascending order of
-- premium and carrier, has at most one quote of each carrier, and has for each carrier the first
-- quote that arrived from it, if any arrived.
pub answer_lem :
    (rs : List QuoteResult) (k : Text)
    → let answer = sort_quotes (collect [] rs) in
      Ascending answer × OneEach answer × (first_of k answer ≡ first_of k rs)
answer_lem rs k =
    let (one, _) = collect-OneEach [] rs in
    (
      sort-Ascending (collect [] rs),
      sort-OneEach (collect [] rs) one,
      first_of-sort k (collect [] rs) one ∙ first_of-collect k [] rs ∙ nothing_seen,
    )
  where
    nothing_seen : (if member k [] then none else first_of k rs) ≡ first_of k rs
    nothing_seen = unfold member in refl
