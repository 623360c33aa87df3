-- ===== src/Operations/Usable.antt =====
-- When a source is healthy, and when it can be queried (`_aggregate_source_status`, runtime/operations.py).
use query_boy.Base.{
  Bool, true, false, ◌||◌, ◌≡◌, ◌≢◌, ◌↔◌, ◌⊎◌, inl, inr, refl, Option, none, some, if◌then◌else◌,
}
use query_boy.Operations.{
  Health, healthy, stale, initializing, unavailable, is_unavailable, is_stale, is_initializing,
  aggregate_status, is_usable, is_unhealthy,
}

-- A source can be queried: nothing of it is unavailable, and its metadata is stale or both have started.
abbrev pub IsUsable : Option Health → Option Health → Type 0
IsUsable metadata query =
    (metadata ≢ some unavailable)
    × (query ≢ some unavailable)
    × ((metadata ≡ some stale) ⊎ ((metadata ≢ some initializing) × (query ≢ some initializing)))

-- Nothing is wrong with a source, and both have started.
abbrev pub IsHealthy : Option Health → Option Health → Type 0
IsHealthy metadata query =
    (metadata ≢ some unavailable)
    × (query ≢ some unavailable)
    × (metadata ≢ some stale)
    × (metadata ≢ some initializing)
    × (query ≢ some initializing)

is_unavailable_iff : (o : Option Health) → (is_unavailable o ≡ false) ↔ (o ≢ some unavailable)
is_unavailable_iff none = (λ h e. cc, λ n. refl)
is_unavailable_iff (some healthy) = (λ h e. cc, λ n. refl)
is_unavailable_iff (some stale) = (λ h e. cc, λ n. refl)
is_unavailable_iff (some initializing) = (λ h e. cc, λ n. refl)
is_unavailable_iff (some unavailable) = (λ h e. cc, λ n. absurd (n refl))

is_initializing_iff : (o : Option Health) → (is_initializing o ≡ false) ↔ (o ≢ some initializing)
is_initializing_iff none = (λ h e. cc, λ n. refl)
is_initializing_iff (some healthy) = (λ h e. cc, λ n. refl)
is_initializing_iff (some stale) = (λ h e. cc, λ n. refl)
is_initializing_iff (some initializing) = (λ h e. cc, λ n. absurd (n refl))
is_initializing_iff (some unavailable) = (λ h e. cc, λ n. refl)

is_stale_iff : (o : Option Health) → (is_stale o ≡ false) ↔ (o ≢ some stale)
is_stale_iff none = (λ h e. cc, λ n. refl)
is_stale_iff (some healthy) = (λ h e. cc, λ n. refl)
is_stale_iff (some stale) = (λ h e. cc, λ n. absurd (n refl))
is_stale_iff (some initializing) = (λ h e. cc, λ n. refl)
is_stale_iff (some unavailable) = (λ h e. cc, λ n. refl)

is_stale-eq : (o : Option Health) → is_stale o ≡ true → o ≡ some stale
is_stale-eq none h = absurd (cc h)
is_stale-eq (some healthy) h = absurd (cc h)
is_stale-eq (some stale) h = refl
is_stale-eq (some initializing) h = absurd (cc h)
is_stale-eq (some unavailable) h = absurd (cc h)

usable_tests :
    (a b c d e : Bool)
    → (is_usable (
          if a || b
          then unavailable
          else if c
          then stale
          else if d || e
          then initializing
          else healthy)
        ≡ true)
      ↔ ((a ≡ false) × (b ≡ false) × ((c ≡ true) ⊎ ((d ≡ false) × (e ≡ false))))
usable_tests true b c d e = (λ h. absurd (cc h), λ t. absurd (cc (t.0)))
usable_tests false true c d e = (λ h. absurd (cc h), λ t. absurd (cc (t.1)))
usable_tests false false true d e = (λ h. (refl, refl, inl refl), λ t. refl)
usable_tests false false false true e =
    (λ h. absurd (cc h), λ (p, q, t). elim t [ inl r ↦ absurd (cc r) | inr r ↦ absurd (cc (r.0)) ])
usable_tests false false false false true =
    (λ h. absurd (cc h), λ (p, q, t). elim t [ inl r ↦ absurd (cc r) | inr r ↦ absurd (cc (r.1)) ])
usable_tests false false false false false = (λ h. (refl, refl, inr (refl, refl)), λ t. refl)

healthy_tests :
    (a b c d e : Bool)
    → (is_unhealthy (
          if a || b
          then unavailable
          else if c
          then stale
          else if d || e
          then initializing
          else healthy)
        ≡ false)
      ↔ ((a ≡ false) × (b ≡ false) × (c ≡ false) × (d ≡ false) × (e ≡ false))
healthy_tests true b c d e = (λ h. absurd (cc h), λ t. absurd (cc (t.0)))
healthy_tests false true c d e = (λ h. absurd (cc h), λ t. absurd (cc (t.1)))
healthy_tests false false true d e = (λ h. absurd (cc h), λ t. absurd (cc (t.2)))
healthy_tests false false false true e = (λ h. absurd (cc h), λ t. absurd (cc (t.3)))
healthy_tests false false false false true = (λ h. absurd (cc h), λ t. absurd (cc (t.4)))
healthy_tests false false false false false = (λ h. (refl, refl, refl, refl, refl), λ t. refl)

pub IsUsable-iff : (m q : Option Health) → (is_usable (aggregate_status m q) ≡ true) ↔ IsUsable m q
unfolding aggregate_status
IsUsable-iff m q =
    let (forth, back) =
      usable_tests (is_unavailable m) (is_unavailable q) (is_stale m) (is_initializing m)
        (is_initializing q) in
    (
      λ h.
          let (a, b, t) = forth h in
          (
            (is_unavailable_iff m).0 a,
            (is_unavailable_iff q).0 b,
            (elim t [
              | inl r ↦ inl (is_stale-eq m r)
              | inr (d, e) ↦ inr ((is_initializing_iff m).0 d, (is_initializing_iff q).0 e)
            ]),
          ),
      λ (a, b, t). back (
        (is_unavailable_iff m).1 a,
        (is_unavailable_iff q).1 b,
        (elim t [
          | inl r ↦ inl (rw r)
          | inr (d, e) ↦ inr ((is_initializing_iff m).1 d, (is_initializing_iff q).1 e)
        ]),
      ),
    )

pub IsHealthy-iff :
    (m q : Option Health) → (is_unhealthy (aggregate_status m q) ≡ false) ↔ IsHealthy m q
unfolding aggregate_status
IsHealthy-iff m q =
    let (forth, back) =
      healthy_tests (is_unavailable m) (is_unavailable q) (is_stale m) (is_initializing m)
        (is_initializing q) in
    (
      λ h.
          let (a, b, c, d, e) = forth h in
          (
            (is_unavailable_iff m).0 a,
            (is_unavailable_iff q).0 b,
            (is_stale_iff m).0 c,
            (is_initializing_iff m).0 d,
            (is_initializing_iff q).0 e,
          ),
      λ (a, b, c, d, e). back (
        (is_unavailable_iff m).1 a,
        (is_unavailable_iff q).1 b,
        (is_stale_iff m).1 c,
        (is_initializing_iff m).1 d,
        (is_initializing_iff q).1 e,
      ),
    )
