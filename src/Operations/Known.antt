-- ===== src/Operations/Known.antt =====
-- The sources that have a health (runtime/operations.py), and tests of all of them.
use query_boy.Base.{
  String, Bool, true, false, ◌||◌, List, [], ◌∷◌, ◌++◌, ◌≡◌, ◌≢◌, ◌↔◌, ◌⊎◌, inl, inr, refl, sym,
  ◌∙◌, none, arith, any, map, Bool-cases, eq_iff, eq_refl, ◌==◌,
}
use mathlib.Core.Path.{subst}
use query_boy.Base.Dict.{Dict, lookup, keys}
use query_boy.Base.Sets.{contains}
use query_boy.Operations.Sources.{contains-to_set}
use query_boy.Operations.{Health, OperationalState, known_sources}
use query_boy.Operations.Usable.{IsUsable, IsHealthy}

module _ (s : OperationalState) where
  -- The source has a metadata or a query health.
  abbrev pub IsKnown : String → Type 0
  IsKnown x = (lookup x s.source_metadata_health ≢ none) ⊎ (lookup x s.source_query_health ≢ none)

  abbrev pub UsableSource : String → Type 0
  UsableSource x = IsUsable (lookup x s.source_metadata_health) (lookup x s.source_query_health)

  abbrev pub HealthySource : String → Type 0
  HealthySource x = IsHealthy (lookup x s.source_metadata_health) (lookup x s.source_query_health)

contains-append :
    (xs ys : List String) (x : String) → contains (xs ++ ys) x ≡ (contains xs x || contains ys x)
unfolding contains
contains-append [] ys x = refl
contains-append (y ∷ xs) ys x = ground (arith, contains-append xs ys x)

contains-keys_iff :
    (d : Dict Health) (x : String) → (contains (keys d) x ≡ true) ↔ (lookup x d ≢ none)
unfolding contains keys lookup
contains-keys_iff [] x = (λ h. absurd (cc h), λ n. absurd (n refl))
contains-keys_iff ((y, h) ∷ d) x = elim (Bool-cases (y == x)) [
  | inl e ↦ rw e (λ t n. cc, λ n. refl)
  | inr e ↦ rw e (contains-keys_iff d x)
]

pub IsKnown-iff :
    (s : OperationalState) (x : String) → (contains (known_sources s) x ≡ true) ↔ IsKnown s x
unfolding known_sources
IsKnown-iff s x =
    let split =
      contains-to_set (keys s.source_metadata_health ++ keys s.source_query_health) x
      ∙ contains-append (keys s.source_metadata_health) (keys s.source_query_health) x in
    let (metadata, metadata') = contains-keys_iff s.source_metadata_health x in
    let (query, query') = contains-keys_iff s.source_query_health x in
    (
      λ h. elim (Bool-cases (contains (keys s.source_metadata_health) x)) [
        | inl e ↦ inl (metadata e)
        | inr e ↦ inr (query (ground (arith, e, h, split)))
      ],
      λ k. elim k [
        | inl m ↦ ground (arith, metadata' m, split)
        | inr q ↦ ground (arith, query' q, split)
      ],
    )

module _ (p : Health → Bool) (f : String → Health) where
  pub any_of :
      (xs : List String)
      → any p (map f xs) ≡ true
      → (x : String) × (contains xs x ≡ true) × (p (f x) ≡ true)
  unfolding contains
  any_of [] h = absurd (cc h)
  any_of (y ∷ ys) h = elim (Bool-cases (p (f y))) [
    | inl e ↦ (y, ground (arith, eq_refl y), e)
    | inr e ↦ let (x, here, t) = any_of ys (ground (arith, e, h)) in (x, ground (arith, here), t)
  ]

  pub of_any :
      (xs : List String) (x : String)
      → contains xs x ≡ true
      → p (f x) ≡ true
      → any p (map f xs) ≡ true
  unfolding contains
  of_any [] x h t = absurd (cc h)
  of_any (y ∷ ys) x h t = elim (Bool-cases (y == x)) [
    | inl e ↦ ground (arith, subst (λ z. p (f z) ≡ true) (sym ((eq_iff y x).0 e)) t)
    | inr e ↦ ground (arith, of_any ys x (ground (arith, e, h)) t)
  ]

  pub none_of :
      (xs : List String) (x : String)
      → any p (map f xs) ≡ false
      → contains xs x ≡ true
      → p (f x) ≡ false
  none_of xs x h here = elim (Bool-cases (p (f x))) [
    | inl e ↦ absurd (cc (h, of_any xs x here e))
    | inr e ↦ e
  ]

  pub of_none :
      (xs : List String)
      → ((x : String) → contains xs x ≡ true → p (f x) ≡ false)
      → any p (map f xs) ≡ false
  of_none xs h = elim (Bool-cases (any p (map f xs))) [
    | inl e ↦ let (x, here, t) = any_of xs e in absurd (cc (h x here, t))
    | inr e ↦ e
  ]

pub map-ne_nil :
    (f : String → Health) (xs : List String)
    → (map f xs ≢ []) ↔ ((x : String) × (contains xs x ≡ true))
unfolding contains
map-ne_nil f [] = (λ n. absurd (n refl), λ (x, h). absurd (cc h))
map-ne_nil f (y ∷ ys) = (λ n. (y, ground (arith, eq_refl y)), λ t e. cc)
