-- ===== src/Base/Keys.antt =====
-- The keys of a dictionary, and its values under `sorted`.
use mathlib.Core.Path.{subst}
use mathlib.Core.Option.{some-injective}
use query_boy.Base.{
  and-eq-true, sym, ◌⊎◌, all, if-false, if-true, Bool, String, true, false, ◌||◌, List, [], ◌∷◌,
  ◌++◌, map, some, All, ◌==◌, eq_iff, eq_refl, ◌≡◌, refl, ◌∙◌, ap, arith, Bool-cases, inl, inr,
  if◌then◌else◌,
}
use query_boy.Base.Dict.{Dict, lookup, insert, keys, values, lookup-insert}
use query_boy.Base.Sets.{contains, all_different}

-- The texts in the order of their first occurrence, behind those that were seen.
unfoldable pub distinct : List String → List String → List String
unfolding contains
distinct seen [] = seen
distinct seen (x ∷ xs) = distinct (if contains seen x then seen else seen ++ (x ∷ [])) xs

contains-append :
    (xs : List String) (x z : String) → contains (xs ++ (x ∷ [])) z ≡ (contains xs z || x == z)
unfolding contains
contains-append [] x z = ground arith
contains-append (y ∷ ys) x z = ground (arith, contains-append ys x z)

all_different-append :
    (xs : List String) (x : String)
    → all_different xs ≡ true
    → contains xs x ≡ false
    → all_different (xs ++ (x ∷ [])) ≡ true
unfolding all_different contains
all_different-append [] x d n = refl
all_different-append (y ∷ ys) x d n =
    ground (arith, contains-append ys x y, all_different-append ys x, eq_iff y x, eq_iff x y)

pub all_different-distinct :
    (seen xs : List String) → all_different seen ≡ true → all_different (distinct seen xs) ≡ true
unfolding distinct
all_different-distinct seen [] d = d
all_different-distinct seen (x ∷ xs) d = elim (Bool-cases (contains seen x)) [
  | inl e ↦ rw e (all_different-distinct seen xs d)
  | inr e ↦ rw e (all_different-distinct (seen ++ (x ∷ [])) xs (all_different-append seen x d e))
]

module _ {ℓ} {V : Type ℓ} where
  pub keys-insert :
      (k : String) (v : V) (d : Dict V)
      → keys (insert k v d) ≡ (if contains (keys d) k then keys d else keys d ++ (k ∷ []))
  unfolding keys insert contains
  keys-insert k v [] = refl
  keys-insert k v ((j, w) ∷ d) = elim (Bool-cases (j == k)) [
    | inl e ↦ rw e (ground (arith, eq_iff j k))
    | inr e ↦ rw e (elim (Bool-cases (contains (keys d) k)) [
      | inl c ↦ rw c (ap (◌∷◌ j) (keys-insert k v d ∙ rw c refl))
      | inr c ↦ rw c (ap (◌∷◌ j) (keys-insert k v d ∙ rw c refl))
    ])
  ]

  contains-lookup :
      (k : String) (v : V) (d : Dict V) → lookup k d ≡ some v → contains (keys d) k ≡ true
  unfolding lookup keys contains
  contains-lookup k v [] h = cc
  contains-lookup k v ((j, w) ∷ d) h = ground (arith, contains-lookup k v d)

  -- An entry behind another is found, since their keys are different.
  lookup-later :
      (k : String) (v : V) (d : Dict V) (j : String) (w : V)
      → all_different (keys ((k, v) ∷ d)) ≡ true
      → lookup j d ≡ some w
      → lookup j ((k, v) ∷ d) ≡ some w
  unfolding lookup keys all_different
  lookup-later k v d j w different e = ground (arith, contains-lookup j w d e, eq_iff k j)

  later-AllDifferent :
      (k : String) (v : V) (d : Dict V)
      → all_different (keys ((k, v) ∷ d)) ≡ true
      → all_different (keys d) ≡ true
  unfolding keys all_different
  later-AllDifferent k v d different = ground arith

  -- What holds of the value of every key holds of all values.
  pub values-All {κ} :
      (P : V → Type κ) (d : Dict V)
      → all_different (keys d) ≡ true
      → ((k : String) (v : V) → lookup k d ≡ some v → P v)
      → All P (values d)
  unfolding lookup values
  values-All P [] different h = tt
  values-All P ((k, v) ∷ d) different h = (
    h k v (rw (eq_refl k) refl),
    values-All P d (later-AllDifferent k v d different)
        (λ j w e. h j w (lookup-later k v d j w different e)),
  )

  -- Values that know their key.
  pub map-values :
      (f : V → String) (d : Dict V)
      → all_different (keys d) ≡ true
      → ((k : String) (v : V) → lookup k d ≡ some v → f v ≡ k)
      → map f (values d) ≡ keys d
  unfolding lookup values keys
  map-values f [] different h = refl
  map-values f ((k, v) ∷ d) different h =
      ap (λ n. n ∷ map f (values d)) (h k v (rw (eq_refl k) refl))
      ∙ ap (◌∷◌ k) (
          map-values f d (later-AllDifferent k v d different)
            (λ j w e. h j w (lookup-later k v d j w different e)))

  -- What is found after an entry is set is the entry, or was found before.
  pub lookup-insert-cases :
      (k j : String) (v w : V) (d : Dict V)
      → lookup j (insert k v d) ≡ some w
      → ((k ≡ j) × (v ≡ w)) ⊎ (lookup j d ≡ some w)
  lookup-insert-cases k j v w d h = elim (Bool-cases (k == j)) [
    | inl same ↦ inl (
      (eq_iff k j).0 same,
      some-injective v w (sym (lookup-insert k j v d ∙ if-true _ _ _ same) ∙ h),
    )
    | inr other ↦ inr (sym (lookup-insert k j v d ∙ if-false _ _ _ other) ∙ h)
  ]

  -- An entry that is found passes what all entries pass.
  pub all-lookup :
      (p : String × V → Bool) (k : String) (v : V) (d : Dict V)
      → all p d ≡ true
      → lookup k d ≡ some v
      → p (k, v) ≡ true
  unfolding lookup
  all-lookup p k v [] h found = absurd (cc found)
  all-lookup p k v ((j, w) ∷ d) h found = elim (Bool-cases (j == k)) [
    | inl same ↦
        let here = sym (if-true _ (some w) (lookup k d) same) ∙ found in
        subst (λ (e : String × V). p e ≡ true)
          (ap (λ (i : String). (i, w)) ((eq_iff j k).0 same)
            ∙ ap (λ (x : V). (k, x)) (some-injective w v here))
          (and-eq-true _ _ h).0
    | inr other ↦
        all-lookup p k v d (and-eq-true _ _ h).1
          (sym (if-false _ (some w) (lookup k d) other) ∙ found)
  ]

-- What is found among mapped entries is the image of what is found among the entries.
pub lookup-map {ℓ κ} :
    {V : Type ℓ} {W : Type κ} (f : String → V → W) (k : String) (w : W) (d : Dict V)
    → lookup k (map (λ (e : String × V). (e.0, f e.0 e.1)) d) ≡ some w
    → (v : V) × (lookup k d ≡ some v) × (w ≡ f k v)
unfolding lookup
lookup-map f k w [] h = absurd (cc h)
lookup-map f k w ((j, v) ∷ d) h = elim (Bool-cases (j == k)) [
  | inl e ↦ (
    v,
    if-true _ (some v) (lookup k d) e,
    sym (some-injective (f j v) w (sym (if-true _ _ _ e) ∙ h)) ∙ ap (λ i. f i v) ((eq_iff j k).0 e),
  )
  | inr e ↦
      let (u, found, same) = lookup-map f k w d (sym (if-false _ _ _ e) ∙ h) in
      (u, if-false _ (some v) (lookup k d) e ∙ found, same)
]
