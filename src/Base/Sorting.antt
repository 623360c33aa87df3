-- ===== src/Base/Sorting.antt =====
-- `sorted(xs, key=...)` of values by a text.
use query_boy.Base.{
  String, true, false, List, [], ◌∷◌, map, All, eq_iff, ◌≡◌, refl, ◌∙◌, ap, arith, Bool-cases, inl,
  inr, if◌then◌else◌,
}
use query_boy.Base.Sets.{
  contains, all_different, sorted, text_leb, place, contains-place, contains-sorted,
}

module _ {ℓ} {A : Type ℓ} where
  abbrev pub place_by : (A → String) → A → List A → List A
  place_by key x [] = x ∷ []
  place_by key x (y ∷ ys) = if text_leb (key x) (key y) then x ∷ y ∷ ys else y ∷ place_by key x ys

  unfoldable pub sort_by : (A → String) → List A → List A
  sort_by key [] = []
  sort_by key (x ∷ xs) = place_by key x (sort_by key xs)

  map-place_by :
      (key : A → String) (x : A) (ys : List A)
      → map key (place_by key x ys) ≡ place (key x) (map key ys)
  unfolding place
  map-place_by key x [] = refl
  map-place_by key x (y ∷ ys) = elim (Bool-cases (text_leb (key x) (key y))) [
    | inl e ↦ rw e refl
    | inr e ↦ rw e (ap (◌∷◌ (key y)) (map-place_by key x ys))
  ]

  -- The keys of the sorted list are the sorted keys.
  pub map-sort_by :
      (key : A → String) (xs : List A) → map key (sort_by key xs) ≡ sorted (map key xs)
  unfolding sort_by sorted
  map-sort_by key [] = refl
  map-sort_by key (x ∷ xs) =
      map-place_by key x (sort_by key xs) ∙ ap (place (key x)) (map-sort_by key xs)

  place_by-All {κ} :
      (P : A → Type κ) (key : A → String) (x : A) (ys : List A)
      → P x
      → All P ys
      → All P (place_by key x ys)
  place_by-All P key x [] p h = (p, tt)
  place_by-All P key x (y ∷ ys) p (q, h) = elim (Bool-cases (text_leb (key x) (key y))) [
    | inl e ↦ rw e (p, (q, h))
    | inr e ↦ rw e (q, place_by-All P key x ys p h)
  ]

  -- Sorting keeps what holds of every value.
  pub sort_by-All {κ} :
      (P : A → Type κ) (key : A → String) (xs : List A) → All P xs → All P (sort_by key xs)
  unfolding sort_by
  sort_by-All P key [] h = tt
  sort_by-All P key (x ∷ xs) (p, h) =
      place_by-All P key x (sort_by key xs) p (sort_by-All P key xs h)

all_different-place :
    (x : String) (ys : List String)
    → contains ys x ≡ false
    → all_different ys ≡ true
    → all_different (place x ys) ≡ true
unfolding place all_different contains
all_different-place x [] n d = refl
all_different-place x (y ∷ ys) n d =
    ground (arith, contains-place x y ys, all_different-place x ys, eq_iff x y, eq_iff y x)

-- Sorting keeps texts different.
pub all_different-sorted :
    (xs : List String) → all_different xs ≡ true → all_different (sorted xs) ≡ true
unfolding sorted all_different
all_different-sorted [] d = refl
all_different-sorted (x ∷ xs) d =
    all_different-place x (sorted xs) (contains-sorted x xs ∙ ground arith)
      (all_different-sorted xs (ground arith))
