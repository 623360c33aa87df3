-- ===== src/Base/Sets.antt =====
-- Python's sets of texts, as lists with no text twice, and `sorted`.
use Prim.Native.String.{String, compare}
use Prim.Native.Nat.{Ordering}
use mathlib.Core.Path.{◌≡◌, refl}
use mathlib.Core.Bool.{Bool, true, false, ◌&&◌, ◌||◌}
use mathlib.Core.List.{List, [], ◌∷◌}
use native.Mathlib.Omega.{arith}
use text.Mathlib.Text.{◌==◌}
use text.Mathlib.TextEquality.{eq_iff}
use query_boy.Base.Tests.{if◌then◌else◌}

-- `x in xs`
unfoldable pub contains : List String → String → Bool
contains [] x = false
contains (y ∷ ys) x = y == x || contains ys x

-- `xs.add(x)`
unfoldable pub add : String → List String → List String
unfolding contains
add x xs = if contains xs x then xs else x ∷ xs

-- `xs <= ys` of sets
unfoldable pub is_subset : List String → List String → Bool
unfolding contains
is_subset [] ys = true
is_subset (x ∷ xs) ys = contains ys x && is_subset xs ys

-- `len(set(xs)) == len(xs)`: no text stands twice.
unfoldable pub all_different : List String → Bool
unfolding contains
all_different [] = true
all_different (x ∷ xs) = (if contains xs x then false else true) && all_different xs

-- The order of texts, by code points.
abbrev pub text_leb : String → String → Bool
text_leb s t = elim (compare s t) [ Ordering.gt ↦ false | _ ↦ true ]

unfoldable pub place : String → List String → List String
place x [] = x ∷ []
place x (y ∷ ys) = if text_leb x y then x ∷ y ∷ ys else y ∷ place x ys

-- `sorted(xs)`
unfoldable pub sorted : List String → List String
unfolding place
sorted [] = []
sorted (x ∷ xs) = place x (sorted xs)

pub contains-add :
    (x y : String) (xs : List String) → contains (add x xs) y ≡ (x == y || contains xs y)
unfolding add
contains-add x y xs = ground (arith, eq_iff x y)

pub contains-place :
    (x z : String) (ys : List String) → contains (place x ys) z ≡ (x == z || contains ys z)
unfolding contains place
contains-place x z [] = refl
contains-place x z (y ∷ ys) = ground (arith, contains-place x z ys)

-- Sorting keeps the members.
pub contains-sorted : (z : String) (xs : List String) → contains (sorted xs) z ≡ contains xs z
unfolding contains sorted
contains-sorted z [] = refl
contains-sorted z (x ∷ xs) = ground (arith, contains-place x z (sorted xs), contains-sorted z xs)
