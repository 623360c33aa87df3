-- ===== src/Catalog/Literals.antt =====
-- Searching a text for a character and for a literal (metadata/catalog.py).
use Prim.Native.Char.{Char, code}
use text.Mathlib.TextLemmas.{cons-append, nil-append}
use query_boy.Base.{ℕ, ◌<◌, String, ◌<>◌, Bool, true, false, some, eqb, ◌≡◌, ◌⊎◌, refl, arith}
use query_boy.Catalog.Comments.{is_parts, all_digits, partition, drop_return, after_literal}

-- No character has the code `k`.
abbrev pub Lacks : ℕ → String → Type 0
Lacks k String.[] = Unit {0}
Lacks k (String.◌∷◌ c s) = (eqb (code c) k ≡ false) × Lacks k s

pub Lacks-append : (k : ℕ) (s t : String) → Lacks k s → Lacks k t → Lacks k (s <> t)
Lacks-append k String.[] t h g = rw nil-append g
Lacks-append k (String.◌∷◌ c s) t (e, h) g = rw cons-append (e, Lacks-append k s t h g)

-- The first occurrence of the character is the one that was put in.
pub partition-append :
    (c : Char) (s t : String)
    → Lacks (code c) s
    → partition (code c) (s <> String.◌∷◌ c t) ≡ (s, some t)
unfolding partition
partition-append c String.[] t h = rw nil-append (ground arith)
partition-append c (String.◌∷◌ d s) t (e, h) =
    rw cons-append (ground (arith, e, partition-append c s t h))

pub drop_return_lem : (s : String) → Lacks 13 s → drop_return s ≡ s
unfolding drop_return
drop_return_lem String.[] h = refl
drop_return_lem (String.◌∷◌ c s) (e, h) = ground (arith, e, drop_return_lem s h)

pub after_literal-append : (p s : String) → after_literal p (p <> s) ≡ some s
unfolding after_literal
after_literal-append String.[] s = rw nil-append
after_literal-append (String.◌∷◌ c p) s = rw cons-append (ground (arith, after_literal-append p s))

-- No code of a slug.
abbrev pub IsOutside : ℕ → Type 0
IsOutside k = (k < 45) ⊎ ((57 < k) × (k < 97))

pub parts-Lacks :
    (k : ℕ) (part_wanted : Bool) (s : String)
    → IsOutside k
    → is_parts part_wanted s ≡ true
    → Lacks k s
unfolding is_parts
parts-Lacks k b String.[] o h = tt
parts-Lacks k b (String.◌∷◌ c s) o h =
    ground (arith, parts-Lacks k false s o, parts-Lacks k true s o)

pub digits-Lacks : (k : ℕ) (s : String) → IsOutside k → all_digits s ≡ true → Lacks k s
unfolding all_digits
digits-Lacks k String.[] o h = tt
digits-Lacks k (String.◌∷◌ c s) o h = ground (arith, digits-Lacks k s o)
