-- ===== src/App/Bounded.antt =====
-- What a client is told of an invalid body is bounded (delivery/app.py).
use Prim.Native.Char.{Char, code}
use text.Mathlib.TextLemmas.{cons-append, nil-append}
use query_boy.Base.{
  ℕ, zero, suc, ◌+◌, ◌/◌, ◌%◌, ◌≤◌, String, ◌<>◌, Bool, true, false, ◌&&◌, ◌||◌, List, [], ◌∷◌,
  Option, none, some, map, take, length, length-take, All, leb, ltb, leb→le, eqb, ◌==◌, Bool-cases,
  and-eq-true, inl, inr, ◌≡◌, refl, ap, arith,
}
use query_boy.Base.Int.{pos, negsuc}
use query_boy.Base.Digits.{show_nat, digits, digit}
use query_boy.Base.Text.{count_chars}
use query_boy.Catalog.Comments.{take_chars}
use query_boy.App.Details.{
  LocationPart, key, index, Issue, Detail, is_name_char, all_chars, is_short, safe_part,
  location_of, dotted, is_ascii, code_of, detail_of, bounded_validation_details,
}

-- A letter, a digit, an underscore, a dash or a dot.
abbrev pub is_path_char : Char → Bool
is_path_char c = is_name_char c || eqb (code c) 46

all_chars-append :
    (p : Char → Bool) (s t : String)
    → all_chars p s ≡ true
    → all_chars p t ≡ true
    → all_chars p (s <> t) ≡ true
unfolding all_chars
all_chars-append p String.[] t h g = rw nil-append g
all_chars-append p (String.◌∷◌ c s) t h g = rw cons-append (ground (arith, all_chars-append p s t))

names-paths : (s : String) → all_chars is_name_char s ≡ true → all_chars is_path_char s ≡ true
unfolding all_chars
names-paths String.[] h = refl
names-paths (String.◌∷◌ c s) h = ground (arith, names-paths s)

digit-paths : (d : ℕ) → all_chars is_path_char (digit d) ≡ true
unfolding all_chars
digit-paths zero = refl
digit-paths (suc zero) = refl
digit-paths (suc (suc zero)) = refl
digit-paths (suc (suc (suc zero))) = refl
digit-paths (suc (suc (suc (suc zero)))) = refl
digit-paths (suc (suc (suc (suc (suc zero))))) = refl
digit-paths (suc (suc (suc (suc (suc (suc zero)))))) = refl
digit-paths (suc (suc (suc (suc (suc (suc (suc zero))))))) = refl
digit-paths (suc (suc (suc (suc (suc (suc (suc (suc zero)))))))) = refl
digit-paths (suc (suc (suc (suc (suc (suc (suc (suc (suc d))))))))) = refl

digits-paths : (fuel n : ℕ) → all_chars is_path_char (digits fuel n) ≡ true
unfolding digits all_chars
digits-paths zero n = refl
digits-paths (suc fuel) n = elim (Bool-cases (ltb n 10)) [
  | inl small ↦ rw small (digit-paths n)
  | inr large ↦ rw large (
      all_chars-append is_path_char (digits fuel (n / 10)) (digit (n % 10))
        (digits-paths fuel (n / 10)) (digit-paths (n % 10)))
]

safe_part-paths : (part : LocationPart) → all_chars is_path_char (safe_part part) ≡ true
unfolding safe_part all_chars
safe_part-paths (index (pos n)) = elim (Bool-cases (leb n 1000000)) [
  | inl small ↦ rw small (unfold show_nat in digits-paths (n + 1) n)
  | inr large ↦ rw large refl
]
safe_part-paths (index (negsuc n)) = refl
safe_part-paths (key part) = elim (Bool-cases (is_short part && all_chars is_name_char part)) [
  | inl safe ↦ rw safe (names-paths part (and-eq-true _ _ safe).1)
  | inr odd ↦ rw odd refl
]

dotted-paths :
    (parts : List LocationPart) → all_chars is_path_char (dotted (map safe_part parts)) ≡ true
unfolding dotted all_chars
dotted-paths [] = refl
dotted-paths (part ∷ []) = safe_part-paths part
dotted-paths (part ∷ next ∷ parts) =
    let rest = dotted (map safe_part (next ∷ parts)) in
    all_chars-append is_path_char (safe_part part) ("." <> rest) (safe_part-paths part)
      (all_chars-append is_path_char "." rest refl (dotted-paths (next ∷ parts)))

take_chars-paths :
    (n : ℕ) (s : String)
    → all_chars is_path_char s ≡ true
    → all_chars is_path_char (take_chars n s) ≡ true
unfolding take_chars all_chars
take_chars-paths zero s h = refl
take_chars-paths (suc n) String.[] h = refl
take_chars-paths (suc n) (String.◌∷◌ c s) h = ground (arith, take_chars-paths n s)

count-take_chars : (n : ℕ) (s : String) → count_chars (take_chars n s) ≤ n
unfolding take_chars count_chars
count-take_chars zero s = omega arith
count-take_chars (suc n) String.[] = omega arith
count-take_chars (suc n) (String.◌∷◌ c s) = omega (arith, count-take_chars n s)

-- What a detail may show.
pub record IsHarmless (d : Detail) : Type 0 where
  pub path_some : (d.path == "") ≡ false
  pub path_short : count_chars d.path ≤ 256
  pub path_chars : all_chars is_path_char d.path ≡ true
  pub code_short : (1 ≤ count_chars d.code_text) × (count_chars d.code_text ≤ 64)
  pub code_chars : all_chars is_ascii d.code_text ≡ true
  pub fixed : d.message ≡ "Invalid request value."

kind_lem :
    (kind : Option String)
    → ((1 ≤ count_chars (code_of kind)) × (count_chars (code_of kind) ≤ 64))
      × (all_chars is_ascii (code_of kind) ≡ true)
unfolding code_of count_chars all_chars
kind_lem none = ((omega arith, omega arith), refl)
kind_lem (some kind) = elim (Bool-cases (is_short kind && all_chars is_ascii kind)) [
  | inl safe ↦
      let (short, ascii) = and-eq-true _ _ safe in
      let (low, high) = and-eq-true _ _ short in rw safe ((leb→le _ _ low, leb→le _ _ high), ascii)
  | inr odd ↦ rw odd ((omega arith, omega arith), refl)
]

detail_of-IsHarmless : (issue : Issue) → IsHarmless (detail_of issue)
unfolding detail_of code_of count_chars all_chars
detail_of-IsHarmless issue =
    let whole = dotted (map safe_part (location_of issue)) in
    let path = take_chars 256 whole in
    let short = count-take_chars 256 whole in
    let safe = take_chars-paths 256 whole (dotted-paths (location_of issue)) in
    let kind = kind_lem issue.kind in
    record {
      path_some = elim (Bool-cases (path == "")) [
        | inl none_left ↦ rw none_left refl
        | inr some_left ↦ rw some_left some_left
      ];
      path_short = elim (Bool-cases (path == "")) [
        | inl none_left ↦ rw none_left (omega arith)
        | inr some_left ↦ rw some_left short
      ];
      path_chars = elim (Bool-cases (path == "")) [
        | inl none_left ↦ rw none_left refl
        | inr some_left ↦ rw some_left safe
      ];
      code_short = kind.0;
      code_chars = kind.1;
      fixed = refl;
    }

details-IsHarmless : (issues : List Issue) → All IsHarmless (map detail_of issues)
details-IsHarmless [] = tt
details-IsHarmless (issue ∷ issues) = (detail_of-IsHarmless issue, details-IsHarmless issues)

length-map_details : (issues : List Issue) → length (map detail_of issues) ≡ length issues
length-map_details [] = refl
length-map_details (issue ∷ issues) = ap suc (length-map_details issues)

-- What a client is told of an invalid body, whatever body and keys it has sent: at most 32 details; each has
-- a path of 1 to 256 letters, digits, underscores, dashes and dots, a code of 1 to 64 ASCII characters, and
-- always the same message.
pub bounded_validation_details-IsHarmless :
    (issues : List Issue)
    → (length (bounded_validation_details issues) ≤ 32)
      × All IsHarmless (bounded_validation_details issues)
unfolding bounded_validation_details
bounded_validation_details-IsHarmless issues = (
  omega (arith, length-map_details (take 32 issues), length-take 32 issues),
  details-IsHarmless (take 32 issues),
)
