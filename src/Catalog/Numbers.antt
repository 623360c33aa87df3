-- ===== src/Catalog/Numbers.antt =====
-- The version of a view comment is read back (metadata/catalog.py).
use Prim.Native.Char.{code}
use text.Mathlib.TextLemmas.{cons-append, nil-append}
use query_boy.Base.{
  ℕ, zero, suc, ◌+◌, ◌-◌, ◌*◌, ◌/◌, ◌%◌, ◌<◌, String, ◌<>◌, true, ltb, ltb→lt, not_ltb→ge, ◌≡◌,
  refl, ◌∙◌, arith, Bool-cases, inl, inr,
}
use query_boy.Base.Digits.{digits, digit}
use query_boy.Catalog.Comments.{all_digits, is_version, decimal_value}

all_digits-append :
    (s t : String) → all_digits s ≡ true → all_digits t ≡ true → all_digits (s <> t) ≡ true
unfolding all_digits
all_digits-append String.[] t h g = rw nil-append g
all_digits-append (String.◌∷◌ c s) t h g = rw cons-append (ground (arith, all_digits-append s t))

is_version-append :
    (s t : String) → is_version s ≡ true → all_digits t ≡ true → is_version (s <> t) ≡ true
unfolding is_version
is_version-append String.[] t h g = cc
is_version-append (String.◌∷◌ c s) t h g = rw cons-append (ground (arith, all_digits-append s t))

decimal_value-append :
    (n : ℕ) (s t : String) → decimal_value n (s <> t) ≡ decimal_value (decimal_value n s) t
unfolding decimal_value
decimal_value-append n String.[] t = rw nil-append
decimal_value-append n (String.◌∷◌ c s) t =
    rw cons-append (decimal_value-append (n * 10 + (code c - 48)) s t)

-- A digit is its number, and stands for it behind `n`.
record IsDigit (d : ℕ) : Type 0 where
  value : (n : ℕ) → decimal_value n (digit d) ≡ n * 10 + d
  digits : all_digits (digit d) ≡ true
  version : 0 < d → is_version (digit d) ≡ true

digit_lem : (d : ℕ) → d < 10 → IsDigit d
unfolding decimal_value is_version
digit_lem zero h = record {
  value = λ n. omega arith;
  digits = refl;
  version = λ p. absurd (omega arith);
}
digit_lem (suc zero) h = record { value = λ n. omega arith; digits = refl; version = λ p. refl }
digit_lem (suc (suc zero)) h = record {
  value = λ n. omega arith;
  digits = refl;
  version = λ p. refl;
}
digit_lem (suc (suc (suc zero))) h = record {
  value = λ n. omega arith;
  digits = refl;
  version = λ p. refl;
}
digit_lem (suc (suc (suc (suc zero)))) h = record {
  value = λ n. omega arith;
  digits = refl;
  version = λ p. refl;
}
digit_lem (suc (suc (suc (suc (suc zero))))) h = record {
  value = λ n. omega arith;
  digits = refl;
  version = λ p. refl;
}
digit_lem (suc (suc (suc (suc (suc (suc zero)))))) h = record {
  value = λ n. omega arith;
  digits = refl;
  version = λ p. refl;
}
digit_lem (suc (suc (suc (suc (suc (suc (suc zero))))))) h = record {
  value = λ n. omega arith;
  digits = refl;
  version = λ p. refl;
}
digit_lem (suc (suc (suc (suc (suc (suc (suc (suc zero)))))))) h = record {
  value = λ n. omega arith;
  digits = refl;
  version = λ p. refl;
}
digit_lem (suc (suc (suc (suc (suc (suc (suc (suc (suc zero))))))))) h = record {
  value = λ n. omega arith;
  digits = refl;
  version = λ p. refl;
}
digit_lem (suc (suc (suc (suc (suc (suc (suc (suc (suc (suc d)))))))))) h = absurd (omega arith)

-- The same of more digits.
pub record IsNumber (n : ℕ) (s : String) : Type 0 where
  pub value : decimal_value 0 s ≡ n
  pub digits : all_digits s ≡ true
  pub version : 0 < n → is_version s ≡ true

pub digits_lem : (fuel n : ℕ) → n < fuel → IsNumber n (digits fuel n)
unfolding digits
digits_lem zero n h = absurd (omega arith)
digits_lem (suc fuel) n h = elim (Bool-cases (ltb n 10)) [
  | inl small ↦ rw small (
      let d = digit_lem n (ltb→lt n 10 small) in
      record { value = d.value 0 ∙ omega arith; digits = d.digits; version = d.version })
  | inr large ↦ rw large (
      let big = not_ltb→ge n 10 large in
      let more = digits_lem fuel (n / 10) (omega arith) in
      let d = digit_lem (n % 10) (omega arith) in
      record {
        value =
            decimal_value-append 0 (digits fuel (n / 10)) (digit (n % 10))
            ∙ d.value _
            ∙ omega (arith, more.value);
        digits = all_digits-append _ _ more.digits d.digits;
        version = λ p. is_version-append _ _ (more.version (omega arith)) d.digits;
      })
]
