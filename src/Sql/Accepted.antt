-- ===== src/Sql/Accepted.antt =====
-- What `validate_sql` as a whole accepts and rejects (guarded_query/sql_validation.py).
use query_boy.Base.{
  String, ◌<>◌, ◌≤◌, ◌≡◌, ◌≢◌, ◌↔◌, refl, false, List, [], ◌∷◌, Option, none, some, arith, ◌==◌,
  eq_iff, ltb, Bool-cases, inl, inr,
}
use query_boy.Base.Text.{strip, byte_length}
use query_boy.Base.Sets.{sorted}
use query_boy.Base.Result.{ok, >>=-eq-ok}
use query_boy.Sql.Tree.{Fields, Python}
use query_boy.Sql.Handlers.{Found}
use query_boy.Sql.Validate.{
  Parser, SqlPolicy, Statement, select, other, ValidatedSql, allowed_of, validate, validated,
  validate_statements, validate_sql,
}

module _ (py : Python) (pg : Parser) (p : SqlPolicy) (sql : String) where
  -- How a statement came to be accepted.
  pub record IsAccepted (v : ValidatedSql) : Type 0 where
    pub tree : Fields
    pub found : Found
    pub print : String
    pub not_blank : strip sql ≢ ""
    pub fits : byte_length sql ≤ p.max_sql_bytes
    pub parsed : pg.parse_sql sql ≡ some (select tree ∷ [])
    pub passed : validate py (allowed_of py p) tree ≡ ok found
    pub printed : pg.fingerprint sql ≡ some print
    pub result : v ≡ record {
      fingerprint = "pg_query:" <> print;
      relations = sorted found.relations;
      functions = sorted found.functions;
      operators = sorted found.operators;
    }

  IsAccepted-from :
      strip sql ≢ ""
      → byte_length sql ≤ p.max_sql_bytes
      → (v : ValidatedSql) (tree : Fields) (found : Found) (print : Option String)
      → pg.parse_sql sql ≡ some (select tree ∷ [])
      → validate py (allowed_of py p) tree ≡ ok found
      → pg.fingerprint sql ≡ print
      → validated py pg sql found ≡ ok v
      → IsAccepted v
  IsAccepted-from b f v tree found none q r e h = cc (rw (e, validated) at h)
  IsAccepted-from b f v tree found (some print) q r e h = record {
    tree = tree;
    found = found;
    print = print;
    not_blank = b;
    fits = f;
    parsed = q;
    passed = r;
    printed = e;
    result = ground (arith, rw (e, validated) at h);
  }

  statements_from :
      strip sql ≢ ""
      → byte_length sql ≤ p.max_sql_bytes
      → (v : ValidatedSql) (o : Option (List Statement)) → pg.parse_sql sql ≡ o
      → validate_statements py pg p sql o ≡ ok v
      → IsAccepted v
  statements_from b f v none q h = cc
  statements_from b f v (some []) q h = cc
  statements_from b f v (some (other ∷ [])) q h = cc
  statements_from b f v (some (select tree ∷ [])) q h =
      let (found, r, k) = >>=-eq-ok (validate py (allowed_of py p) tree) _ h in
      IsAccepted-from b f v tree found _ q r refl k
  statements_from b f v (some (a ∷ b' ∷ rest)) q h = cc

  pub validate_sql-IsAccepted : (v : ValidatedSql) → validate_sql py pg p sql ≡ ok v → IsAccepted v
  unfolding validate_sql
  validate_sql-IsAccepted v h = elim (Bool-cases (strip sql == "")) [
    | inl e ↦ cc (rw e at h)
    | inr e ↦ elim (Bool-cases (ltb p.max_sql_bytes (byte_length sql))) [
      | inl f ↦ cc (rw (e, f) at h)
      | inr f ↦
          statements_from (λ k. cc (e, (eq_iff (strip sql) "").1 k)) (ground arith) v
            (pg.parse_sql sql) refl (rw (e, f) at h)
    ]
  ]

  -- The other way: what meets all of this is accepted, with that result.
  IsAccepted-validate_sql : (v : ValidatedSql) → IsAccepted v → validate_sql py pg p sql ≡ ok v
  unfolding validate_sql
  IsAccepted-validate_sql v a =
      let blank : (strip sql == "") ≡ false = ground (arith, eq_iff (strip sql) "", a.not_blank) in
      let big : ltb p.max_sql_bytes (byte_length sql) ≡ false = ground (arith, a.fits) in
      rw (blank, big, a.parsed, a.passed, validated, a.printed, a.result)

  -- A statement is accepted exactly when it is not blank, fits the byte limit, is one statement, a
  -- SELECT whose tree passes the policy, and has a fingerprint; the result has that fingerprint and
  -- the sorted names found.
  pub validate_sql_iff : (v : ValidatedSql) → (validate_sql py pg p sql ≡ ok v) ↔ IsAccepted v
  validate_sql_iff v = (validate_sql-IsAccepted v, IsAccepted-validate_sql v)
