-- ===== src/Encoding/Laws.antt =====
-- Exactly the supported values are encoded (guarded_query/result_encoding.py).
use query_boy.Base.{
  Bool, ℕ, ap, eqb→eq, eqb, ◌||◌, ◌⊎◌, ◌≢◌, if-false, true, false, not, List, [], ◌∷◌, ◌≡◌, ◌↔◌,
  refl, arith, any, All, Bool-cases, inl, inr,
}
use query_boy.Base.Int.{pos, negsuc}
use query_boy.Base.Json.{Json, null, boolean, number, string, object, Members, end, member}
use query_boy.Base.Result.{ok, passed_test, >>=-eq-ok}
use query_boy.Encoding.Defs.{
  Library, Cell, nothing, truth, integer, text, decimal, datetime, date, mapping, unsupported,
  Entries, finish, entry, odd_entry, has_odd_key, encode_result_value, encode_entries, Oid, int_oid,
  other_oid, is_allowed_oid, require_supported_result_oids,
}

module _ (lib : Library) where
  -- No value of an unsupported type, and no key that is not a text, at any depth.
  unfoldable mutual
    pub Encodable : Cell lib → Type 0
    Encodable nothing = Unit
    Encodable (truth b) = Unit
    Encodable (integer n) = Unit
    Encodable (text s) = Unit
    Encodable (decimal d) = Unit
    Encodable (datetime t) = Unit
    Encodable (date d) = Unit
    Encodable (mapping es) = EncodableEntries es
    Encodable (unsupported name) = ⊥

    pub EncodableEntries : Entries lib → Type 0
    EncodableEntries finish = Unit
    EncodableEntries (entry k v es) = Encodable v × EncodableEntries es
    EncodableEntries (odd_entry k v es) = ⊥

  EncodableEntries-keys : (es : Entries lib) → EncodableEntries es → has_odd_key lib es ≡ false
  unfolding Encodable
  EncodableEntries-keys finish h = refl
  EncodableEntries-keys (entry k v es) (_, h) = EncodableEntries-keys es h
  EncodableEntries-keys (odd_entry k v es) h = absurd h

  mutual
    unfolding Encodable encode_result_value

    encode_of_Encodable :
        (c : Cell lib) → Encodable c → (j : Json) × (encode_result_value lib c ≡ ok j)
    encode_of_Encodable nothing h = (null, refl)
    encode_of_Encodable (truth b) h = (boolean b, refl)
    encode_of_Encodable (integer n) h = (number n, refl)
    encode_of_Encodable (text s) h = (string s, refl)
    encode_of_Encodable (decimal d) h = (string (lib.decimal_text d), refl)
    encode_of_Encodable (datetime t) h = (_, refl)
    encode_of_Encodable (date d) h = (string (lib.date_isoformat d), refl)
    encode_of_Encodable (mapping es) h =
        let (ms, e) = entries_of_encodable es h in (object ms, rw (EncodableEntries-keys es h, e))
    encode_of_Encodable (unsupported name) h = absurd h

    entries_of_encodable :
        (es : Entries lib) → EncodableEntries es → (ms : Members) × (encode_entries lib es ≡ ok ms)
    entries_of_encodable finish h = (end, refl)
    entries_of_encodable (entry k v es) (h, hs) =
        let (j, e) = encode_of_Encodable v h in
        let (ms, es') = entries_of_encodable es hs in (member k j ms, rw (e, es'))
    entries_of_encodable (odd_entry k v es) h = absurd h

  mutual
    unfolding Encodable encode_result_value

    Encodable-of_encode : (c : Cell lib) (j : Json) → encode_result_value lib c ≡ ok j → Encodable c
    Encodable-of_encode nothing j h = tt
    Encodable-of_encode (truth b) j h = tt
    Encodable-of_encode (integer n) j h = tt
    Encodable-of_encode (text s) j h = tt
    Encodable-of_encode (decimal d) j h = tt
    Encodable-of_encode (datetime t) j h = tt
    Encodable-of_encode (date d) j h = tt
    Encodable-of_encode (mapping es) j h = elim (Bool-cases (has_odd_key lib es)) [
      | inl e ↦ cc (rw e at h)
      | inr e ↦
          let (ms, p, _) = >>=-eq-ok (encode_entries lib es) _ (rw e at h) in
          encodable_of_entries es ms e p
    ]
    Encodable-of_encode (unsupported name) j h = cc

    encodable_of_entries :
        (es : Entries lib) (ms : Members)
        → has_odd_key lib es ≡ false
        → encode_entries lib es ≡ ok ms
        → EncodableEntries es
    encodable_of_entries finish ms o h = tt
    encodable_of_entries (entry k v es) ms o h =
        let (j, p, q) = >>=-eq-ok (encode_result_value lib v) _ h in
        let (ms', r, _) = >>=-eq-ok (encode_entries lib es) _ q in
        (Encodable-of_encode v j p, encodable_of_entries es ms' o r)
    encodable_of_entries (odd_entry k v es) ms o h = cc

  -- A value is written as JSON exactly when no value of an unsupported type, and no key that is not a
  -- text, stands in it at any depth.
  pub encode_result_value_iff :
      (c : Cell lib) → ((j : Json) × (encode_result_value lib c ≡ ok j)) ↔ Encodable c
  encode_result_value_iff c = (λ p. Encodable-of_encode c p.0 p.1, encode_of_Encodable c)

-- The OID of int8, int2, int4, text, date, timestamptz or numeric.
abbrev pub IsResultType : Oid → Type 0
IsResultType oid =
    (oid ≡ int_oid (pos 20))
    ⊎ (oid ≡ int_oid (pos 21))
    ⊎ (oid ≡ int_oid (pos 23))
    ⊎ (oid ≡ int_oid (pos 25))
    ⊎ (oid ≡ int_oid (pos 1082))
    ⊎ (oid ≡ int_oid (pos 1184))
    ⊎ (oid ≡ int_oid (pos 1700))

code_lem : (n k : ℕ) → eqb n k ≡ true → int_oid (pos n) ≡ int_oid (pos k)
code_lem n k h = ap (λ m. int_oid (pos m)) (eqb→eq n k h)

IsResultType-known : (oid : Oid) → IsResultType oid → is_allowed_oid oid ≡ true
IsResultType-known oid h = elim h [
  | inl e ↦ rw e
  | inr h ↦ elim h [
    | inl e ↦ rw e
    | inr h ↦ elim h [
      | inl e ↦ rw e
      | inr h ↦ elim h [
        | inl e ↦ rw e
        | inr h ↦ elim h [ inl e ↦ rw e | inr h ↦ elim h [ inl e ↦ rw e | inr e ↦ rw e ] ]
      ]
    ]
  ]
]

-- The first part of a disjunction of tests, or what follows from the others.
or-cases {ℓ κ} :
    {A : Type ℓ} {B : Type κ} (a b : Bool)
    → (a ≡ true → A)
    → (b ≡ true → B)
    → (a || b) ≡ true
    → A ⊎ B
or-cases true b f g h = inl (f refl)
or-cases false b f g h = inr (g h)

known_code : (n : ℕ) → is_allowed_oid (int_oid (pos n)) ≡ true → IsResultType (int_oid (pos n))
known_code n = or-cases (eqb n 20) _ (code_lem n 20) (
    or-cases (eqb n 21) _ (code_lem n 21) (
      or-cases (eqb n 23) _ (code_lem n 23) (
        or-cases (eqb n 25) _ (code_lem n 25) (
          or-cases (eqb n 1082) _ (code_lem n 1082) (
            or-cases (eqb n 1184) _ (code_lem n 1184)
              (λ h. code_lem n 1700 (ground (arith, h))))))))

is_allowed_oid_iff : (oid : Oid) → (is_allowed_oid oid ≡ true) ↔ IsResultType oid
is_allowed_oid_iff other_oid = (λ h. absurd (cc h), λ h. IsResultType-known other_oid h)
is_allowed_oid_iff (int_oid (negsuc n)) =
    (λ h. absurd (cc h), λ h. IsResultType-known (int_oid (negsuc n)) h)
is_allowed_oid_iff (int_oid (pos n)) =
    (λ h. known_code n h, λ h. IsResultType-known (int_oid (pos n)) h)

any-All_iff :
    (oids : List Oid) → (any (λ o. not (is_allowed_oid o)) oids ≡ false) ↔ All IsResultType oids
any-All_iff [] = (λ h. tt, λ h. refl)
any-All_iff (o ∷ oids) = (
  λ h. ((is_allowed_oid_iff o).0 (ground arith), (any-All_iff oids).0 (ground arith)),
  λ h. ground (arith, (is_allowed_oid_iff o).1 h.0, (any-All_iff oids).1 h.1),
)

-- The result columns pass exactly when there is one and the type of each is int8, int2, int4, text, date,
-- timestamptz or numeric, by its OID.
pub require_supported_result_oids_iff :
    (oids : List Oid)
    → (require_supported_result_oids oids ≡ ok tt) ↔ ((oids ≢ []) × All IsResultType oids)
unfolding require_supported_result_oids
require_supported_result_oids_iff [] = (λ h. absurd (cc h), λ h. absurd (h.0 refl))
require_supported_result_oids_iff (oid ∷ oids) = (
  λ h. (λ e. absurd (cc e), (any-All_iff (oid ∷ oids)).0 (passed_test _ _ _ h).0),
  λ h. if-false _ _ _ ((any-All_iff (oid ∷ oids)).1 h.1),
)
