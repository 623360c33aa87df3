-- ===== src/Catalog/Markers.antt =====
-- The comment of a view in its written form is read back (`_parse_view_comment`, metadata/catalog.py).
use Prim.Native.Char.{code}
use text.Mathlib.TextLemmas.{cons-append, nil-append}
use query_boy.Base.{
  ℕ, ◌+◌, ◌<◌, ◌≤◌, String, ◌<>◌, Bool, true, false, ◌&&◌, some, leb, ltb, ◌≡◌, refl, ◌∙◌, ap,
  arith, inl, inr,
}
use query_boy.Base.Text.{count_chars}
use query_boy.Base.Digits.{show_nat}
use query_boy.Base.Result.{ok}
use query_boy.Catalog.Comments.{is_slug, match_marker, sanitize_comment, parse_view_comment}
use query_boy.Catalog.Literals.{
  Lacks, Lacks-append, partition-append, drop_return_lem, after_literal-append, parts-Lacks,
  digits-Lacks,
}
use query_boy.Catalog.Numbers.{IsNumber, digits_lem}

-- A marker in its written form.
abbrev pub marker : String → ℕ → String
marker source version =
    "query-man:source=" <> (source <> (";" <> ("view-contract=" <> show_nat version)))

-- No control character.
abbrev is_printable : String → Bool
is_printable String.[] = true
is_printable (String.◌∷◌ c s) = leb 32 (code c) && is_printable s

printable-Lacks : (k : ℕ) (s : String) → k < 32 → is_printable s ≡ true → Lacks k s
printable-Lacks k String.[] h p = tt
printable-Lacks k (String.◌∷◌ c s) h p = ground (arith, printable-Lacks k s h)

module _ (source : String) (version : ℕ) (slug : is_slug source ≡ true)
    (positive : 0 < version) where
  written : IsNumber version (show_nat version)
  unfolding show_nat
  written = digits_lem (version + 1) version (omega arith)

  marker-Lacks : (k : ℕ) → k < 32 → Lacks k (marker source version)
  unfolding is_slug
  marker-Lacks k h =
      let outside = inl (omega (arith, h)) in
      Lacks-append k "query-man:source=" _ (printable-Lacks k "query-man:source=" h refl) (
        Lacks-append k source _ (parts-Lacks k true source outside slug) (
          Lacks-append k ";" _ (printable-Lacks k ";" h refl) (
            Lacks-append k "view-contract=" _ (printable-Lacks k "view-contract=" h refl)
              (digits-Lacks k (show_nat version) outside written.digits))))

  match_marker-marker : match_marker (marker source version) ≡ some (source, show_nat version)
  unfolding match_marker
  match_marker-marker =
      rw
        (
          after_literal-append,
          separator,
          partition-append ";" source tail no_separator,
          after_literal-append,
          slug,
          written.version positive,
        )
        refl
    where
      tail : String
      tail = "view-contract=" <> show_nat version

      separator : ";" <> tail ≡ String.◌∷◌ ";" tail
      separator = cons-append ";" "" tail ∙ ap (String.◌∷◌ ";") (nil-append tail)

      no_separator : Lacks 59 source
      no_separator = parts-Lacks 59 true source (inr (omega arith)) slug

  -- A view comment in its written form, with a line that marks the source and the version of the view's
  -- contract and a description below it, is read back as the source, the version and the clean description,
  -- if the source is a slug, the version is positive and has no more digits than Python converts, and
  -- something of the description is left by the cleaning.
  pub parse_view_comment-marker :
      (description clean : String)
      → count_chars (show_nat version) ≤ 4300
      → sanitize_comment (some description) ≡ some clean
      → parse_view_comment (some (marker source version <> ("\n" <> description)))
        ≡ ok (some source, some version, some clean)
  unfolding parse_view_comment
  parse_view_comment-marker description clean short cleaned =
      rw
        (
          newline,
          partition-append "\n" (marker source version) description no_newline,
          drop_return_lem (marker source version) no_return,
          match_marker-marker,
          cleaned,
          fits,
          written.value,
        )
        refl
    where
      newline : "\n" <> description ≡ String.◌∷◌ "\n" description
      newline = cons-append "\n" "" description ∙ ap (String.◌∷◌ "\n") (nil-append description)

      no_newline : Lacks 10 (marker source version)
      no_newline = marker-Lacks 10 (omega arith)

      no_return : Lacks 13 (marker source version)
      no_return = marker-Lacks 13 (omega arith)

      fits : ltb 4300 (count_chars (show_nat version)) ≡ false
      fits = ground (arith, short)
