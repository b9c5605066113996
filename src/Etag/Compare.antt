-- ===== src/Etag/Compare.antt =====
-- The two comparisons of RFC 9110 section 8.8.3.2.
use http_rfc_utils.Common.{
  Bool, true, false, not, some, ◌≡◌, ◌↔◌, refl, arith, Option-cases, inl, inr,
}
use http_rfc_utils.Text.{Text}
use http_rfc_utils.Text.Laws.{text_eq_iff}
use http_rfc_utils.Etag.{ETag, parse_etag, compare_etags, compare_etag_strings}

-- The values are equal and, for the strong comparison, neither tag is weak.
abbrev pub Same : Bool → ETag → ETag → Type 0
Same strong a b = (a.value ≡ b.value) × (strong ≡ true → (a.weak ≡ false) × (b.weak ≡ false))

pub compare_etags_iff :
    (a b : ETag) (strong : Bool) → (compare_etags a b strong ≡ true) ↔ Same strong a b
unfolding compare_etags
compare_etags_iff a b true = (
  λ h. ground (arith, text_eq_iff a.value b.value),
  λ (e, s). ground (arith, text_eq_iff a.value b.value, s refl),
)
compare_etags_iff a b false = (
  λ h. (ground (arith, text_eq_iff a.value b.value), λ s. absurd (ground arith)),
  λ (e, s). ground (arith, text_eq_iff a.value b.value),
)

-- Two texts compare as equal exactly if both are entity tags, with equal values, of which neither
-- is weak if the comparison is strong.
pub compare_etag_strings_iff :
    (s t : Text) (strong : Bool)
    → (compare_etag_strings s t strong ≡ true) ↔ (
        (a : ETag) × (b : ETag) × (parse_etag s ≡ some a)
        × (parse_etag t ≡ some b)
        × Same strong a b)
unfolding compare_etag_strings
compare_etag_strings_iff s t strong = (to, from)
  where
    to :
        compare_etag_strings s t strong ≡ true
        → (a : ETag) × (b : ETag) × (parse_etag s ≡ some a)
          × (parse_etag t ≡ some b)
          × Same strong a b
    to h = elim (Option-cases (parse_etag s)) [
      | inl e ↦ absurd (ground arith)
      | inr (a, ea) ↦ elim (Option-cases (parse_etag t)) [
        | inl e ↦ absurd (ground arith)
        | inr (b, eb) ↦ (a, b, ea, eb, (compare_etags_iff a b strong).0 (ground arith))
      ]
    ]

    from :
        (a : ETag) × (b : ETag) × (parse_etag s ≡ some a)
          × (parse_etag t ≡ some b)
          × Same strong a b
        → compare_etag_strings s t strong ≡ true
    from (a, b, ea, eb, same) = ground (arith, ea, eb, (compare_etags_iff a b strong).1 same)

-- Either comparison is symmetric and transitive, the strong one implies the weak one, and a tag
-- equals itself by the strong comparison exactly if it is not weak.
pub compare_etags_laws :
    (a b c : ETag) (strong : Bool)
    → (compare_etags a b strong ≡ compare_etags b a strong)
      × (compare_etags a b strong ≡ true
          → compare_etags b c strong ≡ true
          → compare_etags a c strong ≡ true)
      × (compare_etags a b true ≡ true → compare_etags a b false ≡ true)
      × (compare_etags a a true ≡ not a.weak)
unfolding compare_etags
compare_etags_laws a b c strong = (
  ground (arith, text_eq_iff a.value b.value, text_eq_iff b.value a.value),
  λ h k. ground (
    arith,
    text_eq_iff a.value b.value,
    text_eq_iff b.value c.value,
    text_eq_iff a.value c.value,
  ),
  λ h. ground arith,
  ground (arith, text_eq_iff a.value a.value),
)
