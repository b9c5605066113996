-- ===== src/StructuredFields/Members.antt =====
-- Members of lists and of dictionaries are read back from the text that is written for them.
use http_rfc_utils.Common.{
  ◌⊎◌, subst, ℕ, Bool, true, ◌||◌, List, [], ◌∷◌, ◌++◌, Option, some, ◌≡◌, refl, ap, ◌∙◌, arith,
  All, ◌==◌, Bool-cases, inl, inr, append_assoc,
}
use http_rfc_utils.Common.Results.{ok, Result-cases}
use http_rfc_utils.Text.{Text}
use http_rfc_utils.StructuredFields.{
  boolean, Params, Item, Member, single, inner, Codecs, is_ows, is_key_char,
}
use http_rfc_utils.StructuredFields.Parser.{
  skip_ows, parse_parameters, parse_item, parse_inner_list, parse_member, parse_entry_value,
}
use http_rfc_utils.StructuredFields.Serializer.{
  is_true, serialize_params, serialize_item, inner_text, serialize_member, entry_value_text,
}
use http_rfc_utils.StructuredFields.Bare.{Leads, is_bare_start}
use http_rfc_utils.StructuredFields.Delimiters.{
  follows, ends_value, ends_value-skip, ends_value-key, bare_start-facts, skip_ows-Stops,
}
use http_rfc_utils.Text.Spans.{Stops}
use http_rfc_utils.StructuredFields.Parameters.{
  WellFormedParams, parse_parameters-serialize, is_true-eq, equals-Stops,
}
use http_rfc_utils.StructuredFields.Items.{
  WellFormedItem, serialize_item-Leads, parse_item-serialize, parse_items-inner_text,
}

-- The first character of a member: no blank, no comma and no `=`.
unfoldable pub is_member_start : ℕ → Bool
unfolding is_bare_start
is_member_start c = c == b'(' || is_bare_start c

bare-member : (s : Text) → Leads is_bare_start s → Leads is_member_start s
unfolding is_member_start
bare-member [] h = absurd h
bare-member (c ∷ s) h = ground arith

pub skip_ows-member : (s : Text) → Leads is_member_start s → skip_ows s ≡ s
unfolding is_member_start
skip_ows-member [] h = absurd h
skip_ows-member (c ∷ s) h = skip_ows-Stops (c ∷ s) (elim (Bool-cases (is_bare_start c)) [
  | inl e ↦ ground (arith, bare_start-facts c e)
  | inr e ↦ unfold is_ows in ground (arith, e)
])

module _ (codecs : Codecs) where
  abbrev pub WellFormedMember : Member → Type 0
  WellFormedMember (single item) = WellFormedItem codecs item
  WellFormedMember (inner items params) =
      All (WellFormedItem codecs) items × WellFormedParams codecs params

  inner-split :
      (items : List Item) (params : Option Params) (text : Text)
      → serialize_member codecs (inner items params) ≡ ok text
      → (t : Text) × (behind : Text) × (inner_text codecs items ≡ ok t)
        × (serialize_params codecs params ≡ ok behind)
        × (text ≡ b'(' ∷ t ++ b')' ∷ behind)
  unfolding serialize_member
  inner-split items params text h = elim (Result-cases (inner_text codecs items)) [
    | inr (bad, n) ↦ absurd (ground arith)
    | inl (t, n) ↦ elim (Result-cases (serialize_params codecs params)) [
      | inr (bad, m) ↦ absurd (ground arith)
      | inl (behind, m) ↦ (t, behind, n, m, ground (arith, n, m))
    ]
  ]

  -- An entry is a flag with its parameters, or `=` and a member.
  entry_value_text-cases :
      (m : Member) (text : Text)
      → entry_value_text codecs m ≡ ok text
      → ((item : Item) × (item.value ≡ boolean true)
          × (m ≡ single item)
          × (serialize_params codecs item.params ≡ ok text))
        ⊎ ((t : Text) × (serialize_member codecs m ≡ ok t) × (text ≡ b'=' ∷ t))
  unfolding entry_value_text
  entry_value_text-cases (single item) text h = elim (Bool-cases (is_true item.value)) [
    | inl e ↦ inl (item, is_true-eq item.value e, refl, ground (arith, e))
    | inr e ↦ elim (Result-cases (serialize_item codecs item)) [
      | inr (bad, n) ↦ absurd (ground (arith, e))
      | inl (t, n) ↦ inr (t, (unfold serialize_member in n), ground (arith, e, n))
    ]
  ]
  entry_value_text-cases (inner items params) text h =
      elim (Result-cases (serialize_member codecs (inner items params))) [
        | inr (bad, n) ↦ absurd (ground arith)
        | inl (t, n) ↦ inr (t, n, ground (arith, n))
      ]

  pub serialize_member-Leads :
      (m : Member) (text rest : Text)
      → serialize_member codecs m ≡ ok text
      → Leads is_member_start (text ++ rest)
  serialize_member-Leads (single item) text rest h =
      bare-member (text ++ rest)
        (serialize_item-Leads codecs item text rest (unfold serialize_member in h))
  serialize_member-Leads (inner items params) text rest h =
      let (t, behind, _, _, same) = inner-split items params text h in
      rw same (unfold is_member_start in refl)

  parse_member-bare :
      (item : Item) (s rest : Text)
      → Leads is_bare_start s
      → parse_item codecs true s ≡ (some item, rest)
      → parse_member codecs s ≡ (some (single item), rest)
  unfolding parse_member
  parse_member-bare item [] rest l h = absurd l
  parse_member-bare item (c ∷ s) rest l h =
      let (_, paren, _, _, _) = bare_start-facts c l in rw (parse_member, paren, h) refl

  pub parse_member-serialize :
      (m : Member) (text rest : Text)
      → WellFormedMember m
      → serialize_member codecs m ≡ ok text
      → follows true rest ≡ true
      → parse_member codecs (text ++ rest) ≡ (some m, rest)
  parse_member-serialize (single item) text rest w h k =
      let written : serialize_item codecs item ≡ ok text = (unfold serialize_member in h) in
      parse_member-bare item (text ++ rest) rest
        (serialize_item-Leads codecs item text rest written)
        (parse_item-serialize codecs true item text rest w written k)
  parse_member-serialize (inner items params) text rest (wi, wp) h k =
      let (t, behind, te, pe, same) = inner-split items params text h in
      let (read, _) = parse_parameters-serialize codecs true params behind rest wp pe k in
      unfold parse_member parse_inner_list in
      rw
        (
          same,
          append_assoc t (b')' ∷ behind) rest,
          parse_items-inner_text codecs items t (behind ++ rest) wi te,
          read,
        )
        refl

  parse_entry_value-flag :
      (params : Option Params) (s rest : Text)
      → ends_value true s ≡ true
      → parse_parameters codecs true s ≡ (params, rest)
      → parse_entry_value codecs s
        ≡ (some (single (record { value = boolean true; params = params })), rest)
  unfolding parse_entry_value
  parse_entry_value-flag params [] rest e h = unfold skip_ows in rw h refl
  parse_entry_value-flag params (c ∷ s) rest e h =
      let (skip, other) = ends_value-skip (c ∷ s) e in
      rw (parse_entry_value, skip, other, skip, h) refl

  parse_entry_value-member :
      (s : Text)
      → Leads is_member_start s
      → parse_entry_value codecs (b'=' ∷ s) ≡ parse_member codecs s
  unfolding parse_entry_value skip_ows is_ows
  parse_entry_value-member s l = ap (parse_member codecs) (skip_ows-member s l)

  -- What is written behind the key of an entry is read back, and ends the key.
  pub entry_value_text-read :
      (m : Member) (text rest : Text)
      → WellFormedMember m
      → entry_value_text codecs m ≡ ok text
      → follows true rest ≡ true
      → (parse_entry_value codecs (text ++ rest) ≡ (some m, rest))
        × Stops is_key_char (text ++ rest)
  entry_value_text-read m text rest w h k = elim (entry_value_text-cases m text h) [
    | inl (item, e, same, flag) ↦
        let single_item : WellFormedMember (single item) = subst WellFormedMember same w in
        let (read, ends) =
          parse_parameters-serialize codecs true item.params text rest single_item.1 flag k in
        (
          parse_entry_value-flag item.params (text ++ rest) rest ends read ∙ rw (same, ← e) refl,
          ends_value-key true (text ++ rest) ends,
        )
    | inr (t, te, same) ↦ rw same (
      parse_entry_value-member (t ++ rest) (serialize_member-Leads m t rest te)
          ∙ parse_member-serialize m t rest w te k,
      equals-Stops (t ++ rest),
    )
  ]
