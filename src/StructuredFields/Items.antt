-- ===== src/StructuredFields/Items.antt =====
-- Items and inner lists are read back from the text that is written for them.
use http_rfc_utils.Common.{
  ℕ, zero, suc, ◌<◌, ◌≤◌, Bool, true, false, List, [], ◌∷◌, ◌++◌, some, ◌≡◌, refl, ap, ◌∙◌, arith,
  All, inl, inr, append_assoc, length, length-append,
}
use http_rfc_utils.Common.Results.{ok, Result-cases}
use http_rfc_utils.Text.{Text}
use http_rfc_utils.StructuredFields.{Item, Codecs, is_ows}
use http_rfc_utils.StructuredFields.Parser.{skip_sp, parse_item, inner_items, parse_items, finished}
use http_rfc_utils.StructuredFields.Serializer.{
  serialize_bare_item, serialize_params, serialize_item, items_text, inner_text,
}
use http_rfc_utils.StructuredFields.Bare.{
  Leads, is_bare_start, Survives, parse_bare_item-serialize, serialize_bare_item-Leads,
}
use http_rfc_utils.StructuredFields.Delimiters.{
  follows, goes_on, ends_value-token, bare_start-facts,
}
use http_rfc_utils.StructuredFields.Parameters.{WellFormedParams, parse_parameters-serialize}

skip_sp-bare : (s : Text) → Leads is_bare_start s → skip_sp s ≡ s
unfolding skip_sp
skip_sp-bare [] h = absurd h
skip_sp-bare (c ∷ s) h = unfold is_ows in ground (arith, bare_start-facts c h)

bare-goes_on : (s : Text) → Leads is_bare_start s → goes_on s ≡ true
bare-goes_on [] h = absurd h
bare-goes_on (c ∷ s) h = ground (arith, bare_start-facts c h)

module _ (codecs : Codecs) where
  abbrev pub WellFormedItem : Item → Type 0
  WellFormedItem item = Survives codecs item.value × WellFormedParams codecs item.params

  pub serialize_item-split :
      (item : Item) (text : Text)
      → serialize_item codecs item ≡ ok text
      → (base : Text) × (behind : Text) × (serialize_bare_item codecs item.value ≡ ok base)
        × (serialize_params codecs item.params ≡ ok behind)
        × (text ≡ base ++ behind)
  unfolding serialize_item
  serialize_item-split item text h = elim (Result-cases (serialize_bare_item codecs item.value)) [
    | inr (bad, n) ↦ absurd (ground arith)
    | inl (base, n) ↦ elim (Result-cases (serialize_params codecs item.params)) [
      | inr (bad, m) ↦ absurd (ground arith)
      | inl (behind, m) ↦ (base, behind, n, m, ground (arith, n, m))
    ]
  ]

  pub serialize_item-Leads :
      (item : Item) (text rest : Text)
      → serialize_item codecs item ≡ ok text
      → Leads is_bare_start (text ++ rest)
  serialize_item-Leads item text rest h =
      let (base, behind, be, _, same) = serialize_item-split item text h in
      rw (same, append_assoc base behind rest)
        (serialize_bare_item-Leads codecs item.value base (behind ++ rest) be)

  pub parse_item-serialize :
      (a : Bool) (item : Item) (text rest : Text)
      → WellFormedItem item
      → serialize_item codecs item ≡ ok text
      → follows a rest ≡ true
      → parse_item codecs a (text ++ rest) ≡ (some item, rest)
  unfolding parse_item
  parse_item-serialize a item text rest (w, p) h k =
      let (base, behind, be, pe, same) = serialize_item-split item text h in
      let (params, ends) = parse_parameters-serialize codecs a item.params behind rest p pe k in
      rw
        (
          same,
          append_assoc base behind rest,
          parse_bare_item-serialize codecs item.value base (behind ++ rest) w be
              (ends_value-token a (behind ++ rest) ends),
          params,
        )
        refl

  items_text-split :
      (item : Item) (items : List Item) (text : Text)
      → items_text codecs (item ∷ items) ≡ ok text
      → (first : Text) × (more : Text) × (serialize_item codecs item ≡ ok first)
        × (items_text codecs items ≡ ok more)
        × (text ≡ b' ' ∷ first ++ more)
  unfolding items_text
  items_text-split item items text h = elim (Result-cases (serialize_item codecs item)) [
    | inr (bad, n) ↦ absurd (ground arith)
    | inl (first, n) ↦ elim (Result-cases (items_text codecs items)) [
      | inr (bad, m) ↦ absurd (ground arith)
      | inl (more, m) ↦ (first, more, n, m, ground (arith, n, m))
    ]
  ]

  -- A round of the loop, at an item that a parenthesis follows, and at one that a blank follows.
  inner_last :
      (f : ℕ) (acc : List Item) (item : Item) (s rest : Text)
      → Leads is_bare_start s
      → parse_item codecs false s ≡ (some item, b')' ∷ rest)
      → inner_items codecs (suc f) acc s ≡ some (some (acc ++ item ∷ []), rest)
  unfolding inner_items
  inner_last f acc item [] rest l h = absurd l
  inner_last f acc item (c ∷ s) rest l h =
      let (_, _, paren, _, _) = bare_start-facts c l in
      rw (inner_items, skip_sp-bare (c ∷ s) l, paren, h) refl

  inner_next :
      (f : ℕ) (acc : List Item) (item : Item) (s next : Text)
      → Leads is_bare_start s
      → parse_item codecs false s ≡ (some item, b' ' ∷ next)
      → Leads is_bare_start next
      → inner_items codecs (suc f) acc s ≡ inner_items codecs f (acc ++ item ∷ []) next
  unfolding inner_items
  inner_next f acc item [] next l h n = absurd l
  inner_next f acc item (c ∷ s) next l h n =
      let (_, _, paren, _, _) = bare_start-facts c l in
      rw (inner_items, skip_sp-bare (c ∷ s) l, paren, h, skip_sp-bare next n) refl

  inner_read :
      (f : ℕ) (acc : List Item) (item : Item) (items : List Item) (first more rest : Text)
      → length items < f
      → WellFormedItem item
      → All WellFormedItem items
      → serialize_item codecs item ≡ ok first
      → items_text codecs items ≡ ok more
      → inner_items codecs f acc (first ++ (more ++ b')' ∷ rest))
        ≡ some (some (acc ++ item ∷ items), rest)
  inner_read zero acc item items first more rest lt w ws h k = absurd (omega arith)
  inner_read (suc f) acc item [] first more rest lt w ws h k =
      let same : more ≡ [] = unfold items_text in ground arith in
      rw same (
        inner_last f acc item (first ++ b')' ∷ rest) rest
          (serialize_item-Leads item first (b')' ∷ rest) h)
          (parse_item-serialize false item first (b')' ∷ rest) w h (unfold follows in refl)))
  inner_read (suc f) acc item (i ∷ is) first more rest lt w (wi, ws) h k =
      let (t, r, te, re, same) = items_text-split i is more k in
      let next = t ++ (r ++ b')' ∷ rest) in
      let leads = serialize_item-Leads i t (r ++ b')' ∷ rest) te in
      let blank : follows false (b' ' ∷ next) ≡ true =
        unfold follows in ground (arith, bare-goes_on next leads) in
      rw (same, append_assoc t r (b')' ∷ rest))
        (inner_next f acc item (first ++ b' ' ∷ next) next
            (serialize_item-Leads item first (b' ' ∷ next) h)
            (parse_item-serialize false item first (b' ' ∷ next) w h blank) leads
          ∙ inner_read f (acc ++ item ∷ []) i is t r rest (omega arith) wi ws te re
          ∙ ap (λ l. some (some l, rest)) (append_assoc acc (item ∷ []) (i ∷ is)))

  length-items_text :
      (items : List Item) (text : Text)
      → items_text codecs items ≡ ok text
      → length items ≤ length text
  length-items_text [] text h = omega arith
  length-items_text (i ∷ is) text h =
      let (first, more, _, me, same) = items_text-split i is text h in
      rw same (omega (arith, length-items_text is more me, length-append first more))

  -- Behind the opening parenthesis, the items of an inner list are read up to the closing one.
  pub parse_items-inner_text :
      (items : List Item) (text rest : Text)
      → All WellFormedItem items
      → inner_text codecs items ≡ ok text
      → parse_items codecs (text ++ b')' ∷ rest) ≡ (some items, rest)
  unfolding inner_text parse_items
  parse_items-inner_text [] text rest w h =
      let same : text ≡ [] = ground arith in rw same (unfold inner_items skip_sp in refl)
  parse_items-inner_text (i ∷ is) text rest (wi, ws) h =
      elim (Result-cases (serialize_item codecs i)) [
        | inr (bad, n) ↦ absurd (ground arith)
        | inl (first, n) ↦ elim (Result-cases (items_text codecs is)) [
          | inr (bad, m) ↦ absurd (ground arith)
          | inl (more, m) ↦
              let same : text ≡ first ++ more = ground (arith, n, m) in
              rw (same, append_assoc first more (b')' ∷ rest))
                (ap (λ x. finished x (first ++ (more ++ b')' ∷ rest)))
                  (inner_read (suc (length (first ++ (more ++ b')' ∷ rest)))) [] i is first more
                    rest
                    (omega (
                      arith,
                      length-items_text is more m,
                      length-append first (more ++ b')' ∷ rest),
                      length-append more (b')' ∷ rest),
                    ))
                    wi ws n m))
        ]
      ]
