-- ===== src/StructuredFields/Parameters.antt =====
-- Parameters are read back from the text that is written for them.
use http_rfc_utils.Common.{
  ℕ, zero, suc, ◌<◌, ◌≤◌, Bool, true, false, [], ◌∷◌, ◌++◌, Option, some, none, ◌≡◌, ◌≢◌, refl, ap,
  ◌∙◌, arith, All, Bool-cases, inl, inr, append_assoc, append-nil, length, length-append,
}
use http_rfc_utils.Common.Results.{ok, Result-cases}
use http_rfc_utils.Text.{Text}
use http_rfc_utils.StructuredFields.{
  BareItem, boolean, Params, Codecs, is_key_char, is_ows, is_sf_key_text,
}
use http_rfc_utils.StructuredFields.Parser.{
  skip_ows, parse_parameter_value, found, finished, parse_parameters_from, parse_parameters,
}
use http_rfc_utils.StructuredFields.Serializer.{
  serialize_bare_item, is_true, value_text, params_text, serialize_params,
}
use http_rfc_utils.Text.Spans.{Stops}
use http_rfc_utils.StructuredFields.Bare.{
  Survives, parse_bare_item-serialize, serialize_bare_item-Leads,
}
use http_rfc_utils.StructuredFields.Delimiters.{
  follows, ends_value, ends_value-token, ends_value-key, ends_value-follows,
  parse_parameter_value-true, parse_parameter_value-bare, parse_key-append,
}
use http_rfc_utils.StructuredFields.Entries.{
  Lacking, Distinct, Apart, set_entry-Lacking, Apart-append, Apart-nil,
}

pub is_true-eq : (v : BareItem) → is_true v ≡ true → v ≡ boolean true
unfolding is_true
is_true-eq (boolean true) h = refl
is_true-eq (boolean false) h = absurd (ground arith)
is_true-eq _ h = absurd (ground arith)

-- `=` is no character of a key.
pub equals-Stops : (s : Text) → Stops is_key_char (b'=' ∷ s)
unfolding is_key_char
equals-Stops s = refl

module _ (codecs : Codecs) where
  -- What is written behind a key is read back, and ends the key.
  value_text-read :
      (a : Bool) (v : BareItem) (text rest : Text)
      → Survives codecs v
      → value_text codecs v ≡ ok text
      → ends_value a rest ≡ true
      → (parse_parameter_value codecs (text ++ rest) ≡ (some v, rest))
        × Stops is_key_char (text ++ rest)
  unfolding value_text
  value_text-read a v text rest w h k = elim (Bool-cases (is_true v)) [
    | inl e ↦
        let same : text ≡ [] = ground (arith, e) in
        rw (same, is_true-eq v e)
          (parse_parameter_value-true codecs a rest k, ends_value-key a rest k)
    | inr e ↦ elim (Result-cases (serialize_bare_item codecs v)) [
      | inr (bad, n) ↦ absurd (ground arith)
      | inl (t, n) ↦
          let same : text ≡ b'=' ∷ t = ground (arith, e, n) in
          rw same (
            parse_parameter_value-bare codecs (t ++ rest)
                  (serialize_bare_item-Leads codecs v t rest n)
                ∙ parse_bare_item-serialize codecs v t rest w n (ends_value-token a rest k),
            equals-Stops (t ++ rest),
          )
    ]
  ]

  -- The codecs give the values of all parameters back.
  abbrev pub AllSurvive : Params → Type 0
  AllSurvive = All (λ p. Survives codecs p.1)

  params_text-ends :
      (a : Bool) (ps : Params) (text rest : Text)
      → params_text codecs ps ≡ ok text
      → follows a rest ≡ true
      → ends_value a (text ++ rest) ≡ true
  unfolding params_text
  params_text-ends a [] text rest h k =
      let same : text ≡ [] = ground arith in rw same (ends_value-follows a rest k)
  params_text-ends a ((key, v) ∷ ps) text rest h k = unfold ends_value in ground arith

  parameters_end :
      (f : ℕ) (a : Bool) (acc : Params) (rest : Text)
      → follows a rest ≡ true
      → parse_parameters_from codecs (suc f) a acc rest ≡ some (found acc, rest)
  unfolding parse_parameters_from follows
  parameters_end f true acc [] h = unfold skip_ows in refl
  parameters_end f false acc [] h = refl
  parameters_end f true acc (c ∷ s) h = unfold skip_ows is_ows in ground arith
  parameters_end f false acc (c ∷ s) h = ground arith

  parameters_round :
      (f : ℕ) (a : Bool) (acc : Params) (key : Text) (v : BareItem) (text rest : Text)
      → Lacking key acc
      → is_sf_key_text key ≡ true
      → Stops is_key_char (text ++ rest)
      → parse_parameter_value codecs (text ++ rest) ≡ (some v, rest)
      → parse_parameters_from codecs (suc f) a acc (b';' ∷ key ++ (text ++ rest))
        ≡ parse_parameters_from codecs f a (acc ++ (key, v) ∷ []) rest
  unfolding parse_parameters_from
  parameters_round f true acc key v text rest l valid k e =
      let (skip, read) = parse_key-append key (text ++ rest) valid k in
      unfold skip_ows is_ows in rw (skip, read, e, set_entry-Lacking acc key v l) refl
  parameters_round f false acc key v text rest l valid k e =
      let (skip, read) = parse_key-append key (text ++ rest) valid k in
      rw (skip, read, e, set_entry-Lacking acc key v l) refl

  -- The text of parameters, taken apart at the first.
  pub params_text-cons :
      (key : Text) (v : BareItem) (ps : Params) (text : Text)
      → params_text codecs ((key, v) ∷ ps) ≡ ok text
      → (first : Text) × (more : Text) × (is_sf_key_text key ≡ true)
        × (value_text codecs v ≡ ok first)
        × (params_text codecs ps ≡ ok more)
        × (text ≡ b';' ∷ key ++ first ++ more)
  unfolding params_text
  params_text-cons key v ps text h = elim (Bool-cases (is_sf_key_text key)) [
    | inr e ↦ absurd (ground arith)
    | inl e ↦ elim (Result-cases (value_text codecs v)) [
      | inr (bad, n) ↦ absurd (ground arith)
      | inl (first, n) ↦ elim (Result-cases (params_text codecs ps)) [
        | inr (bad, m) ↦ absurd (ground arith)
        | inl (more, m) ↦ (first, more, e, n, m, ground (arith, e, n, m))
      ]
    ]
  ]

  parameters_read :
      (f : ℕ) (a : Bool) (acc ps : Params) (text rest : Text)
      → length ps < f
      → AllSurvive ps
      → Distinct ps
      → Apart acc ps
      → params_text codecs ps ≡ ok text
      → follows a rest ≡ true
      → parse_parameters_from codecs f a acc (text ++ rest) ≡ some (found (acc ++ ps), rest)
  parameters_read zero a acc ps text rest lt w d ap h k = absurd (omega arith)
  parameters_read (suc f) a acc [] text rest lt w d ap h k =
      let same : text ≡ [] = unfold params_text in ground arith in
      rw (same, append-nil acc) (parameters_end f a acc rest k)
  parameters_read (suc f) a acc ((key, v) ∷ ps) text rest lt (wv, w) (fresh, d) (here, apart) h k =
      let (first, more, valid, fe, me, same) = params_text-cons key v ps text h in
      let ends = params_text-ends a ps more rest me k in
      let (read, stops) = value_text-read a v first (more ++ rest) wv fe ends in
      let ih =
        parameters_read f a (acc ++ (key, v) ∷ []) ps more rest (omega arith) w d
          (Apart-append acc ps key v fresh apart) me k in
      rw (same, append_assoc (key ++ first) more rest, append_assoc key first (more ++ rest))
        (parameters_round f a acc key v first (more ++ rest) here valid stops read
          ∙ ih
          ∙ ap (λ ps. some (found ps, rest)) (append_assoc acc ((key, v) ∷ []) ps))

  length-params_text :
      (ps : Params) (text : Text) → params_text codecs ps ≡ ok text → length ps ≤ length text
  length-params_text [] text h = omega arith
  length-params_text ((key, v) ∷ ps) text h =
      let (first, more, _, _, me, same) = params_text-cons key v ps text h in
      rw same (
        omega (
          arith,
          length-params_text ps more me,
          length-append (key ++ first) more,
          length-append key first,
        ))

  -- Parameters that a serializer accepts, and that a parser can return: none, or at least one, with
  -- distinct keys and values that the codecs give back.
  abbrev pub WellFormedParams : Option Params → Type 0
  WellFormedParams none = Unit
  WellFormedParams (some params) = (params ≢ []) × Distinct params × AllSurvive params

  found-ne-nil : (ps : Params) → ps ≢ [] → found ps ≡ some ps
  found-ne-nil [] n = absurd (n refl)
  found-ne-nil (p ∷ ps) n = refl

  pub parse_parameters-serialize :
      (a : Bool) (params : Option Params) (text rest : Text)
      → WellFormedParams params
      → serialize_params codecs params ≡ ok text
      → follows a rest ≡ true
      → (parse_parameters codecs a (text ++ rest) ≡ (params, rest))
        × (ends_value a (text ++ rest) ≡ true)
  unfolding parse_parameters serialize_params
  parse_parameters-serialize a none text rest w h k =
      let same : text ≡ [] = ground arith in
      rw same (
        ap (λ x. finished x rest) (parameters_end (length rest) a [] rest k),
        ends_value-follows a rest k,
      )
  parse_parameters-serialize a (some ps) text rest (n, d, s) h k = (
    ap (λ x. finished x (text ++ rest))
          (parameters_read (suc (length (text ++ rest))) a [] ps text rest
            (omega (arith, length-params_text ps text h, length-append text rest)) s d
            (Apart-nil ps) h k)
        ∙ ap (λ o. (o, rest)) (found-ne-nil ps n),
    params_text-ends a ps text rest h k,
  )
