-- ===== src/StructuredFields/Fuel.antt =====
-- The loops of the parser end by themselves: each round leaves fewer units, so that the rounds that
-- they are given are enough on every text.
use http_rfc_utils.Common.{
  ℕ, zero, suc, ◌<◌, ◌≤◌, Bool, true, false, List, [], ◌∷◌, ◌++◌, some, ◌≡◌, ap, arith, ◌==◌, inl,
  inr, length,
}
use http_rfc_utils.Text.{Text}
use http_rfc_utils.StructuredFields.{boolean, Params, Item, Member, Dictionary, Codecs, set_entry}
use http_rfc_utils.StructuredFields.Parser.{
  skip_ows, skip_sp, skip_if, parse_key, parse_bare_item, parse_parameter_value,
  parse_parameters_from, parse_parameters, parse_item, inner_items, parse_items, parse_inner_list,
  parse_member, list_from, parse_list, parse_entry_value, dictionary_from, parse_dictionary,
}
use http_rfc_utils.StructuredFields.Rounds.{
  Keeps, Settles, Shortens-Keeps, if-Keeps, on_read-Keeps, uncons-Keeps, answer-Settles, if-Settles,
  on_round-Settles, uncons-Settles, Settles-more, Settles-finished, Text-cases,
}
use http_rfc_utils.StructuredFields.Shorter.{
  length-skip_ows, length-skip_sp, parse_key-Shortens, parse_bare_item-Shortens,
}

length-skip_if : (a : Bool) (s : Text) → length (skip_if a s) ≤ length s
length-skip_if true s = length-skip_ows s
length-skip_if false s = omega arith

module _ (codecs : Codecs) where
  parse_bare_item-Keeps : (n : ℕ) (s : Text) → length s ≤ n → Keeps n (parse_bare_item codecs s)
  parse_bare_item-Keeps n s =
      Shortens-Keeps n (parse_bare_item codecs s) s (parse_bare_item-Shortens codecs s)

  parse_parameter_value-Keeps :
      (n : ℕ) (s : Text) → length s ≤ n → Keeps n (parse_parameter_value codecs s)
  unfolding parse_parameter_value
  parse_parameter_value-Keeps n s h = elim (Text-cases (skip_ows s)) [
    | inl e ↦ rw (parse_parameter_value, e) h
    | inr (c, r, e) ↦
        let shorter = length-skip_ows s in
        let value =
          parse_bare_item-Keeps n (skip_ows r)
            (omega (arith, shorter, ap length e, length-skip_ows r, h)) in
        rw (parse_parameter_value, e)
          (if-Keeps n (c == b'=') (parse_bare_item codecs (skip_ows r)) (some (boolean true), s)
            value h)
  ]

  -- Of two numbers of rounds that both exceed the length, it does not matter which is given.
  parameters-Settles :
      (f g : ℕ) (a : Bool) (params : Params) (s : Text)
      → length s < f
      → length s < g
      → Settles
          (length s)
          (parse_parameters_from codecs f a params s)
          (parse_parameters_from codecs g a params s)
  unfolding parse_parameters_from
  parameters-Settles zero g a params s h k = absurd (omega arith)
  parameters-Settles (suc f) zero a params s h k = absurd (omega arith)
  parameters-Settles (suc f) (suc g) a params s h k = elim (Text-cases (skip_if a s)) [
    | inl e ↦ rw (parse_parameters_from, e) (answer-Settles (length s) _ (omega arith))
    | inr (c, r, e) ↦
        let shorter : suc (length r) ≤ length s = omega (arith, length-skip_if a s, ap length e) in
        rw (parse_parameters_from, e)
          (if-Settles (length s) (c == b';') _ _ _ _
            (Settles-more (length r) (length s) _ _
              (on_round-Settles (length r) (parse_key (skip_ows r)) _ _
                (Shortens-Keeps (length r) (parse_key (skip_ows r)) (skip_ows r)
                  (parse_key-Shortens (skip_ows r)) (length-skip_ows r))
                (λ key r1 le1.
                  on_round-Settles (length r) (parse_parameter_value codecs r1) _ _
                    (parse_parameter_value-Keeps (length r) r1 le1)
                    (λ v r2 le2.
                      Settles-more (length r2) (length r) _ _
                        (parameters-Settles f g a (set_entry params key v) r2 (omega arith)
                          (omega arith))
                        le2)))
              (omega (arith, shorter)))
            (answer-Settles (length s) _ shorter))
  ]

  parameters_finished :
      (f : ℕ) (a : Bool) (s : Text)
      → length s < f
      → (parse_parameters_from codecs f a [] s ≡ some (parse_parameters codecs a s))
        × Keeps (length s) (parse_parameters codecs a s)
  unfolding parse_parameters
  parameters_finished f a s h =
      Settles-finished (length s) _ _ s
        (parameters-Settles (suc (length s)) f a [] s (omega arith) h)

  parse_parameters-Keeps :
      (n : ℕ) (a : Bool) (s : Text) → length s ≤ n → length (parse_parameters codecs a s).1 ≤ n
  parse_parameters-Keeps n a s h =
      omega (arith, (parameters_finished (suc (length s)) a s (omega arith)).1)

  parse_item-Keeps : (n : ℕ) (a : Bool) (s : Text) → length s ≤ n → Keeps n (parse_item codecs a s)
  unfolding parse_item
  parse_item-Keeps n a s h =
      on_read-Keeps n (parse_bare_item codecs s) _ (parse_bare_item-Keeps n s h)
        (λ v r le. parse_parameters-Keeps n a r le)

  inner_items-Settles :
      (f g : ℕ) (items : List Item) (s : Text)
      → length s < f
      → length s < g
      → Settles (length s) (inner_items codecs f items s) (inner_items codecs g items s)
  unfolding inner_items
  inner_items-Settles zero g items s h k = absurd (omega arith)
  inner_items-Settles (suc f) zero items s h k = absurd (omega arith)
  inner_items-Settles (suc f) (suc g) items s h k =
      let n = length s in
      uncons-Settles n (skip_sp s) _ _ _ _ (length-skip_sp s) (answer-Settles _ _ (omega arith))
        (λ c r le. if-Settles n (c == b')') _ _ _ _ (answer-Settles _ _ (omega arith)) (
          on_round-Settles n (parse_item codecs false (c ∷ r)) _ _
            (parse_item-Keeps n false (c ∷ r) le)
            (λ item behind le1.
              uncons-Settles n behind _ _ _ _ le1 (answer-Settles _ _ (omega arith)) (λ d more le2.
                if-Settles n (d == b')') _ _ _ _ (answer-Settles _ _ (omega arith)) (
                  if-Settles n (d == b' ') _ _ _ _
                    (Settles-more (length (skip_sp more)) n _ _
                      (inner_items-Settles f g (items ++ item ∷ []) (skip_sp more)
                        (omega (arith, length-skip_sp more)) (omega (arith, length-skip_sp more)))
                      (omega (arith, length-skip_sp more)))
                    (answer-Settles n _ le2))))))

  items_finished :
      (f : ℕ) (s : Text)
      → length s < f
      → (inner_items codecs f [] s ≡ some (parse_items codecs s))
        × Keeps (length s) (parse_items codecs s)
  unfolding parse_items
  items_finished f s h =
      Settles-finished (length s) _ _ s
        (inner_items-Settles (suc (length s)) f [] s (omega arith) h)

  parse_inner_list-Keeps : (n : ℕ) (s : Text) → length s ≤ n → Keeps n (parse_inner_list codecs s)
  unfolding parse_inner_list
  parse_inner_list-Keeps n s h =
      on_read-Keeps n (parse_items codecs s) _
        (omega (arith, (items_finished (suc (length s)) s (omega arith)).1))
        (λ items r le. parse_parameters-Keeps n true r le)

  parse_member-Keeps : (n : ℕ) (s : Text) → length s ≤ n → Keeps n (parse_member codecs s)
  unfolding parse_member
  parse_member-Keeps n [] h = omega arith
  parse_member-Keeps n (c ∷ s) h =
      if-Keeps n (c == b'(') _ _ (parse_inner_list-Keeps n s (omega arith)) (
        on_read-Keeps n (parse_item codecs true (c ∷ s)) _ (parse_item-Keeps n true (c ∷ s) h)
          (λ item r le. le))

  parse_entry_value-Keeps : (n : ℕ) (s : Text) → length s ≤ n → Keeps n (parse_entry_value codecs s)
  unfolding parse_entry_value
  parse_entry_value-Keeps n s h =
      let flag = parse_parameters-Keeps n true (skip_ows s) (omega (arith, length-skip_ows s)) in
      uncons-Keeps n (skip_ows s) _ _ (omega (arith, length-skip_ows s)) flag (λ c r le.
        if-Keeps n (c == b'=') _ _
          (parse_member-Keeps n (skip_ows r) (omega (arith, length-skip_ows r))) flag)

  list_from-Settles :
      (f g : ℕ) (members : List Member) (s : Text)
      → length s < f
      → length s < g
      → Settles (length s) (list_from codecs f members s) (list_from codecs g members s)
  unfolding list_from
  list_from-Settles zero g members s h k = absurd (omega arith)
  list_from-Settles (suc f) zero members s h k = absurd (omega arith)
  list_from-Settles (suc f) (suc g) members s h k =
      let n = length s in
      uncons-Settles n (skip_ows s) _ _ _ _ (length-skip_ows s) (answer-Settles _ _ (omega arith))
        (λ c r le.
          on_round-Settles n (parse_member codecs (c ∷ r)) _ _ (parse_member-Keeps n (c ∷ r) le)
            (λ m behind le1.
              uncons-Settles n (skip_ows behind) _ _ _ _ (omega (arith, length-skip_ows behind))
                (answer-Settles _ _ (omega arith))
                (λ d more le2.
                  if-Settles n (d == b',') _ _ _ _
                    (Settles-more (length more) n _ _
                      (uncons-Settles (length more) (skip_ows more) _ _ _ _ (length-skip_ows more)
                        (answer-Settles _ _ (omega arith))
                        (λ e next le3.
                          Settles-more (length (e ∷ next)) (length more) _ _
                            (list_from-Settles f g (members ++ m ∷ []) (e ∷ next) (omega arith)
                              (omega arith))
                            le3))
                      (omega (arith, le2)))
                    (answer-Settles n _ le2))))

  dictionary_from-Settles :
      (f g : ℕ) (dict : Dictionary) (s : Text)
      → length s < f
      → length s < g
      → Settles (length s) (dictionary_from codecs f dict s) (dictionary_from codecs g dict s)
  unfolding dictionary_from
  dictionary_from-Settles zero g dict s h k = absurd (omega arith)
  dictionary_from-Settles (suc f) zero dict s h k = absurd (omega arith)
  dictionary_from-Settles (suc f) (suc g) dict s h k =
      let n = length s in
      uncons-Settles n (skip_ows s) _ _ _ _ (length-skip_ows s) (answer-Settles _ _ (omega arith))
        (λ c r le.
          on_round-Settles n (parse_key (c ∷ r)) _ _
            (Shortens-Keeps n (parse_key (c ∷ r)) (c ∷ r) (parse_key-Shortens (c ∷ r)) le)
            (λ key behind le0.
              on_round-Settles n (parse_entry_value codecs behind) _ _
                (parse_entry_value-Keeps n behind le0)
                (λ v after le1.
                  uncons-Settles n (skip_ows after) _ _ _ _ (omega (arith, length-skip_ows after))
                    (answer-Settles _ _ (omega arith))
                    (λ d more le2.
                      if-Settles n (d == b',') _ _ _ _
                        (Settles-more (length more) n _ _
                          (uncons-Settles (length more) (skip_ows more) _ _ _ _
                            (length-skip_ows more) (answer-Settles _ _ (omega arith))
                            (λ e next le3.
                              Settles-more (length (e ∷ next)) (length more) _ _
                                (dictionary_from-Settles f g (set_entry dict key v) (e ∷ next)
                                  (omega arith) (omega arith))
                                le3))
                          (omega (arith, le2)))
                        (answer-Settles n _ le2)))))

  -- Every loop of the parser ends by itself: with any number of rounds above the length of the text
  -- it has an answer, which is a result or a null and no lack of fuel, and it is the answer that the
  -- method gives.
  pub parser_total :
      (f : ℕ) (a : Bool) (s : Text)
      → length s < f
      → (list_from codecs f [] s ≡ some (parse_list codecs s))
        × (dictionary_from codecs f [] s ≡ some (parse_dictionary codecs s))
        × (inner_items codecs f [] s ≡ some (parse_items codecs s))
        × (parse_parameters_from codecs f a [] s ≡ some (parse_parameters codecs a s))
  unfolding parse_list parse_dictionary
  parser_total f a s h = (
    (Settles-finished (length s) _ _ s
        (list_from-Settles (suc (length s)) f [] s (omega arith) h)).0,
    (Settles-finished (length s) _ _ s
        (dictionary_from-Settles (suc (length s)) f [] s (omega arith) h)).0,
    (items_finished f s h).0,
    (parameters_finished f a s h).0,
  )
