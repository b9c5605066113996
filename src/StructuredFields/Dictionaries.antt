-- ===== src/StructuredFields/Dictionaries.antt =====
-- Dictionaries are read back from the text that is written for them.
use http_rfc_utils.Common.{
  ℕ, zero, suc, ◌<◌, ◌≤◌, true, [], ◌∷◌, ◌++◌, some, ◌≡◌, refl, ap, ◌∙◌, arith, All, Bool-cases,
  inl, inr, append_assoc, and_split, all, length, length-append,
}
use http_rfc_utils.Common.Results.{ok, Result-cases}
use http_rfc_utils.Text.{Text}
use http_rfc_utils.StructuredFields.{
  Member, Dictionary, Codecs, is_ows, is_sf_key_text, is_key_start, is_key_char,
}
use http_rfc_utils.StructuredFields.Parser.{
  skip_ows, parse_key, parse_entry_value, at_end, dictionary_from, parse_dictionary, parse_sf_dict,
}
use http_rfc_utils.StructuredFields.Serializer.{
  entry_value_text, entry_text, entries_text, serialize_sf_dict,
}
use http_rfc_utils.StructuredFields.Bare.{Leads}
use http_rfc_utils.StructuredFields.Delimiters.{
  follows, parse_key-append, skip_ows-Stops, key_start-no_ows,
}
use http_rfc_utils.StructuredFields.Entries.{
  Lacking, Distinct, Apart, set_entry-Lacking, Apart-append, Apart-nil,
}
use http_rfc_utils.StructuredFields.Members.{WellFormedMember, entry_value_text-read}

entry_starts : (key s : Text) → is_sf_key_text key ≡ true → Leads is_key_start (key ++ s)
unfolding is_sf_key_text
entry_starts [] s h = absurd (ground arith)
entry_starts (c ∷ key) s h = (and_split (is_key_start c) (all is_key_char key) h).0

skip_ows-key : (s : Text) → Leads is_key_start s → skip_ows s ≡ s
skip_ows-key [] h = absurd h
skip_ows-key (c ∷ s) h = skip_ows-Stops (c ∷ s) (key_start-no_ows c h)

module _ (codecs : Codecs) where
  -- The text of an entry, taken apart.
  entry_text-split :
      (key : Text) (m : Member) (text : Text)
      → entry_text codecs (key, m) ≡ ok text
      → (behind : Text) × (is_sf_key_text key ≡ true)
        × (entry_value_text codecs m ≡ ok behind)
        × (text ≡ key ++ behind)
  unfolding entry_text
  entry_text-split key m text h = elim (Bool-cases (is_sf_key_text key)) [
    | inr e ↦ absurd (ground arith)
    | inl e ↦ elim (Result-cases (entry_value_text codecs m)) [
      | inr (bad, n) ↦ absurd (ground arith)
      | inl (behind, n) ↦ (behind, e, n, ground (arith, e, n))
    ]
  ]

  entries_text-split :
      (e : Text × Member) (es : Dictionary) (text : Text)
      → entries_text codecs (e ∷ es) ≡ ok text
      → (first : Text) × (more : Text) × (entry_text codecs e ≡ ok first)
        × (entries_text codecs es ≡ ok more)
        × (text ≡ b',' ∷ b' ' ∷ first ++ more)
  unfolding entries_text
  entries_text-split e es text h = elim (Result-cases (entry_text codecs e)) [
    | inr (bad, n) ↦ absurd (ground arith)
    | inl (first, n) ↦ elim (Result-cases (entries_text codecs es)) [
      | inr (bad, k) ↦ absurd (ground arith)
      | inl (more, k) ↦ (first, more, n, k, ground (arith, n, k))
    ]
  ]

  length-entries_text :
      (es : Dictionary) (text : Text) → entries_text codecs es ≡ ok text → length es ≤ length text
  length-entries_text [] text h = omega arith
  length-entries_text (e ∷ es) text h =
      let (first, more, _, me, same) = entries_text-split e es text h in
      rw same (omega (arith, length-entries_text es more me, length-append first more))

  -- The key and the value of an entry are read, up to the text behind it.
  ReadsEntry : Text → Text → Member → Text → Type 0
  ReadsEntry s key m rest =
      Leads is_key_start s
      × (behind : Text) × (parse_key s ≡ (some key, behind))
      × (parse_entry_value codecs behind ≡ (some m, rest))

  entry_text-ReadsEntry :
      (key : Text) (m : Member) (text rest : Text)
      → WellFormedMember codecs m
      → entry_text codecs (key, m) ≡ ok text
      → follows true rest ≡ true
      → ReadsEntry (text ++ rest) key m rest
  unfolding ReadsEntry
  entry_text-ReadsEntry key m text rest w h k =
      let (behind, valid, be, same) = entry_text-split key m text h in
      let (read, stops) = entry_value_text-read codecs m behind rest w be k in
      let (_, key_read) = parse_key-append key (behind ++ rest) valid stops in
      rw (same, append_assoc key behind rest)
        (entry_starts key (behind ++ rest) valid, behind ++ rest, key_read, read)

  dictionary_last :
      (f : ℕ) (acc : Dictionary) (key : Text) (m : Member) (s : Text)
      → Lacking key acc
      → ReadsEntry s key m []
      → dictionary_from codecs (suc f) acc s ≡ some (some (acc ++ (key, m) ∷ []), [])
  unfolding dictionary_from ReadsEntry
  dictionary_last f acc key m [] n (l, _, _, _) = absurd l
  dictionary_last f acc key m (c ∷ s) n (l, behind, key_read, read) =
      rw (dictionary_from, skip_ows-key (c ∷ s) l, key_read, read)
        (unfold skip_ows in rw (set_entry-Lacking acc key m n) refl)

  dictionary_next :
      (f : ℕ) (acc : Dictionary) (key : Text) (m : Member) (s next : Text)
      → Lacking key acc
      → ReadsEntry s key m (b',' ∷ b' ' ∷ next)
      → Leads is_key_start next
      → dictionary_from codecs (suc f) acc s ≡ dictionary_from codecs f (acc ++ (key, m) ∷ []) next
  unfolding dictionary_from ReadsEntry skip_ows is_ows
  dictionary_next f acc key m [] next n (l, _, _, _) k = absurd l
  dictionary_next f acc key m s [] n r k = absurd k
  dictionary_next f acc key m (c ∷ s) (d ∷ next) n (l, behind, key_read, read) k =
      rw
        (
          dictionary_from,
          skip_ows-key (c ∷ s) l,
          key_read,
          read,
          skip_ows-key (d ∷ next) k,
          set_entry-Lacking acc key m n,
        )
        refl

  dictionary_read :
      (f : ℕ) (acc : Dictionary) (key : Text) (m : Member) (es : Dictionary) (first more : Text)
      → length es < f
      → All (λ e. WellFormedMember codecs e.1) ((key, m) ∷ es)
      → Distinct ((key, m) ∷ es)
      → Apart acc ((key, m) ∷ es)
      → entry_text codecs (key, m) ≡ ok first
      → entries_text codecs es ≡ ok more
      → dictionary_from codecs f acc (first ++ more) ≡ some (some (acc ++ (key, m) ∷ es), [])
  dictionary_read zero acc key m es first more lt w d a h k = absurd (omega arith)
  dictionary_read (suc f) acc key m [] first more lt (w, _) d (here, _) h k =
      let same : more ≡ [] = unfold entries_text in ground arith in
      rw same (
        dictionary_last f acc key m (first ++ []) here
          (entry_text-ReadsEntry key m first [] w h (unfold follows in refl)))
  dictionary_read (suc f) acc key m ((next_key, n) ∷ es) first more lt (w, ws) (fresh, d) (here, a)
        h k =
      let (t, r, te, re, same) = entries_text-split (next_key, n) es more k in
      let (behind, valid, _, split) = entry_text-split next_key n t te in
      rw same (
        dictionary_next f acc key m (first ++ b',' ∷ b' ' ∷ (t ++ r)) (t ++ r) here
          (entry_text-ReadsEntry key m first (b',' ∷ b' ' ∷ (t ++ r)) w h (unfold follows in refl))
          (rw (split, append_assoc next_key behind r) (entry_starts next_key (behind ++ r) valid))
        ∙ dictionary_read f (acc ++ (key, m) ∷ []) next_key n es t r (omega arith) ws d
            (Apart-append acc ((next_key, n) ∷ es) key m fresh a) te re
        ∙ ap (λ l. some (some l, [])) (append_assoc acc ((key, m) ∷ []) ((next_key, n) ∷ es)))

  -- A dictionary with distinct keys, whose values the codecs give back, whose dates have at most
  -- fifteen digits, and whose parameters are absent or nonempty with distinct keys, is read back
  -- from the text that is written for it.
  pub parse_sf_dict-serialize_sf_dict :
      (dict : Dictionary) (text : Text)
      → Distinct dict
      → All (λ e. WellFormedMember codecs e.1) dict
      → serialize_sf_dict codecs dict ≡ ok text
      → parse_sf_dict codecs text ≡ some dict
  unfolding serialize_sf_dict parse_sf_dict parse_dictionary
  parse_sf_dict-serialize_sf_dict [] text d w h =
      let same : text ≡ [] = ground arith in
      rw same (unfold dictionary_from skip_ows at_end in refl)
  parse_sf_dict-serialize_sf_dict ((key, m) ∷ es) text d w h =
      elim (Result-cases (entry_text codecs (key, m))) [
        | inr (bad, n) ↦ absurd (ground arith)
        | inl (first, n) ↦ elim (Result-cases (entries_text codecs es)) [
          | inr (bad, k) ↦ absurd (ground arith)
          | inl (more, k) ↦
              let same : text ≡ first ++ more = ground (arith, n, k) in
              rw
                (
                  same,
                  dictionary_read (suc (length (first ++ more))) [] key m es first more
                      (omega (arith, length-entries_text es more k, length-append first more)) w d
                      (Apart-nil ((key, m) ∷ es)) n k,
                )
                (unfold at_end skip_ows in refl)
        ]
      ]
