-- ===== src/StructuredFields/Lists.antt =====
-- Lists are read back from the text that is written for them.
use http_rfc_utils.Common.{
  ℕ, zero, suc, ◌<◌, ◌≤◌, List, [], ◌∷◌, ◌++◌, some, ◌≡◌, refl, ap, ◌∙◌, arith, All, inl, inr,
  append_assoc, length, length-append,
}
use http_rfc_utils.Common.Results.{ok, Result-cases}
use http_rfc_utils.Text.{Text}
use http_rfc_utils.StructuredFields.{Member, Codecs, is_ows}
use http_rfc_utils.StructuredFields.Parser.{
  skip_ows, parse_member, list_from, parse_list, at_end, parse_sf_list,
}
use http_rfc_utils.StructuredFields.Serializer.{serialize_member, members_text, serialize_sf_list}
use http_rfc_utils.StructuredFields.Bare.{Leads}
use http_rfc_utils.StructuredFields.Delimiters.{follows}
use http_rfc_utils.StructuredFields.Members.{
  is_member_start, skip_ows-member, WellFormedMember, serialize_member-Leads,
  parse_member-serialize,
}

module _ (codecs : Codecs) where
  members_text-split :
      (m : Member) (ms : List Member) (text : Text)
      → members_text codecs (m ∷ ms) ≡ ok text
      → (first : Text) × (more : Text) × (serialize_member codecs m ≡ ok first)
        × (members_text codecs ms ≡ ok more)
        × (text ≡ b',' ∷ b' ' ∷ first ++ more)
  unfolding members_text
  members_text-split m ms text h = elim (Result-cases (serialize_member codecs m)) [
    | inr (bad, n) ↦ absurd (ground arith)
    | inl (first, n) ↦ elim (Result-cases (members_text codecs ms)) [
      | inr (bad, k) ↦ absurd (ground arith)
      | inl (more, k) ↦ (first, more, n, k, ground (arith, n, k))
    ]
  ]

  length-members_text :
      (ms : List Member) (text : Text) → members_text codecs ms ≡ ok text → length ms ≤ length text
  length-members_text [] text h = omega arith
  length-members_text (m ∷ ms) text h =
      let (first, more, _, me, same) = members_text-split m ms text h in
      rw same (omega (arith, length-members_text ms more me, length-append first more))

  list_last :
      (f : ℕ) (acc : List Member) (m : Member) (s : Text)
      → Leads is_member_start s
      → parse_member codecs s ≡ (some m, [])
      → list_from codecs (suc f) acc s ≡ some (some (acc ++ m ∷ []), [])
  unfolding list_from
  list_last f acc m [] l h = absurd l
  list_last f acc m (c ∷ s) l h =
      rw (list_from, skip_ows-member (c ∷ s) l, h) (unfold skip_ows in refl)

  list_next :
      (f : ℕ) (acc : List Member) (m : Member) (s next : Text)
      → Leads is_member_start s
      → parse_member codecs s ≡ (some m, b',' ∷ b' ' ∷ next)
      → Leads is_member_start next
      → list_from codecs (suc f) acc s ≡ list_from codecs f (acc ++ m ∷ []) next
  unfolding list_from skip_ows is_ows
  list_next f acc m [] next l h n = absurd l
  list_next f acc m s [] l h n = absurd n
  list_next f acc m (c ∷ s) (d ∷ next) l h n =
      rw (list_from, skip_ows-member (c ∷ s) l, h, skip_ows-member (d ∷ next) n) refl

  list_read :
      (f : ℕ) (acc : List Member) (m : Member) (ms : List Member) (first more : Text)
      → length ms < f
      → WellFormedMember codecs m
      → All (WellFormedMember codecs) ms
      → serialize_member codecs m ≡ ok first
      → members_text codecs ms ≡ ok more
      → list_from codecs f acc (first ++ more) ≡ some (some (acc ++ m ∷ ms), [])
  list_read zero acc m ms first more lt w ws h k = absurd (omega arith)
  list_read (suc f) acc m [] first more lt w ws h k =
      let same : more ≡ [] = unfold members_text in ground arith in
      rw same (
        list_last f acc m (first ++ []) (serialize_member-Leads codecs m first [] h)
          (parse_member-serialize codecs m first [] w h (unfold follows in refl)))
  list_read (suc f) acc m (n ∷ ms) first more lt w (wn, ws) h k =
      let (t, r, te, re, same) = members_text-split n ms more k in
      rw same (
        list_next f acc m (first ++ b',' ∷ b' ' ∷ (t ++ r)) (t ++ r)
          (serialize_member-Leads codecs m first (b',' ∷ b' ' ∷ (t ++ r)) h)
          (parse_member-serialize codecs m first (b',' ∷ b' ' ∷ (t ++ r)) w h
            (unfold follows in refl))
          (serialize_member-Leads codecs n t r te)
        ∙ list_read f (acc ++ m ∷ []) n ms t r (omega arith) wn ws te re
        ∙ ap (λ l. some (some l, [])) (append_assoc acc (m ∷ []) (n ∷ ms)))

  -- A list whose values the codecs give back, whose dates have at most fifteen digits, and whose
  -- parameters are absent or nonempty with distinct keys, is read back from the text that is
  -- written for it.
  pub parse_sf_list-serialize_sf_list :
      (ms : List Member) (text : Text)
      → All (WellFormedMember codecs) ms
      → serialize_sf_list codecs ms ≡ ok text
      → parse_sf_list codecs text ≡ some ms
  unfolding serialize_sf_list parse_sf_list parse_list
  parse_sf_list-serialize_sf_list [] text w h =
      let same : text ≡ [] = ground arith in rw same (unfold list_from skip_ows at_end in refl)
  parse_sf_list-serialize_sf_list (m ∷ ms) text (wm, w) h =
      elim (Result-cases (serialize_member codecs m)) [
        | inr (bad, n) ↦ absurd (ground arith)
        | inl (first, n) ↦ elim (Result-cases (members_text codecs ms)) [
          | inr (bad, k) ↦ absurd (ground arith)
          | inl (more, k) ↦
              let same : text ≡ first ++ more = ground (arith, n, k) in
              rw
                (
                  same,
                  list_read (suc (length (first ++ more))) [] m ms first more
                      (omega (arith, length-members_text ms more k, length-append first more)) wm w
                      n k,
                )
                (unfold at_end skip_ows in refl)
        ]
      ]
