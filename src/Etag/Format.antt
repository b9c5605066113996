-- ===== src/Etag/Format.antt =====
-- `parseETag` and `formatETag` undo one another, up to blanks around the text.
use http_rfc_utils.Common.{
  ℕ, Bool, true, false, [], ◌∷◌, ◌++◌, some, ◌≡◌, ◌↔◌, refl, arith, ap, ◌⊎◌, inl, inr, ◌==◌, any,
  if◌then◌else◌, Option-cases,
}
use http_rfc_utils.Common.Results.{ok}
use http_rfc_utils.Text.{Text, codes, trim, trim_start, trim_end, is_space, strip_prefix}
use http_rfc_utils.Text.Laws.{trim_bounded}
use http_rfc_utils.Etag.{
  ETag, quote, is_etag_char, is_valid_etag_value, quoted, ends_with, drop_last, unquoted,
  parse_opaque, parse_trimmed, parse_etag, format_etag,
}

-- The text of a tag with an empty value that lacks its second quote.
abbrev pub lone_quote : Bool → Text
lone_quote weak = (if weak then codes "W/" else []) ++ quote ∷ []

ends_with-append : (q : ℕ) (s : Text) → ends_with q (s ++ q ∷ []) ≡ true
unfolding ends_with
ends_with-append q [] = ground arith
ends_with-append q (c ∷ []) = ground arith
ends_with-append q (c ∷ d ∷ s) = ends_with-append q (d ∷ s)

drop_last-append : (q : ℕ) (s : Text) → drop_last (s ++ q ∷ []) ≡ s
unfolding drop_last
drop_last-append q [] = refl
drop_last-append q (c ∷ []) = refl
drop_last-append q (c ∷ d ∷ s) = ap (λ r. c ∷ r) (drop_last-append q (d ∷ s))

append-drop_last :
    (q c : ℕ) (s : Text) → ends_with q (c ∷ s) ≡ true → drop_last (c ∷ s) ++ q ∷ [] ≡ c ∷ s
unfolding ends_with drop_last
append-drop_last q c [] h = ground arith
append-drop_last q c (d ∷ s) h = ap (λ r. c ∷ r) (append-drop_last q d s h)

valid_has_no_quote : (v : Text) → is_valid_etag_value v ≡ true → any (λ c. c == quote) v ≡ false
unfolding is_valid_etag_value is_etag_char
valid_has_no_quote [] h = refl
valid_has_no_quote (c ∷ v) h = ground (arith, valid_has_no_quote v)

parse_opaque_of_valid :
    (weak : Bool) (v : Text)
    → is_valid_etag_value v ≡ true
    → parse_opaque weak (quote ∷ (v ++ quote ∷ [])) ≡ some (record { weak = weak; value = v })
unfolding parse_opaque unquoted
parse_opaque_of_valid weak v h =
    ground
      (arith, ends_with-append quote (quote ∷ v), drop_last-append quote v, valid_has_no_quote v)

parse_trimmed-quoted :
    (weak : Bool) (v : Text)
    → is_valid_etag_value v ≡ true
    → parse_trimmed (quoted weak v) ≡ some (record { weak = weak; value = v })
unfolding parse_trimmed quoted strip_prefix
parse_trimmed-quoted true v h = parse_opaque_of_valid true v h
parse_trimmed-quoted false v h = parse_opaque_of_valid false v h

parse_trimmed-lone_quote :
    (weak : Bool) → parse_trimmed (lone_quote weak) ≡ some (record { weak = weak; value = [] })
unfolding parse_trimmed strip_prefix parse_opaque unquoted ends_with drop_last is_valid_etag_value
parse_trimmed-lone_quote true = refl
parse_trimmed-lone_quote false = refl

pub trim-quoted : (weak : Bool) (v : Text) → trim (quoted weak v) ≡ quoted weak v
unfolding quoted is_space
trim-quoted true v = trim_bounded b'W' quote (b'/' ∷ quote ∷ v) refl refl
trim-quoted false v = trim_bounded quote quote v refl refl

pub parse_etag-quoted :
    (weak : Bool) (v : Text)
    → is_valid_etag_value v ≡ true
    → parse_etag (quoted weak v) ≡ some (record { weak = weak; value = v })
unfolding parse_etag
parse_etag-quoted true v h =
    unfold quoted in rw (trim-quoted true v) (parse_trimmed-quoted true v h)
parse_etag-quoted false v h =
    unfold quoted in rw (trim-quoted false v) (parse_trimmed-quoted false v h)

-- Every tag that `formatETag` accepts is read back from the text that it writes.
pub parse_etag-format_etag :
    (etag : ETag) (text : Text) → format_etag etag ≡ ok text → parse_etag text ≡ some etag
unfolding format_etag
parse_etag-format_etag etag text h = ground (arith, parse_etag-quoted etag.weak etag.value)

-- What the text between the quotes was, where `parseETag` finds quotes.
abbrev pub Reads : ETag → Text → Type 0
Reads etag trimmed =
    (is_valid_etag_value etag.value ≡ true)
    × ((trimmed ≡ quoted etag.weak etag.value)
        ⊎ ((etag.value ≡ []) × (trimmed ≡ lone_quote etag.weak)))

abbrev Unquotes : Text → Text → Type 0
Unquotes rest v = (rest ≡ quote ∷ (v ++ quote ∷ [])) ⊎ ((v ≡ []) × (rest ≡ quote ∷ []))

unquoted-Unquotes : (rest v : Text) → unquoted rest ≡ some v → Unquotes rest v
unfolding unquoted
unquoted-Unquotes [] v h = cc
unquoted-Unquotes (c ∷ []) v h = inr (unfold drop_last in ground arith, ground arith)
unquoted-Unquotes (c ∷ d ∷ s) v h =
    inl (unfold ends_with in ground (arith, append-drop_last quote d s))

parse_opaque_sound :
    (weak : Bool) (rest : Text) (etag : ETag)
    → parse_opaque weak rest ≡ some etag
    → (etag.weak ≡ weak) × (is_valid_etag_value etag.value ≡ true) × Unquotes rest etag.value
unfolding parse_opaque
parse_opaque_sound weak rest etag h = elim (Option-cases (unquoted rest)) [
  | inl no_quotes ↦ absurd (ground arith)
  | inr (v, e) ↦
      let same : etag.value ≡ v = ground arith in
      (ground arith, ground arith, rw same (unquoted-Unquotes rest v e))
]

strip_prefix-eq : (p s r : Text) → strip_prefix p s ≡ some r → s ≡ p ++ r
unfolding strip_prefix
strip_prefix-eq [] s r h = ground arith
strip_prefix-eq (c ∷ p) [] r h = cc
strip_prefix-eq (c ∷ p) (d ∷ s) r h = ground (arith, strip_prefix-eq p s r)

Unquotes-weak :
    (rest v : Text)
    → Unquotes rest v
    → (codes "W/" ++ rest ≡ quoted true v) ⊎ ((v ≡ []) × (codes "W/" ++ rest ≡ lone_quote true))
unfolding quoted
Unquotes-weak rest v (inl e) = inl (ap (λ r. codes "W/" ++ r) e)
Unquotes-weak rest v (inr (n, e)) = inr (n, ap (λ r. codes "W/" ++ r) e)

parse_trimmed_sound : (t : Text) (etag : ETag) → parse_trimmed t ≡ some etag → Reads etag t
unfolding parse_trimmed
parse_trimmed_sound t etag h = elim (Option-cases (strip_prefix (codes "W/") t)) [
  | inl strong ↦
      let (w, v, u) = parse_opaque_sound false t etag (ground arith) in (v, unfold quoted in rw w u)
  | inr (rest, e) ↦
      let (w, v, u) = parse_opaque_sound true rest etag (ground arith) in
      (v, rw (strip_prefix-eq _ t rest e, w) (Unquotes-weak rest etag.value u))
]

parse_trimmed_complete : (t : Text) (etag : ETag) → Reads etag t → parse_trimmed t ≡ some etag
parse_trimmed_complete t etag (v, inl e) = rw e (parse_trimmed-quoted etag.weak etag.value v)
parse_trimmed_complete t etag (v, inr (n, e)) =
    ground (arith, e, parse_trimmed-lone_quote etag.weak)

Reads-ne-nil : (etag : ETag) → ¬ (Reads etag [])
unfolding quoted
Reads-ne-nil etag (v, e) = ground arith

-- `parseETag` returns a tag exactly for a text that, trimmed, is the tag's quoted form, with every
-- character of the value in the range of RFC 9110; or that is a single quote, behind "W/" if the
-- tag is weak, and the value is empty.
pub parse_etag_iff :
    (text : Text) (etag : ETag) → (parse_etag text ≡ some etag) ↔ Reads etag (trim text)
unfolding parse_etag
parse_etag_iff [] etag =
    (λ h. cc, λ r. absurd (Reads-ne-nil etag (unfold trim trim_start trim_end in r)))
parse_etag_iff (c ∷ s) etag =
    (parse_trimmed_sound (trim (c ∷ s)) etag, parse_trimmed_complete (trim (c ∷ s)) etag)
