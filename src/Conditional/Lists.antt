-- ===== src/Conditional/Lists.antt =====
-- Reading the list of entity tags of If-Match and If-None-Match.
use http_rfc_utils.Common.{
  ℕ, zero, suc, ◌≤◌, Bool, true, false, List, [], ◌∷◌, ◌++◌, some, ◌≡◌, ◌≢◌, refl, sym, arith, ap,
  if◌then◌else◌, length, length-append, append_assoc, append-nil, All,
}
use http_rfc_utils.Text.{Text, trim, trim_start, trim_end, strip_prefix, cut_at, text_eq, is_space}
use http_rfc_utils.Text.Laws.{trim_bounded}
use http_rfc_utils.Etag.{ETag, quote, quoted, is_etag_char, is_valid_etag_value}
use http_rfc_utils.Etag.Format.{parse_etag-quoted}
use http_rfc_utils.Conditional.{
  tags, skip_blanks, opening, read_tag, finished, more, behind_comma, after_tag, read_tags,
  read_condition, parse_if_none_match,
}

abbrev pub IsTag : ETag → Type 0
IsTag etag = is_valid_etag_value etag.value ≡ true

-- The text of a list of tags, separated by a comma and a blank.
pub format_tags : List ETag → Text
format_tags [] = []
format_tags (e ∷ []) = quoted e.weak e.value
format_tags (e ∷ f ∷ es) = quoted e.weak e.value ++ (b',' ∷ b' ' ∷ format_tags (f ∷ es))

cut_at-append :
    (v rest : Text)
    → is_valid_etag_value v ≡ true
    → cut_at quote (v ++ (quote ∷ rest)) ≡ some (v, rest)
unfolding cut_at is_valid_etag_value is_etag_char
cut_at-append [] rest h = refl
cut_at-append (c ∷ v) rest h = ground (arith, cut_at-append v rest)

read_tag-quoted :
    (weak : Bool) (v rest : Text)
    → is_valid_etag_value v ≡ true
    → read_tag (quoted weak v ++ rest) ≡ some (record { weak = weak; value = v }, rest)
unfolding read_tag opening strip_prefix quoted
read_tag-quoted true v rest h =
    ground
      (arith, append_assoc v (quote ∷ []) rest, cut_at-append v rest h, parse_etag-quoted true v h)
read_tag-quoted false v rest h =
    ground
      (arith, append_assoc v (quote ∷ []) rest, cut_at-append v rest h, parse_etag-quoted false v h)

format_tags-cons :
    (e f : ETag) (es : List ETag)
    → format_tags (e ∷ f ∷ es) ≡ quoted e.weak e.value ++ (b',' ∷ b' ' ∷ format_tags (f ∷ es))
unfolding format_tags
format_tags-cons e f es = refl

abbrev lead : Bool → ℕ
lead weak = if weak then b'W' else quote

abbrev body : Bool → Text → Text
body weak v = if weak then b'/' ∷ quote ∷ v else v

quoted-bounds : (weak : Bool) (v : Text) → quoted weak v ≡ lead weak ∷ (body weak v ++ quote ∷ [])
unfolding quoted
quoted-bounds true v = refl
quoted-bounds false v = refl

-- A list of tags begins with "W" or a quote and ends with a quote.
format_tags-bounds :
    (e : ETag) (es : List ETag)
    → (s : Text) × (format_tags (e ∷ es) ≡ lead e.weak ∷ (s ++ quote ∷ []))
unfolding format_tags
format_tags-bounds e [] = (body e.weak e.value, quoted-bounds e.weak e.value)
format_tags-bounds e (f ∷ es) =
    let (s, h) = format_tags-bounds f es in
    (
      (body e.weak e.value ++ quote ∷ []) ++ (b',' ∷ b' ' ∷ lead f.weak ∷ s),
      rw (quoted-bounds e.weak e.value, h)
          (ap (λ r. lead e.weak ∷ r)
            (sym (
              append_assoc (body e.weak e.value ++ quote ∷ []) (b',' ∷ b' ' ∷ lead f.weak ∷ s)
                (quote ∷ [])))),
    )

lead-not_space : (weak : Bool) → is_space (lead weak) ≡ false
unfolding is_space
lead-not_space true = refl
lead-not_space false = refl

trim-format_tags : (e : ETag) (es : List ETag) → trim (format_tags (e ∷ es)) ≡ format_tags (e ∷ es)
trim-format_tags e es =
    let (s, h) = format_tags-bounds e es in
    rw h (trim_bounded (lead e.weak) quote s (lead-not_space e.weak) (lead-not_space false))

-- Between two tags the loop stops at the second.
after_tag-comma :
    (e : ETag) (es : List ETag)
    → after_tag (skip_blanks (b',' ∷ b' ' ∷ format_tags (e ∷ es))) ≡ more (format_tags (e ∷ es))
unfolding after_tag skip_blanks behind_comma
after_tag-comma e es = let (s, h) = format_tags-bounds e es in rw h (go e.weak s)
  where
    go :
        (weak : Bool) (s : Text)
        → after_tag (skip_blanks (b',' ∷ b' ' ∷ lead weak ∷ (s ++ quote ∷ [])))
          ≡ more (lead weak ∷ (s ++ quote ∷ []))
    go true s = refl
    go false s = refl

after_tag-nil : after_tag (skip_blanks []) ≡ finished
unfolding after_tag skip_blanks
after_tag-nil = refl

read_tags-format_tags :
    (f : ℕ) (acc : List ETag) (e : ETag) (es : List ETag)
    → All IsTag (e ∷ es)
    → length (e ∷ es) ≤ f
    → read_tags f acc (format_tags (e ∷ es)) ≡ some (acc ++ (e ∷ es))
unfolding read_tags format_tags
read_tags-format_tags zero acc e es h l = absurd (omega arith)
read_tags-format_tags (suc f) acc e [] (h, _) l =
    ground (
      arith,
      append-nil (quoted e.weak e.value),
      read_tag-quoted e.weak e.value [] h,
      after_tag-nil,
    )
read_tags-format_tags (suc f) acc e (g ∷ es) (h, hs) l = ground (
  arith,
  read_tag-quoted e.weak e.value (b',' ∷ b' ' ∷ format_tags (g ∷ es)) h,
  after_tag-comma g es,
  read_tags-format_tags f (acc ++ e ∷ []) g es hs (omega arith),
  append_assoc acc (e ∷ []) (g ∷ es),
)

length-le-format_tags :
    (e : ETag) (es : List ETag) → length (e ∷ es) ≤ length (format_tags (e ∷ es))
unfolding format_tags
length-le-format_tags e [] = rw (quoted-bounds e.weak e.value) (omega arith)
length-le-format_tags e (g ∷ es) = rw (quoted-bounds e.weak e.value) (
    omega (
      arith,
      length-append {0} (body e.weak e.value ++ quote ∷ []) (b',' ∷ b' ' ∷ format_tags (g ∷ es)),
      length-le-format_tags g es,
    ))

read_condition-tags :
    (t : Text) (etags : List ETag) (c : ℕ) (s : Text)
    → t ≡ c ∷ s
    → c ≢ b'*'
    → read_tags (length t) [] t ≡ some etags
    → read_condition t ≡ tags etags
unfolding read_condition text_eq
read_condition-tags [] etags c s e h r = cc
read_condition-tags (d ∷ t) etags c s e h r = ground arith

lead-not_star : (weak : Bool) → lead weak ≢ b'*'
lead-not_star true = omega arith
lead-not_star false = omega arith

-- A list of valid tags, each written by `formatETag` and separated by a comma and a blank, is read
-- back tag for tag, in order; the empty header is the empty list.
pub parse_if_none_match-format_tags :
    (etags : List ETag) → All IsTag etags → parse_if_none_match (format_tags etags) ≡ tags etags
unfolding parse_if_none_match
parse_if_none_match-format_tags [] h =
    unfold format_tags trim trim_start trim_end read_condition in refl
parse_if_none_match-format_tags (e ∷ es) h =
    let (s, b) = format_tags-bounds e es in
    rw (trim-format_tags e es) (
      read_condition-tags (format_tags (e ∷ es)) (e ∷ es) (lead e.weak) (s ++ quote ∷ []) b
        (lead-not_star e.weak) (read_tags-format_tags _ [] e es h (length-le-format_tags e es)))
