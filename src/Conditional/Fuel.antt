-- ===== src/Conditional/Fuel.antt =====
-- The loop of `parseIfNoneMatch` ends: the fuel that it is given is enough.
use http_rfc_utils.Common.{
  ℕ, zero, suc, ◌+◌, ◌<◌, ◌≤◌, List, [], ◌∷◌, ◌++◌, some, ◌≡◌, refl, arith, ◌==◌, Bool-cases,
  Option-cases, length, inl, inr,
}
use http_rfc_utils.Text.{Text, codes, strip_prefix, cut_at}
use http_rfc_utils.Etag.{ETag, quote}
use http_rfc_utils.Conditional.{
  skip_blanks, opening, read_tag, After, finished, malformed, more, behind_comma, after_tag,
  read_tags,
}

strip_prefix-length : (p s r : Text) → strip_prefix p s ≡ some r → length s ≡ length p + length r
unfolding strip_prefix
strip_prefix-length [] s r h = ground arith
strip_prefix-length (c ∷ p) [] r h = cc
strip_prefix-length (c ∷ p) (d ∷ s) r h = ground (arith, strip_prefix-length p s r)

cut_at-length : (sep : ℕ) (s a b : Text) → cut_at sep s ≡ some (a, b) → length b < length s
unfolding cut_at
cut_at-length sep [] a b h = cc
cut_at-length sep (c ∷ s) a b h = elim (Bool-cases (c == sep)) [
  | inl e ↦ ground arith
  | inr ne ↦ elim (Option-cases (cut_at sep s)) [
    | inl missing ↦ absurd (ground arith)
    | inr ((a', b'), found) ↦ ground (arith, cut_at-length sep s a' b' found)
  ]
]

length-skip_blanks : (s : Text) → length (skip_blanks s) ≤ length s
unfolding skip_blanks
length-skip_blanks [] = omega arith
length-skip_blanks (c ∷ s) = ground (arith, length-skip_blanks s)

opening-length : (s o body : Text) → opening s ≡ some (o, body) → length body < length s
unfolding opening
opening-length s o body h =
    ground
      (arith, strip_prefix-length (codes "W/\"") s body, strip_prefix-length (codes "\"") s body)

read_tag-length :
    (s : Text) (e : ETag) (rest : Text) → read_tag s ≡ some (e, rest) → length rest < length s
unfolding read_tag
read_tag-length s e rest h = elim (Option-cases (opening s)) [
  | inl missing ↦ absurd (ground arith)
  | inr ((o, body), found) ↦ elim (Option-cases (cut_at quote body)) [
    | inl missing ↦ absurd (ground arith)
    | inr ((inner, r), cut) ↦
        ground (arith, opening-length s o body found, cut_at-length quote body inner r cut)
  ]
]

behind_comma-eq : (s next : Text) → behind_comma s ≡ more next → (0 < length s) × (next ≡ s)
unfolding behind_comma
behind_comma-eq [] next h = cc
behind_comma-eq (c ∷ s) next h = (omega arith, ground arith)

after_tag-length :
    (s next : Text) → after_tag s ≡ more next → (0 < length next) × (length next ≤ length s)
unfolding after_tag
after_tag-length [] next h = cc
after_tag-length (c ∷ s) next h = elim (Bool-cases (c == b',')) [
  | inl e ↦
      let (p, same) = behind_comma-eq (skip_blanks s) next (ground arith) in
      rw same (p, omega (arith, length-skip_blanks s))
  | inr ne ↦ absurd (ground arith)
]

-- With as many rounds as the text has units, the loop over a text that is not empty returns.
pub read_tags_total :
    (f : ℕ) (acc : List ETag) (s : Text)
    → 0 < length s
    → length s ≤ f
    → (r : List ETag) × (read_tags f acc s ≡ some r)
unfolding read_tags
read_tags_total zero acc s p h = absurd (omega arith)
read_tags_total (suc f) acc s p h = elim (Option-cases (read_tag s)) [
  | inl bad ↦ ([], ground arith)
  | inr ((e, rest), found) ↦ go (read_tags_total f) e rest found (after_tag (skip_blanks rest)) refl
]
  where
    Total : ℕ → Type 0
    Total n =
        (acc' : List ETag) (s' : Text)
        → 0 < length s'
        → length s' ≤ n
        → (r : List ETag) × (read_tags n acc' s' ≡ some r)

    go :
        Total f
        → (e : ETag) (rest : Text) → read_tag s ≡ some (e, rest)
        → (a : After) → after_tag (skip_blanks rest) ≡ a
        → (r : List ETag) × (read_tags (suc f) acc s ≡ some r)
    go later e rest found finished q = (acc ++ e ∷ [], ground arith)
    go later e rest found malformed q = ([], ground arith)
    go later e rest found (more next) q =
        let (p', l) = after_tag-length (skip_blanks rest) next q in
        let shorter : length next ≤ f =
          omega (arith, read_tag-length s e rest found, length-skip_blanks rest) in
        let (r, er) = later (acc ++ e ∷ []) next p' shorter in (r, ground arith)
