-- ===== src/JsonPointer/Escape.antt =====
-- Escaping and unescaping one reference token.
use http_rfc_utils.Common.{ℕ, true, [], ◌∷◌, ◌≡◌, ◌≢◌, refl, arith, ◌==◌, if◌then◌else◌}
use http_rfc_utils.Text.{Text, codes}
use http_rfc_utils.Text.Laws.{Lacks}
use http_rfc_utils.JsonPointer.{
  slash, tilde, replace_pair, replace_unit, encode_token, decode_token, has_valid_escapes,
}

replace_pair_skip :
    (a b r c : ℕ) (s : Text) → c ≢ a → replace_pair a b r (c ∷ s) ≡ c ∷ replace_pair a b r s
unfolding replace_pair
replace_pair_skip a b r c [] h = refl
replace_pair_skip a b r c (d ∷ s) h = ground arith

pub encode_token-cons :
    (c : ℕ) (s : Text)
    → encode_token (c ∷ s) ≡ (
        if c == tilde
        then tilde ∷ b'0' ∷ encode_token s
        else if c == slash
        then tilde ∷ b'1' ∷ encode_token s
        else c ∷ encode_token s)
unfolding encode_token replace_unit
encode_token-cons c s = ground arith

replace_pair-encode_token :
    (s : Text) → replace_pair tilde b'1' slash (encode_token s) ≡ replace_unit tilde (codes "~0") s
unfolding replace_pair replace_unit
replace_pair-encode_token [] = unfold encode_token in refl
replace_pair-encode_token (c ∷ s) = rw encode_token-cons (
    ground (
      arith,
      replace_pair-encode_token s,
      replace_pair_skip tilde b'1' slash c (encode_token s),
      replace_pair_skip tilde b'1' slash b'0' (encode_token s),
    ))

replace_pair-replace_unit :
    (s : Text) → replace_pair tilde b'0' tilde (replace_unit tilde (codes "~0") s) ≡ s
unfolding replace_pair replace_unit
replace_pair-replace_unit [] = refl
replace_pair-replace_unit (c ∷ s) = ground (
  arith,
  replace_pair-replace_unit s,
  replace_pair_skip tilde b'0' tilde c (replace_unit tilde (codes "~0") s),
)

-- Unescaping undoes escaping, for every token.
pub decode_token-encode_token : (token : Text) → decode_token (encode_token token) ≡ token
unfolding decode_token
decode_token-encode_token token = rw replace_pair-encode_token (replace_pair-replace_unit token)

decode_token-cons : (c : ℕ) (s : Text) → c ≢ tilde → decode_token (c ∷ s) ≡ c ∷ decode_token s
unfolding decode_token
decode_token-cons c s h =
    rw (replace_pair_skip tilde b'1' slash c s h)
      (replace_pair_skip tilde b'0' tilde c (replace_pair tilde b'1' slash s) h)

decode_token-tilde : (s : Text) → decode_token (tilde ∷ b'0' ∷ s) ≡ tilde ∷ decode_token s
unfolding decode_token
decode_token-tilde s =
    unfold replace_pair in ground (arith, replace_pair_skip tilde b'1' slash b'0' s)

decode_token-slash : (s : Text) → decode_token (tilde ∷ b'1' ∷ s) ≡ slash ∷ decode_token s
unfolding decode_token
decode_token-slash s =
    unfold replace_pair in
    ground (arith, replace_pair_skip tilde b'0' tilde slash (replace_pair tilde b'1' slash s))

-- A raw token with valid escapes and no slash is the escaped form of what it decodes to.
pub encode_token-decode_token :
    (raw : Text)
    → has_valid_escapes raw ≡ true
    → Lacks slash raw
    → encode_token (decode_token raw) ≡ raw
unfolding has_valid_escapes
encode_token-decode_token [] h l =
    unfold encode_token decode_token replace_pair replace_unit in refl
encode_token-decode_token (c ∷ []) h (l, _) =
    ground (arith, decode_token-cons c [], encode_token-cons c (decode_token []), nil)
  where
    nil : encode_token (decode_token []) ≡ []
    nil = unfold encode_token decode_token replace_pair replace_unit in refl
encode_token-decode_token (c ∷ d ∷ s) h (lc, (ld, l)) = ground (
  arith,
  decode_token-cons c (d ∷ s),
  decode_token-tilde s,
  decode_token-slash s,
  encode_token-cons c (decode_token (d ∷ s)),
  encode_token-cons tilde (decode_token s),
  encode_token-cons slash (decode_token s),
  encode_token-decode_token s,
  encode_token-decode_token (d ∷ s),
)

-- An escaped token has no slash and only valid escapes.
pub encode_token-Lacks : (token : Text) → Lacks slash (encode_token token)
encode_token-Lacks [] = unfold encode_token replace_unit in tt
encode_token-Lacks (c ∷ s) = rw encode_token-cons (ground (arith, encode_token-Lacks s))

has_valid_escapes_skip :
    (c : ℕ) (s : Text) → c ≢ tilde → has_valid_escapes (c ∷ s) ≡ has_valid_escapes s
unfolding has_valid_escapes
has_valid_escapes_skip c [] h = ground arith
has_valid_escapes_skip c (d ∷ s) h = ground arith

pub has_valid_escapes-encode_token : (token : Text) → has_valid_escapes (encode_token token) ≡ true
unfolding has_valid_escapes
has_valid_escapes-encode_token [] = unfold encode_token replace_unit in refl
has_valid_escapes-encode_token (c ∷ s) =
    rw encode_token-cons
      (ground (arith, has_valid_escapes-encode_token s, has_valid_escapes_skip c (encode_token s)))
