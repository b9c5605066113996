-- ===== src/JsonPointer/Grammar.antt =====
-- RFC 6901 section 3 as a relation: which texts are pointers, and for which tokens.
use http_rfc_utils.Common.{
  ℕ, true, false, List, [], ◌∷◌, ◌++◌, some, ◌≡◌, ◌≢◌, refl, arith, ◌↔◌, append-nil, ◌==◌, ==_iff,
  Bool-cases, ◌⊎◌, inl, inr, if◌then◌else◌,
}
use http_rfc_utils.Text.{Text, join}
use http_rfc_utils.JsonPointer.{
  slash, tilde, encode_token, parse_json_pointer, format_json_pointer, replace_unit,
}
use http_rfc_utils.JsonPointer.Escape.{encode_token-cons}
use http_rfc_utils.JsonPointer.RoundTrip.{
  parse_json_pointer-format_json_pointer, format_json_pointer-parse_json_pointer,
}

-- reference-token = *( unescaped / escaped ), with the token that it stands for.
pub data Token : Text → Text → Type 0 where
  empty : Token [] []
  unescaped :
      {raw token : Text} (c : ℕ)
      → c ≢ slash
      → c ≢ tilde
      → Token raw token
      → Token (c ∷ raw) (c ∷ token)
  escaped_tilde : {raw token : Text} → Token raw token → Token (tilde ∷ b'0' ∷ raw) (tilde ∷ token)
  escaped_slash : {raw token : Text} → Token raw token → Token (tilde ∷ b'1' ∷ raw) (slash ∷ token)

-- json-pointer = *( "/" reference-token )
pub data Pointer : Text → List Text → Type 0 where
  whole : Pointer [] []
  step :
      {raw token rest pointer : Text} {tokens : List Text}
      → Token raw token
      → Pointer rest tokens
      → pointer ≡ slash ∷ (raw ++ rest)
      → Pointer pointer (token ∷ tokens)

Token-eq : {raw token : Text} → Token raw token → raw ≡ encode_token token
Token-eq empty = unfold encode_token replace_unit in refl
Token-eq (unescaped {token} c hs ht t) = ground (arith, Token-eq t, encode_token-cons c token)
Token-eq (escaped_tilde {token} t) = ground (arith, Token-eq t, encode_token-cons tilde token)
Token-eq (escaped_slash {token} t) = ground (arith, Token-eq t, encode_token-cons slash token)

Token-encode_token : (token : Text) → Token (encode_token token) token
Token-encode_token [] = unfold encode_token replace_unit in empty
Token-encode_token (c ∷ token) =
    rw encode_token-cons
      (cases (Token-encode_token token) (Bool-cases (c == tilde)) (Bool-cases (c == slash)))
  where
    cases :
        Token (encode_token token) token
        → ((c == tilde) ≡ true) ⊎ ((c == tilde) ≡ false)
        → ((c == slash) ≡ true) ⊎ ((c == slash) ≡ false)
        → Token
            (if c == tilde
              then tilde ∷ b'0' ∷ encode_token token
              else if c == slash
              then tilde ∷ b'1' ∷ encode_token token
              else c ∷ encode_token token)
            (c ∷ token)
    cases t (inl e) _ = rw (e, (==_iff c tilde).0 e) (escaped_tilde t)
    cases t (inr ne) (inl e) = rw (ne, e, (==_iff c slash).0 e) (escaped_slash t)
    cases t (inr ne) (inr ne') = rw (ne, ne') (unescaped c (ground arith) (ground arith) t)

format_json_pointer-cons :
    (t : Text) (ts : List Text)
    → format_json_pointer (t ∷ ts) ≡ slash ∷ (encode_token t ++ format_json_pointer ts)
unfolding format_json_pointer join
format_json_pointer-cons t [] = rw append-nil
format_json_pointer-cons t (u ∷ us) = refl

Pointer-eq :
    {pointer : Text} {tokens : List Text}
    → Pointer pointer tokens
    → pointer ≡ format_json_pointer tokens
Pointer-eq whole = unfold format_json_pointer in refl
Pointer-eq (step {token} {tokens} t p e) =
    ground (arith, Token-eq t, Pointer-eq p, format_json_pointer-cons token tokens)

Pointer-format_json_pointer : (tokens : List Text) → Pointer (format_json_pointer tokens) tokens
Pointer-format_json_pointer [] = unfold format_json_pointer in whole
Pointer-format_json_pointer (t ∷ ts) =
    step (Token-encode_token t) (Pointer-format_json_pointer ts) (format_json_pointer-cons t ts)

-- `parseJsonPointer` accepts exactly the texts of the grammar, and returns the tokens that the
-- grammar gives them.
pub parse_json_pointer_iff :
    (pointer : Text) (tokens : List Text)
    → (parse_json_pointer pointer ≡ some tokens) ↔ Pointer pointer tokens
parse_json_pointer_iff pointer tokens = (
  λ h.
      rw (← format_json_pointer-parse_json_pointer pointer tokens h)
        (Pointer-format_json_pointer tokens),
  λ p. rw (Pointer-eq p) (parse_json_pointer-format_json_pointer tokens),
)
