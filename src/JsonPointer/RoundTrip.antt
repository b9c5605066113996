-- ===== src/JsonPointer/RoundTrip.antt =====
-- `parseJsonPointer` and `formatJsonPointer` undo one another.
use http_rfc_utils.Common.{List, [], ◌∷◌, map, some, ◌≡◌, ◌≢◌, refl, sym, arith, ap, All}
use http_rfc_utils.Text.{Text, split, join}
use http_rfc_utils.Text.Laws.{Lacks, join-split, split-join, split-ne-nil, split-Lacks}
use http_rfc_utils.JsonPointer.{
  slash, encode_token, decode_tokens, parse_json_pointer, format_json_pointer,
}
use http_rfc_utils.JsonPointer.Escape.{
  decode_token-encode_token, encode_token-decode_token, encode_token-Lacks,
  has_valid_escapes-encode_token,
}

map-Lacks : (ts : List Text) → All (Lacks slash) (map encode_token ts)
map-Lacks [] = tt
map-Lacks (t ∷ ts) = (encode_token-Lacks t, map-Lacks ts)

decode_tokens-map : (ts : List Text) → decode_tokens (map encode_token ts) ≡ some ts
unfolding decode_tokens
decode_tokens-map [] = refl
decode_tokens-map (t ∷ ts) =
    rw (has_valid_escapes-encode_token t, decode_tokens-map ts, decode_token-encode_token t)

-- Every list of tokens, empty tokens and the empty list included, is read back from the pointer
-- that `formatJsonPointer` writes for it.
pub parse_json_pointer-format_json_pointer :
    (tokens : List Text) → parse_json_pointer (format_json_pointer tokens) ≡ some tokens
unfolding parse_json_pointer format_json_pointer
parse_json_pointer-format_json_pointer [] = refl
parse_json_pointer-format_json_pointer (t ∷ ts) =
    rw (split-join slash (map encode_token (t ∷ ts)) (λ e. cc) (map-Lacks (t ∷ ts)))
      (decode_tokens-map (t ∷ ts))

map-decode_tokens :
    (raws ts : List Text)
    → All (Lacks slash) raws
    → decode_tokens raws ≡ some ts
    → map encode_token ts ≡ raws
unfolding decode_tokens
map-decode_tokens [] ts l h = ground arith
map-decode_tokens (raw ∷ rest) [] (l, ls) h = ground arith
map-decode_tokens (raw ∷ rest) (t ∷ ts) (l, ls) h =
    ground (arith, map-decode_tokens rest ts ls, encode_token-decode_token raw)

format_of_raws :
    (raws tokens : List Text)
    → raws ≢ []
    → map encode_token tokens ≡ raws
    → format_json_pointer tokens ≡ slash ∷ join slash raws
unfolding format_json_pointer
format_of_raws raws [] h e = absurd (h (sym e))
format_of_raws raws (t ∷ ts) h e = ap (λ r. slash ∷ join slash r) e

-- A pointer that `parseJsonPointer` accepts is what `formatJsonPointer` writes for its tokens.
pub format_json_pointer-parse_json_pointer :
    (pointer : Text) (tokens : List Text)
    → parse_json_pointer pointer ≡ some tokens
    → format_json_pointer tokens ≡ pointer
unfolding parse_json_pointer
format_json_pointer-parse_json_pointer [] tokens h = unfold format_json_pointer in ground (arith, h)
format_json_pointer-parse_json_pointer (c ∷ rest) tokens h = ground (
  arith,
  map-decode_tokens (split slash rest) tokens (split-Lacks slash rest),
  format_of_raws (split slash rest) tokens (split-ne-nil slash rest),
  join-split slash rest,
)
