-- ===== src/UriEncoding/RoundTrip.antt =====
-- What is percent-encoded is decoded again.
use http_rfc_utils.Common.{
  ℕ, ◌+◌, ◌*◌, ◌/◌, ◌%◌, ◌<◌, ◌≤◌, Bool, true, false, ◌&&◌, List, [], ◌∷◌, ◌++◌, Option, some, ◌≡◌,
  refl, ap, subst, ◌∙◌, sym, arith, leb, ltb, ◌==◌, any, all, All, Bool-cases, inl, inr, append-nil,
}
use http_rfc_utils.Text.{Text}
use http_rfc_utils.UriEncoding.{
  is_hex_digit_byte, hex_upper, percent_encoded_byte, Options, encode_byte, encode_bytes, hex_value,
  prepend, encode_rfc3986, unit_bytes, decode_bytes, decode_percent_component,
}

-- Escapes are not kept, and `%` is escaped.
pub record Plain (options : Options) : Type 0 where
  pub no_triplets : options.preserve_pct_triplets ≡ false
  pub percent_escaped : options.allow_table b'%' ≡ false

encode_bytes-cons :
    (options : Options) (b : ℕ) (s : List ℕ)
    → options.preserve_pct_triplets ≡ false
    → encode_bytes options (b ∷ s) ≡ encode_byte options b ++ encode_bytes options s
unfolding encode_bytes encode_byte
encode_bytes-cons options b [] h = sym (append-nil (encode_byte options b))
encode_bytes-cons options b (c ∷ []) h = refl
encode_bytes-cons options b (c ∷ d ∷ s) h = elim (Bool-cases (ltb b 128 && options.allow_table b)) [
  | inl e ↦ ground (arith, e, h)
  | inr e ↦ ground (arith, e, h)
]

not_percent :
    (allow : ℕ → Bool) (b : ℕ)
    → ltb b 128 && allow b ≡ true
    → allow b'%' ≡ false
    → (b == b'%') ≡ false
not_percent allow b h n = elim (Bool-cases (b == b'%')) [
  | inr e ↦ e
  | inl e ↦ let same : b ≡ b'%' = ground (arith, e) in absurd (ground (arith, h, n, ap allow same))
]

hex_back :
    (n : ℕ) → n < 16 → (is_hex_digit_byte (hex_upper n) ≡ true) × (hex_value (hex_upper n) ≡ n)
unfolding is_hex_digit_byte hex_upper hex_value
hex_back n h = (ground arith, ground arith)

module _ (utf8_encode : Text → List ℕ) (utf8_decode : List ℕ → Option Text) where
  decode_bytes-ascii :
      (c : ℕ) (s : Text)
      → c ≤ 127
      → (c == b'%') ≡ false
      → decode_bytes utf8_encode utf8_decode (c ∷ s)
        ≡ prepend (c ∷ []) (decode_bytes utf8_encode utf8_decode s)
  unfolding decode_bytes unit_bytes
  decode_bytes-ascii c [] h n = ground (arith, n)
  decode_bytes-ascii c (d ∷ []) h n = ground (arith, n)
  decode_bytes-ascii c (d ∷ e ∷ s) h n = ground (arith, n)

  decode_bytes-escape :
      (b : ℕ) (s : Text)
      → b < 256
      → decode_bytes utf8_encode utf8_decode (percent_encoded_byte b ++ s)
        ≡ prepend (b ∷ []) (decode_bytes utf8_encode utf8_decode s)
  unfolding decode_bytes percent_encoded_byte
  decode_bytes-escape b s h =
      let (high, high_value) = hex_back (b / 16) (omega arith) in
      let (low, low_value) = hex_back (b % 16) (omega arith) in
      let value : b / 16 * 16 + b % 16 ≡ b = omega arith in
      rw (high, low, high_value, low_value, value) refl

  decode_bytes-encode_bytes :
      (options : Options) (bytes : List ℕ)
      → Plain options
      → All (λ b. b < 256) bytes
      → decode_bytes utf8_encode utf8_decode (encode_bytes options bytes) ≡ some bytes
  decode_bytes-encode_bytes options [] p h = unfold decode_bytes encode_bytes in refl
  decode_bytes-encode_bytes options (b ∷ bytes) p (small, h) =
      let ih = decode_bytes-encode_bytes options bytes p h in
      let rest = encode_bytes options bytes in
      rw (encode_bytes-cons options b bytes p.no_triplets)
        (elim (Bool-cases (ltb b 128 && options.allow_table b)) [
          | inl e ↦
              let ascii : b ≤ 127 = ground (arith, e) in
              let other : (b == b'%') ≡ false =
                not_percent options.allow_table b e p.percent_escaped in
              let same : encode_byte options b ≡ b ∷ [] = unfold encode_byte in rw e refl in
              rw (same, decode_bytes-ascii b rest ascii other, ih) refl
          | inr e ↦
              let same : encode_byte options b ≡ percent_encoded_byte b =
                unfold encode_byte in rw e refl in
              rw (same, decode_bytes-escape b rest small, ih) refl
        ])

  -- Bytes that are written without an escape are ASCII, and are written as they are.
  encode_bytes-no_escape :
      (options : Options) (bytes : List ℕ)
      → Plain options
      → any (λ c. c == b'%') (encode_bytes options bytes) ≡ false
      → (encode_bytes options bytes ≡ bytes) × (all (λ c. leb c 127) bytes ≡ true)
  encode_bytes-no_escape options [] p h = (unfold encode_bytes in refl, refl)
  encode_bytes-no_escape options (b ∷ bytes) p h =
      elim (Bool-cases (ltb b 128 && options.allow_table b)) [
        | inr e ↦
            let same : encode_bytes options (b ∷ bytes)
                ≡ percent_encoded_byte b ++ encode_bytes options bytes =
              encode_bytes-cons options b bytes p.no_triplets ∙ (unfold encode_byte in rw e refl) in
            let none_left : true ≡ false =
              unfold percent_encoded_byte in subst (λ s. any (λ c. c == b'%') s ≡ false) same h in
            absurd (ground arith)
        | inl e ↦
            let same : encode_bytes options (b ∷ bytes) ≡ b ∷ encode_bytes options bytes =
              encode_bytes-cons options b bytes p.no_triplets ∙ (unfold encode_byte in rw e refl) in
            let left : any (λ c. c == b'%') (b ∷ encode_bytes options bytes) ≡ false =
              subst (λ s. any (λ c. c == b'%') s ≡ false) same h in
            let (text, ascii) = encode_bytes-no_escape options bytes p (ground (arith, left)) in
            (same ∙ ap (λ s. b ∷ s) text, ground (arith, e, ascii))
      ]

  -- What the codec of the platform does: bytes are below 256, and bytes of ASCII are their own text.
  pub record IsUtf8 : Type 0 where
    pub bytes : (s : Text) → All (λ b. b < 256) (utf8_encode s)
    pub ascii : (s : List ℕ) → all (λ c. leb c 127) s ≡ true → utf8_decode s ≡ some s

  -- A text that the codec gives back, which every text without lone surrogates is, is decoded from
  -- its percent-encoding, if that escapes `%` and keeps no escapes.
  pub decode_percent_component-encode_rfc3986 :
      (options : Options) (value : Text)
      → IsUtf8
      → Plain options
      → utf8_decode (utf8_encode value) ≡ some value
      → decode_percent_component utf8_encode utf8_decode
          (encode_rfc3986 utf8_encode utf8_decode options value)
        ≡ some value
  unfolding decode_percent_component encode_rfc3986
  decode_percent_component-encode_rfc3986 options [] u p back = refl
  decode_percent_component-encode_rfc3986 options (c ∷ value) u p back =
      let bytes = utf8_encode (c ∷ value) in
      let read = decode_bytes-encode_bytes options bytes p (u.bytes (c ∷ value)) in
      elim (Bool-cases (any (λ c. c == b'%') (encode_bytes options bytes))) [
        | inl e ↦ rw (e, read) back
        | inr e ↦
            let (text, ascii) = encode_bytes-no_escape options bytes p e in
            rw e (ap some text ∙ sym (u.ascii bytes ascii) ∙ back)
      ]
