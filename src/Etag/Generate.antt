-- ===== src/Etag/Generate.antt =====
-- What `generateETag` writes is an entity tag whose value spells the hash in hexadecimal.
use native.Mathlib.Nat.{pow-suc}
use http_rfc_utils.Common.{
  ℕ, zero, suc, ◌+◌, ◌-◌, ◌*◌, ◌/◌, ◌%◌, ◌^◌, ◌<◌, Bool, true, [], ◌∷◌, some, ◌≡◌, refl, ap, ◌∙◌,
  arith, ◌==◌, ltb, if◌then◌else◌, Bool-cases, inl, inr,
}
use http_rfc_utils.Text.{Text}
use http_rfc_utils.Etag.{
  is_etag_char, is_valid_etag_value, djb2_from, hex_digit, to_hex, djb2_hash, Payload, hashed_units,
  generate_etag, parse_etag,
}
use http_rfc_utils.Etag.Format.{parse_etag-quoted}

-- The number that lowercase hexadecimal digits spell, behind `n`.
abbrev pub hex_value : ℕ → Text → ℕ
hex_value n [] = n
hex_value n (c ∷ s) = hex_value (n * 16 + (if ltb c b'a' then c - b'0' else c - b'a' + 10)) s

hex_value-digit :
    (m d n : ℕ) (s : Text) → d < 16 → m * 16 + d ≡ n → hex_value m (hex_digit d ∷ s) ≡ hex_value n s
hex_value-digit m d n s h e = ap (λ k. hex_value k s) (ground arith)

hex_value-to_hex :
    (f n : ℕ) (out : Text) → n < 16 ^ f → hex_value 0 (to_hex f n out) ≡ hex_value n out
unfolding to_hex
hex_value-to_hex zero n out h = let z : n ≡ 0 = omega arith in rw z
hex_value-to_hex (suc f) n out h = elim (Bool-cases (n / 16 == 0)) [
  | inl last ↦ rw last (hex_value-digit 0 (n % 16) n out (omega arith) (ground arith))
  | inr more ↦ rw more (
      hex_value-to_hex f (n / 16) (hex_digit (n % 16) ∷ out) (omega (arith, pow-suc 16 f))
      ∙ hex_value-digit (n / 16) (n % 16) n out (omega arith) (omega arith))
]

to_hex-valid :
    (f n : ℕ) (out : Text)
    → is_valid_etag_value out ≡ true
    → is_valid_etag_value (to_hex f n out) ≡ true
unfolding to_hex is_valid_etag_value is_etag_char
to_hex-valid zero n out h = h
to_hex-valid (suc f) n out h = ground (arith, to_hex-valid f (n / 16) (hex_digit (n % 16) ∷ out))

-- The hash of the units, as an unsigned 32-bit number.
abbrev pub hash_of : Payload → ℕ
hash_of payload = djb2_from 5381 (hashed_units payload) % 2 ^ 32

-- Whatever the data, the generated text is read back as an entity tag of the chosen strength, whose
-- value spells the 32-bit hash of the data in hexadecimal.
pub parse_etag-generate_etag :
    (payload : Payload) (weak : Bool)
    → (value : Text) × (parse_etag (generate_etag payload weak)
        ≡ some (record { weak = weak; value = value }))
      × (hex_value 0 value ≡ hash_of payload)
unfolding generate_etag djb2_hash
parse_etag-generate_etag payload weak =
    let value = to_hex 8 (hash_of payload) [] in
    (
      value,
      parse_etag-quoted weak value
          (to_hex-valid 8 (hash_of payload) [] (unfold is_valid_etag_value in refl)),
      hex_value-to_hex 8 (hash_of payload) [] (omega arith),
    )
