-- ===== src/StructuredFields/Entries.antt =====
-- Members of an object that are added one after the other.
use http_rfc_utils.Common.{false, List, [], ◌∷◌, ◌++◌, ◌≡◌, refl, ap, arith, All, All-append}
use http_rfc_utils.Text.{Text, text_eq}
use http_rfc_utils.Text.Laws.{text_eq_iff}
use http_rfc_utils.StructuredFields.{set_entry}

text_eq_flip : (s t : Text) → text_eq s t ≡ false → text_eq t s ≡ false
text_eq_flip s t h = ground (arith, text_eq_iff s t, text_eq_iff t s)

module _ {ℓ} {A : Type ℓ} where
  -- No entry has the key.
  abbrev pub Lacking : Text → List (Text × A) → Type 0
  Lacking key = All (λ e. text_eq e.0 key ≡ false)

  -- The keys are distinct.
  abbrev pub Distinct : List (Text × A) → Type 0
  Distinct [] = Unit
  Distinct (e ∷ es) = Lacking e.0 es × Distinct es

  -- The second list has no key of the first.
  abbrev pub Apart : List (Text × A) → List (Text × A) → Type 0
  Apart es = All (λ e. Lacking e.0 es)

  pub set_entry-Lacking :
      (es : List (Text × A)) (key : Text) (v : A)
      → Lacking key es
      → set_entry es key v ≡ es ++ (key, v) ∷ []
  unfolding set_entry
  set_entry-Lacking [] key v h = refl
  set_entry-Lacking ((k, w) ∷ es) key v (n, h) =
      rw (set_entry, n) (ap (λ r. (k, w) ∷ r) (set_entry-Lacking es key v h))

  pub Apart-append :
      (es ps : List (Text × A)) (key : Text) (v : A)
      → Lacking key ps
      → Apart es ps
      → Apart (es ++ (key, v) ∷ []) ps
  Apart-append es [] key v h a = tt
  Apart-append es ((k, w) ∷ ps) key v (n, h) (b, a) =
      (All-append _ es ((key, v) ∷ []) b (text_eq_flip k key n, tt), Apart-append es ps key v h a)

  pub Apart-nil : (ps : List (Text × A)) → Apart [] ps
  Apart-nil [] = tt
  Apart-nil (p ∷ ps) = (tt, Apart-nil ps)
