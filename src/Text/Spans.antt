-- ===== src/Text/Spans.antt =====
-- Where a scan of characters stops.
use http_rfc_utils.Common.{ℕ, Bool, true, false, [], ◌∷◌, ◌++◌, ◌≡◌, refl, all, and_split}
use http_rfc_utils.Text.{Text, span}

-- The text does not go on with a character of the test.
abbrev pub Stops : (ℕ → Bool) → Text → Type 0
Stops p [] = Unit
Stops p (c ∷ s) = p c ≡ false

pub span-Stops : (p : ℕ → Bool) (rest : Text) → Stops p rest → span p rest ≡ ([], rest)
unfolding span
span-Stops p [] h = refl
span-Stops p (c ∷ s) h = rw h

pub span-append :
    (p : ℕ → Bool) (s rest : Text) → all p s ≡ true → Stops p rest → span p (s ++ rest) ≡ (s, rest)
unfolding span
span-append p [] rest h k = span-Stops p rest k
span-append p (c ∷ s) rest h k =
    let (a, b) = and_split (p c) (all p s) h in rw (a, span-append p s rest b k)
