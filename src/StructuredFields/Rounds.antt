-- ===== src/StructuredFields/Rounds.antt =====
-- How the pieces of the parser of structured-fields.ts leave at most so many units of the text, and
-- how a loop of it settles on one answer whatever its fuel.
use http_rfc_utils.Common.{
  ℕ, suc, ◌≤◌, Bool, true, false, [], ◌∷◌, Option, some, none, ◌≡◌, refl, arith, inl, inr, ◌⊎◌,
  length, if◌then◌else◌,
}
use http_rfc_utils.Text.{Text}
use http_rfc_utils.StructuredFields.Parser.{Read, on_read, on_round, finished}
use http_rfc_utils.StructuredFields.Shorter.{Shortens}

-- At most so many units are left, whether there is a result or not.
abbrev pub Keeps : {A : Type 0} → ℕ → Read A → Type 0
Keeps n x = length x.1 ≤ n

-- Two runs of a loop have the same answer, which leaves at most so many units; neither is out of
-- fuel.
abbrev pub Settles : {A : Type 0} → ℕ → Option (Read A) → Option (Read A) → Type 0
Settles {A} n x y = (r : Read A) × (x ≡ some r) × (y ≡ some r) × (length r.1 ≤ n)

pub Shortens-Keeps :
    {A : Type 0} (n : ℕ) (x : Read A) (s : Text) → Shortens x s → length s ≤ n → Keeps n x
Shortens-Keeps n (none, r) s h le = omega arith
Shortens-Keeps n (some a, r) s h le = omega arith

pub if-Keeps :
    {A : Type 0} (n : ℕ) (b : Bool) (x y : Read A)
    → Keeps n x
    → Keeps n y
    → Keeps n (if b then x else y)
if-Keeps n true x y h k = h
if-Keeps n false x y h k = k

pub on_read-Keeps :
    {A B : Type 0} (n : ℕ) (x : Read A) (k : A → Text → Read B)
    → Keeps n x
    → ((a : A) (r : Text) → length r ≤ n → Keeps n (k a r))
    → Keeps n (on_read x k)
on_read-Keeps n (none, r) k h f = h
on_read-Keeps n (some a, r) k h f = f a r h

pub uncons-Keeps :
    {A : Type 0} (n : ℕ) (s : Text) (x : Read A) (k : ℕ → Text → Read A)
    → length s ≤ n
    → Keeps n x
    → ((c : ℕ) (r : Text) → suc (length r) ≤ n → Keeps n (k c r))
    → Keeps n (elim s [ [] ↦ x | c ∷ r ↦ k c r ])
uncons-Keeps n [] x k le h f = h
uncons-Keeps n (c ∷ r) x k le h f = f c r le

pub answer-Settles : {A : Type 0} (n : ℕ) (r : Read A) → Keeps n r → Settles n (some r) (some r)
answer-Settles n r le = (r, refl, refl, le)

pub if-Settles :
    {A : Type 0} (n : ℕ) (b : Bool) (x y x' y' : Option (Read A))
    → Settles n x x'
    → Settles n y y'
    → Settles n (if b then x else y) (if b then x' else y')
if-Settles n true x y x' y' h k = h
if-Settles n false x y x' y' h k = k

pub on_round-Settles :
    {A B : Type 0} (n : ℕ) (x : Read A) (k l : A → Text → Option (Read B))
    → Keeps n x
    → ((a : A) (r : Text) → length r ≤ n → Settles n (k a r) (l a r))
    → Settles n (on_round x k) (on_round x l)
on_round-Settles n (none, r) k l h f = answer-Settles n (none, r) h
on_round-Settles n (some a, r) k l h f = f a r h

-- The next unit, if there is one.
pub uncons-Settles :
    {A : Type 0} (n : ℕ) (s : Text) (x x' : Option (Read A)) (k k' : ℕ → Text → Option (Read A))
    → length s ≤ n
    → Settles n x x'
    → ((c : ℕ) (r : Text) → suc (length r) ≤ n → Settles n (k c r) (k' c r))
    → Settles n (elim s [ [] ↦ x | c ∷ r ↦ k c r ]) (elim s [ [] ↦ x' | c ∷ r ↦ k' c r ])
uncons-Settles n [] x x' k k' le h f = h
uncons-Settles n (c ∷ r) x x' k k' le h f = f c r le

pub Settles-more :
    {A : Type 0} (m n : ℕ) (x y : Option (Read A)) → Settles m x y → m ≤ n → Settles n x y
Settles-more m n x y (r, h, k, small) le = (r, h, k, omega arith)

-- The answer of a loop that settles.
pub Settles-finished :
    {A : Type 0} (n : ℕ) (x y : Option (Read A)) (s : Text)
    → Settles n x y
    → (y ≡ some (finished x s)) × Keeps n (finished x s)
Settles-finished n x y s (r, h, k, small) = rw h (k, small)

pub Text-cases : (s : Text) → (s ≡ []) ⊎ ((c : ℕ) × (r : Text) × (s ≡ c ∷ r))
Text-cases [] = inl refl
Text-cases (c ∷ r) = inr (c, r, refl)
