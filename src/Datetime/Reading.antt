-- ===== src/Datetime/Reading.antt =====
-- Reading a text by its pieces undoes printing by them, and the other way round.
use http_rfc_utils.Common.{
  ℕ, suc, ◌+◌, ◌/◌, ◌%◌, ◌<◌, List, [], ◌∷◌, ◌++◌, some, ◌≡◌, refl, sym, ap, ◌∙◌, arith, inl, inr,
  append_assoc, append-nil, if◌then◌else◌, ◌==◌, Option-cases, length,
}
use http_rfc_utils.Text.Decimal.{ten_to}
use http_rfc_utils.Text.{Text, is_digit, strip_prefix}
use http_rfc_utils.Datetime.Pieces.{
  Piece, literal, digits, name, spaced, read_digits, print_digits, read_name, read_spaced,
  read_piece, read_front, whole, read_pieces, one_of, read_one_of, unit_at, name_at, print_pieces,
}
use http_rfc_utils.Datetime.Digits.{read_digits-print_digits, read_digits-print}

strip_prefix-append : (l rest : Text) → strip_prefix l (l ++ rest) ≡ some rest
unfolding strip_prefix
strip_prefix-append [] rest = refl
strip_prefix-append (c ∷ l) rest = ground (arith, strip_prefix-append l rest)

strip_prefix-text : (l s rest : Text) → strip_prefix l s ≡ some rest → s ≡ l ++ rest
unfolding strip_prefix
strip_prefix-text [] s rest h = ground arith
strip_prefix-text (c ∷ l) [] rest h = absurd (ground arith)
strip_prefix-text (c ∷ l) (d ∷ s) rest h = ground (arith, strip_prefix-text l s rest)

read_name-text :
    (i : ℕ) (ns : List Text) (v : ℕ) (s rest : Text)
    → read_name i ns s ≡ some (v, rest)
    → (k : ℕ) × (v ≡ i + k) × (k < length ns) × (s ≡ name_at ns k ++ rest)
unfolding read_name name_at
read_name-text i [] v s rest h = absurd (ground arith)
read_name-text i (n ∷ ns) v s rest h = elim (Option-cases (strip_prefix n s)) [
  | inr (r, e) ↦
      let same : (r ≡ rest) × (i ≡ v) = ground (arith, e) in
      (0, omega (arith, same), omega arith, rw (← same.0) (strip_prefix-text n s r e))
  | inl e ↦
      let later : read_name (suc i) ns s ≡ some (v, rest) = ground (arith, e) in
      let (k, value, few, text) = read_name-text (suc i) ns v s rest later in
      (suc k, omega (arith, value), omega (arith, few), text)
]

-- Each name of the table is read as its position, whatever follows it.
unfoldable pub IsTable : List Text → Type 0
IsTable ns =
    (v : ℕ) (rest : Text) → v < length ns → read_name 0 ns (name_at ns v ++ rest) ≡ some (v, rest)

-- Values that the pieces can print: as many as there are captures, each in its range.
unfoldable pub Fits : List Piece → List ℕ → Type 0
Fits [] [] = Unit
Fits [] (v ∷ vs) = ⊥
Fits (literal l ∷ ps) vs = Fits ps vs
Fits (p ∷ ps) [] = ⊥
Fits (digits n ∷ ps) (v ∷ vs) = (v < ten_to n) × Fits ps vs
Fits (name ns ∷ ps) (v ∷ vs) = (v < length ns) × Fits ps vs
Fits (one_of cs ∷ ps) (v ∷ vs) = (v < length cs) × Fits ps vs
Fits (spaced ∷ ps) (v ∷ vs) = (v < 100) × Fits ps vs

-- So is each character of a choice.
unfoldable pub IsChoice : Text → Type 0
IsChoice cs =
    (v : ℕ) (rest : Text) → v < length cs → read_one_of 0 cs (unit_at cs v ++ rest) ≡ some (v, rest)

-- The tables of the pieces are tables.
unfoldable pub AllTables : List Piece → Type 0
AllTables [] = Unit
AllTables (name ns ∷ ps) = IsTable ns × AllTables ps
AllTables (one_of cs ∷ ps) = IsChoice cs × AllTables ps
AllTables (_ ∷ ps) = AllTables ps

read_spaced-print :
    (v : ℕ) (rest : Text)
    → v < 100
    → read_spaced ((if v / 10 == 0 then b' ' else b'0' + v / 10) ∷ (b'0' + v % 10) ∷ rest)
      ≡ some (v, rest)
unfolding read_spaced
read_spaced-print v rest h = unfold is_digit in ground arith

read_front-next :
    (p : Piece) (ps : List Piece) (us ws : List ℕ) (s rest behind : Text)
    → read_piece p s ≡ some (us, rest)
    → read_front ps rest ≡ some (ws, behind)
    → read_front (p ∷ ps) s ≡ some (us ++ ws, behind)
unfolding read_front
read_front-next p ps us ws s rest behind h k = rw (read_front, h, k) refl

-- What the pieces print of values in their ranges, they read, whatever follows.
pub read_front-print_pieces :
    (ps : List Piece) (vs : List ℕ) (rest : Text)
    → AllTables ps
    → Fits ps vs
    → read_front ps (print_pieces ps vs ++ rest) ≡ some (vs, rest)
unfolding print_pieces Fits AllTables IsTable IsChoice read_piece
read_front-print_pieces [] [] rest t h = unfold read_front in refl
read_front-print_pieces [] (v ∷ vs) rest t h = absurd h
read_front-print_pieces (literal l ∷ ps) vs rest t h =
    let more = print_pieces ps vs ++ rest in
    rw (append_assoc l (print_pieces ps vs) rest) (
      read_front-next (literal l) ps [] vs (l ++ more) more rest
        (rw (read_piece, strip_prefix-append l more) refl) (read_front-print_pieces ps vs rest t h))
read_front-print_pieces (digits n ∷ ps) [] rest t h = absurd h
read_front-print_pieces (name ns ∷ ps) [] rest t h = absurd h
read_front-print_pieces (one_of cs ∷ ps) [] rest t h = absurd h
read_front-print_pieces (spaced ∷ ps) [] rest t h = absurd h
read_front-print_pieces (digits n ∷ ps) (v ∷ vs) rest t (small, h) =
    let more = print_pieces ps vs ++ rest in
    rw (append_assoc (print_digits n v) (print_pieces ps vs) rest) (
      read_front-next (digits n) ps (v ∷ []) vs (print_digits n v ++ more) more rest
        (rw (read_piece, read_digits-print_digits n v more small) refl)
        (read_front-print_pieces ps vs rest t h))
read_front-print_pieces (name ns ∷ ps) (v ∷ vs) rest (table, t) (small, h) =
    let more = print_pieces ps vs ++ rest in
    rw (append_assoc (name_at ns v) (print_pieces ps vs) rest) (
      read_front-next (name ns) ps (v ∷ []) vs (name_at ns v ++ more) more rest
        (rw (read_piece, table v more small) refl) (read_front-print_pieces ps vs rest t h))
read_front-print_pieces (one_of cs ∷ ps) (v ∷ vs) rest (choice, t) (small, h) =
    let more = print_pieces ps vs ++ rest in
    rw (append_assoc (unit_at cs v) (print_pieces ps vs) rest) (
      read_front-next (one_of cs) ps (v ∷ []) vs (unit_at cs v ++ more) more rest
        (rw (read_piece, choice v more small) refl) (read_front-print_pieces ps vs rest t h))
read_front-print_pieces (spaced ∷ ps) (v ∷ vs) rest t (small, h) =
    let more = print_pieces ps vs ++ rest in
    read_front-next spaced ps (v ∷ []) vs
      ((if v / 10 == 0 then b' ' else b'0' + v / 10) ∷ (b'0' + v % 10) ∷ more) more rest
      (rw (read_piece, read_spaced-print v more small) refl)
      (read_front-print_pieces ps vs rest t h)

pub read_pieces-print_pieces :
    (ps : List Piece) (vs : List ℕ)
    → AllTables ps
    → Fits ps vs
    → read_pieces ps (print_pieces ps vs) ≡ some vs
unfolding read_pieces
read_pieces-print_pieces ps vs t h =
    ap (λ s. whole (read_front ps s)) (sym (append-nil (print_pieces ps vs)))
    ∙ ap whole (read_front-print_pieces ps vs [] t h)

-- No piece has two texts for one number.
unfoldable pub Exact : List Piece → Type 0
Exact [] = Unit
Exact (spaced ∷ ps) = ⊥
Exact (one_of cs ∷ ps) = ⊥
Exact (_ ∷ ps) = Exact ps

read_front-split :
    (p : Piece) (ps : List Piece) (vs : List ℕ) (s behind : Text)
    → read_front (p ∷ ps) s ≡ some (vs, behind)
    → (us : List ℕ) × (ws : List ℕ) × (rest : Text) × (read_piece p s ≡ some (us, rest))
      × (read_front ps rest ≡ some (ws, behind))
      × (vs ≡ us ++ ws)
unfolding read_front
read_front-split p ps vs s behind h = elim (Option-cases (read_piece p s)) [
  | inl e ↦ absurd (ground (arith, e))
  | inr ((us, rest), e) ↦ elim (Option-cases (read_front ps rest)) [
    | inl k ↦ absurd (ground (arith, e, k))
    | inr ((ws, more), k) ↦
        let same : more ≡ behind = ground (arith, e, k) in
        (us, ws, rest, e, rw (← same) k, ground (arith, e, k))
  ]
]

literal-text :
    (l s rest : Text) (us : List ℕ)
    → read_piece (literal l) s ≡ some (us, rest)
    → (us ≡ []) × (s ≡ l ++ rest)
unfolding read_piece
literal-text l s rest us h = elim (Option-cases (strip_prefix l s)) [
  | inl e ↦ absurd (ground (arith, e))
  | inr (r, e) ↦
      let same : r ≡ rest = ground (arith, e) in
      (ground (arith, e), rw (← same) (strip_prefix-text l s r e))
]

digits-text :
    (n : ℕ) (s rest : Text) (us : List ℕ)
    → read_piece (digits n) s ≡ some (us, rest)
    → (v : ℕ) × (us ≡ v ∷ []) × (v < ten_to n) × (s ≡ print_digits n v ++ rest)
unfolding read_piece
digits-text n s rest us h = elim (Option-cases (read_digits n 0 s)) [
  | inl e ↦ absurd (ground (arith, e))
  | inr ((v, r), e) ↦
      let (small, text) = read_digits-print n v s r e in
      let same : r ≡ rest = ground (arith, e) in (v, ground (arith, e), small, rw (← same) text)
]

name-text :
    (ns : List Text) (s rest : Text) (us : List ℕ)
    → read_piece (name ns) s ≡ some (us, rest)
    → (v : ℕ) × (us ≡ v ∷ []) × (v < length ns) × (s ≡ name_at ns v ++ rest)
unfolding read_piece
name-text ns s rest us h = elim (Option-cases (read_name 0 ns s)) [
  | inl e ↦ absurd (ground (arith, e))
  | inr ((v, r), e) ↦
      let (k, value, few, text) = read_name-text 0 ns v s r e in
      let same : (r ≡ rest) × (v ≡ k) = (ground (arith, e), omega (arith, value)) in
      (k, ground (arith, e, same), few, rw (← same.0) text)
]

print_pieces-read_front :
    (ps : List Piece) (vs : List ℕ) (s behind : Text)
    → Exact ps
    → read_front ps s ≡ some (vs, behind)
    → Fits ps vs × (print_pieces ps vs ++ behind ≡ s)
unfolding print_pieces Fits Exact
print_pieces-read_front [] vs s behind x h =
    let same : ([] ≡ vs) × (s ≡ behind) = unfold read_front in (ground arith, ground arith) in
    rw (← same.0, same.1) (tt, refl)
print_pieces-read_front (spaced ∷ ps) vs s behind x h = absurd x
print_pieces-read_front (one_of cs ∷ ps) vs s behind x h = absurd x
print_pieces-read_front (literal l ∷ ps) vs s behind x h =
    let (us, ws, rest, e, k, same) = read_front-split (literal l) ps vs s behind h in
    let (nothing, text) = literal-text l s rest us e in
    let all : vs ≡ ws = same ∙ ap (λ u. u ++ ws) nothing in
    let (fits, more) = print_pieces-read_front ps ws rest behind x k in
    rw (all, text) (fits, append_assoc l (print_pieces ps ws) behind ∙ ap (λ t. l ++ t) more)
print_pieces-read_front (digits n ∷ ps) vs s behind x h =
    let (us, ws, rest, e, k, same) = read_front-split (digits n) ps vs s behind h in
    let (v, one, small, text) = digits-text n s rest us e in
    let all : vs ≡ v ∷ ws = same ∙ ap (λ u. u ++ ws) one in
    let (fits, more) = print_pieces-read_front ps ws rest behind x k in
    let front = print_digits n v in
    rw (all, text)
      ((small, fits), append_assoc front (print_pieces ps ws) behind ∙ ap (λ t. front ++ t) more)
print_pieces-read_front (name ns ∷ ps) vs s behind x h =
    let (us, ws, rest, e, k, same) = read_front-split (name ns) ps vs s behind h in
    let (v, one, small, text) = name-text ns s rest us e in
    let all : vs ≡ v ∷ ws = same ∙ ap (λ u. u ++ ws) one in
    let (fits, more) = print_pieces-read_front ps ws rest behind x k in
    let front = name_at ns v in
    rw (all, text)
      ((small, fits), append_assoc front (print_pieces ps ws) behind ∙ ap (λ t. front ++ t) more)

-- What the pieces read of a text, they print as the text.
pub print_pieces-read_pieces :
    (ps : List Piece) (vs : List ℕ) (s : Text)
    → Exact ps
    → read_pieces ps s ≡ some vs
    → Fits ps vs × (print_pieces ps vs ≡ s)
unfolding read_pieces
print_pieces-read_pieces ps vs s x h = elim (Option-cases (read_front ps s)) [
  | inl e ↦ absurd (ground (arith, e))
  | inr ((ws, []), e) ↦
      let same : ws ≡ vs = ground (arith, e) in
      let (fits, text) = print_pieces-read_front ps ws s [] x e in
      rw (← same) (fits, sym (append-nil (print_pieces ps ws)) ∙ text)
  | inr ((ws, c ∷ behind), e) ↦ absurd (ground (arith, e))
]
