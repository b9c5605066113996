-- ===== src/Range/Coverage.antt =====
-- `normalizeRanges` selects the same bytes as the ranges that were asked for.
use http_rfc_utils.Common.{
  ℕ, ◌+◌, ◌-◌, ◌<◌, ◌≤◌, Bool, true, false, List, [], ◌∷◌, Option, none, some, ◌↔◌, ◌⊎◌, arith,
  ◌==◌, leb, ltb, max, if◌then◌else◌, All, Bool-cases, inl, inr,
}
use http_rfc_utils.Range.{
  RawRange, suffix, open_ended, closed, Span, clip, resolve, resolve_all, insert_span, sort_spans,
  merge_from, merge_spans, normalize_ranges,
}
use http_rfc_utils.Range.Normalize.{
  IsWithin, IsSorted, resolve_all-IsWithin, sort_spans-All, sort_spans-IsSorted,
}

abbrev pub Holds : ℕ → Span → Type 0
Holds b s = (s.start ≤ b) × (b ≤ s.end)

-- Some range of the list holds the byte.
abbrev pub Covers : ℕ → List Span → Type 0
Covers b [] = ⊥
Covers b (s ∷ ss) = Holds b s ⊎ Covers b ss

-- RFC 9110 section 14.1.2: a suffix asks for the last bytes, an open range for all from its start.
abbrev pub Asks : ℕ → RawRange → ℕ → Type 0
Asks size (suffix n) b = (b < size) × (size ≤ b + n)
Asks size (open_ended start) b = (b < size) × (start ≤ b)
Asks size (closed start end) b = (b < size) × (start ≤ b) × (b ≤ end)

abbrev pub Asked : ℕ → List RawRange → ℕ → Type 0
Asked size [] b = ⊥
Asked size (r ∷ rs) b = Asks size r b ⊎ Asked size rs b

abbrev Resolved : Option Span → ℕ → Type 0
Resolved none b = ⊥
Resolved (some s) b = Holds b s

clip-Holds :
    (size start end b : ℕ)
    → Resolved (clip size start end) b ↔ ((b < size) × (start ≤ b) × (b ≤ end))
unfolding clip
clip-Holds size start end b = elim (Bool-cases (leb size start)) [
  | inl out ↦ rw (out, clip) (λ h. absurd h, λ h. absurd (ground arith))
  | inr in_range ↦ elim (Bool-cases (ltb end start)) [
    | inl empty ↦ rw (in_range, empty, clip) (λ h. absurd h, λ h. absurd (ground arith))
    | inr full ↦ elim (Bool-cases (leb size end)) [
      | inl long ↦ rw (in_range, full, long, clip) (λ h. ground arith, λ h. ground arith)
      | inr short ↦ rw (in_range, full, short, clip) (λ h. ground arith, λ h. ground arith)
    ]
  ]
]

iff_trans : {A B C : Type 0} → A ↔ B → B ↔ C → A ↔ C
iff_trans (f, g) (h, k) = (λ a. h (f a), λ c. g (k c))

resolve-Asks : (size b : ℕ) (r : RawRange) → Resolved (resolve size r) b ↔ Asks size r b
unfolding resolve
resolve-Asks size b (suffix n) = elim (Bool-cases (n == 0)) [
  | inl z ↦ rw (z, resolve) (λ h. absurd h, λ h. absurd (ground arith))
  | inr nz ↦
      rw (nz, resolve)
        (iff_trans (clip-Holds size (size - n) (size - 1) b) (λ h. omega arith, λ h. omega arith))
]
resolve-Asks size b (open_ended start) =
    iff_trans (clip-Holds size start (size - 1) b) (λ h. omega arith, λ h. omega arith)
resolve-Asks size b (closed start end) = clip-Holds size start end b

sum_iff : {A B C D : Type 0} → A ↔ B → C ↔ D → (A ⊎ C) ↔ (B ⊎ D)
sum_iff {A} {B} {C} {D} (f, g) (h, k) = (to, from)
  where
    to : A ⊎ C → B ⊎ D
    to (inl a) = inl (f a)
    to (inr c) = inr (h c)

    from : B ⊎ D → A ⊎ C
    from (inl b) = inl (g b)
    from (inr d) = inr (k d)

drop_empty : {A B : Type 0} → ⊥ ↔ A → (A ⊎ B) ↔ B
drop_empty {A} {B} (f, g) = (to, inr)
  where
    to : A ⊎ B → B
    to (inl a) = absurd (g a)
    to (inr b) = b

swap_sum : (A B C : Type 0) → (A ⊎ (B ⊎ C)) ↔ (B ⊎ (A ⊎ C))
swap_sum A B C = (swapped A B C, swapped B A C)
  where
    swapped : (X Y Z : Type 0) → X ⊎ (Y ⊎ Z) → Y ⊎ (X ⊎ Z)
    swapped X Y Z (inl x) = inr (inl x)
    swapped X Y Z (inr (inl y)) = inl y
    swapped X Y Z (inr (inr z)) = inr (inr z)

split_sum : {A B C D : Type 0} → A ↔ (B ⊎ C) → (A ⊎ D) ↔ (B ⊎ (C ⊎ D))
split_sum {A} {B} {C} {D} (f, g) = (to, from)
  where
    regroup : B ⊎ C → B ⊎ (C ⊎ D)
    regroup (inl b) = inl b
    regroup (inr c) = inr (inl c)

    to : A ⊎ D → B ⊎ (C ⊎ D)
    to (inl a) = regroup (f a)
    to (inr d) = inr (inr d)

    from : B ⊎ (C ⊎ D) → A ⊎ D
    from (inl b) = inl (g (inl b))
    from (inr (inl c)) = inl (g (inr c))
    from (inr (inr d)) = inr d

iff_sym : {A B : Type 0} → A ↔ B → B ↔ A
iff_sym (f, g) = (g, f)

resolve_all-Asked :
    (size b : ℕ) (rs : List RawRange) → Covers b (resolve_all size rs) ↔ Asked size rs b
unfolding resolve_all
resolve_all-Asked size b [] = (λ h. h, λ h. h)
resolve_all-Asked size b (r ∷ rs) =
    cases (resolve size r) (resolve-Asks size b r) (resolve_all-Asked size b rs)
  where
    cases :
        (o : Option Span)
        → Resolved o b ↔ Asks size r b
        → Covers b (resolve_all size rs) ↔ Asked size rs b
        → Covers b (elim o [ none ↦ resolve_all size rs | some s ↦ s ∷ resolve_all size rs ])
          ↔ (Asks size r b ⊎ Asked size rs b)
    cases none e ih = iff_trans ih (iff_sym (drop_empty e))
    cases (some s) e ih = sum_iff e ih

insert_span-Covers :
    (b : ℕ) (x : Span) (ys : List Span) → Covers b (insert_span x ys) ↔ (Holds b x ⊎ Covers b ys)
unfolding insert_span
insert_span-Covers b x [] = (λ h. h, λ h. h)
insert_span-Covers b x (y ∷ ys) = cases (leb x.start y.start) (insert_span-Covers b x ys)
  where
    cases :
        (t : Bool)
        → Covers b (insert_span x ys) ↔ (Holds b x ⊎ Covers b ys)
        → Covers b (if t then x ∷ y ∷ ys else y ∷ insert_span x ys)
          ↔ (Holds b x ⊎ (Holds b y ⊎ Covers b ys))
    cases true ih = (λ h. h, λ h. h)
    cases false ih =
        iff_trans (sum_iff (λ h. h, λ h. h) ih) (swap_sum (Holds b y) (Holds b x) (Covers b ys))

sort_spans-Covers : (b : ℕ) (xs : List Span) → Covers b (sort_spans xs) ↔ Covers b xs
unfolding sort_spans
sort_spans-Covers b [] = (λ h. h, λ h. h)
sort_spans-Covers b (x ∷ xs) =
    iff_trans (insert_span-Covers b x (sort_spans xs))
      (sum_iff (λ h. h, λ h. h) (sort_spans-Covers b xs))

-- Two ranges of which the second starts in the first or right behind it.
join-Holds :
    (size b : ℕ) (last c : Span)
    → IsWithin size last
    → IsWithin size c
    → last.start ≤ c.start
    → c.start ≤ last.end + 1
    → Holds b (record { start = last.start; end = max last.end c.end }) ↔ (Holds b last ⊎ Holds b c)
join-Holds size b last c w wc p touch = (to, from)
  where
    to : (last.start ≤ b) × (b ≤ max last.end c.end) → Holds b last ⊎ Holds b c
    to h = elim (Bool-cases (leb b last.end)) [
      | inl le ↦ inl (ground arith)
      | inr gt ↦ inr (ground arith)
    ]

    from : Holds b last ⊎ Holds b c → (last.start ≤ b) × (b ≤ max last.end c.end)
    from (inl h) = omega arith
    from (inr h) = omega arith

merge_from-Covers :
    (size b : ℕ) (last : Span) (cs : List Span)
    → IsWithin size last
    → All (IsWithin size) cs
    → IsSorted (last ∷ cs)
    → Covers b (merge_from last cs) ↔ (Holds b last ⊎ Covers b cs)
unfolding merge_from
merge_from-Covers size b last [] w ws s = (λ h. h, λ h. h)
merge_from-Covers size b last (c ∷ cs) w (wc, ws) ((p, ps), (pc, s)) =
    elim (Bool-cases (leb c.start (last.end + 1))) [
      | inl touch ↦
          let joined : Span = record { start = last.start; end = max last.end c.end } in
          rw (touch, merge_from)
            (iff_trans (merge_from-Covers size b joined cs (omega arith) ws (ps, s))
              (split_sum (join-Holds size b last c w wc p (ground arith))))
      | inr gap ↦
          rw (gap, merge_from)
            (sum_iff (λ h. h, λ h. h) (merge_from-Covers size b c cs wc ws (pc, s)))
    ]

merge_spans-Covers :
    (size b : ℕ) (ss : List Span)
    → All (IsWithin size) ss
    → IsSorted ss
    → Covers b (merge_spans ss) ↔ Covers b ss
unfolding merge_spans
merge_spans-Covers size b [] ws s = (λ h. h, λ h. h)
merge_spans-Covers size b (x ∷ ss) (w, ws) s = merge_from-Covers size b x ss w ws s

-- A byte lies in a range that is returned exactly if the representation has it and one of the
-- ranges asked for selects it: clipping, sorting and merging lose no byte and add none.
pub normalize_ranges-Covers :
    (raw_ranges : List RawRange) (size b : ℕ)
    → Covers b (normalize_ranges raw_ranges size) ↔ Asked size raw_ranges b
unfolding normalize_ranges
normalize_ranges-Covers raw_ranges size b =
    let resolved = resolve_all size raw_ranges in
    let within = resolve_all-IsWithin size raw_ranges in
    iff_trans
      (merge_spans-Covers size b (sort_spans resolved)
        (sort_spans-All (IsWithin size) resolved within) (sort_spans-IsSorted resolved))
      (iff_trans (sort_spans-Covers b resolved) (resolve_all-Asked size b raw_ranges))
