-- ===== src/Range/Normalize.antt =====
-- The ranges that `normalizeRanges` returns lie in the representation, in order and apart.
use http_rfc_utils.Common.{
  ℕ, ◌+◌, ◌<◌, ◌≤◌, Bool, true, false, List, [], ◌∷◌, Option, none, some, ◌≡◌, refl, arith, leb,
  max, if◌then◌else◌, All, Bool-cases, inl, inr,
}
use http_rfc_utils.Range.{
  RawRange, suffix, open_ended, closed, Span, resolve, resolve_all, insert_span, sort_spans,
  merge_from, merge_spans, normalize_ranges,
}

-- A range of at least one byte that the representation has.
abbrev pub IsWithin : ℕ → Span → Type 0
IsWithin size s = (s.start ≤ s.end) × (s.end < size)

-- At least one byte lies between the range and the next.
abbrev pub Apart : Span → List Span → Type 0
Apart s [] = Unit
Apart s (t ∷ ts) = s.end + 1 < t.start

abbrev pub IsCanonical : ℕ → List Span → Type 0
IsCanonical size [] = Unit
IsCanonical size (s ∷ ss) = IsWithin size s × Apart s ss × IsCanonical size ss

abbrev pub IsSorted : List Span → Type 0
IsSorted [] = Unit
IsSorted (s ∷ ss) = All (λ t. s.start ≤ t.start) ss × IsSorted ss

pub resolve-IsWithin :
    (size : ℕ) (r : RawRange) (s : Span) → resolve size r ≡ some s → IsWithin size s
unfolding resolve
resolve-IsWithin size (suffix n) s h = ground arith
resolve-IsWithin size (open_ended start) s h = ground arith
resolve-IsWithin size (closed start end) s h = ground arith

pub resolve_all-IsWithin :
    (size : ℕ) (rs : List RawRange) → All (IsWithin size) (resolve_all size rs)
unfolding resolve_all
resolve_all-IsWithin size [] = tt
resolve_all-IsWithin size (r ∷ rs) = cases (resolve size r) refl (resolve_all-IsWithin size rs)
  where
    cases :
        (o : Option Span)
        → resolve size r ≡ o
        → All (IsWithin size) (resolve_all size rs)
        → All
            (IsWithin size)
            (elim o [ none ↦ resolve_all size rs | some s ↦ s ∷ resolve_all size rs ])
    cases none e h = h
    cases (some s) e h = (resolve-IsWithin size r s e, h)

insert_span-All :
    (P : Span → Type 0) (x : Span) (ys : List Span) → P x → All P ys → All P (insert_span x ys)
unfolding insert_span
insert_span-All P x [] p h = (p, tt)
insert_span-All P x (y ∷ ys) p (q, h) = cases (leb x.start y.start) (insert_span-All P x ys p h)
  where
    cases :
        (b : Bool)
        → All P (insert_span x ys)
        → All P (if b then x ∷ y ∷ ys else y ∷ insert_span x ys)
    cases true ih = (p, (q, h))
    cases false ih = (q, ih)

All-weaken :
    (a b : ℕ) (ys : List Span) → a ≤ b → All (λ t. b ≤ t.start) ys → All (λ t. a ≤ t.start) ys
All-weaken a b [] h k = tt
All-weaken a b (y ∷ ys) h (p, k) = (omega arith, All-weaken a b ys h k)

insert_span-IsSorted : (x : Span) (ys : List Span) → IsSorted ys → IsSorted (insert_span x ys)
unfolding insert_span
insert_span-IsSorted x [] h = (tt, tt)
insert_span-IsSorted x (y ∷ ys) (below, h) = elim (Bool-cases (leb x.start y.start)) [
  | inl le ↦
      let p : x.start ≤ y.start = ground arith in
      rw (le, insert_span) ((p, All-weaken x.start y.start ys p below), (below, h))
  | inr gt ↦
      let p : y.start ≤ x.start = ground arith in
      rw (gt, insert_span)
        (insert_span-All (λ t. y.start ≤ t.start) x ys p below, insert_span-IsSorted x ys h)
]

pub sort_spans-IsSorted : (xs : List Span) → IsSorted (sort_spans xs)
unfolding sort_spans
sort_spans-IsSorted [] = tt
sort_spans-IsSorted (x ∷ xs) = insert_span-IsSorted x (sort_spans xs) (sort_spans-IsSorted xs)

pub sort_spans-All : (P : Span → Type 0) (xs : List Span) → All P xs → All P (sort_spans xs)
unfolding sort_spans
sort_spans-All P [] h = tt
sort_spans-All P (x ∷ xs) (p, h) = insert_span-All P x (sort_spans xs) p (sort_spans-All P xs h)

Apart-merge_from :
    (s last : Span) (cs : List Span) → s.end + 1 < last.start → Apart s (merge_from last cs)
unfolding merge_from
Apart-merge_from s last [] h = h
Apart-merge_from s last (c ∷ cs) h = elim (Bool-cases (leb c.start (last.end + 1))) [
  | inl touch ↦
      rw (touch, merge_from)
        (Apart-merge_from s (record { start = last.start; end = max last.end c.end }) cs h)
  | inr gap ↦ rw (gap, merge_from) h
]

merge_from-IsCanonical :
    (size : ℕ) (last : Span) (cs : List Span)
    → IsWithin size last
    → All (IsWithin size) cs
    → IsSorted (last ∷ cs)
    → IsCanonical size (merge_from last cs)
unfolding merge_from
merge_from-IsCanonical size last [] w ws s = (w, tt, tt)
merge_from-IsCanonical size last (c ∷ cs) w (wc, ws) ((b, bs), (bc, s)) =
    elim (Bool-cases (leb c.start (last.end + 1))) [
      | inl touch ↦
          rw (touch, merge_from)
            (merge_from-IsCanonical size (record { start = last.start; end = max last.end c.end })
              cs (omega arith) ws (bs, s))
      | inr gap ↦
          rw (gap, merge_from)
            (
              w,
              Apart-merge_from last c cs (ground arith),
              merge_from-IsCanonical size c cs wc ws (bc, s),
            )
    ]

merge_spans-IsCanonical :
    (size : ℕ) (ss : List Span)
    → All (IsWithin size) ss
    → IsSorted ss
    → IsCanonical size (merge_spans ss)
unfolding merge_spans
merge_spans-IsCanonical size [] ws s = tt
merge_spans-IsCanonical size (x ∷ ss) (w, ws) s = merge_from-IsCanonical size x ss w ws s

-- Whatever the ranges asked for, every range returned has at least one byte and ends in the
-- representation; they are in rising order, and at least one byte lies between two neighbours.
pub normalize_ranges-IsCanonical :
    (raw_ranges : List RawRange) (size : ℕ) → IsCanonical size (normalize_ranges raw_ranges size)
unfolding normalize_ranges
normalize_ranges-IsCanonical raw_ranges size =
    merge_spans-IsCanonical size (sort_spans (resolve_all size raw_ranges))
      (sort_spans-All (IsWithin size) (resolve_all size raw_ranges)
        (resolve_all-IsWithin size raw_ranges))
      (sort_spans-IsSorted (resolve_all size raw_ranges))
