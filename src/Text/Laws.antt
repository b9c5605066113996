-- ===== src/Text/Laws.antt =====
-- Laws of string equality, trimming, splitting and joining.
use http_rfc_utils.Common.{
  ℕ, true, false, List, [], ◌∷◌, ◌++◌, ◌≡◌, ◌≢◌, refl, ap, ◌∙◌, ◌↔◌, arith, All,
}
use http_rfc_utils.Text.{
  Text, text_eq, split, cons_part, join, is_space, trim, trim_start, trim_end, trim_cons,
}

pub text_eq_refl : (s : Text) → text_eq s s ≡ true
unfolding text_eq
text_eq_refl [] = refl
text_eq_refl (c ∷ s) = ground (arith, text_eq_refl s)

text_eq_sound : (s t : Text) → text_eq s t ≡ true → s ≡ t
unfolding text_eq
text_eq_sound [] [] h = refl
text_eq_sound [] (d ∷ t) h = cc
text_eq_sound (c ∷ s) [] h = cc
text_eq_sound (c ∷ s) (d ∷ t) h = ground (arith, text_eq_sound s t)

pub text_eq_iff : (s t : Text) → (text_eq s t ≡ true) ↔ (s ≡ t)
text_eq_iff s t = (text_eq_sound s t, λ e. rw e (text_eq_refl t))

abbrev pub Lacks : ℕ → Text → Type 0
Lacks b = All (λ c. c ≢ b)

pub split-ne-nil : (sep : ℕ) (s : Text) → split sep s ≢ []
unfolding split
split-ne-nil sep [] = ground arith
split-ne-nil sep (c ∷ s) = ground arith

join-cons_part :
    (sep c : ℕ) (ps : List Text) → ps ≢ [] → join sep (cons_part c ps) ≡ c ∷ join sep ps
unfolding join
join-cons_part sep c [] h = absurd (h refl)
join-cons_part sep c (p ∷ []) h = refl
join-cons_part sep c (p ∷ q ∷ ps) h = refl

join_nil_cons : (sep : ℕ) (ps : List Text) → ps ≢ [] → join sep ([] ∷ ps) ≡ sep ∷ join sep ps
unfolding join
join_nil_cons sep [] h = absurd (h refl)
join_nil_cons sep (p ∷ ps) h = refl

-- Joining the parts of a split gives the text back.
pub join-split : (sep : ℕ) (s : Text) → join sep (split sep s) ≡ s
unfolding split
join-split sep [] = unfold join in refl
join-split sep (c ∷ s) = ground (
  arith,
  join-split sep s,
  join-cons_part sep c (split sep s) (split-ne-nil sep s),
  join_nil_cons sep (split sep s) (split-ne-nil sep s),
)

pub split_part : (sep : ℕ) (p : Text) → Lacks sep p → split sep p ≡ p ∷ []
unfolding split
split_part sep [] h = refl
split_part sep (c ∷ p) (hc, hp) = ground (arith, split_part sep p hp)

pub split_front :
    (sep : ℕ) (p s : Text) → Lacks sep p → split sep (p ++ (sep ∷ s)) ≡ p ∷ split sep s
unfolding split
split_front sep [] s h = ground arith
split_front sep (c ∷ p) s (hc, hp) = ground (arith, split_front sep p s hp)

-- Splitting a join gives the parts back, if there is a part and none holds the separator.
pub split-join :
    (sep : ℕ) (ps : List Text) → ps ≢ [] → All (Lacks sep) ps → split sep (join sep ps) ≡ ps
unfolding join
split-join sep [] h _ = absurd (h refl)
split-join sep (p ∷ []) h (hp, _) = split_part sep p hp
split-join sep (p ∷ q ∷ ps) h (hp, hps) =
    split_front sep p (join sep (q ∷ ps)) hp
    ∙ ap (λ r. p ∷ r) (split-join sep (q ∷ ps) (λ e. cc) hps)

cons_part-Lacks :
    (sep c : ℕ) (ps : List Text) → c ≢ sep → All (Lacks sep) ps → All (Lacks sep) (cons_part c ps)
cons_part-Lacks sep c [] h _ = ((h, tt), tt)
cons_part-Lacks sep c (p ∷ ps) h (hp, hps) = ((h, hp), hps)

-- No part of a split holds the separator.
pub split-Lacks : (sep : ℕ) (s : Text) → All (Lacks sep) (split sep s)
unfolding split
split-Lacks sep [] = (tt, tt)
split-Lacks sep (c ∷ s) = ground (arith, split-Lacks sep s, cons_part-Lacks sep c (split sep s))

trim_end-append : (s : Text) (c : ℕ) → is_space c ≡ false → trim_end (s ++ c ∷ []) ≡ s ++ c ∷ []
unfolding trim_end trim_cons
trim_end-append [] c h = rw h
trim_end-append (d ∷ []) c h = rw (trim_end-append [] c h)
trim_end-append (d ∷ e ∷ s) c h = rw (trim_end-append (e ∷ s) c h)

-- A text whose first and last characters are not blank is its own trim.
pub trim_bounded :
    (c d : ℕ) (s : Text)
    → is_space c ≡ false
    → is_space d ≡ false
    → trim (c ∷ (s ++ d ∷ [])) ≡ c ∷ (s ++ d ∷ [])
unfolding trim trim_start
trim_bounded c d s hc hd = rw hc (trim_end-append (c ∷ s) d hd)
