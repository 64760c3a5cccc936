-- ===== src/Host/Trim.antt =====
-- What `TrimSpace` leaves alone.
use mathlib.Core.List.{reverse, reverse-append, reverse-reverse}
use swirl_evo.Common.{
  ◌≡◌, ◌≢◌, refl, sym, ap, ◌∙◌, false, [], ◌∷◌, ◌++◌, Text, is_space, trim_left, trim_space, inl,
  inr, Bool-cases,
}

-- A text that does not begin with a space.
abbrev Starts : Text → Type 0
Starts [] = Unit
Starts (c ∷ s) = is_space c ≡ false

trim_left-Starts : (s : Text) → Starts (trim_left s)
trim_left-Starts [] = tt
trim_left-Starts (c ∷ s) = elim (Bool-cases (is_space c)) [
  | inl y ↦ rw y (trim_left-Starts s)
  | inr n ↦ rw n n
]

Starts-trim_left : (s : Text) → Starts s → trim_left s ≡ s
Starts-trim_left [] h = refl
Starts-trim_left (c ∷ s) h = rw h refl

-- Nor does what is in front of anything.
Starts-front : (s t : Text) → Starts (s ++ t) → Starts s
Starts-front [] t h = tt
Starts-front (c ∷ s) t h = h

-- What is trimmed off, and what is left.
trim_left-parts : (s : Text) → (front : Text) × (front ++ trim_left s ≡ s)
trim_left-parts [] = ([], refl)
trim_left-parts (c ∷ s) = elim (Bool-cases (is_space c)) [
  | inl y ↦ rw y (c ∷ (trim_left-parts s).0, ap (λ r. c ∷ r) (trim_left-parts s).1)
  | inr n ↦ rw n ([], refl)
]

-- Trimmed on both sides: the condition under which nothing changes.
pub trim_space-same : (s : Text) → Starts s → Starts (reverse s) → trim_space s ≡ s
trim_space-same s a b =
    rw (Starts-trim_left s a, Starts-trim_left (reverse s) b) (reverse-reverse s)

pub trim_space-Starts : (s : Text) → Starts (trim_space s) × Starts (reverse (trim_space s))
trim_space-Starts s =
    let t = trim_left s in
    let u = trim_left (reverse t) in
    let (front, e) = trim_left-parts (reverse t) in
    let whole : reverse u ++ reverse front ≡ t =
      sym (reverse-append front u) ∙ (ap reverse e ∙ reverse-reverse t) in
    let whole_Starts : Starts (reverse u ++ reverse front) = rw whole (trim_left-Starts s) in
    (
      Starts-front (reverse u) (reverse front) whole_Starts,
      rw (reverse-reverse u) (trim_left-Starts (reverse t)),
    )

pub trim_space_idem : (s : Text) → trim_space (trim_space s) ≡ trim_space s
trim_space_idem s = trim_space-same (trim_space s) (trim_space-Starts s).0 (trim_space-Starts s).1

Starts-before : (s t : Text) → Starts s → s ≢ [] → Starts (s ++ t)
Starts-before [] t h n = absurd (n refl)
Starts-before (c ∷ s) t h n = h

-- A trimmed text behind a prefix that does not begin with a space stays as it is.
pub trim_space-prefix :
    (p s : Text)
    → Starts p
    → p ≢ []
    → trim_space s ≢ []
    → trim_space (p ++ trim_space s) ≡ p ++ trim_space s
trim_space-prefix p s a n m =
    let t = trim_space s in
    let b = (trim_space-Starts s).1 in
    let full : reverse t ≢ [] = λ e. m (sym (reverse-reverse t) ∙ ap reverse e) in
    trim_space-same (p ++ t) (Starts-before p t a n)
      (rw (reverse-append p t) (Starts-before (reverse t) (reverse p) b full))
