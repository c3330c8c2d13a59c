-- ===== src/Keepalive/Substitutions.antt =====
-- The substitutions of constants: each is made at most once, none undoes or feeds another.
use switch_ldn_zt.Base.{
  ℕ, ◌+◌, ◌≤◌, Bool, true, false, not, ◌&&◌, List, [], ◌∷◌, ◌≡◌, refl, ◌∙◌, inl, inr, All, arith,
  Bool-cases, ◌==◌, if◌then◌else◌,
}
use switch_ldn_zt.Text.{Text, contains, count, replace_first}
use switch_ldn_zt.Text.Marked.{Lacks, Clash, contains-replace_once, contains-replace_other}
use switch_ldn_zt.Text.Newlines.{NoCr, replace_first-NoCr}
use switch_ldn_zt.Disk.{FilePath}
use switch_ldn_zt.Script.{Message}
use switch_ldn_zt.Keepalive.{Applied, applied, refused, apply_subs}

-- Substitutions given without the mark that their texts begin with.
abbrev pub marked : ℕ → List (Text × Text) → List (Text × Text)
marked h [] = []
marked h ((o, n) ∷ subs) = (h ∷ o, h ∷ n) ∷ marked h subs

module _ (h : ℕ) where
  -- `d` cannot be mistaken for a text that a substitution takes or gives.
  abbrev pub Apart : Text → List (Text × Text) → Type 0
  Apart d [] = Unit
  Apart d ((o, n) ∷ subs) = (Lacks h o × Lacks h n × Clash h d o × Clash h d n) × Apart d subs

  abbrev pub Sound : List (Text × Text) → Type 0
  Sound [] = Unit
  Sound ((o, n) ∷ subs) =
      (Lacks h o × Lacks h n × Clash h o n × NoCr (h ∷ n)) × Apart o subs × Sound subs

  -- one substitution
  abbrev step : Text → Text → Text → Text
  step o n s = if contains (h ∷ o) s then replace_first (h ∷ o) (h ∷ n) s else s

  abbrev once : Text → Text → Bool
  once o s = contains (h ∷ o) s && not (count (h ∷ o) s == 1)

  step-other :
      (o n d s : Text)
      → Lacks h o
      → Lacks h n
      → Lacks h d
      → Clash h d o
      → Clash h d n
      → contains (h ∷ d) (step o n s) ≡ contains (h ∷ d) s
  step-other o n d s lo ln ld co cn = elim (Bool-cases (contains (h ∷ o) s)) [
    | inl hit ↦ rw hit (contains-replace_other h o n d lo ln ld s co cn)
    | inr miss ↦ rw miss
  ]

  step-gone :
      (o n s : Text)
      → Lacks h o
      → Lacks h n
      → Clash h o n
      → once o s ≡ false
      → contains (h ∷ o) (step o n s) ≡ false
  step-gone o n s lo ln c e = elim (Bool-cases (contains (h ∷ o) s)) [
    | inl hit ↦ rw hit (contains-replace_once h o n lo ln s (ground arith) c)
    | inr miss ↦ rw (miss, miss)
  ]

  step-NoCr : (o n s : Text) → NoCr (h ∷ n) → NoCr s → NoCr (step o n s)
  step-NoCr o n s hn hs = elim (Bool-cases (contains (h ∷ o) s)) [
    | inl hit ↦ rw hit (replace_first-NoCr (h ∷ o) (h ∷ n) s hn hs)
    | inr miss ↦ rw miss hs
  ]

  applied-once :
      (b : Bool) (msg : Message) (rest : Applied) {t : Text} {k : ℕ}
      → (if b then refused msg else rest) ≡ applied t k
      → (b ≡ false) × (rest ≡ applied t k)
  applied-once true msg rest e = cc
  applied-once false msg rest e = (refl, e)

  module _ (path : FilePath) where
    -- A text apart from all substitutions occurs after them exactly if it did before.
    pub apply_subs-other :
        (subs : List (Text × Text)) (d s : Text) (k : ℕ) {t : Text} {j : ℕ}
        → Lacks h d
        → Apart d subs
        → apply_subs path (marked h subs) s k ≡ applied t j
        → contains (h ∷ d) t ≡ contains (h ∷ d) s
    unfolding apply_subs
    apply_subs-other [] d s k {t} ld _ e = let same : s ≡ t = cc in rw same
    apply_subs-other ((o, n) ∷ subs) d s k ld ((lo, ln, co, cn), apart) e =
        let (_, rest) = applied-once _ _ _ e in
        apply_subs-other subs d (step o n s) _ ld apart rest ∙ step-other o n d s lo ln ld co cn

    -- None of the texts to replace is left.
    pub apply_subs-gone :
        (subs : List (Text × Text)) (s : Text) (k : ℕ) {t : Text} {j : ℕ}
        → Sound subs
        → apply_subs path (marked h subs) s k ≡ applied t j
        → All (λ sub. contains (h ∷ sub.0) t ≡ false) subs
    unfolding apply_subs
    apply_subs-gone [] s k _ e = tt
    apply_subs-gone ((o, n) ∷ subs) s k ((lo, ln, c, _), apart, sound) e =
        let (single, rest) = applied-once _ _ _ e in
        (
          apply_subs-other subs o (step o n s) _ lo apart rest ∙ step-gone o n s lo ln c single,
          apply_subs-gone subs (step o n s) _ sound rest,
        )

    pub apply_subs-NoCr :
        (subs : List (Text × Text)) (s : Text) (k : ℕ) {t : Text} {j : ℕ}
        → Sound subs
        → NoCr s
        → apply_subs path (marked h subs) s k ≡ applied t j
        → NoCr t
    unfolding apply_subs
    apply_subs-NoCr [] s k {t} _ clean e = let same : s ≡ t = cc in rw same at clean
    apply_subs-NoCr ((o, n) ∷ subs) s k ((_, _, _, hn), _, sound) clean e =
        let (_, rest) = applied-once _ _ _ e in
        apply_subs-NoCr subs (step o n s) _ sound (step-NoCr o n s hn clean) rest

    -- Where there is nothing to replace, nothing is counted.
    pub apply_subs-none :
        (subs : List (Text × Text)) (t : Text) (k : ℕ)
        → All (λ sub. contains (h ∷ sub.0) t ≡ false) subs
        → apply_subs path (marked h subs) t k ≡ applied t k
    unfolding apply_subs
    apply_subs-none [] t k _ = refl
    apply_subs-none ((o, n) ∷ subs) t k (miss, rest) = rw miss (apply_subs-none subs t k rest)

    -- The count never falls, and where it has not grown nothing was there to replace.
    pub apply_subs-counts :
        (subs : List (Text × Text)) (s : Text) (k : ℕ) {t : Text} {j : ℕ}
        → apply_subs path (marked h subs) s k ≡ applied t j
        → k ≤ j
    unfolding apply_subs
    apply_subs-counts [] s k {j} e = let same : k ≡ j = cc in omega arith
    apply_subs-counts ((o, n) ∷ subs) s k {j} e =
        let (_, rest) = applied-once _ _ _ e in
        let le : (if contains (h ∷ o) s then k + 1 else k) ≤ j =
          apply_subs-counts subs (step o n s) _ rest in
        ground arith

    pub apply_subs-unchanged :
        (subs : List (Text × Text)) (s : Text) (k : ℕ) {t : Text}
        → apply_subs path (marked h subs) s k ≡ applied t k
        → All (λ sub. contains (h ∷ sub.0) s ≡ false) subs
    unfolding apply_subs
    apply_subs-unchanged [] s k e = tt
    apply_subs-unchanged ((o, n) ∷ subs) s k {t} e = elim (Bool-cases (contains (h ∷ o) s)) [
      | inl hit ↦
          let le : (if contains (h ∷ o) s then k + 1 else k) ≤ k =
            apply_subs-counts subs (step o n s) _ (applied-once _ _ _ e).1 in
          let more : k + 1 ≤ k = rw hit at le in absurd (omega arith)
      | inr miss ↦
          let kept : apply_subs path (marked h subs) s k ≡ applied t k = rw miss at e in
          (miss, apply_subs-unchanged subs s k kept)
    ]
