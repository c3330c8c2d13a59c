-- ===== src/Regex/Matching.antt =====
-- The matcher against a relation that says what a pattern matches, with no order of search in it.
use switch_ldn_zt.Base.{
  ℕ, suc, Bool, true, false, Option, none, some, [], ◌∷◌, ◌++◌, ◌≡◌, refl, ap, ◌⊎◌, inl, inr,
  length, Bool-cases, if◌then◌else◌,
}
use switch_ldn_zt.Text.{Text, later}
use switch_ldn_zt.Regex.{
  Class, accepts, Regex, is_line_start, is_line_end, in_word, begins_word, differ, or_else, match,
}

-- After the character `b` the pattern matches `w`, and `s` is left.
pub data Matches : Regex → Option ℕ → Text → Text → Type 0 where
  done : {b : Option ℕ} {s : Text} → Matches Regex.done b [] s
  one :
      {c : Class} {r : Regex} {b : Option ℕ} {x : ℕ} {w s : Text}
      → accepts c x ≡ true
      → Matches r (some x) w s
      → Matches (Regex.one c r) b (x ∷ w) s
  enough :
      {c : Class} {r : Regex} {b : Option ℕ} {w s : Text}
      → Matches r b w s
      → Matches (Regex.many c r) b w s
  more :
      {c : Class} {r : Regex} {b : Option ℕ} {x : ℕ} {w s : Text}
      → accepts c x ≡ true
      → Matches (Regex.many c r) (some x) w s
      → Matches (Regex.many c r) b (x ∷ w) s
  few_enough :
      {c : Class} {r : Regex} {b : Option ℕ} {w s : Text}
      → Matches r b w s
      → Matches (Regex.few c r) b w s
  few_more :
      {c : Class} {r : Regex} {b : Option ℕ} {x : ℕ} {w s : Text}
      → accepts c x ≡ true
      → Matches (Regex.few c r) (some x) w s
      → Matches (Regex.few c r) b (x ∷ w) s
  line_start :
      {r : Regex} {b : Option ℕ} {w s : Text}
      → is_line_start b ≡ true
      → Matches r b w s
      → Matches (Regex.line_start r) b w s
  line_end :
      {r : Regex} {b : Option ℕ} {w s : Text}
      → is_line_end (w ++ s) ≡ true
      → Matches r b w s
      → Matches (Regex.line_end r) b w s
  boundary :
      {word : ℕ → Bool} {r : Regex} {b : Option ℕ} {w s : Text}
      → differ (in_word word b) (begins_word word (w ++ s)) ≡ true
      → Matches r b w s
      → Matches (Regex.boundary word r) b w s
  left :
      {p q : Regex} {b : Option ℕ} {w s : Text} → Matches p b w s → Matches (Regex.either p q) b w s
  right :
      {p q : Regex} {b : Option ℕ} {w s : Text} → Matches q b w s → Matches (Regex.either p q) b w s

-- A start of `s` that the pattern matches, `n` characters long.
pub record Match (r : Regex) (b : Option ℕ) (s : Text) (n : ℕ) : Type 0 where
  pub word : Text
  pub rest : Text
  pub splits : s ≡ word ++ rest
  pub size : length word ≡ n
  pub matches : Matches r b word rest

-- The ways to pass from a match of a part to one of the whole.
Match-map :
    {p q : Regex} {b : Option ℕ} {s : Text} {n : ℕ}
    → ((w t : Text) → s ≡ w ++ t → Matches p b w t → Matches q b w t)
    → Match p b s n
    → Match q b s n
Match-map f m = record {
  word = m.word;
  rest = m.rest;
  splits = m.splits;
  size = m.size;
  matches = f m.word m.rest m.splits m.matches;
}

Match-step :
    {p q : Regex} {b : Option ℕ} {x : ℕ} {s : Text} {n : ℕ}
    → ((w t : Text) → Matches p (some x) w t → Matches q b (x ∷ w) t)
    → Match p (some x) s n
    → Match q b (x ∷ s) (suc n)
Match-step {x} f m = record {
  word = x ∷ m.word;
  rest = m.rest;
  splits = ap (λ t. x ∷ t) m.splits;
  size = ap suc m.size;
  matches = f m.word m.rest m.matches;
}

later-some : (o : Option ℕ) {n : ℕ} → later o ≡ some n → (k : ℕ) × (o ≡ some k) × (n ≡ suc k)
later-some none h = cc
later-some (some k) {n} h = (k, refl, cc)

or_else-some :
    (a b : Option ℕ) {n : ℕ} → or_else a b ≡ some n → (a ≡ some n) ⊎ ((a ≡ none) × (b ≡ some n))
or_else-some none b h = inr (refl, h)
or_else-some (some k) b h = inl h

guard-some :
    (t : Bool) {o : Option ℕ} {n : ℕ} → (if t then o else none) ≡ some n → (t ≡ true) × (o ≡ some n)
guard-some true h = (refl, h)
guard-some false h = cc

-- What the matcher finds is a match.
pub match-Matches :
    (r : Regex) (b : Option ℕ) (s : Text) {n : ℕ} → match r b s ≡ some n → Match r b s n
unfolding match
match-Matches Regex.done b s {n} h =
    let none_used : 0 ≡ n = cc in
    record { word = []; rest = s; splits = refl; size = none_used; matches = done }
match-Matches (Regex.one c r) b [] h = cc
match-Matches (Regex.one c r) b (x ∷ s) h =
    let (hit, rest) = guard-some (accepts c x) h in
    let (k, found, e) = later-some (match r (some x) s) rest in
    rw e (Match-step (λ w t m. one hit m) (match-Matches r (some x) s found))
match-Matches (Regex.many c r) b [] h = Match-map (λ w t e m. enough m) (match-Matches r b [] h)
match-Matches (Regex.many c r) b (x ∷ s) h = elim (Bool-cases (accepts c x)) [
  | inr miss ↦ Match-map (λ w t e m. enough m) (match-Matches r b (x ∷ s) (rw miss at h))
  | inl hit ↦
      elim (or_else-some (later (match (Regex.many c r) (some x) s)) (match r b (x ∷ s))
        (rw hit at h)) [
          | inl longer ↦
              let (k, found, e) = later-some (match (Regex.many c r) (some x) s) longer in
              rw e
                (Match-step (λ w t m. more hit m) (match-Matches (Regex.many c r) (some x) s found))
          | inr (_, stop) ↦ Match-map (λ w t e m. enough m) (match-Matches r b (x ∷ s) stop)
        ]
]
match-Matches (Regex.few c r) b [] h = Match-map (λ w t e m. few_enough m) (match-Matches r b [] h)
match-Matches (Regex.few c r) b (x ∷ s) h = elim (Bool-cases (accepts c x)) [
  | inr miss ↦ Match-map (λ w t e m. few_enough m) (match-Matches r b (x ∷ s) (rw miss at h))
  | inl hit ↦
      elim (or_else-some (match r b (x ∷ s)) (later (match (Regex.few c r) (some x) s))
        (rw hit at h)) [
          | inl stop ↦ Match-map (λ w t e m. few_enough m) (match-Matches r b (x ∷ s) stop)
          | inr (_, longer) ↦
              let (k, found, e) = later-some (match (Regex.few c r) (some x) s) longer in
              rw e (
                Match-step (λ w t m. few_more hit m)
                  (match-Matches (Regex.few c r) (some x) s found))
        ]
]
match-Matches (Regex.line_start r) b s h =
    let (hit, rest) = guard-some (is_line_start b) h in
    Match-map (λ w t e m. line_start hit m) (match-Matches r b s rest)
match-Matches (Regex.line_end r) b s h =
    let (hit, rest) = guard-some (is_line_end s) h in
    Match-map (λ w t e m. line_end (rw e at hit) m) (match-Matches r b s rest)
match-Matches (Regex.boundary word r) b s h =
    let (hit, rest) = guard-some (differ (in_word word b) (begins_word word s)) h in
    Match-map (λ w t e m. boundary (rw e at hit) m) (match-Matches r b s rest)
match-Matches (Regex.either p q) b s h = elim (or_else-some (match p b s) (match q b s) h) [
  | inl first ↦ Match-map (λ w t e m. left m) (match-Matches p b s first)
  | inr (_, second) ↦ Match-map (λ w t e m. right m) (match-Matches q b s second)
]

abbrev pub Found : Option ℕ → Type 0
Found o = (n : ℕ) × (o ≡ some n)

Found-later : (o : Option ℕ) → Found o → Found (later o)
Found-later o (n, e) = (suc n, rw e)

Found-first : (a b : Option ℕ) → Found a → Found (or_else a b)
Found-first a b (n, e) = (n, rw e)

Found-second : (a b : Option ℕ) → Found b → Found (or_else a b)
Found-second none b f = f
Found-second (some k) b f = (k, refl)

-- A run may stop where it stands, whatever comes next.
Found-enough :
    (c : Class) (r : Regex) (b : Option ℕ) (s : Text)
    → Found (match r b s)
    → Found (match (Regex.many c r) b s)
unfolding match
Found-enough c r b [] f = f
Found-enough c r b (x ∷ s) f = elim (Bool-cases (accepts c x)) [
  | inl hit ↦ rw hit (Found-second (later (match (Regex.many c r) (some x) s)) _ f)
  | inr miss ↦ rw miss f
]

Found-few_enough :
    (c : Class) (r : Regex) (b : Option ℕ) (s : Text)
    → Found (match r b s)
    → Found (match (Regex.few c r) b s)
unfolding match
Found-few_enough c r b [] f = f
Found-few_enough c r b (x ∷ s) f = elim (Bool-cases (accepts c x)) [
  | inl hit ↦ rw hit (Found-first _ (later (match (Regex.few c r) (some x) s)) f)
  | inr miss ↦ rw miss f
]

-- Where the pattern matches a start of the text, the matcher finds a match.
pub Matches-match :
    {r : Regex} {b : Option ℕ} {w s : Text} → Matches r b w s → Found (match r b (w ++ s))
unfolding match
Matches-match done = (0, refl)
Matches-match (one {c} {r} {x} {w} {s} hit m) =
    rw hit (Found-later (match r (some x) (w ++ s)) (Matches-match m))
Matches-match (enough {c} {r} {b} {w} {s} m) = Found-enough c r b (w ++ s) (Matches-match m)
Matches-match (more {c} {r} {b} {x} {w} {s} hit m) = rw hit (
    Found-first _ (match r b (x ∷ (w ++ s)))
      (Found-later (match (Regex.many c r) (some x) (w ++ s)) (Matches-match m)))
Matches-match (few_enough {c} {r} {b} {w} {s} m) = Found-few_enough c r b (w ++ s) (Matches-match m)
Matches-match (few_more {c} {r} {b} {x} {w} {s} hit m) = rw hit (
    Found-second (match r b (x ∷ (w ++ s))) _
      (Found-later (match (Regex.few c r) (some x) (w ++ s)) (Matches-match m)))
Matches-match (line_start hit m) = rw hit (Matches-match m)
Matches-match (line_end hit m) = rw hit (Matches-match m)
Matches-match (boundary hit m) = rw hit (Matches-match m)
Matches-match (left {p} {q} {b} {w} {s} m) =
    Found-first (match p b (w ++ s)) (match q b (w ++ s)) (Matches-match m)
Matches-match (right {p} {q} {b} {w} {s} m) =
    Found-second (match p b (w ++ s)) (match q b (w ++ s)) (Matches-match m)
