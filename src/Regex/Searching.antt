-- ===== src/Regex/Searching.antt =====
-- The search for a pattern: it finds the first place at which the pattern matches, or there is none.
use mathlib.Core.Path.{subst}
use switch_ldn_zt.Base.{
  ℕ, suc, ◌+◌, ◌≤◌, true, Option, none, some, [], ◌∷◌, ◌++◌, ◌≡◌, refl, sym, ap, ◌∙◌, inl, inr,
  arith, length, take, drop, length-append, append_assoc, take-length-append, drop-length-append,
  Option-cases, All-append, All-append_left, All-append_right,
}
use switch_ldn_zt.Text.{Text, contains}
use switch_ldn_zt.Text.Occurs.{contains_trans, contains-append}
use switch_ldn_zt.Text.Newlines.{NoCr}
use switch_ldn_zt.Regex.{Regex, match, at_start, search_from, find_match?, subn_by, subn, subn_at}
use switch_ldn_zt.Regex.Matching.{Matches, Match, match-Matches, Matches-match}

-- The character before the text behind `pre`.
abbrev pub last_of : Option ℕ → Text → Option ℕ
last_of b [] = b
last_of b (c ∷ pre) = last_of (some c) pre

-- The pattern matches `word` behind `pre`, and nowhere before that.
pub record First (r : Regex) (b : Option ℕ) (s pre word post : Text) : Type 0 where
  pub splits : s ≡ pre ++ (word ++ post)
  pub matches : Matches r (last_of b pre) word post
  pub first :
      (p w q : Text) → s ≡ p ++ (w ++ q) → Matches r (last_of b p) w q → length pre ≤ length p

-- No part of the text is matched.
abbrev pub Nowhere : Regex → Option ℕ → Text → Type 0
Nowhere r b s = (p w q : Text) → s ≡ p ++ (w ++ q) → Matches r (last_of b p) w q → ⊥

-- What the search has to answer.
pub data Sought (r : Regex) (b : Option ℕ) (s : Text) : Option (ℕ × ℕ) → Type 0 where
  nowhere : Nowhere r b s → Sought r b s none
  first :
      {i n : ℕ} {pre word post : Text}
      → First r b s pre word post
      → length pre ≡ i
      → length word ≡ n
      → Sought r b s (some (i, n))

match-misses :
    {r : Regex} {b : Option ℕ} {s w q : Text}
    → match r b s ≡ none
    → s ≡ w ++ q
    → Matches r b w q
    → ⊥
match-misses {r} {b} miss e m =
    let (n, found) = Matches-match m in
    let clash : none ≡ some n = sym miss ∙ ap (match r b) e ∙ found in cc

-- A match behind the head is a match of the tail.
behind-head :
    {r : Regex} {x d : ℕ} {s : Text} (p w q : Text)
    → x ∷ s ≡ d ∷ (p ++ (w ++ q))
    → Matches r (last_of (some d) p) w q
    → (s ≡ p ++ (w ++ q)) × Matches r (last_of (some x) p) w q
behind-head {r} {x} {d} p w q e m =
    let same : d ≡ x = cc in (cc, subst (λ y. Matches r (last_of (some y) p) w q) same m)

-- A search that fails at the head goes on behind it.
Sought-later :
    {r : Regex} {b : Option ℕ} {x : ℕ} {s : Text} (o : Option (ℕ × ℕ))
    → match r b (x ∷ s) ≡ none
    → Sought r (some x) s o
    → Sought r b (x ∷ s) (at_start none o)
Sought-later {r} {b} {x} {s} o miss (nowhere none_there) = nowhere go
  where
    go : Nowhere r b (x ∷ s)
    go [] w q e m = match-misses miss e m
    go (d ∷ p) w q e m = let (rest, there) = behind-head p w q e m in none_there p w q rest there
Sought-later {r} {b} {x} {s} o miss (first {pre} {word} {post} f i n) =
    first {pre = x ∷ pre}
      (record { splits = ap (λ t. x ∷ t) f.splits; matches = f.matches; first = go }) (ap suc i) n
  where
    go :
        (p w q : Text)
        → x ∷ s ≡ p ++ (w ++ q)
        → Matches r (last_of b p) w q
        → suc (length pre) ≤ length p
    go [] w q e m = absurd (match-misses miss e m)
    go (d ∷ p) w q e m =
        let (rest, there) = behind-head p w q e m in omega (arith, f.first p w q rest there)

Sought-here :
    {r : Regex} {b : Option ℕ} {s : Text} {n : ℕ} (o : Option (ℕ × ℕ))
    → Match r b s n
    → Sought r b s (at_start (some n) o)
Sought-here o m =
    first {pre = []}
      (record { splits = m.splits; matches = m.matches; first = λ p w q e k. omega arith }) refl
      m.size

-- The search from a place behind the character `b`.
search_from-Sought : (r : Regex) (b : Option ℕ) (s : Text) → Sought r b s (search_from r b s)
unfolding search_from
search_from-Sought r b [] = elim (Option-cases (match r b [])) [
  | inl miss ↦ rw miss (nowhere (nothing miss))
  | inr (n, hit) ↦ rw hit (Sought-here none (match-Matches r b [] hit))
]
  where
    nothing : match r b [] ≡ none → Nowhere r b []
    nothing miss [] w q e m = match-misses miss e m
    nothing miss (d ∷ p) w q e m = absurd (cc e)
search_from-Sought r b (x ∷ s) = elim (Option-cases (match r b (x ∷ s))) [
  | inl miss ↦
      rw miss (Sought-later (search_from r (some x) s) miss (search_from-Sought r (some x) s))
  | inr (n, hit) ↦ rw hit (Sought-here (search_from r (some x) s) (match-Matches r b (x ∷ s) hit))
]

-- A search finds the first place that the pattern matches, and where it finds none no part of the
-- text is matched.
pub find_match?-Sought : (r : Regex) (s : Text) → Sought r none s (find_match? r s)
unfolding find_match?
find_match?-Sought r s = search_from-Sought r none s

drop-middle :
    (pre word post : Text) → drop (length pre + length word) (pre ++ (word ++ post)) ≡ post
drop-middle pre word post =
    rw (← length-append pre word, ← append_assoc pre word post)
      (drop-length-append (pre ++ word) post)

-- What a substitution returns: the text with the first match replaced and 1, or the text as it was
-- and 0.
pub data Subn (r : Regex) (new : Text → Text) (s : Text) : Text × ℕ → Type 0 where
  kept : Nowhere r none s → Subn r new s (s, 0)
  replaced :
      {pre word post : Text}
      → First r none s pre word post
      → Subn r new s (pre ++ (new word ++ post), 1)

subn_at-Subn :
    (r : Regex) (new : Text → Text) (s : Text) (o : Option (ℕ × ℕ))
    → Sought r none s o
    → Subn r new s (subn_at new s o)
subn_at-Subn r new s none (nowhere miss) = kept miss
subn_at-Subn r new s (some (i, n)) (first {pre} {word} {post} f ei en) =
    let front : take i s ≡ pre = rw (← ei, f.splits) (take-length-append pre (word ++ post)) in
    let here : drop i s ≡ word ++ post =
      rw (← ei, f.splits) (drop-length-append pre (word ++ post)) in
    let middle : take n (drop i s) ≡ word = rw (here, ← en) (take-length-append word post) in
    let back : drop (i + n) s ≡ post = rw (← ei, ← en, f.splits) (drop-middle pre word post) in
    rw (front, middle, back) (replaced f)

-- A substitution of one match replaces the first one and counts 1, or it finds that no part of the
-- text is matched, leaves the text and counts 0.
pub subn_by-Subn : (r : Regex) (new : Text → Text) (s : Text) → Subn r new s (subn_by r new s)
unfolding subn_by
subn_by-Subn r new s = subn_at-Subn r new s (find_match? r s) (find_match?-Sought r s)

pub subn-Subn : (r : Regex) (new s : Text) → Subn r (λ _. new) s (subn r new s)
unfolding subn
subn-Subn r new s = subn_by-Subn r (λ _. new) s

pub Subn-NoCr :
    {r : Regex} {new : Text → Text} {s : Text} {out : Text × ℕ}
    → Subn r new s out
    → ((w : Text) → NoCr w → NoCr (new w))
    → NoCr s
    → NoCr out.0
Subn-NoCr (kept miss) hn hs = hs
Subn-NoCr {new} (replaced {pre} {word} {post} f) hn hs =
    let parts : NoCr (pre ++ (word ++ post)) = rw f.splits at hs in
    let behind = All-append_right _ pre _ parts in
    All-append _ pre _ (All-append_left _ pre _ parts) (
      All-append _ (new word) post (hn word (All-append_left _ word post behind))
        (All-append_right _ word post behind))

-- What is put in for every match stands in the result, if a match was counted.
pub Subn-contains :
    {r : Regex} {new : Text → Text} {s : Text} {out : Text × ℕ} (part : Text)
    → Subn r new s out
    → out.1 ≡ 1
    → ((b : Option ℕ) (w q : Text) → Matches r b w q → contains part (new w) ≡ true)
    → contains part out.0 ≡ true
Subn-contains part (kept miss) one put = absurd (omega arith)
Subn-contains {new} part (replaced {pre} {word} {post} f) one put =
    contains_trans part (new word) (pre ++ (new word ++ post))
      (put (last_of none pre) word post f.matches) (contains-append pre (new word) post)

-- A text with a matching part in it gets a count of 1.
pub Subn-again :
    {r : Regex} {new : Text → Text} {s : Text} {out : Text × ℕ} (p w q : Text)
    → Subn r new s out
    → s ≡ p ++ (w ++ q)
    → Matches r (last_of none p) w q
    → out.1 ≡ 1
Subn-again p w q (kept miss) e m = absurd (miss p w q e m)
Subn-again p w q (replaced f) e m = refl
