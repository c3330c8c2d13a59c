-- ===== src/Text/Occurs.antt =====
-- Where one text stands in another: `in`, `find` and the one-off `replace` against splits of a text.
use switch_ldn_zt.Base.{
  ℕ, suc, ◌≤◌, true, false, none, some, [], ◌∷◌, ◌++◌, ◌≡◌, refl, sym, ap, ◌∙◌, inl, inr, arith,
  append_assoc, append-nil, length, drop, drop-length-append, Bool-cases, Option-cases,
}
use switch_ldn_zt.Text.{Text, eqb, starts_with, contains, find?, replace_first}

pub eqb_sound : (s t : Text) → eqb s t ≡ true → s ≡ t
unfolding eqb
eqb_sound [] [] h = refl
eqb_sound [] (d ∷ t) h = cc
eqb_sound (c ∷ s) [] h = cc
eqb_sound (c ∷ s) (d ∷ t) h = ground (arith, eqb_sound s t)

pub eqb_refl : (s : Text) → eqb s s ≡ true
unfolding eqb
eqb_refl [] = refl
eqb_refl (c ∷ s) = ground (arith, eqb_refl s)

pub starts_with-append : (old s : Text) → starts_with old (old ++ s) ≡ true
unfolding starts_with
starts_with-append [] s = refl
starts_with-append (c ∷ old) s = ground (arith, starts_with-append old s)

pub starts_with_split : (old s : Text) → starts_with old s ≡ true → s ≡ old ++ drop (length old) s
unfolding starts_with
starts_with_split [] s h = refl
starts_with_split (c ∷ old) [] h = cc
starts_with_split (c ∷ old) (d ∷ s) h = ground (arith, starts_with_split old s)

pub starts_with-contains : (old s : Text) → starts_with old s ≡ true → contains old s ≡ true
unfolding contains
starts_with-contains old [] h = h
starts_with-contains old (c ∷ s) h = rw h

pub contains-append : (pre old post : Text) → contains old (pre ++ (old ++ post)) ≡ true
unfolding contains
contains-append [] old post = starts_with-contains old (old ++ post) (starts_with-append old post)
contains-append (c ∷ pre) old post = ground (arith, contains-append pre old post)

pub contains_refl : (s : Text) → contains s s ≡ true
contains_refl s = ap (contains s) (sym (append-nil s)) ∙ contains-append [] s []

-- `old` stands between `pre` and `post`, and nowhere before that.
pub record Leftmost (old s pre post : Text) : Type 0 where
  pub splits : s ≡ pre ++ (old ++ post)
  pub first : (p q : Text) → s ≡ p ++ (old ++ q) → length pre ≤ length p

starts_with-Leftmost :
    (old s : Text) → starts_with old s ≡ true → Leftmost old s [] (drop (length old) s)
starts_with-Leftmost old s h = record {
  splits = starts_with_split old s h;
  first = λ p q e. omega arith;
}

-- A match at the head is the only thing that a later match has to fear.
later-Leftmost :
    (c : ℕ) {old s pre post : Text}
    → starts_with old (c ∷ s) ≡ false
    → Leftmost old s pre post
    → Leftmost old (c ∷ s) (c ∷ pre) post
later-Leftmost c {old} {s} {pre} {post} miss l = record {
  splits = ap (λ t. c ∷ t) l.splits;
  first = bound;
}
  where
    bound : (p q : Text) → c ∷ s ≡ p ++ (old ++ q) → suc (length pre) ≤ length p
    bound [] q e = let hit : starts_with old (c ∷ s) ≡ true = rw e (starts_with-append old q) in cc
    bound (d ∷ p) q e = omega (arith, l.first p q (cc))

pub find?-none : (old s : Text) → find? old s ≡ none → contains old s ≡ false
unfolding find? contains
find?-none old [] h = ground arith
find?-none old (c ∷ s) h = ground (arith, find?-none old s)

pub contains-find? : (old s : Text) → contains old s ≡ false → find? old s ≡ none
unfolding find? contains
contains-find? old [] h = ground arith
contains-find? old (c ∷ s) h = ground (arith, contains-find? old s)

pub find?-Leftmost :
    (old s : Text) {i : ℕ}
    → find? old s ≡ some i
    → (pre : Text) × (post : Text) × Leftmost old s pre post × (length pre ≡ i)
unfolding find?
find?-Leftmost old [] h = elim (Bool-cases (starts_with old [])) [
  | inl hit ↦ ([], _, starts_with-Leftmost old [] hit, ground arith)
  | inr miss ↦ absurd (ground arith)
]
find?-Leftmost old (c ∷ s) h = elim (Bool-cases (starts_with old (c ∷ s))) [
  | inl hit ↦ ([], _, starts_with-Leftmost old (c ∷ s) hit, ground arith)
  | inr miss ↦ elim (Option-cases (find? old s)) [
    | inl gone ↦ absurd (ground arith)
    | inr (j, found) ↦
        let (pre, post, l, e) = find?-Leftmost old s found in
        (c ∷ pre, post, later-Leftmost c miss l, ground arith)
  ]
]

-- A text that is contained has a first place.
pub contains-Leftmost :
    (old s : Text) → contains old s ≡ true → (pre : Text) × (post : Text) × Leftmost old s pre post
contains-Leftmost old s h = elim (Option-cases (find? old s)) [
  | inl gone ↦ absurd (ground (arith, find?-none old s gone))
  | inr (i, found) ↦ let (pre, post, l, _) = find?-Leftmost old s found in (pre, post, l)
]

pub Leftmost-contains : {old s pre post : Text} → Leftmost old s pre post → contains old s ≡ true
Leftmost-contains {old} {pre} {post} l = rw l.splits (contains-append pre old post)

pub contains_trans :
    (a b s : Text) → contains a b ≡ true → contains b s ≡ true → contains a s ≡ true
contains_trans a b s inner outer =
    let (p, q, l) = contains-Leftmost a b inner in
    let (pre, post, k) = contains-Leftmost b s outer in
    let e : s ≡ (pre ++ p) ++ (a ++ (q ++ post)) = k.splits ∙ rw l.splits (simp append_assoc) in
    rw e (contains-append (pre ++ p) a (q ++ post))

-- What a part holds is held.
pub contains-part :
    (old pre part post : Text)
    → contains old part ≡ true
    → contains old (pre ++ (part ++ post)) ≡ true
contains-part old pre part post h = contains_trans old part _ h (contains-append pre part post)

pub contains-right :
    (old pre part : Text) → contains old part ≡ true → contains old (pre ++ part) ≡ true
contains-right old pre part h =
    ap (λ t. contains old (pre ++ t)) (sym (append-nil part)) ∙ contains-part old pre part [] h

replace_first-here :
    (old new s : Text)
    → starts_with old s ≡ true
    → replace_first old new s ≡ new ++ drop (length old) s
unfolding replace_first
replace_first-here [] new [] h = sym (append-nil new)
replace_first-here (d ∷ old) new [] h = cc
replace_first-here old new (c ∷ s) h = rw h

replace_first-at :
    (old new pre post : Text)
    → ((p q : Text) → pre ++ (old ++ post) ≡ p ++ (old ++ q) → length pre ≤ length p)
    → replace_first old new (pre ++ (old ++ post)) ≡ pre ++ (new ++ post)
unfolding replace_first
replace_first-at old new [] post first = rw (
  replace_first-here old new (old ++ post) (starts_with-append old post),
  drop-length-append old post,
)
replace_first-at old new (c ∷ pre) post first = elim (Bool-cases (starts_with old s)) [
  | inl hit ↦ absurd (omega (arith, first [] _ (starts_with_split old s hit)))
  | inr miss ↦ rw miss (
      ap (λ t. c ∷ t)
        (replace_first-at old new pre post
          (λ p q e. omega (arith, first (c ∷ p) q (ap (λ t. c ∷ t) e)))))
]
  where
    s : Text
    s = c ∷ (pre ++ (old ++ post))

-- The one-off replacement puts `new` in the first place of `old`.
pub replace_first-Leftmost :
    {old s pre post : Text} (new : Text)
    → Leftmost old s pre post
    → replace_first old new s ≡ pre ++ (new ++ post)
replace_first-Leftmost {old} {pre} {post} new l =
    rw l.splits (replace_first-at old new pre post (λ p q e. l.first p q (l.splits ∙ e)))

-- Where `old` is missing nothing changes.
pub replace_first-missing :
    (old new s : Text) → contains old s ≡ false → replace_first old new s ≡ s
unfolding replace_first contains
replace_first-missing old new [] h = ground arith
replace_first-missing old new (c ∷ s) h = ground (arith, replace_first-missing old new s)

pub contains-replace_first :
    (old new s : Text) → contains old s ≡ true → contains new (replace_first old new s) ≡ true
contains-replace_first old new s h =
    let (pre, post, l) = contains-Leftmost old s h in
    rw (replace_first-Leftmost new l) (contains-append pre new post)
