-- ===== src/Text/Barrier.antt =====
-- A searched text does not run over a character that it lacks: insertions beside one keep what
-- a text contains.
use switch_ldn_zt.Base.{
  ℕ, zero, suc, true, ◌||◌, some, none, [], ◌∷◌, ◌++◌, ◌≡◌, sym, ap, ◌∙◌, arith, length,
  append_assoc, inl, inr, Option-cases, Bool-cases,
}
use switch_ldn_zt.Text.{Text, starts_with, contains, replace_first, find_from?, later}
use switch_ldn_zt.Text.Occurs.{
  contains-Leftmost, replace_first-Leftmost, replace_first-missing, find?-Leftmost,
}
use switch_ldn_zt.Text.Marked.{Lacks, starts_with-cut}

module _ (c : ℕ) (o : Text) where
  pub contains-barrier :
      (x : ℕ)
      → Lacks x (c ∷ o)
      → (pre w : Text)
      → contains (c ∷ o) (pre ++ x ∷ w) ≡ (contains (c ∷ o) pre || contains (c ∷ o) w)
  unfolding contains starts_with
  contains-barrier x (ne, l) [] w = ground arith
  contains-barrier x (ne, l) (d ∷ pre) w =
      ground (arith, contains-barrier x (ne, l) pre w, starts_with-cut x o l pre w)

  pub contains-suffix :
      (x post : Text) → contains (c ∷ o) post ≡ true → contains (c ∷ o) (x ++ post) ≡ true
  unfolding contains
  contains-suffix [] post h = h
  contains-suffix (d ∷ x) post h = ground (arith, contains-suffix x post h)

  -- A block between two characters that the searched text lacks.
  pub contains-block :
      (x y : ℕ)
      → Lacks x (c ∷ o)
      → Lacks y (c ∷ o)
      → (pre block post : Text)
      → contains (c ∷ o) (pre ++ x ∷ (block ++ y ∷ post))
        ≡ (contains (c ∷ o) pre || (contains (c ∷ o) block || contains (c ∷ o) post))
  contains-block x y lx ly pre block post =
      contains-barrier x lx pre (block ++ y ∷ post)
      ∙ ap (λ b. contains (c ∷ o) pre || b) (contains-barrier y ly block post)

  -- An insertion behind a character that the searched text lacks loses no occurrence of it.
  pub contains-insert :
      (y : ℕ) (line new s : Text)
      → Lacks y (c ∷ o)
      → contains (c ∷ o) s ≡ true
      → contains (c ∷ o) (replace_first (line ++ y ∷ []) ((line ++ y ∷ []) ++ new) s) ≡ true
  contains-insert y line new s ly h = elim (Bool-cases (contains (line ++ y ∷ []) s)) [
    | inr miss ↦ rw (replace_first-missing (line ++ y ∷ []) ((line ++ y ∷ []) ++ new) s miss) h
    | inl hit ↦
        let (pre, post, l) = contains-Leftmost (line ++ y ∷ []) s hit in
        let before : s ≡ (pre ++ line) ++ y ∷ post = l.splits ∙ simp append_assoc in
        let after : replace_first (line ++ y ∷ []) ((line ++ y ∷ []) ++ new) s
            ≡ (pre ++ line) ++ y ∷ (new ++ post) =
          replace_first-Leftmost ((line ++ y ∷ []) ++ new) l ∙ simp append_assoc in
        let had : (contains (c ∷ o) (pre ++ line) || contains (c ∷ o) post) ≡ true =
          sym (contains-barrier y ly (pre ++ line) post) ∙ rw before at h in
        rw (after, contains-barrier y ly (pre ++ line) (new ++ post))
          (elim (Bool-cases (contains (c ∷ o) post)) [
            | inl later_on ↦ rw (contains-suffix new post later_on) (ground arith)
            | inr nowhere ↦ ground arith
          ])
  ]

-- What `find` with a start gives is the index of an occurrence.
pub find_from?-splits :
    (n : ℕ) (old s : Text) {i : ℕ}
    → find_from? n old s ≡ some i
    → (pre : Text) × (post : Text) × (s ≡ pre ++ (old ++ post)) × (length pre ≡ i)
unfolding find_from?
find_from?-splits zero old s h =
    let (pre, post, l, e) = find?-Leftmost old s h in (pre, post, l.splits, e)
find_from?-splits (suc n) old [] h = cc
find_from?-splits (suc n) old (c ∷ s) h = elim (Option-cases (find_from? n old s)) [
  | inl gone ↦ let bad : later none ≡ some _ = rw gone at h in cc
  | inr (j, found) ↦
      let (pre, post, e, size) = find_from?-splits n old s found in
      (c ∷ pre, post, ap (λ t. c ∷ t) e, ground arith)
]
