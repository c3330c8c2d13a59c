-- ===== src/Text/Count.antt =====
-- `count` and the full `replace`, read one match at a time from the left. The searched text is
-- `c ∷ old`, since an empty one matches everywhere.
use switch_ldn_zt.Base.{
  ℕ, zero, suc, ◌-◌, ◌≤◌, true, false, [], ◌∷◌, ◌++◌, ◌≡◌, refl, ap, ◌∙◌, inl, inr, arith, length,
  drop, drop-length-append, Bool-cases, append-nil,
}
use switch_ldn_zt.Text.{Text, starts_with, contains, count, count_from, replace_every, replace_from}
use switch_ldn_zt.Text.Occurs.{Leftmost, starts_with-append, starts_with_split, contains-Leftmost}

module _ (c : ℕ) (old : Text) where
  count_from-drop : (k : ℕ) (s : Text) → count_from k (c ∷ old) s ≡ count (c ∷ old) (drop k s)
  unfolding count
  count_from-drop zero s = refl
  count_from-drop (suc k) [] = refl
  count_from-drop (suc k) (d ∷ s) = count_from-drop k s

  count-here :
      (s : Text)
      → starts_with (c ∷ old) s ≡ true
      → count (c ∷ old) s ≡ suc (count (c ∷ old) (drop (suc (length old)) s))
  unfolding count
  count-here [] h = cc
  count-here (d ∷ s) h = ground (arith, count_from-drop (length old) s)

  count-at :
      (pre post : Text)
      → ((p q : Text) → pre ++ (c ∷ old ++ post) ≡ p ++ (c ∷ old ++ q) → length pre ≤ length p)
      → count (c ∷ old) (pre ++ (c ∷ old ++ post)) ≡ suc (count (c ∷ old) post)
  unfolding count
  count-at [] post first =
      count-here (c ∷ old ++ post) (starts_with-append (c ∷ old) post)
      ∙ rw (drop-length-append old post)
  count-at (d ∷ pre) post first = elim (Bool-cases (starts_with (c ∷ old) s)) [
    | inl hit ↦ absurd (omega (arith, first [] _ (starts_with_split (c ∷ old) s hit)))
    | inr miss ↦ rw miss (
        omega
          (arith, count-at pre post (λ p q e. omega (arith, first (d ∷ p) q (ap (λ t. d ∷ t) e)))))
  ]
    where
      s : Text
      s = d ∷ (pre ++ (c ∷ old ++ post))

  -- One match more than in what follows the first.
  pub count-Leftmost :
      {s pre post : Text}
      → Leftmost (c ∷ old) s pre post
      → count (c ∷ old) s ≡ suc (count (c ∷ old) post)
  count-Leftmost {s} {pre} {post} l =
      rw l.splits (count-at pre post (λ p q e. l.first p q (l.splits ∙ e)))

  pub count-missing : (s : Text) → contains (c ∷ old) s ≡ false → count (c ∷ old) s ≡ 0
  unfolding count contains
  count-missing [] h = ground arith
  count-missing (d ∷ s) h = ground (arith, count-missing s)

  pub missing-count : (s : Text) → count (c ∷ old) s ≡ 0 → contains (c ∷ old) s ≡ false
  missing-count s h = elim (Bool-cases (contains (c ∷ old) s)) [
    | inl hit ↦
        let (pre, post, l) = contains-Leftmost (c ∷ old) s hit in
        absurd (omega (arith, count-Leftmost l))
    | inr miss ↦ miss
  ]

  module _ (new : Text) where
    replace_from-drop :
        (k : ℕ) (s : Text) → replace_from k (c ∷ old) new s ≡ replace_every (c ∷ old) new (drop k s)
    unfolding replace_every
    replace_from-drop zero s = refl
    replace_from-drop (suc k) [] = refl
    replace_from-drop (suc k) (d ∷ s) = replace_from-drop k s

    replace_every-here :
        (s : Text)
        → starts_with (c ∷ old) s ≡ true
        → replace_every (c ∷ old) new s
          ≡ new ++ replace_every (c ∷ old) new (drop (suc (length old)) s)
    unfolding replace_every
    replace_every-here [] h = cc
    replace_every-here (d ∷ s) h =
        let kept : 1 - suc (length old) ≡ 0 = omega arith in
        let passed : suc (length old) - 1 ≡ length old = omega arith in
        rw (h, kept, passed, append-nil, replace_from-drop (length old) s)

    replace_every-at :
        (pre post : Text)
        → ((p q : Text) → pre ++ (c ∷ old ++ post) ≡ p ++ (c ∷ old ++ q) → length pre ≤ length p)
        → replace_every (c ∷ old) new (pre ++ (c ∷ old ++ post))
          ≡ pre ++ (new ++ replace_every (c ∷ old) new post)
    unfolding replace_every
    replace_every-at [] post first =
        replace_every-here (c ∷ old ++ post) (starts_with-append (c ∷ old) post)
        ∙ rw (drop-length-append old post)
    replace_every-at (d ∷ pre) post first = elim (Bool-cases (starts_with (c ∷ old) s)) [
      | inl hit ↦ absurd (omega (arith, first [] _ (starts_with_split (c ∷ old) s hit)))
      | inr miss ↦ rw miss (
          ap (λ t. d ∷ t)
            (replace_every-at pre post
              (λ p q e. omega (arith, first (d ∷ p) q (ap (λ t. d ∷ t) e)))))
    ]
      where
        s : Text
        s = d ∷ (pre ++ (c ∷ old ++ post))

    -- The first match is replaced, and the rest of the text after it likewise.
    pub replace_every-Leftmost :
        {s pre post : Text}
        → Leftmost (c ∷ old) s pre post
        → replace_every (c ∷ old) new s ≡ pre ++ (new ++ replace_every (c ∷ old) new post)
    replace_every-Leftmost {s} {pre} {post} l =
        rw l.splits (replace_every-at pre post (λ p q e. l.first p q (l.splits ∙ e)))

    pub replace_every-missing :
        (s : Text) → contains (c ∷ old) s ≡ false → replace_every (c ∷ old) new s ≡ s
    unfolding replace_every contains
    replace_every-missing [] h = ground arith
    replace_every-missing (d ∷ s) h = ground (arith, replace_every-missing s)
