-- ===== src/Text/Marked.antt =====
-- Marked texts: the first character stands nowhere else in them (`#define …`, `_phy(…`). Two of
-- their occurrences cannot overlap, so a replacement of one leaves the others of a file alone.
use mathlib.Core.List.{cons-ne-nil}
use switch_ldn_zt.Base.{
  drop-length-append, ◌+◌, ◌<◌, append_assoc, length-append, ℕ, false, ◌||◌, [], ◌∷◌, ◌++◌, ◌≡◌,
  ◌≢◌, refl, sym, ap, ◌∙◌, arith, length, All, inl, inr, Bool-cases,
}
use switch_ldn_zt.Text.{Text, starts_with, contains, count, replace_first}
use switch_ldn_zt.Text.Occurs.{
  starts_with-append, Leftmost, contains-Leftmost, replace_first-Leftmost, replace_first-missing,
}
use switch_ldn_zt.Text.Count.{count-Leftmost, count-missing, missing-count}

length-pos : (s : Text) → s ≢ [] → 0 < length s
length-pos [] h = absurd (h refl)
length-pos (c ∷ s) h = omega arith

abbrev pub Lacks : ℕ → Text → Type 0
Lacks b = All (λ c. c ≢ b)

module _ (h : ℕ) where
  pub starts_with-cut :
      (o : Text) → Lacks h o → (pre w : Text) → starts_with o (pre ++ h ∷ w) ≡ starts_with o pre
  unfolding starts_with
  starts_with-cut [] _ pre w = refl
  starts_with-cut (x ∷ o) (ne, l) [] w = ground arith
  starts_with-cut (x ∷ o) (ne, l) (y ∷ pre) w = ground (arith, starts_with-cut o l pre w)

  -- A match of a marked text cannot run into another mark.
  pub contains-cut :
      (o : Text)
      → Lacks h o
      → (pre w : Text)
      → contains (h ∷ o) (pre ++ h ∷ w) ≡ (contains (h ∷ o) pre || contains (h ∷ o) (h ∷ w))
  unfolding contains
  contains-cut o l [] w = refl
  contains-cut o l (c ∷ pre) w = ground (arith, contains-cut o l pre w, starts_with-cut o l pre w)

  -- A match begins with the mark, so it does not begin inside a text that lacks the mark.
  pub contains-skip :
      (o n post : Text) → Lacks h n → contains (h ∷ o) (n ++ post) ≡ contains (h ∷ o) post
  unfolding contains
  contains-skip o [] post _ = refl
  contains-skip o (x ∷ n) post (ne, l) = ground (arith, contains-skip o n post l)

  -- `o` goes on otherwise than `n`, whatever follows `n`.
  abbrev pub Clash : Text → Text → Type 0
  Clash o n = (post : Text) → starts_with o (n ++ post) ≡ false

  contains-middle :
      (o n : Text)
      → Lacks h o
      → Lacks h n
      → Clash o n
      → (pre post : Text)
      → contains (h ∷ o) (pre ++ (h ∷ n ++ post)) ≡ (contains (h ∷ o) pre || contains (h ∷ o) post)
  unfolding contains
  contains-middle o n lo ln clash pre post =
      ground (arith, contains-cut o lo pre (n ++ post), contains-skip o n post ln, clash post)

-- Before the first place of a text there is no whole one.
pub Leftmost-before :
    {old s pre post : Text} → old ≢ [] → Leftmost old s pre post → contains old pre ≡ false
Leftmost-before {old} {s} {pre} {post} some_text l = elim (Bool-cases (contains old pre)) [
  | inr miss ↦ miss
  | inl hit ↦
      let (p, q, found) = contains-Leftmost old pre hit in
      let earlier : s ≡ p ++ (old ++ (q ++ (old ++ post))) =
        l.splits ∙ rw found.splits (simp append_assoc) in
      let size : length pre ≡ length p + (length old + length q) =
        ap length found.splits ∙ length-append p _ ∙ ap (λ k. length p + k) (length-append old q) in
      absurd (omega (arith, l.first p _ earlier, length-pos old some_text))
]

module _ (h : ℕ) (o n : Text) (lo : Lacks h o) (ln : Lacks h n) where
  -- The only match is gone after its replacement by another marked text.
  pub contains-replace_once :
      (s : Text)
      → count (h ∷ o) s ≡ 1
      → Clash h o n
      → contains (h ∷ o) (replace_first (h ∷ o) (h ∷ n) s) ≡ false
  contains-replace_once s one clash = elim (Bool-cases (contains (h ∷ o) s)) [
    | inr miss ↦ absurd (omega (arith, count-missing h o s miss))
    | inl hit ↦
        let (pre, post, l) = contains-Leftmost (h ∷ o) s hit in
        rw
          (
            replace_first-Leftmost (h ∷ n) l,
            contains-middle h o n lo ln clash pre post,
            Leftmost-before (cons-ne-nil h o) l,
          )
          (missing-count h o post (omega (arith, count-Leftmost h o l)))
  ]

module _ (h : ℕ) (o n d : Text) (lo : Lacks h o) (ln : Lacks h n) (ld : Lacks h d) where
  -- Replacing one marked text by another keeps whether a third one occurs.
  pub contains-replace_other :
      (s : Text)
      → Clash h d o
      → Clash h d n
      → contains (h ∷ d) (replace_first (h ∷ o) (h ∷ n) s) ≡ contains (h ∷ d) s
  contains-replace_other s away_old away_new = elim (Bool-cases (contains (h ∷ o) s)) [
    | inr miss ↦ rw (replace_first-missing (h ∷ o) (h ∷ n) s miss)
    | inl hit ↦
        let (pre, post, l) = contains-Leftmost (h ∷ o) s hit in
        rw (replace_first-Leftmost (h ∷ n) l, contains-middle h d n ld ln away_new pre post)
          (sym (rw l.splits (contains-middle h d o ld lo away_old pre post)))
  ]

-- The first whole place of a marked text is the first one behind a text without it.
pub replace_first-marked :
    (h : ℕ) (o new pre post : Text)
    → Lacks h o
    → contains (h ∷ o) pre ≡ false
    → replace_first (h ∷ o) new (pre ++ (h ∷ o ++ post)) ≡ pre ++ (new ++ post)
unfolding replace_first contains starts_with
replace_first-marked h o new [] post lo miss =
    ground (arith, starts_with-append o post, ap (λ t. new ++ t) (drop-length-append o post))
replace_first-marked h o new (c ∷ pre) post lo miss =
    ground (arith, starts_with-cut h o lo pre (o ++ post), replace_first-marked h o new pre post lo)
