-- ===== src/LwipThread/Scans.antt =====
-- The scan for a closing bracket against the grammar of nested brackets.
use switch_ldn_zt.Base.{
  ℕ, suc, ◌+◌, ◌<◌, Option, none, some, [], ◌∷◌, ◌++◌, ◌≡◌, ◌≢◌, refl, ap, ◌∙◌, arith, length,
  length-append, append_assoc,
}
use switch_ldn_zt.Text.{Text, later}
use switch_ldn_zt.LwipThread.Places.{shifted, close_of}

module _ (left right : ℕ) where
  -- Texts in which every bracket has its partner.
  pub data Nested : Text → Type 0 where
    nil : Nested []
    other : {c : ℕ} {s : Text} → c ≢ left → c ≢ right → Nested s → Nested (c ∷ s)
    group :
        {inner rest : Text} → Nested inner → Nested rest → Nested (left ∷ (inner ++ right ∷ rest))

  shifted-shifted : (i j : ℕ) (o : Option ℕ) → shifted i (shifted j o) ≡ shifted (i + j) o
  shifted-shifted i j none = refl
  shifted-shifted i j (some k) = ap some (omega arith)

  shifted_zero : (o : Option ℕ) → o ≡ shifted 0 o
  shifted_zero none = refl
  shifted_zero (some k) = ap some (omega arith)

  -- Only the depth counts.
  close_of-suc :
      (o c : ℕ) (s : Text) → close_of left right (suc o) (suc c) s ≡ close_of left right o c s
  unfolding close_of
  close_of-suc o c [] = refl
  close_of-suc o c (x ∷ s) =
      ground (arith, close_of-suc o c s, close_of-suc (o + 1) c s, close_of-suc o (c + 1) s)

  pub step-left :
      (o c : ℕ) (s : Text)
      → close_of left right o c (left ∷ s) ≡ later (close_of left right (suc o) c s)
  unfolding close_of
  step-left o c s = ground arith

  pub step-other :
      (o c : ℕ) {x : ℕ} (s : Text)
      → x ≢ left
      → x ≢ right
      → close_of left right o c (x ∷ s) ≡ later (close_of left right o c s)
  unfolding close_of
  step-other o c s no_left no_right = ground arith

  later-shifted : (n : ℕ) (o : Option ℕ) → later (shifted n o) ≡ shifted (suc n) o
  later-shifted n none = refl
  later-shifted n (some k) = ap some (omega arith)

  module _ (apart : right ≢ left) where
    pub step-right :
        (o c : ℕ) (s : Text)
        → c < o
        → close_of left right (suc o) c (right ∷ s) ≡ later (close_of left right o c s)
    unfolding close_of
    step-right o c s less = ground (arith, close_of-suc o c s)

    pub step-end : (c : ℕ) (s : Text) → close_of left right (suc c) c (right ∷ s) ≡ some 0
    unfolding close_of
    step-end c s = ground arith

    -- Inside an open bracket a nested text is passed over.
    close_of-Nested :
        {s : Text}
        → Nested s
        → (o c : ℕ) (rest : Text) → c < o
        → close_of left right o c (s ++ rest) ≡ shifted (length s) (close_of left right o c rest)
    close_of-Nested nil o c rest less = shifted_zero _
    close_of-Nested (other {s} no_left no_right n) o c rest less =
        step-other o c (s ++ rest) no_left no_right
        ∙ ap later (close_of-Nested n o c rest less)
        ∙ later-shifted (length s) _
    close_of-Nested (group {inner} {rest = after} n k) o c rest less =
        let end = close_of left right o c rest in
        let size : suc (length inner + suc (length after))
            ≡ length (left ∷ (inner ++ right ∷ after)) =
          omega (arith, length-append inner (right ∷ after)) in
        step-left o c ((inner ++ right ∷ after) ++ rest)
        ∙ ap (λ t. later (close_of left right (suc o) c t))
            (append_assoc inner (right ∷ after) rest)
        ∙ ap later (close_of-Nested n (suc o) c (right ∷ (after ++ rest)) (omega arith))
        ∙ ap (λ e. later (shifted (length inner) e)) (step-right o c (after ++ rest) less)
        ∙ ap (λ e. later (shifted (length inner) (later e))) (close_of-Nested k o c rest less)
        ∙ ap (λ e. later (shifted (length inner) e)) (later-shifted (length after) end)
        ∙ ap later (shifted-shifted (length inner) (suc (length after)) end)
        ∙ later-shifted (length inner + suc (length after)) end
        ∙ ap (λ n. shifted n end) size

    -- From a bracket on, the scan ends at its partner, if the brackets between the two are nested.
    pub close_of_finds :
        {s : Text}
        → Nested s
        → (rest : Text)
        → close_of left right 0 0 (left ∷ (s ++ right ∷ rest)) ≡ some (suc (length s))
    close_of_finds {s} n rest =
        step-left 0 0 (s ++ right ∷ rest)
        ∙ ap later (close_of-Nested n 1 0 (right ∷ rest) (omega arith))
        ∙ ap (λ e. later (shifted (length s) e)) (step-end 0 rest)
        ∙ ap some (omega arith)
