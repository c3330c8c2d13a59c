-- ===== src/LwipThread/Closes.antt =====
-- What the scan for a closing bracket has passed, when it ends: a text in which the brackets are nested.
use mathlib.Core.Path.{subst, ap₂}
use switch_ldn_zt.Base.{
  ℕ, zero, suc, Option, none, some, [], ◌∷◌, ◌++◌, ◌≡◌, ◌≢◌, refl, sym, ap, ◌∙◌, arith, inl, inr,
  length, append_assoc, ◌==◌, Bool-cases,
}
use switch_ldn_zt.Text.{Text, later}
use switch_ldn_zt.LwipThread.Places.{close_of}
use switch_ldn_zt.LwipThread.Scans.{
  Nested, nil, other, group, step-left, step-other, step-right, step-end,
}

pub later-some : (o : Option ℕ) {k : ℕ} → later o ≡ some k → (j : ℕ) × (o ≡ some j) × (k ≡ suc j)
later-some none h = absurd (cc h)
later-some (some j) h = (j, refl, ground arith)

module _ (left right : ℕ) where
  -- A text after which one more closing bracket closes the `d` groups that are open around the
  -- innermost one, and that one.
  pub data Unclosed : ℕ → Text → Type 0 where
    inside : {w : Text} → Nested left right w → Unclosed zero w
    outer :
        {d : ℕ} {v w : Text}
        → Nested left right v
        → Unclosed d w
        → Unclosed (suc d) (v ++ right ∷ w)

  Unclosed-other : {d c : ℕ} {w : Text} → c ≢ left → c ≢ right → Unclosed d w → Unclosed d (c ∷ w)
  Unclosed-other a b (inside n) = inside (other a b n)
  Unclosed-other a b (outer n u) = outer (other a b n) u

  -- An opening bracket, and the group that it opens.
  Unclosed-group : {d : ℕ} {w : Text} → Unclosed (suc d) w → Unclosed d (left ∷ w)
  Unclosed-group (outer n (inside k)) = inside (group n k)
  Unclosed-group (outer {v} n (outer {v = v1} {w} k u)) =
      subst (Unclosed _) (ap (λ t. left ∷ t) (append_assoc v (right ∷ v1) (right ∷ w)))
        (outer (group n k) u)

  -- Where a scan ends inside `d` and one open brackets.
  pub record Ends (d k : ℕ) (s : Text) : Type 0 where
    pub passed : Text
    pub post : Text
    pub unclosed : Unclosed d passed
    pub splits : s ≡ passed ++ right ∷ post
    pub size : k ≡ length passed

  nothing_left : (d : ℕ) {k : ℕ} → close_of left right (suc d) 0 [] ≡ some k → ⊥
  unfolding close_of
  nothing_left d h = cc h

  module _ (apart : right ≢ left) where
    -- at a closing bracket, with what is known of the text behind it
    at_right :
        (d : ℕ) (s : Text) {k : ℕ}
        → ((e j : ℕ) → close_of left right (suc e) 0 s ≡ some j → Ends e j s)
        → close_of left right (suc d) 0 (right ∷ s) ≡ some k
        → Ends d k (right ∷ s)
    at_right zero s {k} behind h =
        let none_passed : some 0 ≡ some k = sym (step-end left right apart 0 s) ∙ h in
        record { passed = []; post = s; unclosed = inside nil; splits = refl; size = ground arith }
    at_right (suc d) s behind h =
        let (j, rest, size) =
          later-some (close_of left right (suc d) 0 s)
            (sym (step-right left right apart (suc d) 0 s (omega arith)) ∙ h) in
        let r = behind d j rest in
        record {
          passed = right ∷ r.passed;
          post = r.post;
          unclosed = outer nil r.unclosed;
          splits = ap (λ t. right ∷ t) r.splits;
          size = size ∙ ap suc r.size;
        }

    pub close_of-Ends :
        (d : ℕ) (s : Text) {k : ℕ} → close_of left right (suc d) 0 s ≡ some k → Ends d k s
    close_of-Ends d [] h = absurd (nothing_left d h)
    close_of-Ends d (x ∷ s) {k} h = elim (Bool-cases (x == left)) [
      | inl is_left ↦
          let e : x ≡ left = ground arith in
          let at : close_of left right (suc d) 0 (left ∷ s) ≡ some k = rw e at h in
          let (j, rest, size) =
            later-some (close_of left right (suc (suc d)) 0 s)
              (sym (step-left left right (suc d) 0 s) ∙ at) in
          let r = close_of-Ends (suc d) s rest in
          record {
            passed = left ∷ r.passed;
            post = r.post;
            unclosed = Unclosed-group r.unclosed;
            splits = ap₂ (λ c t. c ∷ t) e r.splits;
            size = size ∙ ap suc r.size;
          }
      | inr not_left ↦ elim (Bool-cases (x == right)) [
        | inr not_right ↦
            let a : x ≢ left = ground arith in
            let b : x ≢ right = ground arith in
            let (j, rest, size) =
              later-some (close_of left right (suc d) 0 s)
                (sym (step-other left right (suc d) 0 s a b) ∙ h) in
            let r = close_of-Ends d s rest in
            record {
              passed = x ∷ r.passed;
              post = r.post;
              unclosed = Unclosed-other a b r.unclosed;
              splits = ap (λ t. x ∷ t) r.splits;
              size = size ∙ ap suc r.size;
            }
        | inl is_right ↦
            let e : x ≡ right = ground arith in
            let at : close_of left right (suc d) 0 (right ∷ s) ≡ some k = rw e at h in
            subst (λ c. Ends d k (c ∷ s)) (sym e) (at_right d s (λ e j. close_of-Ends e s) at)
      ]
    ]
