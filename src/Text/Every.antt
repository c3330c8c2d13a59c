-- ===== src/Text/Every.antt =====
-- The full `replace` and `count` as a relation: take the first place, and go on behind it.
use switch_ldn_zt.Base.{
  ℕ, zero, suc, ◌<◌, false, ◌∷◌, ◌++◌, ◌≡◌, sym, ap, ◌∙◌, inl, inr, arith, length, length-append,
  All-append, All-append_left, All-append_right, Bool-cases,
}
use switch_ldn_zt.Text.{Text, contains, count, replace_every}
use switch_ldn_zt.Text.Occurs.{Leftmost, contains-Leftmost}
use switch_ldn_zt.Text.Count.{
  count-Leftmost, count-missing, replace_every-Leftmost, replace_every-missing,
}
use switch_ldn_zt.Text.Newlines.{NoCr}

-- `t` is `s` with `n` places of `old`, all that there are from the left, replaced by `new`.
pub data Every (old new : Text) : ℕ → Text → Text → Type 0 where
  none_left : {s : Text} → contains old s ≡ false → Every old new zero s s
  one :
      {n : ℕ} {s t u pre post : Text}
      → Leftmost old s pre post
      → Every old new n post t
      → u ≡ pre ++ (new ++ t)
      → Every old new (suc n) s u

module _ (c : ℕ) (old new : Text) where
  -- The relation has one outcome: what `count` and `replace` compute.
  pub Every-count : {n : ℕ} {s t : Text} → Every (c ∷ old) new n s t → count (c ∷ old) s ≡ n
  Every-count (none_left {s} miss) = count-missing c old s miss
  Every-count (one l rest _) = count-Leftmost c old l ∙ ap suc (Every-count rest)

  pub Every-replace_every :
      {n : ℕ} {s t : Text} → Every (c ∷ old) new n s t → replace_every (c ∷ old) new s ≡ t
  Every-replace_every (none_left {s} miss) = replace_every-missing c old new s miss
  Every-replace_every (one {pre} l rest e) =
      replace_every-Leftmost c old new l
      ∙ ap (λ t. pre ++ (new ++ t)) (Every-replace_every rest)
      ∙ sym e

  Leftmost-shorter : {s pre post : Text} → Leftmost (c ∷ old) s pre post → length post < length s
  Leftmost-shorter {pre} {post} l =
      omega (arith, ap length l.splits, length-append pre (c ∷ old ++ post), length-append old post)

  Every-below :
      (k : ℕ) (s : Text)
      → length s < k
      → Every (c ∷ old) new (count (c ∷ old) s) s (replace_every (c ∷ old) new s)
  Every-below zero s h = absurd (omega arith)
  Every-below (suc k) s h = elim (Bool-cases (contains (c ∷ old) s)) [
    | inr miss ↦
        rw (count-missing c old s miss, replace_every-missing c old new s miss) (none_left miss)
    | inl hit ↦
        let (pre, post, l) = contains-Leftmost (c ∷ old) s hit in
        let rest = Every-below k post (omega (arith, Leftmost-shorter l)) in
        rw (count-Leftmost c old l) (one l rest (replace_every-Leftmost c old new l))
  ]

  -- And it has an outcome for every text.
  pub Every-total :
      (s : Text) → Every (c ∷ old) new (count (c ∷ old) s) s (replace_every (c ∷ old) new s)
  Every-total s = Every-below (suc (length s)) s (omega arith)

  pub Every-NoCr : {n : ℕ} {s t : Text} → NoCr new → Every (c ∷ old) new n s t → NoCr s → NoCr t
  Every-NoCr hn (none_left _) hs = hs
  Every-NoCr hn (one {pre} {post} l rest e) hs =
      let parts : NoCr (pre ++ (c ∷ old ++ post)) = rw l.splits at hs in
      let behind : NoCr post = All-append_right _ (c ∷ old) post (All-append_right _ pre _ parts) in
      rw e (
        All-append _ pre _ (All-append_left _ pre _ parts)
          (All-append _ new _ hn (Every-NoCr hn rest behind)))
