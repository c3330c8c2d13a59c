-- ===== src/LwipThread/Extends.antt =====
-- Edits that only insert: nothing of the text is lost.
use switch_ldn_zt.Base.{
  ℕ, zero, suc, ◌≤◌, [], ◌∷◌, ◌++◌, ◌≡◌, ◌⊎◌, inl, inr, refl, sym, ap, ◌∙◌, arith, take, drop,
  append_assoc, take-append-drop, Bool-cases, leb,
}
use mathlib.Core.Path.{subst}
use switch_ldn_zt.Text.{Text, contains, replace_first}
use switch_ldn_zt.Text.Occurs.{contains-Leftmost, replace_first-Leftmost, replace_first-missing}
use switch_ldn_zt.LwipThread.Places.{insert_at, slice, mark_at, include_after}

-- The second text is the first one with texts put in.
pub data Extends (s : Text) : Text → Type 0 where
  same : Extends s s
  insert : (pre new post : Text) → Extends s (pre ++ post) → Extends s (pre ++ (new ++ post))

pub Extends-trans : {s t u : Text} → Extends s t → Extends t u → Extends s u
Extends-trans e same = e
Extends-trans e (insert pre new post f) = insert pre new post (Extends-trans e f)

pub insert_at-Extends : (i : ℕ) (new s : Text) → Extends s (insert_at i new s)
unfolding insert_at
insert_at-Extends i new s =
    insert (take i s) new (drop i s) (subst (Extends s) (sym (take-append-drop i s)) same)

pub mark_at-Extends : (mark : Text) (i : ℕ) (new s : Text) → Extends s (mark_at mark i new s)
unfolding mark_at
mark_at-Extends mark i new s = elim (Bool-cases (contains mark s)) [
  | inl there ↦ rw there same
  | inr gone ↦ rw gone (insert_at-Extends i new s)
]

pub replace_first-Extends :
    (anchor new s : Text) → Extends s (replace_first anchor (anchor ++ new) s)
replace_first-Extends anchor new s = elim (Bool-cases (contains anchor s)) [
  | inr gone ↦ rw (replace_first-missing anchor (anchor ++ new) s gone) same
  | inl hit ↦
      let (pre, post, l) = contains-Leftmost anchor s hit in
      let before : s ≡ (pre ++ anchor) ++ post = l.splits ∙ sym (append_assoc pre anchor post) in
      let after : replace_first anchor (anchor ++ new) s ≡ (pre ++ anchor) ++ (new ++ post) =
        replace_first-Leftmost (anchor ++ new) l ∙ simp append_assoc in
      rw after (insert (pre ++ anchor) new post (subst (Extends s) before same))
]

pub include_after-Extends : (mark anchor new s : Text) → Extends s (include_after mark anchor new s)
unfolding include_after
include_after-Extends mark anchor new s = elim (Bool-cases (contains mark s)) [
  | inl there ↦ rw there same
  | inr gone ↦ rw gone (replace_first-Extends anchor new s)
]

-- A slice, and what stands on its sides.
slice-sides : (i j : ℕ) (s : Text) → i ≤ j → take i s ++ (slice i j s ++ drop j s) ≡ s
slice-sides zero j s h = take-append-drop j s
slice-sides (suc i) zero s h = absurd (omega arith)
slice-sides (suc i) (suc j) [] h = refl
slice-sides (suc i) (suc j) (c ∷ s) h = ap (λ t. c ∷ t) (slice-sides i j s (omega arith))

slice-empty : (i j : ℕ) (s : Text) → j ≤ i → slice i j s ≡ []
slice-empty zero zero s h = refl
slice-empty (suc i) zero s h = refl
slice-empty zero (suc j) s h = absurd (omega arith)
slice-empty (suc i) (suc j) [] h = refl
slice-empty (suc i) (suc j) (c ∷ s) h = slice-empty i j s (omega arith)

drop-slice : (i j : ℕ) (s : Text) → j ≤ i → drop j s ≡ slice j i s ++ drop i s
drop-slice i zero s h = sym (take-append-drop i s)
drop-slice zero (suc j) s h = absurd (omega arith)
drop-slice (suc i) (suc j) [] h = refl
drop-slice (suc i) (suc j) (c ∷ s) h = drop-slice i j s (omega arith)

order : (i j : ℕ) → (i ≤ j) ⊎ (j ≤ i)
order i j = elim (Bool-cases (leb i j)) [ inl h ↦ inl (ground arith) | inr h ↦ inr (ground arith) ]

-- The slice from `i` to `j` put between two texts, wherever `j` is.
pub around-Extends :
    (i j : ℕ) (before after s : Text)
    → Extends s (take i s ++ (before ++ (slice i j s ++ (after ++ drop j s))))
around-Extends i j before after s = elim (order i j) [
  | inl forward ↦
      let whole =
        subst (Extends s)
          (sym (slice-sides i j s forward) ∙ sym (append_assoc (take i s) (slice i j s) (drop j s)))
          same in
      let behind = insert (take i s ++ slice i j s) after (drop j s) whole in
      insert (take i s) before _
        (subst (Extends s) (append_assoc (take i s) (slice i j s) (after ++ drop j s)) behind)
  | inr backward ↦
      let whole = subst (Extends s) (sym (take-append-drop i s)) same in
      let put = insert (take i s) (before ++ (after ++ slice j i s)) (drop i s) whole in
      let e : take i s ++ ((before ++ (after ++ slice j i s)) ++ drop i s)
          ≡ take i s ++ (before ++ (slice i j s ++ (after ++ drop j s))) =
        rw (slice-empty i j s backward, drop-slice i j s backward) (simp append_assoc) in
      subst (Extends s) e put
]
