-- ===== src/LwipThread/ClockTexts.antt =====
-- The text that the new clock is put into: its mark is not broken by the include that follows.
use switch_ldn_zt.Base.{
  ℕ, ◌+◌, ◌-◌, true, ◌||◌, some, [], ◌∷◌, ◌++◌, ◌≡◌, refl, sym, ap, ◌∙◌, arith, length, take, drop,
  append_assoc, length-append, take-length-append, drop-length-append, take-append-drop, take-long,
  All-take, All-drop, inl, inr, Bool-cases, Option-cases,
}
use switch_ldn_zt.Text.{Text, codes, rows, contains, starts_with, find?}
use switch_ldn_zt.Text.Occurs.{
  find?-Leftmost, contains-append, contains-right, contains-part, contains_trans,
}
use switch_ldn_zt.Text.Barrier.{contains-barrier}
use switch_ldn_zt.Text.Marked.{Lacks}
use switch_ldn_zt.Text.Newlines.{NoCr, NoCr-append}
use switch_ldn_zt.LwipThread.Places.{insert_at}
use switch_ldn_zt.LwipThread.Clock.{include_switch_header}
use switch_ldn_zt.LwipThread.Texts.{
  monotonic_mark, now_new, switch_guard, guarded_include, inline_anchor, byte_order,
}

pub clean_texts : NoCr now_new × NoCr guarded_include × NoCr inline_anchor × NoCr byte_order
unfolding codes rows
clean_texts = omega arith

insert_at-NoCr : (i : ℕ) (new s : Text) → NoCr new → NoCr s → NoCr (insert_at i new s)
unfolding insert_at
insert_at-NoCr i new s hn hs =
    NoCr-append _ _ (All-take _ i s hs) (NoCr-append new _ hn (All-drop _ i s hs))

pub include_switch_header-NoCr : (s : Text) → NoCr s → NoCr (include_switch_header s)
unfolding include_switch_header
include_switch_header-NoCr s clean = elim (Bool-cases (contains switch_guard s)) [
  | inl there ↦ rw there clean
  | inr new ↦ rw new (insert_at-NoCr _ guarded_include s clean_texts.1 clean)
]

-- the new clock without its last two characters
abbrev now_head : Text
now_head = take (length now_new - 2) now_new

now_head-mark : contains monotonic_mark now_head ≡ true
unfolding contains starts_with codes rows
now_head-mark = refl

-- A text with the new clock in it.
abbrev HasClock : Text → Type 0
HasClock s = (pre : Text) × (post : Text) × (s ≡ pre ++ (now_new ++ post))

head-splits :
    (pre post : Text)
    → pre ++ (now_new ++ post) ≡ (pre ++ now_head) ++ (drop (length now_new - 2) now_new ++ post)
head-splits pre post =
    ap (λ t. pre ++ (t ++ post)) (sym (take-append-drop (length now_new - 2) now_new))
    ∙ simp append_assoc

tail_size : length (drop (length now_new - 2) now_new) ≡ 2
unfolding codes rows
tail_size = refl

-- Before its last character such a text has the mark.
insert_last-mark :
    (s new : Text) → HasClock s → contains monotonic_mark (insert_at (length s - 1) new s) ≡ true
unfolding insert_at
insert_last-mark s new (pre, post, e) =
    let tail = drop (length now_new - 2) now_new ++ post in
    let head = pre ++ now_head in
    let splits : s ≡ head ++ tail = e ∙ head-splits pre post in
    let size : length s ≡ length head + (2 + length post) =
      ap length splits
      ∙ length-append head tail
      ∙ ap (λ k. length head + k)
          (length-append (drop (length now_new - 2) now_new) post
            ∙ ap (λ k. k + length post) tail_size) in
    let front : take (length s - 1) s ≡ head ++ take (length s - 1 - length head) tail =
      ap (take (length s - 1)) splits ∙ take-long (length s - 1) head tail (omega arith) in
    rw
      (
        front,
        append_assoc head (take (length s - 1 - length head) tail) (new ++ drop (length s - 1) s),
      )
      (contains-part monotonic_mark [] head _
        (contains-right monotonic_mark pre now_head now_head-mark))

mark-Lacks : Lacks b'#' monotonic_mark
unfolding codes
mark-Lacks = omega arith

behind_mark :
    (pre post : Text)
    → contains monotonic_mark (pre ++ (codes "#include" ++ post)) ≡ true
    → contains monotonic_mark (pre ++ (guarded_include ++ (codes "#include" ++ post))) ≡ true
unfolding codes
behind_mark pre post h =
    let rest = codes "include" ++ post in
    let cut = contains-barrier b's' (codes "witch_monotonic_now") b'#' mark-Lacks in
    let had : (contains monotonic_mark pre || contains monotonic_mark rest) ≡ true =
      sym (cut pre rest) ∙ h in
    ap (contains monotonic_mark) (sym (append_assoc pre guarded_include (b'#' ∷ rest)))
    ∙ cut (pre ++ guarded_include) rest
    ∙ elim (Bool-cases (contains monotonic_mark pre)) [
      | inl before ↦ rw (contains-part monotonic_mark [] pre guarded_include before)
      | inr gone ↦ ground arith
    ]

insert_include-mark :
    (s : Text) {i : ℕ}
    → find? (codes "#include") s ≡ some i
    → contains monotonic_mark s ≡ true
    → contains monotonic_mark (insert_at i guarded_include s) ≡ true
unfolding insert_at
insert_include-mark s {i} found there =
    let (pre, post, l, size) = find?-Leftmost (codes "#include") s found in
    let front : take i s ≡ pre = rw (← size, l.splits) (take-length-append pre _) in
    let back : drop i s ≡ codes "#include" ++ post =
      rw (← size, l.splits) (drop-length-append pre _) in
    rw (front, back) (behind_mark pre post (rw l.splits at there))

pub include_switch_header-mark :
    (s : Text) → HasClock s → contains monotonic_mark (include_switch_header s) ≡ true
unfolding include_switch_header
include_switch_header-mark s clock = elim (Bool-cases (contains switch_guard s)) [
  | inl there ↦ rw there (has_mark clock)
  | inr new ↦ rw new (elim (Option-cases (find? (codes "#include") s)) [
    | inl gone ↦ rw gone (insert_last-mark s guarded_include clock)
    | inr (i, found) ↦ rw found (insert_include-mark s found (has_mark clock))
  ])
]
  where
    has_mark : HasClock s → contains monotonic_mark s ≡ true
    has_mark (pre, post, e) = rw e (
        contains-part monotonic_mark pre now_new post (
          contains_trans monotonic_mark now_head now_new now_head-mark (
            ap (contains now_head) (sym (take-append-drop (length now_new - 2) now_new))
            ∙ contains-append [] now_head _)))
