-- ===== src/LwipThread/Intro.antt =====
-- The rewrite of `introduce_thread` in `sys_arch.c`: from the first place that looks like its
-- definition to the brace that closes its body.
use mathlib.Core.Path.{subst}
use switch_ldn_zt.Base.{
  ℕ, suc, ◌+◌, true, false, Option, none, some, [], ◌∷◌, ◌++◌, ◌≡◌, refl, sym, ap, ◌∙◌, inl, inr,
  arith, length, take, drop, length-append, append_assoc, take-length-append, drop-length-append,
  Option-cases,
}
use switch_ldn_zt.Text.{Text, codes, contains, find?, find_from?}
use switch_ldn_zt.Text.Occurs.{find?-Leftmost, find?-none, contains_trans, contains-append}
use switch_ldn_zt.Text.Marked.{Leftmost-before}
use switch_ldn_zt.Disk.{FilePath}
use switch_ldn_zt.Script.{ok}
use switch_ldn_zt.Script.Outcome.{expect}
use switch_ldn_zt.Script.Outcome.Laws.{bind-ok, ok-injective, expect-ok}
use switch_ldn_zt.Regex.{lit, sp, sps, find_match?}
use switch_ldn_zt.Regex.Pieces.{Matches-contains}
use switch_ldn_zt.Regex.Searching.{First, Sought, first, find_match?-Sought}
use switch_ldn_zt.LdnPatch.Edit.Function.{find_from?-append}
use switch_ldn_zt.LwipThread.Places.{shifted, close_of, close_from?, close_after?}
use switch_ldn_zt.LwipThread.Scans.{Nested, step-left}
use switch_ldn_zt.LwipThread.Closes.{later-some, Unclosed, inside, close_of-Ends}
use switch_ldn_zt.LwipThread.SysArch.{rewrite_intro}
use switch_ldn_zt.LwipThread.Texts.{intro_pat, intro_new}

-- The helper's definition in `s`, and `u` is `s` with the new one in its place.
pub record IsRewritten (s u : Text) : Type 0 where
  pub pre : Text
  pub signature : Text
  pub body : Text
  pub post : Text
  pub matched : Text
  pub behind : Text
  -- the first match of the pattern starts where the definition does
  pub starts : First intro_pat none s pre matched behind
  pub splits : s ≡ pre ++ (signature ++ b'{' ∷ (body ++ b'}' ∷ post))
  pub no_brace : contains (b'{' ∷ []) signature ≡ false
  pub nested : Nested b'{' b'}' body
  pub result : u ≡ pre ++ (intro_new ++ post)

Nested-Unclosed : {w : Text} → Unclosed b'{' b'}' 0 w → Nested b'{' b'}' w
Nested-Unclosed (inside n) = n

-- The match of the signature holds a brace.
brace_matched :
    {s pre matched behind : Text}
    → First intro_pat none s pre matched behind
    → contains (codes "{") (matched ++ behind) ≡ true
brace_matched {matched} {behind} f =
    contains_trans (codes "{") matched (matched ++ behind)
      (Matches-contains
        (lit "static"
          ∷ sps
          ∷ lit "struct"
          ∷ sps
          ∷ lit "sys_thread"
          ∷ sp
          ∷ lit "*"
          ∷ sp
          ∷ lit "introduce_thread"
          ∷ sp
          ∷ lit "("
          ∷ sp
          ∷ lit "pthread_t"
          ∷ sps
          ∷ lit "id"
          ∷ sp
          ∷ lit ")"
          ∷ sp
          ∷ [])
        "{" _ f.matches)
      (contains-append [] matched behind)

shifted-some :
    (i : ℕ) (o : Option ℕ) {k : ℕ} → shifted i o ≡ some k → (j : ℕ) × (o ≡ some j) × (k ≡ i + j)
shifted-some i none h = absurd (cc h)
shifted-some i (some j) h = (j, refl, ground arith)

-- Behind a part that starts with `c` and goes on with `mid`.
drop_part :
    (pre mid post : Text) (c : ℕ) {k : ℕ}
    → k ≡ length pre + suc (length mid)
    → drop k (pre ++ c ∷ (mid ++ post)) ≡ post
drop_part pre mid post c e =
    rw (e, ← length-append pre (c ∷ mid), ← append_assoc pre (c ∷ mid) post)
      (drop-length-append (pre ++ c ∷ mid) post)

-- The text at the brace that the scan starts from.
module _ {s : Text} (pre gap behind : Text) (splits : s ≡ pre ++ (gap ++ b'{' ∷ behind))
    (no_brace : contains (b'{' ∷ []) gap ≡ false) where
  at_brace : drop (length pre + length gap) s ≡ b'{' ∷ behind
  at_brace =
      rw (splits, ← length-append pre gap, ← append_assoc pre gap (b'{' ∷ behind))
        (drop-length-append (pre ++ gap) (b'{' ∷ behind))

  module _ {u matched after : Text} {close : ℕ} (f : First intro_pat none s pre matched after)
      (made : take (length pre) s ++ (intro_new ++ drop (close + 1) s) ≡ u) where
    from_ends :
        (body post : Text)
        → Nested b'{' b'}' body
        → behind ≡ body ++ b'}' ∷ post
        → close ≡ (length pre + length gap) + suc (length body)
        → IsRewritten s u
    from_ends body post nested ends far =
        let whole : s ≡ pre ++ (gap ++ b'{' ∷ (body ++ b'}' ∷ post)) =
          splits ∙ ap (λ t. pre ++ (gap ++ b'{' ∷ t)) ends in
        let parts : s ≡ (pre ++ gap) ++ b'{' ∷ ((body ++ b'}' ∷ []) ++ post) =
          whole ∙ simp append_assoc in
        let size : close + 1 ≡ length (pre ++ gap) + suc (length (body ++ b'}' ∷ [])) =
          omega (arith, far, length-append pre gap, length-append body (b'}' ∷ [])) in
        let rest : drop (close + 1) s ≡ post =
          ap (drop (close + 1)) parts ∙ drop_part (pre ++ gap) (body ++ b'}' ∷ []) post b'{' size in
        let front : take (length pre) s ≡ pre =
          ap (take (length pre)) whole ∙ take-length-append pre _ in
        record {
          pre = pre;
          signature = gap;
          body = body;
          post = post;
          matched = matched;
          behind = after;
          starts = f;
          splits = whole;
          no_brace = no_brace;
          nested = nested;
          result =
              sym made
              ∙ ap (λ t. t ++ (intro_new ++ drop (close + 1) s)) front
              ∙ ap (λ t. pre ++ (intro_new ++ t)) rest;
        }

    from_brace :
        close_from? b'{' b'}' (some (length pre + length gap)) s ≡ some close → IsRewritten s u
    unfolding close_from? close_after?
    from_brace scanned =
        let i = length pre + length gap in
        let (j, there, far) = shifted-some i (close_of b'{' b'}' 0 0 (drop i s)) scanned in
        let here : close_of b'{' b'}' 0 0 (b'{' ∷ behind) ≡ some j = rw at_brace at there in
        let (k, inside_it, next) =
          later-some (close_of b'{' b'}' 1 0 behind)
            (sym (step-left b'{' b'}' 0 0 behind) ∙ here) in
        let e = close_of-Ends b'{' b'}' (omega arith) 0 behind inside_it in
        from_ends e.passed e.post (Nested-Unclosed e.unclosed) e.splits
          (omega (arith, far, next, e.size))

from_match :
    {s u : Text} {start size close : ℕ}
    → Sought intro_pat none s (some (start, size))
    → close_from? b'{' b'}' (find_from? start (codes "{") s) s ≡ some close
    → take start s ++ (intro_new ++ drop (close + 1) s) ≡ u
    → IsRewritten s u
unfolding codes
from_match {s} {u} {close} (first {pre} {word} {post} f i n) scanned made =
    elim (Option-cases (find? (codes "{") (word ++ post))) [
      | inl gone ↦ absurd (ground (arith, find?-none (codes "{") _ gone, brace_matched f))
      | inr (b, brace) ↦
          let (gap, behind, l, size) = find?-Leftmost (codes "{") (word ++ post) brace in
          let at : find_from? (length pre) (codes "{") s ≡ some (length pre + length gap) =
            rw f.splits (find_from?-append pre (codes "{") (word ++ post) brace)
            ∙ ap (λ k. some (length pre + k)) (sym size) in
          from_brace pre gap behind (f.splits ∙ ap (λ t. pre ++ t) l.splits)
            (Leftmost-before (λ e. cc e) l) f (rw (← i) at made) (rw (← i, at) at scanned)
    ]

-- The rewrite, where it makes a text, puts the new definition for the old one: from the first match of
-- the signature to the brace that closes the body.
pub rewrite_intro-IsRewritten :
    (path : FilePath) (s : Text) {u : Text} → rewrite_intro path s ≡ ok u → IsRewritten s u
unfolding rewrite_intro
rewrite_intro-IsRewritten path s h =
    let ((start, size), first_step, rest) = bind-ok (expect _ _ (find_match? intro_pat s)) _ h in
    let found = expect-ok _ _ (find_match? intro_pat s) first_step in
    let (close, second_step, last) = bind-ok (expect _ _ (close_from? _ _ _ s)) _ rest in
    let scanned = expect-ok _ _ (close_from? _ _ _ s) second_step in
    from_match (subst (Sought intro_pat none s) found (find_match?-Sought intro_pat s)) scanned
      (ok-injective last)
