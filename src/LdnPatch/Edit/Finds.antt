-- ===== src/LdnPatch/Edit/Finds.antt =====
-- `replace_function` from a run that returns to the function in the text.
use mathlib.Core.Path.{subst, ap₂}
use mathlib.Core.List.{cons-ne-nil}
use switch_ldn_zt.Base.{
  ℕ, ◌+◌, false, Option, none, some, [], ◌∷◌, ◌++◌, ◌≡◌, refl, sym, ap, ◌∙◌, arith, append_assoc,
  length, length-append, drop, drop-length-append,
}
use switch_ldn_zt.Text.{Text, codes, contains, find?, find_from?, later}
use switch_ldn_zt.Text.Occurs.{Leftmost, find?-Leftmost}
use switch_ldn_zt.Text.Marked.{Lacks, Leftmost-before}
use switch_ldn_zt.Disk.{FilePath}
use switch_ldn_zt.Script.{ok, Machine, raise, try_read, read_text}
use switch_ldn_zt.Script.Inversion.{>>=-run}
use switch_ldn_zt.LdnPatch.Edit.{
  replace_function, replace_found, replace_from_brace, replace_body, close_brace,
}
use switch_ldn_zt.LdnPatch.Edit.Braces.{opening, closing, close_brace-finds}
use switch_ldn_zt.LdnPatch.Edit.Laws.{read_text-run}
use switch_ldn_zt.LdnPatch.Edit.Function.{Function, find_from?-append}

missing-Lacks : (c : ℕ) (s : Text) → contains (c ∷ []) s ≡ false → Lacks c s
unfolding contains
missing-Lacks c [] h = tt
missing-Lacks c (d ∷ s) h = (ground arith, missing-Lacks c s (ground arith))

-- A text without a brace that stands before one ends before it.
split_at_brace :
    (sig post g after : Text)
    → Lacks opening sig
    → sig ++ post ≡ g ++ opening ∷ after
    → (gap : Text) × (g ≡ sig ++ gap) × (post ≡ gap ++ opening ∷ after)
split_at_brace [] post g after _ e = (g, refl, e)
split_at_brace (c ∷ sig) post [] after (ne, _) e = absurd (ne (cc))
split_at_brace (c ∷ sig) post (d ∷ g) after (_, l) e =
    let (gap, e1, e2) = split_at_brace sig post g after l (cc) in
    let same : c ≡ d = cc in (gap, ground arith, e2)

find_from?-none :
    (pre old t : Text) → find? old t ≡ none → find_from? (length pre) old (pre ++ t) ≡ none
unfolding find_from?
find_from?-none [] old t h = h
find_from?-none (c ∷ pre) old t h = ap later (find_from?-none pre old t h)

abbrev brace_text : Text
brace_text = opening ∷ []

module _ (path : FilePath) (signature new_body text : Text) (m : Machine) {m' : Machine}
    (no_brace : Lacks opening signature) where
  module _ (pre post : Text) (l : Leftmost signature text pre post) where
    -- with the group that the scan has found
    close-finds :
        (g behind : Text) (closed : Option ℕ)
        → signature ++ post ≡ g ++ opening ∷ behind
        → Lacks opening g
        → close_brace 0 (length pre + length g) (opening ∷ behind) ≡ closed
        → replace_body path signature new_body text (length pre) closed m ≡ (ok tt, m')
        → Function signature text
    unfolding replace_body raise
    close-finds g behind none split lacks c h = absurd (cc (ap (λ x. x.0) h))
    close-finds g behind (some e) split lacks c h =
        let (gap, g_is, post_is) = split_at_brace signature post g behind no_brace split in
        let (body, after, balanced, behind_is, _) = close_brace-finds _ behind c in
        let post_whole : post ≡ gap ++ opening ∷ (body ++ closing ∷ after) =
          post_is ∙ ap (λ t. gap ++ opening ∷ t) behind_is in
        record {
          before = pre;
          gap = gap;
          body = body;
          after = after;
          found = subst (Leftmost signature text pre) post_whole l;
          no_brace = subst (Lacks opening) g_is lacks;
          balanced = balanced;
        }

    brace-finds :
        (brace : Option ℕ)
        → find? brace_text (signature ++ post) ≡ brace
        → replace_from_brace path signature new_body text
            (length pre)
            (find_from? (length pre) brace_text text)
            m
          ≡ (ok tt, m')
        → Function signature text
    unfolding replace_from_brace raise
    brace-finds none gone h =
        let nowhere : find_from? (length pre) brace_text text ≡ none =
          ap (find_from? (length pre) brace_text) l.splits
          ∙ find_from?-none pre brace_text (signature ++ post) gone in
        let h' = rw nowhere at h in absurd (cc (ap (λ x. x.0) h'))
    brace-finds (some j) hit h =
        let (g, behind, lg, size) = find?-Leftmost brace_text (signature ++ post) hit in
        let there : find_from? (length pre) brace_text text ≡ some (length pre + length g) =
          ap (find_from? (length pre) brace_text) l.splits
          ∙ find_from?-append pre brace_text (signature ++ post) (hit ∙ ap some (sym size)) in
        let text_is : text ≡ (pre ++ g) ++ opening ∷ behind =
          l.splits ∙ ap (λ t. pre ++ t) lg.splits ∙ sym (append_assoc pre g (opening ∷ behind)) in
        let dropped : drop (length pre + length g) text ≡ opening ∷ behind =
          ap₂ drop (sym (length-append pre g)) text_is
          ∙ drop-length-append (pre ++ g) (opening ∷ behind) in
        close-finds g behind _ lg.splits
          (missing-Lacks opening g (Leftmost-before (cons-ne-nil opening []) lg)) refl
          (sym (
              ap (λ b. replace_from_brace path signature new_body text (length pre) b m) there
              ∙ ap
                  (λ t.
                    replace_body path signature new_body text (length pre)
                      (close_brace 0 (length pre + length g) t) m)
                  dropped)
            ∙ h)

  found-finds :
      (found : Option ℕ)
      → find? signature text ≡ found
      → replace_found path signature new_body text found m ≡ (ok tt, m')
      → Function signature text
  unfolding replace_found raise codes
  found-finds none gone h = absurd (cc (ap (λ x. x.0) h))
  found-finds (some start) hit h =
      let (pre, post, l, size) = find?-Leftmost signature text hit in
      brace-finds pre post l _ refl (rw (← size) at h)

-- Where the file can be read and the signature itself holds no opening brace, a run of
-- `replace_function` that returns has found the function: the first place of the signature, and
-- behind it a body in braces that is balanced.
pub replace_function_finds :
    (path : FilePath) (signature new_body : Text) {text : Text} (m : Machine) {m' : Machine}
    → Lacks opening signature
    → try_read path m ≡ some text
    → replace_function path signature new_body m ≡ (ok tt, m')
    → Function signature text
unfolding replace_function
replace_function_finds path signature new_body {text} m no_brace read h =
    found-finds path signature new_body text m no_brace _ refl
      (sym (>>=-run (read_text path) _ m (read_text-run path read)) ∙ h)
