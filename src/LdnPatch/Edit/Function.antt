-- ===== src/LdnPatch/Edit/Function.antt =====
-- `replace_function` on a text that holds the function which the signature announces.
use mathlib.Core.Path.{subst, ap₂}
use switch_ldn_zt.Base.{
  ℕ, ◌+◌, some, [], ◌∷◌, ◌++◌, ◌≡◌, refl, sym, ap, ◌∙◌, inl, inr, arith, append_assoc, length,
  length-append, take, drop, take-length-append, drop-length-append, All-append, All-append_left,
  All-append_right, All-drop, Option-cases,
}
use switch_ldn_zt.Text.{Text, codes, starts_with, find?, find_from?, later}
use switch_ldn_zt.Text.Occurs.{Leftmost, Leftmost-contains, find?-Leftmost, find?-none}
use switch_ldn_zt.Text.Marked.{Lacks}
use switch_ldn_zt.Text.Newlines.{NoCr}
use switch_ldn_zt.Disk.{FilePath}
use switch_ldn_zt.Script.{Machine, Script, try_read, read_text, write_text}
use switch_ldn_zt.Script.Inversion.{>>=-run}
use switch_ldn_zt.Walk.Target.{try_read-NoCr}
use switch_ldn_zt.LdnPatch.Edit.{
  replace_function, replace_found, replace_from_brace, replace_body, close_brace,
}
use switch_ldn_zt.LdnPatch.Edit.Braces.{opening, closing, Balanced, close_brace-braced}
use switch_ldn_zt.LdnPatch.Edit.Laws.{Rewrites, Rewrites-by, read_text-run, write_text-Rewrites}

-- A text with a function: the first place of the signature, then no brace but those of a body.
pub record Function (signature text : Text) : Type 0 where
  pub before : Text
  pub gap : Text
  pub body : Text
  pub after : Text
  pub found : Leftmost signature text before (gap ++ opening ∷ (body ++ closing ∷ after))
  pub no_brace : Lacks opening (signature ++ gap)
  pub balanced : Balanced body

abbrev pub rewritten : {signature text : Text} → Function signature text → Text → Text
rewritten {signature} f new_body = f.before ++ (signature ++ (codes " " ++ (new_body ++ f.after)))

-- The search for the brace starts at the signature.
pub find_from?-append :
    (pre old t : Text) {i : ℕ}
    → find? old t ≡ some i
    → find_from? (length pre) old (pre ++ t) ≡ some (length pre + i)
unfolding find_from?
find_from?-append [] old t {i} h = h ∙ ap some (omega arith)
find_from?-append (c ∷ pre) old t {i} h =
    ap later (find_from?-append pre old t h) ∙ ap some (omega arith)

find?-Lacks :
    (gap rest : Text)
    → Lacks opening gap
    → find? (opening ∷ []) (gap ++ opening ∷ rest) ≡ some (length gap)
unfolding find? starts_with
find?-Lacks [] rest _ = refl
find?-Lacks (c ∷ gap) rest (ne, l) = ground (arith, find?-Lacks gap rest l)

find?-at : {old s pre post : Text} → Leftmost old s pre post → find? old s ≡ some (length pre)
find?-at {old} {s} {pre} {post} l = elim (Option-cases (find? old s)) [
  | inl gone ↦ absurd (ground (arith, find?-none old s gone, Leftmost-contains l))
  | inr (i, hit) ↦
      let (pre', post', l', e) = find?-Leftmost old s hit in
      hit ∙ ap some (omega (arith, l.first pre' post' l'.splits, l'.first pre post l.splits))
]

module _ {signature text : Text} (f : Function signature text) where
  open f use {before, gap, body, after}

  abbrev head : Text
  head = before ++ (signature ++ gap)

  abbrev rest : Text
  rest = body ++ closing ∷ after

  text-head : text ≡ head ++ opening ∷ rest
  text-head = f.found.splits ∙ simp append_assoc

  brace_found : find_from? (length before) (codes "{") text ≡ some (length head)
  unfolding codes
  brace_found =
      let behind : text ≡ before ++ ((signature ++ gap) ++ opening ∷ rest) =
        f.found.splits ∙ simp append_assoc in
      rw behind (
        find_from?-append before (opening ∷ []) ((signature ++ gap) ++ opening ∷ rest)
          (find?-Lacks (signature ++ gap) rest f.no_brace))
      ∙ ap some (sym (length-append before (signature ++ gap)))

  brace_closed :
      close_brace 0 (length head) (drop (length head) text) ≡ some (length head + (length body + 2))
  brace_closed =
      rw (text-head, drop-length-append head (opening ∷ rest))
        (close_brace-braced body f.balanced (length head) after)

  abbrev whole : Text
  whole = head ++ opening ∷ (body ++ closing ∷ [])

  text_behind : drop (length head + (length body + 2)) text ≡ after
  text_behind =
      let size : length whole ≡ length head + (length body + 2) = omega (
        arith,
        length-append head (opening ∷ (body ++ closing ∷ [])),
        length-append body (closing ∷ []),
      ) in
      let split : text ≡ whole ++ after = text-head ∙ simp append_assoc in
      ap₂ drop (sym size) split ∙ drop-length-append whole after

  text_before : take (length before) text ≡ before
  text_before = ap (take (length before)) f.found.splits ∙ take-length-append before _

  -- The three searches succeed, and the write is that of the new body.
  found-writes :
      (path : FilePath) (new_body : Text)
      → replace_found path signature new_body text (find? signature text)
        ≡ write_text path (rewritten f new_body)
  unfolding replace_found replace_from_brace replace_body
  found-writes path new_body =
      ap (replace_found path signature new_body text) (find?-at f.found)
      ∙ ap (replace_from_brace path signature new_body text (length before)) brace_found
      ∙ ap (replace_body path signature new_body text (length before)) brace_closed
      ∙ ap₂ (λ a b. write_text path (a ++ (signature ++ (codes " " ++ (new_body ++ b)))))
          text_before text_behind

  rewritten-NoCr : (new_body : Text) → NoCr text → NoCr new_body → NoCr (rewritten f new_body)
  unfolding codes
  rewritten-NoCr new_body clean clean_body =
      let parts : NoCr (before ++ (signature ++ (gap ++ opening ∷ (body ++ closing ∷ after)))) =
        subst NoCr f.found.splits clean in
      let no_cr_sig = All-append_left _ signature _ (All-append_right _ before _ parts) in
      let no_cr_after : NoCr after =
        subst NoCr text_behind (All-drop _ (length head + (length body + 2)) text clean) in
      All-append _ before _ (All-append_left _ before _ parts) (
        All-append _ signature _ no_cr_sig
          (omega arith, All-append _ new_body after clean_body no_cr_after))

-- Where the file can be read and holds the function, and the new body holds no `\r`,
-- `replace_function` returns: the file then reads with a blank and the new body behind the
-- signature, up to the brace that closes the old body, and every other file as before.
pub replace_function_lem :
    (path : FilePath) {signature text : Text} {m : Machine} (f : Function signature text)
    (new_body : Text)
    → try_read path m ≡ some text
    → NoCr new_body
    → Rewrites path (rewritten f new_body) (replace_function path signature new_body) m
unfolding replace_function
replace_function_lem path {signature} {text} {m} f new_body read clean =
    Rewrites-by (replace_function path signature new_body) (write_text path (rewritten f new_body))
      (>>=-run (read_text path) _ m (read_text-run path read)
        ∙ ap (λ (s : Script Unit). s m) (found-writes f path new_body))
      (write_text-Rewrites path (rewritten f new_body) m
        (rewritten-NoCr f new_body (try_read-NoCr path m read) clean))
