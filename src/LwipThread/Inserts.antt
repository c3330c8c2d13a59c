-- ===== src/LwipThread/Inserts.antt =====
-- What the edits of the three lwIP sources keep.
use switch_ldn_zt.Base.{ℕ, ◌+◌, Bool, true, false, Option, ◌≡◌, if◌then◌else◌}
use mathlib.Core.Path.{subst}
use switch_ldn_zt.Text.{Text}
use switch_ldn_zt.Disk.{FilePath}
use switch_ldn_zt.Script.{Result, ok}
use switch_ldn_zt.Script.Outcome.{◌>>=◌}
use switch_ldn_zt.Script.Outcome.Laws.{bind-ok, ok-injective}
use switch_ldn_zt.LwipThread.Places.{line_start}
use switch_ldn_zt.LwipThread.SysArch.{
  rewrite_intro, mark_entry, fix_stack, mark_introduced, mark_intro, edit_sys_arch,
}
use switch_ldn_zt.LwipThread.VirtualTap.{wrap_call, wrap_first_call, edit_virtual_tap}
use switch_ldn_zt.LwipThread.Tcpip.{mark_before_done, mark_after_done, edit_tcpip}
use switch_ldn_zt.LwipThread.Intro.{IsRewritten, rewrite_intro-IsRewritten}
use switch_ldn_zt.LwipThread.Texts.{before_done, after_done, stack_head, stack_foot}
use switch_ldn_zt.LwipThread.Extends.{
  Extends, same, Extends-trans, insert_at-Extends, mark_at-Extends, include_after-Extends,
  replace_first-Extends, around-Extends,
}

-- Whatever the computation makes holds a text that extends `s`.
pub record Inserts {A : Type 0} (text : A → Text) (s : Text) (r : Result A) : Type 0 where
  pub made : {a : A} → r ≡ ok a → Extends s (text a)

module _ {A : Type 0} (text : A → Text) where
  Inserts-ok : {s : Text} (a : A) → Extends s (text a) → Inserts text s (ok a)
  Inserts-ok {s} a e = record { made = λ h. subst (λ x. Extends s (text x)) (ok-injective h) e }

  Inserts-if :
      {s : Text} (b : Bool) (k l : Result A)
      → Inserts text s k
      → Inserts text s l
      → Inserts text s (if b then k else l)
  Inserts-if true k l hk hl = hk
  Inserts-if false k l hk hl = hl

  Inserts-trans : {s t : Text} {r : Result A} → Extends s t → Inserts text t r → Inserts text s r
  Inserts-trans e h = record { made = λ g. Extends-trans e (h.made g) }

  -- behind a step that makes no text
  Inserts-any :
      {B : Type 0} {s : Text} (r : Result B) (f : B → Result A)
      → ((b : B) → Inserts text s (f b))
      → Inserts text s (r >>= f)
  Inserts-any r f h = record { made = λ g. let (b, _, rest) = bind-ok r f g in (h b).made rest }

  Inserts-bind :
      {B : Type 0} {s : Text} (first : B → Text) (r : Result B) (f : B → Result A)
      → Inserts first s r
      → ((b : B) → Inserts text (first b) (f b))
      → Inserts text s (r >>= f)
  Inserts-bind first r f hr h = record {
    made = λ g.
        let (b, there, rest) = bind-ok r f g in Extends-trans (hr.made there) ((h b).made rest);
  }

abbrev whole : Text → Text
whole t = t

mark_before_done-Inserts : (s : Text) → Inserts whole s (mark_before_done s)
unfolding mark_before_done
mark_before_done-Inserts s =
    Inserts-if whole _ _ _ (Inserts-ok whole s same)
      (Inserts-any whole _ _ λ i. Inserts-ok whole _ (insert_at-Extends i before_done s))

mark_after_done-Inserts : (s : Text) → Inserts whole s (mark_after_done s)
unfolding mark_after_done
mark_after_done-Inserts s = Inserts-if whole _ _ _ (Inserts-ok whole s same) (
    Inserts-any whole _ _
      λ i. Inserts-any whole _ _ λ j. Inserts-ok whole _ (insert_at-Extends (j + 1) after_done s))

-- Where the edits of `tcpip.c` make a text, it is the old one with texts put in.
pub edit_tcpip-Extends :
    (path : FilePath) (s : Text) {t : Text} → edit_tcpip path s ≡ ok t → Extends s t
unfolding edit_tcpip
edit_tcpip-Extends path s h = steps.made h
  where
    steps : Inserts whole s (edit_tcpip path s)
    steps = Inserts-trans whole (include_after-Extends _ _ _ s) (
        Inserts-any whole _ _ λ i. Inserts-trans whole (mark_at-Extends _ i _ _) (
          Inserts-any whole _ _ λ j.
            Inserts-bind whole whole _ _
              (Inserts-trans whole (mark_at-Extends _ j _ _) (mark_before_done-Inserts _))
              mark_after_done-Inserts))

wrap_call-Extends :
    (label : Text) (place semi : ℕ) (src : Text) → Extends src (wrap_call label place semi src)
unfolding wrap_call
wrap_call-Extends label place semi src = around-Extends (line_start place src) (semi + 1) _ _ src

wrap_first_call-Inserts : (name label s : Text) → Inserts whole s (wrap_first_call name label s)
unfolding wrap_first_call
wrap_first_call-Inserts name label s = Inserts-if whole _ _ _ (Inserts-ok whole s same) (
    Inserts-any whole _ _ λ place. Inserts-any whole _ _ λ close.
      Inserts-any whole _ _ λ semi. Inserts-ok whole _ (wrap_call-Extends label place semi s))

-- Where the edits of `VirtualTap.cpp` make a text, it is the old one with texts put in.
pub edit_virtual_tap-Extends : (s : Text) {t : Text} → edit_virtual_tap s ≡ ok t → Extends s t
unfolding edit_virtual_tap
edit_virtual_tap-Extends s h = steps.made h
  where
    steps : Inserts whole s (edit_virtual_tap s)
    steps = Inserts-any whole _ _ λ i.
        Inserts-bind whole whole _ _
          (Inserts-trans whole (mark_at-Extends _ i _ s) (wrap_first_call-Inserts _ _ _))
          λ t.
            Inserts-bind whole whole _ _ (wrap_first_call-Inserts _ _ t)
              (wrap_first_call-Inserts _ _)

mark_entry-Inserts : (s : Text) → Inserts (λ x. x.0) s (mark_entry s)
unfolding mark_entry
mark_entry-Inserts s = Inserts-any _ _ _ λ i.
    Inserts-if _ _ _ _ (Inserts-ok _ (s, i) same)
      (Inserts-any _ _ _ λ j. Inserts-ok _ (_, j) (insert_at-Extends i _ s))

fix_stack-Inserts : (start : ℕ) (s : Text) → Inserts (λ x. x.0) s (fix_stack start s)
unfolding fix_stack
fix_stack-Inserts start s = Inserts-any _ _ _ λ (call, semi).
    Inserts-if _ _ _ _ (Inserts-ok _ _ same) (
      Inserts-any _ _ _
        λ j. Inserts-ok _ _ (around-Extends (line_start call s) (semi + 1) stack_head stack_foot s))

mark_introduced-Inserts : (call : Option ℕ) (s : Text) → Inserts whole s (mark_introduced call s)
unfolding mark_introduced
mark_introduced-Inserts call s = Inserts-if whole _ _ _ (Inserts-ok whole s same) (
    Inserts-any whole _ _ λ block. Inserts-any whole _ _ λ intro.
      Inserts-trans whole (insert_at-Extends intro _ s)
        (Inserts-any whole _ _ λ close. Inserts-ok whole _ (insert_at-Extends (close + 2) _ _)))

mark_intro-Inserts : (s : Text) → Inserts whole s (mark_intro s)
unfolding mark_intro
mark_intro-Inserts s = Inserts-if whole _ _ _ (Inserts-ok whole s same) (
    Inserts-any whole _ _ λ there.
      Inserts-ok whole _
        (Extends-trans (replace_first-Extends _ _ s) (replace_first-Extends _ _ _)))

-- Where the edits of `sys_arch.c` make a text, the old one holds a definition of `introduce_thread`,
-- which starts at the first match of its signature and has a body in which the braces are nested; and
-- the new text is the old one with the new definition in the place of that one, and then texts put in.
pub edit_sys_arch-Extends :
    (path : FilePath) (s : Text) {t : Text}
    → edit_sys_arch path s ≡ ok t
    → (u : Text) × IsRewritten s u × Extends u t
unfolding edit_sys_arch
edit_sys_arch-Extends path s h =
    let (u, first, rest) = bind-ok (rewrite_intro path s) _ h in
    let edits =
      Inserts-bind whole (λ x. x.0) _ _
        (Inserts-trans (λ x. x.0) (include_after-Extends _ _ _ u) (mark_entry-Inserts _))
        (λ (entered, start).
          Inserts-bind whole (λ x. x.0) _ _ (fix_stack-Inserts start entered)
            (λ (fixed, call, semi).
              Inserts-bind whole whole _ _
                (Inserts-trans whole (mark_at-Extends _ _ _ fixed) (mark_introduced-Inserts call _))
                mark_intro-Inserts)) in
    (u, rewrite_intro-IsRewritten path s first, edits.made rest)
