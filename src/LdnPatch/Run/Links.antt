-- ===== src/LdnPatch/Run/Links.antt =====
-- What a whole run makes of the Makefile.
use mathlib.Core.Path.{subst}
use mathlib.Core.Option.{some-injective}
use switch_ldn_zt.Base.{none, true, ◌≡◌, refl, sym, ap, ◌∙◌}
use switch_ldn_zt.Text.{Text, codes, eqb, contains, count, replace_every}
use switch_ldn_zt.Text.Every.{Every, Every-total}
use switch_ldn_zt.Text.Newlines.{NoCr}
use switch_ldn_zt.Disk.{find_file}
use switch_ldn_zt.Script.{ok, Machine, ◌>>=◌, print}
use switch_ldn_zt.Script.Inversion.{>>=-ok}
use switch_ldn_zt.Script.Frame.{
  Leaves, Leaves-bind, Leaves-if, Leaves-pure, Leaves-unlink, Leaves-exists, Leaves-copy_file,
  leaves_rules,
}
use switch_ldn_zt.Script.Ensures.{From-write_text}
use switch_ldn_zt.Script.Revises.{Revised, Revises, Revises-last, Revises-first, Revises-read_text}
use switch_ldn_zt.LdnPatch.Run.{
  Host, preflight, supply, edit_sources, edit_makefile, check_result, main, zt_stubs, makefile,
  flags_line, flags_lines,
}
use switch_ldn_zt.LdnPatch.Run.Checks.{IsLinked, IsLinked-files, check_result-ok, flags-NoCr}
use switch_ldn_zt.LdnPatch.Run.Touched.{Leaves-apply_edits, Leaves-preflight, Leaves-check_result}

supply-Leaves : Leaves makefile supply
unfolding supply eqb codes
supply-Leaves = Leaves-bind _ _ (Leaves-copy_file _ _ _ refl) λ _.
    Leaves-bind _ _ (Leaves-copy_file _ _ _ refl) λ _.
      Leaves-bind _ _ (Leaves-copy_file _ _ _ refl) λ _.
        Leaves-bind _ _ (Leaves-exists zt_stubs)
          λ b. Leaves-if b _ _ (Leaves-unlink zt_stubs refl) (Leaves-pure tt)

edit_sources-Leaves : Leaves makefile edit_sources
unfolding edit_sources eqb codes
edit_sources-Leaves = Leaves-bind _ _ (Leaves-apply_edits _ refl _) λ _.
    Leaves-bind _ _ (Leaves-apply_edits _ refl _)
      λ _. Leaves-bind _ _ (Leaves-apply_edits _ refl _) λ _. Leaves-apply_edits _ refl _

flags_total :
    (new s : Text) → Every flags_line new (count flags_line s) s (replace_every flags_line new s)
unfolding codes
flags_total new s = Every-total b'C' (codes "XXFLAGS\t+= $(VERSION_DEFINES)\n") new s

-- Behind each flags line the two lines are put that link libzt.
abbrev pub GetsLines : Text → Text → Text → Type 0
GetsLines libzt_dir s t = Every flags_line (flags_lines libzt_dir) (count flags_line s) s t

edit_makefile-Revises :
    (libzt_dir : Text)
    → NoCr libzt_dir
    → Revises makefile (GetsLines libzt_dir) (edit_makefile libzt_dir)
unfolding edit_makefile
edit_makefile-Revises libzt_dir clean_dir = Revises-read_text _ λ s clean.
    let lines = flags_total (flags_lines libzt_dir) s in
    From-write_text s _ (flags-NoCr libzt_dir clean_dir clean lines) lines

main-Revises :
    (host : Host) → NoCr host.libzt_dir → Revises makefile (GetsLines host.libzt_dir) (main host)
unfolding main
main-Revises host clean = Revises-last (preflight host) _ (Leaves-preflight host) λ _.
    Revises-last supply _ supply-Leaves λ _. Revises-last edit_sources _ edit_sources-Leaves λ _.
      Revises-first (edit_makefile host.libzt_dir) _ (edit_makefile-Revises host.libzt_dir clean)
        λ _. Leaves-bind _ _ Leaves-check_result λ _. search leaves_rules

main-IsLinked : (host : Host) (m : Machine) {m' : Machine} → main host m ≡ (ok tt, m') → IsLinked m'
unfolding main ◌>>=◌ print
main-IsLinked host m h =
    let (_, m1, _, h1) = >>=-ok (preflight host) _ m h in
    let (_, m2, _, h2) = >>=-ok supply _ m1 h1 in
    let (_, m3, _, h3) = >>=-ok edit_sources _ m2 h2 in
    let (_, m4, _, h4) = >>=-ok (edit_makefile host.libzt_dir) _ m3 h3 in
    let (_, m5, checked, h5) = >>=-ok check_result _ m4 h4 in
    let (linked, same) = check_result-ok m4 checked in
    IsLinked-files (ap (λ x. x.files) same ∙ ap (λ x. x.1.files) h5) linked

-- What becomes of the Makefile.
pub record GetsLibrary (libzt_dir s t : Text) : Type 0 where
  pub lines : GetsLines libzt_dir s t
  pub library : contains (codes "-lzt") t ≡ true
  pub directory : contains (codes "third_party/libzt") t ≡ true

-- After a run that returns, for a path of libzt without `\r`, there are no stubs, and the Makefile,
-- which no other part of the run touches, reads as before with the two lines that link libzt put
-- behind each of its flags lines; it then holds `-lzt` and `third_party/libzt`.
pub main_returns :
    (host : Host) (m : Machine) {m' : Machine}
    → NoCr host.libzt_dir
    → main host m ≡ (ok tt, m')
    → (find_file zt_stubs m'.files ≡ none) × Revised makefile (GetsLibrary host.libzt_dir) m m'
main_returns host m clean h =
    let linked = main-IsLinked host m h in
    let r = (main-Revises host clean).after m h in
    let one_text : linked.text ≡ r.after =
      some-injective linked.text r.after (sym linked.reads ∙ r.reads) in
    (
      linked.no_stubs,
      record {
        before = r.before;
        after = r.after;
        read = r.read;
        reads = r.reads;
        good = record {
          lines = r.good;
          library = subst (λ x. contains (codes "-lzt") x ≡ true) one_text linked.library;
          directory =
              subst (λ x. contains (codes "third_party/libzt") x ≡ true) one_text linked.directory;
        };
      },
    )
