-- ===== src/LdnPatch/Run/Checks.antt =====
-- What `main` checks before it touches a file, and what a run that returns has reached.
use mathlib.Core.Path.{subst}
use mathlib.Core.Option.{some-injective}
use switch_ldn_zt.Base.{
  ℕ, String, List, [], Bool, true, false, not, ◌&&◌, ◌++◌, ◌≡◌, refl, sym, ap, ◌∙◌, arith, Option,
  none, some,
}
use switch_ldn_zt.Text.{Text, codes, eqb, contains, strip, replace_every}
use switch_ldn_zt.Text.Every.{Every, Every-replace_every, Every-NoCr}
use switch_ldn_zt.Text.Newlines.{NoCr, NoCr-append}
use switch_ldn_zt.Disk.{FilePath, find_file}
use switch_ldn_zt.Script.{
  Arg, Error, os_error, ok, err, Machine, pure, raise, ◌>>=◌, is_regular, is_some, require,
  read_text, readable, try_read, write_text,
}
use switch_ldn_zt.Script.Inversion.{
  >>=-run, >>=-err, require-ok, require-last, read_text-ok, exists-run,
}
use switch_ldn_zt.LdnPatch.Edit.Laws.{Rewrites, Rewrites-by, read_text-run, write_text-Rewrites}
use switch_ldn_zt.Script.Gate.{Gate, Gate-require, Gate-then, Gate-is_file}
use switch_ldn_zt.Walk.Target.{try_read-NoCr}
use switch_ldn_zt.LdnPatch.Run.{
  Host, or_failed, check_commit, preflight, edit_makefile, check_result, main, expected_ldn,
  expected_libzt, zt_header, zt_library, zt_stubs, makefile, flags_line, flags_lines,
}

abbrev pub head_is : Option Text → Text → Bool
head_is none expected = false
head_is (some head) expected = eqb (strip head) expected

-- Both trees are at the expected commits, and libzt has its header and its library.
unfoldable pub is_ready : Host → Machine → Bool
is_ready host m =
    head_is (host.git_head (codes "ldn_mitm")) expected_ldn
    && (head_is (host.git_head (codes "libzt")) expected_libzt
        && (is_regular (find_file zt_header m.files) && is_regular (find_file zt_library m.files)))

Gate-commit :
    (dir : FilePath) (expected : Text) (format : String) (args : Text → List Arg) (m : Machine)
    (head : Option Text)
    → Gate
        (head_is head expected)
        (or_failed dir head >>= λ h. require (eqb (strip h) expected) format (args h))
        m
unfolding pure raise
Gate-commit dir expected format args m none =
    (λ h. absurd (cc h), λ _. (os_error dir, >>=-err (raise (os_error dir)) _ m refl))
Gate-commit dir expected format args m (some head) =
    let gate = Gate-require (eqb (strip head) expected) format (args head) m in
    (
      λ h. >>=-run (pure head) _ m refl ∙ gate.0 h,
      λ h. let (e, stop) = gate.1 h in (e, >>=-run (pure head) _ m refl ∙ stop),
    )

Gate-check_commit :
    (host : Host) (dir : FilePath) (expected : Text) (m : Machine)
    → Gate (head_is (host.git_head dir) expected) (check_commit host dir expected) m
unfolding check_commit
Gate-check_commit host dir expected m = Gate-commit dir expected _ _ m (host.git_head dir)

Gate-preflight : (host : Host) (m : Machine) → Gate (is_ready host m) (preflight host) m
unfolding preflight is_ready
Gate-preflight host m =
    Gate-then {b = true} _ _ m
      (Gate-require true "STUBS_ONLY must be false for the real-libzt build" [] m)
      (Gate-then _ _ m (Gate-check_commit host (codes "ldn_mitm") expected_ldn m) (
        Gate-then _ _ m (Gate-check_commit host (codes "libzt") expected_libzt m) (
          Gate-is_file zt_header _ m (
            Gate-then {b = is_regular (find_file zt_header m.files)}
              {c = is_regular (find_file zt_library m.files)} _ _ m (Gate-require _ _ _ m)
              (Gate-is_file zt_library _ m (Gate-require _ _ _ m))))))

-- Without the expected commits, the header and the library, `main` raises before it touches
-- anything.
pub main_refuses :
    (host : Host) (m : Machine) → is_ready host m ≡ false → (e : Error) × (main host m ≡ (err e, m))
unfolding main
main_refuses host m h =
    let (e, stop) = (Gate-preflight host m).1 h in (e, >>=-err (preflight host) _ m stop)

is_some-none : {A : Type 0} (o : Option A) → not (is_some o) ≡ true → o ≡ none
is_some-none none h = refl
is_some-none (some a) h = absurd (cc h)

-- The stubs are gone, and the Makefile links libzt.
pub record IsLinked (m : Machine) : Type 0 where
  pub no_stubs : find_file zt_stubs m.files ≡ none
  pub text : Text
  pub reads : try_read makefile m ≡ some text
  pub library : contains (codes "-lzt") text ≡ true
  pub directory : contains (codes "third_party/libzt") text ≡ true

pub check_result-ok :
    (m : Machine) {m' : Machine} → check_result m ≡ (ok tt, m') → IsLinked m × (m ≡ m')
unfolding check_result
check_result-ok m h =
    let (no_stubs, h1) = require-ok _ _ _ _ m (sym (exists-run zt_stubs _ m) ∙ h) in
    let (s, read, h2) = read_text-ok makefile _ m h1 in
    let (links, h3) = require-ok _ _ _ _ m h2 in
    let (t, again, h4) = read_text-ok makefile _ m h3 in
    let (names, same) = require-last _ _ _ m h4 in
    let one_text : t ≡ s = some-injective t s (sym again ∙ read) in
    (
      record {
        no_stubs = is_some-none _ no_stubs;
        text = s;
        reads = read;
        library = links;
        directory = subst (λ x. contains (codes "third_party/libzt") x ≡ true) one_text names;
      },
      same,
    )

pub IsLinked-files : {m m' : Machine} → m.files ≡ m'.files → IsLinked m → IsLinked m'
unfolding try_read
IsLinked-files {m} {m'} e l = record {
  no_stubs = subst (λ fs. find_file zt_stubs fs ≡ none) e l.no_stubs;
  text = l.text;
  reads = subst (λ fs. readable (find_file makefile fs) ≡ some l.text) e l.reads;
  library = l.library;
  directory = l.directory;
}

flags_replaced :
    {new s t : Text} {n : ℕ} → Every flags_line new n s t → replace_every flags_line new s ≡ t
unfolding codes
flags_replaced every = Every-replace_every b'C' (codes "XXFLAGS\t+= $(VERSION_DEFINES)\n") _ every

pub flags-NoCr :
    (libzt_dir : Text) {s t : Text} {n : ℕ}
    → NoCr libzt_dir
    → NoCr s
    → Every flags_line (flags_lines libzt_dir) n s t
    → NoCr t
unfolding codes
flags-NoCr libzt_dir clean clean_text every =
    let end : NoCr (codes "\nLIBS += -lzt -lnx\n") = omega arith in
    let begin : NoCr (codes "LIBDIRS += ") = omega arith in
    let first : NoCr flags_line = omega arith in
    let tail = libzt_dir ++ codes "\nLIBS += -lzt -lnx\n" in
    let behind : NoCr tail = NoCr-append libzt_dir (codes "\nLIBS += -lzt -lnx\n") clean end in
    let lines : NoCr (codes "LIBDIRS += " ++ tail) =
      NoCr-append (codes "LIBDIRS += ") tail begin behind in
    Every-NoCr b'C' (codes "XXFLAGS\t+= $(VERSION_DEFINES)\n") (flags_lines libzt_dir)
      (NoCr-append flags_line (codes "LIBDIRS += " ++ tail) first lines) every clean_text

-- Where the Makefile can be read and the path of libzt holds no `\r`, the edit returns: behind each
-- flags line the Makefile then has the two lines that link libzt, and every other file reads as
-- before.
pub edit_makefile_lem :
    (libzt_dir : Text) {s t : Text} {m : Machine} {n : ℕ}
    → try_read makefile m ≡ some s
    → Every flags_line (flags_lines libzt_dir) n s t
    → NoCr libzt_dir
    → Rewrites makefile t (edit_makefile libzt_dir) m
unfolding edit_makefile
edit_makefile_lem libzt_dir {s} {t} {m} read every clean =
    Rewrites-by (edit_makefile libzt_dir) (write_text makefile t)
      (>>=-run (read_text makefile) _ m (read_text-run makefile read)
        ∙ ap (λ x. write_text makefile x m) (flags_replaced every))
      (write_text-Rewrites makefile t m
        (flags-NoCr libzt_dir clean (try_read-NoCr makefile m read) every))
