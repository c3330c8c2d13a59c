-- ===== src/LdnPatch/Run/Copied.antt =====
-- The copies of the bridge and of `errno_compat.c`, from scripts/ to the end of a run.
use switch_ldn_zt.Base.{Bool, true, false, Option, none, some, ◌++◌, ◌≡◌, refl, sym, ap, ◌∙◌, All}
use switch_ldn_zt.Text.{Text, codes, eqb}
use switch_ldn_zt.Text.Occurs.{eqb_refl}
use switch_ldn_zt.Disk.{File, FilePath, find_file, put_file, has_dir}
use switch_ldn_zt.Disk.Laws.{find_file-put_file}
use switch_ldn_zt.Script.{Result, ok, Machine, Script, copied, copy_file}
use switch_ldn_zt.Script.Inversion.{>>=-ok}
use switch_ldn_zt.Script.Frame.{Leaves, Leaves-copy_file}
use switch_ldn_zt.LdnPatch.Run.{Host, preflight, supply, main, ldn_source}
use switch_ldn_zt.LdnPatch.Run.Touched.{
  edited_files, bridge_hpp, bridge_cpp, errno_compat, Leaves-no_stubs, Leaves-preflight,
  Leaves-rest,
}

kept :
    {A : Type 0} {q : FilePath} {s : Script A} {m m' : Machine} {r : Result A}
    → Leaves q s
    → s m ≡ (r, m')
    → find_file q m'.files ≡ find_file q m.files
kept {q} {m} l h = ap (λ x. find_file q x.1.files) (sym h) ∙ l.same m

find_file-put :
    (p : FilePath) (f : File) (m : Machine) → find_file p (put_file p f m.files) ≡ some f
find_file-put p f m = find_file-put_file p p f m.files ∙ rw eqb_refl

copied-ok :
    (source target : FilePath) (dir : Bool) (f : Option File) (m : Machine) {m' : Machine}
    → copied source target dir f m ≡ (ok tt, m')
    → find_file target m'.files ≡ f
copied-ok source target true (some (File.text t)) m h =
    sym (ap (λ x. find_file target x.1.files) h) ∙ find_file-put target (File.text t) m
copied-ok source target true (some (File.binary b)) m h =
    sym (ap (λ x. find_file target x.1.files) h) ∙ find_file-put target (File.binary b) m
copied-ok source target true (some File.directory) m h = absurd (cc (ap (λ x. x.0) h))
copied-ok source target true none m h = absurd (cc (ap (λ x. x.0) h))
copied-ok source target false f m h = absurd (cc (ap (λ x. x.0) h))

copy_file-ok :
    (source dir : FilePath) (name : Text) (m : Machine) {m' : Machine}
    → copy_file source dir name m ≡ (ok tt, m')
    → find_file (dir ++ (codes "/" ++ name)) m'.files ≡ find_file source m.files
unfolding copy_file
copy_file-ok source dir name m h =
    copied-ok source (dir ++ (codes "/" ++ name)) (has_dir dir m.files) (find_file source m.files) m
      h

-- Each copy has the name of its file in scripts/.
pub record IsCopied (before after : Machine) : Type 0 where
  pub hpp :
      find_file bridge_hpp after.files ≡ find_file (codes "scripts/zt_bridge.hpp") before.files
  pub cpp :
      find_file bridge_cpp after.files ≡ find_file (codes "scripts/zt_bridge.cpp") before.files
  pub errno :
      find_file errno_compat after.files ≡ find_file (codes "scripts/errno_compat.c") before.files

module _ (a b c : FilePath) where
  -- `a` differs from the other places of a run's writes.
  abbrev Away : Type 0
  Away = (eqb a b ≡ false) × (eqb a c ≡ false) × All (λ p. eqb a p ≡ false) edited_files

sources-away :
    (eqb (codes "scripts/zt_bridge.cpp") bridge_hpp ≡ false)
    × (eqb (codes "scripts/errno_compat.c") bridge_hpp ≡ false)
    × (eqb (codes "scripts/errno_compat.c") bridge_cpp ≡ false)
unfolding codes eqb
sources-away = (refl, refl, refl)

targets-away :
    Away bridge_hpp bridge_cpp errno_compat
    × Away bridge_cpp bridge_hpp errno_compat
    × Away errno_compat bridge_hpp bridge_cpp
unfolding codes eqb
targets-away = (
  (refl, refl, (refl, (refl, (refl, (refl, (refl, (refl, tt))))))),
  (refl, refl, (refl, (refl, (refl, (refl, (refl, (refl, tt))))))),
  (refl, refl, (refl, (refl, (refl, (refl, (refl, (refl, tt))))))),
)

supply-IsCopied : (m : Machine) {m' : Machine} → supply m ≡ (ok tt, m') → IsCopied m m'
unfolding supply
supply-IsCopied m h =
    let (_, m1, first, h1) =
      >>=-ok (copy_file (codes "scripts/zt_bridge.hpp") ldn_source (codes "zt_bridge.hpp")) _ m h in
    let (_, m2, second, h2) =
      >>=-ok (copy_file (codes "scripts/zt_bridge.cpp") ldn_source (codes "zt_bridge.cpp")) _ m1
        h1 in
    let (_, m3, third, last) =
      >>=-ok (copy_file (codes "scripts/errno_compat.c") ldn_source (codes "errno_compat.c")) _ m2
        h2 in
    record {
      hpp =
          kept (Leaves-no_stubs targets-away.0.2) last
          ∙ kept (Leaves-copy_file _ _ _ targets-away.0.1) third
          ∙ kept (Leaves-copy_file _ _ _ targets-away.0.0) second
          ∙ copy_file-ok _ ldn_source (codes "zt_bridge.hpp") m first;
      cpp =
          kept (Leaves-no_stubs targets-away.1.2) last
          ∙ kept (Leaves-copy_file _ _ _ targets-away.1.1) third
          ∙ copy_file-ok _ ldn_source (codes "zt_bridge.cpp") m1 second
          ∙ kept (Leaves-copy_file _ _ _ sources-away.0) first;
      errno =
          kept (Leaves-no_stubs targets-away.2.2) last
          ∙ copy_file-ok _ ldn_source (codes "errno_compat.c") m2 third
          ∙ kept (Leaves-copy_file _ _ _ sources-away.2) second
          ∙ kept (Leaves-copy_file _ _ _ sources-away.1) first;
    }

-- After a run that returns, the bridge's two files and `errno_compat.c` stand in ldn_mitm's sources
-- as they stood in scripts/ before the run.
pub main_copies :
    (host : Host) (m : Machine) {m' : Machine} → main host m ≡ (ok tt, m') → IsCopied m m'
unfolding main
main_copies host m {m'} h =
    let (_, m1, checked, h1) = >>=-ok (preflight host) _ m h in
    let (_, m2, supplied, h2) = >>=-ok supply _ m1 h1 in
    let made = supply-IsCopied m1 supplied in
    let first : (q : FilePath) → find_file q m1.files ≡ find_file q m.files =
      λ q. kept (Leaves-preflight host) checked in
    let rest : (q : FilePath)
        → All (λ p. eqb q p ≡ false) edited_files
        → find_file q m'.files ≡ find_file q m2.files =
      λ q away. kept (Leaves-rest away host) h2 in
    record {
      hpp = rest bridge_hpp targets-away.0.2 ∙ made.hpp ∙ first _;
      cpp = rest bridge_cpp targets-away.1.2 ∙ made.cpp ∙ first _;
      errno = rest errno_compat targets-away.2.2 ∙ made.errno ∙ first _;
    }
