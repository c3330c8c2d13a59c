-- ===== src/Keepalive/Runs.antt =====
-- Whole runs of the script: what a run that returns has reached, what a second one does, when there
-- is nothing to patch, and which files no run changes.
use mathlib.Core.Path.{subst}
use switch_ldn_zt.Base.{
  String, not, ◌||◌, Bool, true, false, [], ◌++◌, ◌≡◌, refl, sym, ap, ◌∙◌, arith,
}
use switch_ldn_zt.Text.{Text, codes, contains}
use switch_ldn_zt.Disk.{FilePath, find_file, matches, rglob, ends_with}
use switch_ldn_zt.Disk.Laws.{ends_with_linear}
use switch_ldn_zt.Walk.Target.{is_pass}
use switch_ldn_zt.Walk.Reaches.{any_reads, walk-none}
use switch_ldn_zt.Script.{Error, err, said, ok, Machine, Script, ◌>>=◌, print, try_read}
use switch_ldn_zt.Script.Inversion.{>>=-ok, >>=-run, require-ok}
use switch_ldn_zt.Script.Frame.{Leaves, Leaves-bind, Leaves-require, leaves_rules}
use switch_ldn_zt.Walk.{walk}
use switch_ldn_zt.Walk.Frame.{Leaves-walk, walk-try_read, walk-rglob}
use switch_ldn_zt.Walk.Twice.{Settled, Settled-walk, Settled-keeps, walk-Settled}
use switch_ldn_zt.Keepalive.{libzt, scale_old, scale_new, scale_body, consts_body, keepalive}
use switch_ldn_zt.Keepalive.Rounds.{scale_body-Settles, consts_body-Settles}

abbrev pub node_cpp : Text
node_cpp = codes "Node.cpp"

abbrev pub constants_hpp : Text
constants_hpp = codes "Constants.hpp"

names_clash :
    (q : FilePath)
    → ends_with (codes "/" ++ node_cpp) q ≡ true
    → ends_with (codes "/" ++ constants_hpp) q ≡ true
    → ⊥
unfolding ends_with codes
names_clash q a b =
    let bad : false ≡ true =
      ends_with_linear (codes "/" ++ node_cpp) (codes "/" ++ constants_hpp) q a b in
    cc

-- The two loops look for different files.
names_differ :
    (q : FilePath) → matches libzt node_cpp q ≡ true → matches libzt constants_hpp q ≡ false
names_differ q h = ground (arith, names_clash q)

-- Both loops are done.
pub record Patched (m : Machine) : Type 0 where
  pub scale : Settled libzt node_cpp scale_body m
  pub consts : Settled libzt constants_hpp consts_body m

abbrev walk_scale : Script Bool
walk_scale = walk libzt node_cpp scale_body

abbrev walk_consts : Script Bool
walk_consts = walk libzt constants_hpp consts_body

walks-Patched :
    (m m1 m2 : Machine) → walk_scale m ≡ (ok true, m1) → walk_consts m1 ≡ (ok true, m2) → Patched m2
walks-Patched m m1 m2 first second = record {
  scale = subst (Settled libzt node_cpp scale_body) (ap (λ x. x.1) second) (
      Settled-keeps (walk_consts m1).1
        (walk-rglob libzt constants_hpp consts_body m1 libzt node_cpp)
        (λ q hit. walk-try_read libzt constants_hpp consts_body m1 q (names_differ q hit))
        (walk-Settled libzt node_cpp scale_body scale_body-Settles m first));
  consts = walk-Settled libzt constants_hpp consts_body consts_body-Settles m1 second;
}

-- Printing changes nothing of that.
Patched-said : (m m' : Machine) → m'.files ≡ m.files → Patched m → Patched m'
unfolding try_read
Patched-said m m' e h = record {
  scale = Settled-keeps m' (rw e) (λ q _. rw e) h.scale;
  consts = Settled-keeps m' (rw e) (λ q _. rw e) h.consts;
}

pub keepalive-Patched : (m : Machine) {m' : Machine} → keepalive m ≡ (ok tt, m') → Patched m'
unfolding keepalive ◌>>=◌ print
keepalive-Patched m {m'} h =
    let (b, m1, first, rest) = >>=-ok walk_scale _ m h in
    let (scale_found, rest1) = require-ok b _ _ _ m1 rest in
    let (c, m2, second, rest2) = >>=-ok walk_consts _ m1 rest1 in
    let (consts_found, rest3) = require-ok c _ _ _ m2 rest2 in
    Patched-said m2 m' (sym (ap (λ x. x.1.files) rest3))
      (walks-Patched m m1 m2 (rw scale_found at first) (rw consts_found at second))

abbrev printed : Machine → Machine
printed m = (print closing [] m).1
  where
    closing : String
    closing =
        "Applied upstream keepalive fix: roots now get a full HELLO every ~14s, inside the 30s activity timeout."

-- On a patched machine the script prints three lines and returns.
Patched-keepalive :
    (m : Machine) → Patched m → (m' : Machine) × (keepalive m ≡ (ok tt, m')) × (m'.files ≡ m.files)
unfolding keepalive ◌>>=◌ said print
Patched-keepalive m h =
    let m1 = said h.scale.told m in
    let consts = (Patched-said m m1 refl h).consts in
    let m2 = said consts.told m1 in
    (
      printed m2,
      >>=-run walk_scale _ m (Settled-walk h.scale)
          ∙ >>=-run walk_consts _ m1 (Settled-walk consts),
      refl,
    )

-- After a run that returns, a second run returns too and leaves every file as it is.
pub keepalive_twice :
    (m : Machine) {m' : Machine}
    → keepalive m ≡ (ok tt, m')
    → ((keepalive m').0 ≡ ok tt) × ((keepalive m').1.files ≡ m'.files)
keepalive_twice m {m'} h =
    let (m2, again, same) = Patched-keepalive m' (keepalive-Patched m h) in
    (ap (λ x. x.0) again, ap (λ x. x.1.files) again ∙ same)

-- However a run ends, it has changed no file but a `Node.cpp` and a `Constants.hpp` below `libzt`.
pub keepalive_frame :
    (m : Machine) (q : FilePath)
    → matches libzt node_cpp q ≡ false
    → matches libzt constants_hpp q ≡ false
    → find_file q (keepalive m).1.files ≡ find_file q m.files
unfolding keepalive
keepalive_frame m q no_node no_constants = kept.same m
  where
    kept : Leaves q keepalive
    kept = Leaves-bind _ _ (Leaves-walk libzt node_cpp scale_body no_node) λ b.
        Leaves-bind _ _ (Leaves-require b _ _) λ _.
          Leaves-bind _ _ (Leaves-walk libzt constants_hpp consts_body no_constants)
            λ c. search leaves_rules

-- The timer scale is there, as upstream ships it or patched.
abbrev pub has_scale : Text → Bool
has_scale s = contains scale_new s || contains scale_old s

scale_body-stops : (p : FilePath) (s : Text) → is_pass (scale_body p s) ≡ not (has_scale s)
unfolding scale_body
scale_body-stops p s = ground arith

-- Where no `Node.cpp` below `libzt` can be read and holds the timer scale, old or new, the script
-- ends in an error and changes nothing: it does not come to the constants.
pub keepalive_refuses :
    (m : Machine)
    → any_reads has_scale m (rglob libzt node_cpp m.files) ≡ false
    → (e : Error) × (keepalive m ≡ (err e, m))
unfolding keepalive ◌>>=◌
keepalive_refuses m h =
    let e = walk-none has_scale scale_body scale_body-stops libzt node_cpp m h in
    (_, >>=-run walk_scale _ m e)
