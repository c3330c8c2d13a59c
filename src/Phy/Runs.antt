-- ===== src/Phy/Runs.antt =====
-- Runs of the script: what a run that returns has reached, and which files no run changes.
use mathlib.Core.Path.{subst}
use switch_ldn_zt.Base.{String, Bool, true, false, not, ◌++◌, ◌≡◌, refl, sym, ap, ◌∙◌, arith}
use switch_ldn_zt.Text.{Text, codes}
use switch_ldn_zt.Disk.{FilePath, find_file, matches, rglob, ends_with}
use switch_ldn_zt.Disk.Laws.{ends_with_linear}
use switch_ldn_zt.Script.{Error, ok, err, Machine, Script, ◌>>=◌, try_read}
use switch_ldn_zt.Script.Inversion.{>>=-ok, >>=-run, require-ok, require-last}
use switch_ldn_zt.Script.Frame.{Leaves, Leaves-bind, Leaves-require}
use switch_ldn_zt.Walk.{walk}
use switch_ldn_zt.Walk.Target.{is_pass}
use switch_ldn_zt.Walk.Frame.{Leaves-walk, walk-try_read}
use switch_ldn_zt.Walk.Turns.{Turned, walk-Turned, Turned-after, Turned-before}
use switch_ldn_zt.Walk.Reaches.{any_reads, walk-none}
use switch_ldn_zt.Phy.{end_with, Edited, node_body, header_body, phy}
use switch_ldn_zt.Phy.Traces.{GetsTrace, GetsTraces, node_body-Turns, header_body-Turns}

abbrev pub libzt : FilePath
libzt = codes "libzt"

abbrev pub node_service : Text
node_service = codes "NodeService.cpp"

abbrev pub phy_hpp : Text
phy_hpp = codes "Phy.hpp"

abbrev pub walk_node : Script Bool
walk_node = walk libzt node_service node_body

abbrev pub walk_header : Script Bool
walk_header = walk libzt phy_hpp header_body

names_clash :
    (q : FilePath)
    → ends_with (codes "/" ++ node_service) q ≡ true
    → ends_with (codes "/" ++ phy_hpp) q ≡ true
    → ⊥
unfolding ends_with codes
names_clash q a b =
    let bad : false ≡ true =
      ends_with_linear (codes "/" ++ phy_hpp) (codes "/" ++ node_service) q b a in
    cc

-- The two loops look for different files.
pub names_differ :
    (q : FilePath) → matches libzt node_service q ≡ true → matches libzt phy_hpp q ≡ false
names_differ q h = ground (arith, names_clash q)

names_differ_back :
    (q : FilePath) → matches libzt phy_hpp q ≡ true → matches libzt node_service q ≡ false
names_differ_back q h = ground (arith, names_clash q)

-- After a run that returns, a `NodeService.cpp` below `libzt` does not hold the setting that leaves the
-- checksum off, and holds the whole trace; or it held the mark of the trace once the setting was
-- replaced, and nothing else of it has changed. A `Phy.hpp` there is a socket header and reads as a
-- text that holds the receive trace behind the receive statement, with the other trace put behind its
-- first UDP case; or it held the mark of the receive trace and reads as before.
pub phy_reaches :
    (m : Machine) {m' : Machine}
    → phy m ≡ (ok tt, m')
    → Turned libzt node_service GetsTrace m m' × Turned libzt phy_hpp GetsTraces m m'
unfolding phy
phy_reaches m {m'} h =
    let (b, m1, first, rest) = >>=-ok walk_node _ m h in
    let (found, more) = require-ok b _ _ _ m1 rest in
    let (c, m2, second, last) = >>=-ok walk_header _ m1 more in
    let (found_too, same) = require-last c _ _ m2 last in
    let node : walk_node m ≡ (ok true, m1) = rw found at first in
    let header : walk_header m1 ≡ (ok true, m') = rw (found_too, same) at second in
    let traced = walk-Turned libzt node_service node_body node_body-Turns m node in
    (
      subst (Turned libzt node_service GetsTrace m) (ap (λ x. x.1) header) (
          Turned-after (walk_header m1).1
            (λ q hit. walk-try_read libzt phy_hpp header_body m1 q (names_differ q hit)) traced),
      Turned-before m
          (λ q hit.
            ap (λ x. try_read q x.1) (sym node)
            ∙ walk-try_read libzt node_service node_body m q (names_differ_back q hit))
          (walk-Turned libzt phy_hpp header_body header_body-Turns m1 header),
    )

abbrev pub anything : Text → Bool
anything s = true

node_body-stops : (p : FilePath) (s : Text) → is_pass (node_body p s) ≡ not (anything s)
unfolding node_body
node_body-stops p s = end_with-stops p _ _
  where
    end_with-stops :
        (p : FilePath) (format : String) (r : Edited) → is_pass (end_with p format r) ≡ false
    end_with-stops p format (Edited.edited s) = refl
    end_with-stops p format (Edited.refused msg) = refl

-- Where no `NodeService.cpp` below `libzt` can be read, the script ends in an error and changes
-- nothing: it does not come to the header.
pub phy_refuses :
    (m : Machine)
    → any_reads anything m (rglob libzt node_service m.files) ≡ false
    → (e : Error) × (phy m ≡ (err e, m))
unfolding phy ◌>>=◌
phy_refuses m h =
    let e = walk-none anything node_body node_body-stops libzt node_service m h in
    (_, >>=-run walk_node _ m e)

-- However a run ends, it has changed no file but a `NodeService.cpp` and a `Phy.hpp` below `libzt`.
pub phy_frame :
    (m : Machine) (q : FilePath)
    → matches libzt node_service q ≡ false
    → matches libzt phy_hpp q ≡ false
    → find_file q (phy m).1.files ≡ find_file q m.files
unfolding phy
phy_frame m q no_node no_header = kept.same m
  where
    kept : Leaves q phy
    kept = Leaves-bind _ _ (Leaves-walk libzt node_service node_body no_node) λ b.
        Leaves-bind _ _ (Leaves-require b _ _) λ _.
          Leaves-bind _ _ (Leaves-walk libzt phy_hpp header_body no_header)
            λ c. Leaves-require c _ _
