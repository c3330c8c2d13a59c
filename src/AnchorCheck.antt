-- ===== src/AnchorCheck.antt =====
-- scripts/anchor_check_defender.py: a check of ldn_mitm's sources before they are patched.
pub mod Anchors
pub mod Outcome
use switch_ldn_zt.Base.{ℕ, Bool, true, false, not, ◌&&◌, List, [], ◌∷◌, ◌++◌, ◌==◌, if◌then◌else◌}
use switch_ldn_zt.Text.{Text, codes, eqb, count}
use switch_ldn_zt.Disk.{FilePath}
use switch_ldn_zt.Script.{
  Script, file, shown, quoted, num, pure, ◌>>=◌, ◌>>◌, require, print, is_file, read_text,
}
use switch_ldn_zt.AnchorCheck.Anchors.{anchors, lan_discovery_cpp, bind_needle}

-- the one needle that has to occur twice
abbrev pub is_bind : Text → Text → Bool
is_bind name needle = eqb name lan_discovery_cpp && eqb needle bind_needle

unfoldable pub check_needle : Text → Text → Text → Script Unit
check_needle name text needle = do
  require (not (count needle text == 0)) "Defender anchor missing: {name}: {needle!r}"
      (shown name ∷ quoted needle ∷ [])
  require (not (is_bind name needle && not (count needle text == 2)))
      "Defender anchor count changed: {name}: bind expected 2, found {count}"
      (shown name ∷ num (count needle text) ∷ [])

unfoldable pub check_needles : Text → Text → List Text → Script Unit
check_needles name text [] = pure tt
check_needles name text (needle ∷ needles) = do
  check_needle name text needle
  check_needles name text needles

abbrev pub source_path : Text → FilePath
source_path name = codes "ldn_mitm/ldn_mitm/source/" ++ name

unfoldable pub check_file : Text → List Text → Script Unit
check_file name needles = do
  there ← is_file (source_path name)
  require there "missing Defender source: {path}" (file (source_path name) ∷ [])
  text ← read_text (source_path name)
  check_needles name text needles

unfoldable pub check_files : List (Text × List Text) → Script Unit
check_files [] = pure tt
check_files ((name, needles) ∷ rest) = do check_file name needles; check_files rest

unfoldable pub anchor_check : Script Unit
anchor_check = do check_files anchors; print "Defender v1.21.2 source anchors verified" []
