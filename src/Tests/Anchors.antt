-- ===== src/Tests/Anchors.antt =====
-- The anchor check on a tree whose sources hold just the anchors, and on one without them.
use switch_ldn_zt.Base.{true, false, List, [], ◌∷◌, ◌++◌, ◌≡◌, refl, if◌then◌else◌}
use switch_ldn_zt.Text.{Text, codes, contains, count, eqb}
use switch_ldn_zt.Text.Newlines.{universal_newlines}
use switch_ldn_zt.Disk.{File, Files, find_file}
use switch_ldn_zt.Script.{Error, Machine, said, ok, err, try_read}
use switch_ldn_zt.AnchorCheck.{anchor_check, source_path, is_bind}
use switch_ldn_zt.AnchorCheck.Anchors.{anchors}
use switch_ldn_zt.AnchorCheck.Outcome.{accepted, verified, anchor_check_decides}

abbrev lines : Text → List Text → Text
lines name [] = []
lines name (needle ∷ needles) =
    needle ++ ((if is_bind name needle then needle else []) ++ lines name needles)

abbrev sources : List (Text × List Text) → Files
sources [] = []
sources ((name, needles) ∷ rest) = (source_path name, File.text (lines name needles)) ∷ sources rest

abbrev start : Machine
start = record { files = sources anchors; windows = false; out = [] }

start-accepted : accepted anchors start ≡ true
unfolding find_file try_read universal_newlines contains count eqb codes
start-accepted = refl

anchor_check_decides_example :
    (accepted anchors start ≡ true → anchor_check start ≡ (ok tt, said verified start))
    × (accepted anchors start ≡ false → (e : Error) × (anchor_check start ≡ (err e, start)))
anchor_check_decides_example = anchor_check_decides start

start_passes : anchor_check start ≡ (ok tt, said verified start)
start_passes = (anchor_check_decides start).0 start-accepted

abbrev bare : Machine
bare = record { files = (codes "README.md", File.text []) ∷ []; windows = false; out = [] }

bare_refused : accepted anchors bare ≡ false
unfolding find_file eqb codes
bare_refused = refl

bare_fails : (e : Error) × (anchor_check bare ≡ (err e, bare))
bare_fails = (anchor_check_decides bare).1 bare_refused
