-- ===== src/AnchorCheck/Outcome.antt =====
-- What the check accepts: every file is there and reads as text, every anchor occurs in its file,
-- and the call of `bind` occurs in `lan_discovery.cpp` twice.
use mathlib.Core.Path.{subst}
use switch_ldn_zt.Base.{
  Bool, true, false, not, ◌&&◌, ◌||◌, List, [], ◌∷◌, ◌≡◌, refl, inl, inr, arith, ◌==◌, Bool-cases,
}
use switch_ldn_zt.Text.{Text, contains, count, starts_with}
use switch_ldn_zt.Text.Count.{count-missing, missing-count}
use switch_ldn_zt.Disk.{FilePath, find_file}
use switch_ldn_zt.Script.{Message, said, Error, ok, err, Machine, is_regular, try_read, print}
use switch_ldn_zt.Script.Inversion.{>>=-run, >>=-err}
use switch_ldn_zt.Script.Gate.{
  Gate, Gate-pure, Gate-require, Gate-then, Gate-is_file, Gate-read_text, if_read,
}
use switch_ldn_zt.AnchorCheck.{
  is_bind, check_needle, check_needles, check_file, check_files, anchor_check, source_path,
}
use switch_ldn_zt.AnchorCheck.Anchors.{anchors}

-- `count` is nothing exactly where `in` finds nothing.
count-contains : (old s : Text) → not (count old s == 0) ≡ contains old s
unfolding contains count starts_with
count-contains [] [] = refl
count-contains [] (c ∷ s) = ground arith
count-contains (c ∷ old) s = elim (Bool-cases (contains (c ∷ old) s)) [
  | inl hit ↦ elim (Bool-cases (count (c ∷ old) s == 0)) [
    | inl gone ↦ absurd (ground (arith, missing-count c old s))
    | inr some_of ↦ rw (some_of, hit)
  ]
  | inr miss ↦ rw (miss, count-missing c old s miss)
]

abbrev pub is_found : Text → Text → Text → Bool
is_found name text needle =
    contains needle text && (not (is_bind name needle) || count needle text == 2)

abbrev pub all_found : Text → Text → List Text → Bool
all_found name text [] = true
all_found name text (needle ∷ needles) = is_found name text needle && all_found name text needles

abbrev pub file_accepted : Text → List Text → Machine → Bool
file_accepted name needles m =
    is_regular (find_file (source_path name) m.files)
    && if_read (try_read (source_path name) m) (λ text. all_found name text needles)

abbrev pub accepted : List (Text × List Text) → Machine → Bool
accepted [] m = true
accepted ((name, needles) ∷ rest) m = file_accepted name needles m && accepted rest m

abbrev pub verified : Message
verified = record { format = "Defender v1.21.2 source anchors verified"; args = [] }

tests :
    (name text needle : Text)
    → (not (count needle text == 0) && not (is_bind name needle && not (count needle text == 2)))
      ≡ is_found name text needle
tests name text needle = rw count-contains (ground arith)

Gate-check_needle :
    (name text needle : Text) (m : Machine)
    → Gate (is_found name text needle) (check_needle name text needle) m
unfolding check_needle
Gate-check_needle name text needle m =
    subst (λ b. Gate b (check_needle name text needle) m) (tests name text needle)
      (Gate-then _ _ m (Gate-require _ _ _ m) (Gate-require _ _ _ m))

Gate-check_needles :
    (name text : Text) (needles : List Text) (m : Machine)
    → Gate (all_found name text needles) (check_needles name text needles) m
unfolding check_needles
Gate-check_needles name text [] m = Gate-pure m
Gate-check_needles name text (needle ∷ needles) m =
    Gate-then _ _ m (Gate-check_needle name text needle m) (Gate-check_needles name text needles m)

Gate-check_file :
    (name : Text) (needles : List Text) (m : Machine)
    → Gate (file_accepted name needles m) (check_file name needles) m
unfolding check_file
Gate-check_file name needles m = Gate-is_file path _ m (
    Gate-then _ _ m (Gate-require _ _ _ m)
      (Gate-read_text path _ _ m (λ text. Gate-check_needles name text needles m)))
  where
    path : FilePath
    path = source_path name

Gate-check_files :
    (files : List (Text × List Text)) (m : Machine) → Gate (accepted files m) (check_files files) m
unfolding check_files
Gate-check_files [] m = Gate-pure m
Gate-check_files ((name, needles) ∷ rest) m =
    Gate-then _ _ m (Gate-check_file name needles m) (Gate-check_files rest m)

-- If every file that the check names is there and reads as text, holds all of its anchors, and
-- `lan_discovery.cpp` holds the call of `bind` twice, the check returns and has printed its line.
-- Otherwise it ends in an error and has printed nothing. It changes no file in either case.
pub anchor_check_decides :
    (m : Machine)
    → (accepted anchors m ≡ true → anchor_check m ≡ (ok tt, said verified m))
      × (accepted anchors m ≡ false → (e : Error) × (anchor_check m ≡ (err e, m)))
unfolding anchor_check print said
anchor_check_decides m =
    let (go, stop) = Gate-check_files anchors m in
    (
      λ h. >>=-run (check_files anchors) _ m (go h),
      λ h. let (e, left) = stop h in (e, >>=-err (check_files anchors) _ m left),
    )
