-- ===== src/Walk/Frame.antt =====
-- What a walk leaves alone: every file that it does not look for, and the list of all files.
use switch_ldn_zt.Base.{
  true, false, Option, none, some, List, ◌≡◌, refl, ap, ◌∙◌, inl, inr, Bool-cases,
}
use switch_ldn_zt.Text.{Text, eqb}
use switch_ldn_zt.Text.Occurs.{eqb_sound}
use switch_ldn_zt.Disk.{File, FilePath, find_file, matches, rglob}
use switch_ldn_zt.Disk.Laws.{find_file-put_file, rglob-put_file, rglob-matches}
use switch_ldn_zt.Script.{Machine, readable, try_read}
use switch_ldn_zt.Script.Frame.{Leaves}
use switch_ldn_zt.Walk.{Verdict, pass, rewrite_raw, rewrite, Body, act, walk}
use switch_ldn_zt.Walk.Target.{
  target, target-listed, target-reads, act_on, walk-target, try_read-present,
}

-- What an action on one file does to the list of files: nothing, or one write.
act-find_file :
    (p q : FilePath) (v : Verdict) (m : Machine)
    → eqb q p ≡ false
    → find_file q (act p v m).1.files ≡ find_file q m.files
unfolding act
act-find_file p q (rewrite_raw s msg) m away = find_file-put_file q p _ m.files ∙ rw away
act-find_file p q (rewrite s msg) m away = find_file-put_file q p _ m.files ∙ rw away
act-find_file p q _ m away = refl

act-rglob :
    (root name : Text) (p : FilePath) (v : Verdict) (m : Machine) {f : File}
    → find_file p m.files ≡ some f
    → rglob root name (act p v m).1.files ≡ rglob root name m.files
unfolding act
act-rglob root name p (rewrite_raw s msg) m {f} e = rglob-put_file root name p _ f m.files e
act-rglob root name p (rewrite s msg) m {f} e = rglob-put_file root name p _ f m.files e
act-rglob root name p _ m e = refl

act-windows : (p : FilePath) (v : Verdict) (m : Machine) → (act p v m).1.windows ≡ m.windows
unfolding act
act-windows p pass m = refl
act-windows p _ m = refl

module _ (root name : Text) (body : Body) (m : Machine) where
  abbrev listed : List FilePath
  listed = rglob root name m.files

  act_on-find_file :
      (q : FilePath) (found : Option (FilePath × Text))
      → matches root name q ≡ false
      → target body m listed ≡ found
      → find_file q (act_on body found m).1.files ≡ find_file q m.files
  act_on-find_file q none away e = refl
  act_on-find_file q (some (p, s)) away e =
      let hit =
        target-listed (λ p. matches root name p ≡ true) body m listed
          (rglob-matches root name m.files) e in
      act-find_file p q (body p s) m (elim (Bool-cases (eqb q p)) [
        | inl same ↦
            let path : q ≡ p = eqb_sound q p same in
            let clash : matches root name p ≡ false = rw path at away in cc
        | inr other ↦ other
      ])

  act_on-rglob :
      (root' name' : Text) (found : Option (FilePath × Text))
      → target body m listed ≡ found
      → rglob root' name' (act_on body found m).1.files ≡ rglob root' name' m.files
  act_on-rglob root' name' none e = refl
  act_on-rglob root' name' (some (p, s)) e =
      let (read, _) = target-reads body m listed e in
      let (f, present) = try_read-present p m read in act-rglob root' name' p (body p s) m present

  -- A walk changes no file that it does not look for, however it ends.
  pub walk-find_file :
      (q : FilePath)
      → matches root name q ≡ false
      → find_file q (walk root name body m).1.files ≡ find_file q m.files
  walk-find_file q away =
      rw (walk-target root name body m) (act_on-find_file q (target body m listed) away refl)

  pub walk-try_read :
      (q : FilePath)
      → matches root name q ≡ false
      → try_read q (walk root name body m).1 ≡ try_read q m
  unfolding try_read
  walk-try_read q away = ap readable (walk-find_file q away)

  -- It adds no file and removes none.
  pub walk-rglob :
      (root' name' : Text)
      → rglob root' name' (walk root name body m).1.files ≡ rglob root' name' m.files
  walk-rglob root' name' =
      rw (walk-target root name body m) (act_on-rglob root' name' (target body m listed) refl)

pub Leaves-walk :
    (root name : Text) (body : Body) {q : FilePath}
    → matches root name q ≡ false
    → Leaves q (walk root name body)
Leaves-walk root name body {q} away = record { same = λ m. walk-find_file root name body m q away }
