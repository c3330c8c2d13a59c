-- ===== src/Bootstrap/Runs.antt =====
-- Runs of a half of the script, and of both: which files they leave alone, what an error leaves
-- behind, and what they do where there is nothing to instrument.
use switch_ldn_zt.Base.{
  Bool, true, false, Option, none, some, List, [], ◌∷◌, ◌≡◌, refl, ap, ◌∙◌, inl, inr, arith,
  Bool-cases,
}
use switch_ldn_zt.Text.{Text, codes, contains, eqb}
use switch_ldn_zt.Text.Occurs.{eqb_sound}
use switch_ldn_zt.Disk.{FilePath, find_file, matches, rglob}
use switch_ldn_zt.Disk.Laws.{rglob-matches}
use switch_ldn_zt.Script.{
  Message, ok, Machine, said, pure, ◌>>=◌, print, write_text, try_read, read_text,
}
use switch_ldn_zt.Script.Inversion.{>>=-run}
use switch_ldn_zt.Script.Atomic.{IsAtomic, IsAtomic-bind, IsAtomic-raise, IsQuiet-read_text}
use switch_ldn_zt.Script.Frame.{
  Leaves, Leaves-bind, Leaves-pure, Leaves-read_text, Leaves-if, leaves_rules,
}
use switch_ldn_zt.Walk.Reaches.{any_reads}
use switch_ldn_zt.Walk.Candidate.{has_all, find_candidate?, candidate-listed, find_candidate?-none}
use switch_ldn_zt.Phy.{Edited, edited, refused}
use switch_ldn_zt.Bootstrap.{
  Stage, finish_stage, instrument_text, instrument_at, instrument, virtual_tap, sys_arch,
  instrument_threads,
}

abbrev pub libzt : FilePath
libzt = codes "libzt"

module _ (st : Stage) {q : FilePath} where
  Leaves-finish_stage :
      (path : FilePath) (r : Edited) → eqb q path ≡ false → Leaves q (finish_stage st path r)
  unfolding finish_stage
  Leaves-finish_stage path (refused msg) away = search leaves_rules
  Leaves-finish_stage path (edited t) away = search leaves_rules

  Leaves-instrument_at :
      (found : Option FilePath)
      → ((p : FilePath) → found ≡ some p → eqb q p ≡ false)
      → Leaves q (instrument_at st found)
  unfolding instrument_at instrument_text
  Leaves-instrument_at none away = search leaves_rules
  Leaves-instrument_at (some path) away =
      Leaves-bind _ _ (Leaves-read_text path)
        λ text. Leaves-if _ _ _ (Leaves-pure tt) (Leaves-finish_stage path _ (away path refl))

  pub Leaves-instrument : matches libzt st.name q ≡ false → Leaves q (instrument st)
  unfolding instrument
  Leaves-instrument away = record {
    same = λ m.
        (Leaves-instrument_at (find_candidate? st.needles m (rglob libzt st.name m.files))
            (λ p found. elim (Bool-cases (eqb q p)) [
              | inr other ↦ other
              | inl same ↦
                  let hit : matches libzt st.name p ≡ true =
                    candidate-listed (λ p. matches libzt st.name p ≡ true) st.needles m _
                      (rglob-matches libzt st.name m.files) found in
                  let clash : matches libzt st.name p ≡ false = rw (eqb_sound q p same) at away in
                  cc
            ])).same
          m;
  }

pub Leaves-instrument_threads :
    {q : FilePath}
    → matches libzt (codes "VirtualTap.cpp") q ≡ false
    → matches libzt (codes "sys_arch.c") q ≡ false
    → Leaves q instrument_threads
unfolding instrument_threads
Leaves-instrument_threads no_tap no_arch =
    Leaves-bind _ _ (Leaves-instrument virtual_tap no_tap) (λ _. Leaves-instrument sys_arch no_arch)

-- However the two halves end, they have changed no file but a `VirtualTap.cpp` and a `sys_arch.c`
-- below `libzt`.
pub instrument_threads_frame :
    (m : Machine) (q : FilePath)
    → matches libzt (codes "VirtualTap.cpp") q ≡ false
    → matches libzt (codes "sys_arch.c") q ≡ false
    → find_file q (instrument_threads m).1.files ≡ find_file q m.files
instrument_threads_frame m q no_tap no_arch = (Leaves-instrument_threads no_tap no_arch).same m

finish_stage-IsAtomic :
    (st : Stage) (path : FilePath) (r : Edited) → IsAtomic (finish_stage st path r)
unfolding finish_stage ◌>>=◌ print write_text
finish_stage-IsAtomic st path (refused msg) = IsAtomic-raise _
finish_stage-IsAtomic st path (edited t) = record { undone = λ m {e} h. absurd (cc h) }

instrument_text-IsAtomic :
    (st : Stage) (path : FilePath) (t : Text) → IsAtomic (instrument_text st path t)
unfolding instrument_text
instrument_text-IsAtomic st path t = elim (Bool-cases (contains st.mark t)) [
  | inl marked ↦ rw marked (record { undone = λ m {e} h. absurd (unfold pure in cc h) })
  | inr fresh ↦ rw fresh (finish_stage-IsAtomic st path _)
]

instrument_at-IsAtomic : (st : Stage) (found : Option FilePath) → IsAtomic (instrument_at st found)
unfolding instrument_at print
instrument_at-IsAtomic st none = record { undone = λ m {e} h. absurd (cc h) }
instrument_at-IsAtomic st (some path) =
    IsAtomic-bind (read_text path) _ (IsQuiet-read_text path) (instrument_text-IsAtomic st path)

-- A half that ends in an error has written nothing: it edits in memory and writes last.
pub instrument-IsAtomic : (st : Stage) → IsAtomic (instrument st)
unfolding instrument
instrument-IsAtomic st = record {
  undone = λ m {e} h.
      (instrument_at-IsAtomic st
          (find_candidate? st.needles m (rglob libzt st.name m.files))).undone
        m h;
}

-- Below `libzt` no file of the half's name can be read and holds all of its needles.
abbrev pub IsAbsent : Stage → Machine → Type 0
IsAbsent st m = any_reads (has_all st.needles) m (rglob libzt st.name m.files) ≡ false

abbrev pub skip_message : Stage → Message
skip_message st = record { format = st.skipped; args = [] }

instrument-skips :
    (st : Stage) (m : Machine) → IsAbsent st m → instrument st m ≡ (ok tt, said (skip_message st) m)
unfolding instrument instrument_at print said
instrument-skips st m h =
    ap (λ found. instrument_at st found m)
      (find_candidate?-none st.needles m (rglob libzt st.name m.files) h)

any_reads-said :
    (test : Text → Bool) (msg : Message) (m : Machine) (ps : List FilePath)
    → any_reads test (said msg m) ps ≡ any_reads test m ps
unfolding any_reads said try_read
any_reads-said test msg m [] = refl
any_reads-said test msg m (p ∷ ps) = ground (arith, any_reads-said test msg m ps)

-- Where neither half finds its file the script returns all the same: it prints two lines and changes
-- no file.
pub instrument_threads_skips :
    (m : Machine)
    → IsAbsent virtual_tap m
    → IsAbsent sys_arch m
    → instrument_threads m
      ≡ (ok tt, said (skip_message sys_arch) (said (skip_message virtual_tap) m))
unfolding instrument_threads said
instrument_threads_skips m no_tap no_arch =
    >>=-run (instrument virtual_tap) _ m (instrument-skips virtual_tap m no_tap)
    ∙ instrument-skips sys_arch (said (skip_message virtual_tap) m) (
        any_reads-said _ (skip_message virtual_tap) m (rglob libzt sys_arch.name m.files) ∙ no_arch)
