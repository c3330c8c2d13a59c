-- ===== src/Tests/BootstrapRuns.antt =====
-- The thread instrumentation on small trees.
use switch_ldn_zt.Base.{false, List, [], ◌∷◌, ◌++◌, ◌≡◌, refl}
use switch_ldn_zt.Text.{Text, codes, rows, contains, eqb, replace_first, starts_with}
use switch_ldn_zt.Text.Newlines.{universal_newlines, to_linesep}
use switch_ldn_zt.Disk.{File, FilePath, find_file, put_file, rglob, ends_with}
use switch_ldn_zt.Script.{Machine, ok, pure, raise, ◌>>=◌, print, read_text, try_read, write_text}
use switch_ldn_zt.Script.Atomic.{IsAtomic}
use switch_ldn_zt.Walk.Candidate.{find_candidate?}
use switch_ldn_zt.Bootstrap.{
  Step, include_switch, apply_steps, finish_stage, instrument_text, instrument_at, instrument,
  virtual_tap, sys_arch, instrument_threads,
}
use switch_ldn_zt.Bootstrap.Runs.{instrument_threads_frame, instrument-IsAtomic}

-- the texts that the steps replace
abbrev olds : List Step → Text
olds [] = []
olds (step ∷ steps) = step.old ++ (codes "\n" ++ olds steps)

abbrev readme : FilePath
readme = codes "libzt/README.md"

abbrev start : Machine
start = record {
  files =
      (readme, File.text [])
      ∷ (
        codes "libzt/src/VirtualTap.cpp",
        File.text (virtual_tap.include ++ olds virtual_tap.steps),
      )
      ∷ (codes "libzt/ext/sys_arch.c", File.text (sys_arch.include ++ olds sys_arch.steps))
      ∷ [];
  windows = false;
  out = [];
}

start_returns : (instrument_threads start).0 ≡ ok tt
unfolding instrument_threads instrument instrument_at instrument_text finish_stage apply_steps
    include_switch find_candidate? rglob contains replace_first codes rows starts_with ends_with eqb
    universal_newlines to_linesep find_file put_file try_read read_text write_text print pure raise
    ◌>>=◌
start_returns = refl

instrument_threads_frame_example :
    find_file readme (instrument_threads start).1.files ≡ find_file readme start.files
instrument_threads_frame_example =
    instrument_threads_frame start readme (unfold starts_with ends_with codes eqb in refl)
      (unfold starts_with ends_with codes eqb in refl)

instrument-IsAtomic_example : IsAtomic (instrument sys_arch)
instrument-IsAtomic_example = instrument-IsAtomic sys_arch

abbrev bare : Machine
bare = record { files = (readme, File.text []) ∷ []; windows = false; out = [] }
