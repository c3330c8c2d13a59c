-- ===== src/LwipThread/Runs.antt =====
-- Runs of the script: which files it leaves alone.
use switch_ldn_zt.Base.{
  String, Bool, true, false, Option, none, some, List, ◌≡◌, ap, inl, inr, arith, Bool-cases,
}
use switch_ldn_zt.Text.{Text, eqb}
use switch_ldn_zt.Text.Occurs.{eqb_sound}
use switch_ldn_zt.Disk.{FilePath, find_file as find_entry, matches, rglob}
use switch_ldn_zt.Disk.Laws.{rglob-matches}
use switch_ldn_zt.Script.{Arg, ok, Machine, pure, raise}
use switch_ldn_zt.Script.Frame.{
  Leaves, Leaves-bind, Leaves-print, Leaves-pure, Yields, Leaves-then, leaves_rules,
}
use switch_ldn_zt.Script.Outcome.{expect, lift}
use switch_ldn_zt.Script.Outcome.Laws.{ok-injective, Leaves-lift, Leaves-attempt}
use switch_ldn_zt.Walk.Frame.{Leaves-walk}
use switch_ldn_zt.Walk.Candidate.{find_candidate?, candidate-listed}
use switch_ldn_zt.LwipThread.{
  main_cpp, set_timing, keep_timing, libzt, find_file, probe_wrapper, sys_arch_name,
  virtual_tap_name, tcpip_name, clock_name, constants_name, lwip_thread,
}

lift-some :
    (format : String) (args : List Arg) (o : Option FilePath) (m : Machine) {p : FilePath}
    {m' : Machine}
    → lift (expect format args o) m ≡ (ok p, m')
    → o ≡ some p
unfolding pure raise
lift-some format args none m h = absurd (cc (ap (λ r. r.0) h))
lift-some format args (some p) m h = ap some (ok-injective (ap (λ r. r.0) h))

abbrev Named : Text → FilePath → Type 0
Named name p = matches libzt name p ≡ true

find_file-Yields :
    (name : Text) (required : List Text) → Yields (Named name) (find_file name required)
unfolding find_file
find_file-Yields name required = record {
  value = λ m h.
      candidate-listed (Named name) required m _ (rglob-matches libzt name m.files)
        (lift-some _ _ (find_candidate? required m (rglob libzt name m.files)) m h);
}

other_name :
    (q : FilePath) (name : Text) (p : FilePath)
    → matches libzt name q ≡ false
    → Named name p
    → eqb q p ≡ false
other_name q name p away named = elim (Bool-cases (eqb q p)) [
  | inr other ↦ other
  | inl same ↦
      let clash : matches libzt name p ≡ false = rw (eqb_sound q p same) at away in
      absurd (ground (arith, named, clash))
]

module _ {q : FilePath} where
  Leaves-find_file : (name : Text) (required : List Text) → Leaves q (find_file name required)
  unfolding find_file
  Leaves-find_file name required = record { same = λ m. (Leaves-lift _).same m }

  Leaves-set_timing : (b : Bool) → eqb q main_cpp ≡ false → Leaves q (set_timing b)
  Leaves-set_timing true away = search leaves_rules
  Leaves-set_timing false away = search leaves_rules

  Leaves-keep_timing : eqb q main_cpp ≡ false → Leaves q keep_timing
  unfolding keep_timing
  Leaves-keep_timing away = search (Leaves-set_timing, leaves_rules)

  Leaves-probe_wrapper : (p : FilePath) → eqb q p ≡ false → Leaves q (probe_wrapper p)
  unfolding probe_wrapper
  Leaves-probe_wrapper p away = search (Leaves-attempt, leaves_rules)

-- However the script ends, it has changed no file but `source/main.cpp` and, below `libzt`, files that
-- are called `sys_arch.c`, `VirtualTap.cpp`, `tcpip.c`, `OSUtils.hpp` or `Constants.hpp`.
pub lwip_thread_frame :
    (m : Machine) (q : FilePath)
    → eqb q main_cpp ≡ false
    → matches libzt sys_arch_name q ≡ false
    → matches libzt virtual_tap_name q ≡ false
    → matches libzt tcpip_name q ≡ false
    → matches libzt clock_name q ≡ false
    → matches libzt constants_name q ≡ false
    → find_entry q (lwip_thread m).1.files ≡ find_entry q m.files
unfolding lwip_thread
lwip_thread_frame m q no_main no_arch no_tap no_tcpip no_clock no_constants =
    (Leaves-bind _ _ (Leaves-keep_timing no_main) λ _.
        Leaves-then (Named sys_arch_name) _ _ (find_file-Yields _ _) (Leaves-find_file _ _)
          λ arch named_arch.
            let away_arch = other_name q sys_arch_name arch no_arch named_arch in
            Leaves-bind _ _ (Leaves-attempt arch _ away_arch) λ _.
              Leaves-bind _ _ (Leaves-print _ _) λ _.
                Leaves-then (Named virtual_tap_name) _ _ (find_file-Yields _ _)
                  (Leaves-find_file _ _)
                  λ tap named_tap.
                    Leaves-bind _ _
                      (Leaves-attempt tap _ (other_name q virtual_tap_name tap no_tap named_tap))
                      λ _. Leaves-bind _ _ (Leaves-print _ _) λ _.
                        Leaves-then (Named tcpip_name) _ _ (find_file-Yields _ _)
                          (Leaves-find_file _ _)
                          λ tcpip named_tcpip.
                            Leaves-bind _ _
                              (Leaves-attempt tcpip _
                                (other_name q tcpip_name tcpip no_tcpip named_tcpip))
                              λ _. Leaves-bind _ _ (Leaves-print _ _) λ _.
                                Leaves-bind _ _ (Leaves-probe_wrapper arch away_arch) λ _.
                                  Leaves-bind _ _ (Leaves-walk libzt clock_name _ no_clock) λ _.
                                    Leaves-bind _ _
                                      (Leaves-walk libzt constants_name _ no_constants)
                                      λ _. Leaves-pure tt).same
      m
