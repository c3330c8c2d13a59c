-- ===== src/Bootstrap/Whole.antt =====
-- The whole script: what the patch that it runs in its middle has made of libzt is still there at the
-- end, and what the script leaves alone.
use switch_ldn_zt.Base.{ℕ, Bool, false, ◌≡◌, refl, sym, ap, ◌∙◌, All, All-map}
use switch_ldn_zt.Text.{codes, eqb, starts_with}
use switch_ldn_zt.Disk.{FilePath, find_file, matches, ends_with}
use switch_ldn_zt.Script.{ok, Machine, try_read}
use switch_ldn_zt.Script.Inversion.{>>=-ok}
use switch_ldn_zt.Script.Frame.{Leaves-bind, Leaves-reads}
use switch_ldn_zt.Script.Edits.{edit_file}
use switch_ldn_zt.Script.Edits.Laws.{Leaves-edit_file}
use switch_ldn_zt.SwitchPatch.{cmake_lists, switch_patch}
use switch_ldn_zt.SwitchPatch.Touched.{targets, Leaves-switch_patch}
use switch_ldn_zt.SwitchPatch.Reaches.{IsPatched, IsPatched-keeps, switch_patch-IsPatched}
use switch_ldn_zt.Bootstrap.{instrument_threads}
use switch_ldn_zt.Bootstrap.Layout.{layout, bootstrap}
use switch_ldn_zt.Bootstrap.Runs.{libzt, Leaves-instrument_threads}

abbrev IsOther : FilePath → Type 0
IsOther p =
    (matches libzt (codes "VirtualTap.cpp") p ≡ false)
    × (matches libzt (codes "sys_arch.c") p ≡ false)

targets-others : All IsOther targets
unfolding starts_with ends_with codes eqb
targets-others = (
  (refl, refl),
  (
    (refl, refl),
    (
      (refl, refl),
      (
        (refl, refl),
        (
          (refl, refl),
          (
            (refl, refl),
            ((refl, refl), ((refl, refl), ((refl, refl), ((refl, refl), ((refl, refl), tt))))),
          ),
        ),
      ),
    ),
  ),
)

-- If the script returns, every file that it has the Switch patch make is as that patch promises it,
-- also after the traces were put in.
pub bootstrap-IsPatched :
    (word : ℕ → Bool) (m : Machine) {m' : Machine} → bootstrap word m ≡ (ok tt, m') → IsPatched m'
unfolding bootstrap
bootstrap-IsPatched word m {m'} h =
    let (_, m1, _, rest) = >>=-ok (edit_file cmake_lists (layout word)) _ m h in
    let (_, m2, patched, last) = >>=-ok switch_patch (λ _. instrument_threads) m1 rest in
    IsPatched-keeps m'
      (All-map IsOther (λ p. try_read p m' ≡ try_read p m2)
        (λ p (no_tap, no_arch).
          ap (λ r. try_read p r.1) (sym last)
          ∙ Leaves-reads {q = p} (Leaves-instrument_threads no_tap no_arch) m2)
        targets targets-others)
      (switch_patch-IsPatched m1 patched).0

-- However the script ends, it has changed nothing but what the Switch patch writes to and, below
-- `libzt`, files called `VirtualTap.cpp` or `sys_arch.c`.
pub bootstrap_frame :
    (word : ℕ → Bool) (m : Machine) (q : FilePath)
    → All (λ p. eqb q p ≡ false) targets
    → matches libzt (codes "VirtualTap.cpp") q ≡ false
    → matches libzt (codes "sys_arch.c") q ≡ false
    → find_file q (bootstrap word m).1.files ≡ find_file q m.files
unfolding bootstrap
bootstrap_frame word m q away no_tap no_arch =
    let (_, (_, (_, (_, (_, (no_cmake, _)))))) = away in
    (Leaves-bind _ _ (Leaves-edit_file cmake_lists _ no_cmake) λ _.
        Leaves-bind _ _ (Leaves-switch_patch away)
          λ _. Leaves-instrument_threads no_tap no_arch).same
      m
