-- ===== src/Restore/Runs.antt =====
-- Runs of the script: when one returns, what it has reached then, and which files it leaves alone.
use mathlib.Core.Path.{subst}
use switch_ldn_zt.Base.{Bool, true, false, not, ◌||◌, ◌≡◌, refl, sym, ap, arith}
use switch_ldn_zt.Text.{Text, codes, contains, replace_first}
use switch_ldn_zt.Text.Occurs.{contains-replace_first, replace_first-missing}
use switch_ldn_zt.Text.Newlines.{NoCr, replace_first-NoCr}
use switch_ldn_zt.Disk.{FilePath, find_file, matches, rglob}
use switch_ldn_zt.Script.{Message, Error, ok, err, Machine, Script, ◌>>=◌, print, try_read}
use switch_ldn_zt.Script.Inversion.{>>=-ok, >>=-run, require-ok}
use switch_ldn_zt.Script.Frame.{Leaves, Leaves-bind, leaves_rules}
use switch_ldn_zt.Walk.{finish, rewrite_raw, rewrite, walk}
use switch_ldn_zt.Walk.Target.{is_pass}
use switch_ldn_zt.Walk.Frame.{Leaves-walk}
use switch_ldn_zt.Walk.Turns.{Turns, Turned, walk-Turned, Turned-after}
use switch_ldn_zt.Walk.Reaches.{is_abort, any_reads, walk-none, walk-some}
use switch_ldn_zt.Restore.{libzt, node_service, checked, unchecked, restore_body, restore}

-- The constructor of `_phy` is there in one of its two forms.
abbrev pub is_known : Text → Bool
is_known s = contains checked s || contains unchecked s

restore_body-stops : (p : FilePath) (s : Text) → is_pass (restore_body p s) ≡ not (is_known s)
unfolding restore_body
restore_body-stops p s = ground arith

restore_body-stays : (p : FilePath) (s : Text) → is_abort (restore_body p s) ≡ false
unfolding restore_body
restore_body-stays p s = ground arith

unchecked-NoCr : NoCr unchecked
unfolding codes
unchecked-NoCr = omega arith

restore_body-rewrites :
    (p : FilePath) (s : Text) {t : Text} {msg : Message}
    → restore_body p s ≡ rewrite t msg
    → (contains checked s ≡ true) × (replace_first checked unchecked s ≡ t)
unfolding restore_body
restore_body-rewrites p s h = ground arith

restore_body-raw :
    (p : FilePath) (s : Text) {t : Text} {msg : Message} → restore_body p s ≡ rewrite_raw t msg → ⊥
unfolding restore_body
restore_body-raw p s h = ground arith

restore_body-finished :
    (p : FilePath) (s : Text) {msg : Message}
    → restore_body p s ≡ finish msg
    → (contains checked s ≡ false) × (contains unchecked s ≡ true)
unfolding restore_body
restore_body-finished p s h = ground arith

-- What becomes of a `NodeService.cpp`.
pub record IsRestored (s t : Text) : Type 0 where
  pub replaces : t ≡ replace_first checked unchecked s
  pub holds : contains unchecked t ≡ true

restore_body-Turns : Turns restore_body IsRestored
restore_body-Turns = record {
  raw = λ p s t msg clean h. absurd (restore_body-raw p s h);
  cooked = λ p s t msg clean h.
      let (hit, e) = restore_body-rewrites p s h in
      (
        rw (← e) (replace_first-NoCr checked unchecked s unchecked-NoCr clean),
        record {
          replaces = sym e;
          holds = rw (← e) (contains-replace_first checked unchecked s hit);
        },
      );
  finished = λ p s msg h.
      let (gone, there) = restore_body-finished p s h in
      record { replaces = sym (replace_first-missing checked unchecked s gone); holds = there };
}

abbrev walk_node : Script Bool
walk_node = walk libzt node_service restore_body

-- The script returns exactly where a `NodeService.cpp` below `libzt` can be read and holds the
-- constructor in one of its two forms. Where there is none it ends in an error and changes nothing.
pub restore_decides :
    (m : Machine)
    → (any_reads is_known m (rglob libzt node_service m.files) ≡ true → (restore m).0 ≡ ok tt)
      × (any_reads is_known m (rglob libzt node_service m.files) ≡ false
          → (e : Error) × (restore m ≡ (err e, m)))
unfolding restore print ◌>>=◌
restore_decides m = (
  λ h.
      let (m', e) =
        walk-some is_known restore_body restore_body-stops libzt node_service m restore_body-stays
          h in
      ap (λ x. x.0) (>>=-run walk_node _ m e),
  λ h.
      let e = walk-none is_known restore_body restore_body-stops libzt node_service m h in
      (_, >>=-run walk_node _ m e),
)

-- After a run that returns, a `NodeService.cpp` below `libzt` reads as before with the first
-- `_phy(this, false, false)` of it, if there is one, replaced by `_phy(this, false, true)`, and holds
-- the latter.
pub restore_reaches :
    (m : Machine) {m' : Machine}
    → restore m ≡ (ok tt, m')
    → Turned libzt node_service IsRestored m m'
unfolding restore print try_read
restore_reaches m {m'} h =
    let (b, m1, walked, rest) = >>=-ok walk_node _ m h in
    let (found, last) = require-ok b _ _ _ m1 rest in
    let here : walk_node m ≡ (ok true, m1) = rw found at walked in
    let turned = walk-Turned libzt node_service restore_body restore_body-Turns m here in
    subst (Turned libzt node_service IsRestored m) (ap (λ x. x.1) last)
      (Turned-after _ (λ q hit. refl) turned)

-- However a run ends, it has changed no file but a `NodeService.cpp` below `libzt`.
pub restore_frame :
    (m : Machine) (q : FilePath)
    → matches libzt node_service q ≡ false
    → find_file q (restore m).1.files ≡ find_file q m.files
unfolding restore
restore_frame m q away = kept.same m
  where
    kept : Leaves q restore
    kept =
        Leaves-bind _ _ (Leaves-walk libzt node_service restore_body away) λ b. search leaves_rules
