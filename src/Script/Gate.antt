-- ===== src/Script/Gate.antt =====
-- Scripts that only check: they go on with the same machine or raise, as one test decides.
use switch_ldn_zt.Base.{
  String, List, Bool, true, false, ◌&&◌, Option, none, some, ◌≡◌, refl, ◌∙◌, inl, inr, Option-cases,
}
use switch_ldn_zt.Text.{Text}
use switch_ldn_zt.Disk.{FilePath, find_file}
use switch_ldn_zt.Script.{
  Arg, Error, os_error, ok, err, Machine, Script, pure, raise, ◌>>=◌, ◌>>◌, require, is_file,
  is_regular, read_text, try_read,
}
use switch_ldn_zt.Script.Inversion.{>>=-run, >>=-err}

-- A script that either goes on with the same machine or raises.
abbrev pub Gate : Bool → Script Unit → Machine → Type 0
Gate b s m = (b ≡ true → s m ≡ (ok tt, m)) × (b ≡ false → (e : Error) × (s m ≡ (err e, m)))

pub Gate-pure : (m : Machine) → Gate true (pure tt) m
unfolding pure
Gate-pure m = (λ _. refl, λ h. absurd (cc h))

pub Gate-require :
    (b : Bool) (format : String) (args : List Arg) (m : Machine) → Gate b (require b format args) m
unfolding pure raise
Gate-require true format args m = (λ _. refl, λ h. absurd (cc h))
Gate-require false format args m = (λ h. absurd (cc h), λ _. (_, refl))

pub Gate-then :
    {b c : Bool} (s t : Script Unit) (m : Machine)
    → Gate b s m
    → Gate c t m
    → Gate (b && c) (s >> t) m
unfolding ◌>>=◌
Gate-then {b = true} {c} s t m gs gt = (
  λ h. >>=-run s _ m (gs.0 refl) ∙ gt.0 h,
  λ h. let (e, stop) = gt.1 h in (e, >>=-run s _ m (gs.0 refl) ∙ stop),
)
Gate-then {b = false} s t m gs gt =
    (λ h. absurd (cc h), λ _. let (e, stop) = gs.1 refl in (e, >>=-err s _ m stop))

-- A test of the disk, and what is done with its answer.
pub Gate-is_file :
    {b : Bool} (p : FilePath) (f : Bool → Script Unit) (m : Machine)
    → Gate b (f (is_regular (find_file p m.files))) m
    → Gate b (is_file p >>= f) m
unfolding is_file
Gate-is_file p f m gate = (
  λ h. >>=-run (is_file p) f m refl ∙ gate.0 h,
  λ h. let (e, stop) = gate.1 h in (e, >>=-run (is_file p) f m refl ∙ stop),
)

abbrev pub if_read : Option Text → (Text → Bool) → Bool
if_read none test = false
if_read (some s) test = test s

-- A read, and a test of what was read.
pub Gate-read_text :
    (p : FilePath) (test : Text → Bool) (f : Text → Script Unit) (m : Machine)
    → ((s : Text) → Gate (test s) (f s) m)
    → Gate (if_read (try_read p m) test) (read_text p >>= f) m
unfolding read_text
Gate-read_text p test f m gate = elim (Option-cases (try_read p m)) [
  | inl gone ↦
      let stop : read_text p m ≡ (err (os_error p), m) = rw gone in
      rw gone (λ h. absurd (cc h), λ _. (os_error p, >>=-err (read_text p) f m stop))
  | inr (s, found) ↦
      let go : read_text p m ≡ (ok s, m) = rw found in
      rw found (
        λ h. >>=-run (read_text p) f m go ∙ (gate s).0 h,
        λ h. let (e, stop) = (gate s).1 h in (e, >>=-run (read_text p) f m go ∙ stop),
      )
]
