-- ===== src/Script/Returns.antt =====
-- Does a script return, or does it raise?
use switch_ldn_zt.Base.{String, List, Bool, true, false, ◌&&◌, ◌≡◌, refl, inl, inr, Option-cases}
use switch_ldn_zt.Text.{Text}
use switch_ldn_zt.Disk.{FilePath}
use switch_ldn_zt.Script.{
  Arg, Result, ok, err, Machine, Script, and_then, pure, raise, ◌>>=◌, require, try_read, read_text,
}
use switch_ldn_zt.Script.Gate.{if_read}

abbrev pub is_ok : {A : Type 0} → Result A → Bool
is_ok (ok a) = true
is_ok (err e) = false

abbrev pub returns : {A : Type 0} → Script A → Machine → Bool
returns s m = is_ok (s m).0

and_then-returns :
    {A B : Type 0} (f : A → Script B) (r : Result A) (m : Machine) {c : Bool}
    → ((a : A) → returns (f a) m ≡ c)
    → returns (and_then r f) m ≡ (is_ok r && c)
and_then-returns f (ok a) m h = h a
and_then-returns f (err e) m h = refl

-- A sequence returns where both parts do.
pub returns->>= :
    {A B : Type 0} (s : Script A) (f : A → Script B) (m : Machine) {c : Bool}
    → ((a : A) → returns (f a) (s m).1 ≡ c)
    → returns (s >>= f) m ≡ (returns s m && c)
unfolding ◌>>=◌
returns->>= s f m h = and_then-returns f (s m).0 (s m).1 h

pub returns-require :
    (b : Bool) (format : String) (args : List Arg) (m : Machine)
    → returns (require b format args) m ≡ b
unfolding pure raise
returns-require true format args m = refl
returns-require false format args m = refl

pub returns-read_text :
    {A : Type 0} (p : FilePath) (f : Text → Script A) (m : Machine) (test : Text → Bool)
    → ((s : Text) → returns (f s) m ≡ test s)
    → returns (read_text p >>= f) m ≡ if_read (try_read p m) test
unfolding read_text ◌>>=◌
returns-read_text p f m test h = elim (Option-cases (try_read p m)) [
  | inl gone ↦ rw gone
  | inr (s, read) ↦ rw read (h s)
]
