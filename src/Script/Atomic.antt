-- ===== src/Script/Atomic.antt =====
-- Scripts that check before they act: where they raise, they have done nothing.
use switch_ldn_zt.Base.{String, Bool, true, false, List, ◌≡◌, refl, ◌∙◌}
use switch_ldn_zt.Text.{Text}
use switch_ldn_zt.Disk.{FilePath}
use switch_ldn_zt.Script.{
  Arg, Error, Result, ok, err, Machine, Script, pure, raise, and_then, ◌>>=◌, require, read_text,
  write_text,
}

-- Running `s` leaves the machine as it is.
pub record IsQuiet {A : Type 0} (s : Script A) : Type 0 where
  pub same : (m : Machine) → (s m).1 ≡ m

-- If `s` raises, the machine is as it was.
pub record IsAtomic {A : Type 0} (s : Script A) : Type 0 where
  pub undone : (m : Machine) {e : Error} → (s m).0 ≡ err e → (s m).1 ≡ m

pub IsQuiet-read_text : (p : FilePath) → IsQuiet (read_text p)
unfolding read_text
IsQuiet-read_text p = record { same = λ m. refl }

pub IsQuiet-require :
    (b : Bool) (format : String) (args : List Arg) → IsQuiet (require b format args)
unfolding pure raise
IsQuiet-require true format args = record { same = λ m. refl }
IsQuiet-require false format args = record { same = λ m. refl }

pub IsAtomic-raise : {A : Type 0} (e : Error) → IsAtomic {A = A} (raise e)
unfolding raise
IsAtomic-raise e = record { undone = λ m h. refl }

pub IsAtomic-write_text : (p : FilePath) (t : Text) → IsAtomic (write_text p t)
unfolding write_text
IsAtomic-write_text p t = record { undone = λ m {e} h. absurd (cc h) }

and_then-IsAtomic :
    {A B : Type 0} (f : A → Script B) (r : Result A) (m : Machine) {e : Error}
    → ((a : A) → IsAtomic (f a))
    → (and_then r f m).0 ≡ err e
    → (and_then r f m).1 ≡ m
and_then-IsAtomic f (ok a) m hf h = (hf a).undone m h
and_then-IsAtomic f (err e) m hf h = refl

pub IsAtomic-bind :
    {A B : Type 0} (s : Script A) (f : A → Script B)
    → IsQuiet s
    → ((a : A) → IsAtomic (f a))
    → IsAtomic (s >>= f)
unfolding ◌>>=◌
IsAtomic-bind s f hs hf = record {
  undone = λ m {e} h. and_then-IsAtomic f (s m).0 (s m).1 hf h ∙ hs.same m;
}

pub ruleset atomic_rules =
    (IsQuiet-read_text, IsQuiet-require, IsAtomic-raise, IsAtomic-write_text, IsAtomic-bind)
