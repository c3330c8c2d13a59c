-- ===== src/Script/Inversion.antt =====
-- What a script that returned has done: its parts returned too.
use switch_ldn_zt.Base.{
  String, Bool, true, false, some, List, ◌≡◌, refl, ap, inl, inr, Option-cases,
}
use switch_ldn_zt.Text.{Text}
use switch_ldn_zt.Disk.{FilePath, find_file}
use switch_ldn_zt.Script.{
  Arg, Error, Result, ok, err, Machine, Script, and_then, pure, raise, ◌>>=◌, require, system_exit,
  read_text, try_read, exists, is_some,
}

and_then-ok :
    {A B : Type 0} (f : A → Script B) (r : Result A) (m : Machine) {b : B} {m' : Machine}
    → and_then r f m ≡ (ok b, m')
    → (a : A) × (r ≡ ok a) × (f a m ≡ (ok b, m'))
and_then-ok f (ok a) m h = (a, refl, h)
and_then-ok {B} f (err e) m {b} h =
    let bad : ◌≡◌ {A = Result B} (err e) (ok b) = ap (λ x. x.0) h in cc

pub >>=-ok :
    {A B : Type 0} (s : Script A) (f : A → Script B) (m : Machine) {b : B} {m' : Machine}
    → (s >>= f) m ≡ (ok b, m')
    → (a : A) × (m1 : Machine) × (s m ≡ (ok a, m1)) × (f a m1 ≡ (ok b, m'))
unfolding ◌>>=◌
>>=-ok s f m h =
    let (a, e, rest) = and_then-ok f (s m).0 (s m).1 h in (a, (s m).1, λ i. (e i, (s m).1), rest)

pub require-ok :
    {B : Type 0} (c : Bool) (format : String) (args : List Arg) (k : Script B) (m : Machine) {b : B}
    {m' : Machine}
    → (require c format args >>= λ _. k) m ≡ (ok b, m')
    → (c ≡ true) × (k m ≡ (ok b, m'))
unfolding ◌>>=◌
require-ok true format args k m h = (refl, h)
require-ok {B} false format args k m {b} h =
    let bad : ◌≡◌ {A = Result B} (err (system_exit _)) (ok b) = ap (λ x. x.0) h in cc

pub >>=-run :
    {A B : Type 0} (s : Script A) (f : A → Script B) (m : Machine) {a : A} {m' : Machine}
    → s m ≡ (ok a, m')
    → (s >>= f) m ≡ f a m'
unfolding ◌>>=◌
>>=-run s f m h = λ i. and_then (h i).0 f (h i).1

pub >>=-err :
    {A B : Type 0} (s : Script A) (f : A → Script B) (m : Machine) {e : Error} {m' : Machine}
    → s m ≡ (err e, m')
    → (s >>= f) m ≡ (err e, m')
unfolding ◌>>=◌
>>=-err s f m h = λ i. and_then (h i).0 f (h i).1

-- The same for the actions that only look.
pub read_text-ok :
    {B : Type 0} (p : FilePath) (f : Text → Script B) (m : Machine) {b : B} {m' : Machine}
    → (read_text p >>= f) m ≡ (ok b, m')
    → (s : Text) × (try_read p m ≡ some s) × (f s m ≡ (ok b, m'))
unfolding read_text ◌>>=◌
read_text-ok p f m h = elim (Option-cases (try_read p m)) [
  | inl gone ↦ let h' = rw gone at h in absurd (cc (ap (λ x. x.0) h'))
  | inr (s, found) ↦ (s, found, rw found at h)
]

pub exists-run :
    {B : Type 0} (p : FilePath) (f : Bool → Script B) (m : Machine)
    → (exists p >>= f) m ≡ f (is_some (find_file p m.files)) m
unfolding exists ◌>>=◌
exists-run p f m = refl

pub require-last :
    (c : Bool) (format : String) (args : List Arg) (m : Machine) {m' : Machine}
    → require c format args m ≡ (ok tt, m')
    → (c ≡ true) × (m ≡ m')
unfolding pure raise
require-last true format args m h = (refl, ap (λ x. x.1) h)
require-last false format args m h = absurd (cc (ap (λ x. x.0) h))
