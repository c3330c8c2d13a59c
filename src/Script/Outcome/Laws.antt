-- ===== src/Script/Outcome/Laws.antt =====
-- What a row of results tells when it ends well, and what an attempt leaves alone.
use switch_ldn_zt.Base.{String, false, Option, none, some, List, ◌≡◌, refl, arith}
use switch_ldn_zt.Text.{Text, eqb}
use switch_ldn_zt.Disk.{FilePath}
use switch_ldn_zt.Script.{Arg, Result, ok, err}
use switch_ldn_zt.Script.Frame.{Leaves, Leaves-pure, Leaves-raise, leaves_rules}
use switch_ldn_zt.Script.Outcome.{◌>>=◌, expect, lift, attempt}

pub bind-ok :
    {A B : Type 0} (r : Result A) (f : A → Result B) {b : B}
    → (r >>= f) ≡ ok b
    → (a : A) × (r ≡ ok a) × (f a ≡ ok b)
unfolding ◌>>=◌
bind-ok (ok a) f h = (a, refl, h)
bind-ok (err e) f h = absurd (cc h)

pub ok-injective : {A : Type 0} {a b : A} → ◌≡◌ {A = Result A} (ok a) (ok b) → a ≡ b
ok-injective h = cc h

pub expect-ok :
    {A : Type 0} (format : String) (args : List Arg) (o : Option A) {a : A}
    → expect format args o ≡ ok a
    → o ≡ some a
expect-ok format args none h = absurd (cc h)
expect-ok format args (some a) h = ground arith

module _ {q : FilePath} where
  pub Leaves-lift : {A : Type 0} (r : Result A) → Leaves q (lift r)
  Leaves-lift (ok a) = Leaves-pure a
  Leaves-lift (err e) = Leaves-raise e

  pub Leaves-attempt :
      (p : FilePath) (f : Text → Result Text) → eqb q p ≡ false → Leaves q (attempt p f)
  unfolding attempt
  Leaves-attempt p f away = search (Leaves-lift, leaves_rules)
