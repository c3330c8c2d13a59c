-- ===== src/Script/Outcome.antt =====
-- Computations on texts that may raise: results in a row, and the file that such a computation edits.
pub mod Laws
use switch_ldn_zt.Base.{String, Option, none, some, List}
use switch_ldn_zt.Text.{Text}
use switch_ldn_zt.Disk.{FilePath}
use switch_ldn_zt.Script.{
  Arg, system_exit, crash, Result, ok, err, Script, pure as give, raise, read_text, write_text,
  ◌>>=◌ as ◌>>>=◌,
}

infixl 10 ◌>>=◌ ◌>>◌
unfoldable pub ◌>>=◌ : {A B : Type 0} → Result A → (A → Result B) → Result B
ok a >>= f = f a
err e >>= f = err e

abbrev pub ◌>>◌ : {A B : Type 0} → Result A → Result B → Result B
a >> b = a >>= λ _. b

abbrev pub pure : {A : Type 0} → A → Result A
pure a = ok a

-- `if x is None: raise SystemExit(…)`
abbrev pub expect : {A : Type 0} → String → List Arg → Option A → Result A
expect format args none = err (system_exit (record { format = format; args = args }))
expect format args (some a) = ok a

-- an attribute of what may be `None`
abbrev pub attribute : {A : Type 0} → Option A → Result A
attribute none = err (crash "AttributeError")
attribute (some a) = ok a

-- The computation's error is raised by the script.
abbrev pub lift : {A : Type 0} → Result A → Script A
lift (ok a) = give a
lift (err e) = raise e

unfoldable pub attempt : FilePath → (Text → Result Text) → Script Unit
attempt p f = read_text p >>>= λ s. lift (f s) >>>= λ t. write_text p t
