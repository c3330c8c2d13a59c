-- ===== src/Script/Ensures.antt =====
-- What a script has made of one file when it returns.
use mathlib.Core.Path.{subst}
use switch_ldn_zt.Base.{
  true, false, some, ◌≡◌, refl, sym, ap, ◌∙◌, Bool, String, List, if◌then◌else◌, inl, inr,
  Bool-cases,
}
use switch_ldn_zt.Text.{Text}
use switch_ldn_zt.Text.Occurs.{eqb_refl}
use switch_ldn_zt.Text.Newlines.{NoCr}
use switch_ldn_zt.Disk.{FilePath, has_dir}
use switch_ldn_zt.Script.{
  Arg, Error, Result, ok, err, Machine, Script, ◌>>=◌, pure, raise, require, try_read, read_text,
  write_text, write_raw, create_text, os_error,
}
use switch_ldn_zt.Script.Inversion.{>>=-ok, read_text-ok, require-ok}
use switch_ldn_zt.Script.Frame.{Leaves, Leaves-reads}
use switch_ldn_zt.Walk.Target.{try_read-write_text, try_read-write_raw, try_read-NoCr}

-- The file can be read, as a text with the property `P`.
pub record Reads (p : FilePath) (P : Text → Type 0) (m : Machine) : Type 0 where
  pub content : Text
  pub reads : try_read p m ≡ some content
  pub good : P content

pub Reads-write_text :
    (p : FilePath) {P : Text → Type 0} (t : Text) (m : Machine)
    → NoCr t
    → P t
    → Reads p P (write_text p t m).1
Reads-write_text p t m clean good = record {
  content = t;
  reads = try_read-write_text p p t m clean ∙ rw eqb_refl;
  good = good;
}

pub Reads-write_raw :
    (p : FilePath) {P : Text → Type 0} (t : Text) (m : Machine)
    → NoCr t
    → P t
    → Reads p P (write_raw p t m).1
Reads-write_raw p t m clean good = record {
  content = t;
  reads = try_read-write_raw p p t m clean ∙ rw eqb_refl;
  good = good;
}

pub Reads-keeps :
    {p : FilePath} {P : Text → Type 0} {m m' : Machine}
    → try_read p m' ≡ try_read p m
    → Reads p P m
    → Reads p P m'
Reads-keeps same r = record { content = r.content; reads = same ∙ r.reads; good = r.good }

-- Whenever the script returns, the file reads as a text with the property.
pub record Ensures {A : Type 0} (p : FilePath) (P : Text → Type 0) (s : Script A) : Type 0 where
  pub after : (m : Machine) {a : A} {m' : Machine} → s m ≡ (ok a, m') → Reads p P m'

module _ {A B : Type 0} {p : FilePath} {P : Text → Type 0} where
  pub Ensures-last :
      (s : Script A) (f : A → Script B) → ((a : A) → Ensures p P (f a)) → Ensures p P (s >>= f)
  Ensures-last s f hf = record {
    after = λ m h. let (a, m1, _, rest) = >>=-ok s f m h in (hf a).after m1 rest;
  }

  pub Ensures-first :
      (s : Script A) (f : A → Script B)
      → Ensures p P s
      → ((a : A) → Leaves p (f a))
      → Ensures p P (s >>= f)
  Ensures-first s f hs kept = record {
    after = λ m h.
        let (a, m1, first, rest) = >>=-ok s f m h in
        Reads-keeps (ap (λ r. try_read p r.1) (sym rest) ∙ Leaves-reads (kept a) m1)
          (hs.after m first);
  }

-- The same from a machine in which the file reads as `s`.
pub record From {A : Type 0} (p : FilePath) (P : Text → Type 0) (s : Text) (k : Script A)
    : Type 0 where
  pub after :
      (m : Machine) {a : A} {m' : Machine} → try_read p m ≡ some s → k m ≡ (ok a, m') → Reads p P m'

module _ {A : Type 0} {p : FilePath} {P : Text → Type 0} where
  -- A script that begins with the read of the file knows what it reads.
  pub Ensures-read_text :
      (f : Text → Script A)
      → ((s : Text) → NoCr s → From p P s (f s))
      → Ensures p P (read_text p >>= f)
  Ensures-read_text f hf = record {
    after = λ m h.
        let (s, read, rest) = read_text-ok p f m h in
        (hf s (try_read-NoCr p m read)).after m read rest;
  }

  module _ (s : Text) where
    pub From-pure : (a : A) → P s → From p P s (pure a)
    unfolding pure
    From-pure a good = record {
      after = λ m read h.
          subst (Reads p P) (ap (λ r. r.1) h) (record { content = s; reads = read; good = good });
    }

    pub From-raise : (e : Error) → From {A = A} p P s (raise e)
    unfolding raise
    From-raise e = record {
      after = λ m {a} {m'} read h.
          let bad : ◌≡◌ {A = Result A} (err e) (ok a) = ap (λ r. r.0) h in absurd (cc bad);
    }

    pub From-if :
        (b : Bool) (k l : Script A)
        → (b ≡ true → From p P s k)
        → (b ≡ false → From p P s l)
        → From p P s (if b then k else l)
    From-if true k l hk hl = hk refl
    From-if false k l hk hl = hl refl

    pub From-require :
        (b : Bool) (format : String) (args : List Arg) (k : Script A)
        → (b ≡ true → From p P s k)
        → From p P s (require b format args >>= λ _. k)
    From-require b format args k hk = record {
      after = λ m read h.
          let (there, rest) = require-ok b format args k m h in (hk there).after m read rest;
    }

module _ {p : FilePath} {P : Text → Type 0} (s : Text) where
  pub From-write_text : (t : Text) → NoCr t → P t → From p P s (write_text p t)
  unfolding write_text
  From-write_text t clean good = record {
    after = λ m read h. subst (Reads p P) (ap (λ r. r.1) h) (Reads-write_text p t m clean good);
  }

  pub From-write_raw : (t : Text) → NoCr t → P t → From p P s (write_raw p t)
  unfolding write_raw
  From-write_raw t clean good = record {
    after = λ m read h. subst (Reads p P) (ap (λ r. r.1) h) (Reads-write_raw p t m clean good);
  }

module _ {A B : Type 0} {p : FilePath} {P : Text → Type 0} (s : Text) where
  pub From-first :
      (k : Script A) (f : A → Script B)
      → From p P s k
      → ((a : A) → Leaves p (f a))
      → From p P s (k >>= f)
  From-first k f hk kept = record {
    after = λ m read h.
        let (a, m1, first, rest) = >>=-ok k f m h in
        Reads-keeps (ap (λ r. try_read p r.1) (sym rest) ∙ Leaves-reads (kept a) m1)
          (hk.after m read first);
  }

  pub From-last :
      (k : Script A) (f : A → Script B)
      → Leaves p k
      → ((a : A) → From p P s (f a))
      → From p P s (k >>= f)
  From-last k f kept hf = record {
    after = λ m read h.
        let (a, m1, first, rest) = >>=-ok k f m h in
        (hf a).after m1 (ap (λ r. try_read p r.1) (sym first) ∙ Leaves-reads kept m ∙ read) rest;
  }

-- A file that is created reads as what was written.
pub Ensures-create_text :
    (p : FilePath) (t : Text) → NoCr t → Ensures p (λ s. s ≡ t) (create_text p t)
unfolding create_text write_text
Ensures-create_text p t clean = record {
  after = λ m {a} {m'} h. elim (Bool-cases (has_dir p m.files)) [
    | inl there ↦
        let bad : ◌≡◌ {A = Result Unit} (err (os_error p)) (ok a) = ap (λ r. r.0) (rw there at h) in
        absurd (cc bad)
    | inr new ↦
        let written : (write_text p t m).1 ≡ m' = ap (λ r. r.1) (rw new at h) in
        subst (Reads p (λ s. s ≡ t)) written (Reads-write_text p t m clean refl)
  ];
}
