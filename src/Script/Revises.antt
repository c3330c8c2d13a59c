-- ===== src/Script/Revises.antt =====
-- What a script makes of one file from what it read before.
use switch_ldn_zt.Base.{some, ◌≡◌, sym, ap, ◌∙◌}
use switch_ldn_zt.Text.{Text}
use switch_ldn_zt.Text.Newlines.{NoCr}
use switch_ldn_zt.Disk.{FilePath}
use switch_ldn_zt.Script.{ok, Machine, Script, ◌>>=◌, try_read, read_text}
use switch_ldn_zt.Script.Inversion.{>>=-ok, read_text-ok}
use switch_ldn_zt.Script.Frame.{Leaves, Leaves-reads}
use switch_ldn_zt.Script.Ensures.{From}
use switch_ldn_zt.Walk.Target.{try_read-NoCr}

-- The file could be read, and reads as a text that is related to what it read as before.
pub record Revised (p : FilePath) (R : Text → Text → Type 0) (m m' : Machine) : Type 0 where
  pub before : Text
  pub after : Text
  pub read : try_read p m ≡ some before
  pub reads : try_read p m' ≡ some after
  pub good : R before after

-- So it is whenever the script returns.
pub record Revises {A : Type 0} (p : FilePath) (R : Text → Text → Type 0) (s : Script A)
    : Type 0 where
  pub after : (m : Machine) {a : A} {m' : Machine} → s m ≡ (ok a, m') → Revised p R m m'

module _ {A B : Type 0} {p : FilePath} {R : Text → Text → Type 0} where
  pub Revises-last :
      (s : Script A) (f : A → Script B)
      → Leaves p s
      → ((a : A) → Revises p R (f a))
      → Revises p R (s >>= f)
  Revises-last s f kept hf = record {
    after = λ m h.
        let (a, m1, first, rest) = >>=-ok s f m h in
        let r = (hf a).after m1 rest in
        let same = ap (λ x. try_read p x.1) (sym first) ∙ Leaves-reads kept m in
        record {
          before = r.before;
          after = r.after;
          read = sym same ∙ r.read;
          reads = r.reads;
          good = r.good;
        };
  }

  pub Revises-first :
      (s : Script A) (f : A → Script B)
      → Revises p R s
      → ((a : A) → Leaves p (f a))
      → Revises p R (s >>= f)
  Revises-first s f hs kept = record {
    after = λ m h.
        let (a, m1, first, rest) = >>=-ok s f m h in
        let r = hs.after m first in
        record {
          before = r.before;
          after = r.after;
          read = r.read;
          reads = ap (λ x. try_read p x.1) (sym rest) ∙ Leaves-reads (kept a) m1 ∙ r.reads;
          good = r.good;
        };
  }

pub Revises-read_text :
    {A : Type 0} {p : FilePath} {R : Text → Text → Type 0} (f : Text → Script A)
    → ((s : Text) → NoCr s → From p (R s) s (f s))
    → Revises p R (read_text p >>= f)
Revises-read_text {p} f hf = record {
  after = λ m h.
      let (s, read, rest) = read_text-ok p f m h in
      let r = (hf s (try_read-NoCr p m read)).after m read rest in
      record { before = s; after = r.content; read = read; reads = r.reads; good = r.good };
}
