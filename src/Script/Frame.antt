-- ===== src/Script/Frame.antt =====
-- Which files a script leaves alone: one rule for each way to build a script.
use switch_ldn_zt.Base.{
  String, Bool, true, false, Option, none, some, List, [], ◌++◌, ◌≡◌, refl, ap, ◌∙◌, inl, inr,
  Bool-cases, if◌then◌else◌,
}
use switch_ldn_zt.Text.{Text, codes, eqb}
use switch_ldn_zt.Disk.{File, FilePath, find_file, has_dir}
use switch_ldn_zt.Disk.Laws.{find_file-put_file, find_file-remove_file}
use switch_ldn_zt.Script.{
  Arg, Error, Result, ok, err, Machine, Script, pure, raise, and_then, ◌>>=◌, require, print,
  read_text, list_files, write_text, write_raw, is_file, exists, unlink, copied, copy_file,
  make_dirs, create_text, is_blocked, try_read, readable, is_regular,
}

-- `s` does not change the file at `q`, whether it returns or raises.
pub record Leaves {A : Type 0} (q : FilePath) (s : Script A) : Type 0 where
  pub same : (m : Machine) → find_file q (s m).1.files ≡ find_file q m.files

module _ {A : Type 0} {q : FilePath} where
  pub Leaves-pure : (a : A) → Leaves q (pure a)
  unfolding pure
  Leaves-pure a = record { same = λ m. refl }

  pub Leaves-raise : (e : Error) → Leaves {A = A} q (raise e)
  unfolding raise
  Leaves-raise e = record { same = λ m. refl }

  pub Leaves-if :
      (b : Bool) (s t : Script A) → Leaves q s → Leaves q t → Leaves q (if b then s else t)
  Leaves-if true s t hs ht = hs
  Leaves-if false s t hs ht = ht

module _ {A B : Type 0} {q : FilePath} where
  and_then-Leaves :
      (f : A → Script B) → ((a : A) → Leaves q (f a)) → (r : Result A) → Leaves q (and_then r f)
  and_then-Leaves f hf (ok a) = hf a
  and_then-Leaves f hf (err e) = record { same = λ m. refl }

  pub Leaves-bind :
      (s : Script A) (f : A → Script B)
      → Leaves q s
      → ((a : A) → Leaves q (f a))
      → Leaves q (s >>= f)
  unfolding ◌>>=◌
  Leaves-bind s f hs hf = record {
    same = λ m. (and_then-Leaves f hf (s m).0).same (s m).1 ∙ hs.same m;
  }

-- What a script returns has the property.
pub record Yields {A : Type 0} (R : A → Type 0) (s : Script A) : Type 0 where
  pub value : (m : Machine) {a : A} {m' : Machine} → s m ≡ (ok a, m') → R a

module _ {A B : Type 0} {q : FilePath} where
  -- A sequence whose second part leaves the file alone for the values that the first part returns.
  pub Leaves-then :
      (R : A → Type 0) (s : Script A) (f : A → Script B)
      → Yields R s
      → Leaves q s
      → ((a : A) → R a → Leaves q (f a))
      → Leaves q (s >>= f)
  unfolding ◌>>=◌
  Leaves-then R s f yields hs hf = record { same = λ m. go m (s m).0 (s m).1 refl ∙ hs.same m }
    where
      go :
          (m : Machine) (r : Result A) (m' : Machine)
          → s m ≡ (r, m')
          → find_file q (and_then r f m').1.files ≡ find_file q m'.files
      go m (ok a) m' e = (hf a (yields.value m e)).same m'
      go m (err e) m' h = refl

module _ {q : FilePath} where
  pub Leaves-require :
      (b : Bool) (format : String) (args : List Arg) → Leaves q (require b format args)
  Leaves-require true format args = Leaves-pure tt
  Leaves-require false format args = Leaves-raise _

  pub Leaves-print : (format : String) (args : List Arg) → Leaves q (print format args)
  unfolding print
  Leaves-print format args = record { same = λ m. refl }

  pub Leaves-read_text : (p : FilePath) → Leaves q (read_text p)
  unfolding read_text
  Leaves-read_text p = record { same = λ m. refl }

  pub Leaves-list_files : (root name : Text) → Leaves q (list_files root name)
  unfolding list_files
  Leaves-list_files root name = record { same = λ m. refl }

  pub Leaves-is_file : (p : FilePath) → Leaves q (is_file p)
  unfolding is_file
  Leaves-is_file p = record { same = λ m. refl }

  pub Leaves-exists : (p : FilePath) → Leaves q (exists p)
  unfolding exists
  Leaves-exists p = record { same = λ m. refl }

  pub Leaves-write_text : (p : FilePath) (s : Text) → eqb q p ≡ false → Leaves q (write_text p s)
  unfolding write_text
  Leaves-write_text p s away = record { same = λ m. find_file-put_file q p _ m.files ∙ rw away }

  pub Leaves-write_raw : (p : FilePath) (s : Text) → eqb q p ≡ false → Leaves q (write_raw p s)
  unfolding write_raw
  Leaves-write_raw p s away = record { same = λ m. find_file-put_file q p _ m.files ∙ rw away }

  pub Leaves-unlink : (p : FilePath) → eqb q p ≡ false → Leaves q (unlink p)
  unfolding unlink
  Leaves-unlink p away = record {
    same = λ m. elim (Bool-cases (is_regular (find_file p m.files))) [
      | inl there ↦ rw there (find_file-remove_file q p m.files ∙ rw away)
      | inr other ↦ rw other
    ];
  }

  pub Leaves-make_dirs : (p : FilePath) → eqb q p ≡ false → Leaves q (make_dirs p)
  unfolding make_dirs
  Leaves-make_dirs p away = record {
    same = λ m. elim (Bool-cases (is_blocked [] p m.files)) [
      | inl blocked ↦ rw blocked
      | inr free ↦ rw free (elim (Bool-cases (has_dir p m.files)) [
        | inl there ↦ rw there
        | inr new ↦ rw new (find_file-put_file q p _ m.files ∙ rw away)
      ])
    ];
  }

  pub Leaves-create_text : (p : FilePath) (s : Text) → eqb q p ≡ false → Leaves q (create_text p s)
  unfolding create_text write_text
  Leaves-create_text p s away = record {
    same = λ m. elim (Bool-cases (has_dir p m.files)) [
      | inl there ↦ rw there
      | inr new ↦ rw new (find_file-put_file q p _ m.files ∙ rw away)
    ];
  }

  copied-Leaves :
      (source target : FilePath) (b : Bool) (f : Option File)
      → eqb q target ≡ false
      → Leaves q (copied source target b f)
  copied-Leaves source target true (some (File.text t)) away = record {
    same = λ m. find_file-put_file q target _ m.files ∙ rw away;
  }
  copied-Leaves source target true (some (File.binary b)) away = record {
    same = λ m. find_file-put_file q target _ m.files ∙ rw away;
  }
  copied-Leaves source target true none away = record { same = λ m. refl }
  copied-Leaves source target true (some File.directory) away = record { same = λ m. refl }
  copied-Leaves source target false f away = record { same = λ m. refl }

  pub Leaves-copy_file :
      (source dir : FilePath) (name : Text)
      → eqb q (dir ++ (codes "/" ++ name)) ≡ false
      → Leaves q (copy_file source dir name)
  unfolding copy_file
  Leaves-copy_file source dir name away = record {
    same = λ m.
        (copied-Leaves source (dir ++ (codes "/" ++ name)) (has_dir dir m.files)
            (find_file source m.files) away).same
          m;
  }

-- What is left alone reads as before.
pub Leaves-reads :
    {A : Type 0} {q : FilePath} {s : Script A}
    → Leaves q s
    → (m : Machine) → try_read q (s m).1 ≡ try_read q m
unfolding try_read
Leaves-reads h m = ap readable (h.same m)

pub ruleset leaves_rules = (
  Leaves-pure, Leaves-raise, Leaves-if, Leaves-bind, Leaves-require, Leaves-print, Leaves-read_text,
  Leaves-list_files, Leaves-is_file, Leaves-exists, Leaves-write_text, Leaves-write_raw,
  Leaves-make_dirs, Leaves-create_text, Leaves-unlink, Leaves-copy_file,
)
