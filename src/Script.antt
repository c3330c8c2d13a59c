-- ===== src/Script.antt =====
-- What a patch script can do: read, write, copy and remove files, print, and leave by `SystemExit`
-- or by an error of the file system. What was written before it left stays written, so the machine
-- comes back beside an error too.
pub mod Frame
pub mod Inversion
pub mod Atomic
pub mod Gate
pub mod Ensures
pub mod Revises
pub mod Returns
pub mod Edits
pub mod Outcome
use switch_ldn_zt.Base.{
  ℕ, ◌==◌, ◌&&◌, ◌||◌, String, Bool, true, false, Option, none, some, List, [], ◌∷◌, ◌++◌,
  if◌then◌else◌,
}
use switch_ldn_zt.Text.{Text, codes}
use switch_ldn_zt.Text.Newlines.{universal_newlines, to_linesep}
use switch_ldn_zt.Disk.{File, FilePath, Files, find_file, put_file, remove_file, has_dir, rglob}

-- What a format string is given for its braces: `quoted` is an argument with `!r`.
pub data Arg : Type 0 where
  file : FilePath → Arg
  shown : Text → Arg
  quoted : Text → Arg
  num : ℕ → Arg

pub record Message : Type 0 where
  pub format : String
  pub args : List Arg

-- `os_error` is a file or a command that failed, by its path; `crash` is any other exception.
pub data Error : Type 0 where
  system_exit : Message → Error
  os_error : FilePath → Error
  crash : String → Error

pub data Result {ℓ} (A : Type ℓ) : Type ℓ where
  ok : A → Result A
  err : Error → Result A

-- `windows` says that `os.linesep` is `\r\n`; `out` is what was printed.
pub record Machine : Type 0 where
  pub files : Files
  pub windows : Bool
  pub out : List Message

abbrev pub Script : Type 0 → Type 0
Script A = Machine → Result A × Machine

unfoldable pub pure : {A : Type 0} → A → Script A
pure a m = (ok a, m)

unfoldable pub raise : {A : Type 0} → Error → Script A
raise e m = (err e, m)

abbrev pub and_then : {A B : Type 0} → Result A → (A → Script B) → Script B
and_then (ok a) f m = f a m
and_then (err e) f m = (err e, m)

infixl 10 ◌>>=◌ ◌>>◌
-- opening this opens `pure` and `raise` too
unfoldable pub ◌>>=◌ : {A B : Type 0} → Script A → (A → Script B) → Script B
unfolding pure raise
◌>>=◌ a f m = and_then (a m).0 f (a m).1

abbrev pub ◌>>◌ : {A B : Type 0} → Script A → Script B → Script B
a >> b = a >>= λ _. b

-- `raise SystemExit(…)`
abbrev pub exit : {A : Type 0} → String → List Arg → Script A
exit format args = raise (system_exit (record { format = format; args = args }))

-- `if not condition: raise SystemExit(…)`
abbrev pub require : Bool → String → List Arg → Script Unit
require true format args = pure tt
require false format args = exit format args

-- `print(…)`
unfoldable pub print : String → List Arg → Script Unit
print format args m =
    (ok tt, record m { out = m.out ++ (record { format = format; args = args }) ∷ [] })

-- the machine after one more line of output
unfoldable pub said : Message → Machine → Machine
said told m = record m { out = m.out ++ told ∷ [] }

-- the text of a file, if it can be read
abbrev pub readable : Option File → Option Text
readable none = none
readable (some (File.text t)) = some (universal_newlines t)
readable (some (File.binary b)) = none
readable (some File.directory) = none

-- `path.read_text()` under `try: … except Exception: continue`
unfoldable pub try_read : FilePath → Machine → Option Text
try_read p m = readable (find_file p m.files)

abbrev pub or_os_error : FilePath → Option Text → Result Text
or_os_error p none = err (os_error p)
or_os_error p (some t) = ok t

-- `path.read_text()`
unfoldable pub read_text : FilePath → Script Text
unfolding try_read
read_text p m = (or_os_error p (try_read p m), m)

-- `path.write_text(s)`
unfoldable pub write_text : FilePath → Text → Script Unit
write_text p s m =
    (ok tt, record m { files = put_file p (File.text (to_linesep m.windows s)) m.files })

-- `path.write_text(s, newline="")`
unfoldable pub write_raw : FilePath → Text → Script Unit
write_raw p s m = (ok tt, record m { files = put_file p (File.text s) m.files })

abbrev pub is_regular : Option File → Bool
is_regular none = false
is_regular (some (File.text t)) = true
is_regular (some (File.binary b)) = true
is_regular (some File.directory) = false

abbrev pub is_some : {A : Type 0} → Option A → Bool
is_some none = false
is_some (some a) = true

-- `path.is_file()`
unfoldable pub is_file : FilePath → Script Bool
is_file p m = (ok (is_regular (find_file p m.files)), m)

-- `path.exists()`
unfoldable pub exists : FilePath → Script Bool
exists p m = (ok (is_some (find_file p m.files)), m)

-- `Path(root).rglob(name)`
unfoldable pub list_files : FilePath → Text → Script (List FilePath)
list_files root name m = (ok (rglob root name m.files), m)

-- `path.unlink()`
unfoldable pub unlink : FilePath → Script Unit
unlink p m =
    if is_regular (find_file p m.files)
    then (ok tt, record m { files = remove_file p m.files })
    else (err (os_error p), m)

abbrev pub copied : FilePath → FilePath → Bool → Option File → Script Unit
copied source target true (some (File.text t)) m =
    (ok tt, record m { files = put_file target (File.text t) m.files })
copied source target true (some (File.binary b)) m =
    (ok tt, record m { files = put_file target (File.binary b) m.files })
copied source target _ _ m = (err (os_error source), m)

-- `shutil.copy2(source, dir / name)`, where `dir / name` is not itself a directory
unfoldable pub copy_file : FilePath → FilePath → Text → Script Unit
copy_file source dir name m =
    copied source (dir ++ (codes "/" ++ name)) (has_dir dir m.files) (find_file source m.files) m

-- Is the path, or one that it goes through, a file? `seen` is the part before `rest`.
unfoldable pub is_blocked : Text → Text → Files → Bool
is_blocked seen [] fs = is_regular (find_file seen fs)
is_blocked seen (c ∷ rest) fs =
    (c == b'/' && is_regular (find_file seen fs)) || is_blocked (seen ++ c ∷ []) rest fs

-- `dir.mkdir(parents=True, exist_ok=True)`
unfoldable pub make_dirs : FilePath → Script Unit
unfolding is_blocked
make_dirs dir m =
    if is_blocked [] dir m.files
    then (err (os_error dir), m)
    else if has_dir dir m.files
    then (ok tt, m)
    else (ok tt, record m { files = put_file dir File.directory m.files })

-- `path.write_text(s)` for a file that was not read before
unfoldable pub create_text : FilePath → Text → Script Unit
unfolding write_text
create_text p s m = if has_dir p m.files then (err (os_error p), m) else write_text p s m
