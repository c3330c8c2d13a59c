-- ===== src/Disk.antt =====
-- The working tree that the scripts patch: files by path, in the order in which a walk of the
-- directories lists them. A path is written from the repository's root.
pub mod Laws
use switch_ldn_zt.Base.{
  ℕ, Bool, true, false, ◌&&◌, ◌||◌, Option, none, some, List, [], ◌∷◌, ◌++◌, if◌then◌else◌,
}
use switch_ldn_zt.Text.{Text, codes, eqb, starts_with}

-- `binary` is a file whose bytes are no UTF-8. `directory` is an entry for a directory by itself.
pub data File : Type 0 where
  text : Text → File
  binary : List ℕ → File
  directory : File

abbrev pub FilePath : Type 0
FilePath = Text

abbrev pub Files : Type 0
Files = List (FilePath × File)

unfoldable pub find_file : FilePath → Files → Option File
unfolding eqb
find_file p [] = none
find_file p ((q, f) ∷ fs) = if eqb p q then some f else find_file p fs

-- A new file comes last in its directory's list; a known one keeps its place.
unfoldable pub put_file : FilePath → File → Files → Files
unfolding eqb
put_file p f [] = (p, f) ∷ []
put_file p f ((q, g) ∷ fs) = if eqb p q then (q, f) ∷ fs else (q, g) ∷ put_file p f fs

unfoldable pub remove_file : FilePath → Files → Files
unfolding eqb
remove_file p [] = []
remove_file p ((q, g) ∷ fs) = let rest = remove_file p fs in if eqb p q then rest else (q, g) ∷ rest

-- `s.endswith(suffix)`
unfoldable pub ends_with : Text → Text → Bool
unfolding eqb
ends_with suffix [] = eqb suffix []
ends_with suffix (c ∷ s) = eqb suffix (c ∷ s) || ends_with suffix s

-- Is the path one of `Path(root).rglob(name)`, for a name without wildcards?
abbrev pub matches : FilePath → Text → FilePath → Bool
matches root name p = starts_with (root ++ codes "/") p && ends_with (codes "/" ++ name) p

-- `Path(root).rglob(name)`
unfoldable pub rglob : FilePath → Text → Files → List FilePath
rglob root name [] = []
rglob root name ((p, f) ∷ fs) =
    let rest = rglob root name fs in if matches root name p then p ∷ rest else rest

abbrev pub is_directory : File → Bool
is_directory File.directory = true
is_directory _ = false

-- Is the path a directory: listed as one, or with an entry below it?
unfoldable pub has_dir : FilePath → Files → Bool
unfolding eqb
has_dir dir [] = false
has_dir dir ((p, f) ∷ fs) =
    (eqb dir p && is_directory f) || starts_with (dir ++ codes "/") p || has_dir dir fs
