-- ===== src/LdnPatch/Edit.antt =====
-- The three helpers that edit a file in place. Each reads the file, checks, and writes once.
pub mod Braces
pub mod Laws
pub mod Function
pub mod Finds
pub mod Refusal
use switch_ldn_zt.Base.{
  ℕ, ◌+◌, ◌-◌, Bool, true, false, not, ◌&&◌, Option, none, some, List, [], ◌∷◌, ◌++◌, take, drop,
  ltb, ◌==◌, if◌then◌else◌,
}
use switch_ldn_zt.Text.{
  Text, codes, contains, count, replace_first, replace_every, find?, find_from?,
}
use switch_ldn_zt.Disk.{FilePath}
use switch_ldn_zt.Script.{
  Arg, Script, file, quoted, num, pure, ◌>>=◌, ◌>>◌, exit, require, read_text, write_text,
}

unfoldable pub replace : FilePath → Text → Text → Script Unit
replace path old new = do
  text ← read_text path
  require (contains old text) "patch anchor missing: {path}: {old[:80]!r}"
      (file path ∷ quoted (take 80 old) ∷ [])
  write_text path (replace_first old new text)

unfoldable pub replace_all : FilePath → Text → Text → ℕ → Script Unit
replace_all path old new minimum = do
  text ← read_text path
  require (not (ltb (count old text) minimum))
      "patch anchor missing: {path}: expected at least {minimum}, found {count}: {old[:80]!r}"
      (file path ∷ num minimum ∷ num (count old text) ∷ quoted (take 80 old) ∷ [])
  write_text path (replace_every old new text)

-- `for i in range(brace, len(text))`, from depth `d` at index `i`: the index behind the brace that
-- takes the depth from 1 to 0.
unfoldable pub close_brace : ℕ → ℕ → Text → Option ℕ
close_brace d i [] = none
close_brace d i (c ∷ s) =
    let rest =
      close_brace (if c == b'{' then d + 1 else if c == b'}' then d - 1 else d) (i + 1) s in
    if c == b'}' && d == 1 then some (i + 1) else rest

-- after the signature was found at `start` and a brace at `brace`
unfoldable pub replace_body : FilePath → Text → Text → Text → ℕ → Option ℕ → Script Unit
replace_body path signature new_body text start none =
    exit "patch function has unbalanced braces: {path}: {signature!r}"
      (file path ∷ quoted signature ∷ [])
replace_body path signature new_body text start (some end) =
    write_text path (take start text ++ (signature ++ (codes " " ++ (new_body ++ drop end text))))

unfoldable pub replace_from_brace : FilePath → Text → Text → Text → ℕ → Option ℕ → Script Unit
replace_from_brace path signature new_body text start none =
    exit "patch function has no opening brace: {path}: {signature!r}"
      (file path ∷ quoted signature ∷ [])
replace_from_brace path signature new_body text start (some brace) =
    replace_body path signature new_body text start (close_brace 0 brace (drop brace text))

unfoldable pub replace_found : FilePath → Text → Text → Text → Option ℕ → Script Unit
replace_found path signature new_body text none =
    exit "patch function missing: {path}: {signature!r}" (file path ∷ quoted signature ∷ [])
replace_found path signature new_body text (some start) =
    replace_from_brace path signature new_body text start (find_from? start (codes "{") text)

unfoldable pub replace_function : FilePath → Text → Text → Script Unit
replace_function path signature new_body = do
  text ← read_text path
  replace_found path signature new_body text (find? signature text)

-- One call of a helper, without its path.
pub data Edit : Type 0 where
  one : Text → Text → Edit
  every : Text → Text → ℕ → Edit
  function : Text → Text → Edit

unfoldable pub apply_edit : FilePath → Edit → Script Unit
apply_edit path (one old new) = replace path old new
apply_edit path (every old new minimum) = replace_all path old new minimum
apply_edit path (function signature new_body) = replace_function path signature new_body

-- The calls of the script for one file, one after the other.
unfoldable pub apply_edits : FilePath → List Edit → Script Unit
apply_edits path [] = pure tt
apply_edits path (e ∷ es) = do apply_edit path e; apply_edits path es
