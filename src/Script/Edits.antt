-- ===== src/Script/Edits.antt =====
-- Edits of one file: the script reads it, edits the text in memory, where it may exit, and writes.
pub mod Laws
use switch_ldn_zt.Base.{
  String, Bool, true, false, not, ◌&&◌, List, [], ◌∷◌, ◌++◌, ◌==◌, if◌then◌else◌,
}
use switch_ldn_zt.Text.{Text, contains, replace_first}
use switch_ldn_zt.Disk.{FilePath}
use switch_ldn_zt.Script.{Message, Script, system_exit, pure, raise, ◌>>=◌, read_text, write_text}
use switch_ldn_zt.Regex.{Regex, subn_by}

-- What an edit makes of a text: a text, or an exit.
pub data Edited : Type 0 where
  edited : Text → Edited
  refused : Message → Edited

abbrev pub then_edit : Edited → (Text → Edited) → Edited
then_edit (edited s) f = f s
then_edit (refused msg) f = refused msg

unfoldable pub save : FilePath → Edited → Script Unit
save p (edited t) = write_text p t
save p (refused msg) = raise (system_exit msg)

unfoldable pub edit_file : FilePath → (Text → Edited) → Script Unit
unfolding save
edit_file p f = do s ← read_text p; save p (f s)

-- The file is written only where the test fails.
unfoldable pub edit_unless : FilePath → (Text → Bool) → (Text → Edited) → Script Unit
unfolding save
edit_unless p done f = do s ← read_text p; if done s then pure tt else save p (f s)

abbrev pub plain : String → Message
plain s = record { format = s; args = [] }

-- `s, count = re.subn(…, count=1)` and an exit if nothing was found, unless `accepted`
unfoldable pub subn_or : Regex → (Text → Text) → (Text → Bool) → String → Text → Edited
unfolding subn_by
subn_or r new accepted missing s =
    let out = subn_by r new s in
    if not (out.1 == 1) && not (accepted s) then refused (plain missing) else edited out.0

-- `s.replace(old, new, 1)` after a test that `old` is there
unfoldable pub replace_at : Text → Text → (Text → Bool) → String → Text → Edited
replace_at old new accepted missing s =
    if contains old s
    then edited (replace_first old new s)
    else if not (accepted s)
    then refused (plain missing)
    else edited s

-- an edit under a test that it is not made yet
unfoldable pub unless : (Text → Bool) → (Text → Edited) → Text → Edited
unless done f s = if done s then edited s else f s

abbrev pub never : Text → Bool
never s = false
