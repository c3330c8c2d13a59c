-- ===== src/Walk.antt =====
-- The loop that most of the patch scripts are made of:
--   for path in Path(root).rglob(name):
--       try: s = path.read_text()
--       except Exception: continue
--       …
-- Its body ends in one of four ways, and writes at most once, just before it leaves the loop.
pub mod Target
pub mod Frame
pub mod Twice
pub mod Turns
pub mod Reaches
pub mod Again
pub mod Candidate
use switch_ldn_zt.Base.{Bool, true, false, Option, none, some, List, [], ◌∷◌, if◌then◌else◌}
use switch_ldn_zt.Text.{Text}
use switch_ldn_zt.Disk.{FilePath, rglob}
use switch_ldn_zt.Script.{
  Message, Machine, Script, system_exit, pure, raise, ◌>>=◌, ◌>>◌, print, try_read, write_text,
  write_raw,
}

pub data Verdict : Type 0 where
  -- on to the next file
  pass : Verdict
  -- print and `break`
  finish : Message → Verdict
  -- `path.write_text(s, newline="")`, print and `break`
  rewrite_raw : Text → Message → Verdict
  -- `path.write_text(s)`, print and `break`
  rewrite : Text → Message → Verdict
  -- `raise SystemExit(…)`
  abort : Message → Verdict

abbrev pub Body : Type 0
Body = FilePath → Text → Verdict

-- The end of a round; the result says whether the loop was left by `break`.
unfoldable pub act : FilePath → Verdict → Script Bool
unfolding ◌>>=◌ print write_text write_raw
act p pass = pure false
act p (finish msg) = do print msg.format msg.args; pure true
act p (rewrite_raw s msg) = do write_raw p s; print msg.format msg.args; pure true
act p (rewrite s msg) = do write_text p s; print msg.format msg.args; pure true
act p (abort msg) = raise (system_exit msg)

abbrev pub visit : Body → FilePath → Option Text → Script Bool
visit body p none = pure false
visit body p (some s) = act p (body p s)

-- The rounds. What is listed was read once, before the first of them.
unfoldable pub for_files : Body → List FilePath → Script Bool
unfolding act try_read
for_files body [] = pure false
for_files body (p ∷ ps) = do
  stop ← (λ m. visit body p (try_read p m) m)
  if stop then pure true else for_files body ps

unfoldable pub walk : FilePath → Text → Body → Script Bool
unfolding for_files rglob
walk root name body m = for_files body (rglob root name m.files) m
