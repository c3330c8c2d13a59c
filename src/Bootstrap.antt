-- ===== src/Bootstrap.antt =====
-- scripts/patch-libzt-switch-bootstrap.py. Here is what follows the line that looks for
-- `VirtualTap.cpp`: traces of the start of lwIP's thread. Layout has what comes before it, and the
-- whole script.
pub mod Texts
pub mod Layout
pub mod Whole
pub mod Runs
use switch_ldn_zt.Base.{
  String, Bool, true, false, not, ◌&&◌, Option, none, some, List, [], ◌∷◌, ◌++◌, if◌then◌else◌,
}
use switch_ldn_zt.Text.{Text, codes, rows, contains, replace_first}
use switch_ldn_zt.Disk.{FilePath, rglob}
use switch_ldn_zt.Script.{
  Message, Machine, Script, ok, file, pure, raise, system_exit, ◌>>=◌, ◌>>◌, print, try_read,
  read_text, write_text,
}
use switch_ldn_zt.Walk.Candidate.{find_candidate?}
use switch_ldn_zt.Phy.{Edited, edited, refused, then_edit}
use switch_ldn_zt.Bootstrap.Texts.{
  virtual_marker, driver_old, driver_new, call_old, call_new, errno_marker, thread_old, thread_new,
  create_old, create_new, abort_old, abort_new,
}

-- A text to replace, its replacement, and the message where it is missing.
pub record Step : Type 0 where
  pub old : Text
  pub new : Text
  pub missing : String

-- The two halves of the script differ in their texts only.
pub record Stage : Type 0 where
  pub name : Text
  pub needles : List Text
  pub mark : Text
  pub include : Text
  pub include_missing : String
  pub steps : List Step
  pub done : String
  pub skipped : String

abbrev pub switch_include : Text
switch_include = rows ("#ifdef __SWITCH__" ∷ "#include <switch.h>" ∷ "#endif" ∷ [])

unfoldable pub include_switch : Stage → FilePath → Text → Edited
include_switch st path text =
    if contains switch_include text
    then edited text
    else if not (contains st.include text)
    then refused (record { format = st.include_missing; args = file path ∷ [] })
    else edited (replace_first st.include (st.include ++ (switch_include ++ codes "\n")) text)

unfoldable pub apply_steps : FilePath → List Step → Text → Edited
apply_steps path [] text = edited text
apply_steps path (step ∷ steps) text =
    if not (contains step.old text)
    then refused (record { format = step.missing; args = file path ∷ [] })
    else apply_steps path steps (replace_first step.old step.new text)

-- what follows the edits
unfoldable pub finish_stage : Stage → FilePath → Edited → Script Unit
finish_stage st path (refused msg) = raise (system_exit msg)
finish_stage st path (edited text) = do write_text path text; print st.done (file path ∷ [])

unfoldable pub instrument_text : Stage → FilePath → Text → Script Unit
instrument_text st path text =
    if contains st.mark text
    then pure tt
    else finish_stage st path (then_edit (include_switch st path text) (apply_steps path st.steps))

unfoldable pub instrument_at : Stage → Option FilePath → Script Unit
instrument_at st none = print st.skipped []
instrument_at st (some path) = do text ← read_text path; instrument_text st path text

-- one half
unfoldable pub instrument : Stage → Script Unit
instrument st m =
    instrument_at st (find_candidate? st.needles m (rglob (codes "libzt") st.name m.files)) m

abbrev pub virtual_tap : Stage
virtual_tap = record {
  name = codes "VirtualTap.cpp";
  needles = codes "void zts_lwip_driver_init()" ∷ codes "sys_thread_new(" ∷ [];
  mark = codes "[SWITCH-DIAG] zts_lwip_driver_init entered";
  include = virtual_marker;
  include_missing = "VirtualTap include marker not found in {virtual_path}";
  steps =
      record {
        old = driver_old;
        new = driver_new;
        missing = "zts_lwip_driver_init start not found in {virtual_path}";
      }
      ∷ record {
        old = call_old;
        new = call_new;
        missing = "sys_thread_new call not found in {virtual_path}";
      }
      ∷ [];
  done = "Instrumented Switch lwIP driver: {virtual_path}";
  skipped = "Switch lwIP driver source not found; skipping VirtualTap instrumentation.";
}

abbrev pub sys_arch : Stage
sys_arch = record {
  name = codes "sys_arch.c";
  needles = codes "sys_thread_new(" ∷ codes "pthread_create" ∷ [];
  mark = codes "[SWITCH-DIAG] sys_thread_new: entering";
  include = errno_marker;
  include_missing = "errno include marker not found in {sys_path}";
  steps =
      record {
        old = thread_old;
        new = thread_new;
        missing = "sys_thread_new function start not found in {sys_path}";
      }
      ∷ record {
        old = create_old;
        new = create_new;
        missing = "pthread_create block not found in {sys_path}";
      }
      ∷ record {
        old = abort_old;
        new = abort_new;
        missing = "sys_thread_new abort block not found in {sys_path}";
      }
      ∷ [];
  done = "Instrumented Switch lwIP sys_arch: {sys_path}";
  skipped = "lwIP sys_arch.c not found; skipping sys_thread_new instrumentation.";
}

-- both halves
unfoldable pub instrument_threads : Script Unit
instrument_threads = do instrument virtual_tap; instrument sys_arch
