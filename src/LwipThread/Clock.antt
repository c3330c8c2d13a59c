-- ===== src/LwipThread/Clock.antt =====
-- scripts/patch-lwip-switch-thread.py, the last two loops: the monotonic clock of `OSUtils.hpp` and the
-- byte order of `Constants.hpp`.
use switch_ldn_zt.Base.{
  ℕ, ◌+◌, ◌-◌, String, not, Option, none, some, List, [], ◌∷◌, ◌++◌, length, take, drop,
  if◌then◌else◌,
}
use switch_ldn_zt.Text.{Text, codes, contains, find?, replace_first}
use switch_ldn_zt.Disk.{FilePath}
use switch_ldn_zt.Script.{Message, file}
use switch_ldn_zt.Walk.{Verdict, pass, finish, rewrite, abort, Body}
use switch_ldn_zt.Regex.{find_match?}
use switch_ldn_zt.LwipThread.Places.{insert_at}
use switch_ldn_zt.LwipThread.Texts.{
  monotonic_mark, now_pat, now_new, switch_guard, guarded_include, byte_order_mark, inline_name,
  inline_anchor, byte_order,
}

abbrev pub say : String → List FilePath → Message
say format [] = record { format = format; args = [] }
say format (p ∷ ps) = record { format = format; args = file p ∷ [] }

-- `text.find('#include')`; without one, -1 is the place before the last character.
abbrev pub include_place : Text → Option ℕ → ℕ
include_place text none = length text - 1
include_place text (some i) = i

unfoldable pub include_switch_header : Text → Text
include_switch_header text =
    if contains switch_guard text
    then text
    else insert_at (include_place text (find? (codes "#include") text)) guarded_include text

abbrev pub with_clock : FilePath → Text → Option (ℕ × ℕ) → Verdict
with_clock path text none =
    abort (say "ERROR: could not locate OSUtils::now() to add the Switch monotonic-clock fix." [])
with_clock path text (some (start, size)) =
    rewrite (include_switch_header (take start text ++ (now_new ++ drop (start + size) text)))
      (say "Applied Switch monotonic-clock fix to OSUtils::now(): {path}" (path ∷ []))

unfoldable pub clock_body : Body
clock_body path text =
    if contains monotonic_mark text
    then finish (say "OSUtils::now() Switch monotonic patch already present, nothing to do." [])
    else with_clock path text (find_match? now_pat text)

unfoldable pub byte_order_body : Body
byte_order_body path text =
    if contains byte_order_mark text
    then finish (say "Constants.hpp byte-order fix already present, nothing to do." [])
    else if not (contains inline_name text)
    then pass
    else if not (contains inline_anchor text)
    then abort (say "ERROR: could not locate anchor point in Constants.hpp for byte-order fix" [])
    else rewrite (replace_first inline_anchor (inline_anchor ++ byte_order) text)
        (say "Applied explicit __SWITCH__ byte-order definition: {path}" (path ∷ []))
