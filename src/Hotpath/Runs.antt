-- ===== src/Hotpath/Runs.antt =====
-- Runs of the script: when one returns, and which files it leaves alone.
use switch_ldn_zt.Base.{
  ℕ, Bool, true, false, ◌&&◌, ◌||◌, inl, inr, ◌≡◌, refl, ap, ◌∙◌, arith, ◌==◌, Bool-cases,
}
use switch_ldn_zt.Text.{Text, codes, contains, eqb}
use switch_ldn_zt.Disk.{FilePath, find_file}
use switch_ldn_zt.Script.{Machine, pure, raise, ◌>>=◌, print, try_read, write_raw}
use switch_ldn_zt.Script.Gate.{if_read}
use switch_ldn_zt.Script.Returns.{returns, returns->>=, returns-read_text}
use switch_ldn_zt.Script.Frame.{Leaves-reads, Leaves-bind}
use switch_ldn_zt.Regex.{subn}
use switch_ldn_zt.Hotpath.{
  posix, main_cpp, send_pat, recv_pat, send_repl, recv_repl, already_applied, write_posix,
  patch_posix, old_sessions, new_sessions, set_sessions, patch_main, hotpath,
}
use switch_ldn_zt.Hotpath.Patches.{ending, Leaves-ending, Leaves-patch_posix}

-- However the script ends, it has changed no file but the two.
pub hotpath_frame :
    (m : Machine) (q : FilePath)
    → eqb q posix ≡ false
    → eqb q main_cpp ≡ false
    → find_file q (hotpath m).1.files ≡ find_file q m.files
unfolding hotpath
hotpath_frame m q no_posix no_main =
    (Leaves-bind _ _ (Leaves-patch_posix no_posix) (λ _. Leaves-ending no_main)).same m

-- Both blocks are found, or both counter lines stand in the file.
unfoldable pub is_patchable : Text → Bool
is_patchable s =
    let first = subn send_pat send_repl s in
    let second = subn recv_pat recv_repl first.0 in
    (first.1 == 1 && second.1 == 1) || already_applied s

abbrev pub has_setting : Text → Bool
has_setting s = contains old_sessions s || contains new_sessions s

write_posix-returns :
    (s : Text) (one two : Text × ℕ) (m : Machine)
    → returns (write_posix s one two) m ≡ ((one.1 == 1 && two.1 == 1) || already_applied s)
unfolding write_posix pure raise write_raw ◌>>=◌
write_posix-returns s one two m =
    elim (Bool-cases ((one.1 == 1 && two.1 == 1) || already_applied s)) [
      | inr refused ↦ rw refused
      | inl allowed ↦ rw allowed (elim (Bool-cases (one.1 == 1 || two.1 == 1)) [
        | inl some_block ↦ rw some_block
        | inr no_block ↦ rw no_block
      ])
    ]

patch_posix-returns :
    (m : Machine) → returns patch_posix m ≡ if_read (try_read posix m) is_patchable
unfolding patch_posix is_patchable
patch_posix-returns m = returns-read_text posix _ m is_patchable λ s.
    write_posix-returns s (subn send_pat send_repl s)
      (subn recv_pat recv_repl (subn send_pat send_repl s).0) m

set_sessions-returns : (s : Text) (m : Machine) → returns (set_sessions s) m ≡ has_setting s
unfolding set_sessions pure raise write_raw
set_sessions-returns s m = elim (Bool-cases (contains old_sessions s)) [
  | inl old ↦ rw old
  | inr gone ↦ rw gone (elim (Bool-cases (contains new_sessions s)) [
    | inl there ↦ rw there
    | inr missing ↦ rw missing
  ])
]

ending-returns : (m : Machine) → returns ending m ≡ if_read (try_read main_cpp m) has_setting
unfolding patch_main print
ending-returns m =
    returns->>= patch_main _ m {c = true} (λ _. refl)
    ∙ rw (returns-read_text main_cpp set_sessions m has_setting (λ s. set_sessions-returns s m))
        (ground arith)

-- The script returns exactly if `posix_compat.cpp` can be read and has both blocks or both counter
-- lines, and `main.cpp` can be read and has the setting, old or new.
pub hotpath_decides :
    (m : Machine)
    → returns hotpath m
      ≡ (if_read (try_read posix m) is_patchable && if_read (try_read main_cpp m) has_setting)
unfolding hotpath
hotpath_decides m =
    returns->>= patch_posix (λ _. ending) m
      (λ _.
        ending-returns (patch_posix m).1
        ∙ ap (λ o. if_read o has_setting)
            (Leaves-reads {q = main_cpp} (Leaves-patch_posix (unfold eqb codes in refl)) m))
    ∙ rw patch_posix-returns
