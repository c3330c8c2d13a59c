-- ===== src/Tests/LdnRuns.antt =====
-- A run of `main` on a tree whose sources hold just what the edits look for.
use switch_ldn_zt.Base.{
  none, if◌then◌else◌, ℕ, false, Option, some, List, [], ◌∷◌, ◌++◌, ◌≡◌, refl, zero, suc, All,
  arith,
}
use switch_ldn_zt.Text.{
  Text, codes, rows, contains, count, eqb, replace_first, replace_every, find?, find_from?, strip,
}
use switch_ldn_zt.Text.Newlines.{universal_newlines, to_linesep}
use switch_ldn_zt.Disk.{File, FilePath, Files, find_file, put_file, remove_file, has_dir}
use switch_ldn_zt.Script.{
  Error, Machine, ok, err, ◌>>=◌, print, read_text, try_read, write_text, is_file, exists, unlink,
  copy_file,
}
use switch_ldn_zt.LdnPatch.Edit.{
  Edit, one, every, function, apply_edit, apply_edits, replace, replace_all, replace_function,
  replace_found, replace_from_brace, replace_body, close_brace,
}
use switch_ldn_zt.LdnPatch.MainCpp.{main_cpp, main_cpp_edits}
use switch_ldn_zt.LdnPatch.LanProtocol.{lan_protocol, lan_protocol_edits}
use switch_ldn_zt.LdnPatch.LanDiscovery.{lan_discovery, lan_discovery_edits}
use switch_ldn_zt.LdnPatch.Communication.{communication, communication_edits}
use switch_ldn_zt.LdnPatch.Run.{
  Host, check_commit, preflight, supply, edit_sources, edit_makefile, check_result, main,
  expected_ldn, expected_libzt, zt_header, zt_library, zt_stubs, makefile, flags_line,
}
use switch_ldn_zt.LdnPatch.Run.Touched.{written, main_frame}
use switch_ldn_zt.LdnPatch.Run.Copied.{IsCopied, main_copies}
use switch_ldn_zt.Text.Every.{Every}
use switch_ldn_zt.LdnPatch.Edit.Laws.{Rewrites}
use switch_ldn_zt.LdnPatch.Run.{flags_lines}
use switch_ldn_zt.Script.Revises.{Revised}
use switch_ldn_zt.LdnPatch.Run.Links.{GetsLibrary, main_returns}
use switch_ldn_zt.LdnPatch.Run.Checks.{is_ready, main_refuses, edit_makefile_lem}

abbrev times : ℕ → Text → Text
times zero s = []
times (suc n) s = s ++ (codes "\n" ++ times n s)

-- a text in which the edit finds what it looks for
abbrev fit : Edit → Text
fit (one old new) = old ++ codes "\n"
fit (every old new minimum) = times minimum old
fit (function signature body) = signature ++ codes " {}\n"

abbrev fits : List Edit → Text
fits [] = []
fits (e ∷ es) = fit e ++ fits es

abbrev heads : FilePath → Option Text
heads dir =
    if eqb dir (codes "ldn_mitm") then some (expected_ldn ++ codes "\n") else some expected_libzt

abbrev host : Host
host = record { git_head = heads; libzt_dir = codes "/work/third_party/libzt" }

abbrev tree : Files
tree =
    (zt_header, File.text [])
    ∷ (zt_library, File.binary (0xff ∷ []))
    ∷ (codes "README.md", File.text (codes "x"))
    ∷ (codes "scripts/zt_bridge.hpp", File.text (codes "h"))
    ∷ (codes "scripts/zt_bridge.cpp", File.text (codes "c"))
    ∷ (codes "scripts/errno_compat.c", File.text (codes "e"))
    ∷ (zt_stubs, File.text [])
    ∷ (main_cpp, File.text (fits main_cpp_edits))
    ∷ (lan_protocol, File.text (fits lan_protocol_edits))
    ∷ (lan_discovery, File.text (fits lan_discovery_edits))
    ∷ (communication, File.text (fits communication_edits))
    ∷ (makefile, File.text flags_line)
    ∷ []

abbrev start : Machine
start = record { files = tree; windows = false; out = [] }

abbrev end : Machine
end = (main host start).1

run_returns : (main host start).0 ≡ ok tt
unfolding main preflight check_commit supply edit_sources edit_makefile check_result apply_edits
    apply_edit replace replace_all replace_function replace_found replace_from_brace replace_body
    close_brace contains count eqb replace_first replace_every find? find_from? strip codes rows
    universal_newlines to_linesep find_file put_file remove_file has_dir ◌>>=◌ print read_text
    try_read write_text is_file exists unlink copy_file
run_returns = refl

returned : main host start ≡ (ok tt, end)
returned = λ i. (run_returns i, end)

main_returns_example :
    (find_file zt_stubs end.files ≡ none) × Revised makefile (GetsLibrary host.libzt_dir) start end
main_returns_example = main_returns host start (unfold codes in omega arith) returned

main_copies_example : IsCopied start end
main_copies_example = main_copies host start returned

abbrev unbuilt : Machine
unbuilt = record { files = (zt_header, File.text []) ∷ []; windows = false; out = [] }

unbuilt-unready : is_ready host unbuilt ≡ false
unfolding is_ready eqb codes strip find_file
unbuilt-unready = refl

main_refuses_example : (e : Error) × (main host unbuilt ≡ (err e, unbuilt))
main_refuses_example = main_refuses host unbuilt unbuilt-unready

main_frame_example : find_file (codes "README.md") end.files ≡ find_file (codes "README.md") tree
main_frame_example = main_frame host start (codes "README.md") outside
  where
    outside : All (λ p. eqb (codes "README.md") p ≡ false) written
    outside =
        unfold codes eqb in
        (refl, (refl, (refl, (refl, (refl, (refl, (refl, (refl, (refl, tt)))))))))

abbrev linked : Text
linked = flags_lines host.libzt_dir

edit_makefile_lem_example : Rewrites makefile (linked ++ []) (edit_makefile host.libzt_dir) start
edit_makefile_lem_example =
    edit_makefile_lem host.libzt_dir read replaced (unfold codes in omega arith)
  where
    read : try_read makefile start ≡ some flags_line
    read = unfold try_read find_file eqb codes universal_newlines in refl

    replaced : Every flags_line linked 1 flags_line (linked ++ [])
    replaced =
        Every.one {s = flags_line} {t = []} {pre = []} {post = []}
          (record { splits = unfold codes in refl; first = λ p q e. omega arith })
          (Every.none_left {s = []} (unfold contains codes in refl)) refl
