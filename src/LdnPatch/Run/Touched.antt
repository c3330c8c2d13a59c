-- ===== src/LdnPatch/Run/Touched.antt =====
-- Which files a run can change.
use switch_ldn_zt.Base.{if◌then◌else◌, List, [], ◌∷◌, false, ◌++◌, ◌≡◌, All, Option, none, some, ℕ}
use switch_ldn_zt.Text.{Text, codes, eqb}
use switch_ldn_zt.Disk.{FilePath, find_file}
use switch_ldn_zt.Script.{Script, print, shown, ◌>>◌, exists, unlink, pure, ◌>>=◌, Machine}
use switch_ldn_zt.Script.Frame.{
  Leaves, Leaves-bind, Leaves-if, Leaves-pure, Leaves-unlink, Leaves-exists, Leaves-copy_file,
  Leaves-read_text, Leaves-write_text, leaves_rules,
}
use switch_ldn_zt.LdnPatch.Edit.{
  Edit, one, every, function, apply_edit, apply_edits, replace, replace_all, replace_function,
  replace_found, replace_from_brace, replace_body,
}
use switch_ldn_zt.LdnPatch.MainCpp.{main_cpp, main_cpp_edits}
use switch_ldn_zt.LdnPatch.LanProtocol.{lan_protocol, lan_protocol_edits}
use switch_ldn_zt.LdnPatch.LanDiscovery.{lan_discovery, lan_discovery_edits}
use switch_ldn_zt.LdnPatch.Communication.{communication, communication_edits}
use switch_ldn_zt.LdnPatch.Run.{
  Host, or_failed, check_commit, preflight, supply, edit_sources, edit_makefile, check_result, main,
  ldn_source, zt_stubs, makefile,
}

module _ {q : FilePath} (path : FilePath) (away : eqb q path ≡ false) where
  Leaves-replace : (old new : Text) → Leaves q (replace path old new)
  unfolding replace
  Leaves-replace old new = search leaves_rules

  Leaves-replace_all : (old new : Text) (n : ℕ) → Leaves q (replace_all path old new n)
  unfolding replace_all
  Leaves-replace_all old new n = search leaves_rules

  Leaves-replace_body :
      (sig body text : Text) (start : ℕ) (end : Option ℕ)
      → Leaves q (replace_body path sig body text start end)
  unfolding replace_body
  Leaves-replace_body sig body text start none = search leaves_rules
  Leaves-replace_body sig body text start (some e) = search leaves_rules

  Leaves-replace_from_brace :
      (sig body text : Text) (start : ℕ) (brace : Option ℕ)
      → Leaves q (replace_from_brace path sig body text start brace)
  unfolding replace_from_brace
  Leaves-replace_from_brace sig body text start none = search leaves_rules
  Leaves-replace_from_brace sig body text start (some b) = Leaves-replace_body sig body text start _

  Leaves-replace_found :
      (sig body text : Text) (start : Option ℕ) → Leaves q (replace_found path sig body text start)
  unfolding replace_found
  Leaves-replace_found sig body text none = search leaves_rules
  Leaves-replace_found sig body text (some s) = Leaves-replace_from_brace sig body text s _

  Leaves-apply_edit : (e : Edit) → Leaves q (apply_edit path e)
  unfolding apply_edit replace_function
  Leaves-apply_edit (one old new) = Leaves-replace old new
  Leaves-apply_edit (every old new n) = Leaves-replace_all old new n
  Leaves-apply_edit (function sig body) = search (leaves_rules, Leaves-replace_found)

  pub Leaves-apply_edits : (es : List Edit) → Leaves q (apply_edits path es)
  unfolding apply_edits
  Leaves-apply_edits [] = search leaves_rules
  Leaves-apply_edits (e ∷ es) = Leaves-bind _ _ (Leaves-apply_edit e) (λ _. Leaves-apply_edits es)

-- What a run edits or removes, and where it puts the three copies.
abbrev pub edited_files : List FilePath
edited_files = zt_stubs ∷ main_cpp ∷ lan_protocol ∷ lan_discovery ∷ communication ∷ makefile ∷ []

abbrev pub bridge_hpp : FilePath
bridge_hpp = ldn_source ++ (codes "/" ++ codes "zt_bridge.hpp")

abbrev pub bridge_cpp : FilePath
bridge_cpp = ldn_source ++ (codes "/" ++ codes "zt_bridge.cpp")

abbrev pub errno_compat : FilePath
errno_compat = ldn_source ++ (codes "/" ++ codes "errno_compat.c")

-- All that a run may write.
abbrev pub written : List FilePath
written = bridge_hpp ∷ bridge_cpp ∷ errno_compat ∷ edited_files

module _ {q : FilePath} where
  Leaves-check_commit :
      (host : Host) (dir : FilePath) (expected : Text) → Leaves q (check_commit host dir expected)
  unfolding check_commit
  Leaves-check_commit host dir expected =
      Leaves-bind _ _ (failed (host.git_head dir)) (λ head. search leaves_rules)
    where
      failed : (head : Option Text) → Leaves q (or_failed dir head)
      failed none = search leaves_rules
      failed (some head) = search leaves_rules

  pub Leaves-preflight : (host : Host) → Leaves q (preflight host)
  unfolding preflight
  Leaves-preflight host = search (leaves_rules, Leaves-check_commit) depth 12

  pub Leaves-check_result : Leaves q check_result
  unfolding check_result
  Leaves-check_result = search leaves_rules depth 12

-- what `main` does after the copies
abbrev pub rest_of_main : Host → Script Unit
rest_of_main host =
    edit_sources
    >> (edit_makefile host.libzt_dir
        >> (check_result
            >> (print "LDN real-libzt patch applied" []
                >> (print "libzt Makefile directory: {libzt_dir}" (shown host.libzt_dir ∷ [])
                    >> print "errno_compat.c supplied as pure C" []))))

module _ {q : FilePath} (outside : All (λ p. eqb q p ≡ false) edited_files) where
  pub Leaves-no_stubs : Leaves q (exists zt_stubs >>= λ b. if b then unlink zt_stubs else pure tt)
  Leaves-no_stubs =
      Leaves-bind _ _ (Leaves-exists zt_stubs)
        λ b. Leaves-if b _ _ (Leaves-unlink zt_stubs outside.0) (Leaves-pure tt)

  pub Leaves-edit_sources : Leaves q edit_sources
  unfolding edit_sources
  Leaves-edit_sources =
      Leaves-bind _ _ (Leaves-apply_edits main_cpp outside.1.0 main_cpp_edits) λ _.
        Leaves-bind _ _ (Leaves-apply_edits lan_protocol outside.1.1.0 lan_protocol_edits) λ _.
          Leaves-bind _ _ (Leaves-apply_edits lan_discovery outside.1.1.1.0 lan_discovery_edits)
            λ _. Leaves-apply_edits communication outside.1.1.1.1.0 communication_edits

  pub Leaves-edit_makefile : (dir : Text) → Leaves q (edit_makefile dir)
  unfolding edit_makefile
  Leaves-edit_makefile dir =
      Leaves-bind _ _ (Leaves-read_text makefile)
        λ text. Leaves-write_text makefile _ outside.1.1.1.1.1.0

  pub Leaves-rest : (host : Host) → Leaves q (rest_of_main host)
  Leaves-rest host = Leaves-bind _ _ Leaves-edit_sources λ _.
      Leaves-bind _ _ (Leaves-edit_makefile host.libzt_dir)
        λ _. Leaves-bind _ _ Leaves-check_result λ _. search leaves_rules

module _ {q : FilePath} (outside : All (λ p. eqb q p ≡ false) written) where
  Leaves-supply : Leaves q supply
  unfolding supply
  Leaves-supply = Leaves-bind _ _ (Leaves-copy_file _ _ _ outside.0) λ _.
      Leaves-bind _ _ (Leaves-copy_file _ _ _ outside.1.0) λ _.
        Leaves-bind _ _ (Leaves-copy_file _ _ _ outside.1.1.0) λ _. Leaves-no_stubs outside.1.1.1

  Leaves-main : (host : Host) → Leaves q (main host)
  unfolding main
  Leaves-main host =
      Leaves-bind _ _ (Leaves-preflight host)
        λ _. Leaves-bind _ _ Leaves-supply λ _. Leaves-rest outside.1.1.1 host

-- However a run ends, it has changed no file but the nine of `written`.
pub main_frame :
    (host : Host) (m : Machine) (q : FilePath)
    → All (λ p. eqb q p ≡ false) written
    → find_file q (main host m).1.files ≡ find_file q m.files
main_frame host m q outside = (Leaves-main outside host).same m
