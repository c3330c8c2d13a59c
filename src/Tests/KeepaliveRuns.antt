-- ===== src/Tests/KeepaliveRuns.antt =====
-- A tree with both files of the keepalive script, in the state in which upstream ships them.
use switch_ldn_zt.Base.{true, false, [], ◌∷◌, ◌++◌, ◌≡◌, refl}
use switch_ldn_zt.Text.{Text, codes, contains, count, replace_first, starts_with, eqb}
use switch_ldn_zt.Text.Newlines.{universal_newlines}
use switch_ldn_zt.Disk.{File, Files, find_file, put_file, rglob, ends_with}
use switch_ldn_zt.Script.{Machine, ok}
use switch_ldn_zt.Walk.{act, for_files, walk}
use switch_ldn_zt.Walk.Reaches.{any_reads}
use switch_ldn_zt.Keepalive.Runs.{keepalive_refuses}
use switch_ldn_zt.Script.{Error, err}
use switch_ldn_zt.Keepalive.{
  scale_old, scale_new, ping_old, ping_done, expiration_old, expiration_new, trial_old, trial_new,
  scale_body, apply_subs, consts_end, consts_body, keepalive,
}
use switch_ldn_zt.Keepalive.Runs.{keepalive_twice}

abbrev line : Text → Text
line s = s ++ codes "\n"

abbrev upstream : Files
upstream =
    (codes "libzt/README.md", File.text (codes "x"))
    ∷ (codes "libzt/node/Node.cpp", File.text (line scale_old))
    ∷ (codes "libzt/a/Constants.hpp", File.binary (0xff ∷ []))
    ∷ (
      codes "libzt/node/Constants.hpp",
      File.text (line ping_old ++ (line expiration_old ++ line trial_old)),
    )
    ∷ []

abbrev patched : Files
patched =
    (codes "libzt/README.md", File.text (codes "x"))
    ∷ (codes "libzt/node/Node.cpp", File.text (line scale_new))
    ∷ (codes "libzt/a/Constants.hpp", File.binary (0xff ∷ []))
    ∷ (
      codes "libzt/node/Constants.hpp",
      File.text (line ping_done ++ (line expiration_new ++ line trial_new)),
    )
    ∷ []

abbrev start : Machine
start = record { files = upstream; windows = true; out = [] }

abbrev end : Machine
end = (keepalive start).1

run_patches : (keepalive start).1.files ≡ patched
unfolding keepalive walk for_files act scale_body consts_body apply_subs consts_end rglob ends_with
    contains count replace_first codes universal_newlines put_file find_file
run_patches = refl

run_returns : (keepalive start).0 ≡ ok tt
unfolding keepalive walk for_files act scale_body consts_body apply_subs consts_end rglob ends_with
    contains count replace_first codes universal_newlines put_file find_file
run_returns = refl

returned : keepalive start ≡ (ok tt, end)
returned = λ i. (run_returns i, end)

keepalive_twice_example : ((keepalive end).0 ≡ ok tt) × ((keepalive end).1.files ≡ end.files)
keepalive_twice_example = keepalive_twice start returned

abbrev bare : Machine
bare = record { files = (codes "libzt/README.md", File.text []) ∷ []; windows = false; out = [] }

keepalive_refuses_example : (e : Error) × (keepalive bare ≡ (err e, bare))
keepalive_refuses_example =
    keepalive_refuses bare (unfold any_reads rglob starts_with ends_with codes eqb in refl)
