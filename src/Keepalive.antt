-- ===== src/Keepalive.antt =====
-- scripts/patch-zt-upstream-keepalive.py: the cadence of the contact with ZeroTier's roots.
pub mod Substitutions
pub mod Rounds
pub mod Changes
pub mod Runs
use switch_ldn_zt.Base.{ℕ, ◌+◌, Bool, true, false, not, ◌&&◌, List, [], ◌∷◌, ◌==◌, if◌then◌else◌}
use switch_ldn_zt.Text.{Text, codes, contains, count, replace_first}
use switch_ldn_zt.Disk.{FilePath}
use switch_ldn_zt.Script.{Message, Script, file, shown, num, ◌>>=◌, ◌>>◌, require, print}
use switch_ldn_zt.Walk.{Verdict, pass, finish, rewrite_raw, abort, Body, walk}

abbrev pub libzt : FilePath
libzt = codes "libzt"

abbrev pub scale_old : Text
scale_old = codes "int roleBasedTimerScale = (role == ZT_PEER_ROLE_LEAF) ? 2 : 16;"

abbrev pub scale_new : Text
scale_new = codes "int roleBasedTimerScale = (role == ZT_PEER_ROLE_LEAF) ? 2 : 1;"

-- the loop over `Node.cpp`
unfoldable pub scale_body : Body
scale_body path s =
    if contains scale_new s
    then finish
        (record { format = "Upstream ping scale already patched: {path}"; args = file path ∷ [] })
    else if not (contains scale_old s)
    then pass
    else if not (count scale_old s == 1)
    then abort (record {
      format = "ERROR: expected one upstream ping scale in {path}, found {s.count(SCALE_OLD)}";
      args = file path ∷ num (count scale_old s) ∷ [];
    })
    else rewrite_raw (replace_first scale_old scale_new s) (record {
      format = "Upstream ping scale 16 -> 1 (224s -> 14s cadence): {path}";
      args = file path ∷ [];
    })

abbrev pub ping_old : Text
ping_old = codes "#define ZT_PEER_PING_PERIOD 60000"

abbrev pub ping_done : Text
ping_done = codes "#define ZT_PEER_PING_PERIOD 10000"

abbrev pub expiration_old : Text
expiration_old = codes "#define ZT_PEER_PATH_EXPIRATION ((ZT_PEER_PING_PERIOD * 4) + 3000)"

abbrev pub expiration_new : Text
expiration_new = codes "#define ZT_PEER_PATH_EXPIRATION (243000)"

abbrev pub trial_old : Text
trial_old = codes "#define ZT_PEER_EXPIRED_PATH_TRIAL_PERIOD (ZT_PEER_PING_PERIOD * 10)"

abbrev pub trial_new : Text
trial_new = codes "#define ZT_PEER_EXPIRED_PATH_TRIAL_PERIOD (600000)"

-- `CONST_SUBS`
abbrev pub const_subs : List (Text × Text)
const_subs = (ping_old, ping_done) ∷ (expiration_old, expiration_new) ∷ (trial_old, trial_new) ∷ []

-- How the loop over the substitutions ends: with a text and the number applied, or by an exit.
pub data Applied : Type 0 where
  applied : Text → ℕ → Applied
  refused : Message → Applied

unfoldable pub apply_subs : FilePath → List (Text × Text) → Text → ℕ → Applied
apply_subs path [] s n = applied s n
apply_subs path ((old, new) ∷ subs) s n =
    let hit = contains old s in
    if hit && not (count old s == 1)
    then refused (record {
      format = "ERROR: expected one '{old}' in {path}, found {s.count(old)}";
      args = shown old ∷ file path ∷ num (count old s) ∷ [];
    })
    else apply_subs path subs (if hit then replace_first old new s else s)
        (if hit then n + 1 else n)

-- the rest of a round over `Constants.hpp`, after the substitutions
unfoldable pub consts_end : FilePath → Applied → Verdict
consts_end path (refused msg) = abort msg
consts_end path (applied s n) =
    if not (contains ping_done s)
    then abort (record {
      format = "ERROR: ZT_PEER_PING_PERIOD in {path} is neither 60000 nor already 10000";
      args = file path ∷ [];
    })
    else if n == 0
    then finish
        (record { format = "Keepalive constants already patched: {path}"; args = file path ∷ [] })
    else rewrite_raw s (record {
      format =
          "ZT_PEER_PING_PERIOD -> 10000, derived path constants pinned ({applied} changed): {path}";
      args = num n ∷ file path ∷ [];
    })

abbrev pub ping_name : Text
ping_name = codes "ZT_PEER_PING_PERIOD"

-- the loop over `Constants.hpp`
unfoldable pub consts_body : Body
consts_body path s =
    if not (contains ping_name s) then pass else consts_end path (apply_subs path const_subs s 0)

unfoldable pub keepalive : Script Unit
keepalive = do
  patched_scale ← walk libzt (codes "Node.cpp") scale_body
  require patched_scale
      "ERROR: could not find _PingPeersThatNeedPing role-based timer scale in any Node.cpp" []
  patched_consts ← walk libzt (codes "Constants.hpp") consts_body
  require patched_consts "ERROR: could not find a Constants.hpp defining ZT_PEER_PING_PERIOD" []
  print
      "Applied upstream keepalive fix: roots now get a full HELLO every ~14s, inside the 30s activity timeout."
      []
