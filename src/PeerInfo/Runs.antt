-- ===== src/PeerInfo/Runs.antt =====
-- Runs of the script: what a run that returns has reached, what a second one does, when
-- there is nothing to patch, and which files no run changes.
use switch_ldn_zt.Base.{Bool, true, false, not, ◌||◌, ◌≡◌, refl, ap, arith}
use switch_ldn_zt.Text.{Text, codes, rows, contains, replace_first, strip}
use switch_ldn_zt.Text.Occurs.{contains-replace_first, contains_trans}
use switch_ldn_zt.Text.Newlines.{NoCr, replace_first-NoCr}
use switch_ldn_zt.Disk.{FilePath, find_file, matches, rglob}
use switch_ldn_zt.Script.{Message, said, Error, ok, err, Machine, Script, ◌>>=◌}
use switch_ldn_zt.Script.Inversion.{>>=-ok, >>=-run, require-last}
use switch_ldn_zt.Script.Frame.{Leaves, Leaves-bind, Leaves-require}
use switch_ldn_zt.Walk.{finish, rewrite_raw, rewrite, walk}
use switch_ldn_zt.Walk.Target.{is_pass, finish-told}
use switch_ldn_zt.Walk.Frame.{Leaves-walk}
use switch_ldn_zt.Walk.Twice.{Settles, Settled, Settled-walk, Settled-Holds, walk-Settled, Holds}
use switch_ldn_zt.Walk.Reaches.{any_reads, walk-none}
use switch_ldn_zt.PeerInfo.{peer_info_body, peer_info}
use switch_ldn_zt.PeerInfo.Blocks.{old_copy, new_copy}

abbrev pub libzt : FilePath
libzt = codes "libzt"

abbrev pub node_service : Text
node_service = codes "NodeService.cpp"

new_copy-strip : contains (strip new_copy) new_copy ≡ true
unfolding codes rows strip contains
new_copy-strip = refl

new_copy-NoCr : NoCr new_copy
unfolding codes rows
new_copy-NoCr = omega arith

peer_info_body-rewrites :
    (p : FilePath) (s : Text) {t : Text} {msg : Message}
    → peer_info_body p s ≡ rewrite_raw t msg
    → (contains old_copy s ≡ true) × (replace_first old_copy new_copy s ≡ t)
unfolding peer_info_body
peer_info_body-rewrites p s h = ground arith

peer_info_body-cooked :
    (p : FilePath) (s : Text) {t : Text} {msg : Message} → peer_info_body p s ≡ rewrite t msg → ⊥
unfolding peer_info_body
peer_info_body-cooked p s h = ground arith

peer_info_body-finishes :
    (p : FilePath) (s : Text)
    → contains (strip new_copy) s ≡ true
    → (told : Message) × (peer_info_body p s ≡ finish told)
unfolding peer_info_body
peer_info_body-finishes p s h = finish-told (peer_info_body p s) (rw (h, peer_info_body))

peer_info_body-finished :
    (p : FilePath) (s : Text) {told : Message}
    → peer_info_body p s ≡ finish told
    → contains (strip new_copy) s ≡ true
unfolding peer_info_body
peer_info_body-finished p s h = ground arith

-- One of the two blocks is there.
abbrev pub has_copy : Text → Bool
has_copy s = contains (strip new_copy) s || contains old_copy s

peer_info_body-stops : (p : FilePath) (s : Text) → is_pass (peer_info_body p s) ≡ not (has_copy s)
unfolding peer_info_body
peer_info_body-stops p s = ground arith

peer_info_body-Settles : Settles peer_info_body
peer_info_body-Settles = record {
  raw = λ p s t msg clean h.
      let (hit, e) = peer_info_body-rewrites p s h in
      let new_there : contains new_copy t ≡ true =
        rw (← e) (contains-replace_first old_copy new_copy s hit) in
      let (told, done) =
        peer_info_body-finishes p t
          (contains_trans (strip new_copy) new_copy t new_copy-strip new_there) in
      (rw (← e) (replace_first-NoCr old_copy new_copy s new_copy-NoCr clean), told, done);
  cooked = λ p s t msg clean h. absurd (peer_info_body-cooked p s h);
}

abbrev walk_node : Script Bool
walk_node = walk libzt node_service peer_info_body

peer_info-Settled :
    (m : Machine) {m' : Machine}
    → peer_info m ≡ (ok tt, m')
    → Settled libzt node_service peer_info_body m'
unfolding peer_info
peer_info-Settled m {m'} h =
    let (b, m1, walked, rest) = >>=-ok walk_node _ m h in
    let (found, same) = require-last b _ _ m1 rest in
    let here : walk_node m ≡ (ok true, m') = rw (found, same) at walked in
    walk-Settled libzt node_service peer_info_body peer_info_body-Settles m here

-- After a run that returns, a second run returns too and leaves every file as it is.
pub peer_info_twice :
    (m : Machine) {m' : Machine}
    → peer_info m ≡ (ok tt, m')
    → ((peer_info m').0 ≡ ok tt) × ((peer_info m').1.files ≡ m'.files)
unfolding peer_info said ◌>>=◌
peer_info_twice m {m'} h =
    let again = >>=-run walk_node _ m' (Settled-walk (peer_info-Settled m h)) in
    (ap (λ x. x.0) again, ap (λ x. x.1.files) again)

-- After a run that returns, a `NodeService.cpp` below `libzt` holds the copy field by field.
pub peer_info_reaches :
    (m : Machine) {m' : Machine}
    → peer_info m ≡ (ok tt, m')
    → Holds libzt node_service (λ s. contains (strip new_copy) s ≡ true) m'
peer_info_reaches m h =
    let done = peer_info-Settled m h in
    Settled-Holds _ done (peer_info_body-finished done.path done.content done.done)

-- Where no `NodeService.cpp` below `libzt` can be read and holds the copy in one of its two forms,
-- the script ends in an error and changes nothing.
pub peer_info_refuses :
    (m : Machine)
    → any_reads has_copy m (rglob libzt node_service m.files) ≡ false
    → (e : Error) × (peer_info m ≡ (err e, m))
unfolding peer_info ◌>>=◌
peer_info_refuses m h =
    let e = walk-none has_copy peer_info_body peer_info_body-stops libzt node_service m h in
    (_, >>=-run walk_node _ m e)

-- However a run ends, it has changed no file but a `NodeService.cpp` below `libzt`.
pub peer_info_frame :
    (m : Machine) (q : FilePath)
    → matches libzt node_service q ≡ false
    → find_file q (peer_info m).1.files ≡ find_file q m.files
unfolding peer_info
peer_info_frame m q away = kept.same m
  where
    kept : Leaves q peer_info
    kept =
        Leaves-bind _ _ (Leaves-walk libzt node_service peer_info_body away)
          λ b. Leaves-require b _ _
