-- ===== src/Phy/Twice.antt =====
-- A second run of the script: each loop on a text that the first run has left.
use mathlib.Core.Path.{subst}
use switch_ldn_zt.Base.{true, [], ◌∷◌, ◌≡◌, ap, ◌∙◌, inl, inr}
use switch_ldn_zt.Text.{Text}
use switch_ldn_zt.Disk.{FilePath}
use switch_ldn_zt.Script.{Message, file, ok, Machine, ◌>>=◌, pure, try_read}
use switch_ldn_zt.Script.Inversion.{>>=-ok, >>=-run, require-ok, require-last}
use switch_ldn_zt.Walk.{finish, rewrite, rewrite_raw}
use switch_ldn_zt.Walk.Target.{finish-told}
use switch_ldn_zt.Walk.Frame.{walk-try_read, walk-rglob}
use switch_ldn_zt.Walk.Again.{Calms, Rests, Rests-walk, Rests-keeps, walk-Rests}
use switch_ldn_zt.Phy.{set_checked, trace_rx, node_body, header_body, phy}
use switch_ldn_zt.Phy.Node.{IsTraced, node_body-Reaches, end_with-other}
use switch_ldn_zt.Phy.Header.{IsInstrumented, header_body-Reaches, header_body-raw}
use switch_ldn_zt.Phy.Runs.{libzt, node_service, phy_hpp, walk_node, walk_header, names_differ}

abbrev node_message : FilePath → Message
node_message p = record {
  format = "Switch PHY patch applied to active NodeService: {path}";
  args = file p ∷ [];
}

node_body_again :
    (p : FilePath) (t : Text) → IsTraced t → node_body p t ≡ rewrite t (node_message p)
unfolding node_body set_checked trace_rx
node_body_again p t h = rw (h.no_unchecked, h.traced)

header_body_again :
    (p : FilePath) (t : Text)
    → IsInstrumented t
    → (told : Message) × (header_body p t ≡ finish told)
unfolding header_body
header_body_again p t h = finish-told (header_body p t) (rw (header_body, h.is_header, h.traced))

node_body-raw :
    (p : FilePath) (s : Text) {t : Text} {msg : Message} → node_body p s ≡ rewrite_raw t msg → ⊥
unfolding node_body
node_body-raw p s h = (end_with-other p _ _).0 h

node_body-Calms : Calms node_body
node_body-Calms = record {
  no_raw = λ p s t msg h. node_body-raw p s h;
  cooked = λ p s t msg clean h.
      let (clean_t, traced) = node_body-Reaches.cooked p s t msg clean h in
      (clean_t, node_message p, inr (node_body_again p t traced));
}

header_body-Calms : Calms header_body
header_body-Calms = record {
  no_raw = λ p s t msg h. header_body-raw p s h;
  cooked = λ p s t msg clean h.
      let (clean_t, traced) = header_body-Reaches.cooked p s t msg clean h in
      let (told, e) = header_body_again p t traced in (clean_t, told, inl e);
}

-- Both loops are done.
pub record IsPatched (m : Machine) : Type 0 where
  pub node : Rests libzt node_service node_body m
  pub header : Rests libzt phy_hpp header_body m

phy-IsPatched : (m : Machine) {m' : Machine} → phy m ≡ (ok tt, m') → IsPatched m'
unfolding phy
phy-IsPatched m {m'} h =
    let (b, m1, first, rest) = >>=-ok walk_node _ m h in
    let (found, more) = require-ok b _ _ _ m1 rest in
    let (c, m2, second, last) = >>=-ok walk_header _ m1 more in
    let (found_too, same) = require-last c _ _ m2 last in
    let node : walk_node m ≡ (ok true, m1) = rw found at first in
    let header : walk_header m1 ≡ (ok true, m') = rw (found_too, same) at second in
    let rests = walk-Rests libzt node_service node_body node_body-Calms m node in
    record {
      node = subst (Rests libzt node_service node_body) (ap (λ x. x.1) header) (
          Rests-keeps libzt node_service node_body m1 (walk_header m1).1
            (walk-rglob libzt phy_hpp header_body m1 libzt node_service)
            (λ q hit. walk-try_read libzt phy_hpp header_body m1 q (names_differ q hit)) rests);
      header = walk-Rests libzt phy_hpp header_body header_body-Calms m1 header;
    }

-- After a run that returns, a second run returns too, and every file reads as before it.
pub phy_twice :
    (m : Machine) {m' : Machine}
    → phy m ≡ (ok tt, m')
    → (again : Machine) × (phy m' ≡ (ok tt, again))
      × ((q : FilePath) → try_read q again ≡ try_read q m')
unfolding phy ◌>>=◌ pure
phy_twice m {m'} h =
    let done = phy-IsPatched m h in
    let (ma, first, reads) = Rests-walk libzt node_service node_body m' done.node in
    let listed = walk-rglob libzt node_service node_body m' libzt phy_hpp in
    let header =
      Rests-keeps libzt phy_hpp header_body m' ma (rw first at listed) (λ q hit. reads q)
        done.header in
    let (mb, second, reads_too) = Rests-walk libzt phy_hpp header_body ma header in
    (mb, >>=-run walk_node _ m' first ∙ >>=-run walk_header _ ma second, λ q. reads_too q ∙ reads q)
