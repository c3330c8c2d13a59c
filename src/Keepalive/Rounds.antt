-- ===== src/Keepalive/Rounds.antt =====
-- What the two loop bodies do with a text, and that they find nothing to do in their own results.
use switch_ldn_zt.Base.{ℕ, true, false, List, [], ◌∷◌, ◌≡◌, refl, All, arith}
use switch_ldn_zt.Text.{Text, codes, contains, replace_first, starts_with}
use switch_ldn_zt.Text.Occurs.{contains-replace_first, contains_trans}
use switch_ldn_zt.Text.Newlines.{NoCr, replace_first-NoCr}
use switch_ldn_zt.Disk.{FilePath}
use switch_ldn_zt.Script.{Message}
use switch_ldn_zt.Walk.{finish, rewrite_raw, rewrite}
use switch_ldn_zt.Walk.Target.{finish-told}
use switch_ldn_zt.Walk.Twice.{Settles}
use switch_ldn_zt.Keepalive.{
  scale_old, scale_new, scale_body, ping_old, ping_done, ping_name, expiration_old, trial_old,
  const_subs, Applied, applied, refused, apply_subs, consts_end, consts_body,
}
use switch_ldn_zt.Keepalive.Substitutions.{
  marked, Sound, apply_subs-gone, apply_subs-NoCr, apply_subs-none, apply_subs-unchanged,
}

scale_body-rewrites :
    (p : FilePath) (s : Text) {t : Text} {msg : Message}
    → scale_body p s ≡ rewrite_raw t msg
    → (contains scale_old s ≡ true) × (replace_first scale_old scale_new s ≡ t)
unfolding scale_body
scale_body-rewrites p s h = ground arith

pub scale_body-cooked :
    (p : FilePath) (s : Text) {t : Text} {msg : Message} → scale_body p s ≡ rewrite t msg → ⊥
unfolding scale_body
scale_body-cooked p s h = ground arith

pub scale_body-finishes :
    (p : FilePath) (s : Text)
    → contains scale_new s ≡ true
    → (told : Message) × (scale_body p s ≡ finish told)
unfolding scale_body
scale_body-finishes p s h = finish-told (scale_body p s) (rw (h, scale_body))

pub scale_body-finished :
    (p : FilePath) (s : Text) {told : Message}
    → scale_body p s ≡ finish told
    → contains scale_new s ≡ true
unfolding scale_body
scale_body-finished p s h = ground arith

scale_new-NoCr : NoCr scale_new
unfolding codes
scale_new-NoCr = omega arith

pub scale_body-Settles : Settles scale_body
scale_body-Settles = record {
  raw = λ p s t msg clean h.
      let (hit, e) = scale_body-rewrites p s h in
      let (told, done) =
        scale_body-finishes p t (rw (← e) (contains-replace_first scale_old scale_new s hit)) in
      (rw (← e) (replace_first-NoCr scale_old scale_new s scale_new-NoCr clean), told, done);
  cooked = λ p s t msg clean h. absurd (scale_body-cooked p s h);
}

-- `const_subs` without the `#` that its texts begin with
abbrev const_tails : List (Text × Text)
const_tails =
    (codes "define ZT_PEER_PING_PERIOD 60000", codes "define ZT_PEER_PING_PERIOD 10000")
    ∷ (
      codes "define ZT_PEER_PATH_EXPIRATION ((ZT_PEER_PING_PERIOD * 4) + 3000)",
      codes "define ZT_PEER_PATH_EXPIRATION (243000)",
    )
    ∷ (
      codes "define ZT_PEER_EXPIRED_PATH_TRIAL_PERIOD (ZT_PEER_PING_PERIOD * 10)",
      codes "define ZT_PEER_EXPIRED_PATH_TRIAL_PERIOD (600000)",
    )
    ∷ []

const_subs-marked : const_subs ≡ marked b'#' const_tails
unfolding codes
const_subs-marked = refl

const_tails-Sound : Sound b'#' const_tails
unfolding codes starts_with
const_tails-Sound = (
  (omega arith, omega arith, λ post. refl, omega arith),
  (
    (omega arith, omega arith, λ post. refl, λ post. refl),
    ((omega arith, omega arith, λ post. refl, λ post. refl), tt),
  ),
  (
    (omega arith, omega arith, λ post. refl, omega arith),
    ((omega arith, omega arith, λ post. refl, λ post. refl), tt),
    ((omega arith, omega arith, λ post. refl, omega arith), tt, tt),
  ),
)

-- A round that rewrites: the substitutions went through, and the text holds `PING_DONE` now.
pub consts_end-rewrites :
    (p : FilePath) (r : Applied) {t : Text} {msg : Message}
    → consts_end p r ≡ rewrite_raw t msg
    → (n : ℕ) × (r ≡ applied t n) × (contains ping_done t ≡ true)
unfolding consts_end
consts_end-rewrites p (refused msg) h = cc
consts_end-rewrites p (applied s n) h = (n, ground arith, ground arith)

pub consts_body-rewrites :
    (p : FilePath) (s : Text) {t : Text} {msg : Message}
    → consts_body p s ≡ rewrite_raw t msg
    → consts_end p (apply_subs p const_subs s 0) ≡ rewrite_raw t msg
unfolding consts_body
consts_body-rewrites p s h = ground arith

consts_end-cooked :
    (p : FilePath) (r : Applied) {t : Text} {msg : Message} → consts_end p r ≡ rewrite t msg → ⊥
unfolding consts_end
consts_end-cooked p (refused msg) h = cc
consts_end-cooked p (applied s n) h = ground arith

pub consts_body-cooked :
    (p : FilePath) (s : Text) {t : Text} {msg : Message} → consts_body p s ≡ rewrite t msg → ⊥
unfolding consts_body
consts_body-cooked p s {t} {msg} h =
    ground (arith, consts_end-cooked p (apply_subs p const_subs s 0) {t = t} {msg = msg})

ping_done-names : contains ping_name ping_done ≡ true
unfolding contains codes
ping_done-names = refl

-- Where the text holds `PING_DONE` and nothing to replace, the round only prints.
pub consts_body-finishes :
    (p : FilePath) (t : Text)
    → contains ping_done t ≡ true
    → All (λ sub. contains (b'#' ∷ sub.0) t ≡ false) const_tails
    → (told : Message) × (consts_body p t ≡ finish told)
unfolding consts_body consts_end
consts_body-finishes p t says none_left = finish-told (consts_body p t) (
    rw (
      consts_body,
      contains_trans ping_name ping_done t ping_done-names says,
      const_subs-marked,
      apply_subs-none b'#' p const_tails t 0 none_left,
      consts_end,
      says,
    ))

pub consts_body-Settles : Settles consts_body
consts_body-Settles = record {
  raw = λ p s t msg clean h.
      let (n, went, says) = consts_end-rewrites p _ (consts_body-rewrites p s h) in
      let made : apply_subs p (marked b'#' const_tails) s 0 ≡ applied t n =
        rw const_subs-marked at went in
      let (told, done) =
        consts_body-finishes p t says
          (apply_subs-gone b'#' p const_tails s 0 const_tails-Sound made) in
      (apply_subs-NoCr b'#' p const_tails s 0 const_tails-Sound clean made, told, done);
  cooked = λ p s t msg clean h. absurd (consts_body-cooked p s h);
}

consts_end-finished :
    (p : FilePath) (r : Applied) {told : Message}
    → consts_end p r ≡ finish told
    → (t : Text) × (r ≡ applied t 0) × (contains ping_done t ≡ true)
unfolding consts_end
consts_end-finished p (refused msg) h = cc
consts_end-finished p (applied s n) h = (s, ground arith, ground arith)

consts_body-ends :
    (p : FilePath) (s : Text) {told : Message}
    → consts_body p s ≡ finish told
    → consts_end p (apply_subs p const_subs s 0) ≡ finish told
unfolding consts_body
consts_body-ends p s h = ground arith

-- The text that sets the period is there, and none of the texts to replace.
pub record IsPinned (t : Text) : Type 0 where
  pub period : contains ping_done t ≡ true
  pub no_ping_old : contains ping_old t ≡ false
  pub no_expiration_old : contains expiration_old t ≡ false
  pub no_trial_old : contains trial_old t ≡ false

pub consts_body-finished :
    (p : FilePath) (s : Text) {told : Message} → consts_body p s ≡ finish told → IsPinned s
unfolding codes
consts_body-finished p s h =
    let (t, none_made, says) = consts_end-finished p _ (consts_body-ends p s h) in
    let made : apply_subs p (marked b'#' const_tails) s 0 ≡ applied t 0 = none_made in
    let misses = apply_subs-unchanged b'#' p const_tails s 0 made in
    let whole : apply_subs p (marked b'#' const_tails) s 0 ≡ applied s 0 =
      apply_subs-none b'#' p const_tails s 0 misses in
    let same : s ≡ t = cc in
    record {
      period = rw same says;
      no_ping_old = misses.0;
      no_expiration_old = misses.1.0;
      no_trial_old = misses.1.1.0;
    }
