-- ===== src/Keepalive/Changes.antt =====
-- What a round of the two loops makes of the text that it read.
use switch_ldn_zt.Base.{
  ℕ, ◌+◌, true, ◌==◌, List, [], ◌∷◌, ◌≡◌, ◌⊎◌, refl, sym, ap, ◌∙◌, inl, inr, arith, Bool-cases,
}
use switch_ldn_zt.Text.{Text, contains, count, replace_first}
use switch_ldn_zt.Text.Occurs.{replace_first-missing}
use switch_ldn_zt.Disk.{FilePath}
use switch_ldn_zt.Script.{Message}
use switch_ldn_zt.Walk.{rewrite_raw}
use switch_ldn_zt.Walk.Turns.{Turns}
use switch_ldn_zt.Keepalive.{
  scale_old, scale_new, scale_body, ping_old, ping_done, expiration_old, expiration_new, trial_old,
  trial_new, const_subs, applied, apply_subs, consts_body,
}
use switch_ldn_zt.Keepalive.Rounds.{
  IsPinned, scale_body-finished, scale_body-cooked, scale_body-Settles, consts_body-finished,
  consts_body-cooked, consts_body-Settles, consts_end-rewrites, consts_body-rewrites,
}

-- What becomes of a `Node.cpp`: it is left alone if it has the new scale, and else its one old scale
-- is replaced.
abbrev pub GetsScale : Text → Text → Type 0
GetsScale s t =
    ((contains scale_new s ≡ true) × (t ≡ s))
    ⊎ ((count scale_old s ≡ 1) × (t ≡ replace_first scale_old scale_new s))

scale_body-replaces :
    (p : FilePath) (s : Text) {t : Text} {msg : Message}
    → scale_body p s ≡ rewrite_raw t msg
    → (count scale_old s ≡ 1) × (t ≡ replace_first scale_old scale_new s)
unfolding scale_body
scale_body-replaces p s h = ground arith

pub scale_body-Turns : Turns scale_body GetsScale
scale_body-Turns = record {
  raw = λ p s t msg clean h.
      ((scale_body-Settles.raw p s t msg clean h).0, inr (scale_body-replaces p s h));
  cooked = λ p s t msg clean h. absurd (scale_body-cooked p s h);
  finished = λ p s msg h. inl (scale_body-finished p s h, refl);
}

-- The substitutions, each at the first place of its text, if it has one.
abbrev pub replace_in_turn : List (Text × Text) → Text → Text
replace_in_turn [] s = s
replace_in_turn ((old, new) ∷ subs) s = replace_in_turn subs (replace_first old new s)

apply_subs-replaces :
    (p : FilePath) (subs : List (Text × Text)) (s : Text) (n : ℕ) {t : Text} {k : ℕ}
    → apply_subs p subs s n ≡ applied t k
    → t ≡ replace_in_turn subs s
unfolding apply_subs
apply_subs-replaces p [] s n h = ground arith
apply_subs-replaces p ((old, new) ∷ subs) s n {t} {k} h = elim (Bool-cases (contains old s)) [
  | inr miss ↦
      let rest : apply_subs p subs s n ≡ applied t k = rw miss at h in
      apply_subs-replaces p subs s n rest
      ∙ ap (replace_in_turn subs) (sym (replace_first-missing old new s miss))
  | inl hit ↦ elim (Bool-cases (count old s == 1)) [
    | inr many ↦ absurd (cc (rw (hit, many) at h))
    | inl one ↦ apply_subs-replaces p subs (replace_first old new s) (n + 1) (rw (hit, one) at h)
  ]
]

-- What becomes of a `Constants.hpp`: the three substitutions in a row, after which it has the text
-- that sets the period and none of those to replace.
pub record GetsPinned (s t : Text) : Type 0 where
  pub replaces :
      t
      ≡ replace_first trial_old trial_new
          (replace_first expiration_old expiration_new (replace_first ping_old ping_done s))
  pub pinned : IsPinned t

consts_body-replaces :
    (p : FilePath) (s : Text) {t : Text} {msg : Message}
    → consts_body p s ≡ rewrite_raw t msg
    → t ≡ replace_in_turn const_subs s
consts_body-replaces p s h =
    let (n, went, _) = consts_end-rewrites p _ (consts_body-rewrites p s h) in
    apply_subs-replaces p const_subs s 0 went

IsPinned-replaces : (s : Text) → IsPinned s → s ≡ replace_in_turn const_subs s
IsPinned-replaces s pinned = sym (
    ap (λ t. replace_first trial_old trial_new (replace_first expiration_old expiration_new t))
      (replace_first-missing ping_old ping_done s pinned.no_ping_old)
    ∙ ap (replace_first trial_old trial_new)
        (replace_first-missing expiration_old expiration_new s pinned.no_expiration_old)
    ∙ replace_first-missing trial_old trial_new s pinned.no_trial_old)

pub consts_body-Turns : Turns consts_body GetsPinned
consts_body-Turns = record {
  raw = λ p s t msg clean h.
      let (clean_t, told, done) = consts_body-Settles.raw p s t msg clean h in
      (
        clean_t,
        record { replaces = consts_body-replaces p s h; pinned = consts_body-finished p t done },
      );
  cooked = λ p s t msg clean h. absurd (consts_body-cooked p s h);
  finished = λ p s msg h.
      let pinned = consts_body-finished p s h in
      record { replaces = IsPinned-replaces s pinned; pinned = pinned };
}
