-- ===== src/Walk/Again.antt =====
-- A walk whose body may write back the very text that it has read: run again, it leaves what every
-- file reads as.
use mathlib.Core.Path.{subst}
use switch_ldn_zt.Base.{
  Bool, true, false, Option, none, some, ◌≡◌, refl, sym, ap, ◌∙◌, ◌⊎◌, inl, inr, All-map,
  Bool-cases,
}
use switch_ldn_zt.Text.{Text, eqb}
use switch_ldn_zt.Text.Occurs.{eqb_sound}
use switch_ldn_zt.Text.Newlines.{NoCr, to_linesep}
use switch_ldn_zt.Disk.{File, FilePath, matches, rglob}
use switch_ldn_zt.Disk.Laws.{rglob-put_file, rglob-matches}
use switch_ldn_zt.Script.{
  Message, said, system_exit, Result, ok, err, Machine, try_read, write_text,
}
use switch_ldn_zt.Walk.{Verdict, pass, finish, rewrite_raw, rewrite, abort, Body, act, walk}
use switch_ldn_zt.Walk.Target.{
  is_pass, target, act_on, walk-target, target-reads, target-changed, target-same,
  try_read-write_text, try_read-NoCr, try_read-present,
}
use switch_ldn_zt.Walk.Twice.{ok-ne-false, everywhere}

-- The body prints, and writes at most what it has read.
abbrev pub Idle : Body → FilePath → Text → Message → Type 0
Idle body p s told = (body p s ≡ finish told) ⊎ (body p s ≡ rewrite s told)

pub record Calms (body : Body) : Type 0 where
  pub no_raw : (p : FilePath) (s t : Text) (msg : Message) → body p s ≡ rewrite_raw t msg → ⊥
  pub cooked :
      (p : FilePath) (s t : Text) (msg : Message)
      → NoCr s
      → body p s ≡ rewrite t msg
      → NoCr t × (told : Message) × Idle body p t told

pub record Rests (root name : Text) (body : Body) (m : Machine) : Type 0 where
  pub path : FilePath
  pub content : Text
  pub told : Message
  pub is_target : target body m (rglob root name m.files) ≡ some (path, content)
  pub idle : Idle body path content told

Idle-ends :
    (body : Body) (p : FilePath) (s : Text) (told : Message)
    → Idle body p s told
    → is_pass (body p s) ≡ false
Idle-ends body p s told (inl e) = rw e
Idle-ends body p s told (inr e) = rw e

same_write :
    (p : FilePath) (s : Text) (m : Machine)
    → try_read p m ≡ some s
    → (q : FilePath) → try_read q (write_text p s m).1 ≡ try_read q m
same_write p s m read q =
    try_read-write_text p q s m (try_read-NoCr p m read) ∙ elim (Bool-cases (eqb q p)) [
      | inl here ↦ rw (here, eqb_sound q p here, read)
      | inr away ↦ rw away
    ]

module _ (root name : Text) (body : Body) where
  Idle-act :
      (p : FilePath) (s : Text) (told : Message) (m : Machine)
      → try_read p m ≡ some s
      → Idle body p s told
      → (m' : Machine) × (act p (body p s) m ≡ (ok true, m'))
        × ((q : FilePath) → try_read q m' ≡ try_read q m)
  unfolding act try_read said
  Idle-act p s told m read (inl e) = (said told m, rw e, λ q. refl)
  Idle-act p s told m read (inr e) =
      (said told (write_text p s m).1, rw e, λ q. same_write p s m read q)

  -- The walk again: it returns, and every file reads as before.
  pub Rests-walk :
      (m : Machine)
      → Rests root name body m
      → (m' : Machine) × (walk root name body m ≡ (ok true, m'))
        × ((q : FilePath) → try_read q m' ≡ try_read q m)
  Rests-walk m r =
      let (read, _) = target-reads body m _ r.is_target in
      let (m', ran, same) = Idle-act r.path r.content r.told m read r.idle in
      (m', walk-target root name body m ∙ rw r.is_target ran, same)

  pub Rests-keeps :
      (m m' : Machine)
      → rglob root name m'.files ≡ rglob root name m.files
      → ((q : FilePath) → matches root name q ≡ true → try_read q m' ≡ try_read q m)
      → Rests root name body m
      → Rests root name body m'
  Rests-keeps m m' listed reads r = record {
    path = r.path;
    content = r.content;
    told = r.told;
    is_target = rw listed (
        target-same body m m' _ (All-map _ _ reads _ (rglob-matches root name m.files))
        ∙ r.is_target);
    idle = r.idle;
  }

  module _ (calms : Calms body) (m : Machine) where
    abbrev Found : FilePath → Text → Type 0
    Found p s = target body m (rglob root name m.files) ≡ some (p, s)

    calm :
        (p : FilePath) (s : Text) (v : Verdict) {m' : Machine}
        → Found p s
        → body p s ≡ v
        → act p v m ≡ (ok true, m')
        → Rests root name body m'
    unfolding act said try_read
    calm p s pass {m'} found e h = absurd (ok-ne-false m m' h)
    calm p s (finish told) found e h = subst (Rests root name body) (ap (λ x. x.1) h) (record {
      path = p;
      content = s;
      told = told;
      is_target = target-same body m (said told m) _ (everywhere (λ q. refl) _) ∙ found;
      idle = inl e;
    })
    calm p s (rewrite_raw t msg) found e h = absurd (calms.no_raw p s t msg e)
    calm p s (rewrite t msg) found e h =
        let (read, _) = target-reads body m (rglob root name m.files) found in
        let (clean, told, idle) = calms.cooked p s t msg (try_read-NoCr p m read) e in
        let (g, present) = try_read-present p m read in
        let m1 : Machine = said msg (write_text p t m).1 in
        let listed : rglob root name m1.files ≡ rglob root name m.files =
          rglob-put_file root name p (File.text (to_linesep m.windows t)) g m.files present in
        subst (Rests root name body) (ap (λ x. x.1) h) (record {
          path = p;
          content = t;
          told = told;
          is_target = rw listed (
              target-changed body m m1 p s t _ (λ q. try_read-write_text p q t m clean)
                (Idle-ends body p t told idle) found);
          idle = idle;
        })
    calm p s (abort msg) {m'} found e h =
        let bad : ◌≡◌ {A = Result Bool} (err (system_exit msg)) (ok true) = ap (λ x. x.0) h in cc

    calm_on :
        (found : Option (FilePath × Text)) {m' : Machine}
        → target body m (rglob root name m.files) ≡ found
        → act_on body found m ≡ (ok true, m')
        → Rests root name body m'
    calm_on none {m'} e h = absurd (ok-ne-false m m' h)
    calm_on (some (p, s)) e h = calm p s (body p s) e refl h

    pub walk-Rests :
        {m' : Machine} → walk root name body m ≡ (ok true, m') → Rests root name body m'
    walk-Rests h = calm_on _ refl (sym (walk-target root name body m) ∙ h)
