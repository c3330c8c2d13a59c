-- ===== src/Walk/Turns.antt =====
-- What a walk that was left by `break` has made of the file at which it was.
use mathlib.Core.Path.{subst}
use switch_ldn_zt.Base.{Bool, true, Option, none, some, ◌≡◌, refl, sym, ap, ◌∙◌}
use switch_ldn_zt.Text.{Text}
use switch_ldn_zt.Text.Occurs.{eqb_refl}
use switch_ldn_zt.Text.Newlines.{NoCr}
use switch_ldn_zt.Disk.{FilePath, matches, rglob}
use switch_ldn_zt.Disk.Laws.{rglob-matches}
use switch_ldn_zt.Script.{Message, said, system_exit, Result, ok, err, Machine, try_read}
use switch_ldn_zt.Walk.{Verdict, pass, finish, rewrite_raw, rewrite, abort, Body, act, walk}
use switch_ldn_zt.Walk.Target.{
  target, target-listed, act_on, walk-target, target-reads, try_read-write_raw, try_read-write_text,
  try_read-NoCr,
}
use switch_ldn_zt.Walk.Twice.{ok-ne-false}

-- Every text that the body leaves behind is related to the one that it read.
pub record Turns (body : Body) (R : Text → Text → Type 0) : Type 0 where
  pub raw :
      (p : FilePath) (s t : Text) (msg : Message)
      → NoCr s
      → body p s ≡ rewrite_raw t msg
      → NoCr t × R s t
  pub cooked :
      (p : FilePath) (s t : Text) (msg : Message)
      → NoCr s
      → body p s ≡ rewrite t msg
      → NoCr t × R s t
  pub finished : (p : FilePath) (s : Text) (msg : Message) → body p s ≡ finish msg → R s s

-- One of the files below the root that have the name could be read, and reads as a text that is
-- related to what it read as before.
pub record Turned (root name : Text) (R : Text → Text → Type 0) (m m' : Machine) : Type 0 where
  pub path : FilePath
  pub before : Text
  pub after : Text
  pub listed : matches root name path ≡ true
  pub read : try_read path m ≡ some before
  pub reads : try_read path m' ≡ some after
  pub good : R before after

module _ {R : Text → Text → Type 0} (root name : Text) (body : Body) (turns : Turns body R)
    (m : Machine) where
  reach :
      (p : FilePath) (s : Text) (v : Verdict) {m' : Machine}
      → matches root name p ≡ true
      → try_read p m ≡ some s
      → body p s ≡ v
      → act p v m ≡ (ok true, m')
      → Turned root name R m m'
  unfolding act said try_read
  reach p s pass {m'} hit read e h = absurd (ok-ne-false m m' h)
  reach p s (finish told) hit read e h = subst (Turned root name R m) (ap (λ x. x.1) h) (record {
    path = p;
    before = s;
    after = s;
    listed = hit;
    read = read;
    reads = read;
    good = turns.finished p s told e;
  })
  reach p s (rewrite_raw t msg) hit read e h =
      let (clean, good) = turns.raw p s t msg (try_read-NoCr p m read) e in
      subst (Turned root name R m) (ap (λ x. x.1) h) (record {
        path = p;
        before = s;
        after = t;
        listed = hit;
        read = read;
        reads = try_read-write_raw p p t m clean ∙ rw eqb_refl;
        good = good;
      })
  reach p s (rewrite t msg) hit read e h =
      let (clean, good) = turns.cooked p s t msg (try_read-NoCr p m read) e in
      subst (Turned root name R m) (ap (λ x. x.1) h) (record {
        path = p;
        before = s;
        after = t;
        listed = hit;
        read = read;
        reads = try_read-write_text p p t m clean ∙ rw eqb_refl;
        good = good;
      })
  reach p s (abort msg) {m'} hit read e h =
      let bad : ◌≡◌ {A = Result Bool} (err (system_exit msg)) (ok true) = ap (λ x. x.0) h in cc

  reach_on :
      (found : Option (FilePath × Text)) {m' : Machine}
      → target body m (rglob root name m.files) ≡ found
      → act_on body found m ≡ (ok true, m')
      → Turned root name R m m'
  reach_on none {m'} e h = absurd (ok-ne-false m m' h)
  reach_on (some (p, s)) e h =
      reach p s (body p s)
        (target-listed (λ p. matches root name p ≡ true) body m _ (rglob-matches root name m.files)
          e)
        (target-reads body m _ e).0 refl h

  pub walk-Turned : {m' : Machine} → walk root name body m ≡ (ok true, m') → Turned root name R m m'
  walk-Turned h = reach_on _ refl (sym (walk-target root name body m) ∙ h)

pub Turned-after :
    {root name : Text} {R : Text → Text → Type 0} {m m1 : Machine} (m' : Machine)
    → ((q : FilePath) → matches root name q ≡ true → try_read q m' ≡ try_read q m1)
    → Turned root name R m m1
    → Turned root name R m m'
Turned-after m' same h = record {
  path = h.path;
  before = h.before;
  after = h.after;
  listed = h.listed;
  read = h.read;
  reads = same h.path h.listed ∙ h.reads;
  good = h.good;
}

pub Turned-before :
    {root name : Text} {R : Text → Text → Type 0} (m : Machine) {m1 m' : Machine}
    → ((q : FilePath) → matches root name q ≡ true → try_read q m1 ≡ try_read q m)
    → Turned root name R m1 m'
    → Turned root name R m m'
Turned-before m same h = record {
  path = h.path;
  before = h.before;
  after = h.after;
  listed = h.listed;
  read = sym (same h.path h.listed) ∙ h.read;
  reads = h.reads;
  good = h.good;
}
