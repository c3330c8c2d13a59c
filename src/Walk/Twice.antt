-- ===== src/Walk/Twice.antt =====
-- A walk that has left its loop by `break` finds its work done when it is run again.
use mathlib.Core.Path.{subst}
use switch_ldn_zt.Base.{
  Bool, true, false, Option, none, some, List, [], ◌∷◌, ◌≡◌, refl, sym, ap, ◌∙◌, All, All-map,
  if◌then◌else◌,
}
use switch_ldn_zt.Text.{Text, eqb}
use switch_ldn_zt.Text.Newlines.{NoCr, to_linesep}
use switch_ldn_zt.Disk.{File, FilePath, put_file, matches, rglob}
use switch_ldn_zt.Disk.Laws.{rglob-put_file, rglob-matches}
use switch_ldn_zt.Script.{
  Message, system_exit, Result, ok, err, Machine, said, try_read, write_text, write_raw,
}
use switch_ldn_zt.Walk.{Verdict, pass, finish, rewrite_raw, rewrite, abort, Body, act, walk}
use switch_ldn_zt.Walk.Target.{
  target, target-listed, act_on, walk-target, target-reads, target-changed, target-same,
  try_read-write_raw, try_read-write_text, try_read-NoCr, try_read-present,
}

-- Where the body rewrites a text, it finds nothing left to do in the new one.
pub record Settles (body : Body) : Type 0 where
  pub raw :
      (p : FilePath) (s t : Text) (msg : Message)
      → NoCr s
      → body p s ≡ rewrite_raw t msg
      → NoCr t × (told : Message) × (body p t ≡ finish told)
  pub cooked :
      (p : FilePath) (s t : Text) (msg : Message)
      → NoCr s
      → body p s ≡ rewrite t msg
      → NoCr t × (told : Message) × (body p t ≡ finish told)

-- The walk's file, and that its body only prints there.
pub record Settled (root name : Text) (body : Body) (m : Machine) : Type 0 where
  pub path : FilePath
  pub content : Text
  pub told : Message
  pub is_target : target body m (rglob root name m.files) ≡ some (path, content)
  pub done : body path content ≡ finish told

pub ok-ne-false : (m m' : Machine) → ◌≡◌ {A = Result Bool × Machine} (ok false, m) (ok true, m') → ⊥
ok-ne-false m m' h = let e : ok false ≡ ok true = ap (λ x. x.0) h in cc

pub Settled-walk :
    {root name : Text} {body : Body} {m : Machine} (st : Settled root name body m)
    → walk root name body m ≡ (ok true, said st.told m)
unfolding said act
Settled-walk {root} {name} {body} {m} st = walk-target root name body m ∙ rw (st.is_target, st.done)

pub everywhere {ℓ} :
    {P : FilePath → Type ℓ} → ((q : FilePath) → P q) → (ps : List FilePath) → All P ps
everywhere h [] = tt
everywhere h (p ∷ ps) = (h p, everywhere h ps)

-- What is done stays done while the files of the walk stay as they are.
pub Settled-keeps :
    {root name : Text} {body : Body} {m : Machine} (m' : Machine)
    → rglob root name m'.files ≡ rglob root name m.files
    → ((q : FilePath) → matches root name q ≡ true → try_read q m' ≡ try_read q m)
    → Settled root name body m
    → Settled root name body m'
Settled-keeps {root} {name} {body} {m} m' listed reads st = record {
  path = st.path;
  content = st.content;
  told = st.told;
  is_target = rw listed (
      target-same body m m' _ (All-map _ _ reads _ (rglob-matches root name m.files))
      ∙ st.is_target);
  done = st.done;
}

module _ (root name : Text) (body : Body) (settles : Settles body) (m : Machine) where
  abbrev Target : FilePath → Text → Type 0
  Target p s = target body m (rglob root name m.files) ≡ some (p, s)

  -- After a write that reads back as `t`, where the body only prints.
  settle_written :
      (p : FilePath) (s t : Text) (f : File) (told : Message) (m' : Machine)
      → Target p s
      → m'.files ≡ put_file p f m.files
      → ((q : FilePath) → try_read q m' ≡ (if eqb q p then some t else try_read q m))
      → body p t ≡ finish told
      → Settled root name body m'
  settle_written p s t f told m' found written reads done =
      let (read, _) = target-reads body m _ found in
      let (g, present) = try_read-present p m read in
      let listed : rglob root name m'.files ≡ rglob root name m.files =
        rw written (rglob-put_file root name p f g m.files present) in
      record {
        path = p;
        content = t;
        told = told;
        is_target = rw listed (target-changed body m m' p s t _ reads (rw done) found);
        done = done;
      }

  settle :
      (p : FilePath) (s : Text) (v : Verdict) {m' : Machine}
      → Target p s
      → body p s ≡ v
      → act p v m ≡ (ok true, m')
      → Settled root name body m'
  unfolding act said try_read
  settle p s pass {m'} found e h = absurd (ok-ne-false m m' h)
  settle p s (finish told) found e h = subst (Settled root name body) (ap (λ x. x.1) h) (record {
    path = p;
    content = s;
    told = told;
    is_target = target-same body m (said told m) _ (everywhere (λ q. refl) _) ∙ found;
    done = e;
  })
  settle p s (rewrite_raw t msg) found e h =
      let (read, _) = target-reads body m (rglob root name m.files) found in
      let (clean, told, done) = settles.raw p s t msg (try_read-NoCr p m read) e in
      subst (Settled root name body) (ap (λ x. x.1) h) (
        settle_written p s t (File.text t) told (said msg (write_raw p t m).1) found refl
          (λ q. try_read-write_raw p q t m clean) done)
  settle p s (rewrite t msg) found e h =
      let (read, _) = target-reads body m (rglob root name m.files) found in
      let (clean, told, done) = settles.cooked p s t msg (try_read-NoCr p m read) e in
      subst (Settled root name body) (ap (λ x. x.1) h) (
        settle_written p s t (File.text (to_linesep m.windows t)) told
          (said msg (write_text p t m).1) found refl (λ q. try_read-write_text p q t m clean) done)
  settle p s (abort msg) {m'} found e h =
      let bad : ◌≡◌ {A = Result Bool} (err (system_exit msg)) (ok true) = ap (λ x. x.0) h in cc

  settle_on :
      (found : Option (FilePath × Text)) {m' : Machine}
      → target body m (rglob root name m.files) ≡ found
      → act_on body found m ≡ (ok true, m')
      → Settled root name body m'
  settle_on none {m'} e h = absurd (ok-ne-false m m' h)
  settle_on (some (p, s)) e h = settle p s (body p s) e refl h

  -- What a walk leaves behind when it was left by `break`.
  pub walk-Settled :
      {m' : Machine} → walk root name body m ≡ (ok true, m') → Settled root name body m'
  walk-Settled h = settle_on _ refl (sym (walk-target root name body m) ∙ h)

-- One of the files that a walk looks for reads as a text with the property `P`.
pub record Holds (root name : Text) (P : Text → Type 0) (m : Machine) : Type 0 where
  pub path : FilePath
  pub content : Text
  pub listed : matches root name path ≡ true
  pub reads : try_read path m ≡ some content
  pub good : P content

pub Settled-Holds :
    {root name : Text} {body : Body} {m : Machine} (P : Text → Type 0)
    (st : Settled root name body m)
    → P st.content
    → Holds root name P m
Settled-Holds {root} {name} {body} {m} P st good = record {
  path = st.path;
  content = st.content;
  listed =
      target-listed (λ p. matches root name p ≡ true) body m _ (rglob-matches root name m.files)
        st.is_target;
  reads = (target-reads body m _ st.is_target).0;
  good = good;
}
