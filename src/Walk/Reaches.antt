-- ===== src/Walk/Reaches.antt =====
-- What a walk has reached when it was left by `break`, and when it is left so at all.
use switch_ldn_zt.Base.{
  Bool, true, false, not, ◌||◌, none, some, List, [], ◌∷◌, ◌≡◌, refl, ◌∙◌, inl, inr, arith,
  Bool-cases, Option-cases,
}
use switch_ldn_zt.Text.{Text}
use switch_ldn_zt.Text.Newlines.{NoCr}
use switch_ldn_zt.Disk.{FilePath, matches, rglob}
use switch_ldn_zt.Script.{Message, ok, Machine, try_read}
use switch_ldn_zt.Script.Gate.{if_read}
use switch_ldn_zt.Walk.{Verdict, pass, finish, rewrite_raw, rewrite, abort, Body, act, walk}
use switch_ldn_zt.Walk.Target.{is_pass, target, walk-target, target-reads}
use switch_ldn_zt.Walk.Twice.{Holds}
use switch_ldn_zt.Walk.Turns.{Turns, walk-Turned}

-- Every text that the body leaves behind has the property `P`.
pub record Reaches (body : Body) (P : Text → Type 0) : Type 0 where
  pub raw :
      (p : FilePath) (s t : Text) (msg : Message)
      → NoCr s
      → body p s ≡ rewrite_raw t msg
      → NoCr t × P t
  pub cooked :
      (p : FilePath) (s t : Text) (msg : Message) → NoCr s → body p s ≡ rewrite t msg → NoCr t × P t
  pub finished : (p : FilePath) (s : Text) (msg : Message) → body p s ≡ finish msg → P s

module _ {P : Text → Type 0} (root name : Text) (body : Body) (reaches : Reaches body P)
    (m : Machine) where
  pub walk-Holds : {m' : Machine} → walk root name body m ≡ (ok true, m') → Holds root name P m'
  walk-Holds h =
      let turned = walk-Turned {R = λ _ t. P t} root name body turns m h in
      record {
        path = turned.path;
        content = turned.after;
        listed = turned.listed;
        reads = turned.reads;
        good = turned.good;
      }
    where
      turns : Turns body (λ _ t. P t)
      turns = record {
        raw = λ p s t msg. reaches.raw p s t msg;
        cooked = λ p s t msg. reaches.cooked p s t msg;
        finished = λ p s msg. reaches.finished p s msg;
      }

abbrev pub is_abort : Verdict → Bool
is_abort (abort msg) = true
is_abort _ = false

act-breaks :
    (p : FilePath) (v : Verdict) (m : Machine)
    → is_abort v ≡ false
    → is_pass v ≡ false
    → (m' : Machine) × (act p v m ≡ (ok true, m'))
unfolding act
act-breaks p pass m a b = cc
act-breaks p (abort msg) m a b = cc
act-breaks p _ m a b = (_, refl)

-- One of the files can be read, and passes the test.
unfoldable pub any_reads : (Text → Bool) → Machine → List FilePath → Bool
any_reads test m [] = false
any_reads test m (p ∷ ps) = if_read (try_read p m) test || any_reads test m ps

module _ (test : Text → Bool) (body : Body)
    (stops : (p : FilePath) (s : Text) → is_pass (body p s) ≡ not (test s)) where
  -- The walk has no target exactly where no file passes the test.
  target-none :
      (m : Machine) (ps : List FilePath) → any_reads test m ps ≡ false → target body m ps ≡ none
  unfolding any_reads target
  target-none m [] h = refl
  target-none m (p ∷ ps) h = elim (Option-cases (try_read p m)) [
    | inl gone ↦ rw gone (target-none m ps (rw gone at h))
    | inr (s, read) ↦
        let both : test s || any_reads test m ps ≡ false = rw read at h in
        let miss : test s ≡ false = ground arith in
        rw (read, stops p s, miss) (target-none m ps (ground arith))
  ]

  target-some :
      (m : Machine) (ps : List FilePath)
      → any_reads test m ps ≡ true
      → (found : FilePath × Text) × (target body m ps ≡ some found)
  unfolding any_reads target
  target-some m [] h = cc
  target-some m (p ∷ ps) h = elim (Option-cases (try_read p m)) [
    | inl gone ↦ let (found, e) = target-some m ps (rw gone at h) in (found, rw gone e)
    | inr (s, read) ↦ elim (Bool-cases (test s)) [
      | inl hit ↦ ((p, s), rw (read, stops p s, hit))
      | inr miss ↦
          let (found, e) = target-some m ps (rw (read, miss) at h) in
          (found, rw (read, stops p s, miss) e)
    ]
  ]

  module _ (root name : Text) (m : Machine) where
    pub walk-none :
        any_reads test m (rglob root name m.files) ≡ false → walk root name body m ≡ (ok false, m)
    walk-none h = walk-target root name body m ∙ rw (target-none m _ h)

    -- A body that never exits takes the walk to a `break`.
    pub walk-some :
        ((p : FilePath) (s : Text) → is_abort (body p s) ≡ false)
        → any_reads test m (rglob root name m.files) ≡ true
        → (m' : Machine) × (walk root name body m ≡ (ok true, m'))
    walk-some stays h =
        let ((p, s), found) = target-some m _ h in
        let (m', e) = act-breaks p (body p s) m (stays p s) (target-reads body m _ found).1 in
        (m', walk-target root name body m ∙ rw (found, e))

pub Holds-keeps :
    {root name : Text} {P : Text → Type 0} {m : Machine} (m' : Machine)
    → ((q : FilePath) → matches root name q ≡ true → try_read q m' ≡ try_read q m)
    → Holds root name P m
    → Holds root name P m'
Holds-keeps m' same h = record {
  path = h.path;
  content = h.content;
  listed = h.listed;
  reads = same h.path h.listed ∙ h.reads;
  good = h.good;
}
