-- ===== src/Walk/Target.antt =====
-- A walk acts on one file at most: the first that can be read and that its body does not pass.
use mathlib.Core.Path.{subst}
use mathlib.Core.Option.{some-injective}
use switch_ldn_zt.Base.{
  Bool, true, false, Option, none, some, List, [], ◌∷◌, ◌≡◌, refl, sym, ◌∙◌, ap, inl, inr,
  Bool-cases, Option-cases, All, if◌then◌else◌,
}
use switch_ldn_zt.Text.{Text, eqb}
use switch_ldn_zt.Text.Occurs.{eqb_sound, eqb_refl}
use switch_ldn_zt.Text.Newlines.{
  NoCr, universal_newlines, universal_newlines_id, universal_newlines-to_linesep,
  universal_newlines-NoCr,
}
use switch_ldn_zt.Disk.{File, FilePath, find_file, rglob}
use switch_ldn_zt.Disk.Laws.{find_file-put_file}
use switch_ldn_zt.Script.{
  Message, pure, ◌>>=◌, ok, Machine, Script, try_read, readable, write_text, write_raw,
}
use switch_ldn_zt.Walk.{Verdict, pass, finish, Body, act, visit, for_files, walk}

abbrev pub is_pass : Verdict → Bool
is_pass pass = true
is_pass _ = false

abbrev take_or : Body → FilePath → Option Text → Option (FilePath × Text) → Option (FilePath × Text)
take_or body p none rest = rest
take_or body p (some s) rest = if is_pass (body p s) then rest else some (p, s)

abbrev pub is_finish : Verdict → Bool
is_finish (finish told) = true
is_finish _ = false

pub finish-told : (v : Verdict) → is_finish v ≡ true → (told : Message) × (v ≡ finish told)
finish-told (finish told) h = (told, refl)
finish-told pass h = cc
finish-told _ h = cc

unfoldable pub target : Body → Machine → List FilePath → Option (FilePath × Text)
target body m [] = none
target body m (p ∷ ps) = let rest = target body m ps in take_or body p (try_read p m) rest

abbrev pub act_on : Body → Option (FilePath × Text) → Script Bool
act_on body none m = (ok false, m)
act_on body (some (p, s)) m = act p (body p s) m

-- A round that does not pass leaves the loop, by `break` or by an exit.
act-then :
    (p : FilePath) (v : Verdict) (rest : Script Bool) (m : Machine)
    → (act p v >>= λ stop. if stop then pure true else rest) m
      ≡ (if is_pass v then rest m else act p v m)
unfolding act
act-then p pass rest m = refl
act-then p _ rest m = refl

act_on-take_or :
    (body : Body) (p : FilePath) (s : Text) (rest : Option (FilePath × Text)) (m : Machine)
    → act_on body (take_or body p (some s) rest) m
      ≡ (if is_pass (body p s) then act_on body rest m else act p (body p s) m)
act_on-take_or body p s rest m = elim (Bool-cases (is_pass (body p s))) [
  | inl e ↦ rw e
  | inr e ↦ rw e
]

-- What a round makes of the rest of the loop.
visit-take_or :
    (body : Body) (p : FilePath) (rest : Option (FilePath × Text)) (loop : Script Bool)
    (m : Machine) (read : Option Text)
    → loop m ≡ act_on body rest m
    → (visit body p read >>= λ stop. if stop then pure true else loop) m
      ≡ act_on body (take_or body p read rest) m
unfolding ◌>>=◌
visit-take_or body p rest loop m none ih = ih
visit-take_or body p rest loop m (some s) ih =
    act-then p (body p s) loop m ∙ rw ih (sym (act_on-take_or body p s rest m))

-- The whole loop is the action of its body on the target.
pub for_files-target :
    (body : Body) (ps : List FilePath) (m : Machine)
    → for_files body ps m ≡ act_on body (target body m ps) m
unfolding target for_files
for_files-target body [] m = refl
for_files-target body (p ∷ ps) m =
    visit-take_or body p (target body m ps) (for_files body ps) m (try_read p m)
      (for_files-target body ps m)

pub walk-target :
    (root name : Text) (body : Body) (m : Machine)
    → walk root name body m ≡ act_on body (target body m (rglob root name m.files)) m
unfolding walk
walk-target root name body m = for_files-target body (rglob root name m.files) m

abbrev passed : Body → FilePath → Option Text → Bool
passed body p none = true
passed body p (some s) = is_pass (body p s)

take_or-passed :
    (body : Body) (p : FilePath) (read : Option Text) (rest : Option (FilePath × Text))
    → passed body p read ≡ true
    → take_or body p read rest ≡ rest
take_or-passed body p none rest h = refl
take_or-passed body p (some s) rest h = rw h

take_or-chosen :
    (body : Body) (p : FilePath) (read : Option Text) (rest : Option (FilePath × Text))
    → passed body p read ≡ false
    → (s : Text) × (read ≡ some s)
      × (is_pass (body p s) ≡ false)
      × (take_or body p read rest ≡ some (p, s))
take_or-chosen body p none rest h = cc
take_or-chosen body p (some s) rest h = (s, refl, h, rw h)

-- The target can be read, and its body does not pass it.
pub target-reads :
    (body : Body) (m : Machine) (ps : List FilePath) {p : FilePath} {s : Text}
    → target body m ps ≡ some (p, s)
    → (try_read p m ≡ some s) × (is_pass (body p s) ≡ false)
unfolding target
target-reads body m [] h = cc
target-reads body m (q ∷ ps) {p} {s} h = elim (Bool-cases (passed body q (try_read q m))) [
  | inl skip ↦ target-reads body m ps (sym (take_or-passed body q (try_read q m) _ skip) ∙ h)
  | inr stop ↦
      let (t, read, ends, e) = take_or-chosen body q (try_read q m) (target body m ps) stop in
      let same : ◌≡◌ {A = FilePath × Text} (q, t) (p, s) = some-injective _ _ (sym e ∙ h) in
      let path : q ≡ p = ap (λ x. x.0) same in
      let content : t ≡ s = ap (λ x. x.1) same in
      (rw (← path, ← content) read, rw (← path, ← content) ends)
]

-- If the target is given another text at which the body still stops, it stays the target.
pub target-changed :
    (body : Body) (m m' : Machine) (p : FilePath) (s t : Text) (ps : List FilePath)
    → ((q : FilePath) → try_read q m' ≡ (if eqb q p then some t else try_read q m))
    → is_pass (body p t) ≡ false
    → target body m ps ≡ some (p, s)
    → target body m' ps ≡ some (p, t)
unfolding target
target-changed body m m' p s t [] reads ends h = cc
target-changed body m m' p s t (q ∷ ps) reads ends h = elim (Bool-cases (eqb q p)) [
  | inl here ↦ let path : q ≡ p = eqb_sound q p here in rw (reads q, here, path, ends)
  | inr away ↦
      rw (reads q, away)
        (elim (Bool-cases (passed body q (try_read q m))) [
          | inl skip ↦
              take_or-passed body q (try_read q m) _ skip
              ∙ target-changed body m m' p s t ps reads ends
                  (sym (take_or-passed body q (try_read q m) _ skip) ∙ h)
          | inr stop ↦
              let (u, read, _, e) = take_or-chosen body q (try_read q m) (target body m ps) stop in
              let same : ◌≡◌ {A = FilePath × Text} (q, u) (p, s) = some-injective _ _ (sym e ∙ h) in
              let here : eqb q p ≡ true = rw (ap (λ x. x.0) same) (eqb_refl p) in cc
        ])
]

-- The target is the same again if every listed file reads the same.
pub target-same :
    (body : Body) (m m' : Machine) (ps : List FilePath)
    → All (λ q. try_read q m' ≡ try_read q m) ps
    → target body m' ps ≡ target body m ps
unfolding target
target-same body m m' [] _ = refl
target-same body m m' (q ∷ ps) (read, reads) = rw (read, target-same body m m' ps reads)

-- What the next read of a file finds after a write.
pub try_read-write_raw :
    (p q : FilePath) (s : Text) (m : Machine)
    → NoCr s
    → try_read q (write_raw p s m).1 ≡ (if eqb q p then some s else try_read q m)
unfolding try_read write_raw
try_read-write_raw p q s m h =
    rw find_file-put_file
      (elim (Bool-cases (eqb q p)) [ inl e ↦ rw (e, universal_newlines_id s h) | inr e ↦ rw e ])

pub try_read-write_text :
    (p q : FilePath) (s : Text) (m : Machine)
    → NoCr s
    → try_read q (write_text p s m).1 ≡ (if eqb q p then some s else try_read q m)
unfolding try_read write_text
try_read-write_text p q s m h = rw find_file-put_file (elim (Bool-cases (eqb q p)) [
  | inl e ↦ rw (e, universal_newlines-to_linesep m.windows s h)
  | inr e ↦ rw e
])

readable-NoCr : (f : Option File) {s : Text} → readable f ≡ some s → NoCr s
readable-NoCr none h = cc
readable-NoCr (some (File.text t)) {s} h =
    let e : universal_newlines t ≡ s = some-injective _ _ h in rw (← e) (universal_newlines-NoCr t)
readable-NoCr (some (File.binary b)) h = cc
readable-NoCr (some File.directory) h = cc

pub try_read-NoCr : (p : FilePath) (m : Machine) {s : Text} → try_read p m ≡ some s → NoCr s
unfolding try_read
try_read-NoCr p m h = readable-NoCr (find_file p m.files) h

-- A file that was read is in the tree, so a write to it lists the same paths.
pub try_read-present :
    (p : FilePath) (m : Machine) {s : Text}
    → try_read p m ≡ some s
    → (f : File) × (find_file p m.files ≡ some f)
unfolding try_read
try_read-present p m {s} h = elim (Option-cases (find_file p m.files)) [
  | inl gone ↦ let e : readable none ≡ some s = rw gone at h in cc
  | inr found ↦ found
]

-- The target is one of the listed files.
pub target-listed {ℓ} :
    (P : FilePath → Type ℓ) (body : Body) (m : Machine) (ps : List FilePath) {p : FilePath}
    {s : Text}
    → All P ps
    → target body m ps ≡ some (p, s)
    → P p
unfolding target
target-listed P body m [] listed h = cc
target-listed P body m (q ∷ ps) {p} {s} (hq, listed) h =
    elim (Bool-cases (passed body q (try_read q m))) [
      | inl skip ↦
          target-listed P body m ps listed (sym (take_or-passed body q (try_read q m) _ skip) ∙ h)
      | inr stop ↦
          let (t, read, _, e) = take_or-chosen body q (try_read q m) (target body m ps) stop in
          let same : ◌≡◌ {A = FilePath × Text} (q, t) (p, s) = some-injective _ _ (sym e ∙ h) in
          subst P (ap (λ x. x.0) same) hq
    ]
