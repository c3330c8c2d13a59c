-- ===== src/Disk/Laws.antt =====
-- What a read finds after a write, and that a write to a known file lists the same paths.
use switch_ldn_zt.Base.{
  true, ◌||◌, none, some, [], ◌∷◌, ◌≡◌, refl, arith, All, Bool-cases, inl, inr, if◌then◌else◌,
}
use switch_ldn_zt.Text.{Text, eqb}
use switch_ldn_zt.Text.Occurs.{eqb_sound, eqb_refl}
use switch_ldn_zt.Disk.{
  File, FilePath, Files, find_file, put_file, remove_file, matches, ends_with, rglob,
}

pub find_file-put_file :
    (p q : FilePath) (f : File) (fs : Files)
    → find_file p (put_file q f fs) ≡ (if eqb p q then some f else find_file p fs)
unfolding find_file put_file
find_file-put_file p q f [] = refl
find_file-put_file p q f ((r, g) ∷ fs) = ground (
  arith,
  find_file-put_file p q f fs,
  eqb_sound q r,
  eqb_sound p r,
  eqb_sound p q,
  eqb_refl q,
  eqb_refl p,
)

pub find_file-remove_file :
    (p q : FilePath) (fs : Files)
    → find_file p (remove_file q fs) ≡ (if eqb p q then none else find_file p fs)
unfolding find_file remove_file
find_file-remove_file p q [] = ground arith
find_file-remove_file p q ((r, g) ∷ fs) = ground (
  arith,
  find_file-remove_file p q fs,
  eqb_sound q r,
  eqb_sound p r,
  eqb_sound p q,
  eqb_refl q,
  eqb_refl p,
)

pub rglob-put_file :
    (root name : Text) (p : FilePath) (f g : File) (fs : Files)
    → find_file p fs ≡ some g
    → rglob root name (put_file p f fs) ≡ rglob root name fs
unfolding rglob put_file find_file
rglob-put_file root name p f g [] h = cc
rglob-put_file root name p f g ((q, k) ∷ fs) h = ground (arith, rglob-put_file root name p f g fs)

-- Every path that a walk lists matches.
pub rglob-matches :
    (root name : Text) (fs : Files) → All (λ p. matches root name p ≡ true) (rglob root name fs)
unfolding rglob
rglob-matches root name [] = tt
rglob-matches root name ((p, f) ∷ fs) = elim (Bool-cases (matches root name p)) [
  | inl hit ↦ rw hit (hit, rglob-matches root name fs)
  | inr miss ↦ rw miss (rglob-matches root name fs)
]

-- Of two suffixes of one text the shorter is a suffix of the longer.
pub ends_with_linear :
    (a b q : Text)
    → ends_with a q ≡ true
    → ends_with b q ≡ true
    → (ends_with a b || ends_with b a) ≡ true
unfolding ends_with
ends_with_linear a b [] ha hb =
    let ea = eqb_sound a [] ha in let eb = eqb_sound b [] hb in rw (ea, eb) (unfold eqb in refl)
ends_with_linear a b (c ∷ q) ha hb = elim (Bool-cases (eqb a (c ∷ q))) [
  | inl e ↦ rw (eqb_sound a (c ∷ q) e) (ground arith)
  | inr ne ↦ elim (Bool-cases (eqb b (c ∷ q))) [
    | inl e ↦ rw (eqb_sound b (c ∷ q) e) (ground arith)
    | inr ne' ↦ ends_with_linear a b q (ground arith) (ground arith)
  ]
]
