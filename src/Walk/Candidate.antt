-- ===== src/Walk/Candidate.antt =====
-- The search that several scripts make: the first file of a walk that can be read and holds all
-- needles.
use switch_ldn_zt.Base.{
  Bool, true, false, ◌&&◌, Option, none, some, List, [], ◌∷◌, ◌≡◌, refl, inl, inr, All, arith,
  Bool-cases, if◌then◌else◌,
}
use switch_ldn_zt.Text.{Text, contains}
use switch_ldn_zt.Disk.{FilePath}
use switch_ldn_zt.Script.{Machine, try_read}
use switch_ldn_zt.Script.Gate.{if_read}
use switch_ldn_zt.Walk.Reaches.{any_reads}

abbrev pub has_all : List Text → Text → Bool
has_all [] text = true
has_all (needle ∷ needles) text = contains needle text && has_all needles text

-- the loop over the candidates
unfoldable pub find_candidate? : List Text → Machine → List FilePath → Option FilePath
find_candidate? needles m [] = none
find_candidate? needles m (p ∷ ps) =
    let rest = find_candidate? needles m ps in
    if if_read (try_read p m) (has_all needles) then some p else rest

pub candidate-listed :
    (P : FilePath → Type 0) (needles : List Text) (m : Machine) (ps : List FilePath) {p : FilePath}
    → All P ps
    → find_candidate? needles m ps ≡ some p
    → P p
unfolding find_candidate?
candidate-listed P needles m [] _ h = absurd (cc h)
candidate-listed P needles m (q ∷ ps) {p} (pq, all) h =
    elim (Bool-cases (if_read (try_read q m) (has_all needles))) [
      | inl hit ↦ let same : q ≡ p = ground arith in rw (← same) pq
      | inr miss ↦ candidate-listed P needles m ps all (ground arith)
    ]

pub find_candidate?-none :
    (needles : List Text) (m : Machine) (ps : List FilePath)
    → any_reads (has_all needles) m ps ≡ false
    → find_candidate? needles m ps ≡ none
unfolding find_candidate? any_reads
find_candidate?-none needles m [] h = refl
find_candidate?-none needles m (p ∷ ps) h = ground (arith, find_candidate?-none needles m ps)
