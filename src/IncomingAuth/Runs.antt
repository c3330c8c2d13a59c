-- ===== src/IncomingAuth/Runs.antt =====
-- Runs of the script: what it has made of the two files when it returns, when it returns, and what
-- it leaves alone.
use switch_ldn_zt.Base.{
  Bool, true, false, ◌&&◌, Option, none, some, List, [], ◌∷◌, ◌++◌, ◌≡◌, refl, ◌∙◌, inl, inr, arith,
  All, Bool-cases,
}
use switch_ldn_zt.Text.{Text, codes, eqb}
use switch_ldn_zt.Text.Occurs.{eqb_sound, eqb_refl}
use switch_ldn_zt.Disk.{FilePath, find_file, matches, rglob, ends_with}
use switch_ldn_zt.Disk.Laws.{rglob-matches, ends_with_linear}
use switch_ldn_zt.Script.{Machine, Script, raise, ◌>>=◌, ◌>>◌, print, try_read, list_files, file}
use switch_ldn_zt.Script.Frame.{Leaves, Leaves-reads, leaves_rules}
use switch_ldn_zt.Script.Gate.{if_read}
use switch_ldn_zt.Script.Returns.{returns, returns->>=}
use switch_ldn_zt.Script.Edits.{edit_file}
use switch_ldn_zt.Script.Revises.{Revised}
use switch_ldn_zt.Script.Edits.Laws.{Leaves-edit_file, returns-edit_file}
use switch_ldn_zt.IncomingAuth.{first_path, edit_incoming, edit_peer, trace_files, incoming_auth}
use switch_ldn_zt.IncomingAuth.Texts.{trace_hpp, metrics_hpp}
use switch_ldn_zt.IncomingAuth.Edits.{
  with_stdio, GetsReject, GetsReceive, takes_reject, takes_receive, edit_incoming-edits,
  edit_peer-edits,
}

first_path-All :
    (P : FilePath → Type 0) (ps : List FilePath) {p : FilePath}
    → All P ps
    → first_path ps ≡ some p
    → P p
first_path-All P [] _ h = cc
first_path-All P (q ∷ ps) {p} (pq, _) h = let same : q ≡ p = cc in rw (← same) pq

abbrev pub libzt : FilePath
libzt = codes "libzt"

abbrev pub incoming_name : Text
incoming_name = codes "IncomingPacket.cpp"

abbrev pub peer_name : Text
peer_name = codes "Peer.cpp"

-- the file that the script takes
abbrev pub taken : Text → Machine → Option FilePath
taken name m = first_path (rglob libzt name m.files)

taken-matches :
    (name : Text) (m : Machine) {p : FilePath} → taken name m ≡ some p → matches libzt name p ≡ true
taken-matches name m h =
    first_path-All (λ p. matches libzt name p ≡ true) _ (rglob-matches libzt name m.files) h

names_clash :
    (q : FilePath)
    → ends_with (codes "/" ++ incoming_name) q ≡ true
    → ends_with (codes "/" ++ peer_name) q ≡ true
    → ⊥
unfolding ends_with codes
names_clash q a b =
    let bad : false ≡ true =
      ends_with_linear (codes "/" ++ peer_name) (codes "/" ++ incoming_name) q b a in
    cc

names_differ :
    (p q : FilePath)
    → matches libzt incoming_name p ≡ true
    → matches libzt peer_name q ≡ true
    → eqb p q ≡ false
names_differ p q hp hq = elim (Bool-cases (eqb p q)) [
  | inr other ↦ other
  | inl same ↦
      let there : matches libzt peer_name p ≡ true = rw (eqb_sound p q same) hq in
      absurd (names_clash p (ground arith) (ground arith))
]

differ_back : (p q : FilePath) → eqb p q ≡ false → eqb q p ≡ false
differ_back p q apart = elim (Bool-cases (eqb q p)) [
  | inr away ↦ away
  | inl same ↦
      let bad : eqb p p ≡ false = rw (eqb_sound q p same) at apart in
      absurd (ground (arith, eqb_refl p))
]

-- the ends of the script, after both files and after the first
abbrev told : FilePath → FilePath → Script Unit
told p q = do
  print "IncomingPacket trace applied: {incoming}" (file p ∷ [])
  print "Peer receive trace applied: {peer_cpp}" (file q ∷ [])

abbrev second : FilePath → FilePath → Script Unit
second p q = edit_file q (edit_peer p) >> told p q

-- What the script leaves behind, for the two files it takes.
pub record IsTraced (m m' : Machine) : Type 0 where
  pub incoming : FilePath
  pub peer : FilePath
  pub takes_incoming : taken incoming_name m ≡ some incoming
  pub takes_peer : taken peer_name m ≡ some peer
  pub rejects : Revised incoming (λ s. GetsReject (with_stdio trace_hpp s)) m m'
  pub receives : Revised peer (λ s. GetsReceive (with_stdio metrics_hpp s)) m m'

Leaves-trace_files :
    {f : FilePath} (p q : Option FilePath)
    → ((x : FilePath) → p ≡ some x → eqb f x ≡ false)
    → ((x : FilePath) → q ≡ some x → eqb f x ≡ false)
    → Leaves f (trace_files p q)
unfolding trace_files
Leaves-trace_files none q hp hq = search leaves_rules
Leaves-trace_files (some p) none hp hq = search leaves_rules
Leaves-trace_files {f} (some p) (some q) hp hq =
    let no_p : eqb f p ≡ false = hp p refl in
    let no_q : eqb f q ≡ false = hq q refl in search (Leaves-edit_file, leaves_rules)

other_name :
    (name : Text) (m : Machine) (q p : FilePath)
    → matches libzt name q ≡ false
    → taken name m ≡ some p
    → eqb q p ≡ false
other_name name m q p away taken_it = elim (Bool-cases (eqb q p)) [
  | inr other ↦ other
  | inl same ↦
      let there : matches libzt name p ≡ false = rw (eqb_sound q p same) at away in
      absurd (ground (arith, taken-matches name m taken_it))
]

-- However the script ends, it has changed no file but an `IncomingPacket.cpp` and a `Peer.cpp` below
-- `libzt`.
pub incoming_auth_frame :
    (m : Machine) (q : FilePath)
    → matches libzt incoming_name q ≡ false
    → matches libzt peer_name q ≡ false
    → find_file q (incoming_auth m).1.files ≡ find_file q m.files
unfolding incoming_auth list_files ◌>>=◌
incoming_auth_frame m q no_incoming no_peer =
    (Leaves-trace_files (taken incoming_name m) (taken peer_name m)
        (λ x. other_name incoming_name m q x no_incoming)
        (λ x. other_name peer_name m q x no_peer)).same
      m

abbrev pub can_trace : Option FilePath → Option FilePath → Machine → Bool
can_trace none q m = false
can_trace (some p) none m = false
can_trace (some p) (some q) m =
    if_read (try_read p m) takes_reject && if_read (try_read q m) takes_receive

trace_files-returns :
    (p q : Option FilePath) (m : Machine)
    → taken incoming_name m ≡ p
    → taken peer_name m ≡ q
    → returns (trace_files p q) m ≡ can_trace p q m
unfolding trace_files raise print ◌>>=◌
trace_files-returns none q m ep eq = refl
trace_files-returns (some p) none m ep eq = refl
trace_files-returns (some p) (some q) m ep eq =
    let apart =
      names_differ p q (taken-matches incoming_name m ep) (taken-matches peer_name m eq) in
    let other = differ_back p q apart in
    let first = edit_file p (edit_incoming p) in
    let after : returns (second p q) (first m).1 ≡ if_read (try_read q m) takes_receive =
      returns->>= (edit_file q (edit_peer p)) (λ _. told p q) (first m).1 {c = true} (λ _. refl)
      ∙ rw
          (
            returns-edit_file q (edit_peer p) (first m).1 takes_receive (edit_peer-edits p),
            Leaves-reads {q = q} (Leaves-edit_file p (edit_incoming p) other) m,
          )
          (ground arith) in
    returns->>= first (λ _. second p q) m (λ _. after)
    ∙ rw (returns-edit_file p (edit_incoming p) m takes_reject (edit_incoming-edits p))

-- The script returns exactly if there is an `IncomingPacket.cpp` and a `Peer.cpp` below `libzt`, and
-- the first of each can be read and patched: it holds the include or a place for it, and, with the
-- include, its mark or what the trace goes into: the block of the rejection in the former, the anchor
-- in the latter.
pub incoming_auth_decides :
    (m : Machine)
    → returns incoming_auth m ≡ can_trace (taken incoming_name m) (taken peer_name m) m
unfolding incoming_auth list_files ◌>>=◌
incoming_auth_decides m =
    trace_files-returns (taken incoming_name m) (taken peer_name m) m refl refl
