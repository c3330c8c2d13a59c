-- ===== src/IncomingAuth/Edits.antt =====
-- What the edits of the two files make, if they make a text.
use mathlib.Core.Path.{subst}
use switch_ldn_zt.Base.{
  String, Bool, true, ◌&&◌, ◌||◌, ◌⊎◌, List, [], ◌∷◌, ◌++◌, ◌≡◌, refl, inl, inr, arith, Bool-cases,
  Option-cases, if◌then◌else◌,
}
use switch_ldn_zt.Text.{Text, codes, rows, contains, starts_with, replace_first}
use switch_ldn_zt.Text.Occurs.{contains_trans, contains-replace_first}
use switch_ldn_zt.Text.Newlines.{NoCr, NoCr-append, replace_first-NoCr}
use switch_ldn_zt.Disk.{FilePath}
use switch_ldn_zt.Script.{is_some}
use switch_ldn_zt.Script.Edits.{Edited, then_edit, never, unless, subn_or, replace_at}
use switch_ldn_zt.Script.Edits.Laws.{
  is_edited, Makes, Makes-refused, Makes-edited, Makes-then_edit, Makes-unless, Makes-subn_or,
  Makes-replace_at,
}
use switch_ldn_zt.Regex.{Piece, lit, any, short_run, sp, find_match?, subn_by}
use switch_ldn_zt.Regex.Pieces.{Matches-contains}
use switch_ldn_zt.Regex.Searching.{Subn, Subn-contains}
use switch_ldn_zt.IncomingAuth.{
  add_stdio, trace_block, trace_reject, edit_incoming, trace_receive, edit_peer,
}
use switch_ldn_zt.IncomingAuth.Texts.{
  stdio_line, trace_hpp, metrics_hpp, reject_mark, dearmor_pat, failure_call, reject_trace,
  received_mark, receive_anchor, receive_trace,
}

clean_texts :
    NoCr trace_hpp
    × NoCr metrics_hpp
    × NoCr failure_call
    × NoCr reject_trace
    × NoCr receive_trace
    × NoCr (codes "#include <stdio.h>\n")
unfolding codes rows
clean_texts = omega arith

-- The text with the include: as it is if it has one, and else behind the marker.
abbrev pub with_stdio : Text → Text → Text
with_stdio marker s =
    if contains stdio_line s
    then s
    else replace_first marker (marker ++ codes "#include <stdio.h>\n") s

add_stdio-Makes :
    (incoming : FilePath) (marker s : Text)
    → NoCr marker
    → NoCr s
    → Makes (λ t. t ≡ with_stdio marker s) (add_stdio incoming marker s)
unfolding add_stdio
add_stdio-Makes incoming marker s hm clean =
    let (_, _, _, _, _, line) = clean_texts in
    elim (Bool-cases (contains stdio_line s)) [
      | inl there ↦ rw there (Makes-edited s clean refl)
      | inr gone ↦ rw gone (elim (Bool-cases (contains marker s)) [
        | inr miss ↦ rw miss (Makes-refused _)
        | inl hit ↦ rw hit (
            Makes-edited _ (replace_first-NoCr marker _ s (NoCr-append marker _ hm line) clean)
              refl)
      ])
    ]

trace_block-NoCr : (w : Text) → NoCr w → NoCr (trace_block w)
unfolding trace_block
trace_block-NoCr w clean =
    let (_, _, call, trace, _, _) = clean_texts in
    replace_first-NoCr failure_call _ w (NoCr-append reject_trace _ trace call) clean

-- the call of the failure as the pattern spells it
abbrev whole_call : String
whole_call =
    "RR->t->incomingPacketMessageAuthenticationFailure(tPtr,_path,packetId(),sourceAddress,hops(),\"invalid MAC\");"

call-whole : contains failure_call (codes whole_call) ≡ true
unfolding contains starts_with codes
call-whole = refl

-- What becomes of an `IncomingPacket.cpp`, after the include: it is left alone if it has the mark, and
-- else the first match of the block is replaced, and the trace stands before the call of the failure.
abbrev pub GetsReject : Text → Text → Type 0
GetsReject u t =
    ((contains reject_mark u ≡ true) × (t ≡ u))
    ⊎ (Subn dearmor_pat trace_block u (t, 1) × (contains (reject_trace ++ failure_call) t ≡ true))

trace_block-traced :
    (w : Text)
    → contains (codes whole_call) w ≡ true
    → contains (reject_trace ++ failure_call) (trace_block w) ≡ true
unfolding trace_block
trace_block-traced w h =
    contains-replace_first failure_call (reject_trace ++ failure_call) w
      (contains_trans failure_call (codes whole_call) w call-whole h)

trace_reject-Makes : (u : Text) → NoCr u → Makes (GetsReject u) (trace_reject u)
unfolding trace_reject
trace_reject-Makes u clean =
    Makes-unless _ _ u clean (λ there. inl (there, refl))
      (Makes-subn_or _ trace_block never _ u clean trace_block-NoCr
        (λ out found hit. inr (
          subst (λ n. Subn dearmor_pat trace_block u (out.0, n)) hit found,
          Subn-contains (reject_trace ++ failure_call) found hit
              (λ b w q m. trace_block-traced w (Matches-contains before_call whole_call _ m)),
        ))
        (λ bad. absurd (cc bad)))
  where
    before_call : List Piece
    before_call =
        lit "if"
        ∷ sp
        ∷ lit "("
        ∷ sp
        ∷ lit "!"
        ∷ sp
        ∷ lit "dearmor(peer->key(),"
        ∷ sp
        ∷ lit "peer->aesKeys())"
        ∷ sp
        ∷ lit ")"
        ∷ sp
        ∷ lit "{"
        ∷ short_run any
        ∷ []

pub edit_incoming-Makes :
    (p : FilePath) (s : Text)
    → NoCr s
    → Makes (GetsReject (with_stdio trace_hpp s)) (edit_incoming p s)
unfolding edit_incoming
edit_incoming-Makes p s clean =
    Makes-then_edit {Q = λ u. u ≡ with_stdio trace_hpp s} _ _
      (add_stdio-Makes p trace_hpp s clean_texts.0 clean)
      λ u clean_u same.
        subst (λ x. Makes (GetsReject x) (trace_reject u)) same (trace_reject-Makes u clean_u)

-- What becomes of a `Peer.cpp`, after the include: it is left alone if it has the mark, and else the
-- first place of the anchor is replaced.
abbrev pub GetsReceive : Text → Text → Type 0
GetsReceive u t =
    ((contains received_mark u ≡ true) × (t ≡ u))
    ⊎ ((contains receive_anchor u ≡ true) × (t ≡ replace_first receive_anchor receive_trace u))

trace_receive-Makes : (u : Text) → NoCr u → Makes (GetsReceive u) (trace_receive u)
unfolding trace_receive
trace_receive-Makes u clean =
    let (_, _, _, _, trace, _) = clean_texts in
    Makes-unless _ _ u clean (λ there. inl (there, refl))
      (Makes-replace_at _ _ never _ u clean trace (λ hit. inr (hit, refl)) (λ bad. absurd (cc bad)))

pub edit_peer-Makes :
    (incoming : FilePath) (s : Text)
    → NoCr s
    → Makes (GetsReceive (with_stdio metrics_hpp s)) (edit_peer incoming s)
unfolding edit_peer
edit_peer-Makes incoming s clean =
    let (_, metrics, _, _, _, _) = clean_texts in
    Makes-then_edit {Q = λ u. u ≡ with_stdio metrics_hpp s} _ _
      (add_stdio-Makes incoming metrics_hpp s metrics clean)
      λ u clean_u same.
        subst (λ x. Makes (GetsReceive x) (trace_receive u)) same (trace_receive-Makes u clean_u)

-- The include is there, or there is a place for it.
abbrev pub takes_stdio : Text → Text → Bool
takes_stdio marker s = contains stdio_line s || contains marker s

-- With its include, an `IncomingPacket.cpp` has the mark or the block.
abbrev pub takes_reject : Text → Bool
takes_reject s =
    takes_stdio trace_hpp s
    && (contains reject_mark (with_stdio trace_hpp s)
        || is_some (find_match? dearmor_pat (with_stdio trace_hpp s)))

-- With its include, a `Peer.cpp` has the mark or the anchor.
abbrev pub takes_receive : Text → Bool
takes_receive s =
    takes_stdio metrics_hpp s
    && (contains received_mark (with_stdio metrics_hpp s)
        || contains receive_anchor (with_stdio metrics_hpp s))

add_stdio-edits :
    (incoming : FilePath) (marker s : Text) (f : Text → Edited) {b : Bool}
    → is_edited (f (with_stdio marker s)) ≡ b
    → is_edited (then_edit (add_stdio incoming marker s) f) ≡ (takes_stdio marker s && b)
unfolding add_stdio
add_stdio-edits incoming marker s f h = elim (Bool-cases (contains stdio_line s)) [
  | inl there ↦ let e = rw there at h in rw there e
  | inr gone ↦ elim (Bool-cases (contains marker s)) [
    | inr miss ↦ rw (gone, miss) refl
    | inl hit ↦ let e = rw gone at h in rw (gone, hit) e
  ]
]

trace_reject-edits :
    (u : Text)
    → is_edited (trace_reject u) ≡ (contains reject_mark u || is_some (find_match? dearmor_pat u))
unfolding trace_reject unless subn_or subn_by
trace_reject-edits u = elim (Bool-cases (contains reject_mark u)) [
  | inl there ↦ rw there refl
  | inr gone ↦ rw gone (elim (Option-cases (find_match? dearmor_pat u)) [
    | inl miss ↦ rw miss refl
    | inr (found, hit) ↦ rw hit refl
  ])
]

trace_receive-edits :
    (u : Text)
    → is_edited (trace_receive u) ≡ (contains received_mark u || contains receive_anchor u)
unfolding trace_receive unless replace_at
trace_receive-edits u = elim (Bool-cases (contains received_mark u)) [
  | inl there ↦ rw there refl
  | inr gone ↦ rw gone (elim (Bool-cases (contains receive_anchor u)) [
    | inl hit ↦ rw hit refl
    | inr miss ↦ rw miss refl
  ])
]

pub edit_incoming-edits : (p : FilePath) (s : Text) → is_edited (edit_incoming p s) ≡ takes_reject s
unfolding edit_incoming
edit_incoming-edits p s = add_stdio-edits p trace_hpp s trace_reject (trace_reject-edits _)

pub edit_peer-edits : (p : FilePath) (s : Text) → is_edited (edit_peer p s) ≡ takes_receive s
unfolding edit_peer
edit_peer-edits p s = add_stdio-edits p metrics_hpp s trace_receive (trace_receive-edits _)
