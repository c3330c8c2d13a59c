-- ===== src/Regex/Pieces.antt =====
-- What a match of a pattern is made of: its parts in order, and each literal in full.
use switch_ldn_zt.Base.{
  String, true, Option, List, [], ◌∷◌, ◌++◌, ◌≡◌, refl, sym, ap, ◌∙◌, arith, append_assoc, ℕ,
}
use switch_ldn_zt.Text.{Text, codes, contains}
use switch_ldn_zt.Text.Occurs.{contains-append}
use switch_ldn_zt.Regex.{
  Class, accepts, Regex, Piece, lit, run, some_run, short_run, start_of_line, end_of_line, edge_of,
  literal, before, onto,
}
use switch_ldn_zt.Regex.Matching.{
  Matches, one, enough, more, few_enough, few_more, line_start, line_end, boundary,
}

-- A part of the match for what stands first, and the rest.
pub record Parts (r : Regex) (w s : Text) : Type 0 where
  pub before : Option ℕ
  pub head : Text
  pub tail : Text
  pub splits : w ≡ head ++ tail
  pub rest : Matches r before tail s

Parts-cons : {r : Regex} {x : ℕ} {w s : Text} → Parts r w s → Parts r (x ∷ w) s
Parts-cons {x} p = record {
  before = p.before;
  head = x ∷ p.head;
  tail = p.tail;
  splits = ap (λ t. x ∷ t) p.splits;
  rest = p.rest;
}

Parts-here : {r : Regex} {b : Option ℕ} {w s : Text} → Matches r b w s → Parts r w s
Parts-here {b} {w} m = record { before = b; head = []; tail = w; splits = refl; rest = m }

-- A literal is matched by itself.
literal-Parts :
    (l : Text) {r : Regex} {b : Option ℕ} {w s : Text}
    → Matches (literal l r) b w s
    → (p : Parts r w s) × (p.head ≡ l)
unfolding accepts Parts-here Parts-cons
literal-Parts [] m = (Parts-here m, refl)
literal-Parts (c ∷ l) (one {x} hit m) =
    let (p, e) = literal-Parts l m in
    let same : x ≡ c = ground arith in (Parts-cons p, λ i. same i ∷ e i)

many-Parts :
    {c : Class} {r : Regex} {b : Option ℕ} {w s : Text}
    → Matches (Regex.many c r) b w s
    → Parts r w s
many-Parts (enough m) = Parts-here m
many-Parts (more hit m) = Parts-cons (many-Parts m)

few-Parts :
    {c : Class} {r : Regex} {b : Option ℕ} {w s : Text}
    → Matches (Regex.few c r) b w s
    → Parts r w s
few-Parts (few_enough m) = Parts-here m
few-Parts (few_more hit m) = Parts-cons (few-Parts m)

before-Parts :
    (p : Piece) {r : Regex} {b : Option ℕ} {w s : Text} → Matches (before p r) b w s → Parts r w s
before-Parts (lit l) m = (literal-Parts (codes l) m).0
before-Parts (run c) m = many-Parts m
before-Parts (some_run c) (one hit m) = Parts-cons (many-Parts m)
before-Parts (short_run c) m = few-Parts m
before-Parts start_of_line (line_start hit m) = Parts-here m
before-Parts end_of_line (line_end hit m) = Parts-here m
before-Parts (edge_of word) (boundary hit m) = Parts-here m

onto-Parts :
    (ps : List Piece) {r : Regex} {b : Option ℕ} {w s : Text}
    → Matches (onto ps r) b w s
    → Parts r w s
onto-Parts [] m = Parts-here m
onto-Parts (p ∷ ps) m =
    let first = before-Parts p m in
    let second = onto-Parts ps first.rest in
    record {
      before = second.before;
      head = first.head ++ second.head;
      tail = second.tail;
      splits =
          first.splits ∙ rw second.splits (sym (append_assoc first.head second.head second.tail));
      rest = second.rest;
    }

-- A match of a pattern with a literal in it contains the literal.
pub Matches-contains :
    (ps : List Piece) (l : String) (r : Regex) {b : Option ℕ} {w s : Text}
    → Matches (onto ps (before (lit l) r)) b w s
    → contains (codes l) w ≡ true
Matches-contains ps l r m =
    let outer = onto-Parts ps {r = before (lit l) r} m in
    let (inner, same) = literal-Parts (codes l) {r = r} outer.rest in
    rw (outer.splits, inner.splits, same) (contains-append outer.head (codes l) inner.tail)
