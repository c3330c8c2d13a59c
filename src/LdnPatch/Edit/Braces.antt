-- ===== src/LdnPatch/Edit/Braces.antt =====
-- The brace scan against a grammar of balanced text.
use mathlib.Core.Option.{some-injective}
use switch_ldn_zt.Base.{
  ℕ, zero, suc, ◌+◌, some, [], ◌∷◌, ◌++◌, ◌≡◌, ◌≢◌, refl, sym, ap, ◌∙◌, inl, inr, arith,
  append_assoc, length, length-append, Bool-cases, ◌==◌, ==_iff,
}
use switch_ldn_zt.Text.{Text}
use switch_ldn_zt.LdnPatch.Edit.{close_brace}

abbrev pub opening : ℕ
opening = b'{'

abbrev pub closing : ℕ
closing = b'}'

-- Every brace has its partner.
pub data Balanced : Text → Type 0 where
  nil : Balanced []
  plain : (c : ℕ) {s : Text} → c ≢ opening → c ≢ closing → Balanced s → Balanced (c ∷ s)
  group :
      {inner rest t : Text}
      → Balanced inner
      → Balanced rest
      → t ≡ opening ∷ (inner ++ closing ∷ rest)
      → Balanced t

close_brace-plain :
    (d i c : ℕ) (s : Text)
    → c ≢ opening
    → c ≢ closing
    → close_brace d i (c ∷ s) ≡ close_brace d (i + 1) s
unfolding close_brace
close_brace-plain d i c s no_open no_close = ground arith

close_brace-opening :
    (d i : ℕ) (s : Text) → close_brace d i (opening ∷ s) ≡ close_brace (suc d) (i + 1) s
unfolding close_brace
close_brace-opening d i s = ground arith

close_brace-closing :
    (d i : ℕ) (s : Text) → close_brace (suc (suc d)) i (closing ∷ s) ≡ close_brace (suc d) (i + 1) s
unfolding close_brace
close_brace-closing d i s = ground arith

close_brace-last : (i : ℕ) (s : Text) → close_brace 1 i (closing ∷ s) ≡ some (i + 1)
unfolding close_brace
close_brace-last i s = refl

-- A balanced stretch leaves the depth as it was.
pub close_brace-Balanced :
    (b : Text)
    → Balanced b
    → (d i : ℕ) (rest : Text)
    → close_brace (suc d) i (b ++ rest) ≡ close_brace (suc d) (i + length b) rest
close_brace-Balanced b nil d i rest = shift (omega arith)
  where
    shift : i ≡ i + 0 → close_brace (suc d) i rest ≡ close_brace (suc d) (i + 0) rest
    shift e = ap (λ k. close_brace (suc d) k rest) e
close_brace-Balanced b (plain c {s} no_open no_close bal) d i rest =
    close_brace-plain (suc d) i c (s ++ rest) no_open no_close
    ∙ close_brace-Balanced s bal d (i + 1) rest
    ∙ ap (λ k. close_brace (suc d) k rest) (omega arith)
close_brace-Balanced b (group {inner} {rest = after} bi ba e) d i rest =
    let size : length b ≡ suc (length inner + suc (length after)) =
      ap length e ∙ ap suc (length-append inner (closing ∷ after)) in
    let inside = i + 1 + length inner in
    let whole : b ++ rest ≡ opening ∷ (inner ++ closing ∷ (after ++ rest)) =
      ap (λ t. t ++ rest) e ∙ ap (λ t. opening ∷ t) (append_assoc inner (closing ∷ after) rest) in
    ap (close_brace (suc d) i) whole
    ∙ close_brace-opening (suc d) i (inner ++ closing ∷ (after ++ rest))
    ∙ close_brace-Balanced inner bi (suc d) (i + 1) (closing ∷ (after ++ rest))
    ∙ close_brace-closing d inside (after ++ rest)
    ∙ close_brace-Balanced after ba d (inside + 1) rest
    ∙ ap (λ k. close_brace (suc d) k rest) (omega arith)

-- A braced balanced stretch is closed by its own brace.
pub close_brace-braced :
    (b : Text)
    → Balanced b
    → (i : ℕ) (post : Text)
    → close_brace 0 i (opening ∷ (b ++ closing ∷ post)) ≡ some (i + (length b + 2))
close_brace-braced b bal i post =
    close_brace-opening 0 i (b ++ closing ∷ post)
    ∙ close_brace-Balanced b bal 0 (i + 1) (closing ∷ post)
    ∙ close_brace-last (i + 1 + length b) post
    ∙ ap some (omega arith)

-- `t` ends with the brace that closes the outermost of `d + 1` open groups.
abbrev Closes : ℕ → Text → Type 0
Closes zero t = (b : Text) × Balanced b × (t ≡ b ++ closing ∷ [])
Closes (suc d) t = (b : Text) × (t' : Text) × Balanced b × (t ≡ b ++ closing ∷ t') × Closes d t'

Closes-plain : (d c : ℕ) (t : Text) → c ≢ opening → c ≢ closing → Closes d t → Closes d (c ∷ t)
Closes-plain zero c t no_open no_close (b, bal, e) =
    (c ∷ b, plain c no_open no_close bal, ap (λ s. c ∷ s) e)
Closes-plain (suc d) c t no_open no_close (b, t', bal, e, rest) =
    (c ∷ b, t', plain c no_open no_close bal, ap (λ s. c ∷ s) e, rest)

regroup :
    (b b' x : Text) → opening ∷ (b ++ closing ∷ (b' ++ x)) ≡ (opening ∷ (b ++ closing ∷ b')) ++ x
regroup b b' x = ap (λ s. opening ∷ s) (sym (append_assoc b (closing ∷ b') x))

Closes-opening : (d : ℕ) (t : Text) → Closes (suc d) t → Closes d (opening ∷ t)
Closes-opening zero t (b, t', bal, e, (b', bal', e')) = (
  opening ∷ (b ++ closing ∷ b'),
  group bal bal' refl,
  ap (λ s. opening ∷ s) (e ∙ ap (λ s. b ++ closing ∷ s) e') ∙ regroup b b' (closing ∷ []),
)
Closes-opening (suc d) t (b, t', bal, e, (b', t2, bal', e', rest)) = (
  opening ∷ (b ++ closing ∷ b'),
  t2,
  group bal bal' refl,
  ap (λ s. opening ∷ s) (e ∙ ap (λ s. b ++ closing ∷ s) e') ∙ regroup b b' (closing ∷ t2),
  rest,
)

-- What a scan that returns has passed over.
abbrev Scanned : ℕ → ℕ → Text → ℕ → Type 0
Scanned d i s e = (t : Text) × (post : Text) × (s ≡ t ++ post) × Closes d t × (e ≡ i + length t)

Scanned-opening : (d i e : ℕ) (s : Text) → Scanned (suc d) (i + 1) s e → Scanned d i (opening ∷ s) e
Scanned-opening d i e s (t, post, cut, closes, at_end) =
    (opening ∷ t, post, ap (λ x. opening ∷ x) cut, Closes-opening d t closes, omega arith)

Scanned-plain :
    (d i e c : ℕ) (s : Text)
    → c ≢ opening
    → c ≢ closing
    → Scanned d (i + 1) s e
    → Scanned d i (c ∷ s) e
Scanned-plain d i e c s no_open no_close (t, post, cut, closes, at_end) =
    (c ∷ t, post, ap (λ x. c ∷ x) cut, Closes-plain d c t no_open no_close closes, omega arith)

-- A closing brace ends the scan, or one level of it.
Scanned-last :
    (i : ℕ) (s : Text) {e : ℕ}
    → close_brace 1 i (closing ∷ s) ≡ some e
    → Scanned 0 i (closing ∷ s) e
Scanned-last i s {e} h =
    let last : i + 1 ≡ e = some-injective _ _ (sym (close_brace-last i s) ∙ h) in
    (closing ∷ [], s, refl, ([], nil, refl), omega arith)

Scanned-closing : (d i e : ℕ) (s : Text) → Scanned d (i + 1) s e → Scanned (suc d) i (closing ∷ s) e
Scanned-closing d i e s (t, post, cut, closes, at_end) =
    (closing ∷ t, post, ap (λ x. closing ∷ x) cut, ([], t, nil, refl, closes), omega arith)

close_brace-at_closing :
    (s : Text) (d i : ℕ) {e : ℕ}
    → ((d' : ℕ) → close_brace (suc d') (i + 1) s ≡ some e → Scanned d' (i + 1) s e)
    → close_brace (suc d) i (closing ∷ s) ≡ some e
    → Scanned d i (closing ∷ s) e
close_brace-at_closing s zero i ih h = Scanned-last i s h
close_brace-at_closing s (suc d) i ih h =
    Scanned-closing d i _ s (ih d (sym (close_brace-closing d i s) ∙ h))

-- A scan that returns has closed all that was open, with every other brace paired.
close_brace_sound :
    (s : Text) (d i : ℕ) {e : ℕ} → close_brace (suc d) i s ≡ some e → Scanned d i s e
close_brace_sound [] d i h = absurd (none_found h)
  where
    none_found : {e : ℕ} → close_brace (suc d) i [] ≡ some e → ⊥
    none_found h' = unfold close_brace in cc
close_brace_sound (c ∷ s) d i {e} h = elim (Bool-cases (c == opening)) [
  | inl o ↦
      let c_is : c ≡ opening = (==_iff c opening).0 o in
      rw c_is (
        Scanned-opening d i e s (
          close_brace_sound s (suc d) (i + 1)
            (sym (close_brace-opening (suc d) i s) ∙ rw c_is at h)))
  | inr not_open ↦ elim (Bool-cases (c == closing)) [
    | inl k ↦
        let c_is : c ≡ closing = (==_iff c closing).0 k in
        rw c_is (close_brace-at_closing s d i (λ d'. close_brace_sound s d' (i + 1)) (rw c_is at h))
    | inr not_close ↦
        let no_open : c ≢ opening = ground arith in
        let no_close : c ≢ closing = ground arith in
        Scanned-plain d i e c s no_open no_close (
          close_brace_sound s d (i + 1)
            (sym (close_brace-plain (suc d) i c s no_open no_close) ∙ h))
  ]
]

-- From a brace on, the scan finds the end of a balanced group, or there is none.
pub close_brace-finds :
    (i : ℕ) (s : Text) {e : ℕ}
    → close_brace 0 i (opening ∷ s) ≡ some e
    → (b : Text) × (post : Text) × Balanced b × (s ≡ b ++ closing ∷ post) × (e ≡ i + (length b + 2))
close_brace-finds i s h =
    let (t, post, cut, (b, bal, shape), at_end) =
      close_brace_sound s 0 (i + 1) (sym (close_brace-opening 0 i s) ∙ h) in
    (
      b,
      post,
      bal,
      cut ∙ ap (λ x. x ++ post) shape ∙ append_assoc b (closing ∷ []) post,
      omega (arith, ap length shape, length-append b (closing ∷ [])),
    )
