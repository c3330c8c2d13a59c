-- ===== src/Text/Newlines.antt =====
-- Line ends, as Python's text files have them: `read_text()` turns `\r\n` and `\r` into `\n`, and
-- `write_text` turns `\n` into `os.linesep`, unless it is called with `newline=''`.
use switch_ldn_zt.Base.{
  Bool, false, ◌&&◌, [], ◌∷◌, ◌++◌, ◌≡◌, refl, ap, arith, All-append, All-append_left,
  All-append_right, ◌==◌, if◌then◌else◌, inl, inr, Bool-cases,
}
use switch_ldn_zt.Text.{Text, contains, replace_first}
use switch_ldn_zt.Text.Marked.{Lacks}
use switch_ldn_zt.Text.Occurs.{contains-Leftmost, replace_first-Leftmost, replace_first-missing}

-- What the decoder makes of a file; the flag says that the last character was a `\r`.
unfoldable pub decode_from : Bool → Text → Text
decode_from cr [] = []
decode_from cr (c ∷ s) =
    let rest = decode_from (c == b'\r') s in
    if c == b'\r' then b'\n' ∷ rest else if cr && c == b'\n' then rest else c ∷ rest

unfoldable pub universal_newlines : Text → Text
unfolding decode_from
universal_newlines s = decode_from false s

-- What the encoder makes of a text; the flag says that `os.linesep` is `\r\n`.
unfoldable pub to_linesep : Bool → Text → Text
to_linesep windows [] = []
to_linesep windows (c ∷ s) =
    let rest = to_linesep windows s in
    if windows && c == b'\n' then b'\r' ∷ b'\n' ∷ rest else c ∷ rest

abbrev pub NoCr : Text → Type 0
NoCr s = Lacks b'\r' s

decode_from-NoCr : (cr : Bool) (s : Text) → NoCr (decode_from cr s)
unfolding decode_from
decode_from-NoCr cr [] = tt
decode_from-NoCr cr (c ∷ s) = ground (arith, decode_from-NoCr (c == b'\r') s)

-- A text that was read holds no `\r`.
pub universal_newlines-NoCr : (s : Text) → NoCr (universal_newlines s)
unfolding universal_newlines
universal_newlines-NoCr s = decode_from-NoCr false s

decode_from_id : (s : Text) → NoCr s → decode_from false s ≡ s
unfolding decode_from
decode_from_id [] h = refl
decode_from_id (c ∷ s) (ne, h) = ground (arith, decode_from_id s h)

pub universal_newlines_id : (s : Text) → NoCr s → universal_newlines s ≡ s
unfolding universal_newlines
universal_newlines_id s h = decode_from_id s h

decode_from-to_linesep :
    (windows : Bool) (s : Text) → NoCr s → decode_from false (to_linesep windows s) ≡ s
unfolding decode_from to_linesep
decode_from-to_linesep windows [] h = refl
decode_from-to_linesep windows (c ∷ s) (ne, h) = ground (arith, decode_from-to_linesep windows s h)

-- On either platform a text that holds no `\r` is read back as it was written.
pub universal_newlines-to_linesep :
    (windows : Bool) (s : Text) → NoCr s → universal_newlines (to_linesep windows s) ≡ s
unfolding universal_newlines
universal_newlines-to_linesep windows s h = decode_from-to_linesep windows s h

pub to_linesep-posix : (s : Text) → to_linesep false s ≡ s
unfolding to_linesep
to_linesep-posix [] = refl
to_linesep-posix (c ∷ s) = ap (λ t. c ∷ t) (to_linesep-posix s)

pub replace_first-NoCr : (old new s : Text) → NoCr new → NoCr s → NoCr (replace_first old new s)
replace_first-NoCr old new s hn hs = elim (Bool-cases (contains old s)) [
  | inr miss ↦ rw (replace_first-missing old new s miss) hs
  | inl hit ↦
      let (pre, post, l) = contains-Leftmost old s hit in
      let parts : NoCr (pre ++ (old ++ post)) = rw l.splits at hs in
      rw (replace_first-Leftmost new l) (
        All-append _ pre _ (All-append_left _ pre _ parts)
          (All-append _ new post hn (All-append_right _ old post (All-append_right _ pre _ parts))))
]

pub NoCr-append : (s t : Text) → NoCr s → NoCr t → NoCr (s ++ t)
NoCr-append s t hs ht = All-append _ s t hs ht
