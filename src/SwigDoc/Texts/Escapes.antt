-- ===== src/SwigDoc/Texts/Escapes.antt =====
-- `utoascii`: what reading the docstring back gives.
use gr_digitizers.Prelude.{
  ℕ, ◌<◌, ◌≡◌, refl, ◌∙◌, ap, true, false, some, [], ◌∷◌, ◌++◌, ◌==◌, arith, All, if◌then◌else◌,
  Bool-cases, inl, inr,
}
use gr_digitizers.Prelude.Str.{Str}
use gr_digitizers.SwigDoc.Texts.{to_ascii, escape_quotes, utoascii}

-- How a quoted string is read: up to the first quote that no backslash takes off, with the text so
-- far and what stands behind the quote.
pub data Read : Type 0 where
  closed : Str → Str → Read
  unclosed : Read

abbrev pub prepend : ℕ → Read → Read
prepend c (closed s rest) = closed (c ∷ s) rest
prepend c unclosed = unclosed

unfoldable pub read_quoted : Str → Read
read_quoted [] = unclosed
read_quoted (c ∷ []) = if c == 34 then closed [] [] else unclosed
read_quoted (c ∷ d ∷ s) =
    let skip = read_quoted s in
    let step = read_quoted (d ∷ s) in
    if c == 34 then closed [] (d ∷ s) else if c == 92 then prepend d skip else prepend c step

abbrev NoBackslash : Str → Type 0
NoBackslash = All (λ c. (c == 92) ≡ false)

read_quoted-plain :
    (c : ℕ) (s : Str)
    → (c == 34) ≡ false
    → (c == 92) ≡ false
    → read_quoted (c ∷ s) ≡ prepend c (read_quoted s)
unfolding read_quoted
read_quoted-plain c [] h k = rw h
read_quoted-plain c (d ∷ s) h k = rw (h, k)

read_quoted-quote : (c : ℕ) (s : Str) → (c == 34) ≡ true → read_quoted (c ∷ s) ≡ closed [] s
unfolding read_quoted
read_quoted-quote c [] h = rw h
read_quoted-quote c (d ∷ s) h = rw h

read_quoted-skip : (d : ℕ) (s : Str) → read_quoted (92 ∷ d ∷ s) ≡ prepend d (read_quoted s)
unfolding read_quoted
read_quoted-skip d s = refl

read_quoted-escape :
    (s rest : Str) → NoBackslash s → read_quoted (escape_quotes s ++ (34 ∷ rest)) ≡ closed s rest
unfolding escape_quotes
read_quoted-escape [] rest h = read_quoted-quote 34 rest refl
read_quoted-escape (c ∷ s) rest (h, hs) = elim (Bool-cases (c == 34)) [
  | inl e ↦
      let same : 34 ≡ c = ground arith in
      rw e (
        read_quoted-skip 34 (escape_quotes s ++ (34 ∷ rest))
        ∙ rw (read_quoted-escape s rest hs) (ap (λ x. closed (x ∷ s) rest) same))
  | inr e ↦
      rw e (
        read_quoted-plain c (escape_quotes s ++ (34 ∷ rest)) e h
        ∙ rw (read_quoted-escape s rest hs))
]

to_ascii-NoBackslash : (s : Str) → NoBackslash s → NoBackslash (to_ascii s)
unfolding to_ascii
to_ascii-NoBackslash [] h = tt
to_ascii-NoBackslash (c ∷ s) (h, hs) = (ground arith, to_ascii-NoBackslash s hs)

-- A text without a backslash, put between quotes by utoascii, reads back as its ASCII form up to the
-- closing quote.
pub read_quoted-utoascii :
    (text rest : Str)
    → NoBackslash text
    → read_quoted (utoascii (some text) ++ (34 ∷ rest)) ≡ closed (to_ascii text) rest
unfolding utoascii
read_quoted-utoascii text rest h =
    read_quoted-escape (to_ascii text) rest (to_ascii-NoBackslash text h)

to_ascii-ascii : (s : Str) → All (λ c. c < 128) (to_ascii s)
unfolding to_ascii
to_ascii-ascii [] = tt
to_ascii-ascii (c ∷ s) = (ground arith, to_ascii-ascii s)

escape_quotes-ascii : (s : Str) → All (λ c. c < 128) s → All (λ c. c < 128) (escape_quotes s)
unfolding escape_quotes
escape_quotes-ascii [] h = tt
escape_quotes-ascii (c ∷ s) (h, hs) = elim (Bool-cases (c == 34)) [
  | inl e ↦ rw e (omega arith, (omega arith, escape_quotes-ascii s hs))
  | inr e ↦ rw e (h, escape_quotes-ascii s hs)
]

-- All characters that utoascii returns are below 128.
pub utoascii-ascii : (text : Str) → All (λ c. c < 128) (utoascii (some text))
unfolding utoascii
utoascii-ascii text = escape_quotes-ascii (to_ascii text) (to_ascii-ascii text)

escape_quotes-quote : (s : Str) → escape_quotes (92 ∷ 34 ∷ s) ≡ 92 ∷ 92 ∷ 34 ∷ escape_quotes s
unfolding escape_quotes
escape_quotes-quote s = refl

escape_quotes-plain :
    (c : ℕ) (s : Str) → (c == 34) ≡ false → escape_quotes (c ∷ s) ≡ c ∷ escape_quotes s
unfolding escape_quotes
escape_quotes-plain c s h = rw h

-- The first quote of a text, with the first backslash right before it, ends the docstring early, and
-- the rest of the text stands behind the closing quote.
pub read_quoted-backslash :
    (s t rest : Str)
    → NoBackslash s
    → All (λ c. (c == 34) ≡ false) s
    → read_quoted (escape_quotes (s ++ (92 ∷ 34 ∷ t)) ++ (34 ∷ rest))
      ≡ closed (s ++ (92 ∷ [])) (escape_quotes t ++ (34 ∷ rest))
read_quoted-backslash [] t rest h q = rw escape_quotes-quote (
    read_quoted-skip 92 (34 ∷ escape_quotes t ++ (34 ∷ rest))
    ∙ rw (read_quoted-quote 34 (escape_quotes t ++ (34 ∷ rest)) refl))
read_quoted-backslash (c ∷ s) t rest (h, hs) (q, qs) =
    rw (escape_quotes-plain c (s ++ (92 ∷ 34 ∷ t)) q) (
      read_quoted-plain c (escape_quotes (s ++ (92 ∷ 34 ∷ t)) ++ (34 ∷ rest)) q h
      ∙ rw (read_quoted-backslash s t rest hs qs))
