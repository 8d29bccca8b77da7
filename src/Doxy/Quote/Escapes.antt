-- ===== src/Doxy/Quote/Escapes.antt =====
-- One escape for each character, and the quotes around an attribute's value.
use gr_digitizers.Prelude.{
  ℕ, ◌≡◌, refl, ◌∙◌, ap, sym, false, [], ◌∷◌, ◌++◌, append_assoc, ◌==◌, if◌then◌else◌, Bool-cases,
  inl, inr,
}
use gr_digitizers.Prelude.Str.{Str, codes}
use gr_digitizers.Doxy.Quote.{replace, has_char, quote_xml, surrounded, quote_attrib}

abbrev pub entity : ℕ → Str
entity c =
    if c == b'&'
    then codes "&amp;"
    else if c == b'<'
    then codes "&lt;"
    else if c == b'>'
    then codes "&gt;"
    else c ∷ []

-- Each character by itself.
unfoldable pub escaped : Str → Str
escaped [] = []
escaped (c ∷ s) = entity c ++ escaped s

pub replace-append : (c : ℕ) (t x y : Str) → replace c t (x ++ y) ≡ replace c t x ++ replace c t y
unfolding replace
replace-append c t [] y = refl
replace-append c t (a ∷ x) y = elim (Bool-cases (a == c)) [
  | inl e ↦ rw e (ap (λ r. t ++ r) (replace-append c t x y) ∙ sym (append_assoc t _ _))
  | inr e ↦ rw e (ap (λ r. a ∷ r) (replace-append c t x y))
]

quote_xml-append : (x y : Str) → quote_xml (x ++ y) ≡ quote_xml x ++ quote_xml y
unfolding quote_xml
quote_xml-append x y = rw (
  replace-append b'&' (codes "&amp;") x y,
  replace-append b'<' (codes "&lt;"),
  replace-append b'>' (codes "&gt;"),
)

quote_xml-entity : (c : ℕ) → quote_xml (c ∷ []) ≡ entity c
unfolding quote_xml replace
quote_xml-entity c = elim (Bool-cases (c == b'&')) [
  | inl e ↦ rw e
  | inr e ↦ rw e (elim (Bool-cases (c == b'<')) [
    | inl f ↦ rw f
    | inr f ↦ rw f (elim (Bool-cases (c == b'>')) [ inl g ↦ rw g | inr g ↦ rw g ])
  ])
]

-- The three replacements of quote_xml one after the other escape each character by itself: the
-- entity of one is not escaped again.
pub quote_xml-escaped : (s : Str) → quote_xml s ≡ escaped s
unfolding escaped
quote_xml-escaped [] = unfold quote_xml replace in refl
quote_xml-escaped (c ∷ s) =
    quote_xml-append (c ∷ []) s ∙ rw (quote_xml-entity c, quote_xml-escaped s)

pub has_char-replace : (s : Str) → has_char 34 (replace 34 (codes "&quot;") s) ≡ false
unfolding has_char replace
has_char-replace [] = refl
has_char-replace (x ∷ s) = elim (Bool-cases (x == 34)) [
  | inl e ↦ rw e (has_char-replace s)
  | inr e ↦ rw e (rw e (has_char-replace s))
]

-- A text between two quotes that do not occur in it.
abbrev Delimited : Str → Type 0
Delimited r = (q : ℕ) × (body : Str) × (r ≡ surrounded (q ∷ []) body) × (has_char q body ≡ false)

-- quote_attrib puts a text between two equal quotes that do not occur in the text between them.
quote_attrib-Delimited : (s : Str) → Delimited (quote_attrib s)
unfolding quote_attrib
quote_attrib-Delimited s = elim (Bool-cases (has_char 34 (quote_xml s))) [
  | inl e ↦ elim (Bool-cases (has_char 39 (quote_xml s))) [
    | inl f ↦
        (34, replace 34 (codes "&quot;") (quote_xml s), rw (e, f), has_char-replace (quote_xml s))
    | inr f ↦ (39, quote_xml s, rw (e, f), f)
  ]
  | inr e ↦ (34, quote_xml s, rw e, e)
]
