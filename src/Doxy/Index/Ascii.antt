-- ===== src/Doxy/Index/Ascii.antt =====
-- The quoting of texts keeps them in ASCII, and brings none into it.
use gr_digitizers.Prelude.{
  ℕ, ◌≡◌, refl, ◌∙◌, Bool, true, false, ◌&&◌, [], ◌∷◌, ◌++◌, arith, ltb, ◌==◌, Bool-cases, inl, inr,
}
use gr_digitizers.Prelude.Str.{Str, codes}
use gr_digitizers.Doxy.Quote.{
  replace, has_char, quote_xml, surrounded, quote_attrib, multiline, quote_python,
}
use gr_digitizers.Doxy.Index.Export.{is_ascii}
use gr_digitizers.Doxy.Index.Table.{Printable}

is_ascii-append : (s t : Str) → is_ascii (s ++ t) ≡ is_ascii s && is_ascii t
unfolding is_ascii
is_ascii-append [] t = refl
is_ascii-append (c ∷ s) t = elim (Bool-cases (ltb c 128)) [
  | inl e ↦ rw (e, is_ascii-append s t)
  | inr e ↦ rw e
]

-- A replacement of an ASCII character by an ASCII text.
is_ascii-replace :
    (c : ℕ) (t s : Str)
    → ltb c 128 ≡ true
    → is_ascii t ≡ true
    → is_ascii (replace c t s) ≡ is_ascii s
unfolding is_ascii replace
is_ascii-replace c t [] hc ht = refl
is_ascii-replace c t (x ∷ s) hc ht = elim (Bool-cases (x == c)) [
  | inl e ↦
      let h : ltb x 128 ≡ true = ground arith in
      rw (e, is_ascii-append t, ht, h, is_ascii-replace c t s hc ht)
  | inr e ↦ rw (e, is_ascii-replace c t s hc ht)
]

pub is_ascii-quote_xml : (s : Str) → is_ascii (quote_xml s) ≡ is_ascii s
unfolding quote_xml
is_ascii-quote_xml s =
    is_ascii-replace b'>' (codes "&gt;") _ refl (unfold is_ascii in refl)
    ∙ (is_ascii-replace b'<' (codes "&lt;") _ refl (unfold is_ascii in refl)
        ∙ is_ascii-replace b'&' (codes "&amp;") s refl (unfold is_ascii in refl))

pub and_true : (b : Bool) → (b && true) ≡ b
and_true true = refl
and_true false = refl

is_ascii-surrounded : (q s : Str) → is_ascii q ≡ true → is_ascii (surrounded q s) ≡ is_ascii s
is_ascii-surrounded q s h = rw (is_ascii-append q, is_ascii-append s, h) (and_true (is_ascii s))

pub is_ascii-quote_attrib : (s : Str) → is_ascii (quote_attrib s) ≡ is_ascii s
unfolding quote_attrib
is_ascii-quote_attrib s = elim (Bool-cases (has_char 34 (quote_xml s))) [
  | inl e ↦ elim (Bool-cases (has_char 39 (quote_xml s))) [
    | inl f ↦
        rw
          (
            e,
            f,
            is_ascii-surrounded (34 ∷ []) _ (unfold is_ascii in refl),
            is_ascii-replace 34 (codes "&quot;") (quote_xml s) refl (unfold is_ascii in refl),
          )
          (is_ascii-quote_xml s)
    | inr f ↦
        rw (e, f, is_ascii-surrounded (39 ∷ []) _ (unfold is_ascii in refl)) (is_ascii-quote_xml s)
  ]
  | inr e ↦ rw (e, is_ascii-surrounded (34 ∷ []) _ (unfold is_ascii in refl)) (is_ascii-quote_xml s)
]

pub Printable-is_ascii : (s : Str) → Printable s → is_ascii s ≡ true
unfolding is_ascii
Printable-is_ascii [] h = refl
Printable-is_ascii (c ∷ s) (h, hs) = ground (arith, Printable-is_ascii s hs)

is_ascii-multiline : (q s : Str) → is_ascii q ≡ true → is_ascii (multiline q s) ≡ is_ascii s
unfolding multiline
is_ascii-multiline q s h = elim (Bool-cases (has_char 10 s)) [
  | inl e ↦
      rw e (is_ascii-surrounded (q ++ (q ++ q)) s (rw (is_ascii-append q, is_ascii-append q, h)))
  | inr e ↦ rw e (is_ascii-surrounded q s h)
]

pub is_ascii-quote_python : (s : Str) → is_ascii (quote_python s) ≡ is_ascii s
unfolding quote_python
is_ascii-quote_python s = elim (Bool-cases (has_char 39 s)) [
  | inl e ↦ elim (Bool-cases (has_char 34 s)) [
    | inl f ↦
        rw (e, f)
          (is_ascii-multiline (34 ∷ []) _ (unfold is_ascii in refl)
            ∙ is_ascii-replace 34 (92 ∷ 34 ∷ []) s refl (unfold is_ascii in refl))
    | inr f ↦ rw (e, f) (is_ascii-multiline (34 ∷ []) s (unfold is_ascii in refl))
  ]
  | inr e ↦ rw e (is_ascii-multiline (39 ∷ []) s (unfold is_ascii in refl))
]
