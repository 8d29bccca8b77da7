-- ===== src/Doxy/Index/Denotes.antt =====
-- The texts of a table, in the language of the grammar.
use gr_digitizers.Prelude.{
  ℕ, ◌≡◌, ◌≢◌, refl, sym, Bool, true, false, ◌&&◌, [], ◌∷◌, ◌++◌, append-nil, append_assoc, arith,
  ◌==◌, All, Bool-cases, inl, inr,
}
use gr_digitizers.Prelude.Str.{Str, codes}
use gr_digitizers.Prelude.Dict.{Dict}
use gr_digitizers.Doxy.Dom.Grammar.{
  Decodes, end, plain, amp, lt, gt, quot, Name, Blank, IsQuote, is_letter, Attributes, blank, one,
}
use gr_digitizers.Doxy.Quote.{replace, has_char, quote_xml, surrounded, quote_attrib}
use gr_digitizers.Doxy.Quote.Escapes.{
  entity, escaped, quote_xml-escaped, replace-append, has_char-replace,
}
use gr_digitizers.Doxy.Index.Table.{Printable, attribute_text, kind_refid, kind_refid_text}

-- What denotes the first character may be named by an equal number.
Decodes-equal : (b : Bool) (t s : Str) (c x : ℕ) → c ≡ x → Decodes b t (x ∷ s) → Decodes b t (c ∷ s)
Decodes-equal b t s c x p d = rw p d

-- The three escapes.
Decodes-escaped : (b : Bool) (s : Str) → Printable s → Decodes b (escaped s) s
unfolding escaped
Decodes-escaped b [] h = end
Decodes-escaped b (c ∷ s) (h, hs) = elim (Bool-cases (c == b'&')) [
  | inl e ↦ rw e (Decodes-equal b _ s c b'&' (ground arith) (amp refl (Decodes-escaped b s hs)))
  | inr e ↦ elim (Bool-cases (c == b'<')) [
    | inl f ↦
        rw (e, f) (Decodes-equal b _ s c b'<' (ground arith) (lt refl (Decodes-escaped b s hs)))
    | inr f ↦ elim (Bool-cases (c == b'>')) [
      | inl g ↦
          rw (e, f, g)
            (Decodes-equal b _ s c b'>' (ground arith) (gt refl (Decodes-escaped b s hs)))
      | inr g ↦ rw (e, f, g) (plain c (ground arith) (Decodes-escaped b s hs))
    ]
  ]
]

-- The escape of the quote on top.
abbrev requoted : Str → Str
requoted s = replace 34 (codes "&quot;") (escaped s)

requoted-cons :
    (c : ℕ) (s : Str) → requoted (c ∷ s) ≡ replace 34 (codes "&quot;") (entity c) ++ requoted s
unfolding escaped
requoted-cons c s = replace-append 34 (codes "&quot;") (entity c) (escaped s)

Decodes-requoted : (s : Str) → Printable s → Decodes false (requoted s) s
unfolding replace
Decodes-requoted [] h = unfold escaped in end
Decodes-requoted (c ∷ s) (h, hs) = rw (requoted-cons c s) (elim (Bool-cases (c == b'&')) [
  | inl e ↦ rw e (Decodes-equal false _ s c b'&' (ground arith) (amp refl (Decodes-requoted s hs)))
  | inr e ↦ elim (Bool-cases (c == b'<')) [
    | inl f ↦
        rw (e, f) (Decodes-equal false _ s c b'<' (ground arith) (lt refl (Decodes-requoted s hs)))
    | inr f ↦ elim (Bool-cases (c == b'>')) [
      | inl g ↦
          rw (e, f, g)
            (Decodes-equal false _ s c b'>' (ground arith) (gt refl (Decodes-requoted s hs)))
      | inr g ↦ elim (Bool-cases (c == 34)) [
        | inl k ↦
            rw (e, f, g, k)
              (Decodes-equal false _ s c 34 (ground arith) (quot refl (Decodes-requoted s hs)))
        | inr k ↦ rw (e, f, g, k) (plain c (ground arith) (Decodes-requoted s hs))
      ]
    ]
  ]
])

pub Decodes-quote_xml : (b : Bool) (s : Str) → Printable s → Decodes b (quote_xml s) s
Decodes-quote_xml b s h = rw (quote_xml-escaped s) (Decodes-escaped b s h)

-- A value with its two quotes.
abbrev pub Quoted : Str → Str → Type 0
Quoted t s =
    (q : ℕ) × (raw : Str) × (t ≡ surrounded (q ∷ []) raw)
    × IsQuote q
    × (has_char q raw ≡ false)
    × Decodes false raw s

pub quote_attrib-Quoted : (s : Str) → Printable s → Quoted (quote_attrib s) s
unfolding quote_attrib
quote_attrib-Quoted s h = elim (Bool-cases (has_char 34 (quote_xml s))) [
  | inl e ↦ elim (Bool-cases (has_char 39 (quote_xml s))) [
    | inl f ↦ (
      34,
      replace 34 (codes "&quot;") (quote_xml s),
      rw (e, f),
      inl refl,
      has_char-replace (quote_xml s),
      rw (quote_xml-escaped s) (Decodes-requoted s h),
    )
    | inr f ↦ (39, quote_xml s, rw (e, f), inr refl, f, Decodes-quote_xml false s h)
  ]
  | inr e ↦ (34, quote_xml s, rw e, inl refl, e, Decodes-quote_xml false s h)
]

abbrev pub letters : Str → Bool
letters [] = true
letters (c ∷ n) = is_letter c && letters n

pub letters-All : (n : Str) → letters n ≡ true → All (λ c. is_letter c ≡ true) n
letters-All [] h = tt
letters-All (c ∷ n) h = (ground arith, letters-All n (ground arith))

pub letters-Name : (c : ℕ) (n : Str) → letters (c ∷ n) ≡ true → Name (c ∷ n)
letters-Name c n h = (λ e. cc, letters-All (c ∷ n) h)

-- An attribute, with the blanks before it, in front of others.
attribute-Attributes :
    (sp key value rest : Str) (d : Dict Str)
    → sp ≢ []
    → Blank sp
    → Name key
    → Printable value
    → Attributes rest d
    → Attributes (sp ++ (key ++ (b'=' ∷ (quote_attrib value ++ rest)))) ((key, value) ∷ d)
attribute-Attributes sp key value rest d hs hb hn hp ha =
    let (q, raw, e, iq, hc, hd) = quote_attrib-Quoted value hp in
    one sp key raw value q hs hb hn iq hc hd ha (rw (e, append_assoc raw))

pub version-Attributes :
    (v : Str)
    → Printable v
    → Attributes (codes " " ++ attribute_text (codes "version") v) ((codes "version", v) ∷ [])
version-Attributes v h = rw (sym (append-nil (quote_attrib v))) (
    attribute-Attributes (codes "  ") (codes "version") v [] [] (λ e. cc) (refl, (refl, tt))
      (letters-Name _ _ refl) h (blank tt))

pub kind_refid-Attributes :
    (kind refid : Str)
    → Printable kind
    → Printable refid
    → Attributes (codes " " ++ kind_refid_text kind refid) (kind_refid kind refid)
kind_refid-Attributes kind refid hk hr =
    attribute-Attributes (codes "  ") (codes "kind") kind (attribute_text (codes "refid") refid)
      ((codes "refid", refid) ∷ []) (λ e. cc) (refl, (refl, tt)) (letters-Name _ _ refl) hk
      (rw (sym (append-nil (quote_attrib refid))) (
        attribute-Attributes (codes " ") (codes "refid") refid [] [] (λ e. cc) (refl, tt)
          (letters-Name _ _ refl) hr (blank tt)))
