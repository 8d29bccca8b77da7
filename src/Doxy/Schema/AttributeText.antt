-- ===== src/Doxy/Schema/AttributeText.antt =====
-- The text that `exportAttributes` writes, and the attributes of XML that it denotes.
use gr_digitizers.Prelude.{
  ℕ, ◌≡◌, refl, true, false, Option, none, some, List, [], ◌∷◌, ◌++◌, ◌==◌, arith, append-nil,
  append_assoc, All, Bool-cases, inl, inr,
}
use gr_digitizers.Prelude.Str.{Str, codes}
use gr_digitizers.Prelude.Dict.{Dict}
use gr_digitizers.Prelude.Result.{ok}
use gr_digitizers.Prelude.Exec.{Exec}
use gr_digitizers.Doxy.Dom.Grammar.{Decodes, end, plain, allowed, Name, Attributes, blank, one}
use gr_digitizers.Doxy.Quote.{has_char, surrounded, quote_attrib}
use gr_digitizers.Doxy.Compound.Member.{digits, is_digit, unsigned, signed}
use gr_digitizers.Doxy.Index.Denotes.{Quoted, quote_attrib-Quoted, letters-All}
use gr_digitizers.Doxy.Index.Table.{Printable}
use gr_digitizers.Doxy.Index.Written.{
  Writes, then-Writes, write-Writes, encode-Writes, is_ascii-quoted,
}
use gr_digitizers.Doxy.Index.Export.{write}
use gr_digitizers.Doxy.Schema.{Attribute, AttributeKind, encoded, quoted, always, numeric}
use gr_digitizers.Doxy.Schema.Object.{Values}
use gr_digitizers.Doxy.Schema.Export.{export_attribute, export_attributes}
use gr_digitizers.Doxy.Schema.Numeral.{int-signed}
use gr_digitizers.Doxy.Schema.Distinct.{is_word, distinct}
use gr_digitizers.Doxy.Schema.Typed.{HasKind, Typed}

-- A value between its quotes, as `exportAttributes` writes it.
abbrev value_text : AttributeKind → Str → Str
value_text numeric s = surrounded (34 ∷ []) s
value_text _ s = quote_attrib s

-- What can be written: printable texts, and a value for an attribute that is always written.
abbrev CanWrite : AttributeKind → Option Str → Type 0
CanWrite always none = ⊥
CanWrite _ none = Unit
CanWrite _ (some s) = Printable s

abbrev pub Writable : Values → Type 0
Writable = All (λ row. CanWrite row.0.1 row.1)

abbrev row_text : Str → AttributeKind → Option Str → Str
row_text key kind none = []
row_text key kind (some s) = codes " " ++ (key ++ (codes "=" ++ value_text kind s))

unfoldable pub values_text : Values → Str
values_text [] = []
values_text (((key, kind), v) ∷ vs) = row_text key kind v ++ values_text vs

nothing-Writes : (m : Exec Str (Unit {0})) → ((out : Str) → m out ≡ (ok tt, out)) → Writes m []
nothing-Writes m h out = rw append-nil (h out)

export_attribute-Writes :
    (key : Str) (kind : AttributeKind) (v : Option Str)
    → CanWrite kind v
    → Writes (export_attribute key kind v) (row_text key kind v)
unfolding export_attribute
export_attribute-Writes key always none h = absurd h
export_attribute-Writes key encoded none h = λ out. rw append-nil
export_attribute-Writes key quoted none h = λ out. rw append-nil
export_attribute-Writes key numeric none h = λ out. rw append-nil
export_attribute-Writes key always (some s) h = write-Writes _
export_attribute-Writes key quoted (some s) h = write-Writes _
export_attribute-Writes key numeric (some s) h = write-Writes _
export_attribute-Writes key encoded (some s) h =
    encode-Writes (quote_attrib s) (row_text key encoded (some s))
      (λ t. write (codes " " ++ (key ++ (codes "=" ++ t)))) (is_ascii-quoted s h) (write-Writes _)

pub export_attributes-Writes :
    (vs : Values) → Writable vs → Writes (export_attributes vs) (values_text vs)
unfolding export_attributes values_text
export_attributes-Writes [] h = λ out. rw append-nil
export_attributes-Writes (((key, kind), v) ∷ vs) (h, hs) =
    then-Writes (export_attribute key kind v) (export_attributes vs) (row_text key kind v)
      (values_text vs) (export_attribute-Writes key kind v h) (export_attributes-Writes vs hs)

-- A character that stands for itself between quotes.
abbrev Plain : ℕ → Type 0
Plain c = (allowed false c ≡ true) × ((c == 34) ≡ false)

digit-Plain : (c : ℕ) → is_digit c ≡ true → Plain c
digit-Plain c h = (ground arith, ground arith)

digits-Plain : (s : Str) → digits s ≡ true → All Plain s
unfolding digits
digits-Plain [] h = tt
digits-Plain (c ∷ s) h = (digit-Plain c (ground arith), digits-Plain s (ground arith))

unsigned-Plain : (s : Str) → unsigned s ≡ true → All Plain s
unsigned-Plain [] h = cc
unsigned-Plain (c ∷ s) h = digits-Plain (c ∷ s) h

signed-Plain : (s : Str) → signed s ≡ true → All Plain s
signed-Plain [] h = cc
signed-Plain (c ∷ s) h = elim (Bool-cases (c == b'-')) [
  | inl e ↦ ((ground arith, ground arith), unsigned-Plain s (rw e at h))
  | inr e ↦ elim (Bool-cases (c == b'+')) [
    | inl f ↦ ((ground arith, ground arith), unsigned-Plain s (rw (e, f) at h))
    | inr f ↦ unsigned-Plain (c ∷ s) (rw (e, f) at h)
  ]
]

Plain-Decodes : (s : Str) → All Plain s → Decodes false s s
Plain-Decodes [] h = end
Plain-Decodes (c ∷ s) ((h, k), hs) = plain c h (Plain-Decodes s hs)

Plain-has_char : (s : Str) → All Plain s → has_char 34 s ≡ false
unfolding has_char
Plain-has_char [] h = refl
Plain-has_char (c ∷ s) ((h, k), hs) = rw k (Plain-has_char s hs)

value_text-Quoted :
    (kind : AttributeKind) (s : Str)
    → HasKind kind (some s)
    → Printable s
    → Quoted (value_text kind s) s
value_text-Quoted encoded s h p = quote_attrib-Quoted s p
value_text-Quoted quoted s h p = quote_attrib-Quoted s p
value_text-Quoted always s h p = quote_attrib-Quoted s p
value_text-Quoted numeric s h p =
    let k = signed-Plain s (int-signed s s h) in
    (34, s, refl, inl refl, Plain-has_char s k, Plain-Decodes s k)

-- The attributes that have a value.
abbrev pub row_entry : Str → Option Str → Dict Str → Dict Str
row_entry key none d = d
row_entry key (some s) d = (key, s) ∷ d

unfoldable pub given : Values → Dict Str
given [] = []
given (((key, kind), v) ∷ vs) = row_entry key v (given vs)

-- The attributes of the rows.
abbrev pub names : Values → List Attribute
names [] = []
names (row ∷ vs) = row.0 ∷ names vs

word-Name : (key : Str) → is_word key ≡ true → Name key
word-Name [] h = cc
word-Name (c ∷ s) h = (λ e. cc, letters-All (c ∷ s) h)

row-Attributes :
    (key : Str) (kind : AttributeKind) (v : Option Str) (t : Str) (d : Dict Str)
    → Name key
    → HasKind kind v
    → CanWrite kind v
    → Attributes t d
    → Attributes (row_text key kind v ++ t) (row_entry key v d)
row-Attributes key kind none t d n h p a = a
row-Attributes key kind (some s) t d n h p a =
    let (q, raw, e, iq, hc, hd) = value_text-Quoted kind s h (printable kind p) in
    one (codes " ") key raw s q (λ x. cc) (refl, tt) n iq hc hd a
      (rw e (rw (append_assoc key, append_assoc raw)))
  where
    printable : (k : AttributeKind) → CanWrite k (some s) → Printable s
    printable encoded x = x
    printable quoted x = x
    printable always x = x
    printable numeric x = x

pub values-Attributes :
    (vs : Values)
    → distinct (names vs) ≡ true
    → Typed vs
    → Writable vs
    → Attributes (values_text vs) (given vs)
unfolding distinct values_text given
values-Attributes [] u h p = blank tt
values-Attributes (((key, kind), v) ∷ vs) u (h, hs) (p, ps) =
    row-Attributes key kind v (values_text vs) (given vs) (word-Name key (ground arith)) h p
      (values-Attributes vs (ground arith) hs ps)
