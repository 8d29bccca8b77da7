-- ===== src/Doxy/Dom/Grammar.antt =====
-- The part of XML that the index is written in: which text denotes which node. This is a description of
-- the language, for texts of ASCII characters.
use gr_digitizers.Prelude.{
  ℕ, ◌≡◌, ◌≢◌, ◌⊎◌, Bool, true, false, [], ◌∷◌, ◌++◌, ◌==◌, leb, All, if◌then◌else◌,
}
use gr_digitizers.Prelude.Str.{Str, codes}
use gr_digitizers.Prelude.Dict.{Dict}
use gr_digitizers.Doxy.Dom.{Dom, element, text, Doms, nil, cons}
use gr_digitizers.Doxy.Quote.{has_char}

-- A character that stands for itself. In the value of an attribute a line break does not.
abbrev pub allowed : Bool → ℕ → Bool
allowed breaks c =
    if c == b'&' then false else if c == b'<' then false else if c == 10 then breaks else leb 32 c

-- The characters that a piece of text, or a value between its quotes, denotes.
pub data Decodes (breaks : Bool) : Str → Str → Type 0 where
  end : Decodes breaks [] []
  plain :
      {r s : Str} (c : ℕ)
      → allowed breaks c ≡ true
      → Decodes breaks r s
      → Decodes breaks (c ∷ r) (c ∷ s)
  amp : {r s t : Str} → t ≡ codes "&amp;" ++ r → Decodes breaks r s → Decodes breaks t (b'&' ∷ s)
  lt : {r s t : Str} → t ≡ codes "&lt;" ++ r → Decodes breaks r s → Decodes breaks t (b'<' ∷ s)
  gt : {r s t : Str} → t ≡ codes "&gt;" ++ r → Decodes breaks r s → Decodes breaks t (b'>' ∷ s)
  quot : {r s t : Str} → t ≡ codes "&quot;" ++ r → Decodes breaks r s → Decodes breaks t (34 ∷ s)

abbrev pub is_letter : ℕ → Bool
is_letter c = if leb b'a' c then leb c b'z' else false

abbrev pub Name : Str → Type 0
Name n = (n ≢ []) × All (λ c. is_letter c ≡ true) n

abbrev pub Blank : Str → Type 0
Blank = All (λ c. c ≡ 32)

abbrev pub IsQuote : ℕ → Type 0
IsQuote q = ((q == 34) ≡ true) ⊎ ((q == 39) ≡ true)

-- Blanks, and attributes with at least one blank before each.
pub data Attributes : Str → Dict Str → Type 0 where
  blank : {t : Str} → Blank t → Attributes t []
  one :
      {t rest : Str} {d : Dict Str} (sp key raw value : Str) (q : ℕ)
      → sp ≢ []
      → Blank sp
      → Name key
      → IsQuote q
      → has_char q raw ≡ false
      → Decodes false raw value
      → Attributes rest d
      → t ≡ sp ++ (key ++ (b'=' ∷ (q ∷ (raw ++ (q ∷ rest)))))
      → Attributes t ((key, value) ∷ d)

-- An element with a start tag and an end tag, and what stands between them: texts are not adjacent.
mutual
  pub data Element : Str → Dom → Type 0 where
    full :
        {t a c n : Str} {d : Dict Str} {kids : Doms}
        → Name n
        → Attributes a d
        → Content c kids
        → t ≡ codes "<" ++ (n ++ (a ++ (codes ">" ++ (c ++ (codes "</" ++ (n ++ codes ">"))))))
        → Element t (element n d kids)

  pub data Content : Str → Doms → Type 0 where
    empty : Content [] nil
    only : {t s : Str} → s ≢ [] → Decodes true t s → Content t (cons (text s) nil)
    before :
        {t raw s el rest : Str} {d : Dom} {ds : Doms}
        → s ≢ []
        → Decodes true raw s
        → Element el d
        → Content rest ds
        → t ≡ raw ++ (el ++ rest)
        → Content t (cons (text s) (cons d ds))
