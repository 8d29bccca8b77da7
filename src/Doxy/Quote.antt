-- ===== src/Doxy/Quote.antt =====
-- The quoting of texts in docs/doxygen/doxyxml/generated/indexsuper.py, for arguments that are strings.
pub mod Escapes
use gr_digitizers.Prelude.{ℕ, Bool, true, false, [], ◌∷◌, ◌++◌, ◌==◌, if◌then◌else◌}
use gr_digitizers.Prelude.Str.{Str, codes}

-- `s.replace (c, t)` for one character `c`
unfoldable pub replace : ℕ → Str → Str → Str
replace c t [] = []
replace c t (x ∷ s) = let rest = replace c t s in if x == c then t ++ rest else x ∷ rest

-- `c in s`
unfoldable pub has_char : ℕ → Str → Bool
has_char c [] = false
has_char c (x ∷ s) = let rest = has_char c s in if x == c then true else rest

unfoldable pub quote_xml : Str → Str
unfolding replace
quote_xml s =
    replace b'>' (codes "&gt;") (replace b'<' (codes "&lt;") (replace b'&' (codes "&amp;") s))

abbrev pub surrounded : Str → Str → Str
surrounded q s = q ++ (s ++ q)

unfoldable pub quote_attrib : Str → Str
unfolding quote_xml replace has_char
quote_attrib s =
    if has_char 34 (quote_xml s)
    then if has_char 39 (quote_xml s)
      then surrounded (34 ∷ []) (replace 34 (codes "&quot;") (quote_xml s))
      else surrounded (39 ∷ []) (quote_xml s)
    else surrounded (34 ∷ []) (quote_xml s)

-- One quote on each side, or three around a text with a line break.
unfoldable pub multiline : Str → Str → Str
unfolding has_char
multiline q s = if has_char 10 s then surrounded (q ++ (q ++ q)) s else surrounded q s

unfoldable pub quote_python : Str → Str
unfolding has_char replace multiline
quote_python s =
    if has_char 39 s
    then multiline (34 ∷ []) (if has_char 34 s then replace 34 (92 ∷ 34 ∷ []) s else s)
    else multiline (39 ∷ []) s
