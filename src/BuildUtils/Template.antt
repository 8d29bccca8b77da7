-- ===== src/BuildUtils/Template.antt =====
-- `do_substitution` and `extract_extension` of python/build_utils.py. The two regular expressions
-- are written out as the scans that they stand for.
pub mod Pieces
pub mod Extension
use gr_digitizers.Prelude.{
  ℕ, Bool, true, false, ◌&&◌, ◌||◌, Option, none, some, List, [], ◌∷◌, ◌++◌, ◌==◌, leb,
  if◌then◌else◌,
}
use gr_digitizers.Prelude.Str.{Str, codes, str_eq}
use gr_digitizers.Prelude.Dict.{Dict, lookup}
use gr_digitizers.Prelude.Result.{Result, ok, err, key_error, value_error, ◌>>=◌}

-- `[a-z]`
abbrev pub is_lower : ℕ → Bool
is_lower c = leb b'a' c && leb c b'z'

-- `[a-zA-Z0-9_]`
abbrev pub is_word : ℕ → Bool
is_word c =
    (leb b'a' c && leb c b'z')
    || ((leb b'A' c && leb c b'Z') || ((leb b'0' c && leb c b'9') || c == b'_'))

-- `d[key]`, the body of `repl`.
unfoldable pub repl : Dict Str → Str → Result Str
unfolding lookup
repl d key = elim (lookup key d) [ some v ↦ ok v | none ↦ err key_error ]

-- What a scan for `@([a-zA-Z0-9_]+)@` has read: nothing, or an `@` and the word characters so far.
pub data Scan : Type 0 where
  outside : Scan
  inside : Str → Scan

-- One character: the text that leaves the scan, and the next state.
unfoldable pub scan_char : Dict Str → Scan → ℕ → Result (Str × Scan)
unfolding repl
scan_char d outside c = if c == b'@' then ok ([], inside []) else ok (c ∷ [], outside)
scan_char d (inside []) c =
    if c == b'@'
    then ok (b'@' ∷ [], inside [])
    else if is_word c
    then ok ([], inside (c ∷ []))
    else ok (b'@' ∷ c ∷ [], outside)
scan_char d (inside (k ∷ key)) c =
    if c == b'@'
    then repl d (k ∷ key) >>= (λ v. ok (v, outside))
    else if is_word c
    then ok ([], inside (k ∷ key ++ (c ∷ [])))
    else ok ((b'@' ∷ k ∷ key) ++ (c ∷ []), outside)

-- What an unfinished match leaves at the end of the text.
abbrev flush : Scan → Str
flush outside = []
flush (inside key) = b'@' ∷ key

unfoldable pub substitute : Dict Str → Scan → Str → Result Str
unfolding scan_char
substitute d st [] = ok (flush st)
substitute d st (c ∷ text) =
    scan_char d st c >>= λ r. substitute d r.1 text >>= λ out. ok (r.0 ++ out)

-- `re.sub (r"@([a-zA-Z0-9_]+)@", repl, inp)`
unfoldable pub do_substitution : Dict Str → Str → Result Str
unfolding substitute
do_substitution d inp = substitute d outside inp

-- The longest run of `[a-z]`, and the rest.
unfoldable pub lower_run : Str → Str × Str
lower_run [] = ([], [])
lower_run (c ∷ s) = let r = lower_run s in if is_lower c then (c ∷ r.0, r.1) else ([], c ∷ s)

-- `\.t$`: a `$` also matches before a last newline.
abbrev at_end : Str → Bool
at_end (a ∷ b ∷ []) = a == b'.' && b == b't'
at_end (a ∷ b ∷ c ∷ []) = a == b'.' && (b == b't' && c == 10)
at_end _ = false

-- The run of a match, if it is not empty and the end follows it.
abbrev accept : Str × Str → Option Str
accept ([], rest) = none
accept (k ∷ run, rest) = if at_end rest then some (k ∷ run) else none

-- `\.([a-z]+)\.t$` at the start of a text.
unfoldable pub match_here : Str → Option Str
unfolding lower_run
match_here [] = none
match_here (c ∷ s) = if c == b'.' then accept (lower_run s) else none

abbrev first_match : Option Str → Option Str → Option Str
first_match (some run) later = some run
first_match none later = later

-- The leftmost match.
unfoldable pub search_extension : Str → Option Str
unfolding match_here
search_extension [] = none
search_extension (c ∷ s) = let later = search_extension s in first_match (match_here (c ∷ s)) later

unfoldable pub extract_extension : Str → Result Str
unfolding search_extension
extract_extension name = elim (search_extension name) [ some run ↦ ok run | none ↦ err value_error ]
