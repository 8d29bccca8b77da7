-- ===== src/BuildUtils/Template/Extension.antt =====
-- The names of templates, and `extract_extension` on them.
use gr_digitizers.Prelude.{
  ℕ, ◌+◌, ◌≤◌, ◌≡◌, ◌≢◌, refl, ap, ==_iff, true, Option, some, none, [], ◌∷◌, ◌++◌, ◌==◌, arith,
  All, length, length-append, Bool-cases, inl, inr, ◌⊎◌,
}
use mathlib.Core.Path.{subst}
use gr_digitizers.Prelude.Str.{Str}
use gr_digitizers.Prelude.Result.{ok}
use gr_digitizers.BuildUtils.Template.{
  is_lower, lower_run, at_end, accept, first_match, match_here, search_extension, extract_extension,
}

abbrev pub Lower : Str → Type 0
Lower = All (λ c. is_lower c ≡ true)

-- `.`, the extension, `.t`.
abbrev pub suffix : Str → Str
suffix ext = b'.' ∷ (ext ++ (b'.' ∷ b't' ∷ []))

lower_run-append : (k rest : Str) → Lower k → lower_run (k ++ (b'.' ∷ rest)) ≡ (k, b'.' ∷ rest)
unfolding lower_run
lower_run-append [] rest h = refl
lower_run-append (c ∷ k) rest (h, hs) = rw (h, lower_run-append k rest hs)

-- A run ends at a dot at the latest, so the rest still holds what stands from there.
lower_run-rest : (base t : Str) → length t + 1 ≤ length (lower_run (base ++ (b'.' ∷ t))).1
unfolding lower_run
lower_run-rest [] t = omega arith
lower_run-rest (c ∷ base) t = elim (Bool-cases (is_lower c)) [
  | inl e ↦ rw e (lower_run-rest base t)
  | inr e ↦ rw e (omega (arith, length-append base (b'.' ∷ t)))
]

accept_long : (r : Str × Str) → 4 ≤ length r.1 → accept r ≡ none
accept_long ([], rest) h = refl
accept_long (k ∷ run, []) h = refl
accept_long (k ∷ run, a ∷ []) h = refl
accept_long (k ∷ run, a ∷ b ∷ []) h = absurd (omega arith)
accept_long (k ∷ run, a ∷ b ∷ c ∷ []) h = absurd (omega arith)
accept_long (k ∷ run, a ∷ b ∷ c ∷ d ∷ r) h = refl

match_here-suffix : (ext : Str) → ext ≢ [] → Lower ext → match_here (suffix ext) ≡ some ext
unfolding match_here
match_here-suffix [] ne h = absurd (ne refl)
match_here-suffix (k ∷ ext) ne h = rw (lower_run-append (k ∷ ext) (b't' ∷ []) h)

-- No match starts further left: what follows its run would be too long.
match_here-early : (c : ℕ) (base ext : Str) → ext ≢ [] → match_here (c ∷ base ++ suffix ext) ≡ none
unfolding match_here
match_here-early c base [] ne = absurd (ne refl)
match_here-early c base (k ∷ ext) ne = elim (Bool-cases (c == b'.')) [
  | inl e ↦ rw e (
      accept_long (lower_run (base ++ suffix (k ∷ ext))) (
        omega (
          arith,
          lower_run-rest base ((k ∷ ext) ++ (b'.' ∷ b't' ∷ [])),
          length-append ext (b'.' ∷ b't' ∷ []),
        )))
  | inr e ↦ rw e
]

search_extension-suffix :
    (base ext : Str) → ext ≢ [] → Lower ext → search_extension (base ++ suffix ext) ≡ some ext
unfolding search_extension
search_extension-suffix [] ext ne h = rw (match_here-suffix ext ne h, search_extension)
search_extension-suffix (c ∷ base) ext ne h =
    rw (match_here-early c base ext ne, search_extension) (search_extension-suffix base ext ne h)

-- The extension of a name base.ext.t is ext, for any base and any nonempty lowercase ext.
pub extract_extension-suffix :
    (base ext : Str) → ext ≢ [] → Lower ext → extract_extension (base ++ suffix ext) ≡ ok ext
unfolding extract_extension
extract_extension-suffix base ext ne h =
    rw (search_extension-suffix base ext ne h, extract_extension)

lower_run_parts : (s : Str) → (s ≡ (lower_run s).0 ++ (lower_run s).1) × Lower (lower_run s).0
unfolding lower_run
lower_run_parts [] = (refl, tt)
lower_run_parts (c ∷ s) = elim (Bool-cases (is_lower c)) [
  | inl e ↦ rw e (ap (λ r. c ∷ r) (lower_run_parts s).0, (e, (lower_run_parts s).1))
  | inr e ↦ rw e (refl, tt)
]

abbrev pub AtEnd : Str → Type 0
AtEnd rest = (rest ≡ b'.' ∷ b't' ∷ []) ⊎ (rest ≡ b'.' ∷ b't' ∷ 10 ∷ [])

at_end_lem : (rest : Str) → at_end rest ≡ true → AtEnd rest
at_end_lem (a ∷ b ∷ []) h = ground arith
at_end_lem (a ∷ b ∷ c ∷ []) h = ground arith
at_end_lem [] h = cc
at_end_lem (a ∷ []) h = cc
at_end_lem (a ∷ b ∷ c ∷ d ∷ r) h = cc

accept_lem :
    (r : Str × Str) (ext : Str)
    → accept r ≡ some ext
    → (r.0 ≡ ext) × (ext ≢ []) × (at_end r.1 ≡ true)
accept_lem ([], rest) ext h = cc
accept_lem (k ∷ run, rest) ext h = elim (Bool-cases (at_end rest)) [
  | inl e ↦ (ground arith, ground arith, e)
  | inr e ↦ cc
]

-- What a match and a search give: the base before the dot, and the end after the extension.
abbrev pub Splits : Str → Str → Type 0
Splits s ext =
    (base : Str) × (rest : Str) × (s ≡ base ++ (b'.' ∷ (ext ++ rest)))
    × AtEnd rest
    × Lower ext
    × (ext ≢ [])

match_here_lem : (s ext : Str) → match_here s ≡ some ext → Splits s ext
unfolding match_here
match_here_lem [] ext h = cc
match_here_lem (c ∷ s) ext h = elim (Bool-cases (c == b'.')) [
  | inl e ↦
      let a = accept_lem (lower_run s) ext (rw e at h) in
      (
        [],
        (lower_run s).1,
        cc ((lower_run_parts s).0, (==_iff c b'.').0 e, a.0),
        at_end_lem (lower_run s).1 a.2,
        subst Lower a.0 (lower_run_parts s).1,
        a.1,
      )
  | inr e ↦ let h' : none ≡ some ext = rw e at h in cc
]

first_match_lem :
    (m later : Option Str) {ext : Str}
    → first_match m later ≡ some ext
    → (m ≡ some ext) ⊎ (later ≡ some ext)
first_match_lem (some run) later h = inl h
first_match_lem none later h = inr h

further : (c : ℕ) (s ext : Str) → Splits s ext → Splits (c ∷ s) ext
further c s ext (base, rest, e, p, q, r) = (c ∷ base, rest, ap (λ t. c ∷ t) e, p, q, r)

search_extension_lem : (s ext : Str) → search_extension s ≡ some ext → Splits s ext
unfolding search_extension
search_extension_lem [] ext h = cc
search_extension_lem (c ∷ s) ext h = elim (first_match_lem (match_here (c ∷ s)) _ h) [
  | inl e ↦ match_here_lem (c ∷ s) ext e
  | inr e ↦ further c s ext (search_extension_lem s ext e)
]

-- An extension that is found is a nonempty lowercase word between a dot and the final .t of the
-- name.
extract_extension_sound : (name ext : Str) → extract_extension name ≡ ok ext → Splits name ext
unfolding extract_extension
extract_extension_sound name ext h = search_extension_lem name ext (ground arith)
