-- ===== src/BuildUtils/Dicts/Laws.antt =====
-- How the entries of a dictionary relate, and the base names.
use mathlib.Core.List.{reverse, reverse-append, reverse-reverse}
use mathlib.Core.Path.{subst}
use gr_digitizers.Prelude.{
  ℕ, ◌≡◌, ◌↔◌, ◌⊎◌, refl, sym, ◌∙◌, ap, Bool, true, false, some, none, [], ◌∷◌, ◌++◌, ◌==◌, arith,
  append_assoc,
}
use gr_digitizers.Prelude.Str.{Str, codes, str_eq}
use gr_digitizers.Prelude.Dict.{Dict, lookup, lookup-append}
use gr_digitizers.Prelude.Result.{Result, ok, err, ok-injective, ◌>>=◌}
use gr_digitizers.Codes.{i_code, o_code, i_type, o_type, tap_type, char_to_type}
use gr_digitizers.BuildUtils.Dicts.{
  one, name_entries, entries_of, complex_of, is_complex, type_entries, standard_dict, strip_prefix,
  base_name, lstrip_of, rstrip_of, impl_char, impl_base_name,
}

abbrev gr_complex : Str
gr_complex = codes "gr_complex"

-- What the entries of a dictionary say of one another.
abbrev pub Consistent : Dict Str → Type 0
Consistent d = (lookup (codes "IS_COMPLEX") d ≡ some one) ↔ (
    (lookup (codes "I_TYPE") d ≡ some gr_complex) ⊎ (lookup (codes "O_TYPE") d ≡ some gr_complex))

abbrev Agree : Str → Str → Str → Type 0
Agree i o x = (x ≡ one) ↔ ((i ≡ gr_complex) ⊎ (o ≡ gr_complex))

char_to_type-complex :
    (c : ℕ) (t : Str) → char_to_type c ≡ ok t → ((c == b'c') ≡ true) ↔ (t ≡ gr_complex)
unfolding char_to_type
char_to_type-complex c t h = ground arith

complex_of-Agree :
    (ri ro : Result ℕ) (i o x : Str)
    → (ri >>= char_to_type) ≡ ok i
    → (ro >>= char_to_type) ≡ ok o
    → complex_of ri ro ≡ ok x
    → Agree i o x
complex_of-Agree (ok a) (ok b) i o x hi ho hx =
    ground (arith, char_to_type-complex a i, char_to_type-complex b o)
complex_of-Agree (err e) ro i o x hi ho hx = cc
complex_of-Agree (ok a) (err e) i o x hi ho hx = cc

is_complex-Agree :
    (code3 i o x : Str)
    → i_type code3 ≡ ok i
    → o_type code3 ≡ ok o
    → is_complex code3 ≡ ok x
    → Agree i o x
unfolding i_type o_type is_complex
is_complex-Agree code3 = complex_of-Agree (i_code code3) (o_code code3)

Agree-some :
    (i o x : Str)
    → Agree i o x
    → (some x ≡ some one) ↔ ((some i ≡ some gr_complex) ⊎ (some o ≡ some gr_complex))
Agree-some i o x h = ground arith

-- What a dictionary of types needs to be consistent, whatever stands in front of it.
entries_of-Consistent :
    (front : Dict Str) (ri ro rt rx : Result Str) (d : Dict Str)
    → ((v w x : Str) → ri ≡ ok v → ro ≡ ok w → rx ≡ ok x → Agree v w x)
    → lookup (codes "IS_COMPLEX") front ≡ none
    → lookup (codes "I_TYPE") front ≡ none
    → lookup (codes "O_TYPE") front ≡ none
    → (entries_of ri ro rt rx >>= λ ts. ok (front ++ ts)) ≡ ok d
    → Consistent d
entries_of-Consistent front (ok v) (ok w) (ok t) (ok x) d agree nx ni no' h =
    subst Consistent (ok-injective _ d h) (
      rw (lookup-append _ front _ nx, lookup-append _ front _ ni, lookup-append _ front _ no')
        (unfold lookup str_eq in Agree-some v w x (agree v w x refl refl refl)))
entries_of-Consistent front (err e) ro rt rx d agree nx ni no' h = cc
entries_of-Consistent front (ok v) (err e) rt rx d agree nx ni no' h = cc
entries_of-Consistent front (ok v) (ok w) (err e) rx d agree nx ni no' h = cc
entries_of-Consistent front (ok v) (ok w) (ok t) (err e) d agree nx ni no' h = cc

-- In a dictionary of standard_dict IS_COMPLEX is "1" exactly when the input or the output type is
-- gr_complex.
standard_dict-Consistent :
    (name code3 pkg : Str) (d : Dict Str) → standard_dict name code3 pkg ≡ ok d → Consistent d
unfolding standard_dict type_entries lookup str_eq
standard_dict-Consistent name code3 pkg d h =
    entries_of-Consistent (name_entries name pkg) (i_type code3) (o_type code3) (tap_type code3)
      (is_complex code3) d (is_complex-Agree code3) refl refl refl h

lstrip_of-drop :
    (chars : ℕ → Bool) (c : ℕ) (t : Str)
    → chars c ≡ true
    → lstrip_of chars (c ∷ t) ≡ lstrip_of chars t
unfolding lstrip_of
lstrip_of-drop chars c t h = rw h

lstrip_of-keep :
    (chars : ℕ → Bool) (c : ℕ) (t : Str) → chars c ≡ false → lstrip_of chars (c ∷ t) ≡ c ∷ t
unfolding lstrip_of
lstrip_of-keep chars c t h = rw h

module _ (chars : ℕ → Bool) (s : Str) (c : ℕ) where
  -- A last character of the set goes, another one stops the strip.
  rstrip_of-drop : chars c ≡ true → rstrip_of chars (s ++ (c ∷ [])) ≡ rstrip_of chars s
  unfolding rstrip_of
  rstrip_of-drop h =
      ap (λ r. reverse (lstrip_of chars r)) (reverse-append s (c ∷ []))
      ∙ ap reverse (lstrip_of-drop chars c (reverse s) h)

  rstrip_of-keep : chars c ≡ false → rstrip_of chars (s ++ (c ∷ [])) ≡ s ++ (c ∷ [])
  unfolding rstrip_of
  rstrip_of-keep h =
      ap (λ r. reverse (lstrip_of chars r)) (reverse-append s (c ∷ []))
      ∙ (ap reverse (lstrip_of-keep chars c (reverse s) h ∙ sym (reverse-append s (c ∷ [])))
          ∙ reverse-reverse (s ++ (c ∷ [])))

snoc : (s : Str) (c : ℕ) (t : Str) → s ++ (c ∷ t) ≡ (s ++ (c ∷ [])) ++ t
snoc s c t = sym (append_assoc s (c ∷ []) t)

-- `rstrip ("impl")` takes off the letters that a name has behind its last `_`.
rstrip-impl : (base : Str) → rstrip_of impl_char (base ++ codes "_impl") ≡ base ++ (b'_' ∷ [])
rstrip-impl base =
    let b = base ++ (b'_' ∷ []) in
    let bi = b ++ (b'i' ∷ []) in
    let bim = bi ++ (b'm' ∷ []) in
    let bimp = bim ++ (b'p' ∷ []) in
    ap (rstrip_of impl_char) (
      snoc base b'_' (codes "impl")
      ∙ (snoc b b'i' (codes "mpl") ∙ (snoc bi b'm' (codes "pl") ∙ snoc bim b'p' (codes "l"))))
    ∙ (rstrip_of-drop impl_char bimp b'l' refl
        ∙ (rstrip_of-drop impl_char bim b'p' refl
            ∙ (rstrip_of-drop impl_char bi b'm' refl
                ∙ (rstrip_of-drop impl_char b b'i' refl
                    ∙ rstrip_of-keep impl_char base b'_' refl))))

-- The base name of base_impl is base where base does not end in an underscore.
impl_base_name-impl :
    (base : Str) (c : ℕ)
    → (c == b'_') ≡ false
    → impl_base_name ((base ++ (c ∷ [])) ++ codes "_impl") ≡ base ++ (c ∷ [])
unfolding impl_base_name
impl_base_name-impl base c h =
    ap (rstrip_of (λ x. x == b'_')) (rstrip-impl (base ++ (c ∷ [])))
    ∙ (rstrip_of-drop (λ x. x == b'_') (base ++ (c ∷ [])) b'_' refl
        ∙ rstrip_of-keep (λ x. x == b'_') base c h)

strip_prefix-append : (name prefix rest : Str) → strip_prefix name prefix (prefix ++ rest) ≡ rest
unfolding strip_prefix
strip_prefix-append name [] rest = refl
strip_prefix-append name (p ∷ prefix) rest = ground (arith, strip_prefix-append name prefix rest)

-- The base name of `pkg_base` is `base`.
pub base_name-package : (pkg base : Str) → base_name pkg (pkg ++ (codes "_" ++ base)) ≡ base
unfolding base_name
base_name-package pkg base =
    rw (← append_assoc pkg (codes "_") base) (strip_prefix-append _ (pkg ++ codes "_") base)
