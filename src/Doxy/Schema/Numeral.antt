-- ===== src/Doxy/Schema/Numeral.antt =====
-- The integers of attributes: what is read of a text, and read again of what is written for it.
use mathlib.Core.List.{reverse, reverse-cons, reverse-reverse}
use gr_digitizers.Prelude.{
  subst, ℕ, ◌≡◌, refl, ap, true, false, [], ◌∷◌, ◌++◌, All, Bool-cases, inl, inr, ◌==◌, arith,
  if◌then◌else◌,
}
use gr_digitizers.Prelude.Str.{Str, codes, str_eq, strip, lstrip, is_space}
use gr_digitizers.Prelude.Result.{ok, err, value_error, ok-injective}
use gr_digitizers.Doxy.Compound.Member.{integer, digits, is_digit, unsigned, signed}
use gr_digitizers.Doxy.Schema.Conforms.{test_cases}
use gr_digitizers.Doxy.Schema.Build.{int, without_zeros, negated, numeral}

abbrev Solid : Str → Type 0
Solid = All (λ c. is_space c ≡ false)

append-Solid : (s t : Str) → Solid s → Solid t → Solid (s ++ t)
append-Solid [] t h k = k
append-Solid (c ∷ s) t h k = (h.0, append-Solid s t h.1 k)

reverse-Solid : (s : Str) → Solid s → Solid (reverse s)
reverse-Solid [] h = tt
reverse-Solid (c ∷ s) h =
    rw (reverse-cons c s) (append-Solid (reverse s) (c ∷ []) (reverse-Solid s h.1) (h.0, tt))

lstrip-Solid : (s : Str) → Solid s → lstrip s ≡ s
unfolding lstrip
lstrip-Solid [] h = refl
lstrip-Solid (c ∷ s) h = rw h.0

strip-Solid : (s : Str) → Solid s → strip s ≡ s
unfolding strip
strip-Solid s h =
    rw (lstrip-Solid s h, lstrip-Solid (reverse s) (reverse-Solid s h)) (reverse-reverse s)

digit-Solid : (c : ℕ) → is_digit c ≡ true → is_space c ≡ false
unfolding is_space
digit-Solid c h = ground arith

digits-Solid : (s : Str) → digits s ≡ true → Solid s
unfolding digits
digits-Solid [] h = tt
digits-Solid (c ∷ s) h = (digit-Solid c (ground arith), digits-Solid s (ground arith))

-- Without the zeros it is still a numeral, and has no more of them.
without_zeros-digits : (s : Str) → digits s ≡ true → unsigned (without_zeros s) ≡ true
unfolding without_zeros digits
without_zeros-digits [] h = refl
without_zeros-digits (c ∷ s) h = elim (Bool-cases (c == b'0')) [
  | inl e ↦ rw e (without_zeros-digits s (ground arith))
  | inr e ↦ rw e h
]

without_zeros_twice : (s : Str) → without_zeros (without_zeros s) ≡ without_zeros s
unfolding without_zeros
without_zeros_twice [] = refl
without_zeros_twice (c ∷ s) = elim (Bool-cases (c == b'0')) [
  | inl e ↦ rw e (without_zeros_twice s)
  | inr e ↦ rw (e, e)
]

-- A numeral that `int` gives.
Canonical : Str → Type 0
Canonical i = Solid i × (signed i ≡ true) × (numeral i ≡ i)

first_digit : (d : ℕ) (ds : Str) → digits (d ∷ ds) ≡ true → is_digit d ≡ true
unfolding digits
first_digit d ds h = ground arith

not_sign : (d : ℕ) → is_digit d ≡ true → ((d == b'-') ≡ false) × ((d == b'+') ≡ false)
not_sign d h = (ground arith, ground arith)

unsigned-Canonical : (w : Str) → unsigned w ≡ true → without_zeros w ≡ w → Canonical w
unfolding Canonical
unsigned-Canonical [] h e = cc
unsigned-Canonical (d ∷ ds) h e =
    let (minus, plus) = not_sign d (first_digit d ds h) in
    (digits-Solid (d ∷ ds) h, rw (minus, plus) h, rw (minus, plus) e)

unsigned-digits : (s : Str) → unsigned s ≡ true → digits s ≡ true
unsigned-digits [] h = cc
unsigned-digits (c ∷ s) h = h

zeros-Canonical : (s : Str) → unsigned s ≡ true → Canonical (without_zeros s)
zeros-Canonical s h =
    unsigned-Canonical (without_zeros s) (without_zeros-digits s (unsigned-digits s h))
      (without_zeros_twice s)

negated-Canonical : (w : Str) → unsigned w ≡ true → without_zeros w ≡ w → Canonical (negated w)
negated-Canonical w h e = elim (Bool-cases (str_eq w (codes "0"))) [
  | inl f ↦ rw f (unsigned-Canonical w h e)
  | inr f ↦ rw f (
      unfold Canonical in
      ((unfold is_space in refl, digits-Solid w (unsigned-digits w h)), h, rw (e, f)))
]

numeral-Canonical : (t : Str) → signed t ≡ true → Canonical (numeral t)
numeral-Canonical [] h = cc
numeral-Canonical (c ∷ u) h =
    elim (test_cases (c == b'-') (unsigned u) (if c == b'+' then unsigned u else unsigned (c ∷ u))
      true h) [
        | inl (e, k) ↦ rw e (
            negated-Canonical (without_zeros u) (without_zeros-digits u (unsigned-digits u k))
              (without_zeros_twice u))
        | inr (e, k) ↦ elim (test_cases (c == b'+') (unsigned u) (unsigned (c ∷ u)) true k) [
          | inl (f, g) ↦ rw (e, f) (zeros-Canonical u g)
          | inr (f, g) ↦ rw (e, f) (zeros-Canonical (c ∷ u) g)
        ]
      ]

int-Canonical : (i : Str) → Canonical i → int i ≡ ok i
unfolding int Canonical integer
int-Canonical i (solid, number, same) = rw (strip-Solid i solid, number) (ap ok same)

-- The numeral that int gives is one that int reads as itself.
pub int-int : (s i : Str) → int s ≡ ok i → int i ≡ ok i
unfolding int integer
int-int s i h =
    elim (test_cases (signed (strip s)) (ok (numeral (strip s))) (err value_error) (ok i) h) [
      | inl (e, k) ↦
          int-Canonical i (subst Canonical (ok-injective _ i k) (numeral-Canonical (strip s) e))
      | inr (e, k) ↦ cc
    ]

pub int-signed : (s i : Str) → int s ≡ ok i → signed i ≡ true
unfolding int integer Canonical
int-signed s i h =
    elim (test_cases (signed (strip s)) (ok (numeral (strip s))) (err value_error) (ok i) h) [
      | inl (e, k) ↦
          subst (λ j. signed j ≡ true) (ok-injective _ i k) (numeral-Canonical (strip s) e).1
      | inr (e, k) ↦ cc
    ]
