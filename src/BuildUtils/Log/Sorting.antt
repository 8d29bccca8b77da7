-- ===== src/BuildUtils/Log/Sorting.antt =====
-- The order of `sort`, and sorting of permuted names.
use mathlib.Core.HLevel.{hedberg}
use mathlib.Core.Logic.{∥∥₁_elim}
use mathlib.Core.List.{Perm, Permᴰ}
use native.Mathlib.Decide.{ℕ_discrete}
use gr_digitizers.Prelude.{◌≡◌, refl, ◌∙◌, true, false, List, [], ◌∷◌, arith}
use gr_digitizers.Prelude.Str.{Str}
use gr_digitizers.BuildUtils.Log.{str_lt, insert_sorted, sort}

str_lt-asym : (s t : Str) → str_lt s t ≡ true → str_lt t s ≡ false
unfolding str_lt
str_lt-asym [] [] h = refl
str_lt-asym [] (b ∷ t) h = refl
str_lt-asym (a ∷ s) [] h = cc
str_lt-asym (a ∷ s) (b ∷ t) h = ground (arith, str_lt-asym s t)

str_lt-connex : (s t : Str) → str_lt s t ≡ false → str_lt t s ≡ false → s ≡ t
unfolding str_lt
str_lt-connex [] [] h k = refl
str_lt-connex [] (b ∷ t) h k = cc
str_lt-connex (a ∷ s) [] h k = cc
str_lt-connex (a ∷ s) (b ∷ t) h k = ground (arith, str_lt-connex s t)

str_lt_trans : (r s t : Str) → str_lt r s ≡ true → str_lt s t ≡ true → str_lt r t ≡ true
unfolding str_lt
str_lt_trans [] [] t h k = cc
str_lt_trans [] (b ∷ s) [] h k = cc
str_lt_trans [] (b ∷ s) (c ∷ t) h k = refl
str_lt_trans (a ∷ r) [] t h k = cc
str_lt_trans (a ∷ r) (b ∷ s) [] h k = cc
str_lt_trans (a ∷ r) (b ∷ s) (c ∷ t) h k = ground (arith, str_lt_trans r s t)

pub insert_sorted_comm :
    (a b : Str) (ts : List Str)
    → insert_sorted a (insert_sorted b ts) ≡ insert_sorted b (insert_sorted a ts)
unfolding insert_sorted
insert_sorted_comm a b [] = ground (arith, str_lt-asym a b, str_lt-asym b a, str_lt-connex a b)
insert_sorted_comm a b (t ∷ ts) = ground (
  arith,
  str_lt-asym a b,
  str_lt-connex a b,
  str_lt_trans t a b,
  str_lt_trans t b a,
  str_lt_trans a b t,
  str_lt-connex t a,
  str_lt-connex t b,
  insert_sorted_comm a b ts,
)

sort-Permᴰ : {ss ts : List Str} → Permᴰ ss ts → sort ss ≡ sort ts
unfolding sort
sort-Permᴰ Permᴰ.nil = refl
sort-Permᴰ (Permᴰ.cons e p) = cc (e, sort-Permᴰ p)
sort-Permᴰ (Permᴰ.swap {a = a} {b = b} {l = l} e f) = cc (e, f, insert_sorted_comm a b (sort l))
sort-Permᴰ (Permᴰ.trans p q) = sort-Permᴰ p ∙ sort-Permᴰ q

pub Str-list-discrete : Discrete (List Str)
Str-list-discrete = hlevel ℕ_discrete

-- Two logs of the same names, in whatever order, sort alike; so the generated files do not depend
-- on the order in which the build named its outputs.
pub sort-perm : (ss ts : List Str) → Perm ss ts → sort ss ≡ sort ts
sort-perm ss ts p = ∥∥₁_elim p (hedberg Str-list-discrete _ _) (λ q. sort-Permᴰ q)
