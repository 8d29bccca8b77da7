-- ===== src/SwigDoc/Texts/Names.antt =====
-- The names that are derived from a block's name.
use gr_digitizers.Prelude.{
  ℕ, ◌≡◌, refl, ◌∙◌, ap, true, false, List, [], ◌∷◌, ◌++◌, ◌==◌, arith, All, Bool-cases, inl, inr,
}
use gr_digitizers.Prelude.Str.{Str, codes, join}
use gr_digitizers.SwigDoc.Texts.{split_on, py_name, make_name}

abbrev Without : ℕ → Str → Type 0
Without c = All (λ x. (x == c) ≡ false)

split_on-append :
    (c : ℕ) (s t : Str)
    → Without c s
    → split_on c (s ++ (c ∷ t)) ≡ (s, (split_on c t).0 ∷ (split_on c t).1)
unfolding split_on
split_on-append c [] t h = ground arith
split_on-append c (x ∷ s) t (h, hs) = rw (h, split_on-append c s t hs)

join-cons :
    (x : ℕ) (s : Str) (ss : List Str) (sep : Str) → join sep ((x ∷ s) ∷ ss) ≡ x ∷ join sep (s ∷ ss)
unfolding join
join-cons x s [] sep = refl
join-cons x s (t ∷ ss) sep = refl

-- Joining the parts that a text is split into gives the text back.
join-split_on : (c : ℕ) (s : Str) → join (c ∷ []) ((split_on c s).0 ∷ (split_on c s).1) ≡ s
unfolding split_on
join-split_on c [] = unfold join in refl
join-split_on c (x ∷ s) = elim (Bool-cases (x == c)) [
  | inl e ↦ rw e (first_empty c x s e (join-split_on c s))
  | inr e ↦ rw e (join-cons x _ _ (c ∷ []) ∙ ap (λ t. x ∷ t) (join-split_on c s))
]
  where
    first_empty :
        (c x : ℕ) (s : Str)
        → (x == c) ≡ true
        → join (c ∷ []) ((split_on c s).0 ∷ (split_on c s).1) ≡ s
        → join (c ∷ []) ([] ∷ (split_on c s).0 ∷ (split_on c s).1) ≡ x ∷ s
    first_empty c x s e h = let same : c ≡ x = ground arith in unfold join in (cc (same, h))

-- For a module without an underscore, py_name of module_rest is rest and make_name of it is
-- module_make_rest.
make_name-py_name :
    (module_name rest : Str)
    → Without b'_' module_name
    → (py_name (module_name ++ (b'_' ∷ rest)) ≡ rest)
      × (make_name (module_name ++ (b'_' ∷ rest)) ≡ module_name ++ (codes "_make_" ++ rest))
unfolding py_name make_name
make_name-py_name m rest h =
    rw (split_on-append b'_' m rest h, join-split_on b'_' rest) (refl, refl)
