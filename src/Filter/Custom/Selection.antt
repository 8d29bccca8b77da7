-- ===== src/Filter/Custom/Selection.antt =====
-- Which filter a custom filter block is made with.
use gr_digitizers.Prelude.{
  leb-suc_zero, ltb-zero_suc, length, ◌≡◌, ◌≢◌, refl, inl, inr, Option, none, some, List, [], ◌∷◌,
}
use gr_digitizers.Prelude.Result.{Result-cases, Result, ok, err, ◌>>=◌, type_error}
use gr_digitizers.Prelude.Exec.{and_then}
use gr_digitizers.Filter.Kit.{
  sequence, number, len, Params, Filter, Kit, Block, put_filter, designed,
}
use gr_digitizers.Filter.Custom.{init_fir, init_iir, init_filter, test_filter, construct}

-- Arguments whose taps are sequences.
abbrev pub given : {F : Type 0} → Params F → List F → List F → Params F
given p forward feedback = record p {
  forward_taps = sequence forward;
  feedback_taps = sequence feedback;
}

module _ {F : Type 0} where
  -- What a construction gives: the filter that the block holds.
  abbrev pub held : Result (Unit {0}) × Block F → Result (Option (Filter F))
  held (ok a, s) = ok s.filter
  held (err e, s) = err e

  abbrev pub optional : Result (Filter F) → Result (Option (Filter F))
  optional r = r >>= λ f. ok (some f)

module _ {F : Type 0} (K : Kit F) where
  -- The filter by the two sequences of taps: none given, only forward ones, both, or only feedback
  -- ones, where the block is not made.
  unfoldable pub choose : Params F → List F → List F → Result (Filter F)
  choose p [] [] =
      designed K p.decimation (given p [] []) >>= λ ts. K.fir_filter p.decimation (sequence ts)
  choose p (c ∷ cs) [] = K.fir_filter p.decimation (sequence (c ∷ cs))
  choose p (c ∷ cs) (d ∷ ds) = K.iir_filter (sequence (c ∷ cs)) (sequence (d ∷ ds))
  choose p [] (d ∷ ds) = K.iir_filter (number 1) (number 0) >>= λ _. err type_error

  -- The end of a construction whose taps are numbers.
  bypass :
      (r : Result (Filter F)) (p : Params F)
      → let fallen : Block F = record {
        params = record p { forward_taps = number 1; feedback_taps = number 0 };
        fir_taps = none;
        filter = none;
      } in
        held (
          and_then
            (and_then r put_filter fallen).0
            (λ _. test_filter)
            (and_then r put_filter fallen).1)
        ≡ optional (r >>= λ _. err type_error)
  unfolding test_filter len
  bypass (ok f) p = refl
  bypass (err e) p = refl

  -- The constructor of the custom filter block makes the filter that the two sequences of taps
  -- choose, for every outcome of the filter design and of the constructors of the filters.
  pub construct-choose :
      (p : Params F) (forward feedback : List F) (s : Block F)
      → held (construct K (given p forward feedback) s) ≡ optional (choose p forward feedback)
  unfolding construct init_filter init_fir init_iir test_filter len choose
  construct-choose p [] [] s = elim (Result-cases (designed K p.decimation (given p [] []))) [
    | inl (ts, e) ↦ elim (Result-cases (K.fir_filter p.decimation (sequence ts))) [
      | inl (f, g) ↦ rw e (rw g)
      | inr (f, g) ↦ rw e (rw g)
    ]
    | inr (x, e) ↦ rw e
  ]
  construct-choose p (c ∷ cs) [] s =
      elim (Result-cases (K.fir_filter p.decimation (sequence (c ∷ cs)))) [
        | inl (f, g) ↦ rw (leb-suc_zero (length cs)) (rw g)
        | inr (f, g) ↦ rw (leb-suc_zero (length cs)) (rw g)
      ]
  construct-choose p (c ∷ cs) (d ∷ ds) s =
      elim (Result-cases (K.iir_filter (sequence (c ∷ cs)) (sequence (d ∷ ds)))) [
        | inl (f, g) ↦
            rw (leb-suc_zero (length ds), ltb-zero_suc (length cs), ltb-zero_suc (length ds)) (rw g)
        | inr (f, g) ↦
            rw (leb-suc_zero (length ds), ltb-zero_suc (length cs), ltb-zero_suc (length ds)) (rw g)
      ]
  construct-choose p [] (d ∷ ds) s =
      rw (leb-suc_zero (length ds)) (bypass (K.iir_filter (number 1) (number 0)) p)

  not_made :
      (r : Result (Filter F)) (m : Result (Unit {0}) × Block F)
      → held m ≡ optional (r >>= λ _. err type_error)
      → m.0 ≢ ok tt
  not_made (ok f) (ok a, s) h e = cc
  not_made (err x) (ok a, s) h e = cc
  not_made r (err y, s) h e = cc

  -- With feedback taps and no forward taps the constructor of the custom filter block never returns.
  pub construct_no_bypass :
      (p : Params F) (d : F) (ds : List F) (s : Block F)
      → (construct K (given p [] (d ∷ ds)) s).0 ≢ ok tt
  unfolding choose
  construct_no_bypass p d ds s =
      not_made (K.iir_filter (number 1) (number 0)) _ (construct-choose p [] (d ∷ ds) s)
