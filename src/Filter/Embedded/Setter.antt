-- ===== src/Filter/Embedded/Setter.antt =====
-- The setter of the upper frequency, against making the block anew.
use gr_digitizers.Prelude.{leb-suc_zero, length, ◌≡◌, ◌≢◌, refl, inl, inr, none, List, [], ◌∷◌}
use gr_digitizers.Prelude.Result.{Result-cases, ok}
use gr_digitizers.Filter.Kit.{sequence, len, Params, fir, Kit, Block, designed}
use gr_digitizers.Filter.Embedded.{init_fir, init_iir, construct, set_upper_cutoff}

-- Arguments without taps, and with a decimation and an upper frequency.
abbrev pub plain : {F : Type 0} → Params F → F → F → Params F
plain p decimation upper = record p {
  decimation = decimation;
  upper_cutoff = upper;
  forward_taps = sequence [];
  feedback_taps = sequence [];
}

-- Arguments with feedback taps alone.
abbrev pub one_sided : {F : Type 0} → Params F → List F → Params F
one_sided p feedback = record p { forward_taps = sequence []; feedback_taps = sequence feedback }

module _ {F : Type 0} (K : Kit F) where
  -- For a block without taps and with decimation 1, where both designs succeed, an FIR filter can be
  -- made of the taps of either, and the filter of the first taps takes the second, setting the upper
  -- frequency gives the block that is made with it.
  pub construct-set_upper_cutoff :
      (p : Params F) (u v : F) (before after : List F) (s t : Block F)
      → designed K K.one (plain p K.one u) ≡ ok before
      → designed K K.one (plain p K.one v) ≡ ok after
      → K.fir_filter K.one (sequence before) ≡ ok (fir K.one (sequence before))
      → K.fir_filter K.one (sequence after) ≡ ok (fir K.one (sequence after))
      → K.set_taps (fir K.one (sequence before)) (sequence after) ≡ ok (fir K.one (sequence after))
      → set_upper_cutoff K v (construct K (plain p K.one u) s).1 ≡ construct K (plain p K.one v) t
  unfolding construct init_fir set_upper_cutoff len
  construct-set_upper_cutoff p u v before after s t h k made remade replaced =
      rw h (rw made (rw k (rw (replaced, remade))))

  -- With feedback taps and no forward taps the constructor returns, but without a filter.
  construct-unset :
      (p : Params F) (d : F) (ds : List F) (s : Block F)
      → construct K (one_sided p (d ∷ ds)) s
        ≡ (ok tt, record { params = one_sided p (d ∷ ds); fir_taps = none; filter = none })
  unfolding construct init_iir len
  construct-unset p d ds s = rw (leb-suc_zero (length ds))

  unset_raises :
      (p : Params F) (v : F)
      → (set_upper_cutoff K v (record { params = p; fir_taps = none; filter = none })).0 ≢ ok tt
  unfolding set_upper_cutoff
  unset_raises p v = elim (Result-cases (designed K K.one (record p { upper_cutoff = v }))) [
    | inl (ts, e) ↦ rw e (λ h. cc)
    | inr (x, e) ↦ rw e (λ h. cc)
  ]

  -- With feedback taps and no forward taps the constructor of the embedded block returns without a
  -- filter, and the setter then never returns.
  set_upper_cutoff_unset :
      (p : Params F) (d v : F) (ds : List F) (s : Block F)
      → ((construct K (one_sided p (d ∷ ds)) s).0 ≡ ok tt)
        × ((set_upper_cutoff K v (construct K (one_sided p (d ∷ ds)) s).1).0 ≢ ok tt)
  set_upper_cutoff_unset p d v ds s =
      rw (construct-unset p d ds s) (refl, unset_raises (one_sided p (d ∷ ds)) v)
