-- ===== src/Filter/Tests.antt =====
-- Both blocks with natural numbers for Python's.
use gr_digitizers.Prelude.{ℕ, ◌*◌, ◌==◌, ◌≡◌, ◌≢◌, refl, none, [], ◌∷◌}
use gr_digitizers.Prelude.Result.{ok, err, type_error}
use gr_digitizers.Filter.Kit.{sequence, Params, fir, iir, Kit, Block, designed}
use gr_digitizers.Filter.Custom
use gr_digitizers.Filter.Custom.Selection.{
  given, choose, held, optional, construct-choose, construct_no_bypass,
}
use gr_digitizers.Filter.Embedded
use gr_digitizers.Filter.Embedded.Setter.{plain, construct-set_upper_cutoff}

-- The design of a low pass gives its gain and its upper frequency as taps.
abbrev sample_kit : Kit ℕ
sample_kit = record {
  one = 1;
  nonpositive = λ n. n == 0;
  mul = λ a b. a * b;
  low_pass = λ gain rate upper transition. ok (gain ∷ upper ∷ []);
  band_pass = λ gain rate lower upper transition. ok (gain ∷ lower ∷ upper ∷ []);
  fir_filter = λ d t. ok (fir d t);
  iir_filter = λ forward feedback. ok (iir forward feedback);
  set_taps = λ f t. elim f [ fir d u ↦ ok (fir d t) | iir a b ↦ err type_error ];
  run = λ f input. ok input;
}

abbrev sample_params : Params ℕ
sample_params = record {
  decimation = 1;
  sampling_frequency = 1000;
  lower_cutoff = 0;
  upper_cutoff = 10;
  transition = 1;
  forward_taps = sequence [];
  feedback_taps = sequence [];
}

abbrev no_block : Block ℕ
no_block = record { params = sample_params; fir_taps = none; filter = none }

construct-choose_example :
    held (Custom.construct sample_kit (given sample_params (1 ∷ []) (2 ∷ [])) no_block)
    ≡ optional (choose sample_kit sample_params (1 ∷ []) (2 ∷ []))
construct-choose_example = construct-choose sample_kit sample_params (1 ∷ []) (2 ∷ []) no_block

construct_no_bypass_example :
    (Custom.construct sample_kit (given sample_params [] (2 ∷ [])) no_block).0 ≢ ok tt
construct_no_bypass_example = construct_no_bypass sample_kit sample_params 2 [] no_block

construct-set_upper_cutoff_example :
    Embedded.set_upper_cutoff sample_kit 20
      (Embedded.construct sample_kit (plain sample_params 1 10) no_block).1
    ≡ Embedded.construct sample_kit (plain sample_params 1 20) no_block
unfolding designed
construct-set_upper_cutoff_example =
    construct-set_upper_cutoff sample_kit sample_params 10 20 (1 ∷ 10 ∷ []) (1 ∷ 20 ∷ []) no_block
      no_block refl refl refl refl refl
