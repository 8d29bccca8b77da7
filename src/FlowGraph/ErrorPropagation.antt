-- ===== src/FlowGraph/ErrorPropagation.antt =====
-- The flow graph examples/SAT/reference/Reference Implementation/B3_ErrorPropagation.py: its variables,
-- the parameters of its blocks that depend on them, and its setters.
pub mod Setters
pub mod Fresh
pub mod Restart
use gr_digitizers.Prelude.{ℕ, ◌+◌, ◌==◌, if◌then◌else◌, List, [], ◌∷◌}
use gr_digitizers.Prelude.Result.{Result, ok, err, value_error, ◌>>=◌}
use gr_digitizers.Prelude.Exec
use gr_digitizers.Prelude.Exec.{Exec, pure, lift, modify}
use gr_digitizers.FlowGraph.Arith.{Arith}

-- The variables that no other determines; the three sequences of taps are of type `T`, and the ID of the
-- algorithm is an integer that is not negative.
pub record GraphVariables (V T : Type 0) : Type 0 where
  pub samp_rate : V
  pub freq_transition : V
  pub freq_max : V
  pub decimation : V
  pub out_delay : V
  pub input_noise_est : V
  pub freq_min : V
  pub filter_taps_b : T
  pub filter_taps_a : T
  pub filter_taps : T
  pub algorithm_id : ℕ

-- A block of class `block_aggregation`
pub record Aggregation (V T : Type 0) : Type 0 where
  pub algorithm_id : ℕ
  pub decimation1 : V
  pub delay : V
  pub fir_taps : T
  pub freq_max : V
  pub freq_min : V
  pub freq_transition : V
  pub iir_feedback_taps : T
  pub iir_forward_taps : T
  pub samp_rate : V

-- The blocks by their names, each with the parameter that is set.
pub record Chain (V T : Type 0) : Type 0 where
  pub block_aggregation : Aggregation V T
  pub block_aggregation_0_0 : Aggregation V T
  pub block_aggregation_0 : Aggregation V T
  pub throttle_0 : V
  pub keep_one_in_n_0_1 : V
  pub keep_one_in_n_0_0_0 : V
  pub keep_one_in_n_0_0 : V
  pub keep_one_in_n_0 : V
  pub sig_source_x_0 : V
  pub const_source_x_0 : V
  pub sample_example_0_0 : V
  pub sample_example_0 : V
  pub sample_example : V

-- What is set when it is made, and by no setter: the sizes of the three sinks, and the upper end of the
-- range that the delay is chosen from.
pub record Sizes (V : Type 0) : Type 0 where
  pub size_0_0 : V
  pub size_0 : V
  pub size : V
  pub out_delay_limit : V

pub record Graph (V T : Type 0) : Type 0 where
  pub vars : GraphVariables V T
  pub fir_lp : T
  pub label_0_0 : V
  pub combo_box_index : ℕ
  pub chain : Chain V T
  pub sizes : Sizes V

abbrev pub algorithm_id_options : List ℕ
algorithm_id_options = 0 ∷ 1 ∷ 2 ∷ 3 ∷ 4 ∷ 5 ∷ 6 ∷ []

-- `options.index (v)`, counted from `i`.
unfoldable pub index_from : ℕ → ℕ → List ℕ → Result ℕ
index_from i v [] = err value_error
index_from i v (o ∷ os) = let rest = index_from (i + 1) v os in if o == v then ok i else rest

-- The index that `_algorithm_ID_callback` gives the combo box.
unfoldable pub option_index : ℕ → Result ℕ
unfolding index_from
option_index v = index_from 0 v algorithm_id_options

module _ {V : Type 0} (N : Arith V) where
  abbrev pub square : V → V
  square d = N.mul d d

  abbrev pub cube : V → V
  cube d = N.mul (N.mul d d) d

module _ {V T : Type 0} where
  abbrev pub aggregation : GraphVariables V T → T → V → V → Aggregation V T
  aggregation v fir delay rate = record {
    algorithm_id = v.algorithm_id;
    decimation1 = v.decimation;
    delay = delay;
    fir_taps = fir;
    freq_max = v.freq_max;
    freq_min = v.freq_min;
    freq_transition = v.freq_transition;
    iir_feedback_taps = v.filter_taps_a;
    iir_forward_taps = v.filter_taps_b;
    samp_rate = rate;
  }

  -- The blocks, with the delays and the rates of the second and third stage and the rate behind it.
  abbrev pub chain_of : GraphVariables V T → T → V → V → V → V → V → Chain V T
  chain_of v fir delay1 delay2 rate1 rate2 rate3 = record {
    block_aggregation = aggregation v fir v.out_delay v.samp_rate;
    block_aggregation_0_0 = aggregation v fir delay2 rate2;
    block_aggregation_0 = aggregation v fir delay1 rate1;
    throttle_0 = v.samp_rate;
    keep_one_in_n_0_1 = v.decimation;
    keep_one_in_n_0_0_0 = v.decimation;
    keep_one_in_n_0_0 = v.decimation;
    keep_one_in_n_0 = v.decimation;
    sig_source_x_0 = v.samp_rate;
    const_source_x_0 = v.input_noise_est;
    sample_example_0_0 = rate3;
    sample_example_0 = rate2;
    sample_example = rate1;
  }

-- `design` is `firdes.low_pass` of the sampling rate, the upper frequency and the transition width.
module _ {V T : Type 0} (N : Arith V) (design : V → V → V → Result T) where
  -- `__init__`, with other values for the variables.
  unfoldable pub make : GraphVariables V T → Result (Graph V T)
  unfolding option_index
  make v = do
    fir ← design v.samp_rate v.freq_max v.freq_transition
    let out_delay_limit = N.mul (N.num 2) v.samp_rate
    shown ← option_index v.algorithm_id
    delay1 ← N.div v.out_delay v.decimation
    delay2 ← N.div delay1 v.decimation
    rate2 ← N.div v.samp_rate (square N v.decimation)
    rate1 ← N.div v.samp_rate v.decimation
    rate3 ← N.div v.samp_rate (cube N v.decimation)
    ok record {
      vars = v;
      fir_lp = fir;
      label_0_0 = v.decimation;
      combo_box_index = shown;
      chain = chain_of v fir delay1 delay2 rate1 rate2 rate3;
      sizes = record {
        size_0_0 = rate3;
        size_0 = rate2;
        size = rate1;
        out_delay_limit = out_delay_limit;
      };
    }
