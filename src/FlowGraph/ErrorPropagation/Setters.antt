-- ===== src/FlowGraph/ErrorPropagation/Setters.antt =====
-- The setters. Each assigns its variable and then sets the parameters of the blocks; what was set before
-- a division by zero or a design that fails stays set.
use gr_digitizers.Prelude.{ℕ, List, [], ◌∷◌}
use gr_digitizers.Prelude.Result.{Result, ok}
use gr_digitizers.Prelude.Exec.{Exec, pure, lift, modify, ◌>>=◌, ◌>>◌}
use gr_digitizers.FlowGraph.Arith.{Arith}
use gr_digitizers.FlowGraph.ErrorPropagation.{
  GraphVariables, Aggregation, Chain, Graph, option_index, square, cube,
}

module _ {V T : Type 0} where
  abbrev pub assign_setting :
      (GraphVariables V T → GraphVariables V T) → Exec (Graph V T) (Unit {0})
  assign_setting f = modify (λ s. record s { vars = f s.vars })

  abbrev pub set_chain : (Chain V T → Chain V T) → Exec (Graph V T) (Unit {0})
  set_chain f = modify (λ s. record s { chain = f s.chain })

  abbrev pub graph : Exec (Graph V T) (Graph V T)
  graph s = (ok s, s)

  -- A call on each of the three blocks
  abbrev pub aggregations : (Aggregation V T → Aggregation V T) → Exec (Graph V T) (Unit {0})
  aggregations f = set_chain (λ b. record b {
    block_aggregation = f b.block_aggregation;
    block_aggregation_0_0 = f b.block_aggregation_0_0;
    block_aggregation_0 = f b.block_aggregation_0;
  })

  unfoldable pub set_fir_lp : T → Exec (Graph V T) (Unit {0})
  set_fir_lp fir = do
    modify (λ s. record s { fir_lp = fir })
    aggregations (λ a. record a { fir_taps = fir })

  unfoldable pub set_freq_min_of : V → Exec (Graph V T) (Unit {0})
  set_freq_min_of v = do
    assign_setting (λ r. record r { freq_min = v })
    aggregations (λ a. record a { freq_min = v })

  unfoldable pub set_filter_taps_b : T → Exec (Graph V T) (Unit {0})
  set_filter_taps_b t = do
    assign_setting (λ r. record r { filter_taps_b = t })
    aggregations (λ a. record a { iir_forward_taps = t })

  unfoldable pub set_filter_taps_a : T → Exec (Graph V T) (Unit {0})
  set_filter_taps_a t = do
    assign_setting (λ r. record r { filter_taps_a = t })
    aggregations (λ a. record a { iir_feedback_taps = t })

  unfoldable pub set_filter_taps : T → Exec (Graph V T) (Unit {0})
  set_filter_taps t = assign_setting (λ r. record r { filter_taps = t })

  -- The callback sets the combo box to the ID, a `ValueError` for an ID without an option. Where this
  -- changes its index, Qt calls the setter with the option at the new index; that is the same ID, so this
  -- call assigns the same values, and is left out.
  unfoldable pub set_algorithm_id : ℕ → Exec (Graph V T) (Unit {0})
  unfolding option_index
  set_algorithm_id v = do
    assign_setting (λ r. record r { algorithm_id = v })
    i ← lift (option_index v)
    modify (λ s. record s { combo_box_index = i })
    aggregations (λ a. record a { algorithm_id = v })

  unfoldable pub set_input_noise_est : V → Exec (Graph V T) (Unit {0})
  set_input_noise_est v = do
    assign_setting (λ r. record r { input_noise_est = v })
    set_chain (λ b. record b { const_source_x_0 = v })

module _ {V T : Type 0} (N : Arith V) (design : V → V → V → Result T) where
  abbrev pub update_fir : Exec (Graph V T) (Unit {0})
  update_fir = do
    s ← graph
    fir ← lift (design s.vars.samp_rate s.vars.freq_max s.vars.freq_transition)
    set_fir_lp fir

  unfoldable pub set_freq_transition : V → Exec (Graph V T) (Unit {0})
  unfolding set_fir_lp
  set_freq_transition v = do
    assign_setting (λ r. record r { freq_transition = v })
    update_fir
    aggregations (λ a. record a { freq_transition = v })

  unfoldable pub set_freq_max_of : V → Exec (Graph V T) (Unit {0})
  unfolding set_fir_lp
  set_freq_max_of v = do
    assign_setting (λ r. record r { freq_max = v })
    update_fir
    aggregations (λ a. record a { freq_max = v })

  -- The rates of the three sinks
  abbrev pub update_examples : Exec (Graph V T) (Unit {0})
  update_examples = do
    s ← graph
    rate3 ← lift (N.div s.vars.samp_rate (cube N s.vars.decimation))
    set_chain (λ b. record b { sample_example_0_0 = rate3 })
    rate2 ← lift (N.div s.vars.samp_rate (square N s.vars.decimation))
    set_chain (λ b. record b { sample_example_0 = rate2 })
    rate1 ← lift (N.div s.vars.samp_rate s.vars.decimation)
    set_chain (λ b. record b { sample_example = rate1 })

  abbrev pub set_second : (Aggregation V T → Aggregation V T) → Exec (Graph V T) (Unit {0})
  set_second f = set_chain (λ b. record b { block_aggregation_0 = f b.block_aggregation_0 })

  abbrev pub set_third : (Aggregation V T → Aggregation V T) → Exec (Graph V T) (Unit {0})
  set_third f = set_chain (λ b. record b { block_aggregation_0_0 = f b.block_aggregation_0_0 })

  unfoldable pub set_samp_rate_of : V → Exec (Graph V T) (Unit {0})
  unfolding set_fir_lp
  set_samp_rate_of v = do
    assign_setting (λ r. record r { samp_rate = v })
    update_fir
    set_chain (λ b. record b {
      block_aggregation = record b.block_aggregation { samp_rate = v };
      throttle_0 = v;
    })
    s ← graph
    rate2 ← lift (N.div v (square N s.vars.decimation))
    set_third (λ a. record a { samp_rate = rate2 })
    rate1 ← lift (N.div v s.vars.decimation)
    set_second (λ a. record a { samp_rate = rate1 })
    set_chain (λ b. record b { sig_source_x_0 = v })
    update_examples

  unfoldable pub set_out_delay : V → Exec (Graph V T) (Unit {0})
  set_out_delay v = do
    assign_setting (λ r. record r { out_delay = v })
    set_chain (λ b. record b { block_aggregation = record b.block_aggregation { delay = v } })
    s ← graph
    once ← lift (N.div v s.vars.decimation)
    delay2 ← lift (N.div once s.vars.decimation)
    set_third (λ a. record a { delay = delay2 })
    delay1 ← lift (N.div v s.vars.decimation)
    set_second (λ a. record a { delay = delay1 })

  unfoldable pub set_decimation : V → Exec (Graph V T) (Unit {0})
  set_decimation v = do
    assign_setting (λ r. record r { decimation = v })
    set_chain (λ b. record b { block_aggregation = record b.block_aggregation { decimation1 = v } })
    modify (λ s. record s { label_0_0 = v })
    set_chain (λ b. record b {
      keep_one_in_n_0_1 = v;
      keep_one_in_n_0_0_0 = v;
      keep_one_in_n_0_0 = v;
      keep_one_in_n_0 = v;
    })
    set_third (λ a. record a { decimation1 = v })
    s ← graph
    once ← lift (N.div s.vars.out_delay v)
    delay2 ← lift (N.div once v)
    set_third (λ a. record a { delay = delay2 })
    rate2 ← lift (N.div s.vars.samp_rate (square N v))
    set_third (λ a. record a { samp_rate = rate2 })
    set_second (λ a. record a { decimation1 = v })
    delay1 ← lift (N.div s.vars.out_delay v)
    set_second (λ a. record a { delay = delay1 })
    rate1 ← lift (N.div s.vars.samp_rate v)
    set_second (λ a. record a { samp_rate = rate1 })
    update_examples

-- A call of a setter of a variable that no other determines.
pub data Setting (V T : Type 0) : Type 0 where
  to_samp_rate to_freq_transition to_freq_max to_decimation to_out_delay : V → Setting V T
  to_input_noise_est to_freq_min : V → Setting V T
  to_algorithm_id : ℕ → Setting V T
  to_filter_taps_b to_filter_taps_a to_filter_taps : T → Setting V T

module _ {V T : Type 0} where
  abbrev pub settled : Setting V T → GraphVariables V T → GraphVariables V T
  settled (to_samp_rate v) r = record r { samp_rate = v }
  settled (to_freq_transition v) r = record r { freq_transition = v }
  settled (to_freq_max v) r = record r { freq_max = v }
  settled (to_decimation v) r = record r { decimation = v }
  settled (to_out_delay v) r = record r { out_delay = v }
  settled (to_input_noise_est v) r = record r { input_noise_est = v }
  settled (to_freq_min v) r = record r { freq_min = v }
  settled (to_algorithm_id v) r = record r { algorithm_id = v }
  settled (to_filter_taps_b t) r = record r { filter_taps_b = t }
  settled (to_filter_taps_a t) r = record r { filter_taps_a = t }
  settled (to_filter_taps t) r = record r { filter_taps = t }

  abbrev pub all_settled : List (Setting V T) → GraphVariables V T → GraphVariables V T
  all_settled [] r = r
  all_settled (c ∷ cs) r = all_settled cs (settled c r)

module _ {V T : Type 0} (N : Arith V) (design : V → V → V → Result T) where
  unfoldable pub set_one : Setting V T → Exec (Graph V T) (Unit {0})
  unfolding set_samp_rate_of set_freq_transition set_freq_max_of set_decimation set_out_delay
      set_input_noise_est set_freq_min_of set_algorithm_id set_filter_taps_b set_filter_taps_a
      set_filter_taps
  set_one (to_samp_rate v) = set_samp_rate_of N design v
  set_one (to_freq_transition v) = set_freq_transition N design v
  set_one (to_freq_max v) = set_freq_max_of N design v
  set_one (to_decimation v) = set_decimation N design v
  set_one (to_out_delay v) = set_out_delay N design v
  set_one (to_input_noise_est v) = set_input_noise_est v
  set_one (to_freq_min v) = set_freq_min_of v
  set_one (to_algorithm_id v) = set_algorithm_id v
  set_one (to_filter_taps_b t) = set_filter_taps_b t
  set_one (to_filter_taps_a t) = set_filter_taps_a t
  set_one (to_filter_taps t) = set_filter_taps t

  unfoldable pub set_all : List (Setting V T) → Exec (Graph V T) (Unit {0})
  unfolding set_one
  set_all [] = pure tt
  set_all (c ∷ cs) = do set_one c; set_all cs
