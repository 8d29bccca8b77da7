-- ===== src/FlowGraph/ErrorPropagation/Fresh.antt =====
-- What `__init__` leaves in a flow graph, and that a setter keeps it.
use gr_digitizers.Prelude.{◌≡◌, refl}
use gr_digitizers.Prelude.Result.{Result, ok}
use gr_digitizers.FlowGraph.Arith.{Arith, After, lift-After, lift_bind-After}
use gr_digitizers.FlowGraph.ErrorPropagation.{
  GraphVariables, Graph, option_index, square, cube, chain_of,
}
use gr_digitizers.FlowGraph.ErrorPropagation.Setters.{
  Setting, to_samp_rate, to_freq_transition, to_freq_max, to_decimation, to_out_delay,
  to_input_noise_est, to_freq_min, to_algorithm_id, to_filter_taps_b, to_filter_taps_a,
  to_filter_taps, settled, set_one, set_fir_lp, set_freq_min_of, set_filter_taps_b,
  set_filter_taps_a, set_filter_taps, set_algorithm_id, set_input_noise_est, set_freq_transition,
  set_freq_max_of, set_samp_rate_of, set_out_delay, set_decimation,
}

module _ {V T : Type 0} (N : Arith V) (design : V → V → V → Result T) where
  -- What `__init__` computes of the rate, the two frequencies, the decimation and the delay.
  pub record Computed (samp_rate freq_max freq_transition decimation out_delay : V) (fir : T)
      : Type 0 where
    pub delay1 : V
    pub delay2 : V
    pub rate1 : V
    pub rate2 : V
    pub rate3 : V
    pub fir_eq : design samp_rate freq_max freq_transition ≡ ok fir
    pub delay1_eq : N.div out_delay decimation ≡ ok delay1
    pub delay2_eq : N.div delay1 decimation ≡ ok delay2
    pub rate2_eq : N.div samp_rate (square N decimation) ≡ ok rate2
    pub rate1_eq : N.div samp_rate decimation ≡ ok rate1
    pub rate3_eq : N.div samp_rate (cube N decimation) ≡ ok rate3

  -- The flow graph is as `__init__` makes it of the values `v`, but for what no setter sets.
  pub record Fresh (v : GraphVariables V T) (s : Graph V T) : Type 0 where
    pub computed :
        Computed v.samp_rate v.freq_max v.freq_transition v.decimation v.out_delay s.fir_lp
    pub vars_eq : s.vars ≡ v
    pub label_eq : s.label_0_0 ≡ v.decimation
    pub combo_eq : option_index v.algorithm_id ≡ ok s.combo_box_index
    pub chain_eq :
        s.chain
        ≡ chain_of v s.fir_lp computed.delay1 computed.delay2 computed.rate1 computed.rate2
            computed.rate3

  samp_rate-Fresh :
      (v : GraphVariables V T) (s : Graph V T) (x : V)
      → Fresh v s
      → After (Fresh (settled (to_samp_rate x) v)) (set_samp_rate_of N design x s)
  unfolding set_samp_rate_of set_fir_lp
  samp_rate-Fresh v s x h =
      rw (h.vars_eq, h.chain_eq)
        (lift_bind-After (Fresh (settled (to_samp_rate x) v))
          (design x v.freq_max v.freq_transition) _ _ _
          λ fir e.
            lift-After (Fresh (settled (to_samp_rate x) v)) (N.div x (square N v.decimation)) _ _
              λ rate2 e2.
                lift-After (Fresh (settled (to_samp_rate x) v)) (N.div x v.decimation) _ _
                  λ rate1 e1.
                    lift-After (Fresh (settled (to_samp_rate x) v)) (N.div x (cube N v.decimation))
                      _ _
                      λ rate3 e3.
                        rw (e2, e1)
                          record {
                            computed = record {
                              delay1 = h.computed.delay1;
                              delay2 = h.computed.delay2;
                              rate1 = rate1;
                              rate2 = rate2;
                              rate3 = rate3;
                              fir_eq = e;
                              delay1_eq = h.computed.delay1_eq;
                              delay2_eq = h.computed.delay2_eq;
                              rate2_eq = e2;
                              rate1_eq = e1;
                              rate3_eq = e3;
                            };
                            vars_eq = refl;
                            label_eq = h.label_eq;
                            combo_eq = h.combo_eq;
                            chain_eq = refl;
                          })

  freq_transition-Fresh :
      (v : GraphVariables V T) (s : Graph V T) (x : V)
      → Fresh v s
      → After (Fresh (settled (to_freq_transition x) v)) (set_freq_transition N design x s)
  unfolding set_freq_transition set_fir_lp
  freq_transition-Fresh v s x h =
      rw (h.vars_eq, h.chain_eq)
        (lift_bind-After (Fresh (settled (to_freq_transition x) v))
          (design v.samp_rate v.freq_max x) _ _ _
          λ fir e. record {
            computed = record {
              delay1 = h.computed.delay1;
              delay2 = h.computed.delay2;
              rate1 = h.computed.rate1;
              rate2 = h.computed.rate2;
              rate3 = h.computed.rate3;
              fir_eq = e;
              delay1_eq = h.computed.delay1_eq;
              delay2_eq = h.computed.delay2_eq;
              rate2_eq = h.computed.rate2_eq;
              rate1_eq = h.computed.rate1_eq;
              rate3_eq = h.computed.rate3_eq;
            };
            vars_eq = refl;
            label_eq = h.label_eq;
            combo_eq = h.combo_eq;
            chain_eq = refl;
          })

  freq_max-Fresh :
      (v : GraphVariables V T) (s : Graph V T) (x : V)
      → Fresh v s
      → After (Fresh (settled (to_freq_max x) v)) (set_freq_max_of N design x s)
  unfolding set_freq_max_of set_fir_lp
  freq_max-Fresh v s x h =
      rw (h.vars_eq, h.chain_eq)
        (lift_bind-After (Fresh (settled (to_freq_max x) v))
          (design v.samp_rate x v.freq_transition) _ _ _
          λ fir e. record {
            computed = record {
              delay1 = h.computed.delay1;
              delay2 = h.computed.delay2;
              rate1 = h.computed.rate1;
              rate2 = h.computed.rate2;
              rate3 = h.computed.rate3;
              fir_eq = e;
              delay1_eq = h.computed.delay1_eq;
              delay2_eq = h.computed.delay2_eq;
              rate2_eq = h.computed.rate2_eq;
              rate1_eq = h.computed.rate1_eq;
              rate3_eq = h.computed.rate3_eq;
            };
            vars_eq = refl;
            label_eq = h.label_eq;
            combo_eq = h.combo_eq;
            chain_eq = refl;
          })

  out_delay-Fresh :
      (v : GraphVariables V T) (s : Graph V T) (x : V)
      → Fresh v s
      → After (Fresh (settled (to_out_delay x) v)) (set_out_delay N design x s)
  unfolding set_out_delay
  out_delay-Fresh v s x h =
      rw (h.vars_eq, h.chain_eq)
        (lift-After (Fresh (settled (to_out_delay x) v)) (N.div x v.decimation) _ _ λ delay1 e1.
          lift-After (Fresh (settled (to_out_delay x) v)) (N.div delay1 v.decimation) _ _
            λ delay2 e2. rw e1 record {
              computed = record {
                delay1 = delay1;
                delay2 = delay2;
                rate1 = h.computed.rate1;
                rate2 = h.computed.rate2;
                rate3 = h.computed.rate3;
                fir_eq = h.computed.fir_eq;
                delay1_eq = e1;
                delay2_eq = e2;
                rate2_eq = h.computed.rate2_eq;
                rate1_eq = h.computed.rate1_eq;
                rate3_eq = h.computed.rate3_eq;
              };
              vars_eq = refl;
              label_eq = h.label_eq;
              combo_eq = h.combo_eq;
              chain_eq = refl;
            })

  decimation-Fresh :
      (v : GraphVariables V T) (s : Graph V T) (x : V)
      → Fresh v s
      → After (Fresh (settled (to_decimation x) v)) (set_decimation N design x s)
  unfolding set_decimation
  decimation-Fresh v s x h =
      rw (h.vars_eq, h.chain_eq)
        (lift-After (Fresh (settled (to_decimation x) v)) (N.div v.out_delay x) _ _ λ delay1 d1.
          lift-After (Fresh (settled (to_decimation x) v)) (N.div delay1 x) _ _ λ delay2 d2.
            lift-After (Fresh (settled (to_decimation x) v)) (N.div v.samp_rate (square N x)) _ _
              λ rate2 e2. rw d1 (
                lift-After (Fresh (settled (to_decimation x) v)) (N.div v.samp_rate x) _ _
                  λ rate1 e1.
                    lift-After (Fresh (settled (to_decimation x) v)) (N.div v.samp_rate (cube N x))
                      _ _
                      λ rate3 e3.
                        rw (e2, e1)
                          record {
                            computed = record {
                              delay1 = delay1;
                              delay2 = delay2;
                              rate1 = rate1;
                              rate2 = rate2;
                              rate3 = rate3;
                              fir_eq = h.computed.fir_eq;
                              delay1_eq = d1;
                              delay2_eq = d2;
                              rate2_eq = e2;
                              rate1_eq = e1;
                              rate3_eq = e3;
                            };
                            vars_eq = refl;
                            label_eq = refl;
                            combo_eq = h.combo_eq;
                            chain_eq = refl;
                          }))

  pub set_one-Fresh :
      (c : Setting V T) (v : GraphVariables V T) (s : Graph V T)
      → Fresh v s
      → After (Fresh (settled c v)) (set_one N design c s)
  unfolding set_one set_input_noise_est set_freq_min_of set_algorithm_id set_filter_taps_b
      set_filter_taps_a set_filter_taps
  set_one-Fresh (to_samp_rate x) v s h = samp_rate-Fresh v s x h
  set_one-Fresh (to_freq_transition x) v s h = freq_transition-Fresh v s x h
  set_one-Fresh (to_freq_max x) v s h = freq_max-Fresh v s x h
  set_one-Fresh (to_decimation x) v s h = decimation-Fresh v s x h
  set_one-Fresh (to_out_delay x) v s h = out_delay-Fresh v s x h
  set_one-Fresh (to_input_noise_est x) v s h =
      rw (h.vars_eq, h.chain_eq)
        record {
          computed = h.computed;
          vars_eq = refl;
          label_eq = h.label_eq;
          combo_eq = h.combo_eq;
          chain_eq = refl;
        }
  set_one-Fresh (to_freq_min x) v s h =
      rw (h.vars_eq, h.chain_eq)
        record {
          computed = h.computed;
          vars_eq = refl;
          label_eq = h.label_eq;
          combo_eq = h.combo_eq;
          chain_eq = refl;
        }
  set_one-Fresh (to_algorithm_id x) v s h =
      rw (h.vars_eq, h.chain_eq)
        (lift-After (Fresh (settled (to_algorithm_id x) v)) (option_index x) _ _ λ i e. record {
          computed = h.computed;
          vars_eq = refl;
          label_eq = h.label_eq;
          combo_eq = e;
          chain_eq = refl;
        })
  set_one-Fresh (to_filter_taps_b x) v s h =
      rw (h.vars_eq, h.chain_eq)
        record {
          computed = h.computed;
          vars_eq = refl;
          label_eq = h.label_eq;
          combo_eq = h.combo_eq;
          chain_eq = refl;
        }
  set_one-Fresh (to_filter_taps_a x) v s h =
      rw (h.vars_eq, h.chain_eq)
        record {
          computed = h.computed;
          vars_eq = refl;
          label_eq = h.label_eq;
          combo_eq = h.combo_eq;
          chain_eq = refl;
        }
  set_one-Fresh (to_filter_taps x) v s h =
      rw (h.vars_eq, h.chain_eq)
        record {
          computed = h.computed;
          vars_eq = refl;
          label_eq = h.label_eq;
          combo_eq = h.combo_eq;
          chain_eq = refl;
        }
