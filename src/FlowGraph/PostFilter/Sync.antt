-- ===== src/FlowGraph/PostFilter/Sync.antt =====
-- Variables and blocks that agree, and the setters.
use gr_digitizers.Prelude.{List, [], ◌∷◌, ◌≡◌, refl}
use gr_digitizers.Prelude.Result.{ok}
use gr_digitizers.FlowGraph.Arith.{Arith, After, lift-After, and_then-After, lift_bind-After}
use gr_digitizers.FlowGraph.PostFilter.{TopBlock, corrected, period, weight}
use gr_digitizers.FlowGraph.PostFilter.Setters.{
  Call, sqrt2, samp_rate, freq_max, pi, freq_min, decimate, call, calls, set_alpha_low, set_two_pi,
  set_sqrt2, set_freq_max, set_pi, set_freq_min, set_samp_rate, set_decimate, configure,
}
use gr_digitizers.FlowGraph.PostFilter.Steps.{
  with_two_pi, update_both-After, update_freq_max_corr-After, samp_rate-After,
}

module _ {V : Type 0} (N : Arith V) where
  -- The variables that others determine have the values that `__init__` computes, and the blocks'
  -- parameters are the variables.
  pub record Synced (s : TopBlock V) : Type 0 where
    pub corr_eq : corrected N s.vars.freq_max s.vars.sqrt2 ≡ ok s.derived.freq_max_corr
    pub ts_eq : period N s.vars.samp_rate ≡ ok s.derived.ts
    pub two_pi_eq : s.derived.two_pi ≡ N.mul (N.num 2) s.vars.pi
    pub low_eq : weight N s.derived.two_pi s.derived.ts s.vars.freq_min ≡ ok s.derived.alpha_low
    pub alpha_eq :
        weight N s.derived.two_pi s.derived.ts s.derived.freq_max_corr ≡ ok s.derived.alpha
    pub range_eq : N.div s.vars.samp_rate s.vars.decimate ≡ ok s.blocks.freq_sink_x_0_0
    pub low_tap : s.blocks.single_pole_iir_filter_xx_0_1 ≡ s.derived.alpha_low
    pub tap_0 : s.blocks.single_pole_iir_filter_xx_0_0 ≡ s.derived.alpha
    pub tap : s.blocks.single_pole_iir_filter_xx_0 ≡ s.derived.alpha
    pub time_rate : s.blocks.time_sink_rate ≡ s.vars.samp_rate
    pub freq_range : s.blocks.freq_sink_x_0 ≡ s.vars.samp_rate
    pub throttled : s.blocks.throttle ≡ s.vars.samp_rate
    pub source_0 : s.blocks.sig_source_x_0_0 ≡ s.vars.samp_rate
    pub source : s.blocks.sig_source_x_0 ≡ s.vars.samp_rate
    pub kept_0 : s.blocks.keep_one_in_n_0_0 ≡ s.vars.decimate
    pub kept : s.blocks.keep_one_in_n_0 ≡ s.vars.decimate

  pub call-Synced : (c : Call V) (s : TopBlock V) → Synced s → After Synced (call N c s)
  unfolding call set_sqrt2 set_freq_max set_pi set_freq_min set_samp_rate set_decimate set_two_pi
      set_alpha_low
  call-Synced (sqrt2 v) s h =
      update_freq_max_corr-After N Synced (record s { vars = record s.vars { sqrt2 = v } })
        λ x y e f. record {
          corr_eq = e;
          ts_eq = h.ts_eq;
          two_pi_eq = h.two_pi_eq;
          low_eq = h.low_eq;
          alpha_eq = f;
          range_eq = h.range_eq;
          low_tap = h.low_tap;
          tap_0 = refl;
          tap = refl;
          time_rate = h.time_rate;
          freq_range = h.freq_range;
          throttled = h.throttled;
          source_0 = h.source_0;
          source = h.source;
          kept_0 = h.kept_0;
          kept = h.kept;
        }
  call-Synced (samp_rate v) s h =
      samp_rate-After N Synced
        (record s {
          vars = record s.vars { samp_rate = v };
          blocks = record s.blocks { time_sink_rate = v };
        })
        v
        λ q ts x y e0 e1 e f. record {
          corr_eq = h.corr_eq;
          ts_eq = e1;
          two_pi_eq = h.two_pi_eq;
          low_eq = e;
          alpha_eq = f;
          range_eq = e0;
          low_tap = refl;
          tap_0 = refl;
          tap = refl;
          time_rate = refl;
          freq_range = refl;
          throttled = refl;
          source_0 = refl;
          source = refl;
          kept_0 = h.kept_0;
          kept = h.kept;
        }
  call-Synced (freq_max v) s h =
      update_freq_max_corr-After N Synced (record s { vars = record s.vars { freq_max = v } })
        λ x y e f. record {
          corr_eq = e;
          ts_eq = h.ts_eq;
          two_pi_eq = h.two_pi_eq;
          low_eq = h.low_eq;
          alpha_eq = f;
          range_eq = h.range_eq;
          low_tap = h.low_tap;
          tap_0 = refl;
          tap = refl;
          time_rate = h.time_rate;
          freq_range = h.freq_range;
          throttled = h.throttled;
          source_0 = h.source_0;
          source = h.source;
          kept_0 = h.kept_0;
          kept = h.kept;
        }
  call-Synced (pi v) s h =
      update_both-After N Synced
        (with_two_pi N (N.mul (N.num 2) v) (record s { vars = record s.vars { pi = v } }))
        λ x y e f. record {
          corr_eq = h.corr_eq;
          ts_eq = h.ts_eq;
          two_pi_eq = refl;
          low_eq = e;
          alpha_eq = f;
          range_eq = h.range_eq;
          low_tap = refl;
          tap_0 = refl;
          tap = refl;
          time_rate = h.time_rate;
          freq_range = h.freq_range;
          throttled = h.throttled;
          source_0 = h.source_0;
          source = h.source;
          kept_0 = h.kept_0;
          kept = h.kept;
        }
  call-Synced (freq_min v) s h =
      lift-After Synced (weight N s.derived.two_pi s.derived.ts v) (set_alpha_low N)
        (record s { vars = record s.vars { freq_min = v } })
        λ x e. record {
          corr_eq = h.corr_eq;
          ts_eq = h.ts_eq;
          two_pi_eq = h.two_pi_eq;
          low_eq = e;
          alpha_eq = h.alpha_eq;
          range_eq = h.range_eq;
          low_tap = refl;
          tap_0 = h.tap_0;
          tap = h.tap;
          time_rate = h.time_rate;
          freq_range = h.freq_range;
          throttled = h.throttled;
          source_0 = h.source_0;
          source = h.source;
          kept_0 = h.kept_0;
          kept = h.kept;
        }
  call-Synced (decimate v) s h =
      lift_bind-After Synced (N.div s.vars.samp_rate v)
        (λ q. configure (λ b. record b { freq_sink_x_0_0 = q }))
        (λ _. configure (λ b. record b { keep_one_in_n_0_0 = v; keep_one_in_n_0 = v }))
        (record s { vars = record s.vars { decimate = v } })
        λ q e. record {
          corr_eq = h.corr_eq;
          ts_eq = h.ts_eq;
          two_pi_eq = h.two_pi_eq;
          low_eq = h.low_eq;
          alpha_eq = h.alpha_eq;
          range_eq = e;
          low_tap = h.low_tap;
          tap_0 = h.tap_0;
          tap = h.tap;
          time_rate = h.time_rate;
          freq_range = h.freq_range;
          throttled = h.throttled;
          source_0 = h.source_0;
          source = h.source;
          kept_0 = refl;
          kept = refl;
        }

  pub calls-Synced : (cs : List (Call V)) (s : TopBlock V) → Synced s → After Synced (calls N cs s)
  unfolding calls
  calls-Synced [] s h = h
  calls-Synced (c ∷ cs) s h =
      and_then-After Synced (call N c s).0 _ (call N c s).1 (call-Synced c s h)
        λ _ k. calls-Synced cs _ k
