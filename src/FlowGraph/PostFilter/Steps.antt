-- ===== src/FlowGraph/PostFilter/Steps.antt =====
-- What holds after the parts that the setters share, if it holds after the assignments they make.
use gr_digitizers.Prelude.{◌≡◌}
use gr_digitizers.Prelude.Result.{ok}
use gr_digitizers.Prelude.Exec.{lift, ◌>>=◌, ◌>>◌}
use gr_digitizers.FlowGraph.Arith.{Arith, After, lift-After, lift_bind-After}
use gr_digitizers.FlowGraph.PostFilter.{Blocks, TopBlock, corrected, period, weight}
use gr_digitizers.FlowGraph.PostFilter.Setters.{
  set_alpha_low, set_alpha, set_freq_max_corr, set_ts, update_alpha, update_alpha_low,
  update_freq_max_corr, update_range, configure,
}

module _ {V : Type 0} (N : Arith V) where
  abbrev pub with_alpha : V → TopBlock V → TopBlock V
  with_alpha y s = record s {
    derived = record s.derived { alpha = y };
    blocks = record s.blocks { single_pole_iir_filter_xx_0_0 = y; single_pole_iir_filter_xx_0 = y };
  }

  abbrev pub with_low : V → TopBlock V → TopBlock V
  with_low x s = record s {
    derived = record s.derived { alpha_low = x };
    blocks = record s.blocks { single_pole_iir_filter_xx_0_1 = x };
  }

  abbrev pub with_corr : V → TopBlock V → TopBlock V
  with_corr x s = record s { derived = record s.derived { freq_max_corr = x } }

  abbrev pub with_ts : V → TopBlock V → TopBlock V
  with_ts x s = record s { derived = record s.derived { ts = x } }

  abbrev pub with_two_pi : V → TopBlock V → TopBlock V
  with_two_pi x s = record s { derived = record s.derived { two_pi = x } }

  abbrev pub with_range : V → TopBlock V → TopBlock V
  with_range x s = record s { blocks = record s.blocks { freq_sink_x_0_0 = x } }

  abbrev pub rates : V → Blocks V → Blocks V
  rates v b = record b { freq_sink_x_0 = v; throttle = v; sig_source_x_0_0 = v; sig_source_x_0 = v }

  abbrev pub with_rates : V → TopBlock V → TopBlock V
  with_rates v s = record s { blocks = rates v s.blocks }

  -- The weights that belong to a state.
  abbrev pub Low : V → TopBlock V → Type 0
  Low x s = weight N s.derived.two_pi s.derived.ts s.vars.freq_min ≡ ok x

  abbrev pub Alpha : V → TopBlock V → Type 0
  Alpha y s = weight N s.derived.two_pi s.derived.ts s.derived.freq_max_corr ≡ ok y

  module _ (P : TopBlock V → Type 0) where
    pub update_alpha-After :
        (s : TopBlock V) → ((y : V) → Alpha y s → P (with_alpha y s)) → After P (update_alpha N s)
    unfolding set_alpha
    update_alpha-After s h =
        lift-After P (weight N s.derived.two_pi s.derived.ts s.derived.freq_max_corr) (set_alpha N)
          s h

    pub update_both-After :
        (s : TopBlock V)
        → ((x y : V) → Low x s → Alpha y s → P (with_alpha y (with_low x s)))
        → After P ((update_alpha_low N >> update_alpha N) s)
    unfolding set_alpha_low
    update_both-After s h =
        lift_bind-After P (weight N s.derived.two_pi s.derived.ts s.vars.freq_min) (set_alpha_low N)
          (λ _. update_alpha N) s λ x e. update_alpha-After (with_low x s) λ y f. h x y e f

    pub update_freq_max_corr-After :
        (s : TopBlock V)
        → ((x y : V)
            → corrected N s.vars.freq_max s.vars.sqrt2 ≡ ok x
            → Alpha y (with_corr x s)
            → P (with_alpha y (with_corr x s)))
        → After P (update_freq_max_corr N s)
    unfolding set_freq_max_corr
    update_freq_max_corr-After s h =
        lift-After P (corrected N s.vars.freq_max s.vars.sqrt2) (set_freq_max_corr N) s
          λ x e. update_alpha-After (with_corr x s) λ y f. h x y e f

    -- `set_samp_rate` after its own assignments.
    pub samp_rate-After :
        (s : TopBlock V) (v : V)
        → ((q ts x y : V)
            → N.div s.vars.samp_rate s.vars.decimate ≡ ok q
            → period N v ≡ ok ts
            → Low x (with_ts ts s)
            → Alpha y (with_ts ts s)
            → P (with_alpha y (with_low x (with_ts ts (with_rates v (with_range q s))))))
        → After P ((update_range N >> (configure (rates v) >> (lift (period N v) >>= set_ts N))) s)
    unfolding set_ts
    samp_rate-After s v h =
        lift_bind-After P (N.div s.vars.samp_rate s.vars.decimate)
          (λ q. configure (λ b. record b { freq_sink_x_0_0 = q }))
          (λ _. configure (rates v) >> (lift (period N v) >>= set_ts N)) s
          λ q e0. lift-After P (period N v) (set_ts N) (with_rates v (with_range q s)) λ ts e1.
            update_both-After (with_ts ts (with_rates v (with_range q s)))
              λ x y e f. h q ts x y e0 e1 e f
