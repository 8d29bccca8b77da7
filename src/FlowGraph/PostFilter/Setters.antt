-- ===== src/FlowGraph/PostFilter/Setters.antt =====
-- The setters. Each assigns its variable, then the blocks' parameters, then calls the setters of the
-- variables that it determines; a division by zero leaves what was done before it.
use gr_digitizers.Prelude.{List, [], ◌∷◌}
use gr_digitizers.Prelude.Result.{ok}
use gr_digitizers.Prelude.Exec.{Exec, pure, lift, modify, ◌>>=◌, ◌>>◌}
use gr_digitizers.FlowGraph.Arith.{Arith}
use gr_digitizers.FlowGraph.PostFilter.{
  Variables, Derived, Blocks, TopBlock, corrected, period, weight,
}

module _ {V : Type 0} where
  abbrev pub assign : (Variables V → Variables V) → Exec (TopBlock V) (Unit {0})
  assign f = modify (λ s. record s { vars = f s.vars })

  abbrev pub assign_derived : (Derived V → Derived V) → Exec (TopBlock V) (Unit {0})
  assign_derived f = modify (λ s. record s { derived = f s.derived })

  abbrev pub configure : (Blocks V → Blocks V) → Exec (TopBlock V) (Unit {0})
  configure f = modify (λ s. record s { blocks = f s.blocks })

  abbrev pub self : Exec (TopBlock V) (TopBlock V)
  self s = (ok s, s)

module _ {V : Type 0} (N : Arith V) where
  unfoldable pub set_alpha_low : V → Exec (TopBlock V) (Unit {0})
  set_alpha_low v = do
    assign_derived (λ d. record d { alpha_low = v })
    configure (λ b. record b { single_pole_iir_filter_xx_0_1 = v })

  unfoldable pub set_alpha : V → Exec (TopBlock V) (Unit {0})
  set_alpha v = do
    assign_derived (λ d. record d { alpha = v })
    configure (λ b. record b { single_pole_iir_filter_xx_0_0 = v; single_pole_iir_filter_xx_0 = v })

  abbrev pub update_alpha_low : Exec (TopBlock V) (Unit {0})
  update_alpha_low = do
    s ← self
    v ← lift (weight N s.derived.two_pi s.derived.ts s.vars.freq_min)
    set_alpha_low v

  abbrev pub update_alpha : Exec (TopBlock V) (Unit {0})
  update_alpha = do
    s ← self
    v ← lift (weight N s.derived.two_pi s.derived.ts s.derived.freq_max_corr)
    set_alpha v

  unfoldable pub set_freq_max_corr : V → Exec (TopBlock V) (Unit {0})
  unfolding set_alpha
  set_freq_max_corr v = do assign_derived (λ d. record d { freq_max_corr = v }); update_alpha

  unfoldable pub set_ts : V → Exec (TopBlock V) (Unit {0})
  unfolding set_alpha_low set_alpha
  set_ts v = do assign_derived (λ d. record d { ts = v }); update_alpha_low; update_alpha

  unfoldable pub set_two_pi : V → Exec (TopBlock V) (Unit {0})
  unfolding set_alpha_low set_alpha
  set_two_pi v = do assign_derived (λ d. record d { two_pi = v }); update_alpha_low; update_alpha

  abbrev pub update_freq_max_corr : Exec (TopBlock V) (Unit {0})
  update_freq_max_corr = do
    s ← self
    v ← lift (corrected N s.vars.freq_max s.vars.sqrt2)
    set_freq_max_corr v

  unfoldable pub set_sqrt2 : V → Exec (TopBlock V) (Unit {0})
  unfolding set_freq_max_corr
  set_sqrt2 v = do assign (λ r. record r { sqrt2 = v }); update_freq_max_corr

  unfoldable pub set_freq_max : V → Exec (TopBlock V) (Unit {0})
  unfolding set_freq_max_corr
  set_freq_max v = do assign (λ r. record r { freq_max = v }); update_freq_max_corr

  unfoldable pub set_pi : V → Exec (TopBlock V) (Unit {0})
  unfolding set_two_pi
  set_pi v = do assign (λ r. record r { pi = v }); set_two_pi (N.mul (N.num 2) v)

  unfoldable pub set_freq_min : V → Exec (TopBlock V) (Unit {0})
  unfolding set_alpha_low
  set_freq_min v = do assign (λ r. record r { freq_min = v }); update_alpha_low

  abbrev pub update_range : Exec (TopBlock V) (Unit {0})
  update_range = do
    s ← self
    v ← lift (N.div s.vars.samp_rate s.vars.decimate)
    configure (λ b. record b { freq_sink_x_0_0 = v })

  unfoldable pub set_samp_rate : V → Exec (TopBlock V) (Unit {0})
  unfolding set_ts
  set_samp_rate v = do
    assign (λ r. record r { samp_rate = v })
    configure (λ b. record b { time_sink_rate = v })
    update_range
    configure (λ b. record b {
      freq_sink_x_0 = v;
      throttle = v;
      sig_source_x_0_0 = v;
      sig_source_x_0 = v;
    })
    ts ← lift (period N v)
    set_ts ts

  unfoldable pub set_decimate : V → Exec (TopBlock V) (Unit {0})
  set_decimate v = do
    assign (λ r. record r { decimate = v })
    update_range
    configure (λ b. record b { keep_one_in_n_0_0 = v; keep_one_in_n_0 = v })

-- A call of a setter of a variable that no other determines. The other setters are called by these.
pub data Call (V : Type 0) : Type 0 where
  sqrt2 samp_rate freq_max pi freq_min decimate : V → Call V

abbrev pub assigned : {V : Type 0} → Call V → Variables V → Variables V
assigned (sqrt2 v) r = record r { sqrt2 = v }
assigned (samp_rate v) r = record r { samp_rate = v }
assigned (freq_max v) r = record r { freq_max = v }
assigned (pi v) r = record r { pi = v }
assigned (freq_min v) r = record r { freq_min = v }
assigned (decimate v) r = record r { decimate = v }

abbrev pub all_assigned : {V : Type 0} → List (Call V) → Variables V → Variables V
all_assigned [] r = r
all_assigned (c ∷ cs) r = all_assigned cs (assigned c r)

module _ {V : Type 0} (N : Arith V) where
  unfoldable pub call : Call V → Exec (TopBlock V) (Unit {0})
  unfolding set_sqrt2 set_samp_rate set_freq_max set_pi set_freq_min set_decimate
  call (sqrt2 v) = set_sqrt2 N v
  call (samp_rate v) = set_samp_rate N v
  call (freq_max v) = set_freq_max N v
  call (pi v) = set_pi N v
  call (freq_min v) = set_freq_min N v
  call (decimate v) = set_decimate N v

  unfoldable pub calls : List (Call V) → Exec (TopBlock V) (Unit {0})
  unfolding call
  calls [] = pure tt
  calls (c ∷ cs) = do call c; calls cs
