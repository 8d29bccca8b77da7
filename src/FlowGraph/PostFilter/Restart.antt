-- ===== src/FlowGraph/PostFilter/Restart.antt =====
-- Setting variables while the flow graph runs, against making it anew with their values.
use gr_digitizers.Prelude.{List, [], ◌∷◌, ◌≡◌, refl}
use gr_digitizers.Prelude.Result.{Result, ok, err, ◌>>=◌}
use gr_digitizers.Prelude.Exec.{Exec, and_then, OnOk}
use gr_digitizers.FlowGraph.Arith.{Arith, After, lift-After, lift_bind-After}
use gr_digitizers.FlowGraph.PostFilter.{Variables, TopBlock, corrected, period, weight, init}
use gr_digitizers.FlowGraph.PostFilter.Setters.{
  Call, sqrt2, samp_rate, freq_max, pi, freq_min, decimate, assigned, all_assigned, call, calls,
  set_alpha_low, set_two_pi, set_sqrt2, set_freq_max, set_pi, set_freq_min, set_samp_rate,
  set_decimate, configure,
}
use gr_digitizers.FlowGraph.PostFilter.Steps.{
  with_two_pi, update_both-After, update_freq_max_corr-After, samp_rate-After,
}
use gr_digitizers.FlowGraph.PostFilter.Sync.{Synced, calls-Synced}

module _ {V : Type 0} (N : Arith V) where
  -- The values of the variables after a call that returns.
  call-vars : (c : Call V) (s : TopBlock V) → After (λ t. t.vars ≡ assigned c s.vars) (call N c s)
  unfolding call set_sqrt2 set_freq_max set_pi set_freq_min set_samp_rate set_decimate set_two_pi
      set_alpha_low
  call-vars (sqrt2 v) s =
      update_freq_max_corr-After N (λ t. t.vars ≡ record s.vars { sqrt2 = v })
        (record s { vars = record s.vars { sqrt2 = v } }) λ x y e f. refl
  call-vars (samp_rate v) s =
      samp_rate-After N (λ t. t.vars ≡ record s.vars { samp_rate = v })
        (record s {
          vars = record s.vars { samp_rate = v };
          blocks = record s.blocks { time_sink_rate = v };
        })
        v λ q ts x y e0 e1 e f. refl
  call-vars (freq_max v) s =
      update_freq_max_corr-After N (λ t. t.vars ≡ record s.vars { freq_max = v })
        (record s { vars = record s.vars { freq_max = v } }) λ x y e f. refl
  call-vars (pi v) s =
      update_both-After N (λ t. t.vars ≡ record s.vars { pi = v })
        (with_two_pi N (N.mul (N.num 2) v) (record s { vars = record s.vars { pi = v } }))
        λ x y e f. refl
  call-vars (freq_min v) s =
      lift-After (λ t. t.vars ≡ record s.vars { freq_min = v })
        (weight N s.derived.two_pi s.derived.ts v) (set_alpha_low N)
        (record s { vars = record s.vars { freq_min = v } }) λ x e. refl
  call-vars (decimate v) s =
      lift_bind-After (λ t. t.vars ≡ record s.vars { decimate = v }) (N.div s.vars.samp_rate v)
        (λ q. configure (λ b. record b { freq_sink_x_0_0 = q }))
        (λ _. configure (λ b. record b { keep_one_in_n_0_0 = v; keep_one_in_n_0 = v }))
        (record s { vars = record s.vars { decimate = v } }) λ q e. refl

  and_then-After_of :
      (P Q : TopBlock V → Type 0) (m : Result (Unit {0}) × TopBlock V)
      (k : Exec (TopBlock V) (Unit {0}))
      → After P m
      → ((t : TopBlock V) → P t → After Q (k t))
      → After Q (and_then m.0 (λ _. k) m.1)
  and_then-After_of P Q (ok a, t) k p h = h t p
  and_then-After_of P Q (err e, t) k p h = tt

  calls-vars :
      (cs : List (Call V)) (s : TopBlock V)
      → After (λ t. t.vars ≡ all_assigned cs s.vars) (calls N cs s)
  unfolding calls
  calls-vars [] s = refl
  calls-vars (c ∷ cs) s =
      and_then-After_of (λ t. t.vars ≡ assigned c s.vars)
        (λ t. t.vars ≡ all_assigned cs (assigned c s.vars)) (call N c s) (calls N cs)
        (call-vars c s) λ t p. rw (← p) (calls-vars cs t)

  init-Synced :
      (s : TopBlock V)
      → Synced N s
      → init N s.vars
        ≡ ok (record s { blocks = record s.blocks { time_sink_size = s.vars.samp_rate } })
  unfolding init
  init-Synced s h = simp (
    h.corr_eq,
    h.ts_eq,
    ← h.two_pi_eq,
    h.low_eq,
    h.alpha_eq,
    h.range_eq,
    h.low_tap,
    h.tap_0,
    h.tap,
    h.time_rate,
    h.freq_range,
    h.throttled,
    h.source_0,
    h.source,
    h.kept_0,
    h.kept,
  )

  value_of :
      {A B : Type 0} (P : B → Type 0) (r : Result A) (k : A → Result B)
      → ((a : A) → r ≡ ok a → OnOk P (k a))
      → OnOk P (r >>= k)
  value_of P (ok a) k h = h a refl
  value_of P (err e) k h = tt

  -- What `__init__` makes of the values `v`.
  abbrev Made : Variables V → TopBlock V → Type 0
  Made v s = Synced N s × (s.vars ≡ v)

  init-Made : (v : Variables V) → OnOk (Made v) (init N v)
  unfolding init
  init-Made v = value_of (Made v) (corrected N v.freq_max v.sqrt2) _ λ x e0.
      value_of (Made v) (period N v.samp_rate) _ λ ts e1.
        value_of (Made v) (weight N (N.mul (N.num 2) v.pi) ts v.freq_min) _ λ low e2.
          value_of (Made v) (weight N (N.mul (N.num 2) v.pi) ts x) _ λ y e3.
            value_of (Made v) (N.div v.samp_rate v.decimate) _ λ q e4. (
              record {
                corr_eq = e0;
                ts_eq = e1;
                two_pi_eq = refl;
                low_eq = e2;
                alpha_eq = e3;
                range_eq = e4;
                low_tap = refl;
                tap_0 = refl;
                tap = refl;
                time_rate = refl;
                freq_range = refl;
                throttled = refl;
                source_0 = refl;
                source = refl;
                kept_0 = refl;
                kept = refl;
              },
              refl,
            )

  -- Where a sequence of setters of the variables returns, __init__ with the new values returns too
  -- and makes the same flow graph, but for the size of the time sink, which it sets to the new
  -- sampling rate.
  pub calls_restart :
      (v : Variables V) (cs : List (Call V)) (s t : TopBlock V)
      → init N v ≡ ok s
      → calls N cs s ≡ (ok tt, t)
      → init N (all_assigned cs v)
        ≡ ok (record t { blocks = record t.blocks { time_sink_size = t.vars.samp_rate } })
  calls_restart v cs s t made ran =
      let start : OnOk (Made v) (ok s) = rw made at (init-Made v) in
      let synced : After (Synced N) (ok tt, t) = rw ran at (calls-Synced N cs s start.0) in
      let vars : t.vars ≡ all_assigned cs s.vars = rw ran at (calls-vars cs s) in
      rw (← start.1, ← vars) (init-Synced t synced)
