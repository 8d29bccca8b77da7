-- ===== src/FlowGraph/ErrorPropagation/Restart.antt =====
-- Setting variables while the flow graph runs, against making it anew with their values.
use gr_digitizers.Prelude.{List, [], ◌∷◌, ◌≡◌, refl, subst}
use gr_digitizers.Prelude.Result.{Result, ok, err, ◌>>=◌}
use gr_digitizers.Prelude.Exec.{Exec, and_then, OnOk}
use gr_digitizers.FlowGraph.Arith.{Arith, After}
use gr_digitizers.FlowGraph.ErrorPropagation.{
  GraphVariables, Graph, Sizes, option_index, square, cube, make,
}
use gr_digitizers.FlowGraph.ErrorPropagation.Setters.{
  Setting, settled, all_settled, set_one, set_all,
}
use gr_digitizers.FlowGraph.ErrorPropagation.Fresh.{Fresh, set_one-Fresh}

module _ {V T : Type 0} (N : Arith V) (design : V → V → V → Result T) where
  next-Fresh :
      (v w : GraphVariables V T) (m : Result (Unit {0}) × Graph V T)
      (k : Exec (Graph V T) (Unit {0}))
      → After (Fresh N design v) m
      → ((t : Graph V T) → Fresh N design v t → After (Fresh N design w) (k t))
      → After (Fresh N design w) (and_then m.0 (λ _. k) m.1)
  next-Fresh v w (ok a, t) k h f = f t h
  next-Fresh v w (err e, t) k h f = tt

  set_all-Fresh :
      (cs : List (Setting V T)) (v : GraphVariables V T) (s : Graph V T)
      → Fresh N design v s
      → After (Fresh N design (all_settled cs v)) (set_all N design cs s)
  unfolding set_all
  set_all-Fresh [] v s h = h
  set_all-Fresh (c ∷ cs) v s h =
      next-Fresh (settled c v) (all_settled cs (settled c v)) (set_one N design c s)
        (set_all N design cs) (set_one-Fresh N design c v s h)
        λ t k. set_all-Fresh cs (settled c v) t k

  bind-Fresh :
      {A : Type 0} (v : GraphVariables V T) (r : Result A) (k : A → Result (Graph V T))
      → ((a : A) → r ≡ ok a → OnOk (Fresh N design v) (k a))
      → OnOk (Fresh N design v) (r >>= k)
  bind-Fresh v (ok a) k h = h a refl
  bind-Fresh v (err e) k h = tt

  make-Fresh : (v : GraphVariables V T) → OnOk (Fresh N design v) (make N design v)
  unfolding make
  make-Fresh v = bind-Fresh v (design v.samp_rate v.freq_max v.freq_transition) _ λ fir e.
      bind-Fresh v (option_index v.algorithm_id) _ λ shown o.
        bind-Fresh v (N.div v.out_delay v.decimation) _ λ delay1 d1.
          bind-Fresh v (N.div delay1 v.decimation) _ λ delay2 d2.
            bind-Fresh v (N.div v.samp_rate (square N v.decimation)) _ λ rate2 e2.
              bind-Fresh v (N.div v.samp_rate v.decimation) _ λ rate1 e1.
                bind-Fresh v (N.div v.samp_rate (cube N v.decimation)) _ λ rate3 e3. record {
                  computed = record {
                    delay1 = delay1;
                    delay2 = delay2;
                    rate1 = rate1;
                    rate2 = rate2;
                    rate3 = rate3;
                    fir_eq = e;
                    delay1_eq = d1;
                    delay2_eq = d2;
                    rate2_eq = e2;
                    rate1_eq = e1;
                    rate3_eq = e3;
                  };
                  vars_eq = refl;
                  label_eq = refl;
                  combo_eq = o;
                  chain_eq = refl;
                }

  -- `__init__` makes the same, but for what no setter sets.
  abbrev pub Remade : GraphVariables V T → Graph V T → Type 0
  Remade v s = (z : Sizes V) × (make N design v ≡ ok (record s { sizes = z }))

  Fresh-Remade : (v : GraphVariables V T) (s : Graph V T) → Fresh N design v s → Remade v s
  unfolding make
  Fresh-Remade v s h = (
    record {
      size_0_0 = h.computed.rate3;
      size_0 = h.computed.rate2;
      size = h.computed.rate1;
      out_delay_limit = N.mul (N.num 2) v.samp_rate;
    },
    simp (
      h.computed.fir_eq, h.computed.delay1_eq, h.computed.delay2_eq, h.computed.rate2_eq,
      h.computed.rate1_eq, h.computed.rate3_eq, h.vars_eq, h.label_eq, h.combo_eq, h.chain_eq,
    ),
  )

  -- Where __init__ with some values for the variables returns, and then a sequence of their setters,
  -- __init__ with the new values returns too and makes the same flow graph, but for the sizes of its
  -- three sinks and the upper end of the range of the delay.
  pub set_all-Remade :
      (v : GraphVariables V T) (cs : List (Setting V T)) (s t : Graph V T)
      → make N design v ≡ ok s
      → set_all N design cs s ≡ (ok tt, t)
      → Remade (all_settled cs v) t
  set_all-Remade v cs s t h k =
      let fresh = subst (OnOk (Fresh N design v)) h (make-Fresh v) in
      Fresh-Remade (all_settled cs v) t
        (subst (After (Fresh N design (all_settled cs v))) k (set_all-Fresh cs v s fresh))
