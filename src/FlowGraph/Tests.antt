-- ===== src/FlowGraph/Tests.antt =====
-- A flow graph with natural numbers for Python's.
use Prim.Native.Nat.{◌/◌}
use gr_digitizers.Prelude.{ℕ, ◌-◌, ◌*◌, ◌+◌, ◌==◌, ◌≡◌, refl, List, [], ◌∷◌, if◌then◌else◌}
use gr_digitizers.Prelude.Result.{Result, ok, err, value_error, zero_division_error}
use gr_digitizers.FlowGraph.Arith.{Arith}
use gr_digitizers.FlowGraph.ErrorPropagation.{GraphVariables, Graph, make}
use gr_digitizers.FlowGraph.ErrorPropagation.Setters.{
  Setting, to_samp_rate, to_decimation, to_out_delay, to_algorithm_id, all_settled, set_all,
}
use gr_digitizers.FlowGraph.ErrorPropagation.Restart.{Remade, set_all-Remade}
use gr_digitizers.FlowGraph.PostFilter.{TopBlock, defaults, init}
use gr_digitizers.FlowGraph.PostFilter.Setters.{
  Call, samp_rate, decimate, freq_max, calls, all_assigned,
}
use gr_digitizers.FlowGraph.PostFilter.Restart.{calls_restart}

-- A decimal literal by its digits, so in small units.
abbrev naturals : Arith ℕ
naturals = record {
  num = λ n. n;
  decimal = λ digits places. digits;
  add = λ a b. a + b;
  sub = λ a b. a - b;
  mul = λ a b. a * b;
  div = λ a b. if b == 0 then err zero_division_error else ok (a / b);
}

start : (s : TopBlock ℕ) × (init naturals (defaults naturals) ≡ ok s)
unfolding init
start = (_, refl)

abbrev some_calls : List (Call ℕ)
some_calls = samp_rate 50000 ∷ decimate 100 ∷ freq_max 1000 ∷ []

ran : (t : TopBlock ℕ) × (calls naturals some_calls start.0 ≡ (ok tt, t))
unfolding calls start
ran = (_, refl)

calls_restart_example :
    init naturals (all_assigned some_calls (defaults naturals))
    ≡ ok (record ran.0 { blocks = record ran.0.blocks { time_sink_size = ran.0.vars.samp_rate } })
calls_restart_example =
    calls_restart naturals (defaults naturals) some_calls start.0 ran.0 start.1 ran.1

no_decimation : (calls naturals (decimate 0 ∷ []) start.0).0 ≡ err zero_division_error
unfolding calls start
no_decimation = refl

-- The flow graph of the error propagation, with three numbers for the taps of a design
abbrev sum_design : ℕ → ℕ → ℕ → Result (List ℕ)
sum_design rate upper width = ok (rate ∷ upper ∷ width ∷ [])

abbrev first_settings : GraphVariables ℕ (List ℕ)
first_settings = record {
  samp_rate = 100000;
  freq_transition = 100;
  freq_max = 100;
  decimation = 10;
  out_delay = 850;
  input_noise_est = 6;
  freq_min = 10;
  filter_taps_b = [];
  filter_taps_a = [];
  filter_taps = [];
  algorithm_id = 4;
}

made : (s : Graph ℕ (List ℕ)) × (make naturals sum_design first_settings ≡ ok s)
unfolding make
made = (_, refl)

abbrev some_settings : List (Setting ℕ (List ℕ))
some_settings = to_samp_rate 50000 ∷ to_out_delay 900 ∷ to_decimation 5 ∷ to_algorithm_id 6 ∷ []

settings_made :
    (t : Graph ℕ (List ℕ)) × (set_all naturals sum_design some_settings made.0 ≡ (ok tt, t))
unfolding set_all made
settings_made = (_, refl)

set_all-Remade_example :
    Remade naturals sum_design (all_settled some_settings first_settings) settings_made.0
set_all-Remade_example =
    set_all-Remade naturals sum_design first_settings some_settings made.0 settings_made.0 made.1
      settings_made.1

stopped : (set_all naturals sum_design (to_decimation 0 ∷ []) made.0).0 ≡ err zero_division_error
unfolding set_all made
stopped = refl

-- An ID without an option is assigned, and then the setter raises.
no_option :
    ((set_all naturals sum_design (to_algorithm_id 7 ∷ []) made.0).0 ≡ err value_error)
    × ((set_all naturals sum_design (to_algorithm_id 7 ∷ []) made.0).1.vars.algorithm_id ≡ 7)
unfolding set_all made
no_option = (refl, refl)
