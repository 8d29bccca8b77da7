-- ===== src/FlowGraph/PostFilter.antt =====
-- The flow graph examples/SAT/reference/Reference Implementation/dcct_post_filter.py: its variables,
-- the parameters of its blocks that depend on them, and its setters.
pub mod Setters
pub mod Steps
pub mod Sync
pub mod Restart
use gr_digitizers.Prelude.{ℕ, List, [], ◌∷◌}
use gr_digitizers.Prelude.Result.{Result, ok, err, ◌>>=◌}
use gr_digitizers.FlowGraph.Arith.{Arith}

-- The variables that no other variable determines.
pub record Variables (V : Type 0) : Type 0 where
  pub sqrt2 : V
  pub samp_rate : V
  pub freq_max : V
  pub pi : V
  pub freq_min : V
  pub decimate : V

-- The others.
pub record Derived (V : Type 0) : Type 0 where
  pub freq_max_corr : V
  pub ts : V
  pub two_pi : V
  pub alpha_low : V
  pub alpha : V

-- The parameters of the blocks, by the block's name: taps, rates, the upper ends of the frequency
-- ranges, and the decimations. The size of the time sink is set when it is made.
pub record Blocks (V : Type 0) : Type 0 where
  pub single_pole_iir_filter_xx_0_1 : V
  pub single_pole_iir_filter_xx_0_0 : V
  pub single_pole_iir_filter_xx_0 : V
  pub time_sink_size : V
  pub time_sink_rate : V
  pub freq_sink_x_0_0 : V
  pub freq_sink_x_0 : V
  pub throttle : V
  pub sig_source_x_0_0 : V
  pub sig_source_x_0 : V
  pub keep_one_in_n_0_0 : V
  pub keep_one_in_n_0 : V

pub record TopBlock (V : Type 0) : Type 0 where
  pub vars : Variables V
  pub derived : Derived V
  pub blocks : Blocks V

module _ {V : Type 0} (N : Arith V) where
  -- The values that `__init__` begins with.
  abbrev pub defaults : Variables V
  defaults = record {
    sqrt2 = N.decimal 14142135623731 13;
    samp_rate = N.num 100000;
    freq_max = N.num 2000;
    pi = N.decimal 314159265359 11;
    freq_min = N.num 30;
    decimate = N.num 200;
  }

  abbrev pub corrected : V → V → Result V
  corrected freq_max sqrt2 = N.div freq_max (N.mul (N.num 2) (N.sub sqrt2 (N.num 1)))

  abbrev pub period : V → Result V
  period samp_rate = N.div (N.decimal 10 1) samp_rate

  -- `TWO_PI*Ts*f/(TWO_PI*Ts*f+1)`
  abbrev pub weight : V → V → V → Result V
  weight two_pi ts f =
      N.div (N.mul (N.mul two_pi ts) f) (N.add (N.mul (N.mul two_pi ts) f) (N.num 1))

  -- `__init__`, with other values for the variables.
  unfoldable pub init : Variables V → Result (TopBlock V)
  init v = do
    freq_max_corr ← corrected v.freq_max v.sqrt2
    ts ← period v.samp_rate
    let two_pi = N.mul (N.num 2) v.pi
    alpha_low ← weight two_pi ts v.freq_min
    alpha ← weight two_pi ts freq_max_corr
    bandwidth ← N.div v.samp_rate v.decimate
    ok record {
      vars = v;
      derived = record {
        freq_max_corr = freq_max_corr;
        ts = ts;
        two_pi = two_pi;
        alpha_low = alpha_low;
        alpha = alpha;
      };
      blocks = record {
        single_pole_iir_filter_xx_0_1 = alpha_low;
        single_pole_iir_filter_xx_0_0 = alpha;
        single_pole_iir_filter_xx_0 = alpha;
        time_sink_size = v.samp_rate;
        time_sink_rate = v.samp_rate;
        freq_sink_x_0_0 = bandwidth;
        freq_sink_x_0 = v.samp_rate;
        throttle = v.samp_rate;
        sig_source_x_0_0 = v.samp_rate;
        sig_source_x_0 = v.samp_rate;
        keep_one_in_n_0_0 = v.decimate;
        keep_one_in_n_0 = v.decimate;
      };
    }
