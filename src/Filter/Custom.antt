-- ===== src/Filter/Custom.antt =====
-- examples/SAT/reference/blocks_custom_filter_0.py: a decimating block around a filter.
pub mod Selection
use gr_digitizers.Prelude.{
  ℕ, Bool, leb, ltb, ◌&&◌, ◌==◌, none, some, List, [], ◌∷◌, length, if◌then◌else◌,
}
use gr_digitizers.Prelude.Result.{Result, ok, err, value_error}
use gr_digitizers.Prelude.Exec.{Exec, pure, lift, modify, ◌>>=◌, ◌>>◌}
use gr_digitizers.Filter.Kit.{
  sequence, number, len, Params, Filter, Kit, Block, self, own_fir_taps, own_filter, put_fir_taps,
  put_filter, designed,
}

module _ {F : Type 0} where
  -- `self.forward_Taps = (1)` and `self.feedback_Taps = (0)`: these are numbers.
  abbrev fall_back : Exec (Block F) (Unit {0})
  fall_back = modify (λ s. record s {
    params = record s.params { forward_taps = number 1; feedback_taps = number 0 };
  })

  -- `testFilter`
  unfoldable pub test_filter : Exec (Block F) (Unit {0})
  unfolding len
  test_filter = do p ← self; n ← lift (len p.forward_taps); m ← lift (len p.feedback_taps); pure tt

module _ {F : Type 0} (K : Kit F) where
  -- Without feedback taps: the taps from the frequencies, or the forward taps.
  unfoldable pub init_fir : Params F → Exec (Block F) (Unit {0})
  unfolding len designed
  init_fir p = do
    m ← lift (len p.forward_taps)
    (if leb m 0
        then lift (designed K p.decimation p) >>= (λ ts. put_fir_taps (sequence ts))
        else put_fir_taps p.forward_taps)
    taps ← own_fir_taps
    n ← lift (len taps)
    f ← lift (K.fir_filter p.decimation taps)
    put_filter f

  -- With feedback taps. Both lengths are asked for again.
  unfoldable pub init_iir : Params F → Exec (Block F) (Unit {0})
  unfolding len
  init_iir p = do
    m ← lift (len p.forward_taps)
    n ← lift (len p.feedback_taps)
    (if ltb 0 m && ltb 0 n then pure tt else fall_back)
    q ← self
    f ← lift (K.iir_filter q.forward_taps q.feedback_taps)
    put_filter f

  -- `initFilter`
  unfoldable pub init_filter : Exec (Block F) (Unit {0})
  unfolding init_fir init_iir len
  init_filter = do
    p ← self
    n ← lift (len p.feedback_taps)
    if leb n 0 then init_fir p else init_iir p

  -- `__init__`, from a block without attributes.
  unfoldable pub construct : Params F → Exec (Block F) (Unit {0})
  unfolding init_filter test_filter
  construct p = do
    modify (λ s. record { params = p; fir_taps = none; filter = none })
    init_filter
    test_filter

  -- `output_items[0][:] = result`, which wants as many values, or one.
  abbrev repeated : F → List F → List F
  repeated x [] = []
  repeated x (y ∷ out) = x ∷ repeated x out

  abbrev single : List F → List F → Result (List F)
  single (x ∷ []) out = ok (repeated x out)
  single _ out = err value_error

  unfoldable pub assign : List F → List F → Result (List F)
  assign values out = if length values == length out then ok values else single values out

  -- `work`: the output and its length.
  unfoldable pub work : List F → List F → Exec (Block F) (List F × ℕ)
  unfolding assign
  work input out = do
    f ← own_filter
    values ← lift (K.run f input)
    written ← lift (assign values out)
    pure (written, length written)
