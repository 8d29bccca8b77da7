-- ===== src/Filter/Embedded.antt =====
-- examples/SAT/reference/Reference Implementation/epy_block_0.py: a synchronous block with a setter for
-- the upper frequency.
pub mod Setter
use gr_digitizers.Prelude.{ℕ, leb, ltb, ◌&&◌, none, List, map, length, if◌then◌else◌}
use gr_digitizers.Prelude.Exec.{Exec, pure, lift, modify, ◌>>=◌, ◌>>◌}
use gr_digitizers.Filter.Kit.{
  Taps, sequence, len, Params, Kit, Block, self, own_fir_taps, own_filter, put_fir_taps, put_filter,
  designed,
}

module _ {F : Type 0} (K : Kit F) where
  unfoldable pub init_fir : Params F → Exec (Block F) (Unit {0})
  unfolding len designed
  init_fir p = do
    m ← lift (len p.forward_taps)
    (if leb m 0
        then lift (designed K p.decimation p) >>= (λ ts. put_fir_taps (sequence ts))
        else put_fir_taps p.forward_taps)
    taps ← own_fir_taps
    n ← lift (len taps)
    f ← lift (K.fir_filter p.decimation taps)
    put_filter f

  abbrev make_iir : Params F → Exec (Block F) (Unit {0})
  make_iir p = lift (K.iir_filter p.forward_taps p.feedback_taps) >>= put_filter

  -- Without forward taps a message is printed, and `filter` stays unassigned.
  unfoldable pub init_iir : Params F → Exec (Block F) (Unit {0})
  unfolding len
  init_iir p = do
    m ← lift (len p.forward_taps)
    n ← lift (len p.feedback_taps)
    if ltb 0 m && ltb 0 n then make_iir p else pure tt

  -- `__init__`, from a block without attributes.
  unfoldable pub construct : Params F → Exec (Block F) (Unit {0})
  unfolding init_fir init_iir len
  construct p = do
    modify (λ s. record { params = p; fir_taps = none; filter = none })
    n ← lift (len p.feedback_taps)
    if leb n 0 then init_fir p else init_iir p

  -- `work`: the output, which has the input's values times the decimation, and its length. GNU Radio
  -- calls a synchronous block with as many inputs as outputs.
  unfoldable pub work : List F → Exec (Block F) (List F × ℕ)
  work input = do
    p ← self
    let written = map (λ x. K.mul x p.decimation) input
    pure (written, length written)

  unfoldable pub set_upper_cutoff : F → Exec (Block F) (Unit {0})
  unfolding designed
  set_upper_cutoff v = do
    modify (λ s. record s { params = record s.params { upper_cutoff = v } })
    p ← self
    ts ← lift (designed K K.one p)
    put_fir_taps (sequence ts)
    f ← own_filter
    g ← lift (K.set_taps f (sequence ts))
    put_filter g
