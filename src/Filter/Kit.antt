-- ===== src/Filter/Kit.antt =====
-- What both blocks use: their parameters, and GNU Radio's filters and filter design.
use gr_digitizers.Prelude.{ℕ, Bool, Option, none, some, List, length, if◌then◌else◌}
use gr_digitizers.Prelude.Result.{Result, ok, err, type_error, attribute_error}
use gr_digitizers.Prelude.Exec.{Exec, modify}

-- Taps are a sequence, or, where `(1)` was written for `(1,)`, a number.
pub data Taps (F : Type 0) : Type 0 where
  sequence : List F → Taps F
  number : ℕ → Taps F

-- `len (taps)`
unfoldable pub len : {F : Type 0} → Taps F → Result ℕ
len (sequence ts) = ok (length ts)
len (number n) = err type_error

-- The arguments of `__init__`.
pub record Params (F : Type 0) : Type 0 where
  pub decimation : F
  pub sampling_frequency : F
  pub lower_cutoff : F
  pub upper_cutoff : F
  pub transition : F
  pub forward_taps : Taps F
  pub feedback_taps : Taps F

-- The filters of `gnuradio.filter`, by what they were made of.
pub data Filter (F : Type 0) : Type 0 where
  fir : F → Taps F → Filter F
  iir : Taps F → Taps F → Filter F

-- Python's numbers, `firdes.low_pass` and `firdes.band_pass` with the window of both blocks, the
-- constructors of the filters, which may refuse their arguments, and the methods of a filter.
pub record Kit (F : Type 0) : Type 0 where
  pub one : F
  pub nonpositive : F → Bool
  pub mul : F → F → F
  pub low_pass : F → F → F → F → Result (List F)
  pub band_pass : F → F → F → F → F → Result (List F)
  pub fir_filter : F → Taps F → Result (Filter F)
  pub iir_filter : Taps F → Taps F → Result (Filter F)
  pub set_taps : Filter F → Taps F → Result (Filter F)
  pub run : Filter F → List F → Result (List F)

-- The block's attributes; `FIR_Taps` and `filter` are missing until they are assigned.
pub record Block (F : Type 0) : Type 0 where
  pub params : Params F
  pub fir_taps : Option (Taps F)
  pub filter : Option (Filter F)

-- An attribute that may not have been assigned.
abbrev attribute : {A : Type 0} → Option A → Result A
attribute (some a) = ok a
attribute none = err attribute_error

module _ {F : Type 0} where
  abbrev pub self : Exec (Block F) (Params F)
  self s = (ok s.params, s)

  abbrev pub own_fir_taps : Exec (Block F) (Taps F)
  own_fir_taps s = (attribute s.fir_taps, s)

  abbrev pub own_filter : Exec (Block F) (Filter F)
  own_filter s = (attribute s.filter, s)

  abbrev pub put_fir_taps : Taps F → Exec (Block F) (Unit {0})
  put_fir_taps t = modify (λ s. record s { fir_taps = some t })

  abbrev pub put_filter : Filter F → Exec (Block F) (Unit {0})
  put_filter f = modify (λ s. record s { filter = some f })

-- `firdes.low_pass` or `firdes.band_pass` with a gain, by the lower frequency.
unfoldable pub designed : {F : Type 0} → Kit F → F → Params F → Result (List F)
designed K gain p =
    if K.nonpositive p.lower_cutoff
    then K.low_pass gain p.sampling_frequency p.upper_cutoff p.transition
    else K.band_pass gain p.sampling_frequency p.lower_cutoff p.upper_cutoff p.transition
