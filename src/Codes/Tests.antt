-- ===== src/Codes/Tests.antt =====
-- Runs of the type codes.
use gr_digitizers.Prelude.{◌≡◌, refl}
use gr_digitizers.Prelude.Str.{codes}
use gr_digitizers.Prelude.Result.{ok, err, key_error}
use gr_digitizers.Codes.{i_type, tap_type}

short_taps : tap_type (codes "fcs") ≡ ok (codes "short")
unfolding tap_type
short_taps = refl

unknown_letter : i_type (codes "x") ≡ err key_error
unfolding i_type
unknown_letter = refl
