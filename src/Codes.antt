-- ===== src/Codes.antt =====
-- python/build_utils_codes.py
mod Tests
use gr_digitizers.Prelude.{ℕ, ◌==◌, leb, length, if◌then◌else◌, [], ◌∷◌}
use gr_digitizers.Prelude.Str.{Str, codes}
use gr_digitizers.Prelude.Result.{Result, ok, err, key_error, index_error, ◌>>=◌}

-- `s[i]` for the indices that the program writes.
abbrev at_zero : Str → Result ℕ
at_zero [] = err index_error
at_zero (c ∷ _) = ok c

abbrev at_one : Str → Result ℕ
at_one (_ ∷ c ∷ _) = ok c
at_one _ = err index_error

abbrev at_two : Str → Result ℕ
at_two (_ ∷ _ ∷ c ∷ _) = ok c
at_two _ = err index_error

unfoldable pub i_code : Str → Result ℕ
i_code code3 = at_zero code3

unfoldable pub o_code : Str → Result ℕ
o_code code3 = if leb 2 (length code3) then at_one code3 else at_zero code3

unfoldable pub tap_code : Str → Result ℕ
tap_code code3 = if leb 3 (length code3) then at_two code3 else at_zero code3

-- `char_to_type[c]`
unfoldable pub char_to_type : ℕ → Result Str
char_to_type c =
    if c == b's'
    then ok (codes "short")
    else if c == b'i'
    then ok (codes "int")
    else if c == b'f'
    then ok (codes "float")
    else if c == b'c'
    then ok (codes "gr_complex")
    else if c == b'b'
    then ok (codes "unsigned char")
    else err key_error

unfoldable pub i_type : Str → Result Str
unfolding i_code char_to_type
i_type code3 = i_code code3 >>= char_to_type

unfoldable pub o_type : Str → Result Str
unfolding o_code char_to_type
o_type code3 = o_code code3 >>= char_to_type

unfoldable pub tap_type : Str → Result Str
unfolding tap_code char_to_type
tap_type code3 = tap_code code3 >>= char_to_type
