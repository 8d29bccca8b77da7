-- ===== src/BuildUtils/Dicts.antt =====
-- The dictionaries of python/build_utils.py that fill the templates.
pub mod Laws
use mathlib.Core.List.{reverse}
use gr_digitizers.Prelude.{ℕ, Bool, true, false, List, [], ◌∷◌, ◌++◌, ◌==◌, ◌||◌, if◌then◌else◌}
use gr_digitizers.Prelude.Str.{Str, codes, upper, starts_with}
use gr_digitizers.Prelude.Dict.{Dict}
use gr_digitizers.Prelude.Result.{Result, ok, err, ◌>>=◌}
use gr_digitizers.Codes.{i_code, o_code, i_type, o_type, tap_type}

abbrev copyright : Str
copyright =
    codes
      "/* -*- c++ -*- */\n/*\n * Copyright 2003,2004 Free Software Foundation, Inc.\n *\n * This file is part of GNU Radio\n *\n * GNU Radio is free software; you can redistribute it and/or modify\n * it under the terms of the GNU General Public License as published by\n * the Free Software Foundation; either version 3, or (at your option)\n * any later version.\n *\n * GNU Radio is distributed in the hope that it will be useful,\n * but WITHOUT ANY WARRANTY; without even the implied warranty of\n * MERCHANTABILITY or FITNESS FOR A PARTICULAR PURPOSE.  See the\n * GNU General Public License for more details.\n *\n * You should have received a copy of the GNU General Public License\n * along with GNU Radio; see the file COPYING.  If not, write to\n * the Free Software Foundation, Inc., 51 Franklin Street,\n * Boston, MA 02110-1301, USA.\n */\n"

abbrev warning : Str
warning = codes "WARNING: this file is machine generated. Edits will be overwritten"

abbrev pub one : Str
one = codes "1"

abbrev pub zero_text : Str
zero_text = codes "0"

-- `or` asks for the output's code only if the input's is not `c`.
abbrev pub complex_of : Result ℕ → Result ℕ → Result Str
complex_of input output = input >>= λ i.
    if i == b'c' then ok one else output >>= λ o. if o == b'c' then ok one else ok zero_text

unfoldable pub is_complex : Str → Result Str
unfolding i_code o_code
is_complex code3 = complex_of (i_code code3) (o_code code3)

-- `name` behind `prefix`, if it begins so: `re.sub ('^' + pkg + '_', '', name)` for a pkg
-- whose name holds no sign of a regular expression.
unfoldable pub strip_prefix : Str → Str → Str → Str
strip_prefix name [] rest = rest
strip_prefix name (_ ∷ _) [] = name
strip_prefix name (p ∷ prefix) (c ∷ rest) = if p == c then strip_prefix name prefix rest else name

unfoldable pub base_name : Str → Str → Str
unfolding strip_prefix
base_name pkg name = strip_prefix name (pkg ++ codes "_") name

abbrev guard_name : Str → Str → Str → Str
guard_name pkg name tail = codes "INCLUDED_" ++ (upper pkg ++ (codes "_" ++ (upper name ++ tail)))

-- The five entries that depend on the code, in the order of the calls.
abbrev pub entries_of : Result Str → Result Str → Result Str → Result Str → Result (Dict Str)
entries_of input output tap complex = do
  i ← input
  o ← output
  t ← tap
  x ← complex
  ok (
      (codes "TYPE", i)
      ∷ (codes "I_TYPE", i)
      ∷ (codes "O_TYPE", o)
      ∷ (codes "TAP_TYPE", t)
      ∷ (codes "IS_COMPLEX", x)
      ∷ [])

unfoldable pub type_entries : Str → Result (Dict Str)
unfolding i_type o_type tap_type is_complex
type_entries code3 = entries_of (i_type code3) (o_type code3) (tap_type code3) (is_complex code3)

-- The entries that depend on the names.
abbrev pub name_entries : Str → Str → Dict Str
name_entries name pkg =
    (codes "NAME", name)
    ∷ (codes "NAME_IMPL", name ++ codes "_impl")
    ∷ (codes "GUARD_NAME", guard_name pkg name (codes "_H"))
    ∷ (codes "GUARD_NAME_IMPL", guard_name pkg name (codes "_IMPL_H"))
    ∷ (codes "BASE_NAME", base_name pkg name)
    ∷ (codes "SPTR_NAME", name ++ codes "_sptr")
    ∷ (codes "WARNING", warning)
    ∷ (codes "COPYRIGHT", copyright)
    ∷ []

unfoldable pub standard_dict : Str → Str → Str → Result (Dict Str)
unfolding type_entries base_name upper
standard_dict name code3 pkg = do types ← type_entries code3; ok (name_entries name pkg ++ types)

unfoldable pub standard_dict2 : Str → Str → Str → Result (Dict Str)
unfolding type_entries upper
standard_dict2 name code3 pkg = do
  types ← type_entries code3
  ok (
      ((codes "NAME", name)
        ∷ (codes "BASE_NAME", name)
        ∷ (codes "GUARD_NAME", guard_name pkg name (codes "_H"))
        ∷ (codes "WARNING", warning)
        ∷ (codes "COPYRIGHT", copyright)
        ∷ [])
      ++ types)

unfoldable pub lstrip_of : (ℕ → Bool) → Str → Str
lstrip_of chars [] = []
lstrip_of chars (c ∷ s) = if chars c then lstrip_of chars s else c ∷ s

-- `s.rstrip (chars)`
unfoldable pub rstrip_of : (ℕ → Bool) → Str → Str
unfolding lstrip_of
rstrip_of chars s = reverse (lstrip_of chars (reverse s))

abbrev pub impl_char : ℕ → Bool
impl_char c = c == b'i' || (c == b'm' || (c == b'p' || c == b'l'))

-- `name.rstrip ("impl").rstrip ("_")`
unfoldable pub impl_base_name : Str → Str
unfolding rstrip_of
impl_base_name name = rstrip_of (λ c. c == b'_') (rstrip_of impl_char name)

abbrev first_two : Str → Str
first_two [] = []
first_two (a ∷ []) = a ∷ []
first_two (a ∷ b ∷ _) = a ∷ b ∷ []

unfoldable pub standard_impl_dict2 : Str → Str → Str → Result (Dict Str)
unfolding type_entries impl_base_name upper
standard_impl_dict2 name code3 pkg = do
  types ← type_entries code3
  ok (
      ((codes "NAME", name)
        ∷ (codes "IMPL_NAME", name)
        ∷ (codes "BASE_NAME", impl_base_name name)
        ∷ (codes "GUARD_NAME", guard_name pkg name (codes "_H"))
        ∷ (codes "WARNING", warning)
        ∷ (codes "COPYRIGHT", copyright)
        ∷ (codes "FIR_TYPE", codes "fir_filter_" ++ code3)
        ∷ (codes "CFIR_TYPE", codes "fir_filter_" ++ (first_two code3 ++ codes "c"))
        ∷ [])
      ++ types)
