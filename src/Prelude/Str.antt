-- ===== src/Prelude/Str.antt =====
-- Python's `str` as the list of its character codes, with the methods that the program calls.
use Prim.Native.Nat.{ℕ, ◌-◌}
use Prim.Native.Char.{code}
use Prim.Native.String.{String}
use mathlib.Core.Path.{◌≡◌, refl}
use mathlib.Core.Logic.{◌↔◌}
use mathlib.Core.Bool.{Bool, true, false, ◌&&◌, ◌||◌}
use mathlib.Core.List.{List, [], ◌∷◌, ◌++◌, reverse}
use native.Mathlib.Omega.{arith}
use gr_digitizers.Prelude.Tests.{◌==◌, leb, if◌then◌else◌}

abbrev pub Str : Type 0
Str = List ℕ

-- A literal.
abbrev pub codes : String → Str
codes String.[] = []
codes (String.◌∷◌ c s) = code c ∷ codes s

-- `s == t`
unfoldable pub str_eq : Str → Str → Bool
str_eq [] [] = true
str_eq [] (_ ∷ _) = false
str_eq (_ ∷ _) [] = false
str_eq (a ∷ s) (b ∷ t) = a == b && str_eq s t

pub str_eq_iff : (s t : Str) → (str_eq s t ≡ true) ↔ (s ≡ t)
unfolding str_eq
str_eq_iff [] [] = (λ _. refl, λ _. refl)
str_eq_iff [] (b ∷ t) = (λ h. cc, λ h. cc)
str_eq_iff (a ∷ s) [] = (λ h. cc, λ h. cc)
str_eq_iff (a ∷ s) (b ∷ t) = ground (arith, str_eq_iff s t)

pub str_eq_self : (s : Str) → str_eq s s ≡ true
str_eq_self s = (str_eq_iff s s).1 refl

-- `s.upper()` on ASCII.
abbrev pub upper_char : ℕ → ℕ
upper_char c = if leb b'a' c && leb c b'z' then c - 32 else c

unfoldable pub upper : Str → Str
upper [] = []
upper (c ∷ s) = upper_char c ∷ upper s

-- `s[0:-1]`
unfoldable pub drop_last : Str → Str
drop_last [] = []
drop_last (c ∷ []) = []
drop_last (c ∷ d ∷ s) = c ∷ drop_last (d ∷ s)

-- `s.startswith(p)`
unfoldable pub starts_with : Str → Str → Bool
starts_with s [] = true
starts_with [] (_ ∷ _) = false
starts_with (a ∷ s) (b ∷ p) = a == b && starts_with s p

-- `s.endswith(p)`
unfoldable pub ends_with : Str → Str → Bool
unfolding starts_with
ends_with s p = starts_with (reverse s) (reverse p)

-- `p in s`
unfoldable pub contains : Str → Str → Bool
unfolding starts_with
contains p [] = starts_with [] p
contains p (a ∷ s) = starts_with (a ∷ s) p || contains p s

-- `sep.join(parts)`
unfoldable pub join : Str → List Str → Str
join sep [] = []
join sep (s ∷ []) = s
join sep (s ∷ t ∷ rest) = s ++ (sep ++ join sep (t ∷ rest))

-- `s in xs` for a list or set of texts.
unfoldable pub member : Str → List Str → Bool
unfolding str_eq
member s [] = false
member s (t ∷ ts) = str_eq s t || member s ts

-- The characters that `strip` removes from a `str` of bytes.
abbrev pub is_byte_space : ℕ → Bool
is_byte_space c = c == 32 || (leb 9 c && leb c 13)

-- The characters that `strip` removes from a `unicode`.
unfoldable pub is_space : ℕ → Bool
is_space c =
    is_byte_space c
    || ((leb 28 c && leb c 31)
        || (c == 133
            || (c == 160
                || (c == 5760
                    || (c == 6158
                        || ((leb 8192 c && leb c 8202)
                            || (c == 8232
                                || (c == 8233 || (c == 8239 || (c == 8287 || c == 12288))))))))))

unfoldable pub lstrip : Str → Str
unfolding is_space
lstrip [] = []
lstrip (c ∷ s) = if is_space c then lstrip s else c ∷ s

-- `s.strip()`
unfoldable pub strip : Str → Str
unfolding lstrip
strip s = reverse (lstrip (reverse (lstrip s)))

unfoldable pub lstrip_bytes : Str → Str
lstrip_bytes [] = []
lstrip_bytes (c ∷ s) = if is_byte_space c then lstrip_bytes s else c ∷ s

-- `s.strip()` of a `str` of bytes
unfoldable pub strip_bytes : Str → Str
unfolding lstrip_bytes
strip_bytes s = reverse (lstrip_bytes (reverse (lstrip_bytes s)))
