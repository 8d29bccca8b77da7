-- ===== src/Prelude/Dict.antt =====
-- Python's `dict` with texts as keys, in insertion order.
use mathlib.Core.Path.{◌≡◌, refl}
use mathlib.Core.Option.{Option, none, some}
use mathlib.Core.List.{List, [], ◌∷◌, ◌++◌}
use native.Mathlib.Omega.{arith}
use gr_digitizers.Prelude.Tests.{if◌then◌else◌}
use gr_digitizers.Prelude.Str.{Str, str_eq, str_eq_iff, str_eq_self}

abbrev pub Dict {ℓ} : Type ℓ → Type ℓ
Dict V = List (Str × V)

module _ {ℓ} {V : Type ℓ} where
  -- `d.get(k)`
  unfoldable pub lookup : Str → Dict V → Option V
  lookup k [] = none
  lookup k ((j, v) ∷ d) = if str_eq j k then some v else lookup k d

  -- `d[k] = v`
  unfoldable pub insert : Str → V → Dict V → Dict V
  insert k v [] = (k, v) ∷ []
  insert k v ((j, w) ∷ d) = if str_eq j k then (j, v) ∷ d else (j, w) ∷ insert k v d

  pub lookup-insert :
      (k j : Str) (v : V) (d : Dict V)
      → lookup j (insert k v d) ≡ (if str_eq k j then some v else lookup j d)
  unfolding lookup insert
  lookup-insert k j v [] = refl
  lookup-insert k j v ((i, w) ∷ d) =
      ground (arith, str_eq_iff k j, str_eq_iff i k, str_eq_iff i j, lookup-insert k j v d)

  -- A second write to a key replaces the first.
  pub insert-insert : (k : Str) (v w : V) (d : Dict V) → insert k w (insert k v d) ≡ insert k w d
  unfolding insert
  insert-insert k v w [] = rw (str_eq_self k)
  insert-insert k v w ((i, u) ∷ d) = ground (arith, str_eq_iff i k, insert-insert k v w d)

  pub lookup-insert_self : (k : Str) (v : V) (d : Dict V) → lookup k (insert k v d) ≡ some v
  lookup-insert_self k v d = rw (lookup-insert k k, str_eq_self k)

  pub lookup-append : (k : Str) (d e : Dict V) → lookup k d ≡ none → lookup k (d ++ e) ≡ lookup k e
  unfolding lookup
  lookup-append k [] e h = refl
  lookup-append k ((j, v) ∷ d) e h = ground (arith, lookup-append k d e)

  -- Writing the value that is there changes nothing.
  pub insert-lookup : (k : Str) (v : V) (d : Dict V) → lookup k d ≡ some v → insert k v d ≡ d
  unfolding lookup insert
  insert-lookup k v [] h = cc
  insert-lookup k v ((j, w) ∷ d) h = ground (arith, insert-lookup k v d)
