-- ===== src/FlowGraph/Arith.antt =====
-- Python's numbers, as far as the flow graphs compute with them.
use gr_digitizers.Prelude.{ℕ, ◌≡◌, refl}
use gr_digitizers.Prelude.Result.{Result, ok, err}
use gr_digitizers.Prelude.Exec.{Exec, and_then}

-- Division raises `ZeroDivisionError`. An integer literal is a number by itself; a literal with a
-- fraction is given by its digits and the number of them behind the point.
pub record Arith (V : Type 0) : Type 0 where
  pub num : ℕ → V
  pub decimal : ℕ → ℕ → V
  pub add : V → V → V
  pub sub : V → V → V
  pub mul : V → V → V
  pub div : V → V → Result V

-- What holds of the state after a method that returns.
abbrev pub After : {A S : Type 0} → (S → Type 0) → Result A × S → Type 0
After P (ok a, s) = P s
After P (err e, s) = Unit

module _ {S A B : Type 0} (P : S → Type 0) where
  -- After a computed value, the rest of a method may use the equation for it.
  pub lift-After :
      (r : Result A) (k : A → Exec S B) (s : S)
      → ((a : A) → r ≡ ok a → After P (k a s))
      → After P (and_then r k s)
  lift-After (ok a) k s h = h a refl
  lift-After (err e) k s h = tt

  -- A method that keeps a property, and then one that needs it.
  pub and_then-After :
      (r : Result A) (k : A → Exec S B) (s : S)
      → After P (r, s)
      → ((a : A) → P s → After P (k a s))
      → After P (and_then r k s)
  and_then-After (ok a) k s h f = f a h
  and_then-After (err e) k s h f = tt

module _ {S A B C : Type 0} (P : S → Type 0) where
  -- The same where the method that takes the value is not the last.
  pub lift_bind-After :
      (r : Result A) (k : A → Exec S B) (g : B → Exec S C) (s : S)
      → ((a : A) → r ≡ ok a → After P (and_then (k a s).0 g (k a s).1))
      → After P (and_then (and_then r k s).0 g (and_then r k s).1)
  lift_bind-After (ok a) k g s h = h a refl
  lift_bind-After (err e) k g s h = tt
