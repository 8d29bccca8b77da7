-- ===== src/Prelude/Exec.antt =====
-- Methods that mutate objects and may raise: what was written before a raise stays written.
use mathlib.Core.Path.{◌≡◌, refl}
use native.Mathlib.Omega.{arith}
use gr_digitizers.Prelude.Result
use gr_digitizers.Prelude.Result.{Error, Result, ok, err}

abbrev pub Exec {ℓ} : Type ℓ → Type ℓ → Type ℓ
Exec S A = S → Result A × S

module _ {ℓ} {S A : Type ℓ} where
  abbrev pub pure : A → Exec S A
  pure a s = (ok a, s)

  abbrev pub raise : Error → Exec S A
  raise e s = (err e, s)

  abbrev pub lift : Result A → Exec S A
  lift r s = (r, s)

  abbrev pub gets : (S → A) → Exec S A
  gets f s = (ok (f s), s)

abbrev pub modify : {S : Type 0} → (S → S) → Exec S (Unit {0})
modify f s = (ok tt, f s)

module _ {ℓ} {S A B : Type ℓ} where
  infixl 10 ◌>>=◌ ◌>>◌
  abbrev pub and_then : Result A → (A → Exec S B) → Exec S B
  and_then (ok a) f s = f a s
  and_then (err e) f s = (err e, s)

  abbrev pub ◌>>=◌ : Exec S A → (A → Exec S B) → Exec S B
  ◌>>=◌ m f s = and_then (m s).0 f (m s).1

  abbrev pub ◌>>◌ : Exec S A → Exec S B → Exec S B
  m >> n = m >>= λ _. n

module _ {ℓ} {S A B : Type ℓ} where
  pub and_then-cong :
      (r : Result A) (f g : A → Exec S B) (s : S)
      → ((a : A) (t : S) → f a t ≡ g a t)
      → and_then r f s ≡ and_then r g s
  and_then-cong (ok a) f g s h = h a s
  and_then-cong (err e) f g s h = refl

module _ {ℓ} {S A B C : Type ℓ} where
  pub and_then_assoc :
      (r : Result A) (f : A → Exec S B) (g : B → Exec S C) (s : S)
      → and_then (and_then r f s).0 g (and_then r f s).1 ≡ and_then r (λ a. f a >>= g) s
  and_then_assoc (ok a) f g s = refl
  and_then_assoc (err e) f g s = refl

-- What holds of a result, if there is one.
abbrev pub OnOk {ℓ} : {A : Type ℓ} → (A → Type 0) → Result A → Type 0
OnOk P (ok a) = P a
OnOk P (err e) = Unit

module _ {A B : Type 0} (P : A → Type 0) (Q : B → Type 0) where
  pub result-OnOk :
      (r : Result A) (f : A → Result B)
      → OnOk P r
      → ((a : A) → P a → OnOk Q (f a))
      → OnOk Q (Result.◌>>=◌ r f)
  result-OnOk (ok a) f h k = k a h
  result-OnOk (err e) f h k = tt

pub OnOk-map :
    {A : Type 0} (P Q : A → Type 0) (r : Result A) → ((a : A) → P a → Q a) → OnOk P r → OnOk Q r
OnOk-map P Q (ok a) k h = k a h
OnOk-map P Q (err e) k h = tt

module _ {S A B : Type 0} where
  pub and_then-ne :
      (r : Result A) (f : A → Exec S B) (s : S) (e : Error)
      → (r ≡ err e → ⊥)
      → ((a : A) (t : S) → (f a t).0 ≡ err e → ⊥)
      → (and_then r f s).0 ≡ err e
      → ⊥
  and_then-ne (ok a) f s e h k p = k a s p
  and_then-ne (err x) f s e h k p = h (ground arith)

  pub and_then-OnOk :
      (P : A → Type 0) (Q : B → Type 0) (r : Result A) (f : A → Exec S B) (s : S)
      → OnOk P r
      → ((a : A) (t : S) → P a → OnOk Q (f a t).0)
      → OnOk Q (and_then r f s).0
  and_then-OnOk P Q (ok a) f s h k = k a s h
  and_then-OnOk P Q (err x) f s h k = tt

-- A condition that always holds.
abbrev pub Always {ℓ} : {A : Type ℓ} → A → Type 0
Always a = Unit

pub OnOk-Always {ℓ} : {A : Type ℓ} (r : Result A) → OnOk Always r
OnOk-Always (ok a) = tt
OnOk-Always (err e) = tt

module _ {S A B : Type 0} where
  -- A result needs only what the rest of a block gives.
  pub bind-OnOk :
      (Q : B → Type 0) (m : Exec S A) (f : A → Exec S B) (s : S)
      → ((a : A) (t : S) → OnOk Q (f a t).0)
      → OnOk Q (and_then (m s).0 f (m s).1).0
  bind-OnOk Q m f s k =
      and_then-OnOk Always Q (m s).0 f (m s).1 (OnOk-Always (m s).0) (λ a t _. k a t)

  valued-OnOk :
      (Q : B → Type 0) (p : Result A × S) (f : A → Exec S B)
      → ((a : A) (t : S) → p ≡ (ok a, t) → OnOk Q (f a t).0)
      → OnOk Q (and_then p.0 f p.1).0
  valued-OnOk Q (ok a, t) f k = k a t refl
  valued-OnOk Q (err e, t) f k = tt

  -- The rest of a block may use what the first part returned.
  pub value-OnOk :
      (Q : B → Type 0) (m : Exec S A) (f : A → Exec S B) (s : S)
      → ((a : A) (t : S) → m s ≡ (ok a, t) → OnOk Q (f a t).0)
      → OnOk Q (and_then (m s).0 f (m s).1).0
  value-OnOk Q m f s k = valued-OnOk Q (m s) f k

pub both-OnOk :
    {A : Type 0} (P Q : A → Type 0) (r : Result A) → OnOk P r → OnOk Q r → OnOk (λ a. P a × Q a) r
both-OnOk P Q (ok a) p q = (p, q)
both-OnOk P Q (err e) p q = tt
