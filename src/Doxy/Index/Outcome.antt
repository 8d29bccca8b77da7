-- ===== src/Doxy/Index/Outcome.antt =====
-- Methods that write a text or raise the `ValueError` of `encode`.
use gr_digitizers.Prelude.{ℕ, zero, suc, ◌≡◌, refl, Bool, true, false, ◌&&◌, Bool-cases, inl, inr}
use gr_digitizers.Prelude.Str.{Str}
use gr_digitizers.Prelude.Result.{Result, ok, err, value_error}
use gr_digitizers.Prelude.Exec.{Exec, lift, and_then, ◌>>=◌, ◌>>◌}
use gr_digitizers.Doxy.Index.Export.{write, is_ascii, encode, show_indent}

-- Raises the `ValueError`, unless the texts can be encoded.
abbrev pub guard : Bool → Result (Unit {0})
guard true = ok tt
guard false = err value_error

-- Whether a method that writes returns.
unfoldable pub Outcome : Exec Str (Unit {0}) → Bool → Type 0
Outcome m b = (out : Str) → (m out).0 ≡ guard b

pub run-Outcome :
    (m : Exec Str (Unit {0})) (b : Bool) (out : Str) → Outcome m b → (m out).0 ≡ guard b
unfolding Outcome
run-Outcome m b out h = h out

pub write-Outcome : (s : Str) → Outcome (write s) true
unfolding Outcome
write-Outcome s out = refl

and_then-guard :
    (a b : Bool) (n : Exec Str (Unit {0})) (out : Str)
    → (n out).0 ≡ guard b
    → (and_then (guard a) (λ _. n) out).0 ≡ guard (a && b)
and_then-guard true b n out h = h
and_then-guard false b n out h = refl

module _ (m n : Exec Str (Unit {0})) (a b : Bool) where
  pub then-Outcome : Outcome m a → Outcome n b → Outcome (m >> n) (a && b)
  then-Outcome h k =
      unfold Outcome in λ out. rw (h out) (and_then-guard a b n (m out).1 (k (m out).1))

pub encode-Outcome :
    (s : Str) (k : Str → Exec Str (Unit {0}))
    → Outcome (k s) true
    → Outcome (lift (encode s) >>= k) (is_ascii s)
unfolding Outcome encode
encode-Outcome s k h out = elim (Bool-cases (is_ascii s)) [ inl e ↦ rw e (h out) | inr e ↦ rw e ]

pub show_indent-Outcome : (n : ℕ) → Outcome (show_indent n) true
unfolding Outcome show_indent
show_indent-Outcome zero out = refl
show_indent-Outcome (suc n) out = show_indent-Outcome n _
