-- ===== src/Doxy/Parse/Flags.antt =====
-- The registry of references, the flags of parsed objects, and their references.
use gr_digitizers.Prelude.{ℕ, ◌≤◌, ◌<◌, ◌≡◌, refl, true, Option, none, some, arith}
use gr_digitizers.Prelude.Str.{Str, str_eq_iff}
use gr_digitizers.Prelude.Dict.{lookup, lookup-insert}
use gr_digitizers.Prelude.Result.{Result, ok, err}
use gr_digitizers.Prelude.Exec.{Exec, pure, and_then, ◌>>=◌, ◌>>◌}
use gr_digitizers.Doxy.Data.{ParseData}
use gr_digitizers.Doxy.Heap.{Cls, Obj, new_obj, World, Ref, index, obj, fetch, write, update, alloc}
use gr_digitizers.Doxy.Convert.{
  set_ref, registered, from_parse_data, from_data, add_ref, add, get_cls, converted, convert_mem,
}

-- Each registered reference leads to an object that has this reference.
abbrev pub Registered : World → Type 0
Registered w =
    (k : Str) (n : ℕ) → lookup k w.refs ≡ some n → (n < w.next) × ((w.objs n).refid ≡ some k)

-- What holds of a world that came from `w0`.
pub record Extends (w0 w : World) : Type 0 where
  pub next_le : w0.next ≤ w.next
  pub parsed : (n : ℕ) → n < w0.next → (w0.objs n).parsed ≡ true → (w.objs n).parsed ≡ true
  pub error : (n : ℕ) → n < w0.next → (w0.objs n).error ≡ true → (w.objs n).error ≡ true
  pub refid : (n : ℕ) → n < w0.next → (w.objs n).refid ≡ (w0.objs n).refid
  pub top_parsed : w0.top.parsed ≡ true → w.top.parsed ≡ true
  pub top_error : w0.top.error ≡ true → w.top.error ≡ true
  pub refs : Registered w

pub Extends-self : (w : World) → Registered w → Extends w w
Extends-self w h = record {
  next_le = omega arith;
  parsed = λ n _ p. p;
  error = λ n _ p. p;
  refid = λ n _. refl;
  top_parsed = λ p. p;
  top_error = λ p. p;
  refs = h;
}

-- A write that keeps the flags and the reference.
abbrev pub Harmless : (Obj → Obj) → Type 0
Harmless f =
    (o : Obj)
    → ((f o).refid ≡ o.refid)
      × (o.parsed ≡ true → (f o).parsed ≡ true)
      × (o.error ≡ true → (f o).error ≡ true)

module _ (w0 : World) where
  pub update-Extends :
      (r : Ref) (f : Obj → Obj) (w : World)
      → Harmless f
      → Extends w0 w
      → Extends w0 (update r f w).1
  unfolding update fetch write
  update-Extends index f w h e = record {
    next_le = e.next_le;
    parsed = e.parsed;
    error = e.error;
    refid = e.refid;
    top_parsed = λ p. (h w.top).1 (e.top_parsed p);
    top_error = λ p. (h w.top).2 (e.top_error p);
    refs = e.refs;
  }
  update-Extends (obj m) f w h e = record {
    next_le = e.next_le;
    parsed = λ n l p. ground (arith, e.parsed n l p, h (w.objs m));
    error = λ n l p. ground (arith, e.error n l p, h (w.objs m));
    refid = λ n l. ground (arith, e.refid n l, h (w.objs m));
    top_parsed = e.top_parsed;
    top_error = e.top_error;
    refs = λ k n q. ground (arith, e.refs k n q, h (w.objs m));
  }

  pub alloc-Extends : (o : Obj) (w : World) → Extends w0 w → Extends w0 (alloc o w).1
  unfolding alloc
  alloc-Extends o w e = record {
    next_le = omega (arith, e.next_le);
    parsed = λ n l p. ground (arith, e.parsed n l p, e.next_le);
    error = λ n l p. ground (arith, e.error n l p, e.next_le);
    refid = λ n l. ground (arith, e.refid n l, e.next_le);
    top_parsed = e.top_parsed;
    top_error = e.top_error;
    refs = λ k n q. ground (arith, e.refs k n q);
  }

  set_ref-Extends :
      (k : Str) (n : ℕ) (w : World)
      → n < w.next
      → (w.objs n).refid ≡ some k
      → Extends w0 w
      → Extends w0 (set_ref k n w)
  unfolding set_ref
  set_ref-Extends k n w l p e = record {
    next_le = e.next_le;
    parsed = e.parsed;
    error = e.error;
    refid = e.refid;
    top_parsed = e.top_parsed;
    top_error = e.top_error;
    refs = λ j m q. ground (arith, lookup-insert k j n w.refs, str_eq_iff k j, e.refs j m);
  }

-- The action keeps what holds of the worlds that came from `w0`, whether it returns or raises.
pub record Keeps {A : Type 0} (w0 : World) (m : Exec World A) : Type 0 where
  pub at : (w : World) → Extends w0 w → Extends w0 (m w).1

module _ {A B : Type 0} (w0 : World) where
  and_then-Keeps :
      (r : Result A) (f : A → Exec World B) (w : World)
      → ((a : A) → Keeps w0 (f a))
      → Extends w0 w
      → Extends w0 (and_then r f w).1
  and_then-Keeps (ok a) f w kf e = (kf a).at w e
  and_then-Keeps (err x) f w kf e = e

  pub bind-Keeps :
      {m : Exec World A} {f : A → Exec World B}
      → Keeps w0 m
      → ((a : A) → Keeps w0 (f a))
      → Keeps w0 (m >>= f)
  bind-Keeps {m} {f} km kf = record { at = λ w e. and_then-Keeps (m w).0 f (m w).1 kf (km.at w e) }

module _ (w0 : World) where
  registered-found :
      (found : Option ℕ) (c : Cls) (pd : Option ParseData) (k : Str) (w : World)
      → lookup k w.refs ≡ found
      → Extends w0 w
      → Extends w0 (registered c pd k w).1
  unfolding registered alloc new_obj
  registered-found (some n) c pd k w h e = rw (h, registered) e
  registered-found none c pd k w h e =
      rw (h, registered)
        (set_ref-Extends w0 k w.next (alloc (new_obj c pd (some k)) w).1 (omega arith)
          (ground arith) (alloc-Extends w0 (new_obj c pd (some k)) w e))

  pub registered-Keeps : (c : Cls) (pd : Option ParseData) (k : Str) → Keeps w0 (registered c pd k)
  registered-Keeps c pd k = record {
    at = λ w e. registered-found (lookup k w.refs) c pd k w refl e;
  }

-- What a call returned, when it returned an object: the object is there.
abbrev Below : Result ℕ × World → Type 0
Below (ok n, w) = n < w.next
Below (err e, w) = Unit

registered-Below :
    (found : Option ℕ) (c : Cls) (pd : Option ParseData) (k : Str) (w : World)
    → lookup k w.refs ≡ found
    → Registered w
    → Below (registered c pd k w)
unfolding registered alloc set_ref
registered-Below (some n) c pd k w h reg = rw (h, registered) (reg k n h).0
registered-Below none c pd k w h reg = rw (h, registered) (omega arith)

module _ (w0 : World) where
  from_data-Keeps : (c : Cls) (pd : ParseData) (k : Option Str) → Keeps w0 (from_data c pd k)
  from_data-Keeps c pd (some k) = registered-Keeps w0 c (some pd) k
  from_data-Keeps c pd none = record { at = λ w e. alloc-Extends w0 (new_obj c (some pd) none) w e }

  from_data-Below :
      (c : Cls) (pd : ParseData) (k : Option Str) (w : World)
      → Registered w
      → Below (from_data c pd k w)
  unfolding alloc
  from_data-Below c pd (some k) w reg = registered-Below (lookup k w.refs) c (some pd) k w refl reg
  from_data-Below c pd none w reg = omega arith

  add-Extends :
      (k : Option Str) (n : ℕ) (w : World)
      → n < w.next
      → (w.objs n).refid ≡ k
      → Extends w0 w
      → Extends w0 (add k n w)
  add-Extends (some k) n w l p e = set_ref-Extends w0 k n w l p e
  add-Extends none n w l p e = e

  abbrev registering : ℕ → Exec World (Option ℕ)
  registering n = add_ref n >> pure (some n)

  registering-Extends :
      (r : Result ℕ) (w : World)
      → Below (r, w)
      → Extends w0 w
      → Extends w0 (and_then r registering w).1
  unfolding add_ref
  registering-Extends (ok n) w l e = add-Extends (w.objs n).refid n w l refl e
  registering-Extends (err x) w l e = e

  converted-Keeps : (c : Result Cls) (mem : ParseData) → Keeps w0 (converted c mem)
  unfolding from_parse_data
  converted-Keeps (err x) mem = record { at = λ w e. e }
  converted-Keeps (ok c) mem = record {
    at = λ w e.
        registering-Extends (from_data c mem mem.refid w).0 (from_data c mem mem.refid w).1
          (from_data-Below c mem mem.refid w e.refs) ((from_data-Keeps c mem mem.refid).at w e);
  }

  pub convert_mem-Keeps : (mem : ParseData) → Keeps w0 (convert_mem mem)
  unfolding convert_mem
  convert_mem-Keeps mem = converted-Keeps (get_cls mem) mem
