-- ===== src/Doxy/Lookup/Path.antt =====
-- `get_member` against a walk along the parts of a qualified name, and its fuel.
use gr_digitizers.Prelude.{
  ℕ, zero, suc, ◌+◌, ◌≤◌, ◌<◌, ◌≡◌, ◌⊎◌, inl, inr, refl, sym, ◌∙◌, ap, Bool, true, false, Option,
  none, some, List, [], ◌∷◌, ◌&&◌, ◌==◌, arith, length, Bool-cases,
}
use gr_digitizers.Prelude.Str.{Str, codes, join}
use gr_digitizers.Prelude.Result.{Result, ok, err}
use gr_digitizers.Prelude.Exec.{Exec, pure, and_then, and_then-cong, ◌>>=◌}
use gr_digitizers.Doxy.Data.{ParseData, CompoundDef, Xml}
use gr_digitizers.Doxy.Heap.{Cls, World, Ref}
use gr_digitizers.Doxy.Lookup.{
  split_colons, rest_of, get_local, descend, continue_at, get_member_fuel, get_member,
}

abbrev colons : Str
colons = codes "::"

-- All parts of a name.
abbrev pub bits : Str → List Str
bits name = (split_colons name).0 ∷ (split_colons name).1

-- Where the text is cut, and where it is not.
abbrev is_cut : ℕ → ℕ → Bool
is_cut c d = c == b':' && d == b':'

split_cut : (c d : ℕ) (s : Str) → is_cut c d ≡ true → split_colons (c ∷ d ∷ s) ≡ ([], bits s)
unfolding split_colons
split_cut c d s h = rw h

split_keep :
    (c d : ℕ) (s : Str)
    → is_cut c d ≡ false
    → split_colons (c ∷ d ∷ s) ≡ (c ∷ (split_colons (d ∷ s)).0, (split_colons (d ∷ s)).1)
unfolding split_colons
split_keep c d s h = rw h

join-cons :
    (c : ℕ) (s : Str) (ss : List Str) → join colons ((c ∷ s) ∷ ss) ≡ c ∷ join colons (s ∷ ss)
unfolding join
join-cons c s [] = refl
join-cons c s (t ∷ ss) = refl

cut_colons : (c d : ℕ) → is_cut c d ≡ true → (b':' ≡ c) × (b':' ≡ d)
cut_colons c d h = ground arith

-- Joining the parts of a name with :: gives the name back.
join-bits : (name : Str) → join colons (bits name) ≡ name
unfolding join split_colons
join-bits [] = refl
join-bits (c ∷ []) = refl
join-bits (c ∷ d ∷ s) = elim (Bool-cases (is_cut c d)) [
  | inl e ↦ rw (split_cut c d s e) (cc (join-bits s, (cut_colons c d e).0, (cut_colons c d e).1))
  | inr e ↦ rw (split_keep c d s e) (join-cons c _ _ ∙ ap (λ t. c ∷ t) (join-bits (d ∷ s)))
]

rest_of-cut : (c d : ℕ) (s : Str) → is_cut c d ≡ true → rest_of (c ∷ d ∷ s) ≡ s
unfolding rest_of
rest_of-cut c d s h = rw (split_cut c d s h) (join-bits s)

rest_of-keep : (c d : ℕ) (s : Str) → is_cut c d ≡ false → rest_of (c ∷ d ∷ s) ≡ rest_of (d ∷ s)
unfolding rest_of
rest_of-keep c d s h = rw (split_keep c d s h)

-- The rest of a name is empty, or its parts are the other parts of the name.
rest_of-bits :
    (name : Str) → ((split_colons name).1 ≡ []) ⊎ (bits (rest_of name) ≡ (split_colons name).1)
rest_of-bits [] = inl (unfold split_colons in refl)
rest_of-bits (c ∷ []) = inl (unfold split_colons in refl)
rest_of-bits (c ∷ d ∷ s) = elim (Bool-cases (is_cut c d)) [
  | inl e ↦ inr (rw (rest_of-cut c d s e, split_cut c d s e))
  | inr e ↦ rw (rest_of-keep c d s e, split_keep c d s e) (rest_of-bits (d ∷ s))
]

-- The rest of a name that has one is shorter than the name.
abbrev Shorter : Str → Str → Type 0
Shorter s name = ((split_colons s).1 ≡ []) ⊎ (length (rest_of s) + 2 ≤ length name)

Shorter-cons : (c : ℕ) (s t : Str) → Shorter s t → Shorter s (c ∷ t)
Shorter-cons c s t (inl h) = inl h
Shorter-cons c s t (inr h) = inr (omega arith)

length-rest_of : (name : Str) → Shorter name name
length-rest_of [] = inl (unfold split_colons in refl)
length-rest_of (c ∷ []) = inl (unfold split_colons in refl)
length-rest_of (c ∷ d ∷ s) = elim (Bool-cases (is_cut c d)) [
  | inl e ↦ inr (rw (rest_of-cut c d s e) (omega arith))
  | inr e ↦
      rw (rest_of-keep c d s e, split_keep c d s e)
        (Shorter-cons c (d ∷ s) (d ∷ s) (length-rest_of (d ∷ s)))
]

-- What a name with a further part `t` has as its rest.
rest_facts :
    (name t : Str) (us : List Str)
    → (split_colons name).1 ≡ t ∷ us
    → (length (rest_of name) + 2 ≤ length name) × (bits (rest_of name) ≡ t ∷ us)
rest_facts name t us e = (shorter (length-rest_of name), same (rest_of-bits name))
  where
    shorter : Shorter name name → length (rest_of name) + 2 ≤ length name
    shorter (inl h) = cc
    shorter (inr h) = h

    same :
        ((split_colons name).1 ≡ []) ⊎ (bits (rest_of name) ≡ (split_colons name).1)
        → bits (rest_of name) ≡ t ∷ us
    same (inl h) = cc
    same (inr h) = h ∙ e

module _ (compound_xml : Str → Xml (Option CompoundDef)) (index_xml : Xml (List ParseData))
    (cat : Option Cls) where
  abbrev local : Ref → Str → Exec World (Option ℕ)
  local r b = get_local compound_xml index_xml r cat b

  abbrev below : (Ref → Exec World (Option ℕ)) → Option ℕ → Exec World (Option ℕ)
  below = descend

  -- The member that the parts lead to, one level for each. A last part that is empty is ignored.
  unfoldable pub walk : List Str → Str → Ref → Exec World (Option ℕ)
  walk [] b r = local r b
  walk ([] ∷ []) b r = local r b
  walk ([] ∷ t ∷ ts) b r = local r b >>= below (walk (t ∷ ts) [])
  walk ((c ∷ s) ∷ ts) b r = local r b >>= below (walk ts (c ∷ s))

  and_then-pure : (r : Result (Option ℕ)) (w : World) → and_then r pure w ≡ (r, w)
  and_then-pure (ok a) w = refl
  and_then-pure (err e) w = refl

  below-cong :
      (f g : Ref → Exec World (Option ℕ)) (m : Option ℕ) (w : World)
      → ((r : Ref) (v : World) → f r v ≡ g r v)
      → below f m w ≡ below g m w
  below-cong f g none w h = refl
  below-cong f g (some n) w h = h _ w

  -- One level, and then what `f` does with the rest, against the parts.
  level :
      (f : Ref → Exec World (Option ℕ)) (ts : List Str) (b : Str) (r : Ref) (w : World)
      → ((t : Str) (us : List Str) → ts ≡ t ∷ us → (r' : Ref) (v : World) → f r' v ≡ walk us t r' v)
      → (local r b >>= continue_at f (join colons ts)) w ≡ walk ts b r w
  unfolding walk join
  level f [] b r w h = and_then-pure (local r b w).0 (local r b w).1
  level f ([] ∷ []) b r w h = and_then-pure (local r b w).0 (local r b w).1
  level f ([] ∷ t ∷ ts) b r w h =
      and_then-cong (local r b w).0 _ _ (local r b w).1
        (λ m v. below-cong f (walk (t ∷ ts) []) m v (h [] (t ∷ ts) refl))
  level f ((c ∷ s) ∷ []) b r w h =
      and_then-cong (local r b w).0 _ _ (local r b w).1
        (λ m v. below-cong f (walk [] (c ∷ s)) m v (h (c ∷ s) [] refl))
  level f ((c ∷ s) ∷ t ∷ ts) b r w h =
      and_then-cong (local r b w).0 _ _ (local r b w).1
        (λ m v. below-cong f (walk (t ∷ ts) (c ∷ s)) m v (h (c ∷ s) (t ∷ ts) refl))

  get_member_fuel-walk :
      (f : ℕ) (r : Ref) (name : Str) (w : World)
      → length name < f
      → get_member_fuel compound_xml index_xml f r name cat w
        ≡ walk (split_colons name).1 (split_colons name).0 r w
  unfolding get_member_fuel rest_of
  get_member_fuel-walk zero r name w h = absurd (omega arith)
  get_member_fuel-walk (suc f) r name w h =
      level (λ r'. get_member_fuel compound_xml index_xml f r' (rest_of name) cat)
        (split_colons name).1 (split_colons name).0 r w
        (λ t us e r' v.
          let facts = rest_facts name t us e in
          let step = get_member_fuel-walk f r' (rest_of name) v (omega (arith, facts.0)) in
          cc (facts.1, step))

  -- get_member looks the parts of a name between its :: up one after the other, each in the member
  -- found before.
  pub get_member-walk :
      (r : Ref) (name : Str) (w : World)
      → get_member compound_xml index_xml r name cat w
        ≡ walk (split_colons name).1 (split_colons name).0 r w
  unfolding get_member
  get_member-walk r name w = get_member_fuel-walk (suc (length name)) r name w (omega arith)

  -- With any fuel above the length of the name get_member gives the same result and the same world.
  pub get_member_fuel-enough :
      (f : ℕ) (r : Ref) (name : Str) (w : World)
      → length name < f
      → get_member_fuel compound_xml index_xml f r name cat w
        ≡ get_member compound_xml index_xml r name cat w
  get_member_fuel-enough f r name w h =
      get_member_fuel-walk f r name w h ∙ sym (get_member-walk r name w)
