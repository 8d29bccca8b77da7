-- ===== src/Doxy/Parse/Once.antt =====
-- `check_parsed` as a whole: the registry, and repeated calls.
use gr_digitizers.Prelude.{
  ℕ, ◌<◌, ◌≡◌, refl, Bool, true, false, Option, none, some, List, [], ◌∷◌, ◌++◌, arith,
  if◌then◌else◌, Bool-cases, inl, inr,
}
use gr_digitizers.Prelude.Str.{Str, codes, ends_with}
use gr_digitizers.Prelude.Result.{ok}
use gr_digitizers.Prelude.Exec.{Exec, pure, ◌>>=◌, ◌>>◌}
use gr_digitizers.Doxy.Data.{ParseData, CompoundDef, Xml}
use gr_digitizers.Doxy.Heap.{
  Cls, file, namespace, World, Ref, index, obj, fetch, write, update, read,
}
use gr_digitizers.Doxy.Convert.{get_cls}
use gr_digitizers.Doxy.Fields.{mark_parsed}
use gr_digitizers.Doxy.Parse.{
  parse_as, check_parsed_obj, raise_if, members_of_obj, converted_members, extend, place,
  index_mems, root, parse_index, check_parsed_if, check_parsed,
}
use gr_digitizers.Doxy.Parse.Flags.{
  Registered, Extends, Extends-self, Keeps, bind-Keeps, convert_mem-Keeps,
}
use gr_digitizers.Doxy.Parse.Progress.{
  update-Keeps, read-Keeps, lift-Keeps, mark_parsed-Keeps, body_as-Keeps, check_parsed_obj-Keeps,
}

module _ (w0 : World) (compound_xml : Str → Xml (Option CompoundDef)) where
  raise_if-Keeps : (b : Bool) → Keeps w0 (raise_if compound_xml b)
  raise_if-Keeps true = record { at = λ w e. e }
  raise_if-Keeps false = record { at = λ w e. e }

  members_of_obj-Keeps : (n : ℕ) → Keeps w0 (members_of_obj compound_xml n)
  unfolding members_of_obj
  members_of_obj-Keeps n = bind-Keeps w0 (check_parsed_obj-Keeps w0 compound_xml n) λ _.
      bind-Keeps w0 (read-Keeps w0 (obj n))
        λ o. bind-Keeps w0 (raise_if-Keeps o.error) λ _. lift-Keeps w0 (ok o.members)

  converted_members-Keeps : (m : Option ℕ) → Keeps w0 (converted_members compound_xml m)
  converted_members-Keeps none = record { at = λ w e. e }
  converted_members-Keeps (some n) = members_of_obj-Keeps n

  extend-Keeps : (ms : List (Option ℕ)) → Keeps w0 (extend compound_xml ms)
  extend-Keeps ms =
      update-Keeps w0 index (λ o. record o { members = o.members ++ ms })
        (λ o. (refl, λ p. p, λ p. p))

  with_members-Keeps :
      (m : Option ℕ)
      → Keeps w0 (
          converted_members compound_xml m >>= λ ms.
          extend compound_xml ms >> extend compound_xml (m ∷ []))
  with_members-Keeps m =
      bind-Keeps w0 (converted_members-Keeps m)
        λ ms. bind-Keeps w0 (extend-Keeps ms) λ _. extend-Keeps (m ∷ [])

  if_header-Keeps :
      (b : Bool) (m : Exec World (Unit {0})) → Keeps w0 m → Keeps w0 (if b then m else pure tt)
  if_header-Keeps true m k = k
  if_header-Keeps false m k = record { at = λ w e. e }

  place-Keeps : (c : Cls) (m : Option ℕ) (name : Str) → Keeps w0 (place compound_xml c m name)
  place-Keeps file m name = if_header-Keeps (ends_with name (codes ".h")) _ (with_members-Keeps m)
  place-Keeps namespace m name = with_members-Keeps m
  place-Keeps _ m name = extend-Keeps (m ∷ [])

  index_mems-Keeps : (mems : List ParseData) → Keeps w0 (index_mems compound_xml mems)
  unfolding index_mems
  index_mems-Keeps [] = record { at = λ w e. e }
  index_mems-Keeps (mem ∷ mems) = bind-Keeps w0 (convert_mem-Keeps w0 mem) λ m.
      bind-Keeps w0 (lift-Keeps w0 (get_cls mem))
        λ c. bind-Keeps w0 (place-Keeps c m mem.name) λ _. index_mems-Keeps mems

  module _ (index_xml : Xml (List ParseData)) where
    check_parsed_if-Keeps : (b : Bool) → Keeps w0 (check_parsed_if compound_xml index_xml b)
    unfolding parse_index
    check_parsed_if-Keeps true = record { at = λ w e. e }
    check_parsed_if-Keeps false =
        bind-Keeps w0 (mark_parsed-Keeps w0 index) λ _.
          bind-Keeps w0 (lift-Keeps w0 (root compound_xml index_xml index_xml)) index_mems-Keeps

    check_parsed-Keeps : (r : Ref) → Keeps w0 (check_parsed compound_xml index_xml r)
    unfolding check_parsed
    check_parsed-Keeps index =
        bind-Keeps w0 (read-Keeps w0 index) λ o. check_parsed_if-Keeps o.parsed
    check_parsed-Keeps (obj n) = check_parsed_obj-Keeps w0 compound_xml n

-- Where every registered reference leads to an object that has it, check_parsed of the index or of
-- an object, whether it returns or raises, leaves it so, loses no object, and takes from no object
-- its reference or a flag that is set, neither that it is parsed nor that it failed.
pub check_parsed-Extends :
    (compound_xml : Str → Xml (Option CompoundDef)) (index_xml : Xml (List ParseData)) (r : Ref)
    (w : World)
    → Registered w
    → Extends w (check_parsed compound_xml index_xml r w).1
check_parsed-Extends compound_xml index_xml r w h =
    (check_parsed-Keeps w compound_xml index_xml r).at w (Extends-self w h)

-- The world right after the flag is set.
abbrev marked : Ref → World → World
marked r w = (mark_parsed r w).1

marked-Registered : (r : Ref) (w : World) → Registered w → Registered (marked r w)
marked-Registered r w h = ((mark_parsed-Keeps w r).at w (Extends-self w h)).refs

module _ (compound_xml : Str → Xml (Option CompoundDef)) (n : ℕ) where
  check_parsed_obj-done :
      (w : World) → (w.objs n).parsed ≡ true → check_parsed_obj compound_xml n w ≡ (ok tt, w)
  unfolding check_parsed_obj read fetch
  check_parsed_obj-done w h = rw h

  marked-parsed : (w : World) → ((marked (obj n) w).objs n).parsed ≡ true
  unfolding mark_parsed update write
  marked-parsed w = ground arith

  marked-next : (w : World) → n < w.next → n < (marked (obj n) w).next
  unfolding mark_parsed update write
  marked-next w h = h

  parse_as-parsed :
      (c : Cls) (w : World)
      → Registered w
      → n < w.next
      → ((parse_as compound_xml c (obj n) w).1.objs n).parsed ≡ true
  unfolding parse_as
  parse_as-parsed c w h low =
      let e =
        (body_as-Keeps (marked (obj n) w) compound_xml c (obj n)).at (marked (obj n) w)
          (Extends-self (marked (obj n) w) (marked-Registered (obj n) w h)) in
      e.parsed n (marked-next w low) (marked-parsed w)

  check_parsed_obj-parsed :
      (w : World)
      → Registered w
      → n < w.next
      → ((check_parsed_obj compound_xml n w).1.objs n).parsed ≡ true
  unfolding check_parsed_obj read fetch
  check_parsed_obj-parsed w h low = elim (Bool-cases (w.objs n).parsed) [
    | inl e ↦ rw e e
    | inr e ↦ rw e (parse_as-parsed (w.objs n).cls w h low)
  ]

  -- For an object that exists, where every registered reference leads to an object that has it, a
  -- second check_parsed returns at once and changes nothing, also when the first one raised.
  pub check_parsed_obj_once :
      (w : World)
      → Registered w
      → n < w.next
      → let w' = (check_parsed_obj compound_xml n w).1 in
        check_parsed_obj compound_xml n w' ≡ (ok tt, w')
  check_parsed_obj_once w h low = check_parsed_obj-done _ (check_parsed_obj-parsed w h low)
