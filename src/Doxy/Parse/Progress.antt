-- ===== src/Doxy/Parse/Progress.antt =====
-- The registry and the flags through the `_parse` of each class.
use gr_digitizers.Prelude.{
  ℕ, refl, Bool, true, false, Option, none, some, List, [], ◌∷◌, ◌++◌, if◌then◌else◌,
}
use gr_digitizers.Prelude.Str.{Str, member}
use gr_digitizers.Prelude.Result.{Result}
use gr_digitizers.Prelude.Exec.{Exec, pure, lift}
use gr_digitizers.Doxy.Data.{
  ParseData, CompoundDef, Detail, Node, Xml, well_formed, malformed, unreadable, invalid,
}
use gr_digitizers.Doxy.Describe.{description}
use gr_digitizers.Doxy.Heap.{
  Cls, function, class, file, namespace, group, friend, other, Obj, document, failed, World, Ref,
  obj, update, read,
}
use gr_digitizers.Doxy.Convert.{from_refid}
use gr_digitizers.Doxy.Fields.{
  detail_text, set_descriptions, put_descriptions, set_parameters, put_params, params_of,
  append_unless, process_mems, process_memberdefs, concat_sections, compounddef, present, brief_of,
  detail_of, add_inner, put_title, mark_parsed, complete_params,
}
use gr_digitizers.Doxy.Parse.{
  retrieved, retrieve_at, retrieve_data, member_data, function_body, class_body, file_body,
  group_body, body_as, parse_as, check_parsed_obj,
}
use gr_digitizers.Doxy.Parse.Flags.{
  Harmless, Keeps, update-Extends, bind-Keeps, registered-Keeps, convert_mem-Keeps,
}

module _ (w0 : World) where
  pub update-Keeps : (r : Ref) (f : Obj → Obj) → Harmless f → Keeps w0 (update r f)
  update-Keeps r f h = record { at = λ w e. update-Extends w0 r f w h e }

  pub read-Keeps : (r : Ref) → Keeps w0 (read r)
  unfolding read
  read-Keeps r = record { at = λ w e. e }

  pub lift-Keeps : {A : Type 0} (r : Result A) → Keeps w0 (lift r)
  lift-Keeps r = record { at = λ w e. e }

  set_descriptions-Keeps :
      (r : Ref) (b : Option Node) (d : Option Detail) → Keeps w0 (set_descriptions r b d)
  unfolding set_descriptions
  set_descriptions-Keeps r b d = bind-Keeps w0 (lift-Keeps (description b)) λ bd.
      bind-Keeps w0 (lift-Keeps (description (detail_text d)))
        λ dd. update-Keeps r (put_descriptions bd dd) (λ o. (refl, λ p. p, λ p. p))

  set_parameters-Keeps : (r : Ref) (d : Option Detail) → Keeps w0 (set_parameters r d)
  unfolding set_parameters
  set_parameters-Keeps r d =
      bind-Keeps w0 (lift-Keeps (params_of d))
        λ ps. update-Keeps r (put_params ps) (λ o. (refl, λ p. p, λ p. p))

  append_unless-Keeps : (seen : Bool) (r : Ref) (m : Option ℕ) → Keeps w0 (append_unless seen r m)
  append_unless-Keeps true r m = record { at = λ w e. e }
  append_unless-Keeps false r m =
      update-Keeps r (λ o. record o { members = o.members ++ (m ∷ []) })
        (λ o. (refl, λ p. p, λ p. p))

  process_mems-Keeps :
      (r : Ref) (mems : List ParseData) (seen : List Str) → Keeps w0 (process_mems r mems seen)
  unfolding process_mems
  process_mems-Keeps r [] seen = record { at = λ w e. e }
  process_mems-Keeps r (mem ∷ mems) seen = bind-Keeps w0 (convert_mem-Keeps w0 mem) λ m.
      bind-Keeps w0 (append_unless-Keeps (member mem.name seen) r m)
        λ _. process_mems-Keeps r mems (if member mem.name seen then seen else mem.name ∷ seen)

  process_memberdefs-Keeps : (r : Ref) (c : Option CompoundDef) → Keeps w0 (process_memberdefs r c)
  unfolding process_memberdefs
  process_memberdefs-Keeps r none = record { at = λ w e. e }
  process_memberdefs-Keeps r (some c) = process_mems-Keeps r (concat_sections c.sections) []

  add_inner-Keeps : (r : Ref) (c : Cls) (ids : List Str) → Keeps w0 (add_inner r c ids)
  unfolding add_inner from_refid
  add_inner-Keeps r c [] = record { at = λ w e. e }
  add_inner-Keeps r c (k ∷ ids) = bind-Keeps w0 (registered-Keeps w0 c none k) λ n.
      bind-Keeps w0
        (update-Keeps r (λ o. record o { members = o.members ++ (some n ∷ []) })
          (λ o. (refl, λ p. p, λ p. p)))
        λ _. add_inner-Keeps r c ids

  pub mark_parsed-Keeps : (r : Ref) → Keeps w0 (mark_parsed r)
  unfolding mark_parsed
  mark_parsed-Keeps r =
      update-Keeps r (λ o. record o { parsed = true }) (λ o. (refl, λ p. refl, λ p. p))

  module _ (compound_xml : Str → Xml (Option CompoundDef)) where
    retrieved-Keeps :
        (r : Ref) (x : Xml (Option CompoundDef)) → Keeps w0 (retrieved compound_xml r x)
    retrieved-Keeps r (well_formed cdef) =
        update-Keeps r (λ o. record o { retrieved = document cdef }) (λ o. (refl, λ p. p, λ p. p))
    retrieved-Keeps r malformed =
        update-Keeps r (λ o. record o { error = true; retrieved = failed })
          (λ o. (refl, λ p. p, λ p. refl))
    retrieved-Keeps r unreadable = record { at = λ w e. e }
    retrieved-Keeps r (invalid x) = record { at = λ w e. e }

    retrieve_at-Keeps : (r : Ref) (k : Option Str) → Keeps w0 (retrieve_at compound_xml r k)
    retrieve_at-Keeps r none = record { at = λ w e. e }
    retrieve_at-Keeps r (some k) = retrieved-Keeps r (compound_xml k)

    retrieve_data-Keeps : (r : Ref) → Keeps w0 (retrieve_data compound_xml r)
    unfolding retrieve_data
    retrieve_data-Keeps r = bind-Keeps w0 (read-Keeps r) (λ o. retrieve_at-Keeps r o.refid)

    function_body-Keeps : (r : Ref) → Keeps w0 (function_body compound_xml r)
    unfolding function_body
    function_body-Keeps r = bind-Keeps w0 (read-Keeps r) λ o.
        bind-Keeps w0 (lift-Keeps (member_data compound_xml o.parse_data)) λ pd.
          bind-Keeps w0 (set_descriptions-Keeps r pd.brief pd.detail) λ _.
            bind-Keeps w0 (set_parameters-Keeps r pd.detail)
              λ _. update-Keeps r (complete_params pd.params) (λ o'. (refl, λ p. p, λ p. p))

    pub if-Keeps :
        (b : Bool) (m : Exec World (Unit {0})) → Keeps w0 m → Keeps w0 (if b then pure tt else m)
    if-Keeps true m k = record { at = λ w e. e }
    if-Keeps false m k = k

    class_body-Keeps : (r : Ref) → Keeps w0 (class_body compound_xml r)
    unfolding class_body
    class_body-Keeps r = bind-Keeps w0 (retrieve_data-Keeps r) λ _.
        bind-Keeps w0 (read-Keeps r) λ o. if-Keeps o.error _ (
          bind-Keeps w0 (lift-Keeps (compounddef o.retrieved)) λ cdef.
            bind-Keeps w0 (set_descriptions-Keeps r (brief_of cdef) (detail_of cdef)) λ _.
              bind-Keeps w0 (set_parameters-Keeps r (detail_of cdef))
                λ _. process_memberdefs-Keeps r cdef)

    file_body-Keeps : (r : Ref) → Keeps w0 (file_body compound_xml r)
    unfolding file_body
    file_body-Keeps r = bind-Keeps w0 (retrieve_data-Keeps r) λ _. bind-Keeps w0 (read-Keeps r) λ o.
        bind-Keeps w0 (lift-Keeps (compounddef o.retrieved)) λ cdef.
          bind-Keeps w0 (set_descriptions-Keeps r (brief_of cdef) (detail_of cdef))
            λ _. if-Keeps o.error _ (process_memberdefs-Keeps r cdef)

    group_body-Keeps : (r : Ref) → Keeps w0 (group_body compound_xml r)
    unfolding group_body
    group_body-Keeps r = bind-Keeps w0 (retrieve_data-Keeps r) λ _.
        bind-Keeps w0 (read-Keeps r) λ o. if-Keeps o.error _ (
          bind-Keeps w0 (lift-Keeps (compounddef o.retrieved)) λ found.
            bind-Keeps w0 (lift-Keeps (present found)) λ cdef.
              bind-Keeps w0 (lift-Keeps (description cdef.title)) λ t.
                bind-Keeps w0 (update-Keeps r (put_title t) (λ o'. (refl, λ p. p, λ p. p))) λ _.
                  bind-Keeps w0 (add_inner-Keeps r group cdef.innergroup) λ _.
                    bind-Keeps w0 (add_inner-Keeps r class cdef.innerclass)
                      λ _. process_memberdefs-Keeps r found)

    pub body_as-Keeps : (c : Cls) (r : Ref) → Keeps w0 (body_as compound_xml c r)
    body_as-Keeps function r = function_body-Keeps r
    body_as-Keeps class r = class_body-Keeps r
    body_as-Keeps file r = file_body-Keeps r
    body_as-Keeps namespace r = file_body-Keeps r
    body_as-Keeps group r = group_body-Keeps r
    body_as-Keeps friend r = record { at = λ w e. e }
    body_as-Keeps other r = record { at = λ w e. e }

    parse_as-Keeps : (c : Cls) (r : Ref) → Keeps w0 (parse_as compound_xml c r)
    unfolding parse_as
    parse_as-Keeps c r = bind-Keeps w0 (mark_parsed-Keeps r) λ _. body_as-Keeps c r

    -- Whatever an object's parse does, also when it raises: references stay registered, and no object
    -- loses its reference or its flag.
    pub check_parsed_obj-Keeps : (n : ℕ) → Keeps w0 (check_parsed_obj compound_xml n)
    unfolding check_parsed_obj
    check_parsed_obj-Keeps n =
        bind-Keeps w0 (read-Keeps (obj n)) λ o. if-Keeps o.parsed _ (parse_as-Keeps o.cls (obj n))
