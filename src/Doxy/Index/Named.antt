-- ===== src/Doxy/Index/Named.antt =====
-- The names of the objects that index.py builds, where `name` has a default other than `None`.
use gr_digitizers.Prelude.{◌≡◌, refl, true, some, List, [], ◌∷◌, ◌++◌, All, Bool-cases, inl, inr}
use gr_digitizers.Prelude.Str.{Str, codes, str_eq}
use gr_digitizers.Prelude.Result.{Result}
use gr_digitizers.Prelude.Exec.{OnOk, Always, result-OnOk, OnOk-Always}
use gr_digitizers.Doxy.Dom.{
  Dom, element, text, cdata, comment, Doms, nil, cons, local_name, text_of,
}
use gr_digitizers.Doxy.Index.{
  MemberType, CompoundType, DoxygenType, new_member, new_compound, new_doxygen, add_member,
  add_compound, member_child, member_children, member_attributes, build_member, compound_child,
  compound_children, compound_attributes, build_compound, doxygen_child, doxygen_children,
  doxygen_attributes, build, parse,
}
use gr_digitizers.Doxy.Index.Export.{is_some}

abbrev MemberNamed : MemberType → Type 0
MemberNamed m = is_some m.name ≡ true

-- A compound has a name, and so have its members.
abbrev pub Named : CompoundType → Type 0
Named c = (is_some c.name ≡ true) × All MemberNamed c.member

abbrev pub IndexNamed : DoxygenType → Type 0
IndexNamed d = All Named d.compound

All-snoc :
    {A : Type 0} (P : A → Type 0) (xs : List A) (x : A) → All P xs → P x → All P (xs ++ (x ∷ []))
All-snoc P [] x h k = (k, tt)
All-snoc P (y ∷ xs) x (h, hs) k = (h, All-snoc P xs x hs k)

module _ (s : Str) where
  member_child-Named :
      (k : Dom) (m : MemberType) → MemberNamed m → OnOk MemberNamed (member_child (some s) k m)
  unfolding member_child
  member_child-Named (text t) m h = h
  member_child-Named (cdata t) m h = h
  member_child-Named (comment t) m h = h
  member_child-Named (element n attrs kids) m h =
      elim (Bool-cases (str_eq (local_name n) (codes "name"))) [
        | inl e ↦ rw e (
            result-OnOk Always MemberNamed (text_of kids) _ (OnOk-Always (text_of kids))
              (λ t u. refl))
        | inr e ↦ rw e h
      ]

  member_children-Named :
      (ks : Doms) (m : MemberType)
      → MemberNamed m
      → OnOk MemberNamed (member_children (some s) ks m)
  unfolding member_children
  member_children-Named nil m h = h
  member_children-Named (cons k ks) m h =
      result-OnOk MemberNamed MemberNamed (member_child (some s) k m) (member_children (some s) ks)
        (member_child-Named k m h) (member_children-Named ks)

  compound_child-Named :
      (k : Dom) (c : CompoundType) → Named c → OnOk Named (compound_child (some s) k c)
  unfolding compound_child build_member add_member
  compound_child-Named (text t) c h = h
  compound_child-Named (cdata t) c h = h
  compound_child-Named (comment t) c h = h
  compound_child-Named (element n attrs kids) c (h, hm) =
      elim (Bool-cases (str_eq (local_name n) (codes "name"))) [
        | inl e ↦ rw e (
            result-OnOk Always Named (text_of kids) _ (OnOk-Always (text_of kids))
              (λ t u. (refl, hm)))
        | inr e ↦ elim (Bool-cases (str_eq (local_name n) (codes "member"))) [
          | inl f ↦
              rw (e, f)
                (result-OnOk MemberNamed Named
                  (build_member (some s) attrs kids (new_member (some s))) _
                  (member_children-Named kids _ (unfold member_attributes in refl))
                  (λ m k. (h, All-snoc MemberNamed c.member m hm k)))
          | inr f ↦ rw (e, f) (h, hm)
        ]
      ]

  compound_children-Named :
      (ks : Doms) (c : CompoundType) → Named c → OnOk Named (compound_children (some s) ks c)
  unfolding compound_children
  compound_children-Named nil c h = h
  compound_children-Named (cons k ks) c h =
      result-OnOk Named Named (compound_child (some s) k c) (compound_children (some s) ks)
        (compound_child-Named k c h) (compound_children-Named ks)

  doxygen_child-Named :
      (k : Dom) (d : DoxygenType) → IndexNamed d → OnOk IndexNamed (doxygen_child (some s) k d)
  unfolding doxygen_child build_compound add_compound
  doxygen_child-Named (text t) d h = h
  doxygen_child-Named (cdata t) d h = h
  doxygen_child-Named (comment t) d h = h
  doxygen_child-Named (element n attrs kids) d h =
      elim (Bool-cases (str_eq (local_name n) (codes "compound"))) [
        | inl e ↦ rw e (
            result-OnOk Named IndexNamed
              (build_compound (some s) attrs kids (new_compound (some s))) _
              (compound_children-Named kids _ (unfold compound_attributes in (refl, tt)))
              (λ c k. All-snoc Named d.compound c h k))
        | inr e ↦ rw e h
      ]

  doxygen_children-Named :
      (ks : Doms) (d : DoxygenType)
      → IndexNamed d
      → OnOk IndexNamed (doxygen_children (some s) ks d)
  unfolding doxygen_children
  doxygen_children-Named nil d h = h
  doxygen_children-Named (cons k ks) d h =
      result-OnOk IndexNamed IndexNamed (doxygen_child (some s) k d) (doxygen_children (some s) ks)
        (doxygen_child-Named k d h) (doxygen_children-Named ks)

  build-Named : (root : Dom) → OnOk IndexNamed (build (some s) root (new_doxygen (some s)))
  unfolding build
  build-Named (element n attrs kids) =
      doxygen_children-Named kids _ (unfold doxygen_attributes in tt)
  build-Named (text t) = tt
  build-Named (cdata t) = tt
  build-Named (comment t) = tt

  -- With a string as the default of the names, as in index.py, every compound and member of an index
  -- that parse returns has a name, whatever the document.
  pub parse-Named : (document : Result Dom) → OnOk IndexNamed (parse (some s) document)
  unfolding parse
  parse-Named document =
      result-OnOk Always IndexNamed document _ (OnOk-Always document) (λ root u. build-Named root)
