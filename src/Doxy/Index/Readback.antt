-- ===== src/Doxy/Index/Readback.antt =====
-- The document of a table is built to the objects of the table.
use gr_digitizers.Prelude.{
  ℕ, zero, suc, ◌≡◌, refl, ◌∙◌, Option, List, [], ◌∷◌, ◌++◌, map, append-nil, append_assoc,
}
use gr_digitizers.Prelude.Str.{Str, str_eq}
use gr_digitizers.Prelude.Dict.{lookup}
use gr_digitizers.Prelude.Result.{ok}
use gr_digitizers.Doxy.Dom.{text_of}
use gr_digitizers.Doxy.Index.{
  CompoundType, DoxygenType, member_child, build_member, new_member, compound_child,
  compound_children, build_compound, new_compound, add_member, doxygen_child, doxygen_children,
  build, new_doxygen, add_compound,
}
use gr_digitizers.Doxy.Index.Table.{
  MemberRow, CompoundRow, Table, member_of, compound_of, index_of, layout, text_nodes, name_item,
  member_item, compound_item, index_item, kind_refid,
}

text_of-text_nodes : (s : Str) → text_of (text_nodes s) ≡ ok s
unfolding text_of text_nodes
text_of-text_nodes [] = refl
text_of-text_nodes (c ∷ s) = rw append-nil

module _ (d : Option Str) where
  build_member-row :
      (level : ℕ) (r : MemberRow)
      → build_member d
          (kind_refid r.kind r.refid)
          (layout level (name_item r.name ∷ []))
          (new_member d)
        ≡ ok (member_of r)
  unfolding build_member member_child layout name_item lookup str_eq member_of
  build_member-row level r = rw (text_of-text_nodes r.name)

  compound_children-rows :
      (level : ℕ) (rs : List MemberRow) (c : CompoundType)
      → compound_children d (layout level (map (member_item (suc level)) rs)) c
        ≡ ok (record c { member = c.member ++ map member_of rs })
  unfolding compound_children compound_child layout member_item add_member str_eq member_of
  compound_children-rows level [] c = rw append-nil
  compound_children-rows level (r ∷ rs) c = rw (text_of-text_nodes r.name) (
      compound_children-rows level rs (add_member (member_of r) c)
      ∙ rw (append_assoc c.member (member_of r ∷ []) (map member_of rs)))

  build_compound-row :
      (level : ℕ) (r : CompoundRow)
      → build_compound d
          (kind_refid r.kind r.refid)
          (layout level (name_item r.name ∷ map (member_item (suc level)) r.members))
          (new_compound d)
        ≡ ok (compound_of r)
  unfolding build_compound compound_child layout name_item lookup str_eq compound_of
  build_compound-row level r =
      rw (text_of-text_nodes r.name) (compound_children-rows level r.members _)

  doxygen_children-rows :
      (rs : List CompoundRow) (x : DoxygenType)
      → doxygen_children d (layout zero (map (compound_item (suc zero)) rs)) x
        ≡ ok (record x { compound = x.compound ++ map compound_of rs })
  unfolding doxygen_children doxygen_child layout compound_item add_compound str_eq
  doxygen_children-rows [] x = rw append-nil
  doxygen_children-rows (r ∷ rs) x = rw (build_compound-row (suc zero) r) (
      doxygen_children-rows rs (add_compound (compound_of r) x)
      ∙ rw (append_assoc x.compound (compound_of r ∷ []) (map compound_of rs)))

  pub build-index_item : (t : Table) → build d (index_item t).1 (new_doxygen d) ≡ ok (index_of t)
  unfolding build index_item index_of lookup str_eq
  build-index_item t = doxygen_children-rows t.compounds _
