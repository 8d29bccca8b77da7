-- ===== src/Doxy/Index/Find.antt =====
-- The searches of the index, `find_members` and `find_compounds_and_members` in
-- docs/doxygen/doxyxml/generated/index.py. `details.match` is a parameter, for members and for compounds.
use gr_digitizers.Prelude.{Bool, List, [], ◌∷◌, ◌++◌, if◌then◌else◌}
use gr_digitizers.Doxy.Index.{MemberType, CompoundType, DoxygenType}

module _ (match_member : MemberType → Bool) (match_compound : CompoundType → Bool) where
  -- The loop appends to `results`.
  unfoldable pub find_members_from : List MemberType → List MemberType → List MemberType
  find_members_from results [] = results
  find_members_from results (m ∷ ms) =
      find_members_from (if match_member m then results ++ (m ∷ []) else results) ms

  unfoldable pub find_members : CompoundType → List MemberType
  unfolding find_members_from
  find_members c = find_members_from [] c.member

  -- One round of the loop, for the members that were found.
  unfoldable pub place_compound :
      CompoundType
      → List MemberType
      → List (CompoundType × List MemberType)
      → List (CompoundType × List MemberType)
  place_compound c [] results = if match_compound c then results ++ ((c, []) ∷ []) else results
  place_compound c (m ∷ ms) results = results ++ ((c, m ∷ ms) ∷ [])

  unfoldable pub find_from :
      List (CompoundType × List MemberType)
      → List CompoundType
      → List (CompoundType × List MemberType)
  unfolding place_compound find_members
  find_from results [] = results
  find_from results (c ∷ cs) = find_from (place_compound c (find_members c) results) cs

  unfoldable pub find_compounds_and_members : DoxygenType → List (CompoundType × List MemberType)
  unfolding find_from
  find_compounds_and_members d = find_from [] d.compound
