-- ===== src/Doxy/Index/Found.antt =====
-- The searches of the index as filters.
use gr_digitizers.Prelude.{
  Bool, true, false, ◌||◌, List, [], ◌∷◌, ◌++◌, map, append-nil, append_assoc, if◌then◌else◌, ◌≡◌,
  refl, sym, Bool-cases, inl, inr,
}
use gr_digitizers.Doxy.Index.{MemberType, CompoundType, DoxygenType}
use gr_digitizers.Doxy.Index.Find.{
  find_members_from, find_members, place_compound, find_from, find_compounds_and_members,
}

unfoldable pub filter : {A : Type 0} → (A → Bool) → List A → List A
filter p [] = []
filter p (x ∷ xs) = if p x then x ∷ filter p xs else filter p xs

unfoldable pub any : {A : Type 0} → (A → Bool) → List A → Bool
any p [] = false
any p (x ∷ xs) = p x || any p xs

abbrev nonempty : {A : Type 0} → List A → Bool
nonempty [] = false
nonempty (x ∷ xs) = true

nonempty-filter : {A : Type 0} (p : A → Bool) (xs : List A) → nonempty (filter p xs) ≡ any p xs
unfolding filter any
nonempty-filter p [] = refl
nonempty-filter p (x ∷ xs) = elim (Bool-cases (p x)) [
  | inl e ↦ rw e
  | inr e ↦ rw (e, nonempty-filter p xs)
]

module _ (match_member : MemberType → Bool) (match_compound : CompoundType → Bool) where
  find_members_from-filter :
      (results ms : List MemberType)
      → find_members_from match_member match_compound results ms ≡ results ++ filter match_member ms
  unfolding find_members_from filter
  find_members_from-filter results [] = sym (append-nil results)
  find_members_from-filter results (m ∷ ms) = elim (Bool-cases (match_member m)) [
    | inl e ↦ rw (e, find_members_from-filter (results ++ (m ∷ [])) ms, append_assoc results)
    | inr e ↦ rw (e, find_members_from-filter results ms)
  ]

  -- What is to be found: the compound itself matches, or one of its members.
  abbrev pub relevant : CompoundType → Bool
  relevant c = any match_member c.member || match_compound c

  abbrev pub entry : CompoundType → CompoundType × List MemberType
  entry c = (c, filter match_member c.member)

  place_compound-entry :
      (c : CompoundType) (ms : List MemberType) (results : List (CompoundType × List MemberType))
      → place_compound match_member match_compound c ms results
        ≡ (if nonempty ms || match_compound c then results ++ ((c, ms) ∷ []) else results)
  unfolding place_compound
  place_compound-entry c [] results = refl
  place_compound-entry c (m ∷ ms) results = refl

  find_from-filter :
      (results : List (CompoundType × List MemberType)) (cs : List CompoundType)
      → find_from match_member match_compound results cs ≡ results ++ map entry (filter relevant cs)
  unfolding find_from find_members filter
  find_from-filter results [] = sym (append-nil results)
  find_from-filter results (c ∷ cs) =
      rw
        (
          find_members_from-filter [] c.member,
          place_compound-entry c (filter match_member c.member) results,
          nonempty-filter match_member c.member,
        )
        (elim (Bool-cases (relevant c)) [
          | inl e ↦ rw (e, find_from-filter (results ++ (entry c ∷ [])) cs, append_assoc results)
          | inr e ↦ rw (e, find_from-filter results cs)
        ])

  -- find_compounds_and_members gives, in order, the compounds that match or have a matching member,
  -- each with its matching members, for any match.
  pub find_compounds_and_members-filter :
      (d : DoxygenType)
      → find_compounds_and_members match_member match_compound d
        ≡ map entry (filter relevant d.compound)
  unfolding find_compounds_and_members
  find_compounds_and_members-filter d = find_from-filter [] d.compound
