-- ===== src/Doxy/Compound/Find.antt =====
-- The searches for a reference, `find` in docs/doxygen/doxyxml/generated/compound.py. The members are of
-- any type with an `id`; an `id` or a `refid` may be `None`.
use gr_digitizers.Prelude.{
  ◌≡◌, refl, Bool, true, false, Option, none, some, List, [], ◌∷◌, ◌++◌, if◌then◌else◌, Bool-cases,
  inl, inr,
}
use gr_digitizers.Prelude.Str.{Str, str_eq}
use gr_digitizers.Prelude.Result.{Result, ok, err, attribute_error}

-- `==` of strings and `None`
abbrev pub same : Option Str → Option Str → Bool
same none none = true
same none (some t) = false
same (some s) none = false
same (some s) (some t) = str_eq s t

-- What `find` of a compound returns: the compound itself, a member, or `None`.
pub data Answer (M : Type 0) : Type 0 where
  itself : Answer M
  member : M → Answer M
  nothing : Answer M

module _ {M : Type 0} (id_of : M → Option Str) where
  -- `sectiondefTypeSub.find`
  unfoldable pub find_in_section : Option Str → List M → Option M
  unfolding str_eq
  find_in_section refid [] = none
  find_in_section refid (m ∷ ms) = if same (id_of m) refid then some m else find_in_section refid ms

  abbrev or_later : Option M → Answer M → Answer M
  or_later none a = a
  or_later (some m) a = member m

  unfoldable pub find_in_sections : Option Str → List (List M) → Answer M
  unfolding find_in_section
  find_in_sections refid [] = nothing
  find_in_sections refid (s ∷ ss) = or_later (find_in_section refid s) (find_in_sections refid ss)

  -- `compounddefTypeSub.find`
  unfoldable pub find_in_compound : Option Str → Option Str → List (List M) → Answer M
  unfolding find_in_sections str_eq
  find_in_compound id refid sections =
      if same id refid then itself else find_in_sections refid sections

  -- `DoxygenTypeSub.find`; without a `compounddef`, `None` has no `find`.
  unfoldable pub find : Option (Option Str × List (List M)) → Option Str → Result (Answer M)
  unfolding find_in_compound
  find none refid = err attribute_error
  find (some (id, sections)) refid = ok (find_in_compound id refid sections)

  unfoldable pub all_members : List (List M) → List M
  all_members [] = []
  all_members (s ∷ ss) = s ++ all_members ss

  abbrev pub answer_of : Option M → Answer M
  answer_of none = nothing
  answer_of (some m) = member m

  find_in_section-append :
      (refid : Option Str) (s t : List M)
      → answer_of (find_in_section refid (s ++ t))
        ≡ or_later (find_in_section refid s) (answer_of (find_in_section refid t))
  unfolding find_in_section
  find_in_section-append refid [] t = refl
  find_in_section-append refid (m ∷ s) t = elim (Bool-cases (same (id_of m) refid)) [
    | inl e ↦ rw e
    | inr e ↦ rw e (find_in_section-append refid s t)
  ]

  pub find_in_sections-all_members :
      (refid : Option Str) (ss : List (List M))
      → find_in_sections refid ss ≡ answer_of (find_in_section refid (all_members ss))
  unfolding find_in_sections all_members find_in_section
  find_in_sections-all_members refid [] = refl
  find_in_sections-all_members refid (s ∷ ss) =
      rw (find_in_section-append refid s (all_members ss), find_in_sections-all_members refid ss)
