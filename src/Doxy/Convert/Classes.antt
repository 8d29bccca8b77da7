-- ===== src/Doxy/Convert/Classes.antt =====
-- The class that `get_cls` finds for a kind.
use mathlib.Core.Path.{subst}
use gr_digitizers.Prelude.{
  ◌≡◌, ◌↔◌, refl, sym, All, Bool-cases, inl, inr, true, List, [], ◌∷◌, arith,
}
use gr_digitizers.Prelude.Str.{Str, codes, str_eq, str_eq_iff, member}
use gr_digitizers.Prelude.Result.{ok}
use gr_digitizers.Doxy.Data.{ParseData}
use gr_digitizers.Doxy.Heap.{Cls, function, class, file, namespace, group, friend, other}
use gr_digitizers.Doxy.Convert.{can_parse, first_class, get_cls, mem_classes, other_kinds}

first_class_sound :
    (cs : List Cls) (kind : Str) (c : Cls) → first_class cs kind ≡ ok c → can_parse c kind ≡ true
unfolding first_class
first_class_sound [] kind c h = cc
first_class_sound (k ∷ cs) kind c h = ground (arith, first_class_sound cs kind c)

of_literal :
    (kind lit : Str) (c : Cls)
    → first_class mem_classes lit ≡ ok c
    → str_eq kind lit ≡ true
    → first_class mem_classes kind ≡ ok c
of_literal kind lit c e h =
    subst (λ k. first_class mem_classes k ≡ ok c) (sym ((str_eq_iff kind lit).0 h)) e

of_member :
    (kind : Str) (kinds : List Str) (c : Cls)
    → All (λ k. first_class mem_classes k ≡ ok c) kinds
    → member kind kinds ≡ true
    → first_class mem_classes kind ≡ ok c
unfolding member
of_member kind [] c all h = cc
of_member kind (k ∷ kinds) c (e, all) h = elim (Bool-cases (str_eq kind k)) [
  | inl same ↦ of_literal kind k c e same
  | inr differ ↦ of_member kind kinds c all (rw differ at h)
]

-- No class before `c` takes a kind that `c` takes.
class_of_kind :
    (c : Cls) (kind : Str) → can_parse c kind ≡ true → first_class mem_classes kind ≡ ok c
unfolding can_parse first_class str_eq
class_of_kind function kind h = of_literal kind (codes "function") function refl h
class_of_kind class kind h = of_literal kind (codes "class") class refl h
class_of_kind file kind h = of_literal kind (codes "file") file refl h
class_of_kind namespace kind h = of_literal kind (codes "namespace") namespace refl h
class_of_kind group kind h = of_literal kind (codes "group") group refl h
class_of_kind friend kind h = of_literal kind (codes "friend") friend refl h
class_of_kind other kind h =
    of_member kind other_kinds other
      (refl, (refl, (refl, (refl, (refl, (refl, (refl, (refl, (refl, (refl, (refl, tt))))))))))) h

-- get_cls finds exactly the class that can parse the kind; at most one can.
get_cls_iff : (mem : ParseData) (c : Cls) → (get_cls mem ≡ ok c) ↔ (can_parse c mem.kind ≡ true)
unfolding get_cls
get_cls_iff mem c = (first_class_sound mem_classes mem.kind c, class_of_kind c mem.kind)
