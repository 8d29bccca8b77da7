-- ===== src/BuildUtils/Generate/Makefile.antt =====
-- What the makefile fragment and the SWIG include file contain after a run of the build.
use mathlib.Core.HLevel.{hedberg}
use mathlib.Core.Logic.{∥∥₁_elim}
use mathlib.Core.List.{Perm, Permᴰ}
use gr_digitizers.Prelude.{◌≡◌, refl, ◌∙◌, true, false, some, List, [], ◌++◌, arith, if◌then◌else◌}
use gr_digitizers.Prelude.Str.{Str, codes, str_eq}
use gr_digitizers.Prelude.Dict.{Dict, insert, lookup, lookup-insert, lookup-insert_self}
use gr_digitizers.BuildUtils.Settings.{Settings}
use gr_digitizers.BuildUtils.Log.{NameDict, logged, sort}
use gr_digitizers.BuildUtils.Log.Names.{log_all, with_extension, logged-log_all}
use gr_digitizers.BuildUtils.Log.Sorting.{insert_sorted_comm, Str-list-discrete}
use gr_digitizers.BuildUtils.Generate.{
  World, subfrag, fragments, generated_note, makefile_path, output_makefile_fragment, output_glue,
}

logged-insert :
    (ext key : Str) (names : List Str) (d : NameDict)
    → logged ext (insert key names d) ≡ (if str_eq key ext then names else logged ext d)
unfolding logged
logged-insert ext key names d = rw (lookup-insert key ext, logged) (ground arith)

-- The fragments as a function of the names that were logged.
unfoldable pub makefile_of_names : List Str → Str
makefile_of_names ns =
    subfrag (codes "h") (sort (with_extension (codes "h") ns))
    ++ (subfrag (codes "i") (sort (with_extension (codes "i") ns))
        ++ subfrag (codes "cc") (sort (with_extension (codes "cc") ns)))

fragments-eq :
    (d : NameDict)
    → (fragments d).0
      ≡ subfrag (codes "h") (sort (logged (codes "h") d))
        ++ (subfrag (codes "i") (sort (logged (codes "i") d))
            ++ subfrag (codes "cc") (sort (logged (codes "cc") d)))
unfolding fragments str_eq
fragments-eq d = simp logged-insert

fragments-log_all : (ns : List Str) → (fragments (log_all ns [])).0 ≡ makefile_of_names ns
unfolding makefile_of_names logged lookup
fragments-log_all ns = fragments-eq (log_all ns []) ∙ simp logged-log_all

sort-with_extension :
    (ext : Str) {ns ms : List Str}
    → Permᴰ ns ms
    → sort (with_extension ext ns) ≡ sort (with_extension ext ms)
unfolding with_extension sort
sort-with_extension ext Permᴰ.nil = refl
sort-with_extension ext (Permᴰ.cons e p) = ground (arith, sort-with_extension ext p)
sort-with_extension ext (Permᴰ.swap {a = a} {b = b} {l = l} e f) =
    ground (arith, insert_sorted_comm a b (sort (with_extension ext l)))
sort-with_extension ext (Permᴰ.trans p q) = sort-with_extension ext p ∙ sort-with_extension ext q

sort-with_extension_perm :
    (ext : Str) (ns ms : List Str)
    → Perm ns ms
    → sort (with_extension ext ns) ≡ sort (with_extension ext ms)
sort-with_extension_perm ext ns ms p =
    ∥∥₁_elim p (hedberg Str-list-discrete _ _) (λ q. sort-with_extension ext q)

makefile_of_names-perm :
    (ns ms : List Str) → Perm ns ms → makefile_of_names ns ≡ makefile_of_names ms
unfolding makefile_of_names
makefile_of_names-perm ns ms p = rw (
  sort-with_extension_perm (codes "h") ns ms p,
  sort-with_extension_perm (codes "i") ns ms p,
  sort-with_extension_perm (codes "cc") ns ms p,
)

fragment_file :
    (s : Settings) (environ : Dict Str) (w : World)
    → s.do_makefile ≡ true
    → (output_makefile_fragment s environ w).files
      ≡ insert (makefile_path environ) (generated_note ++ (fragments w.names).0) w.files
unfolding output_makefile_fragment
fragment_file s environ w on = ground arith

-- With do_makefile on, two logs of the same names in any order give the same Makefile.gen: the note
-- and, for each of the three extensions, the sorted names.
pub output_makefile_fragment-perm :
    (s : Settings) (environ files : Dict Str) (ns ms : List Str)
    → s.do_makefile ≡ true
    → Perm ns ms
    → lookup
        (makefile_path environ)
        (output_makefile_fragment s environ (record { names = log_all ns []; files = files })).files
      ≡ some (generated_note ++ makefile_of_names ms)
output_makefile_fragment-perm s environ files ns ms on p = rw (
  fragment_file s environ (record { names = log_all ns []; files = files }) on,
  lookup-insert_self,
  fragments-log_all,
  makefile_of_names-perm ns ms p,
)

-- `output_glue` as a whole: with both switches off it changes nothing.
pub output_glue_off :
    (s : Settings) (environ : Dict Str) (dirname : Str) (w : World)
    → s.do_makefile ≡ false
    → s.do_sources ≡ false
    → output_glue s environ dirname w ≡ w
unfolding output_glue
output_glue_off s environ dirname w m n = ground arith
