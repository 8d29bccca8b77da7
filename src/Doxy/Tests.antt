-- ===== src/Doxy/Tests.antt =====
-- A small tree of documents, and runs of the objects that are made of it.
use mathlib.Core.Path.{subst}
use gr_digitizers.Prelude.{
  ◌<◌, ◌≡◌, refl, ap, Option, some, none, List, [], ◌∷◌, ◌++◌, arith, if◌then◌else◌, ◌==◌,
}
use gr_digitizers.Prelude.Str.{Str, codes, str_eq, str_eq_iff}
use gr_digitizers.Prelude.Dict.{Dict, lookup}
use gr_digitizers.Prelude.Result.{ok, err, attribute_error, standard_error}
use gr_digitizers.Doxy.Data.{ParseData, CompoundDef, Xml, well_formed, malformed}
use gr_digitizers.Doxy.Quote.{quote_attrib}
use gr_digitizers.Doxy.Heap.{class, function, file, World, Entry, new_obj, index, obj, fetch}
use gr_digitizers.Doxy.Convert.{get_cls, from_parse_data}
use gr_digitizers.Doxy.Convert.Identity.{request, from_parse_data-from_refid}
use gr_digitizers.Doxy.Parse.{check_parsed, check_parsed_obj, confirm_no_error, index_mems}
use gr_digitizers.Doxy.Parse.Flags.{Registered, Extends}
use gr_digitizers.Doxy.Parse.Once.{check_parsed-Extends, check_parsed_obj_once}
use gr_digitizers.Doxy.Parse.Failures.{confirm_no_error-malformed, index_mems_unknown_kind}
use gr_digitizers.Doxy.Lookup.{get_member, get_member_fuel, split_colons, fill_dict}
use gr_digitizers.Doxy.Lookup.Path.{walk, get_member-walk, get_member_fuel-enough}
use gr_digitizers.Doxy.Lookup.Names.{members_of, entry_of, named, fill_dict-entry_of}

abbrev pub block_compound : ParseData
block_compound = record {
  kind = codes "class";
  refid = some (codes "classfir");
  name = codes "gr_fir";
  brief = none;
  detail = none;
  params = [];
}

-- A class that is not registered yet.
abbrev new_compound : ParseData
new_compound = record block_compound { refid = some (codes "classnew") }

abbrev example_compound : ParseData
example_compound = record {
  kind = codes "example";
  refid = some (codes "ex");
  name = codes "ex.cc";
  brief = none;
  detail = none;
  params = [];
}

abbrev block_document : CompoundDef
block_document = record {
  title = none;
  brief = none;
  detail = none;
  innergroup = [];
  innerclass = [];
  sections = [];
}

-- One class can be read; every other document is malformed.
abbrev pub documents : Str → Xml (Option CompoundDef)
documents k = if str_eq k (codes "classfir") then well_formed (some block_document) else malformed

abbrev pub compounds : Xml (List ParseData)
compounds = well_formed (block_compound ∷ [])

abbrev sample_world : World
sample_world = record {
  top = new_obj class none none;
  objs = λ n.
      if n == 0
      then new_obj class (some block_compound) (some (codes "classfir"))
      else new_obj file none (some (codes "gone"));
  next = 2;
  refs = (codes "classfir", 0) ∷ [];
}

sample_world-Registered : Registered sample_world
unfolding lookup new_obj
sample_world-Registered k n h =
    let key : codes "classfir" ≡ k = ground (arith, str_eq_iff (codes "classfir") k) in
    let first : 0 ≡ n = ground (arith, str_eq_iff (codes "classfir") k) in
    subst (λ m. (m < 2) × ((sample_world.objs m).refid ≡ some k)) first (omega arith, ap some key)

check_parsed-Extends_example :
    Extends sample_world (check_parsed documents compounds index sample_world).1
check_parsed-Extends_example =
    check_parsed-Extends documents compounds index sample_world sample_world-Registered

check_parsed_obj_once_example :
    let w' = (check_parsed_obj documents 0 sample_world).1 in
    check_parsed_obj documents 0 w' ≡ (ok tt, w')
check_parsed_obj_once_example =
    check_parsed_obj_once documents 0 sample_world sample_world-Registered (omega arith)

from_parse_data-from_refid_example :
    let w' = (request class (codes "classnew") (some new_compound) sample_world).1 in
    request file (codes "classnew") none w' ≡ (ok 2, w')
unfolding from_parse_data str_eq
from_parse_data-from_refid_example =
    from_parse_data-from_refid class file (codes "classnew") (some new_compound) none sample_world 2
      refl tt refl

confirm_no_error-malformed_example :
    (confirm_no_error documents compounds (obj 1) sample_world).0 ≡ err attribute_error
unfolding fetch new_obj str_eq
confirm_no_error-malformed_example =
    confirm_no_error-malformed documents compounds sample_world 1 (codes "gone") refl refl refl file
      attribute_error refl refl

index_mems_unknown_kind_example :
    index_mems documents ([] ++ (example_compound ∷ (block_compound ∷ []))) sample_world
    ≡ (err standard_error, sample_world)
unfolding index_mems get_cls str_eq
index_mems_unknown_kind_example =
    index_mems_unknown_kind documents [] (block_compound ∷ []) example_compound standard_error
      sample_world sample_world refl refl

get_member-walk_example :
    get_member documents compounds index (codes "gr_fir::make") (some function) sample_world
    ≡ walk documents compounds
        (some function)
        (split_colons (codes "gr_fir::make")).1
        (split_colons (codes "gr_fir::make")).0
        index
        sample_world
get_member-walk_example =
    get_member-walk documents compounds (some function) index (codes "gr_fir::make") sample_world

get_member_fuel-enough_example :
    get_member_fuel documents compounds 20 index (codes "gr_fir::make") (some function) sample_world
    ≡ get_member documents compounds index (codes "gr_fir::make") (some function) sample_world
get_member_fuel-enough_example =
    get_member_fuel-enough documents compounds (some function) 20 index (codes "gr_fir::make")
      sample_world (omega arith)

fill_dict-entry_of_example :
    (d : Dict Entry) × (fill_dict documents compounds
        (members_of ((codes "gr_fir", 0) ∷ []))
        []
        sample_world
      ≡ (ok d, sample_world))
    × ((k : Str) → lookup k d ≡ entry_of (named k ((codes "gr_fir", 0) ∷ [])))
unfolding fetch new_obj
fill_dict-entry_of_example =
    fill_dict-entry_of documents compounds ((codes "gr_fir", 0) ∷ []) sample_world
      ((block_compound, refl, refl), tt)

quote_attrib_run : quote_attrib (codes "a\"b'") ≡ codes "\"a&quot;b'\""
unfolding quote_attrib
quote_attrib_run = refl
