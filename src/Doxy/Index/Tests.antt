-- ===== src/Doxy/Index/Tests.antt =====
-- An index of two compounds, its document, and runs of what is built of it.
use gr_digitizers.Prelude.{zero, ◌≡◌, refl, Bool, false, Option, none, some, [], ◌∷◌, ◌++◌, map}
use gr_digitizers.Prelude.Str.{Str, codes, str_eq}
use gr_digitizers.Prelude.Dict.{lookup}
use gr_digitizers.Prelude.Result.{ok}
use gr_digitizers.Prelude.Exec.{OnOk}
use gr_digitizers.Doxy.Dom.{Dom, element, nil, cons}
use gr_digitizers.Doxy.Dom.Grammar.{Element}
use gr_digitizers.Doxy.Index.{MemberType, CompoundType, DoxygenType, parse}
use gr_digitizers.Doxy.Index.Export.{export}
use gr_digitizers.Doxy.Index.Literal.{literal}
use gr_digitizers.Doxy.Index.Find.{find_compounds_and_members}
use gr_digitizers.Doxy.Index.Table.{Table, printable-Printable, TablePrintable, index_of}
use gr_digitizers.Doxy.Index.Roundtrip.{export-build}
use gr_digitizers.Doxy.Index.Found.{filter, relevant, entry, find_compounds_and_members-filter}
use gr_digitizers.Doxy.Index.Outcome.{guard}
use gr_digitizers.Doxy.Index.Encodable.{encodable_index, export-encodable_index}
use gr_digitizers.Doxy.Index.Named.{IndexNamed, parse-Named}
use gr_digitizers.Doxy.Index.Literally.{every, ascii_names, parse-literal}

abbrev sample_table : Table
sample_table = record {
  version = codes "1.5";
  compounds =
      record {
        kind = codes "class";
        refid = codes "a\"b";
        name = codes "c<d>";
        members = record { kind = codes "f"; refid = codes "m"; name = codes "at" } ∷ [];
      }
      ∷ record { kind = codes "file"; refid = codes "x"; name = codes "y"; members = [] }
      ∷ [];
}

sample_table-TablePrintable : TablePrintable sample_table
sample_table-TablePrintable = (
  printable-Printable (codes "1.5") refl,
  (
    (
      printable-Printable (codes "class") refl,
      printable-Printable (codes "a\"b") refl,
      printable-Printable (codes "c<d>") refl,
      (
        (
          printable-Printable (codes "f") refl,
          printable-Printable (codes "m") refl,
          printable-Printable (codes "at") refl,
        ),
        tt,
      ),
    ),
    (
      (
        printable-Printable (codes "file") refl,
        printable-Printable (codes "x") refl,
        printable-Printable (codes "y") refl,
        tt,
      ),
      tt,
    ),
  ),
)

export-build_example :
    (written : Str) × (document : Dom) × (export []
        (codes "doxygenindex")
        []
        (index_of sample_table)
        zero
        []
      ≡ (ok tt, [] ++ (written ++ codes "\n")))
    × Element written document
    × ((name : Option Str) → parse name (ok document) ≡ ok (index_of sample_table))
export-build_example = export-build sample_table [] sample_table-TablePrintable

-- Members called `at`, and files.
abbrev is_text : Str → Option Str → Bool
is_text t none = false
is_text t (some s) = str_eq s t

abbrev is_at : MemberType → Bool
is_at m = is_text (codes "at") m.name

abbrev is_file : CompoundType → Bool
is_file c = is_text (codes "file") c.kind

abbrev sample_index : DoxygenType
sample_index = record {
  version = none;
  compound =
      record {
        kind = some (codes "class");
        refid = some (codes "c");
        name = some (codes "fir");
        member =
            record { kind = none; refid = some (codes "m"); name = some (codes "at") }
            ∷ record { kind = none; refid = some (codes "k"); name = some (codes "of") }
            ∷ [];
      }
      ∷ record { kind = some (codes "file"); refid = none; name = some (codes "a.h"); member = [] }
      ∷ record { kind = some (codes "page"); refid = none; name = some (codes "p"); member = [] }
      ∷ [];
}

find_compounds_and_members-filter_example :
    find_compounds_and_members is_at is_file sample_index
    ≡ map (entry is_at is_file) (filter (relevant is_at is_file) sample_index.compound)
find_compounds_and_members-filter_example =
    find_compounds_and_members-filter is_at is_file sample_index

export-encodable_index_example :
    (export [] (codes "doxygenindex") [] sample_index zero []).0
    ≡ guard (encodable_index sample_index)
export-encodable_index_example = export-encodable_index sample_index zero []

abbrev sample_document : Dom
sample_document = element (codes "doxygenindex") [] (cons (element (codes "compound") [] nil) nil)

parse-Named_example : OnOk IndexNamed (parse (some []) (ok sample_document))
parse-Named_example = parse-Named [] (ok sample_document)

abbrev nameless_compound : CompoundType
nameless_compound = record { kind = none; refid = none; name = none; member = [] }

abbrev sample_parsed : DoxygenType
sample_parsed = record {
  version = none;
  compound = record { kind = none; refid = none; name = some []; member = [] } ∷ [];
}

sample_parse : parse (some []) (ok sample_document) ≡ ok sample_parsed
unfolding parse lookup str_eq
sample_parse = refl

parse-literal_example :
    (literal sample_parsed zero []).0 ≡ guard (every ascii_names sample_parsed.compound)
parse-literal_example = parse-literal [] (ok sample_document) sample_parsed zero [] sample_parse
