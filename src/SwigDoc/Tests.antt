-- ===== src/SwigDoc/Tests.antt =====
-- Runs of the SWIG documentation's texts and loops.
use gr_digitizers.Prelude.{
  ◌≡◌, ◌<◌, refl, true, none, some, List, ◌==◌, if◌then◌else◌, [], ◌∷◌, ◌++◌, All,
}
use gr_digitizers.Prelude.Str.{Str, codes, join}
use gr_digitizers.Doxy.Data.{ParseData}
use gr_digitizers.Doxy.Heap.{class, function, Obj, World, new_obj}
use gr_digitizers.Doxy.Tests.{block_compound}
use gr_digitizers.SwigDoc.Texts.{make_name, escape_quotes, to_ascii, utoascii}
use gr_digitizers.SwigDoc.Texts.Escapes.{
  closed, read_quoted, read_quoted-utoascii, utoascii-ascii, read_quoted-backslash,
}

make_name_run : make_name (codes "gr_fir_fff") ≡ codes "gr_make_fir_fff"
unfolding make_name join
make_name_run = refl

read_quoted-utoascii_example :
    read_quoted (utoascii (some (codes "a \"b\"")) ++ (34 ∷ codes ";"))
    ≡ closed (to_ascii (codes "a \"b\"")) (codes ";")
read_quoted-utoascii_example =
    read_quoted-utoascii (codes "a \"b\"") (codes ";") (refl, (refl, (refl, (refl, (refl, tt)))))

utoascii-ascii_example : All (λ c. c < 128) (utoascii (some (233 ∷ codes "t\"")))
utoascii-ascii_example = utoascii-ascii (233 ∷ codes "t\"")

read_quoted-backslash_example :
    read_quoted (escape_quotes (codes "x" ++ (92 ∷ 34 ∷ codes "y")) ++ (34 ∷ codes ";"))
    ≡ closed (codes "x" ++ (92 ∷ [])) (escape_quotes (codes "y") ++ (34 ∷ codes ";"))
read_quoted-backslash_example =
    read_quoted-backslash (codes "x") (codes "y") (codes ";") (refl, tt) (refl, tt)

-- A class and its make function, parsed before, and the index with both.
abbrev described : Obj → Obj
described o = record o {
  parsed = true;
  fields = record {
    brief_description = some (some (codes "A filter."));
    detailed_description = some (some []);
    params = some [];
    title = none;
  };
}

abbrev make_compound : ParseData
make_compound = record block_compound { kind = codes "function"; name = codes "gr_make_fir" }

abbrev block_world : World
block_world = record {
  top = record (new_obj class none none) { parsed = true; members = some 0 ∷ some 1 ∷ [] };
  objs = λ n.
      if n == 0
      then described (new_obj class (some block_compound) (some (codes "classfir")))
      else described (new_obj function (some make_compound) none);
  next = 2;
  refs = [];
}

-- The class twice in the list: one make function is noted, and one entry is made.
once : List Str × List Str
once = (
  codes "gr_make_fir" ∷ [],
  (codes "%feature(\"docstring\") gr_fir \"A filter.\n\nA filter.\"\n\n"
        ++ codes "%feature(\"docstring\") gr_make_fir \"A filter.\n\nA filter.\"")
      ∷ [],
)
