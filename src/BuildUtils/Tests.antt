-- ===== src/BuildUtils/Tests.antt =====
-- Runs of the build utilities.
use mathlib.Core.List.{Perm, Permᴰ}
use gr_digitizers.Prelude.{◌≡◌, refl, true, none, some, [], ◌∷◌, ◌++◌, List, Option, if◌then◌else◌}
use gr_digitizers.Prelude.Str.{Str, codes, str_eq}
use gr_digitizers.Prelude.Dict.{Dict, insert, lookup}
use gr_digitizers.Prelude.Result.{ok, err, key_error, value_error}
use gr_digitizers.BuildUtils.Settings.{Settings}
use gr_digitizers.BuildUtils.Template.{repl, do_substitution, extract_extension}
use gr_digitizers.BuildUtils.Template.Pieces.{
  Piece, lit, key, render, expand, do_substitution-render,
}
use gr_digitizers.BuildUtils.Template.Extension.{suffix}
use gr_digitizers.BuildUtils.Log.{logged, log_output_name}
use gr_digitizers.BuildUtils.Log.Names.{log_all, with_extension, logged-log_all}
use gr_digitizers.BuildUtils.Dicts.{standard_dict}
use gr_digitizers.BuildUtils.Generate.{
  path_join, World, output_makefile_fragment, generated_note, makefile_path, expand_template,
}
use gr_digitizers.BuildUtils.Generate.Makefile.{makefile_of_names, output_makefile_fragment-perm}
use gr_digitizers.BuildUtils.Generate.Expansion.{expand_template_writes, expand_template_raises}

abbrev sample_dict : Dict Str
sample_dict = (codes "NAME", codes "fir") ∷ []

abbrev sample_pieces : List Piece
sample_pieces = lit (codes "class ") ∷ key (codes "NAME") ∷ lit (codes ";") ∷ []

abbrev bad_pieces : List Piece
bad_pieces = lit (codes "x ") ∷ key (codes "TYPE") ∷ []

abbrev sample_settings : Settings
sample_settings = record { srcdir = codes "./"; do_makefile = true; do_sources = true }

abbrev empty_world : World
empty_world = record { names = []; files = [] }

substitution_run : do_substitution sample_dict (codes "class @NAME@;@") ≡ ok (codes "class fir;@")
unfolding do_substitution str_eq
substitution_run = refl

substitution_missing : do_substitution sample_dict (codes "@TYPE@") ≡ err key_error
unfolding do_substitution str_eq
substitution_missing = refl

extension_run : extract_extension (codes "gr_fir.cc.t") ≡ ok (codes "cc")
unfolding extract_extension
extension_run = refl

extension_missing : extract_extension (codes "gr_fir.cc") ≡ err value_error
unfolding extract_extension
extension_missing = refl

do_substitution-render_example :
    do_substitution sample_dict (render sample_pieces) ≡ expand sample_dict sample_pieces
do_substitution-render_example = do_substitution-render sample_dict sample_pieces (
  (refl, (refl, (refl, (refl, (refl, (refl, tt)))))),
  (((λ h. cc), (refl, (refl, (refl, (refl, tt))))), ((refl, tt), tt)),
)

logged-log_all_example :
    logged (codes "h") (log_all (codes "a.h" ∷ codes "a.cc" ∷ []) [])
    ≡ logged (codes "h") [] ++ with_extension (codes "h") (codes "a.h" ∷ codes "a.cc" ∷ [])
logged-log_all_example = logged-log_all (codes "h") (codes "a.h" ∷ codes "a.cc" ∷ []) []

standard_dict_run : (d : Dict Str) × (standard_dict (codes "fir") (codes "fcc") (codes "gr") ≡ ok d)
unfolding standard_dict
standard_dict_run = (_, refl)

two_names : Perm (codes "b.h" ∷ codes "a.h" ∷ []) (codes "a.h" ∷ codes "b.h" ∷ [])
two_names = ∣ Permᴰ.swap refl refl ∣₁

output_makefile_fragment-perm_example :
    lookup
      (makefile_path [])
      (output_makefile_fragment sample_settings []
        (record { names = log_all (codes "b.h" ∷ codes "a.h" ∷ []) []; files = [] })).files
    ≡ some (generated_note ++ makefile_of_names (codes "a.h" ∷ codes "b.h" ∷ []))
output_makefile_fragment-perm_example =
    output_makefile_fragment-perm sample_settings [] [] (codes "b.h" ∷ codes "a.h" ∷ [])
      (codes "a.h" ∷ codes "b.h" ∷ []) refl two_names

abbrev sample_files : Str → Option Str
sample_files name =
    if str_eq name (codes "./fir.h.t")
    then some (render sample_pieces)
    else if str_eq name (codes "./bad.h.t")
    then some (render bad_pieces)
    else none

expand_template_writes_example :
    expand_template sample_files sample_settings sample_dict
      (codes "fir" ++ suffix (codes "h"))
      []
      empty_world
    ≡ (
      ok tt,
      record {
        names = log_output_name (codes "fir" ++ ([] ++ (codes "." ++ codes "h"))) [];
        files = insert (codes "fir" ++ ([] ++ (codes "." ++ codes "h"))) (codes "class fir;") [];
      },
    )
unfolding repl path_join render expand str_eq
expand_template_writes_example =
    expand_template_writes sample_files sample_settings sample_dict (codes "fir") (codes "h") []
      (codes "fir") sample_pieces (refl, tt) (λ h. cc)
      (
        (refl, (refl, (refl, (refl, (refl, (refl, tt)))))),
        (((λ h. cc), (refl, (refl, (refl, (refl, tt))))), ((refl, tt), tt)),
      )
      refl refl refl empty_world (codes "class fir;") refl

expand_template_raises_example :
    expand_template sample_files sample_settings sample_dict
      (codes "bad" ++ suffix (codes "h"))
      []
      empty_world
    ≡ (
      err key_error,
      record {
        names = log_output_name (codes "fir" ++ ([] ++ (codes "." ++ codes "h"))) [];
        files = insert (codes "fir" ++ ([] ++ (codes "." ++ codes "h"))) [] [];
      },
    )
unfolding repl path_join render expand str_eq
expand_template_raises_example =
    expand_template_raises sample_files sample_settings sample_dict (codes "bad") (codes "h") []
      (codes "fir") bad_pieces (refl, tt) (λ h. cc)
      ((refl, (refl, tt)), (((λ h. cc), (refl, (refl, (refl, (refl, tt))))), tt)) refl refl refl
      empty_world key_error refl
