-- ===== src/BuildUtils/Generate.antt =====
-- The functions of python/build_utils.py that write files. The file system that is read is a
-- parameter, `read`; the files that are written are part of the state.
pub mod Makefile
pub mod Expansion
use gr_digitizers.Prelude.{
  Bool, true, false, Option, none, some, List, [], ◌∷◌, ◌++◌, if◌then◌else◌,
}
use gr_digitizers.Prelude.Str.{Str, codes, upper, drop_last, starts_with, ends_with}
use gr_digitizers.Prelude.Dict.{Dict, lookup, insert}
use gr_digitizers.Prelude.Result.{Result, ok, err, key_error, io_error}
use gr_digitizers.Prelude.Exec.{Exec, pure, lift, modify, ◌>>=◌, ◌>>◌}
use gr_digitizers.BuildUtils.Settings.{Settings}
use gr_digitizers.BuildUtils.Template.{repl, do_substitution, extract_extension}
use gr_digitizers.BuildUtils.Log.{NameDict, logged, log_output_name, sort}

pub record World : Type 0 where
  pub names : NameDict
  pub files : Dict Str

-- `os.path.join (dir, name)`
unfoldable pub path_join : Str → Str → Str
unfolding starts_with ends_with
path_join [] name = name
path_join (c ∷ dir) name =
    if starts_with name (codes "/")
    then name
    else if ends_with (c ∷ dir) (codes "/")
    then (c ∷ dir) ++ name
    else (c ∷ dir) ++ (codes "/" ++ name)

-- `for file in files: f.write (" \\\n\t%s" % (file,))`
unfoldable pub file_lines : List Str → Str
file_lines [] = []
file_lines (file ∷ files) = codes " \\\n\t" ++ (file ++ file_lines files)

-- The text for the files of one extension.
unfoldable pub subfrag : Str → List Str → Str
unfolding upper file_lines
subfrag ext files =
    codes "GENERATED_" ++ (upper ext ++ (codes " =" ++ (file_lines files ++ codes "\n\n")))

-- `output_subfrag`: the text, and `name_dict` with the entry sorted in place.
unfoldable pub output_subfrag : Str → NameDict → Str × NameDict
unfolding subfrag sort logged insert
output_subfrag ext d = let files = sort (logged ext d) in (subfrag ext files, insert ext files d)

abbrev pub generated_note : Str
generated_note = codes "#\n# This file is machine generated.  All edits will be overwritten\n#\n"

abbrev get_default : Str → Option Str → Str
get_default d none = d
get_default d (some v) = v

abbrev pub makefile_path : Dict Str → Str
makefile_path environ =
    path_join
      (get_default (get_default (codes ".") (lookup (codes "srcdir") environ))
        (lookup (codes "gendir") environ))
      (codes "Makefile.gen")

-- The three fragments one after the other, each on the log that the one before has sorted.
unfoldable pub fragments : NameDict → Str × NameDict
unfolding output_subfrag
fragments d =
    let (h, d1) = output_subfrag (codes "h") d in
    let (i, d2) = output_subfrag (codes "i") d1 in
    let (cc', d3) = output_subfrag (codes "cc") d2 in (h ++ (i ++ cc'), d3)

unfoldable pub output_makefile_fragment : Settings → Dict Str → World → World
unfolding fragments
output_makefile_fragment s environ w =
    let (text, d) = fragments w.names in
    if s.do_makefile
    then record {
      names = d;
      files = insert (makefile_path environ) (generated_note ++ text) w.files;
    }
    else w

abbrev include_lines : List Str → Str
include_lines [] = []
include_lines (file ∷ files) =
    codes "#include <" ++ (drop_last file ++ (codes "h>\n" ++ include_lines files))

abbrev swig_include_lines : List Str → Str
swig_include_lines [] = []
swig_include_lines (file ∷ files) =
    codes "%include <" ++ (file ++ (codes ">\n" ++ swig_include_lines files))

unfoldable pub ifile_text : List Str → Str
unfolding drop_last
ifile_text files =
    codes "//\n// This file is machine generated.  All edits will be overwritten\n//\n"
    ++ (codes "%{\n" ++ (include_lines files ++ (codes "%}\n\n" ++ swig_include_lines files)))

unfoldable pub output_ifile_include : Settings → Str → World → World
unfolding ifile_text sort logged
output_ifile_include s dirname w =
    let files = sort (logged (codes "i") w.names) in
    if s.do_sources
    then record {
      names = insert (codes "i") files w.names;
      files = insert (dirname ++ codes "_generated.i") (ifile_text files) w.files;
    }
    else w

unfoldable pub output_glue : Settings → Dict Str → Str → World → World
unfolding output_makefile_fragment output_ifile_include
output_glue s environ dirname w =
    output_ifile_include s dirname (output_makefile_fragment s environ w)

module _ (read : Str → Option Str) where
  -- `open_src (name, 'r')`, with the text that `read ()` gives.
  unfoldable pub open_src : Settings → Str → Result Str
  open_src s name = elim (read (path_join s.srcdir name)) [
    | some text ↦ ok text
    | none ↦ err io_error
  ]

  -- `open (output_name, 'w')`, `do_substitution`, `close`: the file is there, and empty, before the
  -- substitution runs.
  unfoldable pub write_source : Dict Str → Str → Str → Exec World (Unit {0})
  write_source d template output_name = do
    modify (λ w. record w { files = insert output_name [] w.files })
    text ← lift (do_substitution d template)
    modify (λ w. record w { files = insert output_name text w.files })

  unfoldable pub expand_template : Settings → Dict Str → Str → Str → Exec World (Unit {0})
  unfolding open_src write_source
  expand_template s d template_filename extra = do
    output_extension ← lift (extract_extension template_filename)
    template ← lift (open_src s template_filename)
    name ← lift (repl d (codes "NAME"))
    let output_name = name ++ (extra ++ (codes "." ++ output_extension))
    modify (λ w. record w { names = log_output_name output_name w.names })
    if s.do_sources then write_source d template output_name else pure tt

-- The name is logged only once the file is open.
abbrev logged_handle : Str → Result Str → Exec World (Option Str)
logged_handle name (ok f) w = (ok (some f), record w { names = log_output_name name w.names })
logged_handle name (err e) w = (err e, w)

-- `open_and_log_name`, where `open_file` is what `open (name, dir)` does to the files.
unfoldable pub open_and_log_name :
    (Str → Str → Exec (Dict Str) Str) → Settings → Str → Str → Exec World (Option Str)
open_and_log_name open_file s name dir w =
    if s.do_sources
    then logged_handle name (open_file name dir w.files).0
        (record w { files = (open_file name dir w.files).1 })
    else (ok none, record w { names = log_output_name name w.names })
