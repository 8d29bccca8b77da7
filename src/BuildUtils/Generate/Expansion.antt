-- ===== src/BuildUtils/Generate/Expansion.antt =====
-- What `expand_template` does on each of its outcomes.
use gr_digitizers.Prelude.{◌≡◌, ◌≢◌, true, Option, some, List, [], ◌++◌, All}
use gr_digitizers.Prelude.Str.{Str, codes}
use gr_digitizers.Prelude.Dict.{Dict, insert, insert-insert}
use gr_digitizers.Prelude.Result.{Error, ok, err, value_error}
use gr_digitizers.BuildUtils.Settings.{Settings}
use gr_digitizers.BuildUtils.Template.{repl, is_lower, extract_extension}
use gr_digitizers.BuildUtils.Template.Pieces.{
  Piece, WellFormed, render, expand, do_substitution-render,
}
use gr_digitizers.BuildUtils.Template.Extension.{suffix, extract_extension-suffix}
use gr_digitizers.BuildUtils.Log.{log_output_name}
use gr_digitizers.BuildUtils.Generate.{World, path_join, open_src, write_source, expand_template}

module _ (read : Str → Option Str) (s : Settings) where
  -- A name that is no template's raises `ValueError`, and nothing is logged or written.
  pub expand_template_bad_name :
      (d : Dict Str) (template extra : Str) (w : World)
      → extract_extension template ≡ err value_error
      → expand_template read s d template extra w ≡ (err value_error, w)
  unfolding expand_template
  expand_template_bad_name d template extra w h = rw (h, expand_template)

  module _ (d : Dict Str) (base ext extra name : Str) (ps : List Piece)
      (lower : All (λ c. is_lower c ≡ true) ext) (some_ext : ext ≢ []) (formed : All WellFormed ps)
      (named : repl d (codes "NAME") ≡ ok name)
      (found : read (path_join s.srcdir (base ++ suffix ext)) ≡ some (render ps))
      (sources : s.do_sources ≡ true) (w : World) where
    abbrev output_name : Str
    output_name = name ++ (extra ++ (codes "." ++ ext))

    open_src-found : open_src read s (base ++ suffix ext) ≡ ok (render ps)
    unfolding open_src
    open_src-found = rw (found, open_src)

    -- With do_sources on, a template base.ext.t that can be read and whose keys are defined is
    -- written to NAME extra.ext with its keys replaced, and the output is logged once.
    pub expand_template_writes :
        (out : Str)
        → expand d ps ≡ ok out
        → expand_template read s d (base ++ suffix ext) extra w ≡ (
          ok tt,
          record {
            names = log_output_name output_name w.names;
            files = insert output_name out w.files;
          },
        )
    unfolding expand_template write_source
    expand_template_writes out good = rw (extract_extension-suffix base ext some_ext lower) (
        rw open_src-found (
          rw named
            (rw sources (rw (do_substitution-render d ps formed) (rw good (rw insert-insert))))))

    -- With do_sources on, a template that can be read but has a key that the dictionary lacks raises
    -- after the output is logged and opened, so an empty file stays.
    pub expand_template_raises :
        (e : Error)
        → expand d ps ≡ err e
        → expand_template read s d (base ++ suffix ext) extra w ≡ (
          err e,
          record {
            names = log_output_name output_name w.names;
            files = insert output_name [] w.files;
          },
        )
    unfolding expand_template write_source
    expand_template_raises e bad = rw (extract_extension-suffix base ext some_ext lower) (
        rw open_src-found
          (rw named (rw sources (rw (do_substitution-render d ps formed) (rw bad)))))
