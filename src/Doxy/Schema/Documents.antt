-- ===== src/Doxy/Schema/Documents.antt =====
-- The documents that `parse` and `parseLiteral` of compoundsuper.py take to the end.
use gr_digitizers.Prelude.{◌∙◌, sym, zero, ◌≡◌, refl, Bool, true, false, []}
use gr_digitizers.Prelude.Str.{Str, codes}
use gr_digitizers.Prelude.Dict.{Dict}
use gr_digitizers.Prelude.Result.{Result, ok, err, ◌>>=◌}
use gr_digitizers.Prelude.Exec.{Exec, pure, and_then, OnOk, ◌>>◌}
use gr_digitizers.Doxy.Dom.{element, Doms}
use gr_digitizers.Doxy.Index.Export.{write}
use gr_digitizers.Doxy.Index.Outcome.{guard, run-Outcome}
use gr_digitizers.Doxy.Schema.{doxygen_type}
use gr_digitizers.Doxy.Schema.Object.{Object, new_object}
use gr_digitizers.Doxy.Schema.Shape.{Built, new_object-Conforms}
use gr_digitizers.Doxy.Schema.Accepts.{is_ok}
use gr_digitizers.Doxy.Schema.Literal.{literal_object, parse_document_literal}
use gr_digitizers.Doxy.Schema.Safe.{safe, run-Returns, guard-is_ok}
use gr_digitizers.Doxy.Schema.Literally.{literal-Returns}
use gr_digitizers.Doxy.Schema.Build.{build_root, build_element}
use gr_digitizers.Doxy.Schema.Built.{build-Built}
use gr_digitizers.Doxy.Schema.Export.{export_object, parse_document}
use gr_digitizers.Doxy.Schema.Encodable.{encodable}
use gr_digitizers.Doxy.Schema.Exported.{export-Outcome}

guard-then :
    (b : Bool) (d : Object) (out : Str)
    → (and_then (guard b) (λ _. pure d) out).0 ≡ (guard b >>= λ u. ok d)
guard-then true d out = refl
guard-then false d out = refl

-- The rest of `parse`, behind `build`
parse_rest :
    (repr : Object → Str) (r : Result Object) (out : Str)
    → OnOk (Built doxygen_type) r
    → (and_then r
        (λ d.
          write (codes "<?xml version=\"1.0\" ?>\n")
          >> (export_object repr [] (codes "doxygen") [] d zero >> pure d))
        out).0
      ≡ (r >>= λ d. guard (encodable repr d) >>= λ u. ok d)
parse_rest repr (err e) out h = refl
parse_rest repr (ok d) out h =
    rw
      (run-Outcome (export_object repr [] (codes "doxygen") [] d zero) (encodable repr d) _
        (export-Outcome repr [] d doxygen_type (codes "doxygen") [] zero h.0 h.1))
      (guard-then (encodable repr d) d _)

-- For a document with a root element parse returns the object that is built, or the error of the
-- build, or ValueError where an attribute or a text that export encodes is not ASCII.
pub parse-result :
    (repr : Object → Str) (n : Str) (attrs : Dict Str) (ks : Doms) (out : Str)
    → (parse_document repr (ok (element n attrs ks)) out).0 ≡ (
        build_element attrs ks (new_object doxygen_type) >>= λ d.
        guard (encodable repr d) >>= λ u. ok d)
unfolding parse_document build_root
parse-result repr n attrs ks out =
    parse_rest repr (build_element attrs ks (new_object doxygen_type)) out (
      build-Built doxygen_type attrs ks (new_object doxygen_type)
        (new_object-Conforms doxygen_type))

then-is_ok :
    (r : Result (Unit {0})) (k : Unit {0} → Exec Str Object) (st : Str) (b : Bool)
    → is_ok r ≡ b
    → ((u : Unit {0}) (t : Str) → is_ok (k u t).0 ≡ true)
    → is_ok (and_then r k st).0 ≡ b
then-is_ok (ok u) k st b h f = f u st ∙ h
then-is_ok (err e) k st b h f = h

-- The rest of `parseLiteral`, behind `build`
literal_rest :
    (r : Result Object) (out : Str)
    → OnOk (Built doxygen_type) r
    → is_ok
        (and_then r
          (λ d.
            write (codes "from compound import *\n\n")
            >> (write (codes "rootObj = doxygen(\n")
                >> (literal_object d zero >> (write (codes ")\n") >> pure d))))
          out).0
      ≡ is_ok (r >>= λ d. guard (safe d))
literal_rest (err e) out h = refl
literal_rest (ok d) out h =
    then-is_ok (literal_object d zero _).0 (λ _. write (codes ")\n") >> pure d) _ (safe d)
      (run-Returns (literal_object d zero) (safe d) _ (literal-Returns d doxygen_type zero h.0 h.1))
      (λ u st. refl)
    ∙ sym (guard-is_ok (safe d))

-- For a document with a root element parseLiteral returns exactly when the object is built, no
-- object with mixed content is in one of its fields, no text is missing beside other content, and
-- the texts are ASCII.
pub parse_literal-safe :
    (n : Str) (attrs : Dict Str) (ks : Doms) (out : Str)
    → is_ok (parse_document_literal (ok (element n attrs ks)) out).0
      ≡ is_ok (build_element attrs ks (new_object doxygen_type) >>= λ d. guard (safe d))
unfolding parse_document_literal build_root
parse_literal-safe n attrs ks out =
    literal_rest (build_element attrs ks (new_object doxygen_type)) out (
      build-Built doxygen_type attrs ks (new_object doxygen_type)
        (new_object-Conforms doxygen_type))
