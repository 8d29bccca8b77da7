-- ===== src/Doxy/Schema/Raw.antt =====
-- What is written for the text of an object: it is escaped in `valueOf_`, and not in `content_`.
use gr_digitizers.Prelude.{
  ℕ, suc, ◌≡◌, refl, sym, ap, ◌∙◌, true, false, some, List, [], ◌∷◌, ◌++◌, append-nil,
}
use gr_digitizers.Prelude.Str.{Str, codes, contains}
use gr_digitizers.Prelude.Result.{ok, ok-injective}
use gr_digitizers.Prelude.Exec.{Exec}
use gr_digitizers.Doxy.Dom.{element, text, cdata, comment, Doms, nil, cons}
use gr_digitizers.Doxy.Quote.{quote_xml}
use gr_digitizers.Doxy.Compound.MemberTotal.{plain_text}
use gr_digitizers.Doxy.Index.Export.{write, spaces, show_indent}
use gr_digitizers.Doxy.Index.Written.{Writes, then-Writes, show_indent-Writes, write-Writes}
use gr_digitizers.Doxy.Schema.{ClassName, PartKind, mixed_class}
use gr_digitizers.Doxy.Schema.Tables.{class_of}
use gr_digitizers.Doxy.Schema.Object.{
  Object, markup, mixed, Items, no_items, text_item, append_items,
}
use gr_digitizers.Doxy.Schema.Build.{build_children}
use gr_digitizers.Doxy.Schema.Export.{
  export_attributes, export_inline, export_value, quote_value, export_object, export_items,
}
use gr_digitizers.Doxy.Schema.Content.{
  value_of, text_nodes, read_items, behind, build_children-markup, build_children-mixed,
}

unfoldable pub text_items : List Str → Items
text_items [] = no_items
text_items (s ∷ ss) = text_item s (text_items ss)

unfoldable pub concat : List Str → Str
concat [] = []
concat (s ∷ ss) = s ++ concat ss

-- An element on one line
abbrev pub inline_element : Str → Str → ℕ → Str → Str
inline_element namespace name level body =
    spaces level
    ++ ((codes "<" ++ (namespace ++ (name ++ codes " ")))
        ++ (codes ">" ++ (body ++ (codes "</" ++ (namespace ++ (name ++ codes ">\n"))))))

read_items-text_items :
    (ps : List (Str × PartKind)) (ks : Doms)
    → plain_text ks ≡ true
    → read_items ps ks ≡ ok (text_items (text_nodes ks))
unfolding read_items text_items text_nodes plain_text
read_items-text_items ps nil h = refl
read_items-text_items ps (cons (element n attrs ks) kids) h = cc
read_items-text_items ps (cons (text s) kids) h = rw (read_items-text_items ps kids h)
read_items-text_items ps (cons (cdata s) kids) h = read_items-text_items ps kids h
read_items-text_items ps (cons (comment s) kids) h = read_items-text_items ps kids h

no_attributes-Writes : Writes (export_attributes []) []
unfolding export_attributes
no_attributes-Writes out = rw append-nil

export_value-Writes :
    (s : Str) → contains (codes "![CDATA") s ≡ false → Writes (export_value (some s)) (quote_xml s)
unfolding export_value quote_value
export_value-Writes s h out = rw h

module _ (repr : Object → Str) (namespace name : Str) (level : ℕ) where
  inline-Writes :
      (children : Exec Str (Unit {0})) (body : Str)
      → Writes children body
      → Writes
          (export_inline namespace name [] (export_attributes []) children level)
          (inline_element namespace name level body)
  unfolding export_inline
  inline-Writes children body h =
      then-Writes (show_indent level) _ (spaces level) _ (show_indent-Writes level) (
        then-Writes (write _) _ (codes "<" ++ (namespace ++ (name ++ codes " "))) _ (write-Writes _)
          (then-Writes (export_attributes []) _ [] _ no_attributes-Writes (
            then-Writes (write (codes ">")) _ (codes ">") _ (write-Writes (codes ">")) (
              then-Writes children (write _) body _ h
                (write-Writes (codes "</" ++ (namespace ++ (name ++ codes ">\n"))))))))

  export_items-Writes :
      (ss : List Str) (l : ℕ) → Writes (export_items repr namespace (text_items ss) l) (concat ss)
  unfolding export_items text_items concat
  export_items-Writes [] l = λ out. rw append-nil
  export_items-Writes (s ∷ ss) l =
      then-Writes (write s) (export_items repr namespace (text_items ss) l) s (concat ss)
        (write-Writes s) (export_items-Writes ss l)

  -- A built object of a class with mixed content and no attributes, whose document has no elements
  -- in it, is written as its texts between two tags, without escapes.
  pub export-text_content :
      (c : ClassName) (ps : List (Str × PartKind)) (ks : Doms) (o : Object)
      → (class_of c).family ≡ mixed_class ps
      → plain_text ks ≡ true
      → build_children ks (mixed c [] no_items) ≡ ok o
      → Writes
          (export_object repr namespace name [] o level)
          (inline_element namespace name level (concat (text_nodes ks)))
  unfolding export_object append_items
  export-text_content c ps ks o f h e =
      let q =
        sym (
          build_children-mixed c [] ps ks no_items f
          ∙ ap (behind c [] no_items) (read_items-text_items ps ks h))
        ∙ e in
      rw (sym (ok-injective _ o q))
        (inline-Writes _ (concat (text_nodes ks)) (export_items-Writes (text_nodes ks) (suc level)))

  pub export-text_value :
      (c : ClassName) (ks : Doms) (o : Object)
      → contains (codes "![CDATA") (value_of ks) ≡ false
      → build_children ks (markup c [] (some []) []) ≡ ok o
      → Writes
          (export_object repr namespace name [] o level)
          (inline_element namespace name level (quote_xml (value_of ks)))
  unfolding export_object export_value quote_value
  export-text_value c ks o h e =
      rw (sym (ok-injective _ o (sym (build_children-markup ks c [] [] []) ∙ e))) (
        inline-Writes (export_value (some (value_of ks))) (quote_xml (value_of ks))
          (export_value-Writes (value_of ks) h))
