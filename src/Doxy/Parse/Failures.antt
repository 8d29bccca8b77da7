-- ===== src/Doxy/Parse/Failures.antt =====
-- What happens to documents that cannot be read, and to kinds that no class takes.
use gr_digitizers.Prelude.{
  ℕ, ◌≡◌, ◌≢◌, refl, sym, ◌∙◌, false, Option, none, some, List, [], ◌∷◌, ◌++◌,
}
use gr_digitizers.Prelude.Str.{Str}
use gr_digitizers.Prelude.Result.{Error, Result, ok, err, attribute_error, parsing_error}
use gr_digitizers.Prelude.Exec.{raise, and_then, and_then-cong, and_then_assoc, ◌>>=◌}
use gr_digitizers.Doxy.Data.{ParseData, CompoundDef, Xml, malformed}
use gr_digitizers.Doxy.Heap.{
  Cls, function, class, file, namespace, group, friend, other, World, Ref, obj, fetch, update, read,
  fetch-write,
}
use gr_digitizers.Doxy.Convert.{get_cls, convert_mem}
use gr_digitizers.Doxy.Fields.{mark_parsed}
use gr_digitizers.Doxy.Parse.{
  retrieve_data, class_body, file_body, group_body, parse_as, check_parsed_obj, confirm_no_error,
  name, place, index_mems, check_parsed,
}

module _ (compound_xml : Str → Xml (Option CompoundDef)) (index_xml : Xml (List ParseData))
    (w : World) (n : ℕ) (k : Str) (fresh : (fetch (obj n) w).parsed ≡ false)
    (known : (fetch (obj n) w).refid ≡ some k) (bad : compound_xml k ≡ malformed) where
  class_malformed :
      (fetch (obj n) w).cls ≡ class
      → (confirm_no_error compound_xml index_xml (obj n) w).0 ≡ err parsing_error
  unfolding confirm_no_error check_parsed check_parsed_obj parse_as mark_parsed class_body
      retrieve_data read update
  class_malformed c = simp (fresh, c, fetch-write, known, bad)

  group_malformed :
      (fetch (obj n) w).cls ≡ group
      → (confirm_no_error compound_xml index_xml (obj n) w).0 ≡ err parsing_error
  unfolding confirm_no_error check_parsed check_parsed_obj parse_as mark_parsed group_body
      retrieve_data read update
  group_malformed c = simp (fresh, c, fetch-write, known, bad)

  file_malformed :
      (fetch (obj n) w).cls ≡ file
      → (confirm_no_error compound_xml index_xml (obj n) w).0 ≡ err attribute_error
  unfolding confirm_no_error check_parsed check_parsed_obj parse_as mark_parsed file_body
      retrieve_data read update
  file_malformed c = simp (fresh, c, fetch-write, known, bad)

  namespace_malformed :
      (fetch (obj n) w).cls ≡ namespace
      → (confirm_no_error compound_xml index_xml (obj n) w).0 ≡ err attribute_error
  unfolding confirm_no_error check_parsed check_parsed_obj parse_as mark_parsed file_body
      retrieve_data read update
  namespace_malformed c = simp (fresh, c, fetch-write, known, bad)

  -- The error by the object's class.
  abbrev malformed_error : Cls → Option Error
  malformed_error class = some parsing_error
  malformed_error group = some parsing_error
  malformed_error file = some attribute_error
  malformed_error namespace = some attribute_error
  malformed_error _ = none

  -- For an unparsed object with a reference whose document is malformed, confirm_no_error raises
  -- ParsingError for a class or a group and AttributeError for a file or a namespace.
  pub confirm_no_error-malformed :
      (c : Cls) (e : Error)
      → (fetch (obj n) w).cls ≡ c
      → malformed_error c ≡ some e
      → (confirm_no_error compound_xml index_xml (obj n) w).0 ≡ err e
  confirm_no_error-malformed class e h p = class_malformed h ∙ cc
  confirm_no_error-malformed group e h p = group_malformed h ∙ cc
  confirm_no_error-malformed file e h p = file_malformed h ∙ cc
  confirm_no_error-malformed namespace e h p = namespace_malformed h ∙ cc
  confirm_no_error-malformed function e h p = cc
  confirm_no_error-malformed friend e h p = cc
  confirm_no_error-malformed other e h p = cc

module _ (compound_xml : Str → Xml (Option CompoundDef)) (index_xml : Xml (List ParseData)) where
  unnamed :
      (m : Result (Unit {0})) (w : World) (s : Str)
      → (and_then m (λ _. raise attribute_error) w).0 ≢ ok s
  unnamed (ok a) w s h = cc
  unnamed (err e) w s h = cc

  -- name() of an object made from a reference alone never returns.
  pub name-no_parse_data :
      (r : Ref) (w : World)
      → (fetch r w).parse_data ≡ none
      → (s : Str) → (name compound_xml index_xml r w).0 ≢ ok s
  unfolding name read
  name-no_parse_data r w h s e = unnamed (check_parsed compound_xml index_xml r w).0 _ s (rw h at e)

module _ (compound_xml : Str → Xml (Option CompoundDef)) where
  index_mems-append :
      (ms ns : List ParseData) (w : World)
      → index_mems compound_xml (ms ++ ns) w
        ≡ (index_mems compound_xml ms >>= λ _. index_mems compound_xml ns) w
  unfolding index_mems
  index_mems-append [] ns w = refl
  index_mems-append (m ∷ ms) ns w =
      and_then-cong (convert_mem m w).0 _ _ (convert_mem m w).1 (λ c w1.
        and_then-cong (get_cls m) _ _ w1 (λ k w2.
          and_then-cong (place compound_xml k c m.name w2).0 _ _
            (place compound_xml k c m.name w2).1 (λ _ w3. index_mems-append ms ns w3)
          ∙ sym (
              and_then_assoc (place compound_xml k c m.name w2).0 (λ _. index_mems compound_xml ms)
                (λ _. index_mems compound_xml ns) (place compound_xml k c m.name w2).1))
        ∙ sym (and_then_assoc (get_cls m) _ (λ _. index_mems compound_xml ns) w1))
      ∙ sym (
          and_then_assoc (convert_mem m w).0 _ (λ _. index_mems compound_xml ns)
            (convert_mem m w).1)

  -- A compound of a kind that no class takes ends the parse of the index: the compounds before it
  -- are placed, and those behind it are never looked at.
  pub index_mems_unknown_kind :
      (ms ns : List ParseData) (mem : ParseData) (e : Error) (w w' : World)
      → index_mems compound_xml ms w ≡ (ok tt, w')
      → get_cls mem ≡ err e
      → index_mems compound_xml (ms ++ (mem ∷ ns)) w ≡ (err e, w')
  index_mems_unknown_kind ms ns mem e w w' h bad =
      index_mems-append ms (mem ∷ ns) w ∙ rw h (unfold index_mems convert_mem in rw bad)
