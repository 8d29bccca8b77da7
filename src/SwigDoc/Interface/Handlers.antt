-- ===== src/SwigDoc/Interface/Handlers.antt =====
-- What the loops of `make_swig_interface_file` make of errors and of repeated blocks.
use gr_digitizers.Prelude.{
  ℕ, ◌+◌, ◌≡◌, ◌≢◌, false, Option, some, List, [], ◌∷◌, length, if◌then◌else◌,
}
use gr_digitizers.Prelude.Str.{Str, member}
use gr_digitizers.Prelude.Result.{Result, ok, err, parsing_error}
use gr_digitizers.Prelude.Exec.{Exec, pure, and_then-ne}
use gr_digitizers.Doxy.Data.{ParseData, CompoundDef, Xml}
use gr_digitizers.Doxy.Heap.{World, Ref, function, index}
use gr_digitizers.SwigDoc.Interface.{handled, entry_or_skip, entries, Output}
use gr_digitizers.SwigDoc.Entries.{object_of}
use gr_digitizers.SwigDoc.Texts.{make_name}
use gr_digitizers.Doxy.Parse.{name}
use gr_digitizers.Doxy.Lookup.{get_member}

handled-ne : (r : Result (List Str)) (w : World) → (handled (r, w) (pure [])).0 ≢ err parsing_error
handled-ne (ok a) w h = cc
handled-ne (err parsing_error) w h = cc
handled-ne (err _) w h = cc

entry_or_skip-ne : (m : Exec World Str) (w : World) → (entry_or_skip m w).0 ≢ err parsing_error
unfolding entry_or_skip
entry_or_skip-ne m w = handled-ne _ _

-- The loops over functions and classes never raise ParsingError.
entries-ne-parsing_error :
    (make : Ref → Exec World Str) (rs : List Ref) (w : World)
    → (entries make rs w).0 ≢ err parsing_error
unfolding entries
entries-ne-parsing_error make [] w = λ h. cc
entries-ne-parsing_error make (r ∷ rs) w =
    and_then-ne (entry_or_skip (make r) w).0 _ (entry_or_skip (make r) w).1 parsing_error
      (entry_or_skip-ne (make r) w)
      λ e v.
        and_then-ne (entries make rs v).0 _ (entries make rs v).1 parsing_error
          (entries-ne-parsing_error make rs v) λ rest u h. cc

-- No name twice.
abbrev pub NoRepeat : List Str → Type 0
NoRepeat [] = Unit
NoRepeat (s ∷ ss) = (member s ss ≡ false) × NoRepeat ss

-- The make functions are noted once each, and beside `k` other texts there is one entry for each.
abbrev pub Written : ℕ → Output → Type 0
Written k out = NoRepeat out.0 × (length out.1 ≡ length out.0 + k)

-- The names in the order of the loop, each noted when it is new.
unfoldable pub noted : List Str → List Str → List Str
unfolding member
noted [] seen = seen
noted (s ∷ ss) seen = noted ss (if member s seen then seen else s ∷ seen)

module _ (compound_xml : Str → Xml (Option CompoundDef)) (index_xml : Xml (List ParseData)) where
  -- In the world `before`, the name of the block leads in the index to a make function of this name.
  pub record MakeName (m : Option ℕ) (make_func_name : Str) : Type 0 where
    pub block : Ref
    pub make_func : Ref
    pub block_name : Str
    pub found : Option ℕ
    pub before : World
    pub named : World
    pub looked_up : World
    pub after : World
    pub block_eq : object_of m ≡ ok block
    pub name_eq : name compound_xml index_xml block before ≡ (ok block_name, named)
    pub found_eq :
        get_member compound_xml index_xml index (make_name block_name) (some function) named
        ≡ (ok found, looked_up)
    pub make_func_eq : object_of found ≡ ok make_func
    pub make_func_name_eq :
        name compound_xml index_xml make_func looked_up ≡ (ok make_func_name, after)

  abbrev pub MakeNames : List (Option ℕ) → List Str → Type 0
  MakeNames [] [] = Unit
  MakeNames (m ∷ ms) (s ∷ ss) = MakeName m s × MakeNames ms ss
  MakeNames _ _ = ⊥

  -- There is a name of a make function for each block, and these names are noted.
  abbrev pub Noted : List (Option ℕ) → Output → Output → Type 0
  Noted ms out out' = (names : List Str) × MakeNames ms names × (out'.0 ≡ noted names out.0)
