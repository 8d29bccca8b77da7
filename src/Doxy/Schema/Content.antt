-- ===== src/Doxy/Schema/Content.antt =====
-- What `valueOf_` and `content_` of a built object hold, in the order of the document.
use gr_digitizers.Prelude.{
  ◌≡◌, refl, sym, ap, ◌∙◌, some, List, [], ◌∷◌, ◌++◌, append_assoc, append-nil,
}
use gr_digitizers.Prelude.Str.{Str}
use gr_digitizers.Prelude.Dict.{Dict}
use gr_digitizers.Prelude.Result.{Result, ok, err, ◌>>=◌}
use gr_digitizers.Doxy.Dom.{element, text, cdata, comment, Doms, nil, cons, local_name, text_of}
use gr_digitizers.Doxy.Schema.{ClassName, PartKind, mixed_class}
use gr_digitizers.Doxy.Schema.Tables.{class_of}
use gr_digitizers.Doxy.Schema.Object.{
  Values, Object, markup, simple, mixed, Items, no_items, text_item, simple_item, complex_item,
  new_object, Part, ignored, text_part, object_part, part_of, mixed_part, family_part, append_items,
}
use gr_digitizers.Doxy.Schema.Build.{
  build_child, build_children, build_element, put_text_node, put_cdata, put_child_text, put_child,
  cdata_text, begin_build,
}

-- The texts of the children, a CDATA section in its mark; elements and comments are left out.
unfoldable pub value_of : Doms → Str
value_of nil = []
value_of (cons (element n attrs ks) kids) = value_of kids
value_of (cons (text s) kids) = s ++ value_of kids
value_of (cons (cdata s) kids) = cdata_text s ++ value_of kids
value_of (cons (comment s) kids) = value_of kids

unfoldable pub text_nodes : Doms → List Str
text_nodes nil = []
text_nodes (cons (element n attrs ks) kids) = text_nodes kids
text_nodes (cons (text s) kids) = s ∷ text_nodes kids
text_nodes (cons (cdata s) kids) = text_nodes kids
text_nodes (cons (comment s) kids) = text_nodes kids

pub build_children-markup :
    (ks : Doms) (c : ClassName) (vs : Values) (s : Str) (ts : List Str)
    → build_children ks (markup c vs (some s) ts)
      ≡ ok (markup c vs (some (s ++ value_of ks)) (ts ++ text_nodes ks))
unfolding build_children build_child part_of put_text_node put_cdata value_of text_nodes
build_children-markup nil c vs s ts = rw (append-nil s, append-nil ts)
build_children-markup (cons (element n attrs ks) kids) c vs s ts =
    build_children-markup kids c vs s ts
build_children-markup (cons (text t) kids) c vs s ts =
    build_children-markup kids c vs (s ++ t) (ts ++ (t ∷ []))
    ∙ ap (λ x. ok (markup c vs (some x) ((ts ++ (t ∷ [])) ++ text_nodes kids)))
        (append_assoc s t (value_of kids))
    ∙ ap (λ x. ok (markup c vs (some (s ++ (t ++ value_of kids))) x))
        (append_assoc ts (t ∷ []) (text_nodes kids))
build_children-markup (cons (cdata t) kids) c vs s ts =
    build_children-markup kids c vs (s ++ cdata_text t) ts
    ∙ ap (λ x. ok (markup c vs (some x) (ts ++ text_nodes kids)))
        (append_assoc s (cdata_text t) (value_of kids))
build_children-markup (cons (comment t) kids) c vs s ts = build_children-markup kids c vs s ts

pub build_children-simple :
    (ks : Doms) (c : ClassName) (vs : Values) (s : Str)
    → build_children ks (simple c vs s) ≡ ok (simple c vs (s ++ value_of ks))
unfolding build_children build_child part_of put_text_node put_cdata value_of
build_children-simple nil c vs s = rw (append-nil s)
build_children-simple (cons (element n attrs ks) kids) c vs s = build_children-simple kids c vs s
build_children-simple (cons (text t) kids) c vs s =
    build_children-simple kids c vs (s ++ t)
    ∙ ap (λ x. ok (simple c vs x)) (append_assoc s t (value_of kids))
build_children-simple (cons (cdata t) kids) c vs s =
    build_children-simple kids c vs (s ++ cdata_text t)
    ∙ ap (λ x. ok (simple c vs x)) (append_assoc s (cdata_text t) (value_of kids))
build_children-simple (cons (comment t) kids) c vs s = build_children-simple kids c vs s

abbrev item_for : Part → Str → Dict Str → Doms → Result (Items → Items)
item_for ignored n attrs ks = ok (λ is. is)
item_for text_part n attrs ks = text_of ks >>= λ s. ok (simple_item n s)
item_for (object_part c) n attrs ks =
    build_element attrs ks (new_object c) >>= λ o. ok (complex_item n o)

-- What a class with mixed content reads of its children: the texts between the elements, and what each
-- element is declared as, under its name.
unfoldable pub read_items : List (Str × PartKind) → Doms → Result Items
unfolding text_of build_element new_object mixed_part local_name
read_items ps nil = ok no_items
read_items ps (cons (text s) kids) = read_items ps kids >>= λ is. ok (text_item s is)
read_items ps (cons (cdata s) kids) = read_items ps kids
read_items ps (cons (comment s) kids) = read_items ps kids
read_items ps (cons (element n attrs ks) kids) =
    item_for (mixed_part (local_name n) ps) (local_name n) attrs ks >>= λ item.
    read_items ps kids >>= λ is. ok (item is)

append_items_assoc :
    (is js ks : Items) → append_items (append_items is js) ks ≡ append_items is (append_items js ks)
unfolding append_items
append_items_assoc no_items js ks = refl
append_items_assoc (text_item s is) js ks = ap (text_item s) (append_items_assoc is js ks)
append_items_assoc (simple_item n s is) js ks = ap (simple_item n s) (append_items_assoc is js ks)
append_items_assoc (complex_item n o is) js ks = ap (complex_item n o) (append_items_assoc is js ks)

append_items-nil : (is : Items) → append_items is no_items ≡ is
unfolding append_items
append_items-nil no_items = refl
append_items-nil (text_item s is) = ap (text_item s) (append_items-nil is)
append_items-nil (simple_item n s is) = ap (simple_item n s) (append_items-nil is)
append_items-nil (complex_item n o is) = ap (complex_item n o) (append_items-nil is)

-- Items that are read after others
abbrev pub behind : ClassName → Values → Items → Result Items → Result Object
behind c vs is r = r >>= λ js. ok (mixed c vs (append_items is js))

behind-map :
    (c : ClassName) (vs : Values) (is : Items) (f : Items → Items) (r : Result Items)
    → ((js : Items) → append_items (append_items is (f no_items)) js ≡ append_items is (f js))
    → behind c vs (append_items is (f no_items)) r ≡ behind c vs is (r >>= λ js. ok (f js))
behind-map c vs is f (ok js) h = ap (λ x. ok (mixed c vs x)) (h js)
behind-map c vs is f (err e) h = refl

bind_assoc :
    {A B C : Type 0} (r : Result A) (f : A → Result B) (g : B → Result C)
    → (r >>= λ a. f a >>= g) ≡ ((r >>= f) >>= g)
bind_assoc (ok a) f g = refl
bind_assoc (err e) f g = refl

module _ {A : Type 0} (c : ClassName) (vs : Values) (is : Items) where
  behind-step :
      (r : Result A) (k : A → Result Object) (f : A → Items → Items) (rest : Result Items)
      → ((a : A) → k a ≡ behind c vs is (rest >>= λ js. ok (f a js)))
      → (r >>= k) ≡ behind c vs is ((r >>= λ a. ok (f a)) >>= λ item. rest >>= λ js. ok (item js))
  behind-step (ok a) k f rest h = h a
  behind-step (err e) k f rest h = refl

identity : (r : Result Items) → r ≡ (r >>= λ js. ok js)
identity (ok js) = refl
identity (err e) = refl

module _ (c : ClassName) (vs : Values) (ps : List (Str × PartKind)) where
  read-behind :
      (part : Part) (n : Str) (attrs : Dict Str) (ks kids : Doms) (is : Items)
      → ((js : Items) → build_children kids (mixed c vs js) ≡ behind c vs js (read_items ps kids))
      → build_child part n attrs ks
          (λ p. build_children ks p)
          (λ p. build_children kids p)
          (mixed c vs is)
        ≡ behind c vs is
            (item_for part n attrs ks >>= λ item. read_items ps kids >>= λ js. ok (item js))
  unfolding build_child put_child_text put_child
  read-behind ignored n attrs ks kids is h =
      h is ∙ ap (behind c vs is) (identity (read_items ps kids))
  read-behind text_part n attrs ks kids is h =
      behind-step c vs is (text_of ks) _ (λ s. simple_item n s) (read_items ps kids)
        (λ s.
          h (append_items is (simple_item n s no_items))
          ∙ behind-map c vs is (simple_item n s) (read_items ps kids) (λ js.
            append_items_assoc is (simple_item n s no_items) js ∙ unfold append_items in refl))
  read-behind (object_part d) n attrs ks kids is h =
      bind_assoc (begin_build attrs (new_object d)) (λ p. build_children ks p) _
      ∙ (unfold build_element in
          behind-step c vs is (build_element attrs ks (new_object d)) _ (λ o. complex_item n o)
            (read_items ps kids)
            (λ o.
              h (append_items is (complex_item n o no_items))
              ∙ behind-map c vs is (complex_item n o) (read_items ps kids) (λ js.
                append_items_assoc is (complex_item n o no_items) js
                ∙ unfold append_items in refl)))

  -- What a class with mixed content adds to content_ is the texts and the declared elements among
  -- the children in the order of the document, each built by its class; it raises what the first of
  -- them raises.
  pub build_children-mixed :
      (ks : Doms) (is : Items)
      → (class_of c).family ≡ mixed_class ps
      → build_children ks (mixed c vs is) ≡ behind c vs is (read_items ps ks)
  unfolding build_children read_items part_of put_text_node put_cdata
  build_children-mixed nil is h = ap (λ x. ok (mixed c vs x)) (sym (append_items-nil is))
  build_children-mixed (cons (text s) kids) is h =
      build_children-mixed kids (append_items is (text_item s no_items)) h
      ∙ behind-map c vs is (text_item s) (read_items ps kids)
          (λ js. append_items_assoc is (text_item s no_items) js ∙ unfold append_items in refl)
  build_children-mixed (cons (cdata s) kids) is h = build_children-mixed kids is h
  build_children-mixed (cons (comment s) kids) is h = build_children-mixed kids is h
  build_children-mixed (cons (element n attrs ks) kids) is h =
      ap
        (λ f.
          build_child (family_part (local_name n) f) (local_name n) attrs ks
            (λ p. build_children ks p) (λ p. build_children kids p) (mixed c vs is))
        h
      ∙ read-behind (mixed_part (local_name n) ps) (local_name n) attrs ks kids is
          (λ js. build_children-mixed kids js h)
