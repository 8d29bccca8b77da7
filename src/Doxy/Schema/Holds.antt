-- ===== src/Doxy/Schema/Holds.antt =====
-- After `build` each field holds what the children of its name are read as.
use gr_digitizers.Prelude.{subst, ◌≡◌, sym, ap, ◌∙◌, true, false, Bool-cases, inl, inr, List}
use gr_digitizers.Prelude.Str.{Str, str_eq, str_eq_iff}
use gr_digitizers.Prelude.Dict.{Dict}
use gr_digitizers.Prelude.Result.{Result, ok, err, ◌>>=◌}
use gr_digitizers.Prelude.Exec.{OnOk, result-OnOk, OnOk-map}
use gr_digitizers.Doxy.Dom.{element, text, cdata, comment, Doms, nil, cons, local_name, text_of}
use gr_digitizers.Doxy.Schema.{ClassName, ChildKind, structured_class}
use gr_digitizers.Doxy.Schema.Tables.{class_of}
use gr_digitizers.Doxy.Schema.Object.{
  Values, Object, structured, Fields, new_object, Part, ignored, text_part, object_part, field_part,
  part_of, new_values, new_fields, new_of, put_text, put_object,
}
use gr_digitizers.Doxy.Schema.Build.{
  begin_build, read_attributes, build_child, build_children, build_element, put_text_node,
  put_cdata, put_child_text, put_child,
}
use gr_digitizers.Doxy.Schema.Columns.{
  Slot, get_field, get_of, read_slot, slot_part, slot_part-get_field, with_text, with_object,
  get_field-put_text, get_field-put_object, get_field-put_text_other, get_field-put_object_other,
}
use gr_digitizers.Doxy.Schema.Reads.{
  OnOk-self, read_slot-nil, read_slot_text_node, read_slot-cdata, read_slot-comment,
  read_slot_other, read_slot-ignored, read_slot-text, read_slot-object,
}

-- The field of a name holds what the nodes are read as.
abbrev Holds : Str → Doms → Slot → Result Object → Type 0
Holds n ks sl r = OnOk (λ p. ok (get_of n p) ≡ read_slot sl n ks) r

Holds-step :
    (n : Str) (ks kids : Doms) (sl sl' : Slot) (r : Result Object)
    → read_slot sl n ks ≡ read_slot sl' n kids
    → Holds n kids sl' r
    → Holds n ks sl r
Holds-step n ks kids sl sl' r e h =
    OnOk-map (λ p. ok (get_of n p) ≡ read_slot sl' n kids)
      (λ p. ok (get_of n p) ≡ read_slot sl n ks) r (λ p k. k ∙ sym e) h

get_field-put_text_same :
    (n m s : Str) (fs : Fields)
    → str_eq n m ≡ true
    → get_field n (put_text m s fs) ≡ with_text s (get_field n fs)
get_field-put_text_same n m s fs h = rw (sym ((str_eq_iff n m).0 h)) (get_field-put_text n s fs)

get_field-put_object_same :
    (n m : Str) (o : Object) (fs : Fields)
    → str_eq n m ≡ true
    → get_field n (put_object m o fs) ≡ with_object o (get_field n fs)
get_field-put_object_same n m o fs h = rw (sym ((str_eq_iff n m).0 h)) (get_field-put_object n o fs)

build_element-ok :
    (attrs : Dict Str) (ks : Doms) (o p q : Object)
    → begin_build attrs o ≡ ok p
    → build_children ks p ≡ ok q
    → build_element attrs ks o ≡ ok q
unfolding build_element
build_element-ok attrs ks o p q e f = rw e f

module _ (n m : Str) (attrs : Dict Str) (ks kids : Doms) (c : ClassName) (vs : Values) where
  -- The rest of the children, from any fields
  abbrev Behind : Type 0
  Behind = (gs : Fields) → Holds n kids (get_field n gs) (build_children kids (structured c vs gs))

  build_child-Holds_other :
      (part : Part) (fs : Fields)
      → str_eq n (local_name m) ≡ false
      → Behind
      → Holds n (cons (element m attrs ks) kids) (get_field n fs) (
          build_child part
            (local_name m)
            attrs
            ks
            (λ p. build_children ks p)
            (λ p. build_children kids p)
            (structured c vs fs))
  unfolding build_child put_child_text put_child
  build_child-Holds_other ignored fs h k =
      Holds-step n _ kids (get_field n fs) (get_field n fs) _
        (read_slot_other n m attrs ks kids (get_field n fs) h) (k fs)
  build_child-Holds_other text_part fs h k =
      result-OnOk (λ s. text_of ks ≡ ok s) _ (text_of ks) _ (OnOk-self (text_of ks))
        (λ s e.
          Holds-step n _ kids (get_field n fs) (get_field n (put_text (local_name m) s fs)) _
            (read_slot_other n m attrs ks kids (get_field n fs) h
              ∙ ap (λ sl. read_slot sl n kids)
                  (sym (get_field-put_text_other n (local_name m) s fs h)))
            (k (put_text (local_name m) s fs)))
  build_child-Holds_other (object_part d) fs h k =
      result-OnOk (λ p. begin_build attrs (new_object d) ≡ ok p) _
        (begin_build attrs (new_object d)) _ (OnOk-self (begin_build attrs (new_object d)))
        (λ p e.
          result-OnOk (λ q. build_children ks p ≡ ok q) _ (build_children ks p) _
            (OnOk-self (build_children ks p))
            (λ q f.
              Holds-step n _ kids (get_field n fs) (get_field n (put_object (local_name m) q fs)) _
                (read_slot_other n m attrs ks kids (get_field n fs) h
                  ∙ ap (λ sl. read_slot sl n kids)
                      (sym (get_field-put_object_other n (local_name m) q fs h)))
                (k (put_object (local_name m) q fs))))

  build_child-Holds :
      (part : Part) (fs : Fields)
      → str_eq n (local_name m) ≡ true
      → slot_part (get_field n fs) ≡ part
      → Behind
      → Holds n (cons (element m attrs ks) kids) (get_field n fs) (
          build_child part
            (local_name m)
            attrs
            ks
            (λ p. build_children ks p)
            (λ p. build_children kids p)
            (structured c vs fs))
  unfolding build_child put_child_text put_child
  build_child-Holds ignored fs h p k =
      Holds-step n _ kids (get_field n fs) (get_field n fs) _
        (read_slot-ignored n m attrs ks kids (get_field n fs) p) (k fs)
  build_child-Holds text_part fs h p k =
      result-OnOk (λ s. text_of ks ≡ ok s) _ (text_of ks) _ (OnOk-self (text_of ks))
        (λ s e.
          Holds-step n _ kids (get_field n fs) (get_field n (put_text (local_name m) s fs)) _
            (read_slot-text n m attrs ks kids (get_field n fs) s h p e
              ∙ ap (λ sl. read_slot sl n kids)
                  (sym (get_field-put_text_same n (local_name m) s fs h)))
            (k (put_text (local_name m) s fs)))
  build_child-Holds (object_part d) fs h p k =
      result-OnOk (λ b. begin_build attrs (new_object d) ≡ ok b) _
        (begin_build attrs (new_object d)) _ (OnOk-self (begin_build attrs (new_object d)))
        (λ b e.
          result-OnOk (λ q. build_children ks b ≡ ok q) _ (build_children ks b) _
            (OnOk-self (build_children ks b))
            (λ q f.
              Holds-step n _ kids (get_field n fs) (get_field n (put_object (local_name m) q fs)) _
                (read_slot-object n m attrs ks kids (get_field n fs) d q h p
                    (build_element-ok attrs ks (new_object d) b q e f)
                  ∙ ap (λ sl. read_slot sl n kids)
                      (sym (get_field-put_object_same n (local_name m) q fs h)))
                (k (put_object (local_name m) q fs))))

pub build_children-read_slot :
    (n : Str) (ks : Doms) (c : ClassName) (vs : Values) (fs : Fields)
    → OnOk
        (λ p. ok (get_of n p) ≡ read_slot (get_field n fs) n ks)
        (build_children ks (structured c vs fs))
unfolding build_children part_of put_text_node put_cdata
build_children-read_slot n nil c vs fs = sym (read_slot-nil (get_field n fs) n)
build_children-read_slot n (cons (text s) kids) c vs fs =
    Holds-step n _ kids (get_field n fs) (get_field n fs) _
      (read_slot_text_node (get_field n fs) n s kids) (build_children-read_slot n kids c vs fs)
build_children-read_slot n (cons (cdata s) kids) c vs fs =
    Holds-step n _ kids (get_field n fs) (get_field n fs) _
      (read_slot-cdata (get_field n fs) n s kids) (build_children-read_slot n kids c vs fs)
build_children-read_slot n (cons (comment s) kids) c vs fs =
    Holds-step n _ kids (get_field n fs) (get_field n fs) _
      (read_slot-comment (get_field n fs) n s kids) (build_children-read_slot n kids c vs fs)
build_children-read_slot n (cons (element m attrs ks) kids) c vs fs =
    elim (Bool-cases (str_eq n (local_name m))) [
      | inl e ↦
          build_child-Holds n m attrs ks kids c vs (field_part (local_name m) fs) fs e
            (sym (slot_part-get_field n fs)
              ∙ ap (λ x. field_part x fs) ((str_eq_iff n (local_name m)).0 e))
            (λ gs. build_children-read_slot n kids c vs gs)
      | inr e ↦
          build_child-Holds_other n m attrs ks kids c vs (field_part (local_name m) fs) fs e
            (λ gs. build_children-read_slot n kids c vs gs)
    ]

bind-OnOk :
    {A B C : Type 0} (P : C → Type 0) (r : Result A) (g : A → B) (f : B → Result C)
    → ((a : A) → OnOk P (f (g a)))
    → OnOk P ((r >>= λ a. ok (g a)) >>= f)
bind-OnOk P (ok a) g f h = h a
bind-OnOk P (err e) g f h = tt

build_element-read_slot :
    (n : Str) (attrs : Dict Str) (ks : Doms) (c : ClassName) (vs : Values) (fs : Fields)
    → OnOk
        (λ p. ok (get_of n p) ≡ read_slot (get_field n fs) n ks)
        (build_element attrs ks (structured c vs fs))
unfolding build_element begin_build
build_element-read_slot n attrs ks c vs fs =
    bind-OnOk (λ p. ok (get_of n p) ≡ read_slot (get_field n fs) n ks) (read_attributes attrs vs)
      (λ ws. structured c ws fs) (λ p. build_children ks p)
      (λ ws. build_children-read_slot n ks c ws fs)

-- Where the build of an object of a class with fields returns, each of its fields holds what the
-- children of its name are read as, whatever stands between them: a list the text or the object of
-- each of them in the order of the document, another field that of the last, if there is one.
pub build-read_slot :
    (c : ClassName) (cs : List (Str × ChildKind)) (n : Str) (attrs : Dict Str) (ks : Doms)
    → (class_of c).family ≡ structured_class cs
    → OnOk
        (λ p. ok (get_of n p) ≡ read_slot (get_field n (new_fields cs)) n ks)
        (build_element attrs ks (new_object c))
unfolding new_object
build-read_slot c cs n attrs ks h =
    let vs = new_values (class_of c).attributes in
    subst
      (λ f.
        OnOk (λ p. ok (get_of n p) ≡ read_slot (get_field n (new_fields cs)) n ks)
          (build_element attrs ks (new_of c vs f)))
      (sym h) (build_element-read_slot n attrs ks c vs (new_fields cs))
