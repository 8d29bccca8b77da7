-- ===== src/Doxy/Schema/Built.antt =====
-- What `build` gives is an object of the class, in which all is built.
use gr_digitizers.Prelude.{◌≡◌, refl, none, some}
use gr_digitizers.Prelude.Str.{Str}
use gr_digitizers.Prelude.Dict.{Dict}
use gr_digitizers.Prelude.Result.{Result}
use gr_digitizers.Prelude.Exec.{OnOk, result-OnOk, Always, OnOk-Always}
use gr_digitizers.Doxy.Dom.{element, text, cdata, comment, Doms, nil, cons, local_name, text_of}
use gr_digitizers.Doxy.Schema.{ClassName}
use gr_digitizers.Doxy.Schema.Object.{
  Object, structured, simple, markup, mixed, new_object, Part, ignored, text_part, object_part,
  part_of,
}
use gr_digitizers.Doxy.Schema.Shape.{Conforms, Valued, Built, new_object-Conforms}
use gr_digitizers.Doxy.Schema.Build.{
  begin_build, put_text_node, put_cdata, put_child_text, put_child, build_child, build_children,
  build_element,
}
use gr_digitizers.Doxy.Schema.Conforms.{
  put_text_node-Conforms, put_cdata-Conforms, put_child_text-Conforms, put_child-Conforms,
  begin_build-Conforms,
}

put_text_node-Valued : (s : Str) (o : Object) → Valued o → Valued (put_text_node s o)
unfolding put_text_node
put_text_node-Valued s (structured c vs fs) h = tt
put_text_node-Valued s (simple c vs t) h = tt
put_text_node-Valued s (markup c vs none ts) h = h
put_text_node-Valued s (markup c vs (some t) ts) h = tt
put_text_node-Valued s (mixed c vs is) h = tt

put_cdata-Valued : (s : Str) (o : Object) → Valued o → Valued (put_cdata s o)
unfolding put_cdata
put_cdata-Valued s (structured c vs fs) h = tt
put_cdata-Valued s (simple c vs t) h = tt
put_cdata-Valued s (markup c vs none ts) h = h
put_cdata-Valued s (markup c vs (some t) ts) h = tt
put_cdata-Valued s (mixed c vs is) h = tt

put_child_text-Valued : (n s : Str) (o : Object) → Valued o → Valued (put_child_text n s o)
unfolding put_child_text
put_child_text-Valued n s (structured c vs fs) h = tt
put_child_text-Valued n s (simple c vs t) h = tt
put_child_text-Valued n s (markup c vs none ts) h = h
put_child_text-Valued n s (markup c vs (some t) ts) h = tt
put_child_text-Valued n s (mixed c vs is) h = tt

put_child-Valued : (n : Str) (q : Object) (o : Object) → Valued o → Valued (put_child n q o)
unfolding put_child
put_child-Valued n q (structured c vs fs) h = tt
put_child-Valued n q (simple c vs t) h = tt
put_child-Valued n q (markup c vs none ts) h = h
put_child-Valued n q (markup c vs (some t) ts) h = tt
put_child-Valued n q (mixed c vs is) h = tt

pub put_text_node-Built :
    (d : ClassName) (s : Str) (o : Object) → Built d o → Built d (put_text_node s o)
put_text_node-Built d s o h = (put_text_node-Conforms d s o h.0, put_text_node-Valued s o h.1)

pub put_cdata-Built : (d : ClassName) (s : Str) (o : Object) → Built d o → Built d (put_cdata s o)
put_cdata-Built d s o h = (put_cdata-Conforms d s o h.0, put_cdata-Valued s o h.1)

pub put_child_text-Built :
    (d : ClassName) (n s : Str) (o : Object)
    → part_of n o ≡ text_part
    → Built d o
    → Built d (put_child_text n s o)
put_child_text-Built d n s o e h =
    (put_child_text-Conforms d n s o e h.0, put_child_text-Valued n s o h.1)

pub put_child-Built :
    (d c : ClassName) (n : Str) (q o : Object)
    → part_of n o ≡ object_part c
    → Built c q
    → Built d o
    → Built d (put_child n q o)
put_child-Built d c n q o e g h = (put_child-Conforms d c n q o e g h.0, put_child-Valued n q o h.1)

-- A block that gives an object of the class, of any object of the class.
abbrev Preserves : ClassName → (Object → Result Object) → Type 0
Preserves d f = (o : Object) → Built d o → OnOk (Built d) (f o)

build_child-Built :
    (d : ClassName) (part : Part) (n : Str) (attrs : Dict Str) (ks : Doms)
    → (inside behind : Object → Result Object) (o : Object) → part_of n o ≡ part
    → ((c : ClassName) → Preserves c inside)
    → Preserves d behind
    → Built d o
    → OnOk (Built d) (build_child part n attrs ks inside behind o)
unfolding build_child
build_child-Built d ignored n attrs ks inside behind o e i b h = b o h
build_child-Built d text_part n attrs ks inside behind o e i b h =
    result-OnOk Always (Built d) (text_of ks) _ (OnOk-Always (text_of ks))
      (λ s _. b _ (put_child_text-Built d n s o e h))
build_child-Built d (object_part c) n attrs ks inside behind o e i b h =
    result-OnOk (Built c) (Built d) (begin_build attrs (new_object c)) _
      (begin_build-Conforms c attrs (new_object c) (new_object-Conforms c))
      (λ p g.
        result-OnOk (Built c) (Built d) (inside p) _ (i c p g)
          (λ q k. b _ (put_child-Built d c n q o e k h)))

pub build_children-Built :
    (d : ClassName) (ks : Doms) (o : Object) → Built d o → OnOk (Built d) (build_children ks o)
unfolding build_children
build_children-Built d nil o h = h
build_children-Built d (cons (text s) kids) o h =
    build_children-Built d kids _ (put_text_node-Built d s o h)
build_children-Built d (cons (cdata s) kids) o h =
    build_children-Built d kids _ (put_cdata-Built d s o h)
build_children-Built d (cons (comment s) kids) o h = build_children-Built d kids o h
build_children-Built d (cons (element n attrs ks) kids) o h =
    build_child-Built d (part_of (local_name n) o) (local_name n) attrs ks _ _ o refl
      (λ c p g. build_children-Built c ks p g) (λ p g. build_children-Built d kids p g) h

-- Where the build of an object of a class returns, the object has the attributes and the fields that
-- the class declares, all objects in it are built objects of the declared classes, and a class with
-- mixed content holds only parts that it declares.
pub build-Built :
    (d : ClassName) (attrs : Dict Str) (ks : Doms) (o : Object)
    → Conforms d o
    → OnOk (Built d) (build_element attrs ks o)
unfolding build_element
build-Built d attrs ks o h =
    result-OnOk (Built d) (Built d) (begin_build attrs o) _ (begin_build-Conforms d attrs o h)
      (λ p g. build_children-Built d ks p g)
