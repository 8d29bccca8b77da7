-- ===== src/Doxy/Schema/Reads.antt =====
-- Each field of a built object holds what the children of its name are read as.
use gr_digitizers.Prelude.{◌≡◌, refl, sym, ap, true, false, List, [], ◌∷◌, append_assoc, append-nil}
use gr_digitizers.Prelude.Str.{Str, str_eq}
use gr_digitizers.Prelude.Dict.{Dict}
use gr_digitizers.Prelude.Result.{Result, ok, err, ◌>>=◌}
use gr_digitizers.Prelude.Exec.{OnOk}
use gr_digitizers.Doxy.Dom.{element, text, cdata, comment, Doms, nil, cons, local_name, text_of}
use gr_digitizers.Doxy.Schema.{ClassName}
use gr_digitizers.Doxy.Schema.Object.{Object, new_object, ignored, text_part, object_part}
use gr_digitizers.Doxy.Schema.Build.{build_element}
use gr_digitizers.Doxy.Schema.Conforms.{object_part-injective}
use gr_digitizers.Doxy.Schema.Columns.{
  Slot, no_slot, text_slot, texts_slot, object_slot, objects_slot, read_named, read_slot, slot_part,
  with_text, with_object,
}

pub OnOk-self : {A : Type 0} (r : Result A) → OnOk (λ a. r ≡ ok a) r
OnOk-self (ok a) = refl
OnOk-self (err e) = tt

pub map-bind :
    {A B C : Type 0} (r : Result A) (f : A → B) (g : B → Result C) (g' : A → Result C)
    → ((x : A) → g (f x) ≡ g' x)
    → ((r >>= λ x. ok (f x)) >>= g) ≡ (r >>= g')
map-bind (ok a) f g g' h = h a
map-bind (err e) f g g' h = refl

module _ {A B : Type 0} (read : Dict Str → Doms → Result A) (n m : Str) where
  pub read_named-first :
      (attrs : Dict Str) (ks kids : Doms) (a : A) (g g' : List A → Result B)
      → str_eq n (local_name m) ≡ true
      → read attrs ks ≡ ok a
      → ((xs : List A) → g (a ∷ xs) ≡ g' xs)
      → (read_named read n (cons (element m attrs ks) kids) >>= g) ≡ (read_named read n kids >>= g')
  unfolding read_named
  read_named-first attrs ks kids a g g' h e k =
      rw (h, e) (map-bind (read_named read n kids) (λ xs. a ∷ xs) g g' k)

pub read_slot-nil : (sl : Slot) (n : Str) → read_slot sl n nil ≡ ok sl
unfolding read_slot read_named
read_slot-nil no_slot n = refl
read_slot-nil (text_slot t) n = refl
read_slot-nil (texts_slot ts) n = rw (append-nil ts)
read_slot-nil (object_slot c x) n = refl
read_slot-nil (objects_slot c os) n = rw (append-nil os)

-- Nodes that are no elements, and elements of other names, are left out.
pub read_slot_text_node :
    (sl : Slot) (n s : Str) (kids : Doms)
    → read_slot sl n (cons (text s) kids) ≡ read_slot sl n kids
unfolding read_slot read_named
read_slot_text_node no_slot n s kids = refl
read_slot_text_node (text_slot t) n s kids = refl
read_slot_text_node (texts_slot ts) n s kids = refl
read_slot_text_node (object_slot c x) n s kids = refl
read_slot_text_node (objects_slot c os) n s kids = refl

pub read_slot-cdata :
    (sl : Slot) (n s : Str) (kids : Doms)
    → read_slot sl n (cons (cdata s) kids) ≡ read_slot sl n kids
unfolding read_slot read_named
read_slot-cdata no_slot n s kids = refl
read_slot-cdata (text_slot t) n s kids = refl
read_slot-cdata (texts_slot ts) n s kids = refl
read_slot-cdata (object_slot c x) n s kids = refl
read_slot-cdata (objects_slot c os) n s kids = refl

pub read_slot-comment :
    (sl : Slot) (n s : Str) (kids : Doms)
    → read_slot sl n (cons (comment s) kids) ≡ read_slot sl n kids
unfolding read_slot read_named
read_slot-comment no_slot n s kids = refl
read_slot-comment (text_slot t) n s kids = refl
read_slot-comment (texts_slot ts) n s kids = refl
read_slot-comment (object_slot c x) n s kids = refl
read_slot-comment (objects_slot c os) n s kids = refl

module _ (n m : Str) (attrs : Dict Str) (ks kids : Doms) where
  pub read_slot_other :
      (sl : Slot)
      → str_eq n (local_name m) ≡ false
      → read_slot sl n (cons (element m attrs ks) kids) ≡ read_slot sl n kids
  unfolding read_slot read_named
  read_slot_other no_slot h = refl
  read_slot_other (text_slot t) h = rw h
  read_slot_other (texts_slot ts) h = rw h
  read_slot_other (object_slot c x) h = rw h
  read_slot_other (objects_slot c os) h = rw h

  pub read_slot-ignored :
      (sl : Slot)
      → slot_part sl ≡ ignored
      → read_slot sl n (cons (element m attrs ks) kids) ≡ read_slot sl n kids
  unfolding read_slot slot_part
  read_slot-ignored no_slot h = refl
  read_slot-ignored (text_slot t) h = cc
  read_slot-ignored (texts_slot ts) h = cc
  read_slot-ignored (object_slot c x) h = cc
  read_slot-ignored (objects_slot c os) h = cc

  pub read_slot-text :
      (sl : Slot) (s : Str)
      → str_eq n (local_name m) ≡ true
      → slot_part sl ≡ text_part
      → text_of ks ≡ ok s
      → read_slot sl n (cons (element m attrs ks) kids) ≡ read_slot (with_text s sl) n kids
  unfolding read_slot slot_part with_text
  read_slot-text no_slot s h p e = cc
  read_slot-text (text_slot t) s h p e =
      read_named-first (λ attrs ks. text_of ks) n m attrs ks kids s _ _ h e (λ us. refl)
  read_slot-text (texts_slot ts) s h p e =
      read_named-first (λ attrs ks. text_of ks) n m attrs ks kids s _ _ h e
        (λ us. ap (λ vs. ok (texts_slot vs)) (sym (append_assoc ts (s ∷ []) us)))
  read_slot-text (object_slot c x) s h p e = cc
  read_slot-text (objects_slot c os) s h p e = cc

  pub read_slot-object :
      (sl : Slot) (c : ClassName) (q : Object)
      → str_eq n (local_name m) ≡ true
      → slot_part sl ≡ object_part c
      → build_element attrs ks (new_object c) ≡ ok q
      → read_slot sl n (cons (element m attrs ks) kids) ≡ read_slot (with_object q sl) n kids
  unfolding read_slot slot_part with_object
  read_slot-object no_slot c q h p e = cc
  read_slot-object (text_slot t) c q h p e = cc
  read_slot-object (texts_slot ts) c q h p e = cc
  read_slot-object (object_slot d x) c q h p e =
      read_named-first (λ attrs ks. build_element attrs ks (new_object d)) n m attrs ks kids q _ _ h
        (rw (object_part-injective d c p) e) (λ us. refl)
  read_slot-object (objects_slot d os) c q h p e =
      read_named-first (λ attrs ks. build_element attrs ks (new_object d)) n m attrs ks kids q _ _ h
        (rw (object_part-injective d c p) e)
        (λ us. ap (λ vs. ok (objects_slot d vs)) (sym (append_assoc os (q ∷ []) us)))
