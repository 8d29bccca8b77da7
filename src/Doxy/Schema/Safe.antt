-- ===== src/Doxy/Schema/Safe.antt =====
-- When `exportLiteral` of the generated classes returns.
use gr_digitizers.Prelude.{
  ℕ, ◌≡◌, refl, sym, Bool, true, false, ◌&&◌, Option, none, some, List, [], ◌∷◌, ◌++◌,
  if◌then◌else◌, Bool-cases, inl, inr,
}
use gr_digitizers.Prelude.Str.{Str, codes}
use gr_digitizers.Prelude.Result.{Result, ok, err, attribute_error}
use gr_digitizers.Prelude.Exec.{Exec, pure, lift, and_then, ◌>>=◌, ◌>>◌}
use gr_digitizers.Doxy.Quote.{quote_python}
use gr_digitizers.Doxy.Index.Outcome.{guard, Outcome, write-Outcome, show_indent-Outcome}
use gr_digitizers.Doxy.Index.Ascii.{is_ascii-quote_python}
use gr_digitizers.Doxy.Index.Export.{write, is_ascii, encode, show_indent}
use gr_digitizers.Doxy.Index.Literal.{literal_line, quote_python_optional}
use gr_digitizers.Doxy.Schema.{AttributeKind, encoded, quoted, always, numeric}
use gr_digitizers.Doxy.Schema.Object.{
  Values, Object, structured, simple, markup, mixed, Fields, no_fields, text_field, texts_field,
  unset_field, object_field, objects_field, Objects, no_objects, and_object,
}
use gr_digitizers.Doxy.Schema.Accepts.{is_ok}
use gr_digitizers.Doxy.Schema.Export.{has_content}
use gr_digitizers.Doxy.Schema.Encodable.{encodable_texts}
use gr_digitizers.Doxy.Schema.Literal.{
  literal_attribute, literal_attributes, literal_text, literal_texts,
}

abbrev pub safe_text : Option Str → Bool
safe_text none = false
safe_text (some s) = is_ascii s

-- No object with mixed content in it, no text that is missing where there is content, and ASCII texts.
unfoldable mutual
  unfolding has_content encodable_texts is_ascii

  pub safe : Object → Bool
  safe (structured c vs fs) = if has_content fs then safe_fields fs else true
  safe (simple c vs s) = true
  safe (markup c vs s ts) = true
  safe (mixed c vs is) = false

  pub safe_fields : Fields → Bool
  safe_fields no_fields = true
  safe_fields (text_field n t fs) = safe_text t && safe_fields fs
  safe_fields (texts_field n ss fs) = encodable_texts ss && safe_fields fs
  safe_fields (unset_field form n c fs) = safe_fields fs
  safe_fields (object_field form n c o fs) = safe o && safe_fields fs
  safe_fields (objects_field n c os fs) = safe_objects os && safe_fields fs

  pub safe_objects : Objects → Bool
  safe_objects no_objects = true
  safe_objects (and_object o os) = safe o && safe_objects os

-- Whether a method that writes returns, whatever it may raise.
unfoldable pub Returns : Exec Str (Unit {0}) → Bool → Type 0
Returns m b = (out : Str) → is_ok (m out).0 ≡ b

pub guard-is_ok : (b : Bool) → is_ok (guard b) ≡ b
guard-is_ok true = refl
guard-is_ok false = refl

pub run-Returns :
    (m : Exec Str (Unit {0})) (b : Bool) (out : Str) → Returns m b → is_ok (m out).0 ≡ b
unfolding Returns
run-Returns m b out h = h out

Outcome-Returns : (m : Exec Str (Unit {0})) (b : Bool) → Outcome m b → Returns m b
unfolding Outcome Returns
Outcome-Returns m b h out = rw (h out) (guard-is_ok b)

module _ {A : Type 0} where
  bind-Returns :
      (r : Result A) (k : A → Exec Str (Unit {0})) (out : Str) (a b : Bool)
      → is_ok r ≡ a
      → ((x : A) → Returns (k x) b)
      → is_ok (and_then r k out).0 ≡ (a && b)
  unfolding Returns
  bind-Returns (ok x) k out a b h f = rw (sym h) (f x out)
  bind-Returns (err e) k out a b h f = rw (sym h)

module _ (m n : Exec Str (Unit {0})) (a b : Bool) where
  pub then-Returns : Returns m a → Returns n b → Returns (m >> n) (a && b)
  then-Returns h k =
      unfold Returns in λ out. bind-Returns (m out).0 (λ _. n) (m out).1 a b (h out) (λ _. k)

pub pure-Returns : Returns (pure tt) true
unfolding Returns
pure-Returns out = refl

pub fail-Returns : Returns (lift (err attribute_error)) false
unfolding Returns
fail-Returns out = refl

write-Returns : (s : Str) → Returns (write s) true
write-Returns s = Outcome-Returns (write s) true (write-Outcome s)

indent-Returns : (level : ℕ) → Returns (show_indent level) true
indent-Returns level = Outcome-Returns (show_indent level) true (show_indent-Outcome level)

pub line-Returns : (s : Str) (level : ℕ) → Returns (literal_line s level) true
unfolding literal_line
line-Returns s level =
    then-Returns (show_indent level) (write s) true true (indent-Returns level) (write-Returns s)

attribute-Returns :
    (key : Str) (kind : AttributeKind) (v : Option Str) (level : ℕ)
    → Returns (literal_attribute key kind v level) true
unfolding literal_attribute
attribute-Returns key kind none level = pure-Returns
attribute-Returns key encoded (some s) level = line-Returns _ level
attribute-Returns key numeric (some s) level = line-Returns _ level
attribute-Returns key quoted (some s) level = line-Returns _ level
attribute-Returns key always (some s) level = line-Returns _ level

pub attributes-Returns : (vs : Values) (level : ℕ) → Returns (literal_attributes vs level) true
unfolding literal_attributes
attributes-Returns [] level = pure-Returns
attributes-Returns (((key, kind), v) ∷ vs) level =
    then-Returns (literal_attribute key kind v level) (literal_attributes vs level) true true
      (attribute-Returns key kind v level) (attributes-Returns vs level)

encoded-Returns :
    (before s : Str)
    → Returns (lift (encode s) >>= (λ t. write (before ++ (t ++ codes ",\n")))) (is_ascii s)
unfolding Returns encode
encoded-Returns before s out = elim (Bool-cases (is_ascii s)) [ inl e ↦ rw e | inr e ↦ rw e ]

pub text-Returns :
    (before : Str) (t : Option Str) (level : ℕ)
    → Returns (literal_text before t level) (safe_text t)
unfolding literal_text quote_python_optional
text-Returns before none level =
    then-Returns (show_indent level) _ true false (indent-Returns level) fail-Returns
text-Returns before (some s) level = rw (sym (is_ascii-quote_python s)) (
    then-Returns (show_indent level) _ true (is_ascii (quote_python s)) (indent-Returns level)
      (encoded-Returns before (quote_python s)))

pub texts-Returns :
    (ss : List Str) (level : ℕ) → Returns (literal_texts ss level) (encodable_texts ss)
unfolding literal_texts encodable_texts
texts-Returns [] level = pure-Returns
texts-Returns (s ∷ ss) level =
    then-Returns (literal_text [] (some s) level) (literal_texts ss level) (is_ascii s)
      (encodable_texts ss) (text-Returns [] (some s) level) (texts-Returns ss level)
