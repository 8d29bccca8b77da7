-- ===== src/BuildUtils/Log/Names.antt =====
-- What the log holds after a series of names.
use gr_digitizers.Prelude.{
  ℕ, ◌≡◌, refl, sym, ◌∙◌, false, none, some, List, [], ◌∷◌, ◌++◌, ◌==◌, arith, All, append_assoc,
  append-nil, if◌then◌else◌, Bool-cases, inl, inr,
}
use gr_digitizers.Prelude.Str.{Str, str_eq, str_eq_iff}
use gr_digitizers.Prelude.Dict.{lookup-insert}
use gr_digitizers.BuildUtils.Log.{
  split_last, basename, only_dots, extension, NameDict, logged, log_output_name,
}

-- The names logged one after the other.
unfoldable pub log_all : List Str → NameDict → NameDict
log_all [] d = d
log_all (n ∷ ns) d = log_all ns (log_output_name n d)

-- Those with the extension `ext`, in their order.
unfoldable pub with_extension : Str → List Str → List Str
with_extension ext [] = []
with_extension ext (n ∷ ns) =
    let rest = with_extension ext ns in if str_eq (extension n) ext then n ∷ rest else rest

logged-log_output_name :
    (ext n : Str) (d : NameDict)
    → logged ext (log_output_name n d)
      ≡ (if str_eq (extension n) ext then logged ext d ++ (n ∷ []) else logged ext d)
unfolding logged log_output_name
logged-log_output_name ext n d =
    rw (lookup-insert (extension n) ext, logged) (ground (arith, str_eq_iff (extension n) ext))

-- After a run each extension holds its names in the order of the run, none lost and none filed
-- twice.
pub logged-log_all :
    (ext : Str) (ns : List Str) (d : NameDict)
    → logged ext (log_all ns d) ≡ logged ext d ++ with_extension ext ns
unfolding log_all with_extension
logged-log_all ext [] d = sym (append-nil (logged ext d))
logged-log_all ext (n ∷ ns) d =
    logged-log_all ext ns (log_output_name n d)
    ∙ rw logged-log_output_name (elim (Bool-cases (str_eq (extension n) ext)) [
      | inl e ↦ rw e (append_assoc (logged ext d) (n ∷ []) (with_extension ext ns))
      | inr e ↦ rw e
    ])

abbrev NoChar : ℕ → Str → Type 0
NoChar c = All (λ x. (x == c) ≡ false)

split_last-none : (c : ℕ) (s : Str) → NoChar c s → split_last c s ≡ none
unfolding split_last
split_last-none c [] h = refl
split_last-none c (x ∷ s) (h, hs) = rw (split_last-none c s hs, h)

split_last-append : (c : ℕ) (s t : Str) → NoChar c t → split_last c (s ++ (c ∷ t)) ≡ some (s, t)
unfolding split_last
split_last-append c [] t h = rw (split_last-none c t h) (ground arith)
split_last-append c (x ∷ s) t h = rw (split_last-append c s t h)

NoChar-append : (c : ℕ) (s t : Str) → NoChar c s → NoChar c t → NoChar c (s ++ t)
NoChar-append c [] t h k = k
NoChar-append c (x ∷ s) t (h, hs) k = (h, NoChar-append c s t hs k)

-- An output dir/base.ext, where base and ext have no slash, base is not only dots and ext has no
-- dot, has the extension ext.
extension-of_name :
    (dir base ext : Str)
    → NoChar b'/' base
    → only_dots base ≡ false
    → NoChar b'/' ext
    → NoChar b'.' ext
    → extension (dir ++ (b'/' ∷ (base ++ (b'.' ∷ ext)))) ≡ ext
unfolding extension basename
extension-of_name dir base ext hb hd he hn =
    rw
      (
        split_last-append b'/' dir (base ++ (b'.' ∷ ext))
            (NoChar-append b'/' base (b'.' ∷ ext) hb (refl, he)),
        extension,
        basename,
      )
      (rw (split_last-append b'.' base ext hn, hd) refl)
