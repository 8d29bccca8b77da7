-- ===== src/BuildUtils/Template/Pieces.antt =====
-- A template as a list of pieces, and what `do_substitution` makes of it.
use gr_digitizers.Prelude.{
  ℕ, ◌≡◌, ◌≢◌, refl, sym, ◌∙◌, ap, true, false, List, [], ◌∷◌, ◌++◌, ◌==◌, arith, All, append_assoc,
  append-nil,
}
use gr_digitizers.Prelude.Str.{Str}
use gr_digitizers.Prelude.Dict.{Dict}
use gr_digitizers.Prelude.Result.{Result, ok, err, ◌>>=◌}
use gr_digitizers.BuildUtils.Template.{
  Scan, outside, inside, is_word, repl, scan_char, substitute, do_substitution,
}

pub data Piece : Type 0 where
  lit : Str → Piece
  key : Str → Piece

abbrev pub NonEmpty : Str → Type 0
NonEmpty s = s ≢ []

-- A literal has no `@`, a key is a word of one character at least.
abbrev pub WellFormed : Piece → Type 0
WellFormed (lit s) = All (λ c. (c == b'@') ≡ false) s
WellFormed (key k) = NonEmpty k × All (λ c. is_word c ≡ true) k

-- The template that the pieces make.
unfoldable pub render : List Piece → Str
render [] = []
render (lit s ∷ ps) = s ++ render ps
render (key k ∷ ps) = b'@' ∷ (k ++ (b'@' ∷ render ps))

-- Each key by its value, and the literals as they are. The first key that is missing raises.
unfoldable pub expand : Dict Str → List Piece → Result Str
expand d [] = ok []
expand d (lit s ∷ ps) = expand d ps >>= λ out. ok (s ++ out)
expand d (key k ∷ ps) = repl d k >>= λ v. expand d ps >>= λ out. ok (v ++ out)

cons_out :
    (c : ℕ) (s : Str) (r : Result Str)
    → ((r >>= λ out. ok (s ++ out)) >>= λ out. ok ((c ∷ []) ++ out))
      ≡ (r >>= λ out. ok ((c ∷ s) ++ out))
cons_out c s (ok a) = refl
cons_out c s (err e) = refl

nil_out : (r : Result Str) → (r >>= λ out. ok ([] ++ out)) ≡ r
nil_out (ok a) = refl
nil_out (err e) = refl

value_out :
    (r : Result Str) (t : Scan → Result Str)
    → (◌>>=◌ {A = Str × Scan} (r >>= λ v. ok (v, outside)) (λ q. t q.1 >>= λ out. ok (q.0 ++ out)))
      ≡ (r >>= λ v. t outside >>= λ out. ok (v ++ out))
value_out (ok a) t = refl
value_out (err e) t = refl

word-ne-at : (c : ℕ) → is_word c ≡ true → (c == b'@') ≡ false
word-ne-at c h = ground arith

module _ (d : Dict Str) where
  substitute-lit :
      (s t : Str)
      → All (λ c. (c == b'@') ≡ false) s
      → substitute d outside (s ++ t) ≡ (substitute d outside t >>= λ out. ok (s ++ out))
  unfolding substitute scan_char
  substitute-lit [] t h = sym (nil_out (substitute d outside t))
  substitute-lit (c ∷ s) t (h, hs) =
      rw h (rw (substitute-lit s t hs) (cons_out c s (substitute d outside t)))

  substitute-key :
      (k0 k t : Str)
      → NonEmpty (k0 ++ k)
      → All (λ c. is_word c ≡ true) k
      → substitute d (inside k0) (k ++ (b'@' ∷ t))
        ≡ (repl d (k0 ++ k) >>= λ v. substitute d outside t >>= λ out. ok (v ++ out))
  unfolding substitute scan_char
  substitute-key [] [] t ne h = absurd (ne refl)
  substitute-key (k ∷ k0) [] t ne h =
      rw append-nil (value_out (repl d (k ∷ k0)) (λ st. substitute d st t))
  substitute-key [] (c ∷ cs) t ne (h, hs) =
      rw (word-ne-at c h, h) (nil_out _ ∙ substitute-key (c ∷ []) cs t (λ e. ne (cc)) hs)
  substitute-key (k ∷ k0) (c ∷ cs) t ne (h, hs) =
      rw (word-ne-at c h, h)
        (nil_out _
          ∙ rw (append_assoc k0 (c ∷ []) cs) at
              (substitute-key (k ∷ k0 ++ (c ∷ [])) cs t (λ e. cc) hs))

  -- For a template of well-formed pieces do_substitution replaces each @key@ by the value of the
  -- key, keeps the rest, and raises KeyError on a missing key.
  pub do_substitution-render :
      (ps : List Piece) → All WellFormed ps → do_substitution d (render ps) ≡ expand d ps
  unfolding do_substitution render expand substitute scan_char
  do_substitution-render [] h = refl
  do_substitution-render (lit s ∷ ps) (h, hs) =
      substitute-lit s (render ps) h
      ∙ ap (λ r. r >>= λ out. ok (s ++ out)) (do_substitution-render ps hs)
  do_substitution-render (key k ∷ ps) ((ne, h), hs) =
      nil_out _
      ∙ (substitute-key [] k (render ps) ne h
          ∙ ap (λ r. repl d k >>= λ v. r >>= λ out. ok (v ++ out)) (do_substitution-render ps hs))
