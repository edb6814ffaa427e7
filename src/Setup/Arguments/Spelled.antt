-- ===== src/Setup/Arguments/Spelled.antt =====
-- What a command line sets.
use svoiptunnel.Base.{
  ℕ, ◌≡◌, ◌≢◌, refl, true, false, ◌⊎◌, List, [], ◌∷◌, ◌++◌, Bytes, All, codes, same, same_iff,
  Option, none, some, append-nil, Bool-cases, inl, inr, Outcome, ok, fails, null_pointer, arith, ap,
  sym, ◌∙◌,
}
use svoiptunnel.Setup.Arguments.{
  Options, Reading, sets, refused, unrecognised, takes_value, read_option, read_arguments,
}

abbrev Settings : Type 0
Settings = List (Bytes × Bytes)

-- The arguments of a list of options with their values.
abbrev pub spelled : Settings → List Bytes
spelled [] = []
spelled ((a, b) ∷ ps) = a ∷ b ∷ spelled ps

abbrev pub TakesValue : Bytes × Bytes → Type 0
TakesValue p = takes_value p.0 ≡ true

Reading-cases :
    (r : Reading) → ((o : Options) × (r ≡ sets o)) ⊎ ((r ≡ refused) ⊎ (r ≡ unrecognised))
Reading-cases (sets o) = inl (o, refl)
Reading-cases refused = inr (inl refl)
Reading-cases unrecognised = inr (inr refl)

module _ (to_ushort to_unsigned : Bytes → Option ℕ) where
  -- What the options set one after the other, each by itself; none once a mode is refused.
  abbrev pub set_all : Options → Settings → Option Options
  set_all o [] = some o
  set_all o ((a, b) ∷ ps) = elim (read_option to_ushort to_unsigned o a b) [
    | sets o' ↦ set_all o' ps
    | refused ↦ none
    | unrecognised ↦ set_all o ps
  ]

  -- What the rest of the arguments does then.
  abbrev go_on : Option Options → List Bytes → Outcome (Option Options)
  go_on none rest = ok none
  go_on (some o) rest = read_arguments to_ushort to_unsigned true o rest

  not_config : (a : Bytes) → takes_value a ≡ true → same a (codes "-f") ≡ false
  unfolding takes_value same
  not_config a h = elim (Bool-cases (same a (codes "-f"))) [
    | inl is_f ↦ cc (ap takes_value ((same_iff a (codes "-f")).0 is_f), h)
    | inr other ↦ other
  ]

  recognised :
      (o : Options) (a b : Bytes)
      → takes_value a ≡ true
      → read_option to_ushort to_unsigned o a b ≢ unrecognised
  unfolding takes_value read_option
  recognised o a b h = ground arith

  read_arguments-append :
      (o : Options) (ps : Settings) (rest : List Bytes)
      → All TakesValue ps
      → read_arguments to_ushort to_unsigned true o (spelled ps ++ rest) ≡ go_on (set_all o ps) rest
  unfolding read_arguments
  read_arguments-append o [] rest h = refl
  read_arguments-append o ((a, b) ∷ ps) rest h =
      rw (not_config a h.0) (elim (Reading-cases (read_option to_ushort to_unsigned o a b)) [
        | inl (o', e) ↦ rw (set_all, e) (read_arguments-append o' ps rest h.1)
        | inr (inl e) ↦ rw (set_all, e) refl
        | inr (inr e) ↦ absurd (recognised o a b h.0 e)
      ])

  go_on-end : (r : Option Options) → go_on r [] ≡ ok r
  unfolding read_arguments
  go_on-end none = refl
  go_on-end (some o) = refl

  -- A command line of options with their values sets what the options set one after the other, and
  -- ends the program exactly where one of them is refused.
  pub read_arguments-spelled :
      (o : Options) (ps : Settings)
      → All TakesValue ps
      → read_arguments to_ushort to_unsigned true o (spelled ps) ≡ ok (set_all o ps)
  read_arguments-spelled o ps h =
      rw (sym (append-nil (spelled ps)))
        (read_arguments-append o ps [] h ∙ go_on-end (set_all o ps))

  -- Behind options with their values, of which none is refused, an option with no value at the end of
  -- the command line has a null pointer made into a string, or printed.
  pub read_arguments-missing_value :
      (o o' : Options) (ps : Settings) (a : Bytes)
      → All TakesValue ps
      → set_all o ps ≡ some o'
      → (takes_value a ≡ true) ⊎ (a ≡ codes "-f")
      → read_arguments to_ushort to_unsigned true o (spelled ps ++ a ∷ []) ≡ fails null_pointer
  unfolding read_arguments same
  read_arguments-missing_value o o' ps a h done last =
      read_arguments-append o ps (a ∷ []) h
      ∙ rw done (elim last [ inl known ↦ rw known (ground arith) | inr is_f ↦ rw is_f refl ])
