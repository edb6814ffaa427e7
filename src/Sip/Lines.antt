-- ===== src/Sip/Lines.antt =====
-- The loop over the lines of a text that `processIncoming`, `processOutgoing` and the two functions for
-- SDP share (svoiptunnel/sipserver.cpp and sipcall.cpp): a line ends at CR LF, and what does not end so
-- is no line.
use svoiptunnel.Base.{
  ℕ, ◌≡◌, refl, ◌≢◌, ◌∙◌, Bool, true, false, ◌&&◌, List, [], ◌∷◌, ◌++◌, append_assoc, append-nil,
  Bytes, All, arith, Outcome, ok, fails, ◌>>=◌, if◌then◌else◌, ◌==◌, Ensures, Ensures-if,
  Ensures->>=,
}

abbrev pub crlf : Bytes
crlf = b'\r' ∷ b'\n' ∷ []

-- What becomes of the loop behind a line: the next round, or an end with a result of its own.
pub data Round {ℓ κ} (S : Type ℓ) (R : Type κ) : Type (ℓ ⊔ κ) where
  next : S → Round S R
  stop : R → Round S R

abbrev pub and_then {ℓ κ ι} :
    {S : Type ℓ} {T : Type κ} {R : Type ι}
    → Round S R
    → (S → Outcome (Round T R))
    → Outcome (Round T R)
and_then (next s) go_on = go_on s
and_then (stop r) go_on = ok (stop r)

-- The loop, with the bytes from `pLine` to `pSrc` and those from `pSrc` on. `ends` says behind which
-- line it ends; then, and at the end of the text, the bytes from `pSrc` on are left.
unfoldable pub walk {ℓ κ} :
    {S : Type ℓ} {R : Type κ}
    → (Bytes → Bool)
    → (S → Bytes → Outcome (Round S R))
    → S
    → Bytes
    → Bytes
    → Outcome (Round (S × Bytes) R)
walk ends step s line [] = ok (next (s, []))
walk ends step s line (c ∷ []) = ok (next (s, c ∷ []))
walk ends step s line (c ∷ d ∷ rest) =
    let onward = walk ends step s (line ++ c ∷ []) (d ∷ rest) in
    let behind = step s line >>= λ r. and_then r (λ s'. walk ends step s' [] rest) in
    if c == b'\r' && d == b'\n' then (if ends line then ok (next (s, rest)) else behind) else onward

-- Lines as they stand in a message, before a rest.
abbrev pub print_lines : List Bytes → Bytes → Bytes
print_lines [] rest = rest
print_lines (line ∷ lines) rest = line ++ b'\r' ∷ b'\n' ∷ print_lines lines rest

abbrev pub IsLine : Bytes → Type 0
IsLine line = All (λ c. c ≢ b'\r') line

-- The rounds over the lines, one after the other.
abbrev pub run_lines {ℓ κ} :
    {S : Type ℓ} {R : Type κ}
    → (S → Bytes → Outcome (Round S R))
    → S
    → List Bytes
    → Outcome (Round S R)
run_lines step s [] = ok (next s)
run_lines step s (line ∷ lines) = step s line >>= λ r. and_then r (λ s'. run_lines step s' lines)

no_return : (c d : ℕ) → c ≢ b'\r' → (c == b'\r' && d == b'\n') ≡ false
no_return c d h = ground arith

module _ {ℓ κ} {S : Type ℓ} {R : Type κ} (ends : Bytes → Bool)
    (step : S → Bytes → Outcome (Round S R)) where
  behind_line : S → Bytes → Bytes → Outcome (Round (S × Bytes) R)
  behind_line s line rest =
      if ends line
      then ok (next (s, rest))
      else step s line >>= λ r. and_then r (λ s'. walk ends step s' [] rest)

  walk-line :
      (s : S) (before line rest : Bytes)
      → IsLine line
      → walk ends step s before (line ++ b'\r' ∷ b'\n' ∷ rest) ≡ behind_line s (before ++ line) rest
  unfolding walk behind_line
  walk-line s before [] rest h = rw (append-nil before) refl
  walk-line s before (c ∷ []) rest h =
      rw (no_return c b'\r' h.0)
        (walk-line s (before ++ c ∷ []) [] rest tt ∙ rw (append-nil (before ++ c ∷ [])) refl)
  walk-line s before (c ∷ d ∷ line) rest h = rw (no_return c d h.0) (
      walk-line s (before ++ c ∷ []) (d ∷ line) rest h.1
      ∙ rw (append_assoc before (c ∷ []) (d ∷ line)) refl)

  chained {ι} :
      {T : Type ι} (o : Outcome (Round S R)) (f g : S → Outcome (Round T R))
      (h : S → Outcome (Round S R))
      → ((s : S) → f s ≡ (h s >>= λ r. and_then r g))
      → (o >>= λ r. and_then r f) ≡ ((o >>= λ r. and_then r h) >>= λ r. and_then r g)
  chained (fails why) f g h same = refl
  chained (ok (stop r)) f g h same = refl
  chained (ok (next s)) f g h same = same s

  behind-go_on :
      (s : S) (line rest : Bytes)
      → ends line ≡ false
      → behind_line s line rest
        ≡ (step s line >>= λ r. and_then r (λ s'. walk ends step s' [] rest))
  unfolding behind_line
  behind-go_on s line rest h = rw h

  -- The loop over printed lines makes the rounds of the lines, and goes on with the rest.
  pub walk-print_lines :
      (s : S) (lines : List Bytes) (rest : Bytes)
      → All (λ line. IsLine line × (ends line ≡ false)) lines
      → walk ends step s [] (print_lines lines rest)
        ≡ (run_lines step s lines >>= λ r. and_then r (λ s'. walk ends step s' [] rest))
  walk-print_lines s [] rest h = refl
  walk-print_lines s (line ∷ lines) rest h =
      walk-line s [] line (print_lines lines rest) h.0.0
      ∙ behind-go_on s line (print_lines lines rest) h.0.1
      ∙ chained (step s line) _ _ (λ s'. run_lines step s' lines)
          (λ s'. walk-print_lines s' lines rest h.1)

  -- The loop ends behind an empty line where that is to end it.
  pub walk_ended :
      (s : S) (rest : Bytes)
      → ends [] ≡ true
      → walk ends step s [] (b'\r' ∷ b'\n' ∷ rest) ≡ ok (next (s, rest))
  unfolding walk
  walk_ended s rest h = rw h

-- What a round, or the loop, leaves.
abbrev pub Leaves {ℓ κ} :
    {S : Type ℓ} {R : Type κ} → (S → Type 0) → (R → Type 0) → Round S R → Type 0
Leaves P Q (next s) = P s
Leaves P Q (stop r) = Q r

module _ {ℓ κ} {S : Type ℓ} {R : Type κ} (P : S → Type 0) (Q : R → Type 0) (ends : Bytes → Bool)
    (step : S → Bytes → Outcome (Round S R))
    (keeps : (s : S) (line : Bytes) → P s → Ensures (Leaves P Q) (step s line)) where
  abbrev AtEnd : Round (S × Bytes) R → Type 0
  AtEnd = Leaves (λ x. P x.0) Q

  go_on :
      (r : Round S R) (loop : S → Outcome (Round (S × Bytes) R))
      → ((s' : S) → P s' → Ensures AtEnd (loop s'))
      → Leaves P Q r
      → Ensures AtEnd (and_then r loop)
  go_on (next s') loop h k = h s' k
  go_on (stop r) loop h k = k

  -- An invariant of the rounds is one of the loop.
  pub walk-Ensures :
      (s : S) (line text : Bytes)
      → P s
      → Ensures (Leaves {S = S × Bytes} (λ x. P x.0) Q) (walk ends step s line text)
  unfolding walk
  walk-Ensures s line [] h = h
  walk-Ensures s line (c ∷ []) h = h
  walk-Ensures s line (c ∷ d ∷ rest) h =
      Ensures-if AtEnd (c == b'\r' && d == b'\n') _ _
        (Ensures-if AtEnd (ends line) _ _ h (
          Ensures->>= (Leaves P Q) AtEnd (step s line) _ (keeps s line h) (λ r k.
            go_on r (λ s'. walk ends step s' [] rest) (λ s' k'. walk-Ensures s' [] rest k') k)))
        (walk-Ensures s (line ++ c ∷ []) (d ∷ rest) h)
