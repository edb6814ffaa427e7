-- ===== src/Setup/Config/Items.antt =====
-- What the look-ups find in a configuration file.
use svoiptunnel.Base.{
  ℕ, suc, ◌+◌, ◌^◌, ◌<◌, ◌≡◌, ◌≢◌, refl, false, List, [], ◌∷◌, ◌++◌, Bytes, All, arith, length,
  same, Option, none, some, Option-cases, inl, inr, ok, if◌then◌else◌, take_all,
}
use svoiptunnel.Base.Dict.{Dict, bytes_eq, find, assign}
use svoiptunnel.Setup.Config.{npos, find_from, is_comment, store, read_line, read, value_int}

-- A line of a file as its author means it.
pub data Line : Type 0 where
  comment : Bytes → Line
  entry : Bytes → Bytes → Line

abbrev pub print_line : Line → Bytes
print_line (comment text) = b'#' ∷ text
print_line (entry key v) = key ++ b'=' ∷ v

abbrev pub print : List Line → List Bytes
print [] = []
print (l ∷ ls) = print_line l ∷ print ls

-- No key holds an equals sign, begins a comment, or is as long as 2^32 - 1 bytes.
abbrev pub IsPlain : Line → Type 0
IsPlain (comment text) = Unit
IsPlain (entry key v) =
    All (λ c. c ≢ b'=') key × (is_comment key ≡ false) × (length key + 1 < 2 ^ 32)

-- The value of the last entry for a key, or what was there before.
abbrev pub last_value : Bytes → List Line → Option Bytes → Option Bytes
last_value key [] old = old
last_value key (comment text ∷ ls) old = last_value key ls old
last_value key (entry j v ∷ ls) old = last_value key ls (if same j key then some v else old)

find_from-absent : (pos b : ℕ) (s : Bytes) → All (λ c. c ≢ b) s → find_from pos b s ≡ npos
unfolding find_from
find_from-absent pos b [] h = refl
find_from-absent pos b (c ∷ s) h = ground (arith, find_from-absent (suc pos) b s h.1)

-- A line with no equals sign (and shorter than 2^32 - 1 bytes), which is meant to be skipped, is
-- stored with the whole line as the key and as the value.
pub read_line-no_value :
    (line : Bytes) (items : Dict Bytes Bytes)
    → line ≢ []
    → is_comment line ≡ false
    → All (λ c. c ≢ b'=') line
    → length line < 0xffffffff
    → read_line line items ≡ assign line line items
unfolding read_line store
read_line-no_value [] items some_line starts plain short = absurd (some_line refl)
read_line-no_value (c ∷ line) items some_line starts plain short =
    rw (starts, find_from-absent 0 b'=' (c ∷ line) plain)
      (rw (take_all 0xffffffff (c ∷ line) (omega arith)) refl)

-- Where `lexical_cast` refuses the empty text: a value that `valueInt` returns is 0 only if the
-- default is 0. An entry `0` counts as missing.
value_int-zero :
    (to_int : Bytes → Option ℕ) (items : Dict Bytes Bytes) (key : Bytes) (def : ℕ)
    → to_int [] ≡ none
    → value_int to_int items key def ≡ ok 0
    → def ≡ 0
unfolding value_int
value_int-zero to_int items key def refuses h = elim (Option-cases (find key items)) [
  | inl absent ↦ ground arith
  | inr ([], present) ↦ ground arith
  | inr (c ∷ text, present) ↦ elim (Option-cases (to_int (c ∷ text))) [
    | inl wrong ↦ ground arith
    | inr (v, read) ↦ ground arith
  ]
]
