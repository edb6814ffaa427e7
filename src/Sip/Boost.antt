-- ===== src/Sip/Boost.antt =====
-- What the SIP side uses of boost, as parameters, and `reg_grep` of svoiptunnel/util.cpp, which wraps
-- one of them.
use svoiptunnel.Base.{
  ℕ, suc, ◌+◌, ◌&&◌, List, [], ◌∷◌, Bytes, length, set, get_or, Option, none, some, if◌then◌else◌,
  ltb,
}

pub record Boost : Type 0 where
  -- `regex_match` of an expression and a whole text: `what[0]`, `what[1]` and so on, none where it
  -- does not match
  pub regex_match : Bytes → Bytes → Option (List Bytes)
  -- `regex_replace` of a text, an expression and a format
  pub regex_replace : Bytes → Bytes → Bytes → Bytes
  -- `split` at each of one byte
  pub split : ℕ → Bytes → List Bytes
  -- `lexical_cast` to `int`, as its 32 bits, to `unsigned` and to `unsigned short`; none where it
  -- throws
  pub to_int : Bytes → Option ℕ
  pub to_unsigned : Bytes → Option ℕ
  pub to_ushort : Bytes → Option ℕ
  -- `lexical_cast<string>` of an unsigned number, and of an `int` given by its 32 bits
  pub show : ℕ → Bytes
  pub show_int : ℕ → Bytes

-- The loop of `reg_grep`, over the positions in the bit set from `find_first` on. Behind the last
-- sub-match `what` has empty ones.
unfoldable pub fill_output : List Bytes → List ℕ → ℕ → List Bytes → List Bytes
fill_output what [] pos out = out
fill_output what (index ∷ more) pos out =
    let later = fill_output what more (suc pos) (set out pos (get_or what (index + 1) [])) in
    if ltb index (length what) && ltb pos (length out) then later else out

-- None where it returns false and leaves the output as it is.
unfoldable pub reg_grep : Boost → Bytes → List ℕ → Bytes → List Bytes → Option (List Bytes)
unfolding fill_output
reg_grep boost regx idx_set text out = elim (boost.regex_match regx text) [
  | none ↦ none
  | some what ↦ some (fill_output what idx_set 0 out)
]

-- With one value wanted: `values[0]`.
unfoldable pub grep_one : Boost → Bytes → Bytes → Option Bytes
unfolding reg_grep
grep_one boost regx text = elim (reg_grep boost regx (0 ∷ []) text ([] ∷ [])) [
  | none ↦ none
  | some values ↦ some (get_or values 0 [])
]

-- With two: `values[0]` and `values[1]`.
unfoldable pub grep_two : Boost → Bytes → Bytes → Option (Bytes × Bytes)
unfolding reg_grep
grep_two boost regx text = elim (reg_grep boost regx (0 ∷ 1 ∷ []) text ([] ∷ [] ∷ [])) [
  | none ↦ none
  | some values ↦ some (get_or values 0 [], get_or values 1 [])
]

unfoldable pub reg_replace : Boost → Bytes → Bytes → Bytes → Bytes
reg_replace boost regx text new_text = boost.regex_replace text regx new_text
