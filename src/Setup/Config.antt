-- ===== src/Setup/Config.antt =====
-- `Config` of svoiptunnel/config.cpp: the items of the configuration file. The words that
-- `file >> line` reads, up to the empty one at the end of the file, are a list. `to_int` is
-- `boost::lexical_cast<int>`, whose result is kept as its 32 bits; none where it throws.
use svoiptunnel.Base.{
  ℕ, suc, ◌+◌, ◌%◌, ◌^◌, Bool, true, false, not, ◌&&◌, ◌||◌, List, [], ◌∷◌, Bytes, is_empty, take,
  drop, Option, none, some, Outcome, ok, fails, bad_lexical_cast, if◌then◌else◌, ◌==◌,
}
use svoiptunnel.Base.Dict.{Dict, bytes_eq, find, assign}
pub mod Items
pub mod Singleton

-- `string::npos`, in the 64 bits of `size_t`.
abbrev pub npos : ℕ
npos = 0xffffffffffffffff

-- `string::find` from a position on.
unfoldable pub find_from : ℕ → ℕ → Bytes → ℕ
find_from pos b [] = npos
find_from pos b (c ∷ s) = if c == b then pos else find_from (suc pos) b s

abbrev pub is_comment : Bytes → Bool
is_comment [] = false
is_comment (c ∷ s) = c == b'#'

-- What `find` returned is cut to the 32 bits of `unsigned int` before it is compared with `npos`; so
-- is `pos + 1`.
unfoldable pub store : ℕ → Bytes → Dict Bytes Bytes → Dict Bytes Bytes
store found line items =
    let pos = found % 2 ^ 32 in
    if pos == npos then items else assign (take pos line) (drop ((pos + 1) % 2 ^ 32) line) items

-- One round of the loop.
unfoldable pub read_line : Bytes → Dict Bytes Bytes → Dict Bytes Bytes
unfolding find_from store
read_line line items =
    if is_empty line || is_comment line then items else store (find_from 0 b'=' line) line items

-- The loop over the file, from items that are already there.
unfoldable pub read_lines : List Bytes → Dict Bytes Bytes → Dict Bytes Bytes
unfolding read_line
read_lines [] items = items
read_lines (line ∷ lines) items = read_lines lines (read_line line items)

-- `Read` of a file that can be opened.
unfoldable pub read : List Bytes → Dict Bytes Bytes
unfolding read_lines
read lines = read_lines lines []

unfoldable pub value_string : Dict Bytes Bytes → Bytes → Bytes → Bytes
value_string items key def = elim (find key items) [ none ↦ def | some v ↦ v ]

abbrev pub int_or : ℕ → Bytes → Option ℕ → Outcome ℕ
int_or def text none = fails bad_lexical_cast
int_or def text (some v) = if (v == 0) && not (is_empty text) then ok def else ok v

unfoldable pub value_int : (Bytes → Option ℕ) → Dict Bytes Bytes → Bytes → ℕ → Outcome ℕ
value_int to_int items key def = elim (find key items) [
  | none ↦ ok def
  | some text ↦ int_or def text (to_int text)
]
