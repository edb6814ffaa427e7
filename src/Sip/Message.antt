-- ===== src/Sip/Message.antt =====
-- `sipmessage` of svoiptunnel/sipmessage.h and sipmessage.cpp: the start line of a SIP message.
-- A pointer into the buffer is the list of the bytes from it to the end.
pub mod Requests
pub mod Responses
pub mod Parts
use svoiptunnel.Base.{
  ℕ, suc, ◌+◌, ◌-◌, Bool, true, false, not, ◌&&◌, ◌||◌, List, [], ◌∷◌, ◌++◌, Bytes, codes, length,
  take, Option, none, some, if◌then◌else◌, leb, ◌==◌, same, is_empty, replicate,
}

-- `RequestMethod_t`
pub data Method : Type 0 where
  register invite ack cancel bye options unknown : Method

-- `_methodArray`; `eUNKNOWN` has no entry.
unfoldable pub method_name : Method → Bytes
method_name register = codes "REGISTER"
method_name invite = codes "INVITE"
method_name ack = codes "ACK"
method_name cancel = codes "CANCEL"
method_name bye = codes "BYE"
method_name options = codes "OPTIONS"
method_name unknown = []

-- `++method`
unfoldable pub next_method : Method → Method
next_method register = invite
next_method invite = ack
next_method ack = cancel
next_method cancel = bye
next_method bye = options
next_method options = unknown
next_method unknown = unknown

-- `method`, and `_methodArray[method]` from `chrIdx` on.
pub record Cursor : Type 0 where
  pub method : Method
  pub word : Bytes

abbrev pub at_start : Method → Cursor
at_start m = record { method = m; word = method_name m }

abbrev pub is_unknown : Method → Bool
is_unknown unknown = true
is_unknown _ = false

-- The byte at the cursor; 0 behind the last one.
abbrev pub head_or_nul : Bytes → ℕ
head_or_nul [] = 0
head_or_nul (c ∷ w) = c

abbrev pub rest_of : Bytes → Bytes
rest_of [] = []
rest_of (c ∷ w) = w

-- The inner loop: on to the first method, from this one, whose byte is `c`. A method after the
-- first starts again at its first byte. There are six methods, hence the fuel 6.
unfoldable pub seek : ℕ → ℕ → Cursor → Cursor
unfolding method_name next_method
seek ℕ.zero c k = k
seek (suc fuel) c k =
    let again = seek fuel c (at_start (next_method k.method)) in
    if is_unknown k.method || (c == head_or_nul k.word) then k else again

-- The loop over the first line: it stops at a line feed, at the end of the buffer, behind a method
-- that has been read whole, and when no method is left.
unfoldable pub scan_method : Cursor → Bytes → Cursor × Bytes
unfolding seek
scan_method k [] = (k, [])
scan_method k (c ∷ rest) =
    let k' = seek 6 c k in
    let later = scan_method (record { method = k'.method; word = rest_of k'.word }) rest in
    if c == b'\n' || is_empty k.word
    then (k, c ∷ rest)
    else if is_unknown k'.method
    then (k', c ∷ rest)
    else later

-- `while( len && *pSrc != b )`
unfoldable pub skip_to : ℕ → Bytes → Bytes
skip_to b [] = []
skip_to b (c ∷ rest) = if c == b then c ∷ rest else skip_to b rest

abbrev pub is_digit : ℕ → Bool
is_digit c = leb b'0' c && leb c b'9'

-- The loop over at most `n` digits of the code; what the buffer `_respCode` holds in the places not
-- read, from the constructor, is '0'. None: a byte that is no digit.
unfoldable pub scan_code : ℕ → Bytes → Option (Bytes × Bytes)
scan_code ℕ.zero rest = some ([], rest)
scan_code (suc n) [] = some (replicate (suc n) b'0', [])
scan_code (suc n) (c ∷ rest) =
    let later : Option (Bytes × Bytes) = elim (scan_code n rest) [
      | none ↦ none
      | some (code, end) ↦ some (c ∷ code, end)
    ] in
    if c == b' '
    then some (replicate (suc n) b'0', c ∷ rest)
    else if is_digit c
    then later
    else none

pub record Message : Type 0 where
  pub is_request : Bool
  pub is_success : Bool
  pub resp_code : Bytes
  pub start_line : Bytes
  pub body : Bytes
  pub method : Method

-- The lines of `parse` behind both branches: `pSrc` is at the line feed or at the end.
unfoldable pub finish : Bytes → Bytes → Bool → Bool → Bytes → Method → Message
finish buf end request success code m = record {
  is_request = request;
  is_success = success;
  resp_code = code;
  start_line = take (length buf - length (rest_of end)) buf;
  body = rest_of end;
  method = m;
}

-- What `_respCode` holds before a response has been read.
abbrev pub no_code : Bytes
no_code = replicate 3 b'0'

-- The byte that `*pSrc` reads. At the end of the buffer it is the byte behind it, `past`.
abbrev pub peek : ℕ → Bytes → ℕ
peek past [] = past
peek past (c ∷ rest) = c

-- Behind the loop over the code.
unfoldable pub accept_code : ℕ → Bytes → Option (Bytes × Bytes) → Option Message
accept_code past buf none = none
accept_code past buf (some (code, end)) =
    if peek past end == b' '
    then some (finish buf (skip_to b'\n' end) false (head_or_nul code == b'2') code unknown)
    else none

unfoldable pub parse_response : ℕ → Bytes → Bytes → Option Message
parse_response past buf at = accept_code past buf (scan_code 3 (rest_of (skip_to b' ' at)))

-- `parse` on a fresh message; none where it returns false.
unfoldable pub parse : ℕ → Bytes → Option Message
unfolding scan_method skip_to finish parse_response scan_code accept_code
parse past buf =
    let (k, at) = scan_method (at_start register) buf in
    if is_unknown k.method
    then parse_response past buf at
    else some (finish buf (skip_to b'\n' at) true false no_code k.method)

-- `compareCode`, of a text of three bytes.
unfoldable pub compare_code : Bytes → Message → Bool
compare_code code m = same code m.resp_code
