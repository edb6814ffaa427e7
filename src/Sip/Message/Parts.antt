-- ===== src/Sip/Message/Parts.antt =====
-- Every message that `parse` accepts: its two parts, and its fields.
use svoiptunnel.Base.{
  ℕ, zero, suc, ◌≡◌, refl, Bool, true, false, not, [], ◌∷◌, ◌++◌, Bytes, length, replicate,
  if◌then◌else◌, is_empty, ◌||◌, Option, none, some, ◌==◌, ◌∙◌, append_assoc, sym, ap, Bool-cases,
  inl, inr, take_before,
}
use svoiptunnel.Sip.Message.Responses.{IsDigits}
use svoiptunnel.Sip.Message.{
  Method, register, unknown, Cursor, at_start, is_unknown, head_or_nul, rest_of, is_digit, peek,
  seek, scan_method, skip_to, scan_code, finish, Message, parse, parse_response, accept_code,
  no_code,
}

-- `end` is a pointer into `buf`.
abbrev pub IsInside : Bytes → Bytes → Type 0
IsInside buf end = (pre : Bytes) × (buf ≡ pre ++ end)

IsInside-tail : (buf : Bytes) (c : ℕ) (end : Bytes) → IsInside buf (c ∷ end) → IsInside buf end
IsInside-tail buf c end (pre, e) = (pre ++ c ∷ [], e ∙ sym (append_assoc pre (c ∷ []) end))

rest_of-IsInside : (buf end : Bytes) → IsInside buf end → IsInside buf (rest_of end)
rest_of-IsInside buf [] i = i
rest_of-IsInside buf (c ∷ end) i = IsInside-tail buf c end i

skip_to-IsInside :
    (buf : Bytes) (b : ℕ) (end : Bytes) → IsInside buf end → IsInside buf (skip_to b end)
unfolding skip_to
skip_to-IsInside buf b [] i = i
skip_to-IsInside buf b (c ∷ end) i = elim (Bool-cases (c == b)) [
  | inl e ↦ rw e i
  | inr e ↦ rw e (skip_to-IsInside buf b end (IsInside-tail buf c end i))
]

abbrev Read : Bytes → ℕ → Option (Bytes × Bytes) → Type 0
Read buf n none = Unit
Read buf n (some (code, end)) = (length code ≡ n) × IsDigits code × IsInside buf end

zeros : (n : ℕ) → (length {A = ℕ} (replicate n b'0') ≡ n) × IsDigits (replicate n b'0')
zeros zero = (refl, tt)
zeros (suc n) = (ap suc (zeros n).0, (refl, (zeros n).1))

Read-cons :
    (buf : Bytes) (n c : ℕ) (o : Option (Bytes × Bytes))
    → is_digit c ≡ true
    → Read buf n o
    → Read buf (suc n) (elim o as (λ _. Option (Bytes × Bytes)) [
      | none ↦ none
      | some (code, end) ↦ some (c ∷ code, end)
    ])
Read-cons buf n c none d r = tt
Read-cons buf n c (some (code, end)) d r = (ap suc r.0, (d, r.1), r.2)

scan_code-Read :
    (buf : Bytes) (n : ℕ) (end : Bytes) → IsInside buf end → Read buf n (scan_code n end)
unfolding scan_code
scan_code-Read buf zero end i = (refl, tt, i)
scan_code-Read buf (suc n) [] i = (ap suc (zeros n).0, (refl, (zeros n).1), i)
scan_code-Read buf (suc n) (c ∷ end) i = elim (Bool-cases (c == b' ')) [
  | inl e ↦ rw e (ap suc (zeros n).0, (refl, (zeros n).1), i)
  | inr e ↦ rw e (elim (Bool-cases (is_digit c)) [
    | inl d ↦ rw d (Read-cons buf n c _ d (scan_code-Read buf n end (IsInside-tail buf c end i)))
    | inr d ↦ rw d tt
  ])
]

if-IsInside :
    (buf : Bytes) (b : Bool) (x y : Cursor × Bytes)
    → IsInside buf x.1
    → IsInside buf y.1
    → IsInside buf (if b then x else y).1
if-IsInside buf true x y i j = i
if-IsInside buf false x y i j = j

scan_method-IsInside :
    (buf : Bytes) (k : Cursor) (end : Bytes) → IsInside buf end → IsInside buf (scan_method k end).1
unfolding scan_method
scan_method-IsInside buf k [] i = i
scan_method-IsInside buf k (c ∷ end) i =
    let k' = seek 6 c k in
    let later = scan_method (record { method = k'.method; word = rest_of k'.word }) end in
    if-IsInside buf (c == b'\n' || is_empty k.word) (k, c ∷ end)
      (if is_unknown k'.method then (k', c ∷ end) else later) i
      (if-IsInside buf (is_unknown k'.method) (k', c ∷ end) later i
        (scan_method-IsInside buf (record { method = k'.method; word = rest_of k'.word }) end
          (IsInside-tail buf c end i)))

-- What every accepted message has.
pub record IsParsed (buf : Bytes) (m : Message) : Type 0 where
  -- the start line and the body are the buffer, split once
  pub parts : m.start_line ++ m.body ≡ buf
  pub kind : m.is_request ≡ not (is_unknown m.method)
  pub code_length : length m.resp_code ≡ 3
  pub code_digits : IsDigits m.resp_code
  pub success : m.is_success ≡ (head_or_nul m.resp_code == b'2')

finish-IsParsed :
    (buf end : Bytes) (request success : Bool) (code : Bytes) (m : Method)
    → IsInside buf end
    → request ≡ not (is_unknown m)
    → length code ≡ 3
    → IsDigits code
    → success ≡ (head_or_nul code == b'2')
    → IsParsed buf (finish buf end request success code m)
unfolding finish
finish-IsParsed buf end request success code m i r l d s =
    let (pre, e) = rest_of-IsInside buf end i in
    record {
      parts = rw e (rw (take_before pre (rest_of end)));
      kind = r;
      code_length = l;
      code_digits = d;
      success = s;
    }

abbrev Parsed : Bytes → Option Message → Type 0
Parsed buf none = Unit
Parsed buf (some m) = IsParsed buf m

accept_code-Parsed :
    (past : ℕ) (buf : Bytes) (o : Option (Bytes × Bytes))
    → Read buf 3 o
    → Parsed buf (accept_code past buf o)
unfolding accept_code
accept_code-Parsed past buf none r = tt
accept_code-Parsed past buf (some (code, end)) r = elim (Bool-cases (peek past end == b' ')) [
  | inl e ↦ rw e (
      finish-IsParsed buf (skip_to b'\n' end) false _ code unknown
        (skip_to-IsInside buf b'\n' end r.2) refl r.0 r.1 refl)
  | inr e ↦ rw e tt
]

response-Parsed :
    (past : ℕ) (buf at : Bytes) → IsInside buf at → Parsed buf (parse_response past buf at)
unfolding parse_response
response-Parsed past buf at i = accept_code-Parsed past buf _ (
    scan_code-Read buf 3 _
      (rest_of-IsInside buf (skip_to b' ' at) (skip_to-IsInside buf b' ' at i)))

abbrev split_on : ℕ → Bytes → Cursor × Bytes → Option Message
split_on past buf (k, at) =
    if is_unknown k.method
    then parse_response past buf at
    else some (finish buf (skip_to b'\n' at) true false no_code k.method)

parse_lem :
    (past : ℕ) (buf : Bytes)
    → parse past buf ≡ split_on past buf (scan_method (at_start register) buf)
unfolding parse
parse_lem past buf = refl

split_on-Parsed :
    (past : ℕ) (buf : Bytes) (r : Cursor × Bytes)
    → IsInside buf r.1
    → Parsed buf (split_on past buf r)
split_on-Parsed past buf (k, at) i = elim (Bool-cases (is_unknown k.method)) [
  | inl u ↦ rw u (response-Parsed past buf at i)
  | inr u ↦ rw u (
      finish-IsParsed buf (skip_to b'\n' at) true false no_code k.method
        (skip_to-IsInside buf b'\n' at i) (rw u) refl (refl, (refl, (refl, tt))) refl)
]

-- Whatever `parse` accepts, from any bytes: the start line and the body make up the buffer, the
-- message is a request exactly if a method was recognised, and the code is three digits, a success
-- exactly if the first is 2.
pub parse-IsParsed :
    (past : ℕ) (buf : Bytes) {m : Message} → parse past buf ≡ some m → IsParsed buf m
parse-IsParsed past buf {m} e =
    let p : Parsed buf (parse past buf) = rw (parse_lem past buf) (
      split_on-Parsed past buf (scan_method (at_start register) buf)
        (scan_method-IsInside buf (at_start register) buf ([], refl))) in
    rw e at p
