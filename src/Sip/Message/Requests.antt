-- ===== src/Sip/Message/Requests.antt =====
-- Which first lines `parse` takes for a request.
use svoiptunnel.Base.{
  ℕ, zero, suc, ◌-◌, ◌≤◌, ◌≡◌, ◌≢◌, refl, Bool, true, false, [], ◌∷◌, ◌++◌, arith, Bytes, length,
  take, take_before, take_all, some, Bool-cases, inl, inr, ◌||◌, ◌==◌, ◌∙◌, append_assoc, sym, ap,
}
use svoiptunnel.Sip.Message.{
  Method, register, invite, ack, cancel, bye, options, unknown, method_name, next_method, Cursor,
  at_start, is_unknown, seek, head_or_nul, scan_method, skip_to, finish, parse, no_code,
}

-- No line feed in the text.
abbrev pub IsLine : Bytes → Type 0
IsLine [] = Unit
IsLine (c ∷ t) = (c ≢ b'\n') × IsLine t

-- How many methods `++method` has still to go through.
left : Method → ℕ
left register = 6
left invite = 5
left ack = 4
left cancel = 3
left bye = 2
left options = 1
left unknown = 0

left-next : (m : Method) → left (next_method m) ≡ left m - 1
unfolding left next_method
left-next register = refl
left-next _ = refl

left-unknown : (m : Method) → left m ≡ 0 → is_unknown m ≡ true
unfolding left
left-unknown unknown h = refl
left-unknown _ h = absurd (omega arith)

abbrev Settled : ℕ → Cursor → Type 0
Settled c k = (is_unknown k.method || (c == head_or_nul k.word)) ≡ true

seek_fuel : (fuel c : ℕ) (k : Cursor) → left k.method ≤ fuel → Settled c (seek fuel c k)
unfolding seek
seek_fuel zero c k h = rw (left-unknown k.method (omega arith))
seek_fuel (suc fuel) c k h = elim (Bool-cases (is_unknown k.method || (c == head_or_nul k.word))) [
  | inl e ↦ rw e e
  | inr e ↦
      rw e (seek_fuel fuel c (at_start (next_method k.method)) (omega (arith, left-next k.method)))
]

left-le : (m : Method) → left m ≤ 6
unfolding left
left-le register = omega arith
left-le _ = omega arith

-- The inner loop ends by its own test: six rounds are enough, from any method.
seek_settles :
    (c : ℕ) (k : Cursor)
    → (is_unknown (seek 6 c k).method || (c == head_or_nul (seek 6 c k).word)) ≡ true
seek_settles c k = seek_fuel 6 c k (left-le k.method)

pub skip_to-IsLine : (t rest : Bytes) → IsLine t → skip_to b'\n' (t ++ b'\n' ∷ rest) ≡ b'\n' ∷ rest
unfolding skip_to
skip_to-IsLine [] rest h = refl
skip_to-IsLine (c ∷ t) rest h = ground (arith, skip_to-IsLine t rest h.1)

-- The text up to the line feed is the start line, the rest the body.
pub finish_line :
    (line body : Bytes) (request success : Bool) (code : Bytes) (m : Method)
    → finish (line ++ b'\n' ∷ body) (b'\n' ∷ body) request success code m ≡ record {
      is_request = request;
      is_success = success;
      resp_code = code;
      start_line = line ++ b'\n' ∷ [];
      body = body;
      method = m;
    }
unfolding finish
finish_line line body request success code m =
    ap
      (λ (s : Bytes). record {
        is_request = request;
        is_success = success;
        resp_code = code;
        start_line = s;
        body = body;
        method = m;
      })
      (rw (sym (append_assoc line (b'\n' ∷ []) body)) (take_before (line ++ b'\n' ∷ []) body))

scan_method_done :
    (m : Method) (rest : Bytes)
    → scan_method (record { method = m; word = [] }) rest ≡ (record { method = m; word = [] }, rest)
unfolding scan_method
scan_method_done m [] = refl
scan_method_done m (c ∷ rest) = ground arith

scan_method_name :
    (m : Method) (rest : Bytes)
    → m ≢ unknown
    → scan_method (at_start register) (method_name m ++ rest)
      ≡ scan_method (record { method = m; word = [] }) rest
unfolding scan_method
scan_method_name register rest h = refl
scan_method_name unknown rest h = absurd (h refl)
scan_method_name _ rest h = refl

known : (m : Method) → m ≢ unknown → is_unknown m ≡ false
known m h = ground arith

parse_known :
    (past : ℕ) (buf : Bytes) (k : Cursor) (at : Bytes)
    → scan_method (at_start register) buf ≡ (k, at)
    → is_unknown k.method ≡ false
    → parse past buf ≡ some (finish buf (skip_to b'\n' at) true false no_code k.method)
unfolding parse
parse_known past buf k at e u = rw (e, u)

-- A first line that begins with the name of a method is a request of that method; it ends at the
-- first line feed, and the body is what follows, unchanged.
pub parse-request :
    (past : ℕ) (m : Method) (text body : Bytes)
    → m ≢ unknown
    → IsLine text
    → parse past (method_name m ++ text ++ b'\n' ∷ body)
      ≡ some (record {
        is_request = true;
        is_success = false;
        resp_code = no_code;
        start_line = (method_name m ++ text) ++ b'\n' ∷ [];
        body = body;
        method = m;
      })
parse-request past m text body h line =
    parse_known past (method_name m ++ text ++ b'\n' ∷ body) (record { method = m; word = [] })
      (text ++ b'\n' ∷ body)
      (rw (append_assoc (method_name m) text (b'\n' ∷ body))
        (scan_method_name m (text ++ b'\n' ∷ body) h ∙ scan_method_done m (text ++ b'\n' ∷ body)))
      (known m h)
    ∙ rw (skip_to-IsLine text body line)
        (ap some (finish_line (method_name m ++ text) body true false no_code m))

-- The method that the scan makes of the first `n` letters of a method's name.
pub cut : (m : Method) → ℕ → Method
cut m zero = register
cut m (suc n) = m

cut-known : (m : Method) (n : ℕ) → m ≢ unknown → is_unknown (cut m n) ≡ false
unfolding cut
cut-known m zero h = refl
cut-known m (suc n) h = known m h

length-method_name : (m : Method) → length (method_name m) ≤ 8
unfolding method_name
length-method_name register = omega arith
length-method_name _ = omega arith

scan_method_long :
    (m : Method) (n : ℕ) (body : Bytes)
    → m ≢ unknown
    → 8 ≤ n
    → scan_method (at_start register) (take n (method_name m) ++ b'\n' ∷ body)
      ≡ (record { method = m; word = [] }, b'\n' ∷ body)
scan_method_long m n body h long =
    rw (take_all n (method_name m) (omega (arith, length-method_name m)))
      (scan_method_name m (b'\n' ∷ body) h ∙ scan_method_done m (b'\n' ∷ body))

scan_method-cut :
    (m : Method) (n : ℕ) (body : Bytes)
    → m ≢ unknown
    → (w : Bytes) × (scan_method (at_start register) (take n (method_name m) ++ b'\n' ∷ body)
        ≡ (record { method = cut m n; word = w }, b'\n' ∷ body))
unfolding scan_method cut
scan_method-cut register zero body h = (_, refl)
scan_method-cut unknown n body h = absurd (h refl)
scan_method-cut _ zero body h = (_, refl)
scan_method-cut _ (suc zero) body h = (_, refl)
scan_method-cut _ (suc (suc zero)) body h = (_, refl)
scan_method-cut _ (suc (suc (suc zero))) body h = (_, refl)
scan_method-cut _ (suc (suc (suc (suc zero)))) body h = (_, refl)
scan_method-cut _ (suc (suc (suc (suc (suc zero))))) body h = (_, refl)
scan_method-cut _ (suc (suc (suc (suc (suc (suc zero)))))) body h = (_, refl)
scan_method-cut _ (suc (suc (suc (suc (suc (suc (suc zero))))))) body h = (_, refl)
scan_method-cut m (suc (suc (suc (suc (suc (suc (suc (suc n)))))))) body h =
    ([], scan_method_long m (suc (suc (suc (suc (suc (suc (suc (suc n)))))))) body h (omega arith))

-- A first line that breaks off inside a method's name is a request of that method all the same, and
-- an empty first line is a REGISTER.
pub parse-truncated :
    (past : ℕ) (m : Method) (n : ℕ) (body : Bytes)
    → m ≢ unknown
    → parse past (take n (method_name m) ++ b'\n' ∷ body)
      ≡ some (record {
        is_request = true;
        is_success = false;
        resp_code = no_code;
        start_line = take n (method_name m) ++ b'\n' ∷ [];
        body = body;
        method = cut m n;
      })
parse-truncated past m n body h =
    let (w, e) = scan_method-cut m n body h in
    parse_known past (take n (method_name m) ++ b'\n' ∷ body)
      (record { method = cut m n; word = w }) (b'\n' ∷ body) e (cut-known m n h)
    ∙ rw (skip_to-IsLine [] body tt)
        (ap some (finish_line (take n (method_name m)) body true false no_code (cut m n)))
