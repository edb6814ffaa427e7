-- ===== src/Sip/Message/Responses.antt =====
-- Which first lines `parse` takes for a response, and the code that it reads from them.
use svoiptunnel.Base.{
  ℕ, zero, suc, ◌-◌, ◌≤◌, ◌≡◌, ◌≢◌, refl, true, false, [], ◌∷◌, ◌++◌, arith, Bytes, codes, length,
  replicate, none, some, ◌==◌, ◌∙◌, append_assoc, ap, if◌then◌else◌, All, ◌↔◌,
}
use svoiptunnel.Sip.Message.Requests.{IsLine, skip_to-IsLine, finish_line}
use svoiptunnel.Sip.Message.{
  unknown, head_or_nul, rest_of, is_digit, peek, scan_method, skip_to, scan_code, finish, parse,
  parse_response, accept_code,
}

abbrev pub IsDigits : Bytes → Type 0
IsDigits = All (λ c. is_digit c ≡ true)

-- The code of a response: the digits that are there, filled up with '0'.
abbrev pub padded : Bytes → Bytes
padded ds = ds ++ replicate (3 - length ds) b'0'

scan_code-IsDigits :
    (n : ℕ) (ds rest : Bytes)
    → IsDigits ds
    → length ds ≤ n
    → scan_code n (ds ++ b' ' ∷ rest) ≡ some (ds ++ replicate (n - length ds) b'0', b' ' ∷ rest)
unfolding scan_code
scan_code-IsDigits zero [] rest d h = refl
scan_code-IsDigits zero (x ∷ ds) rest d h = absurd (omega arith)
scan_code-IsDigits (suc n) [] rest d h = let e : suc n - 0 ≡ suc n = omega arith in rw e
scan_code-IsDigits (suc n) (x ∷ ds) rest d h =
    let e : suc n - suc (length ds) ≡ n - length ds = omega arith in
    rw e (ground (arith, scan_code-IsDigits n ds rest d.1))

-- The digits of a code that ends the buffer.
scan_code_end : (n : ℕ) (ds : Bytes) → IsDigits ds → length ds ≡ n → scan_code n ds ≡ some (ds, [])
unfolding scan_code
scan_code_end zero [] d h = refl
scan_code_end zero (x ∷ ds) d h = absurd (omega arith)
scan_code_end (suc n) [] d h = absurd (omega arith)
scan_code_end (suc n) (x ∷ ds) d h = ground (arith, scan_code_end n ds d.1)

-- A first line that begins with "SIP" is no request.
parse_sip :
    (past : ℕ) (rest : Bytes)
    → parse past (b'S' ∷ rest) ≡ parse_response past (b'S' ∷ rest) (b'S' ∷ rest)
unfolding parse scan_method
parse_sip past rest = refl

responded :
    (past : ℕ) (buf at code end : Bytes)
    → scan_code 3 (rest_of (skip_to b' ' at)) ≡ some (code, end)
    → peek past end ≡ b' '
    → parse_response past buf at
      ≡ some (finish buf (skip_to b'\n' end) false (head_or_nul code == b'2') code unknown)
unfolding parse_response accept_code
responded past buf at code end e p = rw (e, p)

code_read :
    (ds reason body : Bytes)
    → IsDigits ds
    → length ds ≤ 3
    → scan_code 3
        (rest_of (skip_to b' ' ((codes "SIP/2.0 " ++ (ds ++ b' ' ∷ reason)) ++ b'\n' ∷ body)))
      ≡ some (padded ds, b' ' ∷ (reason ++ b'\n' ∷ body))
unfolding skip_to
code_read ds reason body d h =
    rw (append_assoc ds (b' ' ∷ reason) (b'\n' ∷ body))
      (scan_code-IsDigits 3 ds (reason ++ b'\n' ∷ body) d h)

-- A response line is read as its code, up to three digits filled up with '0'; the code is a success
-- exactly if its first digit is 2. The start line ends at the first line feed, and the body is what
-- follows, unchanged.
pub parse-response :
    (past : ℕ) (ds reason body : Bytes)
    → IsDigits ds
    → length ds ≤ 3
    → IsLine reason
    → parse past ((codes "SIP/2.0 " ++ (ds ++ b' ' ∷ reason)) ++ b'\n' ∷ body)
      ≡ some (record {
        is_request = false;
        is_success = head_or_nul (padded ds) == b'2';
        resp_code = padded ds;
        start_line = (codes "SIP/2.0 " ++ (ds ++ b' ' ∷ reason)) ++ b'\n' ∷ [];
        body = body;
        method = unknown;
      })
parse-response past ds reason body d h line =
    parse_sip past _
    ∙ responded past _ _ (padded ds) (b' ' ∷ (reason ++ b'\n' ∷ body))
        (code_read ds reason body d h) refl
    ∙ rw (skip_to-IsLine (b' ' ∷ reason) body ((λ e. omega arith), line)) (
        ap some (
          finish_line (codes "SIP/2.0 " ++ (ds ++ b' ' ∷ reason)) body false
            (head_or_nul (padded ds) == b'2') (padded ds) unknown))

ended :
    (past : ℕ) (ds : Bytes)
    → IsDigits ds
    → length ds ≡ 3
    → parse_response past (codes "SIP/2.0 " ++ ds) (codes "SIP/2.0 " ++ ds) ≡ (
        if past == b' '
        then some (
            finish
              (codes "SIP/2.0 " ++ ds)
              (skip_to b'\n' [])
              false
              (head_or_nul ds == b'2')
              ds
              unknown)
        else none)
unfolding parse_response accept_code
ended past ds d h = unfold skip_to in rw (scan_code_end 3 ds d h)

-- A response that breaks off behind the third digit is accepted exactly if the byte behind the
-- buffer, which was not received, is a space.
pub parse_beyond_end :
    (past : ℕ) (ds : Bytes)
    → IsDigits ds
    → length ds ≡ 3
    → (parse past (codes "SIP/2.0 " ++ ds) ≡ none) ↔ (past ≢ b' ')
parse_beyond_end past ds d h =
    rw (parse_sip past (codes "IP/2.0 " ++ ds), ended past ds d h) (ground arith)
