-- ===== src/Sip/Headers/Fields.antt =====
-- The header fields of a message, as a description of its header lines that is independent of the code,
-- and what each direction is to make of them.
use svoiptunnel.Base.{
  ℕ, ◌≡◌, false, List, [], ◌∷◌, ◌++◌, Bytes, codes, is_empty, has_prefix, same, some, if◌then◌else◌,
}
use svoiptunnel.Sip.Boost.{Boost, grep_one, grep_two}
use svoiptunnel.Sip.Lines.{print_lines, IsLine}
use svoiptunnel.Sip.Media.{World}
use svoiptunnel.Sip.Headers.{Headers, append_text, host_or_default, via_line, pred_int}

-- Numbers stand with the text that spells them. A field with no meaning here is `plain`.
pub data Field : Type 0 where
  plain via content_type call_id : Bytes → Field
  to : Bytes → Bytes → Field
  content_length max_forwards : Bytes → ℕ → Field
  cseq : Bytes → ℕ → Bytes → Field

abbrev pub print_field : Field → Bytes
print_field (plain line) = line
print_field (via rest) = codes "Via:" ++ rest
print_field (content_type v) = codes "Content-Type: " ++ v
print_field (call_id v) = codes "Call-ID: " ++ v
print_field (to user host) = codes "To: <" ++ user ++ codes "@" ++ host ++ codes ">"
print_field (content_length text n) = codes "Content-Length: " ++ text
print_field (max_forwards text n) = codes "Max-Forwards: " ++ text
print_field (cseq text n ref) = codes "CSeq: " ++ text ++ codes " " ++ ref

abbrev pub print_fields : List Field → List Bytes
print_fields [] = []
print_fields (f ∷ fs) = print_field f ∷ print_fields fs

-- A line that begins with none of the names.
abbrev pub IsPlain : Bytes → Type 0
IsPlain line =
    (has_prefix (codes "To:") line ≡ false)
    × (has_prefix (codes "Via:") line ≡ false)
    × (has_prefix (codes "Max-Forwards:") line ≡ false)
    × (has_prefix (codes "Content-Type:") line ≡ false)
    × (has_prefix (codes "Content-Length:") line ≡ false)
    × (has_prefix (codes "Call-ID:") line ≡ false)
    × (has_prefix (codes "CSeq:") line ≡ false)

-- `regex_match` finds the sub-matches.
abbrev pub Finds : Boost → Bytes → Bytes → List Bytes → Type 0
Finds boost regx line parts = boost.regex_match regx line ≡ some (line ∷ parts)

-- What boost makes of a field is what the field says.
abbrev pub IsRead : Boost → Field → Type 0
IsRead boost (plain line) = IsPlain line
IsRead boost (via rest) = Unit
IsRead boost (content_type v) =
    Finds boost (codes "^Content-Type:\\s+(\\S+)") (codes "Content-Type: " ++ v) (v ∷ [])
IsRead boost (call_id v) =
    Finds boost (codes "^Call-ID:\\s+(\\S+).*") (codes "Call-ID: " ++ v) (v ∷ [])
IsRead boost (to user host) =
    Finds boost (codes "^To:\\s<(\\S+)>.*") (print_field (to user host))
      ((user ++ codes "@" ++ host) ∷ [])
    × (boost.split b'@' (user ++ codes "@" ++ host) ≡ user ∷ host ∷ [])
IsRead boost (content_length text n) =
    Finds boost (codes "^Content-Length:\\s+(\\d+)") (codes "Content-Length: " ++ text) (text ∷ [])
    × (boost.to_unsigned text ≡ some n)
IsRead boost (max_forwards text n) =
    Finds boost (codes "^Max-Forwards:\\s+(\\S+).*") (codes "Max-Forwards: " ++ text) (text ∷ [])
    × (boost.to_int text ≡ some n)
IsRead boost (cseq text n ref) =
    Finds boost (codes "^CSeq:\\s*(\\d*)\\s*(\\S*)") (print_field (cseq text n ref))
      (text ∷ ref ∷ [])
    × (boost.to_unsigned text ≡ some n)

-- A field that stands on a line and is read as it says.
abbrev pub IsField : Boost → Field → Type 0
IsField boost f = IsLine (print_field f) × (is_empty (print_field f) ≡ false) × IsRead boost f

pub grep_one-Finds :
    (boost : Boost) (regx line v : Bytes)
    → Finds boost regx line (v ∷ [])
    → grep_one boost regx line ≡ some v
unfolding grep_one
grep_one-Finds boost regx line v h = rw (h, grep_one)

pub grep_two-Finds :
    (boost : Boost) (regx line v u : Bytes)
    → Finds boost regx line (v ∷ u ∷ [])
    → grep_two boost regx line ≡ some (v, u)
unfolding grep_two
grep_two-Finds boost regx line v u h = rw (h, grep_two)

-- What the loop remembers of a field, and what it passes on in its place.
abbrev pub remembers : Field → Headers → Headers
remembers (content_type v) h = record h { content_type = v }
remembers (call_id v) h = record h { call_id = v }
remembers (content_length text n) h = record h { content_length = n }
remembers _ h = h

abbrev pub passes_on : List Bytes → Headers → Headers
passes_on lines h = append_text (print_lines lines []) h

module _ (w : World) (vpn_id : Bytes) (ch : ℕ) where
  -- A request that comes out of the tunnel: a Via line with the id of the link and the channel is put
  -- before each of its own, and an address with no host gets the default one.
  abbrev pub request_out : Field → List Bytes
  request_out (via rest) = via_line w vpn_id ch ∷ (codes "Via:" ++ rest) ∷ []
  request_out (to user host) = print_field (to user (host_or_default w host)) ∷ []
  request_out (content_type v) = []
  request_out (content_length text n) = []
  request_out f = print_field f ∷ []

  abbrev pub addressed : Field → Headers → Headers
  addressed (to user host) h = record h { to_addr = host_or_default w host }
  addressed _ h = h

  abbrev pub outgoing_field : Headers → Field → Headers
  outgoing_field h f = passes_on (request_out f) (addressed f (remembers f h))

  abbrev pub outgoing_fields : Headers → List Field → Headers
  outgoing_fields h [] = h
  outgoing_fields h (f ∷ fs) = outgoing_fields (outgoing_field h f) fs

module _ (w : World) where
  -- A request that goes into the tunnel: this host's name is taken out of an address, and the number
  -- of hops is one less.
  abbrev pub request_in : Field → List Bytes
  request_in (to user host) =
      (if same host w.local_ip
        then codes "To: <" ++ user ++ codes "@>"
        else print_field (to user host))
      ∷ []
  request_in (max_forwards text n) = (codes "Max-Forwards: " ++ w.boost.show_int (pred_int n)) ∷ []
  request_in (content_type v) = []
  request_in (content_length text n) = []
  request_in f = print_field f ∷ []

  abbrev pub incoming_field : Headers → Field → Headers
  incoming_field h f = passes_on (request_in f) (remembers f h)

  abbrev pub incoming_fields : Headers → List Field → Headers
  incoming_fields h [] = h
  incoming_fields h (f ∷ fs) = incoming_fields (incoming_field h f) fs

-- What the loop remembers of a field of a response.
abbrev pub notes : Field → Headers → Headers
notes (cseq text n ref) h = record h { cseq = n; cseq_ref = ref }
notes f h = remembers f h

-- A response that goes into the tunnel, behind its first Via line.
abbrev pub response_in : Field → List Bytes
response_in (content_type v) = []
response_in (content_length text n) = []
response_in f = print_field f ∷ []

abbrev pub response_field : Headers → Field → Headers
response_field h f = passes_on (response_in f) (notes f h)

abbrev pub response_fields : Headers → List Field → Headers
response_fields h [] = h
response_fields h (f ∷ fs) = response_fields (response_field h f) fs
