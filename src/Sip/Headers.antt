-- ===== src/Sip/Headers.antt =====
-- The header lines of a SIP message: the loops of `processIncoming`, from a phone to the tunnel, and of
-- `processOutgoing`, from the tunnel to a phone, in svoiptunnel/sipserver.cpp. The names of the headers
-- are those of svoiptunnel/sipmessage.h.
pub mod Fields
pub mod Reading
pub mod Inward
pub mod Returning
pub mod Outward
use svoiptunnel.Base.{
  ℕ, ◌+◌, ◌-◌, ◌%◌, ◌^◌, Bool, true, false, not, ◌&&◌, List, [], ◌∷◌, ◌++◌, Bytes, codes, same,
  is_empty, has_prefix, Option, none, some, Outcome, ok, fails, bad_lexical_cast, ◌>>=◌,
  if◌then◌else◌, ◌==◌,
}
use svoiptunnel.Setup.Config.{value_string}
use svoiptunnel.Sip.Boost.{Boost, grep_one, grep_two}
use svoiptunnel.Sip.Lines.{crlf, Round, next, stop, walk}
use svoiptunnel.Sip.Media.{World}
use svoiptunnel.Sip.Message.{Message}

-- The variables of the loop: `sTransMsg`, and what is picked out of the lines. `to_addr` is `sTo`,
-- `branch` is `endpointId`.
pub record Headers : Type 0 where
  pub out : Bytes
  pub content_type : Bytes
  pub content_length : ℕ
  pub to_addr : Bytes
  pub call_id : Bytes
  pub cseq : ℕ
  pub cseq_ref : Bytes
  pub via_found : Bool
  pub branch : Bytes

abbrev pub no_headers : Bytes → Headers
no_headers start_line = record {
  out = start_line;
  content_type = [];
  content_length = 0;
  to_addr = [];
  call_id = [];
  cseq = 0;
  cseq_ref = [];
  via_found = false;
  branch = [];
}

-- `sTransMsg.append( … )`
abbrev pub append_text : Bytes → Headers → Headers
append_text text h = record h { out = h.out ++ text }

-- `sTransMsg.append( pLine, lineLen + 2 )`: the line with its CR LF.
abbrev pub keep_line : Bytes → Headers → Headers
keep_line line h = append_text (line ++ crlf) h

module _ (boost : Boost) where
  unfoldable pub read_content_type : Headers → Bytes → Headers
  unfolding grep_one
  read_content_type h line = elim (grep_one boost (codes "^Content-Type:\\s+(\\S+)") line) [
    | none ↦ h
    | some v ↦ record h { content_type = v }
  ]

  unfoldable pub read_content_length : Headers → Bytes → Outcome Headers
  unfolding grep_one
  read_content_length h line = elim (grep_one boost (codes "^Content-Length:\\s+(\\d+)") line) [
    | none ↦ ok h
    | some v ↦ elim (boost.to_unsigned v) [
      | none ↦ fails bad_lexical_cast
      | some n ↦ ok (record h { content_length = n })
    ]
  ]

  unfoldable pub read_call_id : Headers → Bytes → Headers
  unfolding grep_one
  read_call_id h line = elim (grep_one boost (codes "^Call-ID:\\s+(\\S+).*") line) [
    | none ↦ keep_line line h
    | some v ↦ keep_line line (record h { call_id = v })
  ]

  unfoldable pub read_cseq : Headers → Bytes → Outcome Headers
  unfolding grep_two
  read_cseq h line = elim (grep_two boost (codes "^CSeq:\\s*(\\d*)\\s*(\\S*)") line) [
    | none ↦ ok (keep_line line h)
    | some (number, ref) ↦ elim (boost.to_unsigned number) [
      | none ↦ fails bad_lexical_cast
      | some n ↦ ok (keep_line line (record h { cseq = n; cseq_ref = ref }))
    ]
  ]

  -- The branch of the first Via line.
  unfoldable pub read_via : Headers → Bytes → Headers
  unfolding grep_one
  read_via h line = elim (grep_one boost (codes "^Via:.*;branch=([^; ]+).*$") line) [
    | none ↦ record h { via_found = true }
    | some v ↦ record h { via_found = true; branch = v }
  ]

-- The user of an address at this host.
abbrev pub user_at : Bytes → List Bytes → Option Bytes
user_at host (user ∷ domain ∷ []) = if same domain host then some user else none
user_at host _ = none

-- The two parts of an address.
abbrev pub two_parts : List Bytes → Option (Bytes × Bytes)
two_parts (user ∷ domain ∷ []) = some (user, domain)
two_parts _ = none

abbrev pub lift_next {ℓ} : {R : Type ℓ} → Outcome Headers → Outcome (Round Headers R)
lift_next m = m >>= λ h. ok (next h)

-- The answer where the message may not be passed on: the end of the loop.
abbrev pub too_many_hops : Bytes → Bytes
too_many_hops body = codes "SIP/2.0 483 Too Many Hops\r\n" ++ body

-- `--fw` of an `int`, by its 32 bits.
abbrev pub pred_int : ℕ → ℕ
pred_int fw = (fw + 2 ^ 32 - 1) % 2 ^ 32

module _ (w : World) where
  -- `To:` of a request from a phone. A line that does not match is left out.
  unfoldable pub incoming_to : Headers → Bytes → Headers
  unfolding grep_one
  incoming_to h line = elim (grep_one w.boost (codes "^To:\\s<(\\S+)>.*") line) [
    | none ↦ h
    | some to ↦ elim (user_at w.local_ip (w.boost.split b'@' to)) [
      | none ↦ keep_line line h
      | some user ↦ append_text (codes "To: <" ++ user ++ codes "@>\r\n") h
    ]
  ]

  unfoldable pub incoming_max_forwards : Bytes → Headers → Bytes → Outcome (Round Headers Bytes)
  unfolding grep_one
  incoming_max_forwards body h line =
      elim (grep_one w.boost (codes "^Max-Forwards:\\s+(\\S+).*") line) [
        | none ↦ ok (next h)
        | some v ↦ elim (w.boost.to_int v) [
          | none ↦ fails bad_lexical_cast
          | some fw ↦
              if fw == 0
              then ok (stop (too_many_hops body))
              else ok (
                  next (
                    append_text (codes "Max-Forwards: " ++ w.boost.show_int (pred_int fw) ++ crlf)
                      h))
        ]
      ]

  -- One round of the loop in `processIncoming`; `body` is the message behind its start line.
  unfoldable pub incoming_line : Message → Headers → Bytes → Outcome (Round Headers Bytes)
  unfolding incoming_to incoming_max_forwards read_content_type read_content_length read_call_id
      read_via read_cseq
  incoming_line m h line =
      if m.is_request && has_prefix (codes "To:") line
      then ok (next (incoming_to h line))
      else if m.is_request && has_prefix (codes "Max-Forwards:") line
      then incoming_max_forwards m.body h line
      else if has_prefix (codes "Content-Type:") line
      then ok (next (read_content_type w.boost h line))
      else if has_prefix (codes "Content-Length:") line
      then lift_next (read_content_length w.boost h line)
      else if has_prefix (codes "Call-ID:") line
      then ok (next (read_call_id w.boost h line))
      else if not m.is_request && not h.via_found && has_prefix (codes "Via:") line
      then ok (next (read_via w.boost h line))
      else if not m.is_request && has_prefix (codes "CSeq:") line
      then lift_next (read_cseq w.boost h line)
      else ok (next (keep_line line h))

  unfoldable pub scan_incoming : Message → Outcome (Round (Headers × Bytes) Bytes)
  unfolding incoming_line walk
  scan_incoming m = walk is_empty (incoming_line m) (no_headers m.start_line) [] m.body

  -- The host of an address, or that of the configuration where it is empty.
  abbrev pub host_or_default : Bytes → Bytes
  host_or_default host =
      if is_empty host then value_string w.items (codes "defaultsipserver") [] else host

  -- `To:` of a request from the tunnel. `sTo` is set also where the address has not two parts.
  unfoldable pub outgoing_to : Headers → Bytes → Headers
  unfolding grep_one value_string
  outgoing_to h line = elim (grep_one w.boost (codes "^To:\\s<(\\S+)>.*") line) [
    | none ↦ h
    | some to ↦ elim (two_parts (w.boost.split b'@' to)) [
      | none ↦ keep_line line (record h { to_addr = to })
      | some (user, host) ↦
          append_text (codes "To: <" ++ user ++ codes "@" ++ host_or_default host ++ codes ">\r\n")
            (record h { to_addr = host_or_default host })
    ]
  ]

  -- `z9hG4bK-<vpnid>-<ch>`
  unfoldable pub branch_of : Bytes → ℕ → Bytes
  branch_of vpn_id ch = codes "z9hG4bK-" ++ vpn_id ++ codes "-" ++ w.boost.show ch

  unfoldable pub via_line : Bytes → ℕ → Bytes
  unfolding branch_of
  via_line vpn_id ch =
      codes "Via: SIP/2.0/UDP "
      ++ (w.public_ip ++ codes ":" ++ w.boost.show w.sip_port)
      ++ codes ";rport;branch="
      ++ branch_of vpn_id ch

  -- One round of the loop in `processOutgoing`, with the id of the link and the channel.
  unfoldable pub outgoing_line : Bytes → ℕ → Message → Headers → Bytes → Outcome (Round Headers ⊥)
  unfolding outgoing_to via_line read_content_type read_content_length read_call_id read_cseq
  outgoing_line vpn_id ch m h line =
      if m.is_request && has_prefix (codes "To:") line
      then ok (next (outgoing_to h line))
      else if m.is_request && has_prefix (codes "Via:") line
      then ok (next (keep_line line (keep_line (via_line vpn_id ch) h)))
      else if has_prefix (codes "Content-Type:") line
      then ok (next (read_content_type w.boost h line))
      else if has_prefix (codes "Content-Length:") line
      then lift_next (read_content_length w.boost h line)
      else if has_prefix (codes "Call-ID:") line
      then ok (next (read_call_id w.boost h line))
      else if not m.is_request && has_prefix (codes "CSeq:") line
      then lift_next (read_cseq w.boost h line)
      else ok (next (keep_line line h))

  unfoldable pub scan_outgoing : Bytes → ℕ → Message → Outcome (Round (Headers × Bytes) ⊥)
  unfolding outgoing_line walk
  scan_outgoing vpn_id ch m =
      walk is_empty (outgoing_line vpn_id ch m) (no_headers m.start_line) [] m.body
