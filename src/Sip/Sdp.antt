-- ===== src/Sip/Sdp.antt =====
-- The session descriptions in svoiptunnel/sipcall.cpp: `processIncomingSDP`, which opens a data
-- connection for each medium of a phone, and `processOutgoingSDP`, which puts the ports of this host
-- into a description from the tunnel.
use svoiptunnel.Base.{
  ℕ, ◌+◌, Bool, true, false, not, ◌&&◌, [], ◌++◌, Bytes, codes, is_empty, has_prefix, Option, none,
  some, Outcome, ok, fails, bad_lexical_cast, ◌>>=◌, if◌then◌else◌,
}
use svoiptunnel.Vpn.Node.{Sent}
use svoiptunnel.Sip.Boost.{Boost, grep_two, reg_replace}
use svoiptunnel.Sip.Lines.{crlf, Round, next, stop, walk}
use svoiptunnel.Sip.Media.{World, Server, SipCall, add_data_port}

-- The server and the call, with what has been sent, and the variables of `processIncomingSDP`.
pub record Incoming : Type 0 where
  pub server : Server
  pub call : SipCall
  pub sent : Sent
  pub media_idx : ℕ
  pub check_default : Bool
  pub c_line : Bytes
  pub m_line : Bytes
  pub default_addr : Bytes
  pub have_version : Bool

-- None: the line does not match. The port is read where it does.
unfoldable pub process_m_line : Boost → Bytes → Outcome (Option ℕ)
unfolding grep_two
process_m_line boost line = elim (grep_two boost (codes "^m=\\S+\\s+(\\d+)\\s+(.*)") line) [
  | none ↦ ok none
  | some (port, _) ↦ elim (boost.to_ushort port) [
    | none ↦ fails bad_lexical_cast
    | some n ↦ ok (some n)
  ]
]

unfoldable pub process_c_line : Boost → Bytes → Option Bytes
unfolding grep_two
process_c_line boost line = elim (grep_two boost (codes "^c=IN\\s+(\\S+)\\s+(\\S+)") line) [
  | none ↦ none
  | some (_, addr) ↦ some addr
]

-- No line ends the loop.
abbrev pub never : Bytes → Bool
never line = false

module _ (w : World) where
  unfoldable pub add_medium : Bytes → ℕ → Incoming → Outcome Incoming
  unfolding add_data_port
  add_medium addr port x = add_data_port w x.server x.call addr port x.media_idx >>= λ r.
      ok (record x {
        server = r.0;
        call = r.1;
        sent = x.sent ++ r.2;
        media_idx = x.media_idx + 1;
        check_default = false;
      })

  -- The port of the pending `m=` line, with its own address or the default one. (The flag is not
  -- used behind the loop, where the code leaves it.)
  unfoldable pub flush_medium : Incoming → Outcome Incoming
  unfolding add_medium process_m_line process_c_line
  flush_medium x = process_m_line w.boost x.m_line >>= λ m. elim m as (λ _. Outcome Incoming) [
    | none ↦ ok x
    | some port ↦
        if is_empty x.c_line
        then add_medium x.default_addr port x
        else elim (process_c_line w.boost x.c_line) as (λ _. Outcome Incoming) [
          | none ↦ ok x
          | some addr ↦ add_medium addr port x
        ]
  ]

  unfoldable pub default_c_line : Incoming → Bytes → Incoming
  unfolding process_c_line
  default_c_line x line = elim (process_c_line w.boost line) [
    | none ↦ x
    | some addr ↦ record x { default_addr = addr; check_default = false }
  ]

  unfoldable pub next_m_line : Incoming → Bytes → Outcome Incoming
  unfolding flush_medium
  next_m_line x line =
      if is_empty x.m_line
      then ok (record x { m_line = line })
      else flush_medium x >>= λ y. ok (record y { c_line = []; m_line = line })

  -- One round. The comparison with "v=0" has no guard for the length, but no line that is shorter, with
  -- the CR behind it, is equal to it.
  unfoldable pub incoming_sdp_line : Incoming → Bytes → Outcome (Round Incoming Incoming)
  unfolding default_c_line next_m_line
  incoming_sdp_line x line =
      if not x.have_version && not (has_prefix (codes "v=0") line)
      then ok (stop x)
      else if has_prefix (codes "c=") line
      then (if x.check_default
          then ok (next (default_c_line (record x { have_version = true }) line))
          else ok (next (record x { have_version = true; c_line = line })))
      else if has_prefix (codes "m=") line
      then (next_m_line (record x { have_version = true }) line >>= λ y. ok (next y))
      else ok (next (record x { have_version = true }))

  -- Behind the loop.
  abbrev pub last_medium : Round (Incoming × Bytes) Incoming → Incoming
  last_medium (next (x, rest)) = x
  last_medium (stop x) = x

  abbrev pub start_incoming : Server → SipCall → Incoming
  start_incoming s c = record {
    server = s;
    call = c;
    sent = [];
    media_idx = 0;
    check_default = true;
    c_line = [];
    m_line = [];
    default_addr = [];
    have_version = false;
  }

  -- The content length that it returns is that of the description, which is not changed.
  unfoldable pub process_incoming_sdp : Server → SipCall → Bytes → Outcome Incoming
  unfolding incoming_sdp_line flush_medium walk
  process_incoming_sdp s c body = walk never incoming_sdp_line (start_incoming s c) [] body >>= λ r.
      if is_empty (last_medium r).m_line then ok (last_medium r) else flush_medium (last_medium r)

-- The variables of `processOutgoingSDP`; `out` is `sTransMsg`.
pub record Outgoing : Type 0 where
  pub server : Server
  pub call : SipCall
  pub sent : Sent
  pub media_idx : ℕ
  pub out : Bytes

module _ (w : World) where
  abbrev pub add_text : Bytes → Outgoing → Outgoing
  add_text text x = record x { out = x.out ++ text }

  -- The `m=` line with the port in place of its own.
  unfoldable pub replace_port : Bytes → ℕ → Bytes
  unfolding reg_replace
  replace_port line port =
      reg_replace w.boost (codes "^(m=\\S*\\s)(\\d*)(\\s.*)") line
        (codes "\\1" ++ w.boost.show port ++ codes "\\3" ++ crlf)

  unfoldable pub outgoing_m_line : Outgoing → Bytes → Outcome Outgoing
  unfolding add_data_port replace_port
  outgoing_m_line x line = add_data_port w x.server x.call [] 0 x.media_idx >>= λ r. ok (record {
    server = r.0;
    call = r.1;
    sent = x.sent ++ r.2;
    media_idx = x.media_idx + 1;
    out = x.out ++ replace_port line r.3;
  })

  unfoldable pub outgoing_sdp_line : Outgoing → Bytes → Outcome (Round Outgoing ⊥)
  unfolding outgoing_m_line
  outgoing_sdp_line x line =
      if has_prefix (codes "c=") line
      then ok (next (add_text (codes "c=IN IP4 " ++ w.public_ip ++ crlf) x))
      else if has_prefix (codes "m=") line
      then (outgoing_m_line x line >>= λ y. ok (next y))
      else ok (next (add_text (line ++ crlf) x))

  abbrev pub start_outgoing : Server → SipCall → Outgoing
  start_outgoing s c = record { server = s; call = c; sent = []; media_idx = 0; out = [] }

  -- The last state has the description that it returns.
  unfoldable pub process_outgoing_sdp :
      Server → SipCall → Bytes → Outcome (Round (Outgoing × Bytes) ⊥)
  unfolding outgoing_sdp_line walk
  process_outgoing_sdp s c body = walk never outgoing_sdp_line (start_outgoing s c) [] body
