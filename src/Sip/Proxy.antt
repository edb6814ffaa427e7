-- ===== src/Sip/Proxy.antt =====
-- `processIncoming` and `processOutgoing` of svoiptunnel/sipserver.cpp as a whole, and the calls that
-- the sockets and the links make on `sipserver`.
pub mod Answers
pub mod Requests
pub mod Descriptions
pub mod Inputs
pub mod Messages
pub mod Histories
pub mod Sound
pub mod Tracking
use svoiptunnel.Vpn.Endpoints.{endpoint_eq}
use svoiptunnel.Base.{
  ℕ, ◌%◌, ◌^◌, Bool, true, false, not, ◌&&◌, ◌||◌, List, [], ◌∷◌, ◌++◌, Bytes, codes, same,
  is_empty, length, Option, none, some, Outcome, ok, fails, bad_lexical_cast, dangling_pointer,
  ◌>>=◌, if◌then◌else◌, ◌==◌,
}
use svoiptunnel.Base.Dict.{bytes_eq, find}
use svoiptunnel.Setup.Config.{value_int}
use svoiptunnel.Vpn.Link.{
  Effect, transmit, on_connect, on_disconnect, on_signalling, on_receive_data, on_setup_data,
  schedule, unschedule,
}
use svoiptunnel.Vpn.Node.{Origin, self, at_client, Sent, send_signalling}
use svoiptunnel.Sip.Lines.{crlf, Round, next, stop}
use svoiptunnel.Sip.Media
use svoiptunnel.Sip.Media.{World, Server, SipCall, erase_call, put_call}
use svoiptunnel.Sip.Message.{Message, Method, invite, cancel, bye, parse, compare_code}
use svoiptunnel.Sip.Headers.{Headers, scan_incoming, scan_outgoing}
use svoiptunnel.Sip.Registry.{on_accept, touch, send_to, deliver}
use svoiptunnel.Sip.Sdp.{Outgoing, process_incoming_sdp, process_outgoing_sdp}

-- What a call makes go out: on a link, to the phone of a channel, or on a data connection.
pub data Action : Type 0 where
  tunnel : Origin → Effect → Action
  phone : ℕ → Bytes → Action
  media : ℕ → Bytes → Action

abbrev pub tunnelled : Sent → List Action
tunnelled [] = []
tunnelled ((o, e) ∷ more) = tunnel o e ∷ tunnelled more

abbrev pub phoned : List (ℕ × Bytes) → List Action
phoned [] = []
phoned ((ch, text) ∷ more) = phone ch text ∷ phoned more

abbrev pub played : List (ℕ × Bytes) → List Action
played [] = []
played ((ref, text) ∷ more) = media ref text ∷ played more

abbrev pub is_invite : Method → Bool
is_invite invite = true
is_invite _ = false

abbrev pub ends_call : Method → Bool
ends_call cancel = true
ends_call bye = true
ends_call _ = false

-- A response that does not report success, to a request that is no INVITE.
abbrev pub is_failure : Message → Headers → Bool
is_failure m h = not m.is_request && not m.is_success && not (same h.cseq_ref (codes "INVITE"))

-- The block on `_callMap` that both functions have; the link is that of a call that is made.
unfoldable pub pick_call : Origin → Message → Headers → Server → Outcome (Server × Option SipCall)
unfolding erase_call
pick_call link m h s =
    let found = find h.call_id s.calls in
    let fresh : SipCall = record { link = link; call_id = h.call_id; slots = [] } in
    if is_empty h.call_id
    then ok (s, none)
    else if ends_call m.method || is_failure m h
    then elim found as (λ _. Outcome (Server × Option SipCall)) [
      | none ↦ ok (s, none)
      | some c ↦ erase_call h.call_id c s >>= λ s'. ok (s', none)
    ]
    else elim found as (λ _. Outcome (Server × Option SipCall)) [
      | none ↦ if is_invite m.method then ok (put_call fresh s, some fresh) else ok (s, none)
      | some c ↦ ok (s, some c)
    ]

abbrev pub is_sdp : Headers → Bool
is_sdp h = same h.content_type (codes "application/sdp")

-- `getId()` of a link that is there.
abbrev pub id_at : Origin → Server → Outcome Bytes
id_at self s = ok s.node.link.id
id_at (at_client ep) s = elim (find ep s.node.clients) [
  | none ↦ fails dangling_pointer
  | some l ↦ ok l.id
]

-- What `processIncoming` makes of the three parts of a branch.
abbrev pub branch_parts : List Bytes → Option (Bytes × Bytes)
branch_parts (mark ∷ vpn_id ∷ ch ∷ []) =
    if same mark (codes "z9hG4bK") then some (vpn_id, ch) else none
branch_parts _ = none

abbrev pub trying : Bytes → Bytes
trying body = codes "SIP/2.0 100 Trying\r\n" ++ body

-- A provisional answer that is not passed on.
abbrev pub is_trying : Message → Bool
is_trying m = not m.is_request && not m.is_success && compare_code (codes "100") m

abbrev pub last_outgoing : Round (Outgoing × Bytes) ⊥ → Outgoing
last_outgoing (next (x, rest)) = x
last_outgoing (stop never) = absurd never

module _ (w : World) where
  -- The end of a message: its content type, if there is one, the length, and the content.
  unfoldable pub with_content : Headers → ℕ → Bytes → Bytes
  with_content h n content =
      h.out
      ++ (if is_empty h.content_type then [] else codes "Content-Type: " ++ h.content_type ++ crlf)
      ++ codes "Content-Length: "
      ++ w.boost.show n
      ++ crlf
      ++ crlf
      ++ content

  -- `sipendpoint::send`
  unfoldable pub phone_text : ℕ → Bytes → ℕ → Server → Outcome (Server × List Action)
  unfolding send_to
  phone_text ch text now s = send_to w.boost.show s.registry (some ch) text now >>= λ r.
      ok (record s { registry = r.0 }, phoned r.1)

  -- A request goes into the tunnel, and the phone is told so if it went.
  unfoldable pub send_request : ℕ → Bytes → ℕ → Bytes → Server → Outcome (Server × List Action)
  unfolding phone_text
  send_request ch body now text s = send_signalling s.node ch text [] >>= λ r.
      if r.1
      then (phone_text ch (trying body) now s >>= λ p. ok (p.0, tunnelled r.0 ++ p.1))
      else ok (s, tunnelled r.0)

  -- A response goes to the link and the channel that its branch names.
  unfoldable pub send_response : Bytes → Bytes → Server → Outcome (Server × List Action)
  send_response branch text s =
      elim (branch_parts (w.boost.split b'-' branch)) as (λ _. Outcome (Server × List Action)) [
        | none ↦ ok (s, [])
        | some (vpn_id, ch) ↦ elim (w.boost.to_int ch) as (λ _. Outcome (Server × List Action)) [
          | none ↦ fails bad_lexical_cast
          | some n ↦ send_signalling s.node n text vpn_id >>= λ r. ok (s, tunnelled r.0)
        ]
      ]

  -- The description of a phone.
  unfoldable pub incoming_content :
      Option SipCall → Headers → Bytes → Server → Outcome (Server × Sent)
  unfolding process_incoming_sdp
  incoming_content none h content s = ok (s, [])
  incoming_content (some c) h content s =
      if is_sdp h
      then (process_incoming_sdp w s c content >>= λ x. ok (put_call x.call x.server, x.sent))
      else ok (s, [])

  -- The length is that of the content, by the test, and where it is a description by what
  -- `processIncomingSDP` returns.
  abbrev pub incoming_text : Headers → Bytes → Bytes
  incoming_text h content = with_content h (length content) content

  -- `processIncoming` behind the loop over the headers and the test of the length.
  unfoldable pub pass_incoming :
      ℕ → ℕ → Message → Headers → Bytes → Server → Outcome (Server × List Action)
  unfolding pick_call incoming_content with_content send_request send_response
  pass_incoming ch now m h content s = pick_call self m h s >>= λ p.
      incoming_content p.1 h content p.0 >>= λ x.
      (if m.is_request
        then send_request ch m.body now (incoming_text h content) x.0
        else send_response h.branch (incoming_text h content) x.0)
      >>= λ r. ok (r.0, tunnelled x.1 ++ r.1)

  unfoldable pub after_incoming :
      ℕ → ℕ → Message → Server → Round (Headers × Bytes) Bytes → Outcome (Server × List Action)
  unfolding pass_incoming phone_text
  after_incoming ch now m s (stop reply) = phone_text ch reply now s
  after_incoming ch now m s (next (h, content)) =
      if h.content_length == length content then pass_incoming ch now m h content s else ok (s, [])

  -- `processIncoming`, for the endpoint of the channel `ch`; `past` is the byte behind the buffer.
  unfoldable pub process_incoming : ℕ → ℕ → ℕ → Bytes → Server → Outcome (Server × List Action)
  unfolding after_incoming compare_code
  process_incoming past ch now buf s =
      elim (parse past buf) as (λ _. Outcome (Server × List Action)) [
        | none ↦ ok (s, [])
        | some m ↦
            if is_trying m then ok (s, []) else scan_incoming w m >>= after_incoming ch now m s
      ]

  -- The description from the tunnel, and the content that goes out.
  unfoldable pub outgoing_content :
      Option SipCall → Headers → Bytes → Server → Outcome (Server × Sent × Bytes)
  unfolding process_outgoing_sdp
  outgoing_content none h content s = ok (s, [], content)
  outgoing_content (some c) h content s =
      if is_sdp h
      then (process_outgoing_sdp w s c content >>= λ r. ok (
        put_call (last_outgoing r).call (last_outgoing r).server,
        (last_outgoing r).sent,
        (last_outgoing r).out,
      ))
      else ok (s, [], content)

  -- `unsigned short port = valueInt( "defaultsipport" )`, which only a request needs.
  unfoldable pub sip_port_of : Message → Outcome ℕ
  unfolding value_int
  sip_port_of m =
      if m.is_request
      then (value_int w.boost.to_int w.items (codes "defaultsipport") 0 >>= λ p. ok (p % 2 ^ 16))
      else ok 0

  unfoldable pub pass_outgoing :
      Origin → ℕ → ℕ → Message → Headers → Bytes → Server → Outcome (Server × List Action)
  unfolding pick_call outgoing_content with_content sip_port_of deliver
  pass_outgoing link ch now m h content s = pick_call link m h s >>= λ p.
      outgoing_content p.1 h content p.0 >>= λ x. sip_port_of m >>= λ port.
      deliver w.boost.show w.reachable x.0.registry m.is_request ch h.to_addr port
        (with_content h (length x.2) x.2) now
      >>= λ r. ok (record x.0 { registry = r.0 }, tunnelled x.1 ++ phoned r.1)

  unfoldable pub after_outgoing :
      Origin → ℕ → ℕ → Message → Server → Round (Headers × Bytes) ⊥ → Outcome (Server × List Action)
  unfolding pass_outgoing
  after_outgoing link ch now m s (stop never) = absurd never
  after_outgoing link ch now m s (next (h, content)) =
      if h.content_length == length content
      then pass_outgoing link ch now m h content s
      else ok (s, [])

  -- `processOutgoing`, of a message from the link.
  unfoldable pub process_outgoing :
      Origin → ℕ → ℕ → ℕ → Bytes → Server → Outcome (Server × List Action)
  unfolding after_outgoing
  process_outgoing link past ch now buf s =
      elim (parse past buf) as (λ _. Outcome (Server × List Action)) [
        | none ↦ ok (s, [])
        | some m ↦ id_at link s >>= λ vpn_id.
            scan_outgoing w vpn_id ch m >>= after_outgoing link ch now m s
      ]

  -- `onAccept`: a datagram from a phone at an address and port.
  unfoldable pub on_phone : ℕ → Bytes → ℕ → ℕ → Bytes → Server → Outcome (Server × List Action)
  unfolding process_incoming on_accept touch
  on_phone past addr port now buf s =
      let (registry, ch) = on_accept w.boost.show s.registry addr port now in
      process_incoming past ch now buf (record s { registry = touch w.boost.show registry ch now })

  -- The methods of `VPNLinkEvents`, for what `onReceive` of the link reports.
  unfoldable pub on_event : Origin → ℕ → ℕ → Effect → Server → Outcome (Server × List Action)
  unfolding process_outgoing Media.on_receive_data Media.on_setup_data
  on_event link past now (on_signalling ch buf) s = process_outgoing link past ch now buf s
  on_event link past now (on_receive_data port buf) s =
      ok (s, played (Media.on_receive_data s (port % 2 ^ 16) buf))
  on_event link past now (on_setup_data idx port id) s =
      Media.on_setup_data w s link idx port id >>= λ s'. ok (s', [])
  on_event link past now (on_connect ep) s = ok (s, [])
  on_event link past now (on_disconnect ep) s = ok (s, [])
  on_event link past now (transmit buf) s = ok (s, tunnel link (transmit buf) ∷ [])
  on_event link past now schedule s = ok (s, tunnel link schedule ∷ [])
  on_event link past now unschedule s = ok (s, tunnel link unschedule ∷ [])
