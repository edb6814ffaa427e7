-- ===== src/Sip/Proxy/Requests.antt =====
-- Whole requests in `processIncoming` and `processOutgoing` of svoiptunnel/sipserver.cpp.
use svoiptunnel.Base.{
  ℕ, ◌≡◌, ◌≢◌, ◌≤◌, ◌∙◌, ap, true, false, List, [], ◌∷◌, ◌++◌, Bytes, All, length, none, some, ok,
  ◌>>=◌, arith, ==_refl, inr, ◌⊎◌,
}
use svoiptunnel.Base.Dict.{bytes_eq, find}
use svoiptunnel.Vpn.Wire.{buffer_size, signalling, frame}
use svoiptunnel.Vpn.Link.{transmit}
use svoiptunnel.Vpn.Node.{Origin, self, send_signalling}
use svoiptunnel.Sip.Lines.{print_lines}
use svoiptunnel.Sip.Media.{World, Server}
use svoiptunnel.Sip.Message.{Message, parse}
use svoiptunnel.Sip.Headers.{Headers, no_headers, too_many_hops}
use svoiptunnel.Sip.Headers.Fields.{
  Field, max_forwards, print_fields, IsField, IsRead, incoming_fields, outgoing_fields,
}
use svoiptunnel.Sip.Headers.Inward.{HasHops, scan_incoming-fields, scan_incoming-no_hops}
use svoiptunnel.Sip.Headers.Outward.{scan_outgoing-fields}
use svoiptunnel.Sip.Registry.{SipEndpoint, slot, touch, send_to, deliver, get_id, id_of, Registry}
use svoiptunnel.Sip.Registry.Consistent.{IsConsistent}
use svoiptunnel.Sip.Registry.Deliver.{deliver-sends}
use svoiptunnel.Sip.Proxy.{
  tunnel, phone, phoned, is_invite, is_trying, trying, id_at, pick_call, phone_text, send_request,
  with_content, incoming_text, incoming_content, pass_incoming, after_incoming, process_incoming,
  outgoing_content, sip_port_of, pass_outgoing, after_outgoing, process_outgoing,
}
use svoiptunnel.Sip.Proxy.Tracking.{pick_call-untracked}

module _ (w : World) (s : Server) (m : Message) (past ch now : ℕ) (buf : Bytes)
    (parsed : parse past buf ≡ some m) (request : m.is_request ≡ true) where
  phone_told :
      (text : Bytes) (e : SipEndpoint)
      → slot s.registry.clients ch ≡ some e
      → phone_text w ch text now s
        ≡ ok (record s { registry = touch w.boost.show s.registry ch now }, phone ch text ∷ [])
  unfolding phone_text send_to
  phone_told text e filled = rw (phone_text, send_to, filled)

  no_trying : is_trying m ≡ false
  no_trying = rw request

  -- A request from a phone with no hops left, in a field behind others that are read as they say, is
  -- answered by the phone's endpoint with the error reply for this request and nothing else goes
  -- out, whatever follows in the message; of the server only the time of that endpoint changes.
  pub no_hops_answered :
      (fs : List Field) (number rest : Bytes) (e : SipEndpoint)
      → All (IsField w.boost) (fs ++ max_forwards number 0 ∷ [])
      → All (IsField w.boost) fs
      → All HasHops fs
      → IsRead w.boost (max_forwards number 0)
      → m.body ≡ print_lines (print_fields (fs ++ max_forwards number 0 ∷ [])) rest
      → slot s.registry.clients ch ≡ some e
      → process_incoming w past ch now buf s
        ≡ ok (
          record s { registry = touch w.boost.show s.registry ch now },
          phone ch (too_many_hops m.body) ∷ [],
        )
  unfolding process_incoming after_incoming
  no_hops_answered fs number rest e all r u z body filled = rw (
    process_incoming,
    parsed,
    no_trying,
    scan_incoming-no_hops w m request fs number rest all r u z body,
    after_incoming,
    phone_told (too_many_hops m.body) e filled,
  )

  abbrev pub fields_in : List Field → Headers
  fields_in fs = incoming_fields w (no_headers m.start_line) fs

  connected_sends :
      (text : Bytes)
      → s.node.link.connected ≡ true
      → length text ≤ buffer_size
      → send_signalling s.node ch text []
        ≡ ok ((self, transmit (frame signalling ch text)) ∷ [], true)
  unfolding send_signalling
  connected_sends text up fits = ground arith

  passed_in :
      (h : Headers) (content : Bytes) (e : SipEndpoint)
      → pick_call self m h s ≡ ok (s, none)
      → s.node.link.connected ≡ true
      → length (incoming_text w h content) ≤ buffer_size
      → slot s.registry.clients ch ≡ some e
      → pass_incoming w ch now m h content s
        ≡ ok (
          record s { registry = touch w.boost.show s.registry ch now },
          tunnel self (transmit (frame signalling ch (incoming_text w h content)))
              ∷ phone ch (trying m.body)
              ∷ [],
        )
  unfolding pass_incoming incoming_content send_request
  passed_in h content e untracked up fits filled = rw (
    pass_incoming,
    untracked,
    request,
    connected_sends (incoming_text w h content) up fits,
    phone_told (trying m.body) e filled,
  )

  -- A request from a phone, of fields that are read as they say, with hops left, a right content
  -- length, and a call identifier that is not known and that it does not begin a call with, over a
  -- connected link: it goes into the tunnel once, with the phone's channel and the fields as the
  -- description of them has it, and the phone is told that it is being tried. The text has at most 1500 bytes.
  pub request_enters :
      (fs : List Field) (content : Bytes) (e : SipEndpoint)
      → All (IsField w.boost) fs
      → All HasHops fs
      → m.body ≡ print_lines (print_fields fs) (b'\r' ∷ b'\n' ∷ content)
      → (fields_in fs).content_length ≡ length content
      → find (fields_in fs).call_id s.calls ≡ none
      → is_invite m.method ≡ false
      → s.node.link.connected ≡ true
      → length (incoming_text w (fields_in fs) content) ≤ buffer_size
      → slot s.registry.clients ch ≡ some e
      → process_incoming w past ch now buf s
        ≡ ok (
          record s { registry = touch w.boost.show s.registry ch now },
          tunnel self (transmit (frame signalling ch (incoming_text w (fields_in fs) content)))
              ∷ phone ch (trying m.body)
              ∷ [],
        )
  unfolding process_incoming after_incoming
  request_enters fs content e r u body sized untracked no_invite up fits filled =
      rw
        (
          process_incoming,
          parsed,
          no_trying,
          scan_incoming-fields w m request fs content r u body,
          after_incoming,
          sized,
          ==_refl (length content),
        )
        (passed_in (fields_in fs) content e
          (pick_call-untracked self m (fields_in fs) s (inr (untracked, no_invite))) up fits filled)

  abbrev pub fields_out : Bytes → List Field → Headers
  fields_out vpn_id fs = outgoing_fields w vpn_id ch (no_headers m.start_line) fs

  abbrev pub outgoing_text : Headers → Bytes → Bytes
  outgoing_text h content = with_content w h (length content) content

  passed_out :
      (link : Origin) (h : Headers) (content : Bytes) (port : ℕ)
      → pick_call link m h s ≡ ok (s, none)
      → sip_port_of w m ≡ ok port
      → pass_outgoing w link ch now m h content s ≡ (
          deliver w.boost.show w.reachable s.registry true ch h.to_addr port
            (outgoing_text h content)
            now
          >>= λ r. ok (record s { registry = r.0 }, phoned r.1))
  unfolding pass_outgoing outgoing_content
  passed_out link h content port untracked default = rw (pass_outgoing, untracked, default, request)

  -- A request from the tunnel, of fields that are read as they say, with a right content length, and a
  -- call identifier that is not known and that it does not begin a call with: with a consistent registry, it
  -- goes out once, rewritten as the description of the fields has it, through an endpoint with the id of
  -- the host in its To field and the default port, if that is known or can be reached. The link and
  -- the calls are as they were, and the registry stays consistent.
  pub request_delivered :
      (link : Origin) (vpn_id : Bytes) (fs : List Field) (content : Bytes) (port : ℕ)
      → id_at link s ≡ ok vpn_id
      → All (IsField w.boost) fs
      → m.body ≡ print_lines (print_fields fs) (b'\r' ∷ b'\n' ∷ content)
      → (fields_out vpn_id fs).content_length ≡ length content
      → find (fields_out vpn_id fs).call_id s.calls ≡ none
      → is_invite m.method ≡ false
      → sip_port_of w m ≡ ok port
      → IsConsistent w.boost.show s.registry
      → (find (get_id w.boost.show (fields_out vpn_id fs).to_addr port) s.registry.addr_map ≢ none)
        ⊎ (w.reachable (fields_out vpn_id fs).to_addr port ≡ true)
      → (r : Registry) × (out : ℕ) × (process_outgoing w link past ch now buf s
          ≡ ok (
            record s { registry = r },
            phone out (outgoing_text (fields_out vpn_id fs) content) ∷ [],
          ))
        × ((e : SipEndpoint) × (slot r.clients out ≡ some e)
            × (id_of w.boost.show e ≡ get_id w.boost.show (fields_out vpn_id fs).to_addr port))
        × IsConsistent w.boost.show r
  unfolding process_outgoing after_outgoing
  request_delivered link vpn_id fs content port known r body sized untracked no_invite default v
        up =
      let h = fields_out vpn_id fs in
      let (r', out, sent, named, v') =
        deliver-sends w.boost.show w.reachable s.registry v ch h.to_addr port now
          (outgoing_text h content) up in
      (
        r',
        out,
        rw
            (
              process_outgoing,
              parsed,
              known,
              scan_outgoing-fields w vpn_id ch m request fs content r body,
              after_outgoing,
              sized,
              ==_refl (length content),
            )
            (passed_out link h content port
                (pick_call-untracked link m h s (inr (untracked, no_invite))) default
              ∙ ap (λ x. x >>= λ y. ok (record s { registry = y.0 }, phoned y.1)) sent),
        named,
        v',
      )
