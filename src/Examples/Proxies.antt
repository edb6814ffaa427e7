-- ===== src/Examples/Proxies.antt =====
-- Whole messages through the proxy of svoiptunnel/sipserver.cpp.
use svoiptunnel.Setup.Config.{value_string}
use svoiptunnel.Sip.Registry.Consistent.{IsConsistent, empty-IsConsistent}
use svoiptunnel.Base.Dict.{find}
use svoiptunnel.Sip.Proxy.Answers.{at_end, response_returns}
use svoiptunnel.Sip.Registry.Calls.{on_accept-finds}
use svoiptunnel.Sip.Proxy.Requests.{no_hops_answered, request_enters, request_delivered}
use svoiptunnel.Vpn.Link.{transmit, Endpoint}
use svoiptunnel.Vpn.Node.{self, at_client, find_by_id}
use svoiptunnel.Sip.Registry.{
  SipEndpoint, put_slot, touch, on_accept, Registry, empty_registry, get_id, id_of, slot,
}
use svoiptunnel.Sip.Headers.{no_headers, too_many_hops, Headers, via_line}
use svoiptunnel.Vpn.Wire.{frame, signalling}
use svoiptunnel.Sip.Proxy.{
  incoming_text, phone, process_incoming, trying, tunnel, with_content, process_outgoing,
  sip_port_of,
}
use svoiptunnel.Sip.Lines.{print_lines}
use svoiptunnel.Sip.Headers.Fields.{
  Field, call_id, content_length, IsField, max_forwards, plain, print_fields, to, incoming_fields,
  via, outgoing_fields,
}
use svoiptunnel.Sip.Message.{Message, no_code, options, parse, unknown}
use svoiptunnel.Base.{
  ℕ, All, List, Bytes, codes, [], arith, false, refl, some, true, ◌++◌, ◌∷◌, ◌≡◌, has_prefix, same,
  ok, inr,
}
use svoiptunnel.Examples.Worlds.{show, small_boost, world, client_end, server_end, registry}

abbrev line_start : Bytes
line_start = codes "OPTIONS sip:ann SIP/2.0\r\n"

abbrev pub options_message : Bytes → Message
options_message body = record {
  is_request = true;
  is_success = false;
  resp_code = no_code;
  start_line = line_start;
  body = body;
  method = options;
}

abbrev common : List Field
common =
    plain (codes "From: bob")
    ∷ via (codes " SIP/2.0/UDP c")
    ∷ to (codes "ann") []
    ∷ call_id (codes "14e3")
    ∷ content_length (codes "2") 2
    ∷ []

abbrev pub wanted : List Field
wanted = max_forwards (codes "70") 70 ∷ common

abbrev body_of : List Field → Bytes
body_of fs = print_lines (print_fields fs) (b'\r' ∷ b'\n' ∷ codes "hi")

abbrev pub options_of : List Field → Bytes
options_of fs = line_start ++ body_of fs

common-AreFields : All (IsField small_boost) common
unfolding has_prefix same
common-AreFields = (
  (ground arith, refl, (refl, refl, refl, refl, refl, refl, refl)),
  (
    (ground arith, refl, tt),
    (
      (ground arith, refl, (refl, refl)),
      ((ground arith, refl, refl), ((ground arith, refl, (refl, refl)), tt)),
    ),
  ),
)

wanted-AreFields : All (IsField small_boost) wanted
unfolding same
wanted-AreFields = ((ground arith, refl, (refl, refl)), common-AreFields)

abbrev phone_a : SipEndpoint
phone_a = record { ch = 0; addr = codes "a"; port = 60; last_active = 0 }

request_enters_example :
    process_incoming world 0 0 9 (options_of wanted) client_end
    ≡ ok (
      record client_end { registry = touch show client_end.registry 0 9 },
      tunnel self (
            transmit (
              frame signalling 0 (
                incoming_text world
                  (incoming_fields world (no_headers line_start) wanted)
                  (codes "hi"))))
          ∷ phone 0 (trying (body_of wanted))
          ∷ [],
    )
unfolding parse same on_accept put_slot with_content find
request_enters_example =
    request_enters world client_end (options_message (body_of wanted)) 0 0 9 (options_of wanted)
      refl refl wanted (codes "hi") phone_a wanted-AreFields (ground arith) refl refl refl refl refl
      (omega arith) refl

no_hops_answered_example :
    process_incoming world 0 0 9 (options_of (common ++ max_forwards (codes "0") 0 ∷ [])) client_end
    ≡ ok (
      record client_end { registry = touch show client_end.registry 0 9 },
      phone 0 (too_many_hops (body_of (common ++ max_forwards (codes "0") 0 ∷ []))) ∷ [],
    )
unfolding parse same on_accept put_slot find
no_hops_answered_example =
    no_hops_answered world client_end
      (options_message (body_of (common ++ max_forwards (codes "0") 0 ∷ []))) 0 0 9
      (options_of (common ++ max_forwards (codes "0") 0 ∷ [])) refl refl common (codes "0")
      (b'\r' ∷ b'\n' ∷ codes "hi") phone_a
      (
        common-AreFields.0,
        (
          common-AreFields.1.0,
          (
            common-AreFields.1.1.0,
            (
              common-AreFields.1.1.1.0,
              (common-AreFields.1.1.1.1.0, ((ground arith, refl, (refl, refl)), tt)),
            ),
          ),
        ),
      )
      common-AreFields (tt, (tt, (tt, (tt, (tt, tt))))) (refl, refl) refl refl

abbrev far_end : Endpoint
far_end = record { address = codes "10.0.0.2"; port = 5000 }

abbrev passed : Headers
passed = outgoing_fields world (codes "77") 3 (no_headers line_start) common

registry-IsConsistent : IsConsistent show registry
registry-IsConsistent =
    (on_accept-finds show empty_registry (empty-IsConsistent show) (codes "a") 60 0).0

request_delivered_example :
    (r : Registry) × (out : ℕ) × (process_outgoing world
        (at_client far_end)
        0
        3
        9
        (options_of common)
        server_end
      ≡ ok (
        record server_end { registry = r },
        phone out (with_content world passed 2 (codes "hi")) ∷ [],
      ))
    × ((e : SipEndpoint) × (slot r.clients out ≡ some e)
        × (id_of show e ≡ get_id show (codes "b") 60))
    × IsConsistent show r
unfolding parse same find sip_port_of value_string
request_delivered_example =
    request_delivered world server_end (options_message (body_of common)) 0 3 9 (options_of common)
      refl refl (at_client far_end) (codes "77") common (codes "hi") 60 refl common-AreFields refl
      refl refl refl refl registry-IsConsistent (inr refl)

abbrev answered : List Field
answered =
    plain (codes "From: bob") ∷ via (codes " SIP/2.0/UDP c") ∷ content_length (codes "2") 2 ∷ []

abbrev answer_body : Bytes
answer_body =
    print_lines (via_line world (codes "77") 3 ∷ print_fields answered) (b'\r' ∷ b'\n' ∷ codes "hi")

abbrev answer : Message
answer = record {
  is_request = false;
  is_success = true;
  resp_code = codes "200";
  start_line = codes "SIP/2.0 200 OK\r\n";
  body = answer_body;
  method = unknown;
}

response_returns_example :
    process_incoming world 0 0 9 (codes "SIP/2.0 200 OK\r\n" ++ answer_body) server_end
    ≡ ok (
      server_end,
      tunnel (at_client far_end) (
            transmit (
              frame signalling 3 (
                incoming_text world
                  (at_end world server_end (codes "77") 3 far_end answer answered)
                  (codes "hi"))))
          ∷ [],
    )
unfolding parse same find via_line find_by_id with_content has_prefix
response_returns_example =
    response_returns world server_end (codes "77") 3 far_end answer answered 0 0 9
      (codes "SIP/2.0 200 OK\r\n" ++ answer_body) (codes "hi") refl refl refl refl refl
      (ground arith) (common-AreFields.0, (common-AreFields.1.0, (common-AreFields.1.1.1.1.0, tt)))
      refl refl refl refl refl refl (ground arith) refl (omega arith)
