-- ===== src/Examples/Calls.antt =====
-- Calls and their data connections, of svoiptunnel/sipcall.cpp, at both ends of the tunnel.
use svoiptunnel.Sip.Media.Gaps.{setup_gap}
use svoiptunnel.Sip.Proxy.{pick_call}
use svoiptunnel.Sip.Proxy.Tracking.{IsTracked, pick_call-IsTracked}
use svoiptunnel.Base.Dict.{bytes_eq, find, assign}
use svoiptunnel.Sip.Media.Arrivals.{stream_arrives}
use svoiptunnel.Sip.Media.Streams.{IsOpen}
use svoiptunnel.Sip.Media.Closing.{IsClosed, destroy_call-IsClosed}
use svoiptunnel.Vpn.Node.{Sent, at_client, self}
use svoiptunnel.Sip.Headers.{Headers, no_headers}
use svoiptunnel.Sip.Message.{Message, bye, no_code}
use svoiptunnel.Vpn.Link
use svoiptunnel.Vpn.Link.{
  Link, accepted, on_receive, on_receive_data, refreshed, transmit, setup_data_conn,
}
use svoiptunnel.Sip.Media.{
  DataConn, Server, SipCall, add_data_port, destroy_call, erase_call, on_media, on_setup_data,
}
use svoiptunnel.Base.{
  ℕ, Bytes, Outcome, [], arith, codes, false, none, ok, refl, same, some, true, ◌∷◌, ◌≡◌, fails,
  null_pointer,
}
use svoiptunnel.Sip.Media
use svoiptunnel.Examples.Links.{phone, client_link, up}
use svoiptunnel.Examples.Worlds.{world, client_end, server_end}

abbrev talk : SipCall
talk = record { link = self; call_id = codes "14e3"; slots = some 0 ∷ [] }

abbrev talking_conn : DataConn
talking_conn = record {
  link = self;
  vpn_port = 40002;
  local_port = 40000;
  peer = none;
  is_open = true;
}

abbrev talking : Server
talking = record client_end {
  calls = (codes "14e3", talk) ∷ [];
  conns = talking_conn ∷ [];
  data_ports = (40000, 0) ∷ [];
}

abbrev bye_message : Message
bye_message = record {
  is_request = true;
  is_success = false;
  resp_code = no_code;
  start_line = [];
  body = [];
  method = bye;
}

abbrev of_talk : Headers
of_talk = record (no_headers []) { call_id = codes "14e3" }

pick_call-IsTracked_example :
    (s' : Server) × (pick_call self bye_message of_talk talking ≡ ok (s', none))
    × IsTracked talking s' (codes "14e3") none
unfolding same find
pick_call-IsTracked_example =
    pick_call-IsTracked self bye_message of_talk talking (ground arith)
      ((record { ref = 0; conn = talking_conn; filled = refl; made = refl }, tt), omega arith)

setup_gap_example :
    (s' : Server) × (c : SipCall) × (on_setup_data world client_end self 2 40002 (codes "14e3")
      ≡ ok s')
    × (find (codes "14e3") s'.calls ≡ some c)
    × (erase_call (codes "14e3") c s' ≡ fails null_pointer)
    × (on_setup_data world s' self 1 40004 (codes "14e3") ≡ fails null_pointer)
unfolding find
setup_gap_example =
    setup_gap world client_end self (codes "14e3") 2 40002 refl (omega arith) 1 40004 (omega arith)

destroy_call-IsClosed_example : IsClosed talking (some 0 ∷ []) (destroy_call talking talk)
destroy_call-IsClosed_example =
    destroy_call-IsClosed talking talk
      (record { ref = 0; conn = talking_conn; filled = refl; made = refl }, tt) (omega arith)

-- The value of a call that returns.
abbrev value {ℓ} : {A : Type ℓ} → A → Outcome A → A
value default (ok x) = x
value default (fails why) = default

-- The client opens a data connection for the phone at port 7.
abbrev begun : SipCall
begun = record { link = self; call_id = codes "14e3"; slots = [] }

abbrev opened : Server × SipCall × Sent × ℕ
opened = value (client_end, begun, [], 0) (add_data_port world client_end begun (codes "a") 7 0)

abbrev linked : Server
linked = value server_end (on_setup_data world server_end (at_client phone) 0 40000 (codes "14e3"))

abbrev far_talk : SipCall
far_talk = record { link = at_client phone; call_id = codes "14e3"; slots = some 0 ∷ [] }

abbrev far_conn : DataConn
far_conn = record {
  link = at_client phone;
  vpn_port = 40000;
  local_port = 40000;
  peer = none;
  is_open = true;
}

abbrev far_link : Link
far_link = up accepted (codes "77")

stream_arrives_example :
    ((said : Bytes) × (opened.2 ≡ (self, transmit said) ∷ [])
      × (on_receive far_link phone said
          ≡ ok (refreshed far_link, Link.on_setup_data 0 40000 (codes "14e3") ∷ [])))
    × (v : IsOpen opened.0 opened.1 0 40000) × (msg : Bytes) × (on_media linked 0 (codes "rtp")
        ≡ ok (linked, (at_client phone, transmit msg) ∷ []))
    × (on_receive client_link phone msg
        ≡ ok (refreshed client_link, on_receive_data 40000 (codes "rtp") ∷ []))
    × (Media.on_receive_data opened.0 40000 (codes "rtp") ≡ (v.ref, codes "rtp") ∷ [])
unfolding add_data_port on_setup_data find same setup_data_conn assign
stream_arrives_example =
    stream_arrives client_end opened.0 server_end linked world world begun opened.1 (codes "a") 7 0
      40000 opened.2 (at_client phone) far_link client_link phone phone far_talk 0 far_conn far_link
      (codes "rtp") refl (omega arith) refl (ground arith) (λ id c e. ground arith) refl refl refl
      refl refl refl refl (ground arith) (omega arith)
