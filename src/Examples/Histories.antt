-- ===== src/Examples/Histories.antt =====
-- Histories of links, and a listening link with two accepted ones.
use svoiptunnel.Base.{
  ◌≡◌, refl, Bool, true, false, [], ◌∷◌, Bytes, codes, ok, arith, All, ltb, same,
}
use svoiptunnel.Examples.Links.{phone, office, up, client_link}
use svoiptunnel.Vpn.Wire.{signalling, frame}
use svoiptunnel.Vpn.Link.{
  Endpoint, client, server, accepted, transmit, Link, on_receive, refreshed, on_signalling,
}
use svoiptunnel.Vpn.Node.{
  Node, at_client, send_signalling, find_by_id, perform, run, receive, signal_out,
}
use svoiptunnel.Vpn.Node.Routing.{IsRouted, send_signalling-IsRouted}
use svoiptunnel.Vpn.Node.Listening.{IsListening, IsQuiet, run-IsQuiet}

abbrev by_port : Endpoint → Endpoint → Bool
by_port a b = ltb a.port b.port

abbrev pub client_node : Node
client_node = record { link = client_link; clients = [] }

abbrev listening : Link
listening = record {
  mode = server;
  connected = false;
  activity_timer = 0;
  has_events = true;
  id = [];
}

abbrev pub server_node : Node
server_node = record {
  link = listening;
  clients = (office, up accepted (codes "12")) ∷ (phone, up accepted (codes "77")) ∷ [];
}

abbrev options_text : Bytes
options_text = codes "OPTIONS sip:a"

send_signalling-IsRouted_example :
    (msg : Bytes) × IsRouted server_node
      (codes "77")
      msg
      (send_signalling server_node 3 options_text (codes "77"))
    × (on_receive client_link office msg
        ≡ ok (refreshed client_link, on_signalling 3 options_text ∷ []))
send_signalling-IsRouted_example =
    send_signalling-IsRouted server_node client_link office 3 options_text (codes "77") refl
      (ground arith) (omega arith) (omega arith)

abbrev fresh_client : Node
fresh_client = record { link = record listening { mode = client }; clients = [] }

run-IsQuiet_example :
    IsListening server_node
    × All IsQuiet ((at_client phone, transmit (frame signalling 3 options_text)) ∷ [])
unfolding run perform send_signalling find_by_id on_receive same
run-IsQuiet_example =
    run-IsQuiet by_port
      (receive phone (codes "not looked at") ∷ signal_out 3 options_text (codes "77") ∷ [])
      server_node server_node _ (refl, refl) refl
