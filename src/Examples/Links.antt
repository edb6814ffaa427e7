-- ===== src/Examples/Links.antt =====
-- Two links of svoiptunnel/vpnlinkbase.cpp that talk to each other.
use svoiptunnel.Base.{
  ◌≡◌, ◌↔◌, refl, true, false, [], ◌∷◌, ◌++◌, arith, Bytes, codes, ok, returns, if◌then◌else◌,
}
use svoiptunnel.Vpn.Wire.{signalling, frame, read_header}
use svoiptunnel.Vpn.Link.{
  Endpoint, Mode, client, accepted, transmit, schedule, on_connect, Link, on_receive,
  client_default, accepted_default,
}
use svoiptunnel.Vpn.Link.Safety.{IsHonest, on_receive-returns_iff}
use svoiptunnel.Vpn.Node.{tick_link}
use svoiptunnel.Vpn.Node.Session.{handshake}

abbrev pub phone : Endpoint
phone = record { address = codes "10.0.0.2"; port = 5000 }

abbrev pub office : Endpoint
office = record { address = codes "10.0.0.9"; port = 5000 }

abbrev pub up : Mode → Bytes → Link
up m id = record { mode = m; connected = true; activity_timer = 2; has_events = true; id = id }

abbrev pub client_link : Link
client_link = up client []

abbrev pub accepted_link : Link
accepted_link = up accepted (codes "77")

abbrev pub idle_client : Link
idle_client = record client_link { connected = false }

abbrev voice : Bytes
voice = codes "rtp"

abbrev call_id : Bytes
call_id = codes "14e3@pc"

on_receive-returns_iff_example :
    (returns (on_receive accepted_link phone (frame signalling 3 voice)) ≡ true)
    ↔ IsHonest (frame signalling 3 voice)
unfolding frame
on_receive-returns_iff_example =
    on_receive-returns_iff accepted_link phone (frame signalling 3 voice) (ground arith) refl
      (omega arith)

-- A header that announces more data than there is.
over_read_test :
    returns
      (on_receive accepted_link phone (0x0a ∷ 0 ∷ 0 ∷ 0 ∷ 1 ∷ 0 ∷ 0 ∷ 0 ∷ 9 ∷ 0 ∷ 0 ∷ 0 ∷ voice))
    ≡ false
unfolding on_receive read_header
over_read_test = refl

handshake_example :
    (w w' : Bytes) × (tick_link idle_client
      ≡ (record idle_client { activity_timer = client_default }, transmit w ∷ schedule ∷ []))
    × (on_receive accepted_link phone w
        ≡ ok (
          record accepted_link { connected = true; activity_timer = accepted_default },
          (if accepted_link.connected then [] else on_connect phone ∷ []) ++ transmit w' ∷ [],
        ))
    × (on_receive (record idle_client { activity_timer = client_default }) office w'
        ≡ ok (record idle_client { connected = true; activity_timer = client_default }, []))
handshake_example = handshake idle_client accepted_link phone office refl refl refl refl

dropped : Link
dropped = record client_link { activity_timer = 0 }
