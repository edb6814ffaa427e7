-- ===== src/Vpn/Node/Session.antt =====
-- The life of a session between a client link and the accepted link at its other end.
use svoiptunnel.Base.{
  ℕ, ◌-◌, ◌<◌, ◌≡◌, ◌≢◌, true, false, List, [], ◌∷◌, ◌++◌, arith, Bytes, ok, if◌then◌else◌, ◌∙◌,
}
use svoiptunnel.Vpn.Wire.{frame, connect_msg, connect_ok, ping_msg}
use svoiptunnel.Vpn.Link.{
  Endpoint, client, server, accepted, Effect, transmit, on_connect, schedule, Link, refreshed,
  dispatch, on_receive, setup_data_conn, no_channel, is_active, client_default, accepted_default,
}
use svoiptunnel.Vpn.Link.Delivery.{on_receive-frame}
use svoiptunnel.Vpn.Node.{tick_link}

-- For a client link that is not connected and an accepted link with a handler: the client's timer
-- tick sends CONNECT, the answer is CONNECTOK, and both ends are connected. The handler of the
-- accepted link is told exactly if that link was not connected before.
pub handshake :
    (c a : Link) (cep aep : Endpoint)
    → c.mode ≡ client
    → c.connected ≡ false
    → a.mode ≡ accepted
    → a.has_events ≡ true
    → (w w' : Bytes) × (tick_link c
        ≡ (record c { activity_timer = client_default }, transmit w ∷ schedule ∷ []))
      × (on_receive a cep w
          ≡ ok (
            record a { connected = true; activity_timer = accepted_default },
            (if a.connected then [] else on_connect cep ∷ []) ++ transmit w' ∷ [],
          ))
      × (on_receive (record c { activity_timer = client_default }) aep w'
          ≡ ok (record c { connected = true; activity_timer = client_default }, []))
unfolding tick_link
handshake c a cep aep mc dc ma ev = (
  frame connect_msg no_channel [],
  frame connect_ok no_channel [],
  ground arith,
  on_receive-frame a cep connect_msg no_channel [] (ground arith) (omega arith)
      ∙ unfold dispatch refreshed in ground arith,
  on_receive-frame _ aep connect_ok no_channel [] (ground arith) (omega arith)
      ∙ unfold dispatch refreshed in ground arith,
)

-- While the timer of a connected client has more than one tick left, the tick sends PING; the accepted link answers
-- PING, and both ends have their full time again.
pub keep_alive :
    (c a : Link) (cep aep : Endpoint)
    → c.mode ≡ client
    → c.connected ≡ true
    → 1 < c.activity_timer
    → a.mode ≡ accepted
    → (w w' : Bytes) × (c' : Link) × (tick_link c ≡ (c', transmit w ∷ schedule ∷ []))
      × (on_receive a cep w ≡ ok (record a { activity_timer = accepted_default }, transmit w' ∷ []))
      × (on_receive c' aep w' ≡ ok (record c { activity_timer = client_default }, []))
unfolding tick_link
keep_alive c a cep aep mc dc lt ma = (
  frame ping_msg no_channel [],
  frame ping_msg no_channel [],
  record c { activity_timer = c.activity_timer - 1 },
  ground arith,
  on_receive-frame a cep ping_msg no_channel [] (ground arith) (omega arith)
      ∙ unfold dispatch refreshed in ground arith,
  on_receive-frame _ aep ping_msg no_channel [] (ground arith) (omega arith)
      ∙ unfold dispatch refreshed in ground arith,
)

-- Setting up a data connection ends the session: `SetupDataConn` leaves the activity timer at 0, and
-- unless a message comes in first, the next tick of a connected client or accepted link drops the
-- connection and sends nothing. An accepted link is not scheduled again.
pub setup_data_conn_drops :
    (l l' : Link) (callid : Bytes) (idx port : ℕ) (es : List Effect)
    → l.mode ≢ server
    → l.connected ≡ true
    → setup_data_conn l callid idx port ≡ ok (l', es)
    → ((tick_link l').0.connected ≡ false)
      × (is_active l' ≡ false)
      × ((l.mode ≡ client → (tick_link l').1 ≡ schedule ∷ [])
          × (l.mode ≡ accepted → (tick_link l').1 ≡ []))
unfolding setup_data_conn tick_link is_active
setup_data_conn_drops l l' callid idx port es m c e = ground arith
