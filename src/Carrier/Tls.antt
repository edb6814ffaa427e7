-- ===== src/Carrier/Tls.antt =====
-- `VPNTLSLink` of svoiptunnel/vpntlslink.cpp: a link over TLS with its socket, and the sockets that it
-- has accepted. The steps are those of a link over TCP.
pub mod Refined
use svoiptunnel.Net.Tcp as Net
use svoiptunnel.Net.Tcp.{
  Completion, Report, System, TcpSocket, closed, complete, connected, error, new_socket, received,
  start_receive,
}
use svoiptunnel.Base.{
  ℕ, Bool, false, true, not, List, [], ◌∷◌, ◌++◌, Bytes, codes, length, Outcome, ok, fails, ◌>>=◌,
  none, some, if◌then◌else◌, set, get_elem?, dangling_pointer, null_pointer, system_error,
}
use svoiptunnel.Base.Dict.{find}
use svoiptunnel.Carrier.Guests.{Accepted, Naming, SocketLink, is_some}
use svoiptunnel.Carrier.Secured.{
  Library, Secured, Wired, call_at, call_main, chain, guest_timer_step, out_by, receive_at,
  receive_main, timer_step,
}
use svoiptunnel.Carrier.Tcp.{Event, called, guest_done, guest_timer_done, socket_done, timer_done}
use svoiptunnel.Ssl.Session.{Session, accepted_session, on_connected, ssl_client}
use svoiptunnel.Vpn.Endpoints.{endpoint_eq}
use svoiptunnel.Vpn.Link.{accepted, client, generate_id, new_link, server}
use svoiptunnel.Vpn.Node as Node
use svoiptunnel.Vpn.Node.{Node, at_client, link_down, self}
use svoiptunnel.Vpn.Tunnel.{alone}

module _ {E : Type 0} (ssl : Library E) where
  abbrev pub TlsSocket : Type 0
  TlsSocket = Secured E TcpSocket

  abbrev pub TlsLink : Type 0
  TlsLink = SocketLink TlsSocket

  -- The constructor for an accepted socket, which `remote_endpoint` ends if the socket is not
  -- connected. The link does not start its timer yet.
  unfoldable pub on_accept : Naming → TlsLink → TcpSocket → Outcome (TlsLink × Wired)
  unfolding generate_id accepted_session Node.on_accept Net.set_events start_receive find
  on_accept p t s =
      let s' = start_receive (Net.set_events true s) in
      elim s'.peer as (λ _. Outcome (TlsLink × Wired)) [
        | none ↦ fails system_error
        | some ep ↦
            let name = ep.address ++ codes ":" ++ p.show ep.port in
            let l = generate_id p.hash_text name (new_link accepted) in
            let fresh = ssl.accept_state (length t.accepted_sockets) in
            let (session, out) = accepted_session ssl.engine fresh in
            let known = is_some (find ep t.node.clients) in
            ok (
              record t {
                node = if known then t.node else Node.on_accept p.less ep l t.node;
                accepted_sockets =
                    t.accepted_sockets
                    ++ record {
                      peer = ep;
                      socket = record { socket = s'; session = ok session };
                      is_kept = not known;
                      waits = 0;
                    }
                      ∷ [];
              },
              out_by (at_client ep) out,
            )
      ]

  -- `SSL_connect`, over the new connection.
  unfoldable pub connected_main : TlsLink → Outcome (TlsLink × Wired)
  unfolding on_connected
  connected_main t = do
    s ← t.socket.session
    let (s', out) = on_connected ssl.engine s
    ok (record t { socket = record t.socket { session = ok s' } }, out_by self out)

  -- The methods of `TCPSocketEvents`.
  unfoldable pub deliver : Naming → TlsLink → Report → Outcome (TlsLink × Wired)
  unfolding call_main on_accept connected_main receive_main
  deliver p t connected = connected_main t
  deliver p t (received buf) = elim t.socket.socket.peer as (λ _. Outcome (TlsLink × Wired)) [
    | none ↦ fails system_error
    | some ep ↦ receive_main ssl.engine t ep buf
  ]
  deliver p t (Net.accepted s) = on_accept p t s
  deliver p t (error code) = ok (t, [])
  deliver p t closed = call_main ssl.engine p.less t link_down

  abbrev pub deliver_all : Naming → TlsLink → List Report → Outcome (TlsLink × Wired)
  deliver_all p t rs = chain (deliver p) t rs

  -- The methods of the link of an accepted socket, which has been connected once and neither connects
  -- nor listens.
  unfoldable pub guest_report :
      Naming → TlsLink → ℕ → Accepted TlsSocket → Report → Outcome (TlsLink × Wired)
  unfolding call_at receive_at
  guest_report p t i a (received buf) =
      elim a.socket.socket.peer as (λ _. Outcome (TlsLink × Wired)) [
        | none ↦ fails system_error
        | some ep ↦ receive_at ssl.engine t i a ep buf
      ]
  guest_report p t i a closed = call_at ssl.engine p.less t i a link_down
  guest_report p t i a r = ok (t, [])

  -- Any report of an accepted socket goes to its link, which must still be there.
  unfoldable pub deliver_at :
      Naming → TlsLink → ℕ → Accepted TlsSocket → List Report → Outcome (TlsLink × Wired)
  unfolding guest_report
  deliver_at p t i a [] = ok (t, [])
  deliver_at p t i a (r ∷ more) =
      if a.is_kept then guest_report p t i a r else fails dangling_pointer

  unfoldable pub socket_step : Naming → TlsLink → Completion → Outcome (TlsLink × Wired)
  unfolding complete chain deliver
  socket_step p t c = elim (complete c t.socket.socket) as (λ _. Outcome (TlsLink × Wired)) [
    | none ↦ ok (t, [])
    | some (s, reports) ↦
        deliver_all p (record t { socket = record t.socket { socket = s } }) reports
  ]

  unfoldable pub guest_step :
      Naming → TlsLink → ℕ → Completion → Accepted TlsSocket → Outcome (TlsLink × Wired)
  unfolding complete deliver_at
  guest_step p t i c a = elim (complete c a.socket.socket) as (λ _. Outcome (TlsLink × Wired)) [
    | none ↦ ok (t, [])
    | some (s, reports) ↦
        let a' = record a { socket = record a.socket { socket = s } } in
        deliver_at p (record t { accepted_sockets = set t.accepted_sockets i a' }) i a' reports
  ]

  -- One step; what is not outstanding does not complete, and nothing happens.
  unfoldable pub step : Naming → TlsLink → Event → Outcome (TlsLink × Wired)
  unfolding call_main timer_step socket_step guest_timer_step guest_step
  step p t (called c _) = call_main ssl.engine p.less t c
  step p t (timer_done aborted) = timer_step ssl.engine p.less t aborted
  step p t (socket_done c) = socket_step p t c
  step p t (guest_timer_done i aborted) =
      elim (get_elem? t.accepted_sockets i) as (λ _. Outcome (TlsLink × Wired)) [
        | none ↦ ok (t, [])
        | some a ↦ guest_timer_step ssl.engine p.less t i aborted a
      ]
  step p t (guest_done i c) =
      elim (get_elem? t.accepted_sockets i) as (λ _. Outcome (TlsLink × Wired)) [
        | none ↦ ok (t, [])
        | some a ↦ guest_step p t i c a
      ]

  abbrev pub run : Naming → TlsLink → List Event → Outcome (TlsLink × Wired)
  run p t es = chain (step p) t es

  -- The constructors of a client, and of a server, which does not set `_ssl`.
  unfoldable pub client_link : System → Bytes → ℕ → TlsLink
  unfolding Net.connect Net.set_events new_socket
  client_link sys addr port =
      let (s, _) = Net.connect sys addr port (Net.set_events true new_socket) in
      let session : Session E = record {
        engine = ssl.connect_state;
        mode = ssl_client;
        handshaking = false;
      } in
      record {
        node = alone (new_link client);
        socket = record { socket = s; session = ok session };
        waits = 0;
        accepted_sockets = [];
      }

  unfoldable pub server_link : System → ℕ → TlsLink
  unfolding Net.listen Net.set_events new_socket
  server_link sys port =
      let (s, _) = Net.listen sys port (Net.set_events true new_socket) in
      record {
        node = alone (new_link server);
        socket = record { socket = s; session = fails dangling_pointer };
        waits = 0;
        accepted_sockets = [];
      }
