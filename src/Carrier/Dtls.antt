-- ===== src/Carrier/Dtls.antt =====
-- `VPNDTLSLink` of svoiptunnel/vpndtlslink.cpp: a link over DTLS with its socket, and the sockets that it
-- has accepted. The steps are those of a link over UDP.
pub mod Admitted
pub mod Refined
pub mod Waiting
pub mod Modeless
use svoiptunnel.Net.Udp as Net
use svoiptunnel.Net.Udp.{
  Completion, Report, UdpSocket, closed, complete, error, new_socket, received,
}
use svoiptunnel.Base.{
  ℕ, Bool, false, true, List, [], ◌∷◌, ◌++◌, Bytes, codes, length, Outcome, ok, fails, ◌>>=◌, none,
  some, if◌then◌else◌, set, get_elem?, dangling_pointer, null_pointer, system_error,
}
use svoiptunnel.Base.Dict.{find}
use svoiptunnel.Carrier.Guests.{Accepted, Naming, SocketLink, is_some}
use svoiptunnel.Carrier.Secured.{
  Library, Secured, Wired, call_at, call_main, chain, guest_timer_step, out_by, receive_at,
  receive_main, timer_step,
}
use svoiptunnel.Carrier.Udp.{
  Event, Platform, called, guest_done, guest_timer_done, socket_done, timer_done,
}
use svoiptunnel.Ssl.Session.{
  Out, Session, SslMode, accepted_session, dtls_client, receive as receive_bytes,
}
use svoiptunnel.Vpn.Endpoints.{endpoint_eq}
use svoiptunnel.Vpn.Link.{
  Endpoint, Link, accepted, client, generate_id, new_link, server, set_events,
}
use svoiptunnel.Vpn.Node as Node
use svoiptunnel.Vpn.Node.{Node, at_client, self}
use svoiptunnel.Vpn.Tunnel.{alone}

module _ {E : Type 0} (ssl : Library E) where
  abbrev pub DtlsSocket : Type 0
  DtlsSocket = Secured E UdpSocket

  abbrev pub DtlsLink : Type 0
  DtlsLink = SocketLink DtlsSocket

  -- The new socket, with the link that its events go to. No timer is started.
  abbrev pub newcomer : Endpoint → UdpSocket → Session E → Bool → Accepted DtlsSocket
  newcomer ep s session is_kept = record {
    peer = ep;
    socket = record { socket = s; session = ok session };
    is_kept = is_kept;
    waits = 0;
  }

  -- The datagram goes to the new link, which the map keeps.
  unfoldable pub welcome :
      Platform
      → DtlsLink
      → Endpoint
      → Link
      → UdpSocket
      → Session E
      → Bytes
      → Outcome (DtlsLink × Wired)
  unfolding Node.on_accept receive_at
  welcome p t ep l s session buf =
      let guest = newcomer ep s session true in
      let t' : DtlsLink = record t {
        node = Node.on_accept p.naming.less ep l t.node;
        accepted_sockets = t.accepted_sockets ++ guest ∷ [];
      } in
      receive_at ssl.engine t' (length t.accepted_sockets) guest ep buf

  -- `insert` leaves a map that has the endpoint as it is. The link takes the datagram and is deleted.
  unfoldable pub turn_away :
      DtlsLink → Endpoint → Link → UdpSocket → Session E → Bytes → Outcome (DtlsLink × Wired)
  unfolding set_events receive_bytes
  turn_away t ep l s session buf = do
    (session', (l', out)) ←
        receive_bytes ssl.engine buf session (set_events t.node.link.has_events l) ep
    ok (
      record t { accepted_sockets = t.accepted_sockets ++ newcomer ep s session' false ∷ [] },
      out_by (at_client ep) out,
    )

  -- The constructor for an accepted socket, which `remote_endpoint` ends if the socket is not
  -- connected, then the datagram.
  unfoldable pub on_accept : Platform → DtlsLink → UdpSocket → Bytes → Outcome (DtlsLink × Wired)
  unfolding generate_id accepted_session welcome turn_away Net.set_events find
  on_accept p t s buf =
      let s' = Net.set_events true s in
      elim s'.peer as (λ _. Outcome (DtlsLink × Wired)) [
        | none ↦ fails system_error
        | some ep ↦
            let name = ep.address ++ codes ":" ++ p.naming.show ep.port in
            let l = generate_id p.naming.hash_text name (new_link accepted) in
            let fresh = ssl.accept_state (length t.accepted_sockets) in
            let (session, out) = accepted_session ssl.engine fresh in
            let done =
              if is_some (find ep t.node.clients)
              then turn_away t ep l s' session buf
              else welcome p t ep l s' session buf in
            done >>= λ r. ok (r.0, out_by (at_client ep) out ++ r.1)
      ]

  -- The methods of `UDPSocketEvents` that the link overrides; `onError` is empty, and so is `onClose`.
  unfoldable pub deliver : Platform → DtlsLink → Report → Outcome (DtlsLink × Wired)
  unfolding receive_main on_accept
  deliver p t (received ep buf) = receive_main ssl.engine t ep buf
  deliver p t (Net.accepted s buf) = on_accept p t s buf
  deliver p t (error code) = ok (t, [])
  deliver p t closed = ok (t, [])

  abbrev pub deliver_all : Platform → DtlsLink → List Report → Outcome (DtlsLink × Wired)
  deliver_all p t rs = chain (deliver p) t rs

  -- The same, of an accepted socket: any report goes to the link, which must still be there. Such a
  -- socket does not listen.
  unfoldable pub deliver_at :
      DtlsLink → ℕ → Accepted DtlsSocket → List Report → Outcome (DtlsLink × Wired)
  unfolding receive_at
  deliver_at t i a [] = ok (t, [])
  deliver_at t i a (received ep buf ∷ more) =
      if a.is_kept then receive_at ssl.engine t i a ep buf else fails dangling_pointer
  deliver_at t i a (r ∷ more) = if a.is_kept then ok (t, []) else fails dangling_pointer

  unfoldable pub socket_step : Platform → DtlsLink → Completion → Outcome (DtlsLink × Wired)
  unfolding complete chain deliver
  socket_step p t c =
      elim (complete p.system p.local c t.socket.socket) as (λ _. Outcome (DtlsLink × Wired)) [
        | none ↦ ok (t, [])
        | some (s, reports) ↦
            deliver_all p (record t { socket = record t.socket { socket = s } }) reports
      ]

  unfoldable pub guest_step :
      Platform → DtlsLink → ℕ → Completion → Accepted DtlsSocket → Outcome (DtlsLink × Wired)
  unfolding complete deliver_at
  guest_step p t i c a =
      elim (complete p.system p.local c a.socket.socket) as (λ _. Outcome (DtlsLink × Wired)) [
        | none ↦ ok (t, [])
        | some (s, reports) ↦
            let a' = record a { socket = record a.socket { socket = s } } in
            deliver_at (record t { accepted_sockets = set t.accepted_sockets i a' }) i a' reports
      ]

  -- One step; what is not outstanding does not complete, and nothing happens.
  unfoldable pub step : Platform → DtlsLink → Event → Outcome (DtlsLink × Wired)
  unfolding call_main timer_step socket_step guest_timer_step guest_step
  step p t (called c _) = call_main ssl.engine p.naming.less t c
  step p t (timer_done aborted) = timer_step ssl.engine p.naming.less t aborted
  step p t (socket_done c) = socket_step p t c
  step p t (guest_timer_done i aborted) =
      elim (get_elem? t.accepted_sockets i) as (λ _. Outcome (DtlsLink × Wired)) [
        | none ↦ ok (t, [])
        | some a ↦ guest_timer_step ssl.engine p.naming.less t i aborted a
      ]
  step p t (guest_done i c) =
      elim (get_elem? t.accepted_sockets i) as (λ _. Outcome (DtlsLink × Wired)) [
        | none ↦ ok (t, [])
        | some a ↦ guest_step p t i c a
      ]

  abbrev pub run : Platform → DtlsLink → List Event → Outcome (DtlsLink × Wired)
  run p t es = chain (step p) t es

  -- The constructors of a client, which starts the handshake with a `_mode` that the memory holds, and of
  -- a server, whose `_ssl` is null.
  unfoldable pub client_link : Platform → SslMode → Bytes → ℕ → DtlsLink × List Out
  unfolding Net.connect Net.set_events new_socket dtls_client
  client_link p found addr port =
      let (s, _) = Net.connect p.system addr port (Net.set_events true new_socket) in
      let (session, out) = dtls_client ssl.engine found ssl.connect_state in
      (
        record {
          node = alone (new_link client);
          socket = record { socket = s; session = ok session };
          waits = 0;
          accepted_sockets = [];
        },
        out,
      )

  unfoldable pub server_link : Platform → ℕ → DtlsLink
  unfolding Net.listen Net.set_events new_socket
  server_link p port =
      let (s, _) = Net.listen p.system port (Net.set_events true new_socket) in
      record {
        node = alone (new_link server);
        socket = record { socket = s; session = fails null_pointer };
        waits = 0;
        accepted_sockets = [];
      }
