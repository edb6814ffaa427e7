-- ===== src/Carrier/Udp.antt =====
-- `VPNUDPLink` of svoiptunnel/vpnudplink.cpp: a link with its socket, and the sockets that it has
-- accepted. The completions of asynchronous operations, the waits of the timers and the calls of the
-- program are the steps.
pub mod Refined
pub mod Taken
pub mod Lost
pub mod Grows
use svoiptunnel.Net.Udp as Net
use svoiptunnel.Net.Udp.{
  System, UdpSocket, Report, Completion, received, error, closed, complete, new_socket,
}
use svoiptunnel.Base.{
  ℕ, suc, ◌+◌, ◌-◌, Bool, true, false, not, ◌&&◌, List, [], ◌∷◌, ◌++◌, Bytes, codes, Option, none,
  some, Outcome, ok, fails, ◌>>=◌, if◌then◌else◌, ltb, set, get_elem?, system_error,
  dangling_pointer,
}
use svoiptunnel.Base.Dict.{Dict, find, assign}
use svoiptunnel.Vpn.Endpoints.{endpoint_eq}
use svoiptunnel.Vpn.Link.{
  Endpoint, Effect, Link, accepted, client, server, schedule, new_link, generate_id, set_events,
  on_link_ready, on_receive,
}
use svoiptunnel.Vpn.Node as Node
use svoiptunnel.Vpn.Node.{
  Node, Call, Sent, attach, do_connect, do_ping, do_disconnect, link_ready, link_down, receive,
  expire, setup, data_out, signal_out, accept, perform, self, sent_by,
}
use svoiptunnel.Vpn.Tunnel.{alone, from_guest}
use svoiptunnel.Carrier.Guests.{
  chain, Accepted, SocketLink, Naming, call_main, call_at, timer_step, guest_timer_step, joined,
  release, accepted_link, call_guest, IsPublic, is_some, waits_of,
}

-- What the links use of the platform; and the local endpoint of the socket that listens.
pub record Platform : Type 0 where
  pub naming : Naming
  pub system : System
  pub local : Endpoint

abbrev pub UdpLink : Type 0
UdpLink = SocketLink UdpSocket

-- The datagram goes to the new link, which the map keeps if its endpoint is not there.
unfoldable pub welcome :
    Platform → Node → Endpoint → Link × List Effect → Bytes → Outcome (Node × Sent)
unfolding Node.on_accept call_guest
welcome p n ep (l, ready) buf = do
  (n', sent) ← call_guest p.naming.less (Node.on_accept p.naming.less ep l n) ep (receive ep buf)
  ok (n', from_guest ep (sent_by self ready) ++ sent)

-- `insert` leaves a map that has the endpoint as it is. The link takes the datagram and is deleted.
unfoldable pub turn_away :
    Platform → Node → Endpoint → Link × List Effect → Bytes → Outcome (Node × Sent)
unfolding set_events on_receive
turn_away p n ep (l, ready) buf = do
  (l', sent) ← on_receive (set_events n.link.has_events l) ep buf
  ok (n, from_guest ep (sent_by self (ready ++ sent)))

unfoldable pub on_accept : Platform → UdpLink → UdpSocket → Bytes → Outcome (UdpLink × Sent)
unfolding accepted_link welcome turn_away joined Net.set_events find
on_accept p t s buf = do
  (ep, ready) ← accepted_link p.naming (Net.set_events true s).peer
  if is_some (find ep t.node.clients)
      then joined t (Net.set_events true s) ep false (turn_away p t.node ep ready buf)
      else joined t (Net.set_events true s) ep true (welcome p t.node ep ready buf)

-- The methods of `UDPSocketEvents` that the link overrides; `onError` is empty, and so is `onClose`.
unfoldable pub deliver : Platform → UdpLink → Report → Outcome (UdpLink × Sent)
unfolding call_main on_accept
deliver p t (received ep buf) = call_main p.naming.less t (receive ep buf)
deliver p t (Net.accepted s buf) = on_accept p t s buf
deliver p t (error code) = ok (t, [])
deliver p t closed = ok (t, [])

abbrev pub deliver_all : Platform → UdpLink → List Report → Outcome (UdpLink × Sent)
deliver_all p t rs = chain (deliver p) t rs

-- The same, of an accepted socket: any report goes to the link, which must still be there. Such a
-- socket does not listen.
unfoldable pub deliver_at :
    Platform → UdpLink → ℕ → Accepted UdpSocket → List Report → Outcome (UdpLink × Sent)
unfolding call_at
deliver_at p t i a [] = ok (t, [])
deliver_at p t i a (received ep buf ∷ more) =
    if a.is_kept then call_at p.naming.less t i a (receive ep buf) else fails dangling_pointer
deliver_at p t i a (r ∷ more) = if a.is_kept then ok (t, []) else fails dangling_pointer

-- What can happen to a link; a position is one of the accepted sockets, in order.
pub data Event : Type 0 where
  called : (c : Call) → IsPublic c → Event
  timer_done : Bool → Event
  socket_done : Completion → Event
  guest_timer_done : ℕ → Bool → Event
  guest_done : ℕ → Completion → Event

socket_step : Platform → UdpLink → Completion → Outcome (UdpLink × Sent)
unfolding complete chain deliver
socket_step p t c = elim (complete p.system p.local c t.socket) as (λ _. Outcome (UdpLink × Sent)) [
  | none ↦ ok (t, [])
  | some r ↦ deliver_all p (record t { socket = r.0 }) r.1
]

guest_step : Platform → UdpLink → ℕ → Completion → Accepted UdpSocket → Outcome (UdpLink × Sent)
unfolding complete deliver_at
guest_step p t i c a =
    elim (complete p.system p.local c a.socket) as (λ _. Outcome (UdpLink × Sent)) [
      | none ↦ ok (t, [])
      | some (s, reports) ↦
          let a' = record a { socket = s } in
          deliver_at p (record t { accepted_sockets = set t.accepted_sockets i a' }) i a' reports
    ]

-- One step; what is not outstanding does not complete, and nothing happens.
unfoldable pub step : Platform → UdpLink → Event → Outcome (UdpLink × Sent)
unfolding call_main timer_step socket_step guest_timer_step guest_step
step p t (called c _) = call_main p.naming.less t c
step p t (timer_done aborted) = timer_step p.naming.less t aborted
step p t (socket_done c) = socket_step p t c
step p t (guest_timer_done i aborted) =
    elim (get_elem? t.accepted_sockets i) as (λ _. Outcome (UdpLink × Sent)) [
      | none ↦ ok (t, [])
      | some a ↦ guest_timer_step p.naming.less t i aborted a
    ]
step p t (guest_done i c) =
    elim (get_elem? t.accepted_sockets i) as (λ _. Outcome (UdpLink × Sent)) [
      | none ↦ ok (t, [])
      | some a ↦ guest_step p t i c a
    ]

abbrev pub run : Platform → UdpLink → List Event → Outcome (UdpLink × Sent)
run p t es = chain (step p) t es

-- The constructors of a client, which is ready at once, and of a server, which never is.
unfoldable pub client_link : Platform → Bytes → ℕ → UdpLink × Sent
unfolding Net.connect Net.set_events new_socket on_link_ready
client_link p addr port =
    let (s, _) = Net.connect p.system addr port (Net.set_events true new_socket) in
    let (l, sent) = on_link_ready (new_link client) in
    (record { node = alone l; socket = s; waits = 1; accepted_sockets = [] }, sent_by self sent)

unfoldable pub server_link : Platform → ℕ → UdpLink
unfolding Net.listen Net.set_events new_socket
server_link p port =
    let (s, _) = Net.listen p.system port (Net.set_events true new_socket) in
    record { node = alone (new_link server); socket = s; waits = 0; accepted_sockets = [] }
