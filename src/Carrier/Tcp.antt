-- ===== src/Carrier/Tcp.antt =====
-- `VPNTCPLink` of svoiptunnel/vpntcplink.cpp: a link with its socket, and the sockets that it has
-- accepted.
pub mod Refined
use svoiptunnel.Net.Tcp as Net
use svoiptunnel.Net.Tcp.{
  Completion, Report, System, TcpSocket, closed, complete, connected, error, new_socket, received,
  start_receive,
}
use svoiptunnel.Base.{
  ℕ, Bool, false, true, List, [], ◌∷◌, ◌++◌, Bytes, Outcome, ok, fails, ◌>>=◌, none, some,
  if◌then◌else◌, set, get_elem?, system_error, dangling_pointer,
}
use svoiptunnel.Base.Dict.{find}
use svoiptunnel.Carrier.Guests.{
  chain, Accepted, SocketLink, Naming, IsPublic, accepted_link, call_at, call_main,
  guest_timer_step, is_some, joined, timer_step,
}
use svoiptunnel.Vpn.Endpoints.{endpoint_eq}
use svoiptunnel.Vpn.Link.{Endpoint, Effect, Link, client, server, new_link, set_events}
use svoiptunnel.Vpn.Node as Node
use svoiptunnel.Vpn.Node.{Node, Call, Sent, link_down, link_ready, receive, self, sent_by}
use svoiptunnel.Vpn.Tunnel.{alone, from_guest}

abbrev pub TcpLink : Type 0
TcpLink = SocketLink TcpSocket

-- The new socket is given its events and starts to receive. `insert` leaves a map that has the endpoint
-- as it is, and the link is deleted.
unfoldable pub on_accept : Naming → TcpLink → TcpSocket → Outcome (TcpLink × Sent)
unfolding accepted_link joined Node.on_accept Net.set_events start_receive find
on_accept p t s = do
  let s' = start_receive (Net.set_events true s)
  (ep, ready) ← accepted_link p s'.peer
  let out = from_guest ep (sent_by self ready.1)
  if is_some (find ep t.node.clients)
      then joined t s' ep false (ok (t.node, out))
      else joined t s' ep true (ok (Node.on_accept p.less ep ready.0 t.node, out))

-- The methods of `TCPSocketEvents`: `remote_endpoint` throws if the socket is not connected.
unfoldable pub deliver : Naming → TcpLink → Report → Outcome (TcpLink × Sent)
unfolding call_main on_accept
deliver p t connected = call_main p.less t link_ready
deliver p t (received buf) = elim t.socket.peer as (λ _. Outcome (TcpLink × Sent)) [
  | none ↦ fails system_error
  | some ep ↦ call_main p.less t (receive ep buf)
]
deliver p t (Net.accepted s) = on_accept p t s
deliver p t (error code) = ok (t, [])
deliver p t closed = call_main p.less t link_down

abbrev pub deliver_all : Naming → TcpLink → List Report → Outcome (TcpLink × Sent)
deliver_all p t rs = chain (deliver p) t rs

-- The methods of the link of an accepted socket, which has been connected once and does not listen.
guest_report : Naming → TcpLink → ℕ → Accepted TcpSocket → Report → Outcome (TcpLink × Sent)
unfolding call_at
guest_report p t i a connected = call_at p.less t i a link_ready
guest_report p t i a (received buf) = elim a.socket.peer as (λ _. Outcome (TcpLink × Sent)) [
  | none ↦ fails system_error
  | some ep ↦ call_at p.less t i a (receive ep buf)
]
guest_report p t i a (Net.accepted s) = ok (t, [])
guest_report p t i a (error code) = ok (t, [])
guest_report p t i a closed = call_at p.less t i a link_down

-- Any report of an accepted socket goes to its link, which must still be there.
unfoldable pub deliver_at :
    Naming → TcpLink → ℕ → Accepted TcpSocket → List Report → Outcome (TcpLink × Sent)
unfolding guest_report
deliver_at p t i a [] = ok (t, [])
deliver_at p t i a (r ∷ more) = if a.is_kept then guest_report p t i a r else fails dangling_pointer

-- What can happen to a link; a position is one of the accepted sockets, in order.
pub data Event : Type 0 where
  called : (c : Call) → IsPublic c → Event
  timer_done : Bool → Event
  socket_done : Completion → Event
  guest_timer_done : ℕ → Bool → Event
  guest_done : ℕ → Completion → Event

socket_step : Naming → TcpLink → Completion → Outcome (TcpLink × Sent)
unfolding complete chain deliver
socket_step p t c = elim (complete c t.socket) as (λ _. Outcome (TcpLink × Sent)) [
  | none ↦ ok (t, [])
  | some r ↦ deliver_all p (record t { socket = r.0 }) r.1
]

guest_step : Naming → TcpLink → ℕ → Completion → Accepted TcpSocket → Outcome (TcpLink × Sent)
unfolding complete deliver_at
guest_step p t i c a = elim (complete c a.socket) as (λ _. Outcome (TcpLink × Sent)) [
  | none ↦ ok (t, [])
  | some (s, reports) ↦
      let a' = record a { socket = s } in
      deliver_at p (record t { accepted_sockets = set t.accepted_sockets i a' }) i a' reports
]

-- One step; what is not outstanding does not complete, and nothing happens.
unfoldable pub step : Naming → TcpLink → Event → Outcome (TcpLink × Sent)
unfolding call_main timer_step socket_step guest_timer_step guest_step
step p t (called c _) = call_main p.less t c
step p t (timer_done aborted) = timer_step p.less t aborted
step p t (socket_done c) = socket_step p t c
step p t (guest_timer_done i aborted) =
    elim (get_elem? t.accepted_sockets i) as (λ _. Outcome (TcpLink × Sent)) [
      | none ↦ ok (t, [])
      | some a ↦ guest_timer_step p.less t i aborted a
    ]
step p t (guest_done i c) =
    elim (get_elem? t.accepted_sockets i) as (λ _. Outcome (TcpLink × Sent)) [
      | none ↦ ok (t, [])
      | some a ↦ guest_step p t i c a
    ]

abbrev pub run : Naming → TcpLink → List Event → Outcome (TcpLink × Sent)
run p t es = chain (step p) t es

-- The constructors of a client, which is ready once it is connected, and of a server.
unfoldable pub client_link : System → Bytes → ℕ → TcpLink
unfolding Net.connect Net.set_events new_socket
client_link sys addr port =
    let (s, _) = Net.connect sys addr port (Net.set_events true new_socket) in
    record { node = alone (new_link client); socket = s; waits = 0; accepted_sockets = [] }

unfoldable pub server_link : System → ℕ → TcpLink
unfolding Net.listen Net.set_events new_socket
server_link sys port =
    let (s, _) = Net.listen sys port (Net.set_events true new_socket) in
    record { node = alone (new_link server); socket = s; waits = 0; accepted_sockets = [] }
