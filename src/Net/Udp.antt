-- ===== src/Net/Udp.antt =====
-- `udpsocket` of svoiptunnel/udpsocket.cpp, as it is built where _WIN32 is not defined. An asynchronous
-- operation of boost::asio is counted while it is outstanding, and its completion handler is a call.
pub mod Deaf
use svoiptunnel.Net.Steps.{all}
use svoiptunnel.Base.{
  ℕ, Bool, Bytes, List, Option, [], codes, false, ltb, none, some, true, ◌++◌, ◌+◌, ◌-◌, ◌∷◌,
  if◌then◌else◌,
}
use svoiptunnel.Vpn.Link.{Endpoint}

-- What the system answers: the endpoints of a host name, none where the resolver throws; the local port
-- after a connection to an endpoint, none where it throws; the port of a socket that is opened and bound
-- to the given one, none where that throws; and whether one can be bound to a local endpoint.
pub record System : Type 0 where
  pub resolve : Bytes → ℕ → Option (List Endpoint)
  pub connect_to : Endpoint → Option ℕ
  pub bind_port : ℕ → Option ℕ
  pub can_bind : Endpoint → Bool

-- `boost::system::error_code`: success, the errors that the code tells apart, and any other.
pub data ErrorCode : Type 0 where
  success message_size operation_aborted : ErrorCode
  failure : ℕ → ErrorCode

-- A default `udp::endpoint`.
abbrev pub unspecified : Endpoint
unspecified = record { address = codes "0.0.0.0"; port = 0 }

pub record UdpSocket : Type 0 where
  -- whether `_pEvents` is set
  pub has_events : Bool
  pub listening : Bool
  pub remote : Endpoint
  pub local_port : ℕ
  -- what `_socket` is connected to
  pub peer : Option Endpoint
  -- the calls of `async_receive` and of `async_receive_from` that are outstanding
  pub receives : ℕ
  pub listens : ℕ

-- The calls of `UDPSocketEvents`.
pub data Report : Type 0 where
  received : Endpoint → Bytes → Report
  accepted : UdpSocket → Bytes → Report
  error : ErrorCode → Report
  closed : Report

unfoldable pub new_socket : UdpSocket
new_socket = record {
  has_events = false;
  listening = false;
  remote = unspecified;
  local_port = 0;
  peer = none;
  receives = 0;
  listens = 0;
}

unfoldable pub set_events : Bool → UdpSocket → UdpSocket
set_events present u = record u { has_events = present }

unfoldable pub start_receive : UdpSocket → UdpSocket
start_receive u = record u { receives = u.receives + 1 }

unfoldable pub start_listen : UdpSocket → UdpSocket
start_listen u = record u { listens = u.listens + 1 }

-- The connection to an endpoint of the resolver; `_remote_endpoint` is set before it.
unfoldable pub connect_endpoint : System → Endpoint → UdpSocket → UdpSocket × Bool
unfolding start_receive
connect_endpoint sys ep u = elim (sys.connect_to ep) [
  | none ↦ (record u { remote = ep }, false)
  | some port ↦ (start_receive (record u { remote = ep; peer = some ep; local_port = port }), true)
]

unfoldable pub connect : System → Bytes → ℕ → UdpSocket → UdpSocket × Bool
unfolding connect_endpoint
connect sys addr port u = elim (sys.resolve addr port) [
  | none ↦ (u, false)
  | some found ↦ elim found [ [] ↦ (u, false) | ep ∷ more ↦ connect_endpoint sys ep u ]
]

unfoldable pub listen : System → ℕ → UdpSocket → UdpSocket × Bool
unfolding start_listen
listen sys port u = elim (sys.bind_port port) [
  | none ↦ (u, false)
  | some bound ↦ (start_listen (record u { local_port = port; listening = true }), true)
]

unfoldable pub bind : System → UdpSocket → UdpSocket × Bool
bind sys u = elim (sys.bind_port 0) [
  | none ↦ (u, false)
  | some bound ↦ (record u { local_port = bound }, true)
]

unfoldable pub bind_and_connect : System → Endpoint → Endpoint → UdpSocket → UdpSocket × Bool
unfolding start_receive
bind_and_connect sys local remote u =
    if sys.can_bind local
    then elim (sys.connect_to remote) as (λ _. UdpSocket × Bool) [
      | none ↦ (record u { remote = remote }, false)
      | some _ ↦ (
        start_receive (record u { remote = remote; peer = some remote; local_port = local.port }),
        true,
      )
    ]
    else (u, false)

-- A call of `_pEvents`, if it is set.
abbrev pub report : UdpSocket → Report → List Report
report u r = if u.has_events then r ∷ [] else []

-- What is outstanding completes later, as aborted.
unfoldable pub close : UdpSocket → UdpSocket × List Report
close u = (record u { peer = none }, report u closed)

-- `onAccept`: the datagram that has come in opens a socket of its own.
unfoldable pub on_accept : System → Endpoint → Endpoint → Bytes → UdpSocket → List Report
unfolding bind_and_connect new_socket
on_accept sys local remote buf u =
    report u (accepted (bind_and_connect sys local remote new_socket).0 buf)

-- The operation that completes is no longer outstanding.
unfoldable pub handle_receive : ErrorCode → Bytes → UdpSocket → UdpSocket × List Report
unfolding start_receive
handle_receive code buf u =
    let u' = record u { receives = u.receives - 1 } in
    elim code as (λ _. UdpSocket × List Report) [
      | success ↦ (start_receive u', report u (received u.remote buf))
      | message_size ↦ (start_receive u', report u (received u.remote buf))
      | operation_aborted ↦ (u', [])
      | failure n ↦ (u', report u (error (failure n)))
    ]

-- `async_receive_from` has stored where the datagram comes from, which is only read behind a success.
unfoldable pub handle_listen :
    System → Endpoint → ErrorCode → Endpoint → Bytes → UdpSocket → UdpSocket × List Report
unfolding start_listen on_accept
handle_listen sys local code from buf u =
    let u' = record u { listens = u.listens - 1; remote = from } in
    elim code as (λ _. UdpSocket × List Report) [
      | success ↦ (start_listen u', on_accept sys local from buf u)
      | message_size ↦ (start_listen u', on_accept sys local from buf u)
      | operation_aborted ↦ (u', [])
      | failure n ↦ (start_listen u', report u (error (failure n)))
    ]

unfoldable pub handle_sent : ErrorCode → UdpSocket → List Report
handle_sent success u = []
handle_sent code u = report u (error code)

-- `send`: the datagram that is handed to the system, and where it goes.
unfoldable pub send : Bytes → UdpSocket → Option Endpoint × Bytes
send buf u = (u.peer, buf)

unfoldable pub send_to : Endpoint → Bytes → Option Endpoint × Bytes
send_to ep buf = (some ep, buf)

-- The completions, and their handlers: none where no such operation is outstanding.
pub data Completion : Type 0 where
  receive_done : ErrorCode → Bytes → Completion
  listen_done : ErrorCode → Endpoint → Bytes → Completion
  send_done : ErrorCode → Completion

unfoldable pub complete :
    System → Endpoint → Completion → UdpSocket → Option (UdpSocket × List Report)
unfolding handle_receive handle_listen handle_sent
complete sys local (receive_done code buf) u =
    if ltb 0 u.receives then some (handle_receive code buf u) else none
complete sys local (listen_done code from buf) u =
    if ltb 0 u.listens then some (handle_listen sys local code from buf u) else none
complete sys local (send_done code) u = some (u, handle_sent code u)

-- Completions one after the other, with all their reports.
abbrev pub complete_all :
    System → Endpoint → List Completion → UdpSocket → Option (UdpSocket × List Report)
complete_all sys local cs u = all (complete sys local) cs u
