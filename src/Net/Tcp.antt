-- ===== src/Net/Tcp.antt =====
-- `tcpsocket` of svoiptunnel/tcpsocket.cpp. An asynchronous operation of boost::asio is counted while it
-- is outstanding, and its completion handler is a call.
pub mod Lively
use svoiptunnel.Base.{
  ℕ, Bool, Bytes, List, Option, [], false, if◌then◌else◌, ltb, none, some, true, ◌++◌, ◌+◌, ◌-◌,
  ◌∷◌,
}
use svoiptunnel.Net.Udp.{ErrorCode, failure, message_size, operation_aborted, success, unspecified}
use svoiptunnel.Vpn.Link.{Endpoint}
use svoiptunnel.Net.Steps.{all}

-- What the system answers: the local port of a socket that is opened and bound, none where that throws;
-- the endpoints of a host name, none where the resolver throws; and whether a port can be listened on.
pub record System : Type 0 where
  pub open_port : Option ℕ
  pub resolve : Bytes → ℕ → Option (List Endpoint)
  pub can_listen : ℕ → Bool

pub record TcpSocket : Type 0 where
  -- whether `_pEvents` is set
  pub has_events : Bool
  pub reconnect : Bool
  pub remote : Endpoint
  pub local_port : ℕ
  -- the other end of `_socket`, while it is connected
  pub peer : Option Endpoint
  -- the calls of `async_connect`, `async_wait`, `async_receive` and `async_accept` that are outstanding
  pub connects : ℕ
  pub waits : ℕ
  pub receives : ℕ
  pub accepts : ℕ

-- The calls of `TCPSocketEvents`.
pub data Report : Type 0 where
  connected : Report
  received : Bytes → Report
  accepted : TcpSocket → Report
  error : ErrorCode → Report
  closed : Report

unfoldable pub new_socket : TcpSocket
new_socket = record {
  has_events = false;
  reconnect = false;
  remote = unspecified;
  local_port = 0;
  peer = none;
  connects = 0;
  waits = 0;
  receives = 0;
  accepts = 0;
}

unfoldable pub set_events : Bool → TcpSocket → TcpSocket
set_events present t = record t { has_events = present }

unfoldable pub timed_connect : TcpSocket → TcpSocket
timed_connect t = record t { waits = t.waits + 1 }

-- `async_connect` to the remote endpoint.
unfoldable pub start_connect : TcpSocket → TcpSocket
start_connect t = record t { connects = t.connects + 1 }

unfoldable pub start_receive : TcpSocket → TcpSocket
start_receive t = record t { receives = t.receives + 1 }

unfoldable pub start_accept : TcpSocket → TcpSocket
start_accept t = record t { accepts = t.accepts + 1 }

-- The public `connect`. A name without an endpoint is only logged.
unfoldable pub connect : System → Bytes → ℕ → TcpSocket → TcpSocket × Bool
unfolding start_connect
connect sys addr port t = elim sys.open_port [
  | none ↦ (t, false)
  | some bound ↦
      let t' = record t { local_port = bound; reconnect = true } in
      elim (sys.resolve addr port) [
        | none ↦ (t', false)
        | some found ↦ elim found [
          | [] ↦ (t', true)
          | ep ∷ more ↦ (start_connect (record t' { remote = ep }), true)
        ]
      ]
]

unfoldable pub listen : System → ℕ → TcpSocket → TcpSocket × Bool
unfolding start_accept
listen sys port t =
    if sys.can_listen port
    then (start_accept (record t { local_port = port; reconnect = false }), true)
    else (t, false)

unfoldable pub close : TcpSocket → TcpSocket
close t = record t { peer = none }

-- A call of `_pEvents`, if it is set.
abbrev pub report : TcpSocket → Report → List Report
report t r = if t.has_events then r ∷ [] else []

unfoldable pub on_error : ErrorCode → TcpSocket → TcpSocket × List Report
unfolding close timed_connect
on_error code t = (if t.reconnect then timed_connect (close t) else close t, report t (error code))

unfoldable pub on_close : TcpSocket → List Report
on_close t = report t closed

-- The private `connect`, which the timer calls: the operation that completes is no longer outstanding.
unfoldable pub handle_wait : ErrorCode → TcpSocket → TcpSocket
unfolding start_connect
handle_wait operation_aborted t = record t { waits = t.waits - 1 }
handle_wait code t = start_connect (record t { waits = t.waits - 1 })

unfoldable pub handle_connect : ErrorCode → TcpSocket → TcpSocket × List Report
unfolding start_receive timed_connect
handle_connect success t = (
  start_receive (record t { connects = t.connects - 1; peer = some t.remote }),
  report t connected,
)
handle_connect code t = (timed_connect (record t { connects = t.connects - 1 }), [])

unfoldable pub handle_receive : ErrorCode → Bytes → TcpSocket → TcpSocket × List Report
unfolding start_receive on_error
handle_receive code buf t =
    let t' = record t { receives = t.receives - 1 } in
    elim code as (λ _. TcpSocket × List Report) [
      | success ↦ (start_receive t', report t (received buf))
      | message_size ↦ (start_receive t', report t (received buf))
      | operation_aborted ↦ (t', [])
      | failure n ↦ on_error (failure n) t'
    ]

-- The accepted socket is a new one that is connected to `from`.
unfoldable pub handle_accept : ErrorCode → Endpoint → TcpSocket → TcpSocket × List Report
unfolding start_accept on_error new_socket
handle_accept code from t =
    let t' = record t { accepts = t.accepts - 1 } in
    elim code as (λ _. TcpSocket × List Report) [
      | success ↦ (start_accept t', report t (accepted (record new_socket { peer = some from })))
      | message_size ↦ on_error message_size t'
      | operation_aborted ↦ (t', [])
      | failure n ↦ on_error (failure n) t'
    ]

-- `send`: the bytes that are handed to the system for the other end; an exception is only logged.
unfoldable pub send : Bytes → TcpSocket → Option Endpoint × Bytes
send buf t = (t.peer, buf)

-- It only logs.
unfoldable pub handle_sent : ErrorCode → TcpSocket → TcpSocket × List Report
handle_sent code t = (t, [])

-- The completions, and their handlers: none where no such operation is outstanding.
pub data Completion : Type 0 where
  wait_done connect_done send_done : ErrorCode → Completion
  receive_done : ErrorCode → Bytes → Completion
  accept_done : ErrorCode → Endpoint → Completion

unfoldable pub complete : Completion → TcpSocket → Option (TcpSocket × List Report)
unfolding handle_wait handle_connect handle_receive handle_accept handle_sent
complete (wait_done code) t = if ltb 0 t.waits then some (handle_wait code t, []) else none
complete (connect_done code) t = if ltb 0 t.connects then some (handle_connect code t) else none
complete (receive_done code buf) t =
    if ltb 0 t.receives then some (handle_receive code buf t) else none
complete (accept_done code from) t =
    if ltb 0 t.accepts then some (handle_accept code from t) else none
complete (send_done code) t = some (handle_sent code t)

-- Completions one after the other, with all their reports.
abbrev pub complete_all : List Completion → TcpSocket → Option (TcpSocket × List Report)
complete_all cs t = all complete cs t
