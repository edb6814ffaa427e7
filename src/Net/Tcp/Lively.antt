-- ===== src/Net/Tcp/Lively.antt =====
-- What is outstanding on a socket of svoiptunnel/tcpsocket.cpp, and what it reports.
use svoiptunnel.Net.Tcp.{
  Completion, Report, System, TcpSocket, accept_done, closed, complete, complete_all, connect,
  connect_done, error, handle_accept, handle_connect, handle_receive, handle_sent, handle_wait,
  new_socket, on_error, receive_done, report, send_done, set_events, wait_done,
}
use svoiptunnel.Net.Udp.{failure, message_size, operation_aborted, success}
use svoiptunnel.Vpn.Link.{Endpoint}
use svoiptunnel.Base.{
  ℕ, All, append-nil, refl, false, Bool-cases, Bytes, List, [], arith, inl, inr, some, true, ◌+◌,
  ◌∙◌, ◌∷◌, ◌≡◌,
}
use svoiptunnel.Net.Steps.{all-Keeps, head_of, All-any}

-- A client: what it has outstanding is one connection, one wait or one receive.
abbrev pub IsBusy : TcpSocket → Type 0
IsBusy t = (t.connects + t.waits + t.receives ≡ 1) × (t.accepts ≡ 0) × (t.reconnect ≡ true)

-- No wait and no receive is given up.
abbrev pub GoesOn : Completion → Type 0
GoesOn (wait_done operation_aborted) = ⊥
GoesOn (receive_done operation_aborted buf) = ⊥
GoesOn _ = Unit

complete-IsBusy :
    (c : Completion) (t u : TcpSocket) (out : List Report)
    → IsBusy t
    → GoesOn c
    → complete c t ≡ some (u, out)
    → IsBusy u
unfolding complete handle_wait handle_connect handle_receive handle_accept handle_sent on_error
complete-IsBusy (wait_done operation_aborted) t u out v g h = absurd g
complete-IsBusy (wait_done _) t u out v g h = ground arith
complete-IsBusy (connect_done success) t u out v g h = ground arith
complete-IsBusy (connect_done _) t u out v g h = ground arith
complete-IsBusy (receive_done operation_aborted buf) t u out v g h = absurd g
complete-IsBusy (receive_done success buf) t u out v g h = ground arith
complete-IsBusy (receive_done message_size buf) t u out v g h = ground arith
complete-IsBusy (receive_done (failure n) buf) t u out v g h = ground arith
complete-IsBusy (accept_done code from) t u out v g h = absurd (ground arith)
complete-IsBusy (send_done code) t u out v g h = ground arith

-- The state in which `connect` leaves a new socket.
connect-IsBusy :
    (sys : System) (addr : Bytes) (port bound : ℕ) (ep : Endpoint) (more : List Endpoint)
    → sys.open_port ≡ some bound
    → sys.resolve addr port ≡ some (ep ∷ more)
    → IsBusy (connect sys addr port (set_events true new_socket)).0
unfolding connect set_events new_socket
connect-IsBusy sys addr port bound ep more e f = ground (arith, e, f)

-- A new client socket that can be opened, to a host name that has an endpoint, never goes quiet: after
-- its `connect` and any completions, in any order and with any errors, of which no wait and no
-- receive is an aborted one, exactly one of a connection, a wait for the next one and a receive is
-- outstanding, and `_reconnect` is still set.
pub complete_all-IsBusy :
    (sys : System) (addr : Bytes) (port bound : ℕ) (ep : Endpoint) (more : List Endpoint)
    (cs : List Completion) (u : TcpSocket) (out : List Report)
    → sys.open_port ≡ some bound
    → sys.resolve addr port ≡ some (ep ∷ more)
    → All GoesOn cs
    → complete_all cs (connect sys addr port (set_events true new_socket)).0 ≡ some (u, out)
    → IsBusy u
complete_all-IsBusy sys addr port bound ep more cs u out e f g h =
    (all-Keeps complete IsBusy GoesOn (λ _. Unit)
      (λ c s t sent v k j. (complete-IsBusy c s t sent v k j, All-any sent)) cs
      (connect sys addr port (set_events true new_socket)).0 u out
      (connect-IsBusy sys addr port bound ep more e f) g h).0

abbrev pub IsOpen : Report → Type 0
IsOpen closed = ⊥
IsOpen _ = Unit

All-report : (t : TcpSocket) (r : Report) → IsOpen r → All IsOpen (report t r)
All-report t r o = elim (Bool-cases t.has_events) [ inl e ↦ rw e (o, tt) | inr e ↦ rw e tt ]

complete-IsOpen :
    (c : Completion) (t u : TcpSocket) (out : List Report)
    → complete c t ≡ some (u, out)
    → All IsOpen out
unfolding complete handle_connect handle_receive handle_accept handle_sent on_error
complete-IsOpen (wait_done code) t u out h = ground arith
complete-IsOpen (connect_done success) t u out h = ground arith
complete-IsOpen (connect_done _) t u out h = ground arith
complete-IsOpen (receive_done success buf) t u out h = ground arith
complete-IsOpen (receive_done message_size buf) t u out h = ground arith
complete-IsOpen (receive_done operation_aborted buf) t u out h = ground arith
complete-IsOpen (receive_done (failure n) buf) t u out h = ground arith
complete-IsOpen (accept_done success from) t u out h = ground arith
complete-IsOpen (accept_done message_size from) t u out h = ground arith
complete-IsOpen (accept_done operation_aborted from) t u out h = ground arith
complete-IsOpen (accept_done (failure n) from) t u out h = ground arith
complete-IsOpen (send_done code) t u out h = ground arith

-- Whatever completes on a socket, in any order and with any errors, the connection's end included,
-- `onClose` of the events is never called, and so neither is `onLinkDown` of a TCP link, which only
-- that does.
pub complete_all-IsOpen :
    (cs : List Completion) (t u : TcpSocket) (out : List Report)
    → complete_all cs t ≡ some (u, out)
    → All IsOpen out
complete_all-IsOpen cs t u out h =
    (all-Keeps complete (λ _. Unit) (λ _. Unit) IsOpen
      (λ c s s' sent _ _ f. (tt, complete-IsOpen c s s' sent f)) cs t u out tt (All-any cs) h).1

-- A socket that has nothing outstanding.
abbrev pub IsShut : TcpSocket → Type 0
IsShut t = (t.connects ≡ 0) × (t.waits ≡ 0) × (t.receives ≡ 0) × (t.accepts ≡ 0)

step-IsShut :
    (c : Completion) (t u : TcpSocket) (out : List Report)
    → IsShut t
    → Unit {0}
    → complete c t ≡ some (u, out)
    → IsShut u × All (λ _. ⊥) out
unfolding complete handle_sent
step-IsShut (wait_done code) t u out v _ h = absurd (ground arith)
step-IsShut (connect_done code) t u out v _ h = absurd (ground arith)
step-IsShut (receive_done code buf) t u out v _ h = absurd (ground arith)
step-IsShut (accept_done code from) t u out v _ h = absurd (ground arith)
step-IsShut (send_done code) t u out v _ h = ground arith

none_reported : (out : List Report) → All (λ _. ⊥) out → out ≡ []
none_reported [] h = refl
none_reported (r ∷ out) h = absurd h.0

accept_failed :
    (n : ℕ) (from : Endpoint) (t u : TcpSocket) (out : List Report)
    → t.accepts ≡ 1
    → t.connects ≡ 0
    → t.waits ≡ 0
    → t.receives ≡ 0
    → t.reconnect ≡ false
    → complete (accept_done (failure n) from) t ≡ some (u, out)
    → IsShut u × (out ≡ report t (error (failure n)))
unfolding complete handle_accept on_error
accept_failed n from t u out a c w r k h = ground arith

-- A listening socket with one accept outstanding and nothing else, which fails with an error other
-- than an aborted one (too many open files, say): whatever completes later, nothing is outstanding,
-- and the error is all that is reported, so no connection is handed over any more.
pub handle_accept-IsShut :
    (n : ℕ) (from : Endpoint) (cs : List Completion) (t u : TcpSocket) (out : List Report)
    → t.accepts ≡ 1
    → t.connects ≡ 0
    → t.waits ≡ 0
    → t.receives ≡ 0
    → t.reconnect ≡ false
    → complete_all (accept_done (failure n) from ∷ cs) t ≡ some (u, out)
    → IsShut u × (out ≡ report t (error (failure n)))
unfolding handle_accept
handle_accept-IsShut n from cs t u out a c w r k h =
    let f = head_of complete (accept_done (failure n) from) cs t u out h in
    let (v, e) = accept_failed n from t f.between f.before a c w r k f.first in
    let (v', q) =
      all-Keeps complete IsShut (λ _. Unit) (λ _. ⊥) step-IsShut cs f.between u f.behind v
        (All-any cs) f.later in
    (v', f.joins ∙ rw (e, none_reported f.behind q) (append-nil (report t (error (failure n)))))
