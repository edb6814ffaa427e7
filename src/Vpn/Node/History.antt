-- ===== src/Vpn/Node/History.antt =====
-- What holds of a link after any history of calls.
use svoiptunnel.Base.{
  ◌≤◌, ◌≡◌, Bool, List, [], ◌∷◌, ◌++◌, arith, Bytes, Outcome, ok, fails, >>=-eq-ok, if◌then◌else◌,
}
use svoiptunnel.Vpn.Wire.{Header, MsgType, signalling, read_header, data_of}
use svoiptunnel.Vpn.Link.{
  Endpoint, Mode, Effect, Link, refreshed, dispatch, on_receive, setup_data_conn, send_data,
  is_client, client_default, accepted_default, connect, ping, disconnect, on_link_ready,
  on_link_down, set_events,
}
use svoiptunnel.Vpn.Node.{
  Node, self, Sent, Call, attach, do_connect, do_ping, do_disconnect, link_ready, link_down,
  receive, expire, setup, data_out, signal_out, accept, perform, run, send_signalling, timer_tick,
  tick_link, on_accept, on_link_or, sent_by,
}

-- The time that is left is never more than what a message gives.
abbrev pub IsTimely : Mode → Link → Type 0
IsTimely m l =
    (l.mode ≡ m) × (l.activity_timer ≤ (if is_client m then client_default else accepted_default))

dispatch-IsTimely :
    (m : Mode) (t : MsgType) (l l' : Link) (ep : Endpoint) (h : Header) (body : Bytes)
    (es : List Effect)
    → IsTimely m l
    → dispatch t l ep h body ≡ ok (l', es)
    → IsTimely m l'
unfolding dispatch
dispatch-IsTimely m signalling l l' ep h body es v e = ground arith
dispatch-IsTimely m _ l l' ep h body es v e = ground arith

refreshed-IsTimely : (m : Mode) (l : Link) → IsTimely m l → IsTimely m (refreshed l)
unfolding refreshed
refreshed-IsTimely m l v = ground arith

on_receive-IsTimely :
    (m : Mode) (l l' : Link) (ep : Endpoint) (buf : Bytes) (es : List Effect)
    → IsTimely m l
    → on_receive l ep buf ≡ ok (l', es)
    → IsTimely m l'
unfolding on_receive
on_receive-IsTimely m l l' ep buf es v e = ground (
  arith,
  refreshed-IsTimely m l v,
  dispatch-IsTimely m (read_header buf).msg_type (refreshed l) l' ep (read_header buf) (data_of buf)
      es,
)

tick_link-IsTimely : (m : Mode) (l : Link) → IsTimely m l → IsTimely m (tick_link l).0
unfolding tick_link
tick_link-IsTimely m l v = ground arith

pub on_link_or-eq-ok :
    (n : Node) (m : Outcome (Link × List Effect)) {n' : Node} {sent : Sent}
    → on_link_or n m ≡ ok (n', sent)
    → (es : List Effect) × (m ≡ ok (n'.link, es)) × (sent ≡ sent_by self es)
on_link_or-eq-ok n (ok (l, es)) e = (es, ground arith, ground arith)
on_link_or-eq-ok n (fails x) e = cc

-- No call changes the mode, nor lets the timer exceed its default.
pub perform-IsTimely :
    (less : Endpoint → Endpoint → Bool) (m : Mode) (n n' : Node) (c : Call) (sent : Sent)
    → IsTimely m n.link
    → perform less n c ≡ ok (n', sent)
    → IsTimely m n'.link
unfolding perform
perform-IsTimely less m n n' (attach present) sent v e = unfold set_events in ground arith
perform-IsTimely less m n n' do_connect sent v e = unfold connect in ground arith
perform-IsTimely less m n n' do_ping sent v e = unfold ping in ground arith
perform-IsTimely less m n n' do_disconnect sent v e = unfold disconnect in ground arith
perform-IsTimely less m n n' link_ready sent v e = unfold on_link_ready in ground arith
perform-IsTimely less m n n' link_down sent v e = unfold on_link_down in ground arith
perform-IsTimely less m n n' (receive ep buf) sent v e =
    let (es, r, _) = on_link_or-eq-ok n (on_receive n.link ep buf) e in
    on_receive-IsTimely m n.link n'.link ep buf es v r
perform-IsTimely less m n n' (expire aborted) sent v e =
    unfold timer_tick in ground (arith, tick_link-IsTimely m n.link v)
perform-IsTimely less m n n' (setup callid idx port) sent v e =
    unfold setup_data_conn in ground arith
perform-IsTimely less m n n' (data_out port buf) sent v e = unfold send_data in ground arith
perform-IsTimely less m n n' (signal_out ch buf vpn_id) sent v e =
    unfold send_signalling in ground arith
perform-IsTimely less m n n' (accept ep l) sent v e = unfold on_accept in ground arith

pub run-cons :
    (less : Endpoint → Endpoint → Bool) (n n'' : Node) (c : Call) (cs : List Call) (all : Sent)
    → run less n (c ∷ cs) ≡ ok (n'', all)
    → (n' : Node) × (sent later : Sent) × (perform less n c ≡ ok (n', sent))
      × (run less n' cs ≡ ok (n'', later))
      × (all ≡ sent ++ later)
unfolding run
run-cons less n n'' c cs all e =
    let ((n', sent), first, more) = >>=-eq-ok (perform less n c) _ e in
    let ((m, later), rest, done) = >>=-eq-ok (run less n' cs) _ more in
    (n', sent, later, first, ground arith, ground arith)

-- A link of mode `m` whose timer is at most the default of the mode (2 for a client, 12 for any other
-- link) stays so through every history of calls and received buffers that ends without an error.
pub run-IsTimely :
    (less : Endpoint → Endpoint → Bool) (m : Mode) (cs : List Call) (n n' : Node) (sent : Sent)
    → IsTimely m n.link
    → run less n cs ≡ ok (n', sent)
    → IsTimely m n'.link
run-IsTimely less m [] n n' sent v e = unfold run in ground arith
run-IsTimely less m (c ∷ cs) n n' sent v e =
    let (n₁, sent₁, later, first, rest, _) = run-cons less n n' c cs sent e in
    run-IsTimely less m cs n₁ n' later (perform-IsTimely less m n n₁ c sent₁ v first) rest
