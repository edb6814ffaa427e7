-- ===== src/Vpn/Node/Listening.antt =====
-- A listening link: its own socket carries no signalling and no data.
use svoiptunnel.Base.{
  ℕ, ◌-◌, ◌≤◌, ◌≡◌, ◌≢◌, Bool, false, List, [], ◌∷◌, ◌++◌, arith, Bytes, Outcome, ok, fails, All,
  All-append, length,
}
use svoiptunnel.Vpn.Wire.{
  MsgType, signalling, data_msg, connect_msg, ping_msg, setup_data, frame, read_header,
  read_header-frame, buffer_size, put_u16,
}
use svoiptunnel.Vpn.Link.{
  Endpoint, server, Effect, transmit, schedule, unschedule, on_connect, on_disconnect,
  on_signalling, on_receive_data, on_setup_data, on_receive, setup_data_conn, send_data, connect,
  ping, disconnect, on_link_ready, on_link_down, set_events, no_channel,
}
use svoiptunnel.Vpn.Node.History.{run-cons}
use svoiptunnel.Vpn.Node.{
  Node, Origin, self, at_client, Sent, Call, attach, do_connect, do_ping, do_disconnect, link_ready,
  link_down, receive, expire, setup, data_out, signal_out, accept, perform, run, send_signalling,
  timer_tick, tick_link, on_accept,
}

-- Neither a handler is called, nor a signalling or data message sent.
abbrev pub IsQuietEffect : Effect → Type 0
IsQuietEffect (transmit w) =
    ((read_header w).msg_type ≢ signalling) × ((read_header w).msg_type ≢ data_msg)
IsQuietEffect schedule = Unit
IsQuietEffect unschedule = Unit
IsQuietEffect (on_connect ep) = ⊥
IsQuietEffect (on_disconnect ep) = ⊥
IsQuietEffect (on_signalling ch b) = ⊥
IsQuietEffect (on_receive_data ch b) = ⊥
IsQuietEffect (on_setup_data idx port b) = ⊥

abbrev pub IsQuiet : Origin × Effect → Type 0
IsQuiet (self, e) = IsQuietEffect e
IsQuiet (at_client ep, e) = Unit

abbrev pub IsListening : Node → Type 0
IsListening n = (n.link.mode ≡ server) × (n.link.connected ≡ false)

frame-IsQuiet :
    (t : MsgType) (ch : ℕ) (p : Bytes)
    → t ≢ signalling
    → t ≢ data_msg
    → length p ≤ buffer_size
    → IsQuietEffect (transmit (frame t ch p))
frame-IsQuiet t ch p s d h = ground (arith, read_header-frame t ch p)

bare_connect : IsQuietEffect (transmit (frame connect_msg no_channel []))
bare_connect = frame-IsQuiet connect_msg no_channel [] (ground arith) (ground arith) (omega arith)

bare_ping : IsQuietEffect (transmit (frame ping_msg no_channel []))
bare_ping = frame-IsQuiet ping_msg no_channel [] (ground arith) (ground arith) (omega arith)

setup-IsQuiet :
    (callid : Bytes) (idx port : ℕ)
    → length callid ≤ buffer_size - 4
    → IsQuietEffect (transmit (frame setup_data no_channel (put_u16 idx ++ put_u16 port ++ callid)))
setup-IsQuiet callid idx port h =
    frame-IsQuiet setup_data no_channel _ (ground arith) (ground arith) (omega arith)

abbrev Sends : Outcome (Sent × Bool) → Type 0
Sends (ok (sent, _)) = All IsQuiet sent
Sends (fails e) = Unit

send_signalling-IsQuiet :
    (n : Node) (ch : ℕ) (buf vpn_id : Bytes)
    → IsListening n
    → Sends (send_signalling n ch buf vpn_id)
unfolding send_signalling
send_signalling-IsQuiet n ch buf vpn_id v = ground arith

abbrev Keeps : Node → Sent → Type 0
Keeps n' sent = IsListening n' × All IsQuiet sent

perform-Keeps :
    (less : Endpoint → Endpoint → Bool) (n n' : Node) (c : Call) (sent : Sent)
    → IsListening n
    → perform less n c ≡ ok (n', sent)
    → Keeps n' sent
unfolding perform
perform-Keeps less n n' (attach present) sent v e = unfold set_events in ground arith
perform-Keeps less n n' do_connect sent v e = unfold connect in ground (arith, bare_connect)
perform-Keeps less n n' do_ping sent v e = unfold ping in ground (arith, bare_ping)
perform-Keeps less n n' do_disconnect sent v e = unfold disconnect in ground arith
perform-Keeps less n n' link_ready sent v e = unfold on_link_ready in ground arith
perform-Keeps less n n' link_down sent v e = unfold on_link_down in ground arith
perform-Keeps less n n' (receive ep buf) sent v e = unfold on_receive in ground arith
perform-Keeps less n n' (expire aborted) sent v e = unfold timer_tick tick_link in ground arith
perform-Keeps less n n' (setup callid idx port) sent v e =
    unfold setup_data_conn in ground (arith, setup-IsQuiet callid idx port)
perform-Keeps less n n' (data_out port buf) sent v e = unfold send_data in ground arith
perform-Keeps less n n' (signal_out ch buf vpn_id) sent v e =
    ground (arith, send_signalling-IsQuiet n ch buf vpn_id v)
perform-Keeps less n n' (accept ep l) sent v e = unfold on_accept in ground arith

-- Whatever happens to a listening link in a history that ends without an error, it is never
-- connected; on its own socket it sends no signalling and no data, and it calls no handler. (It sends signalling through accepted links.)
pub run-IsQuiet :
    (less : Endpoint → Endpoint → Bool) (cs : List Call) (n n' : Node) (sent : Sent)
    → IsListening n
    → run less n cs ≡ ok (n', sent)
    → IsListening n' × All IsQuiet sent
run-IsQuiet less [] n n' sent v e = unfold run in ground arith
run-IsQuiet less (c ∷ cs) n n' sent v e =
    let (n₁, sent₁, later, first, rest, all) = run-cons less n n' c cs sent e in
    let k = perform-Keeps less n n₁ c sent₁ v first in
    let r = run-IsQuiet less cs n₁ n' later k.0 rest in
    (r.0, rw all (All-append IsQuiet sent₁ later k.1 r.1))
