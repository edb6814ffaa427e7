-- ===== src/Vpn/Node.antt =====
-- A `VPNLinkBase` with `_VpnLinkMap`, its map of accepted links: the calls of
-- svoiptunnel/vpnlinkbase.cpp that touch the map, and every call as one step of a history.
pub mod Routing
pub mod Session
pub mod Idle
pub mod History
pub mod Listening
use svoiptunnel.Base.{
  ℕ, ◌-◌, Bool, true, false, not, ◌&&◌, List, [], ◌∷◌, ◌++◌, Bytes, length, same, is_empty, Option,
  none, some, Outcome, ok, ◌>>=◌, if◌then◌else◌, leb, ◌==◌,
}
use svoiptunnel.Base.Dict.{Dict}
use svoiptunnel.Vpn.Wire.{memcpy, buffer_size, signalling, frame}
use svoiptunnel.Vpn.Link.{
  Endpoint, Effect, transmit, schedule, Link, is_server, is_client, is_active, set_events, connect,
  ping, disconnect, on_receive, setup_data_conn, send_data, on_link_ready, on_link_down,
}

pub record Node : Type 0 where
  pub link : Link
  -- in the order of `std::map`
  pub clients : Dict Endpoint Link

-- Which object an effect comes from: the link itself, or the accepted link of an endpoint.
pub data Origin : Type 0 where
  self : Origin
  at_client : Endpoint → Origin

abbrev pub Sent : Type 0
Sent = List (Origin × Effect)

abbrev pub sent_by : Origin → List Effect → Sent
sent_by o [] = []
sent_by o (e ∷ es) = (o, e) ∷ sent_by o es

-- `_VpnLinkMap.insert`, over the order of `boost::asio::ip::detail::endpoint`, the parameter
-- `less`. An entry that is there stays.
unfoldable pub place :
    (Endpoint → Endpoint → Bool) → Endpoint → Link → Dict Endpoint Link → Dict Endpoint Link
place less k v [] = (k, v) ∷ []
place less k v ((j, w) ∷ m) =
    let later = place less k v m in
    if less k j then (k, v) ∷ (j, w) ∷ m else if less j k then (j, w) ∷ later else (j, w) ∷ m

-- The shared link is given the events whether or not the map takes it.
unfoldable pub on_accept : (Endpoint → Endpoint → Bool) → Endpoint → Link → Node → Node
unfolding set_events
on_accept less ep l n = record n {
  clients = place less ep (set_events n.link.has_events l) n.clients;
}

-- The loop of `timer_tick` over the map.
unfoldable pub drop_inactive : Dict Endpoint Link → Dict Endpoint Link
unfolding is_active
drop_inactive [] = []
drop_inactive ((j, w) ∷ m) = if not (is_active w) then drop_inactive m else (j, w) ∷ drop_inactive m

abbrev pub reschedule : Link × List Effect → Link × List Effect
reschedule (l, sent) = (l, sent ++ schedule ∷ [])

client_tick : Link → Link × List Effect
unfolding connect ping
client_tick l =
    if l.connected
    then (if not (l.activity_timer == 0) then ping l else (record l { connected = false }, []))
    else connect l

accepted_tick : Link → Link × List Effect
accepted_tick l =
    if l.activity_timer == 0 then (record l { connected = false }, []) else (l, schedule ∷ [])

-- `timer_tick` of the link itself, behind the test for an aborted timer.
unfoldable pub tick_link : Link → Link × List Effect
unfolding client_tick accepted_tick
tick_link l =
    let l' = record l { activity_timer = l.activity_timer - 1 } in
    if is_server l.mode
    then (l', schedule ∷ [])
    else if is_client l.mode
    then reschedule (client_tick l')
    else accepted_tick l'

unfoldable pub timer_tick : Bool → Node → Node × List Effect
unfolding tick_link drop_inactive
timer_tick aborted n =
    if aborted
    then (n, [])
    else (let (l, sent) = tick_link n.link in
        (
          record {
            link = l;
            clients = if is_server n.link.mode then drop_inactive n.clients else n.clients;
          },
          sent,
        ))

-- The first link of the map with the id.
unfoldable pub find_by_id : Bytes → Dict Endpoint Link → Option Endpoint
find_by_id vpn_id [] = none
find_by_id vpn_id ((j, w) ∷ m) = if same w.id vpn_id then some j else find_by_id vpn_id m

abbrev pub send_via : Bytes → Option Endpoint → Sent × Bool
send_via msg none = ([], false)
send_via msg (some ep) = ((at_client ep, transmit msg) ∷ [], true)

-- The state of the link does not change; the flag is what the call returns.
unfoldable pub send_signalling : Node → ℕ → Bytes → Bytes → Outcome (Sent × Bool)
unfolding find_by_id
send_signalling n ch buf vpn_id = memcpy buffer_size buf >>= λ copied. ok (
    let msg = frame signalling ch copied in
    if is_server n.link.mode && not (is_empty vpn_id)
    then send_via msg (find_by_id vpn_id n.clients)
    else if not n.link.connected
    then ([], false)
    else ((self, transmit msg) ∷ [], true))

-- The calls on a link that the rest of the program makes.
pub data Call : Type 0 where
  attach : Bool → Call
  do_connect do_ping do_disconnect link_ready link_down : Call
  receive : Endpoint → Bytes → Call
  expire : Bool → Call
  setup : Bytes → ℕ → ℕ → Call
  data_out : ℕ → Bytes → Call
  signal_out : ℕ → Bytes → Bytes → Call
  accept : Endpoint → Link → Call

abbrev pub on_link : Node → Link × List Effect → Node × Sent
on_link n (l, sent) = (record n { link = l }, sent_by self sent)

abbrev pub on_link_or : Node → Outcome (Link × List Effect) → Outcome (Node × Sent)
on_link_or n m = m >>= λ r. ok (on_link n r)

unfoldable pub perform : (Endpoint → Endpoint → Bool) → Node → Call → Outcome (Node × Sent)
perform less n (attach present) = ok (record n { link = set_events present n.link }, [])
perform less n do_connect = ok (on_link n (connect n.link))
perform less n do_ping = ok (on_link n (ping n.link))
perform less n do_disconnect = ok (on_link n (disconnect n.link))
perform less n link_ready = ok (on_link n (on_link_ready n.link))
perform less n link_down = ok (on_link n (on_link_down n.link))
perform less n (receive ep buf) = on_link_or n (on_receive n.link ep buf)
perform less n (expire aborted) =
    ok (let (n', sent) = timer_tick aborted n in (n', sent_by self sent))
perform less n (setup callid idx port) = on_link_or n (setup_data_conn n.link callid idx port)
perform less n (data_out port buf) = on_link_or n (send_data n.link port buf)
perform less n (signal_out ch buf vpn_id) = send_signalling n ch buf vpn_id >>= λ r. ok (n, r.0)
perform less n (accept ep l) = ok (on_accept less ep l n, [])

-- A history: the effects of all calls, in order.
unfoldable pub run : (Endpoint → Endpoint → Bool) → Node → List Call → Outcome (Node × Sent)
run less n [] = ok (n, [])
run less n (c ∷ cs) = do
  (n', sent) ← perform less n c
  (n'', later) ← run less n' cs
  ok (n'', sent ++ later)
