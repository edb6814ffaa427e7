-- ===== src/Vpn/Link.antt =====
-- `VPNLinkBase` of svoiptunnel/vpnlinkbase.cpp, without its map of accepted links (that is Node).
-- What a call sends, reports to `_pEvents` or does to the timer is returned as a list of effects in
-- the order of the calls. What the handler of a report of `onReceive` does to the link is a later
-- call: for signalling, data and a set-up the report is the last action of `onReceive`, and for
-- EConnect, which is answered behind the report, and EDisconnect, where the state is set behind it,
-- the handlers of svoiptunnel/sipserver.cpp are empty. A message that announces more data than the
-- buffer has is an over-read as soon as the handler is given the data, also if it would not look at
-- them.
pub mod Delivery
pub mod Safety
use svoiptunnel.Base.{
  ℕ, ◌-◌, Bool, true, false, not, ◌&&◌, ◌||◌, List, [], ◌∷◌, ◌++◌, Bytes, length, take, drop,
  Outcome, ok, fails, ◌>>=◌, over_read, length_error, if◌then◌else◌, leb, ltb, ◌==◌,
}
use svoiptunnel.Vpn.Wire.{
  memcpy, buffer_size, header_size, MsgType, connect_msg, connect_ok, ping_msg, disconnect_msg,
  setup_data, signalling, data_msg, other, put_u16, u16_at, Header, frame, read_header, data_of,
}

pub record Endpoint : Type 0 where
  pub address : Bytes
  pub port : ℕ

-- `Mode_t`
pub data Mode : Type 0 where
  client server accepted : Mode

pub data Effect : Type 0 where
  -- the virtual `send`
  transmit : Bytes → Effect
  -- the methods of `VPNLinkEvents`
  on_connect on_disconnect : Endpoint → Effect
  on_signalling : ℕ → Bytes → Effect
  on_receive_data : ℕ → Bytes → Effect
  on_setup_data : ℕ → ℕ → Bytes → Effect
  -- `_timer.async_wait` in five seconds, and `_timer.cancel`
  schedule unschedule : Effect

pub record Link : Type 0 where
  pub mode : Mode
  pub connected : Bool
  pub activity_timer : ℕ
  -- whether `_pEvents` is set
  pub has_events : Bool
  pub id : Bytes

-- `ACTIVITY_TIMER_ACCEPTED_DEFAULT`
abbrev pub accepted_default : ℕ
accepted_default = 12

-- `ACTIVITY_TIMER_CLIENT_DEFAULT`
abbrev pub client_default : ℕ
client_default = 2

-- The channel number of a message that belongs to no channel.
abbrev pub no_channel : ℕ
no_channel = 0xffffffff

abbrev pub is_client : Mode → Bool
is_client client = true
is_client _ = false

abbrev pub is_server : Mode → Bool
is_server server = true
is_server _ = false

abbrev pub is_accepted : Mode → Bool
is_accepted accepted = true
is_accepted _ = false

-- A message with no data.
abbrev pub bare : MsgType → Effect
bare t = transmit (frame t no_channel [])

unfoldable pub new_link : Mode → Link
new_link m = record { mode = m; connected = false; activity_timer = 0; has_events = false; id = [] }

unfoldable pub set_events : Bool → Link → Link
set_events present l = record l { has_events = present }

-- The id is the decimal form of `boost::hash` of a text, the parameter `hash_text`.
unfoldable pub generate_id : (Bytes → Bytes) → Bytes → Link → Link
generate_id hash_text s l = record l { id = hash_text s }

unfoldable pub is_active : Link → Bool
is_active l = not (l.activity_timer == 0)

unfoldable pub connect : Link → Link × List Effect
connect l = (record l { activity_timer = client_default }, bare connect_msg ∷ [])

unfoldable pub ping : Link → Link × List Effect
ping l = (l, bare ping_msg ∷ [])

unfoldable pub disconnect : Link → Link × List Effect
disconnect l =
    if l.connected && (is_client l.mode || is_accepted l.mode)
    then (record l { connected = false; activity_timer = 0 }, bare disconnect_msg ∷ [])
    else (l, [])

-- The timer that any message sets.
unfoldable pub refreshed : Link → Link
refreshed l = record l {
  activity_timer = if is_client l.mode then client_default else accepted_default;
}

receive_connect : Link → Endpoint → Link × List Effect
receive_connect l ep =
    if is_accepted l.mode
    then (
      record l { connected = true },
      (if l.has_events && not l.connected then on_connect ep ∷ [] else []) ++ bare connect_ok ∷ [],
    )
    else (l, [])

receive_connect_ok : Link → Link × List Effect
receive_connect_ok l = if is_client l.mode then (record l { connected = true }, []) else (l, [])

receive_disconnect : Link → Endpoint → Link × List Effect
receive_disconnect l ep =
    if is_client l.mode || is_accepted l.mode
    then (
      record l { connected = false; activity_timer = 0 },
      if l.has_events then on_disconnect ep ∷ [] else [],
    )
    else (l, [])

receive_ping : Link → Link × List Effect
receive_ping l = if is_accepted l.mode then (l, bare ping_msg ∷ []) else (l, [])

-- `const_buffer( _data, _size )`: the handler reads `_size` bytes, of which only those of the
-- buffer are there.
receive_signalling : Link → Header → Bytes → Outcome (Link × List Effect)
receive_signalling l h body =
    if not l.has_events
    then ok (l, [])
    else if leb h.size (length body)
    then ok (l, on_signalling h.ch (take h.size body) ∷ [])
    else fails over_read

receive_data : Link → Header → Bytes → Outcome (Link × List Effect)
receive_data l h body =
    if not l.has_events
    then ok (l, [])
    else if leb h.size (length body)
    then ok (l, on_receive_data h.ch (take h.size body) ∷ [])
    else fails over_read

-- The length of the call id is `_size - 2 - 2` in `size_t`: below zero it is more than a string can
-- hold, and the constructor throws.
receive_setup_data : Link → Header → Bytes → Outcome (Link × List Effect)
receive_setup_data l h body =
    if not l.has_events
    then ok (l, [])
    else if ltb h.size 4
    then fails length_error
    else if leb h.size (length body)
    then ok
        (l, on_setup_data (u16_at 0 body) (u16_at 2 body) (take (h.size - 4) (drop 4 body)) ∷ [])
    else fails over_read

-- The `switch` on the message type.
unfoldable pub dispatch : MsgType → Link → Endpoint → Header → Bytes → Outcome (Link × List Effect)
unfolding receive_connect receive_connect_ok receive_disconnect receive_ping receive_signalling
    receive_data receive_setup_data
dispatch connect_msg l ep h body = ok (receive_connect l ep)
dispatch connect_ok l ep h body = ok (receive_connect_ok l)
dispatch disconnect_msg l ep h body = ok (receive_disconnect l ep)
dispatch ping_msg l ep h body = ok (receive_ping l)
dispatch signalling l ep h body = receive_signalling l h body
dispatch setup_data l ep h body = receive_setup_data l h body
dispatch data_msg l ep h body = receive_data l h body
dispatch other l ep h body = ok (l, [])

unfoldable pub on_receive : Link → Endpoint → Bytes → Outcome (Link × List Effect)
unfolding dispatch refreshed
on_receive l ep buf =
    if is_server l.mode
    then ok (l, [])
    else if leb header_size (length buf)
    then (let h = read_header buf in dispatch h.msg_type (refreshed l) ep h (data_of buf))
    else ok (l, [])

-- The call id is copied behind the two ports.
unfoldable pub setup_data_conn : Link → Bytes → ℕ → ℕ → Outcome (Link × List Effect)
setup_data_conn l callid idx port = memcpy (buffer_size - 4) callid >>= λ copied. ok (
  record l { activity_timer = 0 },
  transmit (frame setup_data no_channel (put_u16 idx ++ put_u16 port ++ copied)) ∷ [],
)

unfoldable pub send_data : Link → ℕ → Bytes → Outcome (Link × List Effect)
send_data l port buf =
    if not l.connected
    then ok (l, [])
    else memcpy buffer_size buf >>= λ copied. ok (l, transmit (frame data_msg port copied) ∷ [])

unfoldable pub on_link_ready : Link → Link × List Effect
unfolding connect
on_link_ready l =
    if is_accepted l.mode
    then (record l { activity_timer = accepted_default }, schedule ∷ [])
    else if is_client l.mode
    then (let (l', sent) = connect (record l { activity_timer = client_default }) in
        (l', sent ++ schedule ∷ []))
    else (l, schedule ∷ [])

unfoldable pub on_link_down : Link → Link × List Effect
on_link_down l = (record l { activity_timer = 0 }, unschedule ∷ [])
