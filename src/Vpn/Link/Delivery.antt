-- ===== src/Vpn/Link/Delivery.antt =====
-- What one link sends is what the handler of the other link is given.
use svoiptunnel.Base.{
  ℕ, ◌+◌, ◌-◌, ◌%◌, ◌^◌, ◌≤◌, ◌<◌, ◌≡◌, ◌≢◌, refl, true, false, [], ◌∷◌, ◌++◌, arith, Bytes, length,
  le→leb, ◌∙◌, take-length, ok,
}
use svoiptunnel.Vpn.Wire.{
  buffer_size, MsgType, setup_data, signalling, data_msg, put_u16, frame, Header, read_header-frame,
  data_of-frame, length-frame,
}
use svoiptunnel.Vpn.Link.{
  Endpoint, Mode, server, transmit, on_signalling, on_receive_data, on_setup_data, Link, refreshed,
  dispatch, on_receive, setup_data_conn, send_data, no_channel, is_server,
}

pub not_server : (m : Mode) → m ≢ server → is_server m ≡ false
not_server m h = ground arith

abbrev pub framed : MsgType → ℕ → Bytes → Header
framed t ch p = record { msg_type = t; ch = ch % 2 ^ 32; size = length p }

-- A framed message reaches its case of the switch, with the header and the data as they were sent.
pub on_receive-frame :
    (l : Link) (ep : Endpoint) (t : MsgType) (ch : ℕ) (p : Bytes)
    → l.mode ≢ server
    → length p ≤ buffer_size
    → on_receive l ep (frame t ch p) ≡ dispatch t (refreshed l) ep (framed t ch p) p
unfolding on_receive refreshed
on_receive-frame l ep t ch p m h =
    rw
      (
        not_server l.mode m,
        length-frame t ch p,
        le→leb 12 (12 + length p) (omega arith),
        read_header-frame t ch p h,
        data_of-frame t ch p,
      )
      refl

module _ (r : Link) (ep : Endpoint) (listening : r.has_events ≡ true) (m : r.mode ≢ server) where
  pub signalling_received :
      (ch : ℕ) (p : Bytes)
      → length p ≤ buffer_size
      → on_receive r ep (frame signalling ch p)
        ≡ ok (refreshed r, on_signalling (ch % 2 ^ 32) p ∷ [])
  signalling_received ch p h =
      on_receive-frame r ep signalling ch p m h
      ∙ unfold dispatch refreshed in ground (arith, take-length p)

  pub data_received :
      (ch : ℕ) (p : Bytes)
      → length p ≤ buffer_size
      → on_receive r ep (frame data_msg ch p)
        ≡ ok (refreshed r, on_receive_data (ch % 2 ^ 32) p ∷ [])
  data_received ch p h =
      on_receive-frame r ep data_msg ch p m h
      ∙ unfold dispatch refreshed in ground (arith, take-length p)

  -- A payload of at most 1500 bytes that goes out through `sendData` on a connected link reaches
  -- `onReceiveData` of the link that receives the message, which has a handler and does not listen,
  -- whole and with the 16-bit port number it was sent for.
  pub send_data-on_receive :
      (l : Link) (port : ℕ) (p : Bytes)
      → l.connected ≡ true
      → length p ≤ buffer_size
      → port < 2 ^ 16
      → (w : Bytes) × (send_data l port p ≡ ok (l, transmit w ∷ []))
        × (on_receive r ep w ≡ ok (refreshed r, on_receive_data port p ∷ []))
  unfolding send_data
  send_data-on_receive l port p c h lt =
      (frame data_msg port p, ground arith, ground (arith, data_received port p h))

  -- A set-up message with a call id of at most 1496 bytes carries the index and the port, both of 16
  -- bits, and the call id to `onSetupData` of a receiving link that has a handler and does not
  -- listen. The sender's activity timer is 0 afterwards.
  pub setup_data_conn-on_receive :
      (l : Link) (callid : Bytes) (idx port : ℕ)
      → length callid ≤ buffer_size - 4
      → idx < 2 ^ 16
      → port < 2 ^ 16
      → (w : Bytes) × (setup_data_conn l callid idx port
          ≡ ok (record l { activity_timer = 0 }, transmit w ∷ []))
        × (on_receive r ep w ≡ ok (refreshed r, on_setup_data idx port callid ∷ []))
  unfolding setup_data_conn
  setup_data_conn-on_receive l callid idx port h hi hp = (
    frame setup_data no_channel (put_u16 idx ++ put_u16 port ++ callid),
    ground arith,
    on_receive-frame r ep setup_data no_channel _ m (omega arith)
        ∙ unfold dispatch refreshed in ground (arith, take-length callid),
  )
