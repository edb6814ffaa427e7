-- ===== src/Vpn/Wire.antt =====
-- `SMessage` of svoiptunnel/vpnlinkbase.h: what a link sends, and what it reads from a buffer.
-- The integers are little-endian, as on the x86 hosts that the Makefile builds for.
use svoiptunnel.Base.{
  ℕ, ◌+◌, ◌*◌, ◌/◌, ◌%◌, ◌^◌, ◌≤◌, ◌≡◌, refl, [], ◌∷◌, ◌++◌, arith, Bytes, length, get_or, drop,
  if◌then◌else◌, ◌==◌, Outcome, ok, fails, buffer_overflow, leb,
}

-- `_bufferSize`: the room for the data of one message.
abbrev pub buffer_size : ℕ
buffer_size = 1500

-- `memcpy` to a place in a message with `room` bytes behind it. The code does not test the
-- length: what fails here is the write past the last of these bytes.
abbrev pub memcpy : ℕ → Bytes → Outcome Bytes
memcpy room bytes = if leb (length bytes) room then ok bytes else fails buffer_overflow

-- `sizeof(SMessage::Header)`
abbrev pub header_size : ℕ
header_size = 12

-- `EMsgType`; `other` is a number that it does not name.
pub data MsgType : Type 0 where
  connect_msg connect_ok ping_msg disconnect_msg setup_data signalling data_msg other : MsgType

pub code_of : MsgType → ℕ
code_of connect_msg = 0
code_of connect_ok = 1
code_of ping_msg = 2
code_of disconnect_msg = 3
code_of setup_data = 4
code_of signalling = 0x0a
code_of data_msg = 0x0b
code_of other = 0x0c

-- The labels of the `switch` in `onReceive`.
unfoldable pub type_of : ℕ → MsgType
type_of n =
    if n == 0
    then connect_msg
    else if n == 1
    then connect_ok
    else if n == 2
    then ping_msg
    else if n == 3
    then disconnect_msg
    else if n == 4
    then setup_data
    else if n == 0x0a
    then signalling
    else if n == 0x0b
    then data_msg
    else other

abbrev pub put_u16 : ℕ → Bytes
put_u16 n = n % 256 ∷ n / 256 % 256 ∷ []

abbrev pub put_u32 : ℕ → Bytes
put_u32 n = n % 256 ∷ n / 256 % 256 ∷ n / 65536 % 256 ∷ n / 16777216 % 256 ∷ []

-- The integers at an offset. The callers check that the buffer reaches so far.
abbrev pub u16_at : ℕ → Bytes → ℕ
u16_at i b = get_or b i 0 + 256 * get_or b (i + 1) 0

abbrev pub u32_at : ℕ → Bytes → ℕ
u32_at i b =
    get_or b i 0
    + 256 * get_or b (i + 1) 0
    + 65536 * get_or b (i + 2) 0
    + 16777216 * get_or b (i + 3) 0

-- `_header` and the data behind it.
pub record Header : Type 0 where
  pub msg_type : MsgType
  pub ch : ℕ
  pub size : ℕ

-- The bytes that `send( &_mess, sizeof(SMessage::Header) + _size )` hands to the socket.
unfoldable pub frame : MsgType → ℕ → Bytes → Bytes
unfolding code_of
frame t ch payload = put_u32 (code_of t) ++ put_u32 ch ++ put_u32 (length payload) ++ payload

unfoldable pub read_header : Bytes → Header
unfolding type_of
read_header b = record { msg_type = type_of (u32_at 0 b); ch = u32_at 4 b; size = u32_at 8 b }

-- `_data`
abbrev pub data_of : Bytes → Bytes
data_of b = drop header_size b

pub type_of-code_of : (t : MsgType) → type_of (code_of t) ≡ t
unfolding type_of code_of
type_of-code_of connect_msg = refl
type_of-code_of _ = refl

-- A number below 2 ^ 32 comes back from its four bytes.
pub u32_round :
    (n : ℕ)
    → n % 256 + 256 * (n / 256 % 256) + 65536 * (n / 65536 % 256) + 16777216 * (n / 16777216 % 256)
      ≡ n % 2 ^ 32
u32_round n = omega arith

pub length-frame :
    (t : MsgType) (ch : ℕ) (p : Bytes) → length (frame t ch p) ≡ header_size + length p
unfolding frame
length-frame t ch p = omega arith

pub read_header-frame :
    (t : MsgType) (ch : ℕ) (p : Bytes)
    → length p ≤ buffer_size
    → read_header (frame t ch p) ≡ record { msg_type = t; ch = ch % 2 ^ 32; size = length p }
unfolding read_header frame
read_header-frame connect_msg ch p h = ground (arith, u32_round ch, u32_round (length p))
read_header-frame _ ch p h = ground (arith, u32_round ch, u32_round (length p))

pub data_of-frame : (t : MsgType) (ch : ℕ) (p : Bytes) → data_of (frame t ch p) ≡ p
unfolding frame
data_of-frame t ch p = refl

-- Bytes behind a frame change neither its header nor where its data begins.
pub read_header-frame-append :
    (t : MsgType) (ch : ℕ) (p rest : Bytes)
    → read_header (frame t ch p ++ rest) ≡ read_header (frame t ch p)
unfolding read_header frame
read_header-frame-append t ch p rest = refl

pub data_of-frame-append :
    (t : MsgType) (ch : ℕ) (p rest : Bytes) → data_of (frame t ch p ++ rest) ≡ p ++ rest
unfolding frame
data_of-frame-append t ch p rest = refl
