-- ===== src/Ssl/Session/Oversized.antt =====
-- A signalling message that is longer than what svoiptunnel/vpntlslink.cpp reads at once.
use svoiptunnel.Ssl.Session.{Engine, Session, SslMode, read_once, receive, ssl_buffer_size}
use svoiptunnel.Vpn.Link.Delivery.{not_server}
use svoiptunnel.Vpn.Link.{Endpoint, Link, dispatch, on_receive, refreshed, server}
use svoiptunnel.Vpn.Wire.{
  buffer_size, data_of, frame, header_size, read_header, read_header-frame, signalling,
}
use svoiptunnel.Base.{
  ℕ, zero, suc, Bytes, [], arith, fails, false, length, lt→leb_false, le→leb, ◌%◌, ◌^◌, over_read,
  refl, some, take, true, ◌-◌, ◌<◌, ◌∙◌, ◌∷◌, ◌≡◌, ◌≢◌, ◌≤◌,
}

length-take_le : (n : ℕ) (xs : Bytes) → length (take n xs) ≤ n
length-take_le zero xs = omega arith
length-take_le (suc n) [] = omega arith
length-take_le (suc n) (x ∷ xs) = omega (arith, length-take_le n xs)

whole : (ch : ℕ) (p : Bytes) → header_size ≤ length (take ssl_buffer_size (frame signalling ch p))
unfolding frame
whole ch p = omega arith

same_header :
    (ch : ℕ) (p : Bytes)
    → read_header (take ssl_buffer_size (frame signalling ch p))
      ≡ read_header (frame signalling ch p)
unfolding frame read_header
same_header ch p = refl

rest_read :
    (ch : ℕ) (p : Bytes)
    → data_of (take ssl_buffer_size (frame signalling ch p))
      ≡ take (ssl_buffer_size - header_size) p
unfolding frame
rest_read ch p = refl

on_receive-cut :
    (l : Link) (ep : Endpoint) (ch size : ℕ) (buf part : Bytes)
    → l.mode ≢ server
    → l.has_events ≡ true
    → header_size ≤ length buf
    → read_header buf ≡ record { msg_type = signalling; ch = ch; size = size }
    → data_of buf ≡ part
    → length part < size
    → on_receive l ep buf ≡ fails over_read
unfolding on_receive dispatch refreshed
on_receive-cut l ep ch size buf part m listening long h d short =
    rw
      (
        not_server l.mode m,
        le→leb 12 (length buf) long,
        h,
        listening,
        d,
        lt→leb_false size (length part) short,
      )
      refl

read_once-fails :
    {E : Type 0} (eng : Engine E) (s : Session E) (e : E) (l : Link) (ep : Endpoint) (buf : Bytes)
    → eng.ssl_read ssl_buffer_size s.engine ≡ (e, some buf)
    → on_receive l ep buf ≡ fails over_read
    → read_once eng s l ep ≡ fails over_read
unfolding read_once
read_once-fails eng s e l ep buf read cut = rw (read_once, read, cut) refl

receive-fails :
    {E : Type 0} (eng : Engine E) (buf : Bytes) (engine : E) (mode : SslMode) (l : Link)
    (ep : Endpoint)
    → read_once eng
        (record { engine = eng.bio_write buf engine; mode = mode; handshaking = false })
        l
        ep
      ≡ fails over_read
    → receive eng buf (record { engine = engine; mode = mode; handshaking = false }) l ep
      ≡ fails over_read
unfolding receive
receive-fails eng buf engine mode l ep h = rw h refl

-- A signalling message of more than 1012 bytes of text is longer, with its header, than the 1024 bytes
-- that the link reads at once. Behind the handshake, where what `SSL_read` gives is the beginning of
-- such a message, the link, which has a handler and does not listen, reads beyond its buffer.
pub receive-over_read :
    {E : Type 0} (eng : Engine E) (buf : Bytes) (s : Session E) (e : E) (l : Link) (ep : Endpoint)
    (ch : ℕ) (p : Bytes)
    → s.handshaking ≡ false
    → l.mode ≢ server
    → l.has_events ≡ true
    → ssl_buffer_size - header_size < length p
    → length p ≤ buffer_size
    → eng.ssl_read ssl_buffer_size (eng.bio_write buf s.engine)
      ≡ (e, some (take ssl_buffer_size (frame signalling ch p)))
    → receive eng buf s l ep ≡ fails over_read
receive-over_read {E} eng buf s e l ep ch p shaken m listening long fits read =
    let first = take ssl_buffer_size (frame signalling ch p) in
    let part = take (ssl_buffer_size - header_size) p in
    let e₁ : length part ≤ 1012 = length-take_le 1012 p in
    let cut : on_receive l ep first ≡ fails over_read =
      on_receive-cut l ep (ch % 2 ^ 32) (length p) first part m listening (whole ch p)
        (same_header ch p ∙ read_header-frame signalling ch p fits) (rest_read ch p)
        (omega (arith, e₁, long)) in
    let after : Session E = record {
      engine = eng.bio_write buf s.engine;
      mode = s.mode;
      handshaking = false;
    } in
    rw shaken
      (receive-fails eng buf s.engine s.mode l ep (read_once-fails eng after e l ep first read cut))
