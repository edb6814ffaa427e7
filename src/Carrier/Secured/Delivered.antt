-- ===== src/Carrier/Secured/Delivered.antt =====
-- From `sendData` at one end of a link over TLS or DTLS to `onReceiveData` at the other: `send` and
-- `onReceive` of svoiptunnel/vpntlslink.cpp and vpndtlslink.cpp, over vpnlinkbase.cpp.
use svoiptunnel.Base.{
  [], ◌∷◌, ◌++◌, ℕ, zero, suc, Bytes, List, ap, append-nil, arith, false, length, ok, refl, some,
  replicate, true, ◌-◌, ◌<◌, ◌==◌, ◌^◌, ◌∙◌, ◌≡◌, ◌≢◌, ◌≤◌,
}
use svoiptunnel.Ssl.Session.{
  Engine, Out, Session, buffer_of, do_send, link_effect, read_once, receive, send, send_effects,
  send_rounds, sent, ssl_buffer_size, wire,
}
use svoiptunnel.Vpn.Link.{
  Endpoint, Link, on_receive, on_receive_data, refreshed, send_data, server, transmit,
}
use svoiptunnel.Vpn.Link.Delivery.{data_received}
use svoiptunnel.Vpn.Wire.{buffer_size, data_msg, frame, header_size, length-frame}

-- One record between two engines that stand behind a handshake with each other: `SSL_write` of a text that
-- fits into the buffer of the reader, what `BIO_read` takes, and what `SSL_read` makes of it.
pub record Relays {E : Type 0} (eng : Engine E) (paired : E → E → Type 0) (a b : E) (buf : Bytes)
    : Type 0 where
  pub after : E
  pub cipher : Bytes
  pub after_read : E
  pub fine : eng.ssl_write buf a ≡ (after, false)
  pub some_bytes : cipher ≢ []
  pub pending : eng.bio_pending after ≡ length cipher
  pub rest : E
  pub taken : eng.bio_read (length cipher) after ≡ (rest, cipher)
  pub all_taken : eng.bio_pending rest ≡ 0
  pub plain : eng.ssl_read ssl_buffer_size (eng.bio_write cipher b) ≡ (after_read, some buf)
  pub still_paired : paired rest after_read

-- TLS over memory BIOs: whatever fits is relayed.
abbrev pub IsTunnel : {E : Type 0} → Engine E → (E → E → Type 0) → Type 0
IsTunnel {E} eng paired =
    (a b : E) (buf : Bytes)
    → paired a b
    → buf ≢ []
    → length buf ≤ ssl_buffer_size
    → Relays eng paired a b buf

no_padding : (xs : Bytes) → buffer_of (length xs) xs ≡ xs
no_padding xs =
    let none_over : length xs - length xs ≡ 0 = omega arith in
    ap (λ n. xs ++ replicate n 0) none_over ∙ append-nil xs

module _ {E : Type 0} (eng : Engine E) where
  no_rounds : (n : ℕ) (s : Session E) → eng.bio_pending s.engine ≡ 0 → send_rounds eng n s ≡ (s, [])
  unfolding send_rounds
  no_rounds zero s h = refl
  no_rounds (suc n) s h = rw h refl

  one_round :
      (n : ℕ) (s : Session E) (rest : E) (cipher : Bytes)
      → s.handshaking ≡ false
      → eng.bio_pending s.engine ≡ suc n
      → eng.bio_read (suc n) s.engine ≡ (rest, cipher)
      → eng.bio_pending rest ≡ 0
      → send_rounds eng (suc n) s
        ≡ (record s { engine = rest; handshaking = false }, sent (suc n) cipher [])
  unfolding send_rounds
  one_round n s rest cipher up pending read none_left =
      let s' : Session E = record s { engine = rest; handshaking = false } in
      let more : (suc n == 0) ≡ false = ground arith in
      rw (pending, more, read, up, no_rounds n s' none_left) refl

  flushed :
      (s : Session E) (rest : E) (cipher : Bytes)
      → s.handshaking ≡ false
      → cipher ≢ []
      → eng.bio_pending s.engine ≡ length cipher
      → eng.bio_read (length cipher) s.engine ≡ (rest, cipher)
      → eng.bio_pending rest ≡ 0
      → do_send eng s ≡ (record s { engine = rest; handshaking = false }, wire cipher ∷ [])
  unfolding do_send
  flushed s rest [] up full pending read none_left = absurd (full refl)
  flushed s rest (c ∷ cs) up full pending read none_left =
      ap (λ n. send_rounds eng n s) pending
      ∙ one_round (length cs) s rest (c ∷ cs) up pending read none_left
      ∙ ap (λ x. (record s { engine = rest; handshaking = false }, wire x ∷ []))
          (no_padding (c ∷ cs))

  read_once-relayed :
      (buf : Bytes) (s : Session E) (e : E) (l l' : Link) (ep : Endpoint) (port : ℕ) (p : Bytes)
      → eng.ssl_read ssl_buffer_size s.engine ≡ (e, some buf)
      → on_receive l ep buf ≡ ok (l', on_receive_data port p ∷ [])
      → read_once eng s l ep
        ≡ ok (record s { engine = e }, (l', link_effect (on_receive_data port p) ∷ []))
  unfolding read_once send_effects
  read_once-relayed buf s e l l' ep port p read got =
      rw (read_once, read, got)
        (ap (λ x. ok (record s { engine = x.0 }, (l', link_effect (on_receive_data port p) ∷ [])))
          read)

  receive-once :
      (w : Bytes) (s s' : Session E) (l l' : Link) (ep : Endpoint) (out : List Out)
      → read_once eng (record s { engine = eng.bio_write w s.engine; handshaking = false }) l ep
        ≡ ok (s', (l', out))
      → receive eng w (record s { handshaking = false }) l ep ≡ ok (s', (l', out))
  unfolding receive
  receive-once w s s' l l' ep out h = rw h refl

  module _ {paired : E → E → Type 0} {buf : Bytes} where
    send-relayed :
        (s : Session E) (b : E) (r : Relays eng paired s.engine b buf)
        → s.handshaking ≡ false
        → send eng buf s ≡ (record s { engine = r.rest; handshaking = false }, wire r.cipher ∷ [])
    unfolding send
    send-relayed s b r up =
        rw (up, r.fine)
          (flushed (record s { engine = r.after; handshaking = false }) r.rest r.cipher refl
            r.some_bytes r.pending r.taken r.all_taken)

    receive-relayed :
        (a : E) (s : Session E) (r : Relays eng paired a s.engine buf) (l l' : Link) (ep : Endpoint)
        (port : ℕ) (p : Bytes)
        → s.handshaking ≡ false
        → on_receive l ep buf ≡ ok (l', on_receive_data port p ∷ [])
        → receive eng r.cipher s l ep
          ≡ ok (
            record s { engine = r.after_read; handshaking = false },
            (l', link_effect (on_receive_data port p) ∷ []),
          )
    receive-relayed a s r l l' ep port p up got =
        let s₀ : Session E = record s {
          engine = eng.bio_write r.cipher s.engine;
          handshaking = false;
        } in
        let s₁ : Session E = record s { engine = r.after_read; handshaking = false } in
        let out = link_effect (on_receive_data port p) ∷ [] in
        let h =
          receive-once r.cipher s s₁ l l' ep out
            (read_once-relayed buf s₀ r.after_read l l' ep port p r.plain got) in
        rw up h

full_frame : (port : ℕ) (p : Bytes) → frame data_msg port p ≢ []
full_frame port p e = absurd (ground (arith, length-frame data_msg port p, ap length e))

sends_frame :
    (l : Link) (port : ℕ) (p : Bytes)
    → l.connected ≡ true
    → length p ≤ buffer_size
    → send_data l port p ≡ ok (l, transmit (frame data_msg port p) ∷ [])
unfolding send_data
sends_frame l port p c h = ground arith

-- A payload of at most 1012 bytes that `sendData` of a connected link sends over a tunnel, as one record of
-- the engines behind the handshake, is handed to `onReceiveData` at the other end, whole and with the
-- 16-bit port number that it was sent for, once the bytes that go out there have come in. Both
-- engines are as good for the next one.
pub send_data-receive :
    {E : Type 0} (eng : Engine E) (paired : E → E → Type 0) (tunnel : IsTunnel eng paired)
    (a b : Session E) (l r : Link) (ep : Endpoint) (port : ℕ) (p : Bytes)
    → paired a.engine b.engine
    → a.handshaking ≡ false
    → b.handshaking ≡ false
    → l.connected ≡ true
    → r.has_events ≡ true
    → r.mode ≢ server
    → length p ≤ ssl_buffer_size - header_size
    → port < 2 ^ 16
    → (msg w : Bytes) × (e e' : E) × (send_data l port p ≡ ok (l, transmit msg ∷ []))
      × (send eng msg a ≡ (record a { engine = e; handshaking = false }, wire w ∷ []))
      × (receive eng w b r ep
          ≡ ok (
            record b { engine = e'; handshaking = false },
            (refreshed r, link_effect (on_receive_data port p) ∷ []),
          ))
      × paired e e'
send_data-receive {E} eng paired tunnel a b l r ep port p pair up_a up_b c listening m short lt =
    let msg = frame data_msg port p in
    let gets : on_receive r ep msg ≡ ok (refreshed r, on_receive_data port p ∷ []) =
      ground (arith, data_received r ep listening m port p (omega arith)) in
    let relay =
      tunnel a.engine b.engine msg pair (full_frame port p)
        (omega (arith, length-frame data_msg port p)) in
    (
      msg,
      relay.cipher,
      relay.rest,
      relay.after_read,
      sends_frame l port p c (omega arith),
      send-relayed eng a b.engine relay up_a,
      receive-relayed eng a.engine b relay r (refreshed r) ep port p up_b gets,
      relay.still_paired,
    )
