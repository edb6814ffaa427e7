-- ===== src/Ssl/Session.antt =====
-- What a link over TLS does with its bytes: `VPNTLSLink` of svoiptunnel/vpntlslink.cpp, whose `onReceive`,
-- `send` and `doSend` are those of svoiptunnel/vpndtlslink.cpp as well. Errors are only logged.
pub mod Flushed
pub mod Oversized
use svoiptunnel.Base.{
  ℕ, zero, suc, Bool, true, false, not, ◌&&◌, List, [], ◌∷◌, ◌++◌, ◌-◌, Bytes, length, replicate,
  is_empty, Option, none, some, Outcome, ok, ◌>>=◌, if◌then◌else◌, ◌==◌,
}
use svoiptunnel.Vpn.Link.{Endpoint, Effect, Link, transmit, on_link_ready, on_receive}

-- `_ssl` with its two memory BIOs, as OpenSSL has them in a state `E`.
pub record Engine (E : Type 0) : Type 0 where
  -- `BIO_write` to `_rbio`
  pub bio_write : Bytes → E → E
  -- `SSL_accept` and `SSL_connect`, and whether the result is positive
  pub ssl_accept : E → E × Bool
  pub ssl_connect : E → E × Bool
  -- `SSL_read` of at most so many bytes, none where the result is not positive
  pub ssl_read : ℕ → E → E × Option Bytes
  -- `SSL_write`, and whether its error is fatal
  pub ssl_write : Bytes → E → E × Bool
  -- `BIO_pending` and `BIO_read` of `_wbio`
  pub bio_pending : E → ℕ
  pub bio_read : ℕ → E → E × Bytes
  pub is_init_finished : E → Bool

-- `EMode`
pub data SslMode : Type 0 where
  ssl_client ssl_server ssl_accepted : SslMode

pub record Session (E : Type 0) : Type 0 where
  pub engine : E
  pub mode : SslMode
  pub handshaking : Bool

-- What goes to the socket, and the other effects of the link.
pub data Out : Type 0 where
  wire : Bytes → Out
  link_effect : Effect → Out

-- `SSL_BUFFER_SIZE`
abbrev pub ssl_buffer_size : ℕ
ssl_buffer_size = 1024

-- A buffer of a size, of which the first bytes have been read.
abbrev pub buffer_of : ℕ → Bytes → Bytes
buffer_of size got = got ++ replicate (size - length got) 0

abbrev pub sent : ℕ → Bytes → List Out → List Out
sent count got more = if is_empty got then more else wire (buffer_of count got) ∷ more

module _ {E : Type 0} (eng : Engine E) where
  -- The rounds of the loop, so many at most.
  unfoldable pub send_rounds : ℕ → Session E → Session E × List Out
  send_rounds zero s = (s, [])
  send_rounds (suc rounds) s =
      let count = eng.bio_pending s.engine in
      let (e, got) = eng.bio_read count s.engine in
      let s' = record s {
        engine = e;
        handshaking = s.handshaking && not (eng.is_init_finished e);
      } in
      let later = send_rounds rounds s' in
      if count == 0 then (s, []) else (later.0, sent count got later.1)

  -- As many rounds as there are bytes.
  unfoldable pub do_send : Session E → Session E × List Out
  unfolding send_rounds
  do_send s = send_rounds (eng.bio_pending s.engine) s

  unfoldable pub send : Bytes → Session E → Session E × List Out
  unfolding do_send
  send buf s =
      if s.handshaking
      then (s, [])
      else (let (e, fatal) = eng.ssl_write buf s.engine in
          if fatal then (record s { engine = e }, []) else do_send (record s { engine = e }))

  -- The virtual `send` of the link is the one above.
  unfoldable pub send_effects : List Effect → Session E → Session E × List Out
  unfolding send
  send_effects [] s = (s, [])
  send_effects (transmit buf ∷ es) s =
      let (s', out) = send buf s in let (s'', more) = send_effects es s' in (s'', out ++ more)
  send_effects (e ∷ es) s = let (s', more) = send_effects es s in (s', link_effect e ∷ more)

  unfoldable pub shake : Session E → E × Bool
  shake s = elim s.mode as (λ _. E × Bool) [
    | ssl_client ↦ eng.ssl_connect s.engine
    | ssl_server ↦ (s.engine, false)
    | ssl_accepted ↦ eng.ssl_accept s.engine
  ]

  -- The first branch of `onReceive`, while `_handshaking` is set.
  unfoldable pub do_handshake : Session E → Link → Session E × (Link × List Out)
  unfolding shake send_effects do_send on_link_ready
  do_handshake s l =
      let (e, done) = shake s in
      if done
      then (let (l', es) = on_link_ready l in
          let (s', out) = send_effects es (record s { engine = e; handshaking = false }) in
          let (s'', more) = do_send s' in (s'', (l', out ++ more)))
      else (let (s', out) = do_send (record s { engine = e }) in (s', (l, out)))

  -- The second branch: one `SSL_read`.
  unfoldable pub read_once : Session E → Link → Endpoint → Outcome (Session E × (Link × List Out))
  unfolding send_effects on_receive
  read_once s l ep =
      let (e, got) = eng.ssl_read ssl_buffer_size s.engine in
      let s' = record s { engine = e } in
      elim got as (λ _. Outcome (Session E × (Link × List Out))) [
        | none ↦ ok (s', (l, []))
        | some buf ↦ on_receive l ep buf >>= λ r.
            ok (let (s'', out) = send_effects r.1 s' in (s'', (r.0, out)))
      ]

  unfoldable pub receive :
      Bytes → Session E → Link → Endpoint → Outcome (Session E × (Link × List Out))
  unfolding do_handshake read_once
  receive buf s l ep =
      let s₀ = record s { engine = eng.bio_write buf s.engine } in
      let (s₁, (l₁, out)) = if s.handshaking then do_handshake s₀ l else (s₀, (l, [])) in
      if s₁.handshaking
      then ok (s₁, (l₁, out))
      else read_once s₁ l₁ ep >>= λ r. ok (r.0, (r.1.0, out ++ r.1.1))

  -- `onConnected` of a client.
  unfoldable pub on_connected : Session E → Session E × List Out
  unfolding do_send
  on_connected s = do_send (record s { engine = (eng.ssl_connect s.engine).0; handshaking = true })

  -- The end of the constructor of a client over DTLS, which does not set `_mode`: it is what the memory
  -- holds.
  unfoldable pub dtls_client : SslMode → E → Session E × List Out
  unfolding do_send
  dtls_client found e =
      do_send (record { engine = (eng.ssl_connect e).0; mode = found; handshaking = true })

  -- The end of the constructor for an accepted socket.
  unfoldable pub accepted_session : E → Session E × List Out
  unfolding do_send
  accepted_session e = do_send (record { engine = e; mode = ssl_accepted; handshaking = true })
