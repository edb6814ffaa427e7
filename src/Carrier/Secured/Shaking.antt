-- ===== src/Carrier/Secured/Shaking.antt =====
-- A client of svoiptunnel/vpntlslink.cpp or vpndtlslink.cpp during its handshake: what the program sends is
-- dropped.
use svoiptunnel.Base.{
  [], ◌∷◌, ◌++◌, >>=-eq-ok, Bool, Bytes, List, Outcome, arith, false, inl, inr, ok, refl, true, ◌+◌,
  ◌>>=◌, ◌≡◌, ◌⊎◌, ap, sym,
}
use mathlib.Core.Path.{subst}
use svoiptunnel.Base.Dict.{Dict}
use svoiptunnel.Carrier.Guests.{Accepted, IsPublic, SocketLink, release, waits_of}
use svoiptunnel.Carrier.Secured.{
  Secured, Wired, call_main, carry, carry_effect, send_from, send_through,
}
use svoiptunnel.Ssl.Session.{Engine, Session, send}
use svoiptunnel.Vpn.Wire.{connect_msg, frame, ping_msg, put_u16, setup_data}
use svoiptunnel.Vpn.Link.{
  no_channel, Endpoint, Link, client, connect, disconnect, ping, send_data, set_events,
  setup_data_conn, transmit,
}
use svoiptunnel.Vpn.Node.{
  Call, Node, Sent, accept, attach, data_out, do_connect, do_disconnect, do_ping, expire, link_down,
  link_ready, perform, receive, self, send_signalling, setup, signal_out,
}

-- At most one message of the link itself, and nothing else.
abbrev pub IsSaying : Sent → Type 0
IsSaying sent = (sent ≡ []) ⊎ ((buf : Bytes) × (sent ≡ (self, transmit buf) ∷ []))

-- A client that is not connected.
abbrev pub IsUnconnected : Node → Type 0
IsUnconnected n = (n.link.mode ≡ client) × (n.link.connected ≡ false)

public-messages :
    (less : Endpoint → Endpoint → Bool) (n n' : Node) (c : Call) (sent : Sent)
    → IsPublic c
    → IsUnconnected n
    → perform less n c ≡ ok (n', sent)
    → IsSaying sent × IsUnconnected n'
unfolding perform connect ping disconnect set_events
public-messages less n n' (attach b) sent h m e = (inl (ground arith), ground arith)
public-messages less n n' do_connect sent h m e =
    (inr (frame connect_msg no_channel [], ground arith), ground arith)
public-messages less n n' do_ping sent h m e =
    (inr (frame ping_msg no_channel [], ground arith), ground arith)
public-messages less n n' do_disconnect sent h m e = (inl (ground arith), ground arith)
public-messages less n n' link_ready sent h m e = absurd h
public-messages less n n' link_down sent h m e = absurd h
public-messages less n n' (receive ep buf) sent h m e = absurd h
public-messages less n n' (expire aborted) sent h m e = absurd h
public-messages less n n' (setup callid i port) sent h m e =
    unfold setup_data_conn in
    (
      inr (frame setup_data no_channel (put_u16 i ++ put_u16 port ++ callid), ground arith),
      ground arith,
    )
public-messages less n n' (data_out port buf) sent h m e =
    unfold send_data in (inl (ground arith), ground arith)
public-messages less n n' (signal_out ch buf vpn_id) sent h m e =
    unfold send_signalling in (inl (ground arith), ground arith)
public-messages less n n' (accept ep l) sent h m e = absurd h

saying-waits : (sent : Sent) → IsSaying sent → waits_of sent ≡ 0
saying-waits sent (inl e) = rw e refl
saying-waits sent (inr (buf, e)) = rw e refl

none_released :
    {S : Type 0} (m : Dict Endpoint Link) (guests : List (Accepted S))
    → guests ≡ []
    → release m guests ≡ []
unfolding release
none_released m guests e = rw e refl

module _ {E S : Type 0} (eng : Engine E) where
  abbrev returned : SocketLink (Secured E S) → Wired → Outcome (SocketLink (Secured E S) × Wired)
  returned t out = ok (t, out)

  -- A client whose handshake runs: its timer has not been started.
  abbrev pub IsShaking : SocketLink (Secured E S) → Session E → Type 0
  IsShaking t s =
      (t.socket.session ≡ ok s)
      × (s.handshaking ≡ true)
      × (t.waits ≡ 0)
      × (t.accepted_sockets ≡ [])
      × IsUnconnected t.node

  -- What the link says is lost.
  dropped :
      (t : SocketLink (Secured E S)) (s : Session E) (sent : Sent)
      → t.socket.session ≡ ok s
      → s.handshaking ≡ true
      → IsSaying sent
      → carry eng sent t ≡ ok (record t { socket = record t.socket { session = ok s } }, [])
  unfolding carry carry_effect send_from send_through send
  dropped t s sent e busy (inl f) = rw (f, sym e) refl
  dropped t s sent e busy (inr (buf, f)) = rw (f, e, busy) refl

  -- A call of the program during the handshake changes only the link, and sends nothing.
  pub call_main-dropped :
      (less : Endpoint → Endpoint → Bool) (t t' : SocketLink (Secured E S)) (s : Session E)
      (c : Call) (out : Wired)
      → IsPublic c
      → IsShaking t s
      → call_main eng less t c ≡ ok (t', out)
      → IsShaking t' s × (t'.socket.socket ≡ t.socket.socket) × (out ≡ [])
  unfolding call_main
  call_main-dropped less t t' s c out h (e, busy, idle, empty, up) k =
      let ((n, sent), f, g) = >>=-eq-ok (perform less t.node c) _ k in
      let (says, stays_up) = public-messages less t.node n c sent h up f in
      let finish : SocketLink (Secured E S) × Wired → Outcome (SocketLink (Secured E S) × Wired) =
        λ r. ok (
          record r.0 {
            node = n;
            waits = t.waits + waits_of sent;
            accepted_sockets = release n.clients r.0.accepted_sockets;
          },
          r.1,
        ) in
      let next : SocketLink (Secured E S) = record {
        node = n;
        socket = record t.socket { session = ok s };
        waits = t.waits + waits_of sent;
        accepted_sockets = release n.clients t.accepted_sockets;
      } in
      let said : returned next [] ≡ returned t' out =
        subst (λ r. r >>= finish ≡ ok (t', out)) (dropped t s sent e busy says) g in
      let same_link : next ≡ t' = ground arith in
      let same_out : [] ≡ out = ground arith in
      let quiet_waits : t.waits + waits_of sent ≡ 0 = omega (arith, idle, saying-waits sent says) in
      (
        subst (λ u. IsShaking u s) same_link
            (refl, busy, quiet_waits, none_released n.clients t.accepted_sockets empty, stays_up),
        ap (λ u. u.socket.socket) (sym same_link),
        sym same_out,
      )
