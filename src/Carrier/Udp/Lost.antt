-- ===== src/Carrier/Udp/Lost.antt =====
-- Two datagrams of one new client that the listening socket of a UDP server takes
-- (svoiptunnel/vpnudplink.cpp).
use svoiptunnel.Net.Udp.{
  Report, UdpSocket, bind_and_connect, complete, handle_receive, listen_done, new_socket,
  receive_done, received, report, success,
}
use svoiptunnel.Net.Udp as Net
use svoiptunnel.Net.Udp.Deaf.{heard}
use svoiptunnel.Carrier.Udp.Taken.{Takes, on_accept-Takes}
use svoiptunnel.Carrier.Guests.{chain, Accepted, is_some}
use svoiptunnel.Carrier.Udp.{
  Platform, UdpLink, deliver, deliver_all, deliver_at, guest_step, socket_done, guest_done,
  socket_step, step,
}
use svoiptunnel.Vpn.Node.{Sent}
use svoiptunnel.Vpn.Link.{Endpoint}
use svoiptunnel.Vpn.Endpoints.{endpoint_eq}
use svoiptunnel.Base.Dict.{find}
use svoiptunnel.Base.{
  ℕ, >>=-eq-ok, Bytes, [], arith, dangling_pointer, fails, false, get_elem?,
  get_elem?-append_length, length, ok, refl, some, sym, true, ◌∙◌, ◌∷◌, ◌≡◌, ◌<◌, ap,
}
use mathlib.Core.Path.{subst}

module _ (p : Platform) where
  -- The socket that the server opens for a new client.
  abbrev opened : Endpoint → UdpSocket
  opened from = (bind_and_connect p.system p.local from new_socket).0

  opened-peer :
      (from ep : Endpoint)
      → (opened from).peer ≡ some ep
      → (ep ≡ from) × ((opened from).receives ≡ 1)
  unfolding bind_and_connect new_socket
  opened-peer from ep h = ground arith

  delivered :
      (t t' : UdpLink) (r : Report) (out : Sent)
      → deliver_all p t (r ∷ []) ≡ ok (t', out)
      → (sent : Sent) × (deliver p t r ≡ ok (t', sent))
  unfolding chain
  delivered t t' r out h =
      let ((u, sent), e, f) = >>=-eq-ok (deliver p t r) _ h in
      let same : u ≡ t' = ground arith in (sent, e ∙ ap (λ x. ok (x, sent)) same)

  socket_step-reports :
      (t : UdpLink) (from : Endpoint) (buf : Bytes)
      → t.socket.has_events ≡ true
      → 0 < t.socket.listens
      → socket_step p t (listen_done success from buf)
        ≡ deliver_all p
            (record t { socket = record t.socket { remote = from } })
            (Net.accepted (opened from) buf ∷ [])
  unfolding socket_step Net.on_accept
  socket_step-reports t from buf events l =
      rw (socket_step, heard p.system p.local t.socket from buf l, Net.on_accept, events) refl

  -- A datagram on the listening socket is taken by a new one.
  socket_step-Takes :
      (t t' : UdpLink) (from : Endpoint) (buf : Bytes) (out : Sent)
      → t.socket.has_events ≡ true
      → 0 < t.socket.listens
      → socket_step p t (listen_done success from buf) ≡ ok (t', out)
      → Takes p (record t { socket = record t.socket { remote = from } }) t' (opened from)
  unfolding deliver
  socket_step-Takes t t' from buf out events l h =
      let u = record t { socket = record t.socket { remote = from } } in
      let all : deliver_all p u (Net.accepted (opened from) buf ∷ []) ≡ ok (t', out) =
        sym (socket_step-reports t from buf events l) ∙ h in
      let (sent, f) = delivered u t' (Net.accepted (opened from) buf) out all in
      on_accept-Takes p u t' (opened from) buf sent f

  -- The first datagram on a new socket whose link is not in the map.
  guest_dangling :
      (t : UdpLink) (i : ℕ) (a : Accepted UdpSocket) (buf : Bytes)
      → a.is_kept ≡ false
      → a.socket.has_events ≡ true
      → a.socket.receives ≡ 1
      → guest_step p t i (receive_done success buf) a ≡ fails dangling_pointer
  unfolding guest_step complete handle_receive deliver_at
  guest_dangling t i a buf gone events one = rw (one, events, gone) refl

  opened_guest :
      (t t' : UdpLink) (from : Endpoint)
      → (k : Takes p t t' (opened from))
      → (k.new_guest.socket.receives ≡ 1) × (k.new_guest.socket.has_events ≡ true) × (k.ep ≡ from)
  unfolding Net.set_events
  opened_guest t t' from k =
      let (e, f) = opened-peer from k.ep k.connected in rw k.guest_socket (f, refl, e)

  -- A UDP link that listens takes two datagrams of one client on its listening socket, one after
  -- the other; each gets a socket of its own. If neither handler ends with an exception or a memory
  -- fault, the next datagram on the second of these sockets is given to a link that has been
  -- deleted.
  pub step-dangling :
      (t t₁ t₂ : UdpLink) (from : Endpoint) (first second third : Bytes) (out₁ out₂ : Sent)
      → t.socket.has_events ≡ true
      → 0 < t.socket.listens
      → step p t (socket_done (listen_done success from first)) ≡ ok (t₁, out₁)
      → step p t₁ (socket_done (listen_done success from second)) ≡ ok (t₂, out₂)
      → step p t₂ (guest_done (length t₁.accepted_sockets) (receive_done success third))
        ≡ fails dangling_pointer
  unfolding step
  step-dangling t t₁ t₂ from first second third out₁ out₂ events l h k =
      let x = socket_step-Takes t t₁ from first out₁ events l h in
      let (_, _, same) = opened_guest _ t₁ from x in
      let there : is_some (find from t₁.node.clients) ≡ true =
        subst (λ ep. is_some (find ep t₁.node.clients) ≡ true) same x.there in
      let e : t₁.socket ≡ record t.socket { remote = from } = x.same_socket in
      let y = socket_step-Takes t₁ t₂ from second out₂ (rw e events) (rw e l) k in
      let (receives, has_events, same') = opened_guest _ t₂ from y in
      let gone : y.new_guest.is_kept ≡ false = y.kept_iff ∙ rw (same', there) refl in
      let last : get_elem? t₂.accepted_sockets (length t₁.accepted_sockets) ≡ some y.new_guest =
        rw y.is_last (get_elem?-append_length t₁.accepted_sockets y.new_guest) in
      rw (step, last)
        (guest_dangling t₂ (length t₁.accepted_sockets) y.new_guest third gone has_events receives)
