-- ===== src/Sip/Media/Announced.antt =====
-- The set-up message that `addDataPort` of svoiptunnel/sipcall.cpp sends, and how
-- `VPNLinkBase::onReceive` of svoiptunnel/vpnlinkbase.cpp takes it at the other end.
use svoiptunnel.Vpn.Endpoints.{endpoint_eq}
use svoiptunnel.Base.{
  ℕ, ◌%◌, ◌^◌, ◌-◌, ◌<◌, ◌≤◌, ◌≡◌, ◌≢◌, sym, ◌∙◌, ap, true, List, [], ◌∷◌, Bytes, length,
  Option-cases, inl, inr, Outcome, ok, >>=-eq-ok, if◌then◌else◌, ◌==◌, arith,
}
use svoiptunnel.Base.Dict.{nat_eq, find}
use svoiptunnel.Vpn.Wire.{buffer_size}
use svoiptunnel.Vpn.Link.{
  Endpoint, Link, Effect, server, transmit, refreshed, on_receive, setup_data_conn, no_channel,
}
use svoiptunnel.Vpn.Link as Link
use svoiptunnel.Vpn.Link.Delivery.{setup_data_conn-on_receive}
use svoiptunnel.Vpn.Node.{Origin, self, at_client, Sent, sent_by}
use svoiptunnel.Sip.Media.{
  World, Server, SipCall, slot_at, on_link, announce, add_data_port, ensure_slot,
  register_data_port, put_conn, connect_conn,
}
use svoiptunnel.Sip.Media.Streams.{with_conn-IsUsed}

pub ensure_slot-id :
    (w : World) (s : Server) (c : SipCall) (idx : ℕ) → (ensure_slot w s c idx).1.call_id ≡ c.call_id
unfolding ensure_slot
ensure_slot-id w s c idx = ground arith

ensure_slot-link :
    (w : World) (s : Server) (c : SipCall) (idx : ℕ) → (ensure_slot w s c idx).1.link ≡ c.link
unfolding ensure_slot
ensure_slot-link w s c idx = ground arith

-- What a call on a link sends, if it goes well, is what the link sends.
on_link-sent :
    (o : Origin) (call : Link → Outcome (Link × List Effect)) (s s' : Server) (sent : Sent)
    → on_link o call s ≡ ok (s', sent)
    → (l : Link) × (l' : Link) × (es : List Effect) × (call l ≡ ok (l', es)) × (sent ≡ sent_by o es)
unfolding on_link
on_link-sent self call s s' sent h =
    let (r, e, done) = >>=-eq-ok (call s.node.link) _ h in (s.node.link, r.0, r.1, e, cc)
on_link-sent (at_client ep) call s s' sent h = elim (Option-cases (find ep s.node.clients)) [
  | inl gone ↦ absurd (ground arith)
  | inr (l, there) ↦
      let (r, e, done) = >>=-eq-ok (call l) _ (rw (on_link, there) at h) in (l, r.0, r.1, e, cc)
]

setup_data_conn-fits :
    (l l' : Link) (callid : Bytes) (idx port : ℕ) (es : List Effect)
    → setup_data_conn l callid idx port ≡ ok (l', es)
    → length callid ≤ buffer_size - 4
unfolding setup_data_conn
setup_data_conn-fits l l' callid idx port es h = ground arith

sent_of {ℓ κ ι η} :
    {A : Type ℓ} {B : Type κ} {C : Type ι} {D : Type η} {a a' : A} {b b' : B} {c c' : C} {d d' : D}
    → ◌≡◌ {A = Outcome (A × B × C × D)} (ok (a, b, c, d)) (ok (a', b', c', d'))
    → (c ≡ c') × (d ≡ d')
sent_of h = (cc, cc)

module _ (there : Link) (ep : Endpoint) (listening : there.has_events ≡ true)
    (mode : there.mode ≢ server) where
  -- What an end says to the other end about a data connection, and what is made of it there.
  abbrev pub Announces : Origin → ℕ → ℕ → Bytes → Sent → Type 0
  Announces o idx port id sent =
      (msg : Bytes) × (sent ≡ (o, transmit msg) ∷ [])
      × (on_receive there ep msg ≡ ok (refreshed there, Link.on_setup_data idx port id ∷ []))

  announce-Announces :
      (c : SipCall) (idx ref port : ℕ) (s s' : Server) (sent : Sent)
      → idx < 2 ^ 16
      → port < 2 ^ 16
      → announce c idx ref port s ≡ ok (s', sent)
      → Announces c.link idx port c.call_id sent
  unfolding announce
  announce-Announces c idx ref port s s' sent small short h =
      let (r, e, done) =
        >>=-eq-ok (on_link c.link (λ l. setup_data_conn l c.call_id idx port) s)
          (λ r. ok (register_data_port port ref r.0, r.1)) h in
      let (l, l', es, goes, made) = on_link-sent c.link _ s r.0 r.1 e in
      let (msg, said, heard) =
        setup_data_conn-on_receive there ep listening mode l c.call_id idx port
          (setup_data_conn-fits l l' c.call_id idx port es goes) small short in
      let es_eq : es ≡ transmit msg ∷ [] = cc in
      let out : sent ≡ r.1 = cc in (msg, out ∙ made ∙ ap (sent_by c.link) es_eq, heard)

  -- The set-up message has the port that `addDataPort` returns and the call's own identifier.
  pub add_data_port-Announces :
      (w : World) (s s' : Server) (c c' : SipCall) (addr : Bytes) (port idx local : ℕ) (sent : Sent)
      → local < 2 ^ 16
      → add_data_port w s c addr port idx ≡ ok (s', c', sent, local)
      → Announces c.link (idx % 2 ^ 16) local c.call_id sent
  unfolding add_data_port
  add_data_port-Announces w s s' c c' addr port idx local sent short h =
      let at = idx % 2 ^ 16 in
      let ensured = ensure_slot w s c at in
      let u = with_conn-IsUsed ensured.0 (slot_at ensured.1.slots at) _ _ h in
      let opened =
        if port == 0
        then ensured.0
        else put_conn u.ref (connect_conn w addr port u.conn) ensured.0 in
      let (r, e, done) =
        >>=-eq-ok (announce ensured.1 at u.ref u.conn.local_port opened) _ u.went in
      let (out, bound) = sent_of done in
      let (msg, said, heard) =
        announce-Announces ensured.1 at u.ref u.conn.local_port opened r.0 r.1 (omega arith)
          (omega arith) e in
      let of_link : ensured.1.link ≡ c.link = ensure_slot-link w s c at in
      let of_id : ensured.1.call_id ≡ c.call_id = ensure_slot-id w s c at in
      (
        msg,
        sym out ∙ said ∙ ap (λ o. (o, transmit msg) ∷ []) of_link,
        heard
            ∙ ap (λ p. ok (refreshed there, Link.on_setup_data at p ensured.1.call_id ∷ [])) bound
            ∙ ap (λ id. ok (refreshed there, Link.on_setup_data at local id ∷ [])) of_id,
      )
