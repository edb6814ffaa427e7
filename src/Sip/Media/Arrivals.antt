-- ===== src/Sip/Media/Arrivals.antt =====
-- A media stream from end to end: `addDataPort` at one end, `onSetupData` at the other,
-- `sipdataconn::onReceive` there, and `onReceiveData` at the end that announced its port.
use svoiptunnel.Vpn.Endpoints.{endpoint_eq}
use mathlib.Core.Path.{subst}
use svoiptunnel.Base.{
  ℕ, ◌%◌, ◌^◌, ◌<◌, ◌≤◌, ◌≡◌, ◌≢◌, refl, sym, ◌∙◌, ap, true, List, [], ◌∷◌, Bytes, length,
  get_elem?, Option, some, Option-cases, inl, inr, Outcome, ok, arith, ==_refl, same_iff,
}
use svoiptunnel.Base.Dict.{Dict, bytes_eq, nat_eq, find, assign, find-assign, assign_same}
use svoiptunnel.Vpn.Wire.{buffer_size}
use svoiptunnel.Vpn.Link.{
  Endpoint, Link, Effect, server, transmit, on_receive_data, refreshed, on_receive, send_data,
}
use svoiptunnel.Vpn.Link
use svoiptunnel.Vpn.Link.Delivery.{send_data-on_receive}
use svoiptunnel.Vpn.Node.{Origin, self, at_client, Sent, sent_by}
use svoiptunnel.Sip.Media
use svoiptunnel.Sip.Media.{
  World, Server, SipCall, DataConn, slot_at, on_link, add_data_port, ensure_slot,
  register_data_port, put_conn, link_vpn_port, call_for, put_call, on_media, on_setup_data,
  with_conn,
}
use svoiptunnel.Sip.Media.Announced.{ensure_slot-id, add_data_port-Announces}
use svoiptunnel.Sip.Media.Live.{get_elem?-set}
use svoiptunnel.Sip.Media.Streams.{IsOpen, add_data_port-IsOpen, with_conn-IsUsed}

-- Every call stands under its own identifier.
abbrev pub HasIds : Server → Type 0
HasIds s = (id : Bytes) (c : SipCall) → find id s.calls ≡ some c → c.call_id ≡ id

-- The data connection in a slot of a call has the other end's port.
pub record IsLinked (s : Server) (id : Bytes) (idx port : ℕ) : Type 0 where
  pub call : SipCall
  pub ref : ℕ
  pub conn : DataConn
  pub known : find id s.calls ≡ some call
  pub at : slot_at call.slots idx ≡ some ref
  pub made : get_elem? s.conns ref ≡ some conn
  pub linked : conn.vpn_port ≡ port

call_for-id :
    (link : Origin) (id : Bytes) (s : Server) → HasIds s → (call_for link id s).call_id ≡ id
unfolding call_for
call_for-id link id s named = elim (Option-cases (find id s.calls)) [
  | inl new ↦ ground arith
  | inr (c, old) ↦ ground (arith, named id c)
]

find_own :
    (k id : Bytes) (c : SipCall) (m : Dict Bytes SipCall) → k ≡ id → find id (assign k c m) ≡ some c
find_own k id c m e = find-assign k id c m ∙ ground (arith, same_iff k id)

module _ (w : World) (s : Server) (link : Origin) (idx port : ℕ) (id : Bytes) where
  abbrev ensured : Server × SipCall
  ensured = ensure_slot w s (call_for link id s) idx

  abbrev linked_server : ℕ → DataConn → Server
  linked_server ref d =
      (register_data_port d.local_port ref
        (put_call ensured.1 (put_conn ref (link_vpn_port port d) ensured.0)))

  abbrev links : ℕ → DataConn → Outcome Server
  links ref d = ok (linked_server ref d)

  made_link :
      (ref : ℕ) (d : DataConn) (s' : Server)
      → HasIds s
      → slot_at ensured.1.slots idx ≡ some ref
      → get_elem? ensured.0.conns ref ≡ some d
      → links ref d ≡ ok s'
      → IsLinked s' id idx port
  unfolding register_data_port
  made_link ref d s' named at made h =
      let e : linked_server ref d ≡ s' = cc in
      subst (λ t. IsLinked t id idx port) e
        (record {
          call = ensured.1;
          ref = ref;
          conn = link_vpn_port port d;
          known =
              find_own ensured.1.call_id id ensured.1 _
                (ensure_slot-id w s (call_for link id s) idx ∙ call_for-id link id s named);
          at = at;
          made =
              get_elem?-set ensured.0.conns ref ref (link_vpn_port port d) d made
              ∙ rw (==_refl ref);
          linked = refl;
        })

  -- After the other end's set-up message the call has a data connection in the slot, and it has the
  -- other end's port.
  pub on_setup_data-IsLinked :
      (s' : Server)
      → HasIds s
      → on_setup_data w s link idx port id ≡ ok s'
      → IsLinked s' id idx port
  unfolding on_setup_data
  on_setup_data-IsLinked s' named h =
      let u = with_conn-IsUsed ensured.0 (slot_at ensured.1.slots idx) links s' h in
      made_link u.ref u.conn s' named u.filled u.made u.went

abbrev pub link_at : Origin → Server → Option Link
link_at self s = some s.node.link
link_at (at_client ep) s = find ep s.node.clients

-- A call that leaves its link as it is leaves the server as it is.
on_link_same :
    (o : Origin) (call : Link → Outcome (Link × List Effect)) (s : Server) (l : Link)
    (es : List Effect)
    → link_at o s ≡ some l
    → call l ≡ ok (l, es)
    → on_link o call s ≡ ok (s, sent_by o es)
unfolding on_link
on_link_same self call s l es at h =
    let e : s.node.link ≡ l = cc in
    let f : call s.node.link ≡ ok (l, es) = ap call e ∙ h in
    rw f (ap (λ t. ok (record s { node = record s.node { link = t } }, sent_by self es)) (sym e))
on_link_same (at_client ep) call s l es at h =
    rw (on_link, at, h)
      (ap (λ m. ok (record s { node = record s.node { clients = m } }, sent_by (at_client ep) es))
        (assign_same ep l s.node.clients at))

some_inj {ℓ} : {A : Type ℓ} {x y : A} → some x ≡ some y → x ≡ y
some_inj h = cc

vpn_port_at :
    (s : Server) (id : Bytes) (idx port : ℕ) (call : SipCall) (ref : ℕ) (conn : DataConn)
    → IsLinked s id idx port
    → find id s.calls ≡ some call
    → slot_at call.slots idx ≡ some ref
    → get_elem? s.conns ref ≡ some conn
    → conn.vpn_port ≡ port
vpn_port_at s id idx port call ref conn v known at made =
    let same_call : v.call ≡ call = some_inj (sym v.known ∙ known) in
    let same_ref : v.ref ≡ ref =
      some_inj (sym v.at ∙ ap (λ (c : SipCall). slot_at c.slots idx) same_call ∙ at) in
    let same_conn : v.conn ≡ conn =
      some_inj (sym v.made ∙ ap (λ r. get_elem? s.conns r) same_ref ∙ made) in
    ap (λ (d : DataConn). d.vpn_port) (sym same_conn) ∙ v.linked

media_sent :
    (s : Server) (ref : ℕ) (conn : DataConn) (out : Link) (buf msg : Bytes)
    → get_elem? s.conns ref ≡ some conn
    → link_at conn.link s ≡ some out
    → send_data out conn.vpn_port buf ≡ ok (out, transmit msg ∷ [])
    → on_media s ref buf ≡ ok (s, (conn.link, transmit msg) ∷ [])
unfolding on_media
media_sent s ref conn out buf msg made linked goes =
    rw (on_media, with_conn, made)
      (on_link_same conn.link (λ l. send_data l conn.vpn_port buf) s out _ linked goes)

module _ (a a' b b' : Server) (wa wb : World) (ca ca' : SipCall) (addr : Bytes) (port idx local : ℕ)
    (sent : Sent) (link : Origin) (there into : Link) (ep_there ep : Endpoint) where
  -- One end has opened a data connection. It sends one message, on the link of its call, of
  -- which the other end's link makes a set-up with the index, cut to 16 bits, the port of the
  -- connection and the identifier of the call; and the other end has handled this set-up without
  -- an error. What then comes in at the other end's data connection with that index in that
  -- call, at most 1500 bytes, goes out on the link of that connection, if this is connected; and
  -- the first end's link gives it to `onReceiveData` for the port of the connection that was
  -- opened, which sends it on through just that connection, whole. The links that receive, one
  -- at each end, have a handler and do not listen, and the port has 16 bits. Every call of the
  -- other end stands under its own identifier.
  pub stream_arrives :
      (call : SipCall) (ref : ℕ) (conn : DataConn) (out : Link) (buf : Bytes)
      → add_data_port wa a ca addr port idx ≡ ok (a', ca', sent, local)
      → local < 2 ^ 16
      → there.has_events ≡ true
      → there.mode ≢ server
      → HasIds b
      → on_setup_data wb b link (idx % 2 ^ 16) local ca.call_id ≡ ok b'
      → find ca.call_id b'.calls ≡ some call
      → slot_at call.slots (idx % 2 ^ 16) ≡ some ref
      → get_elem? b'.conns ref ≡ some conn
      → link_at conn.link b' ≡ some out
      → out.connected ≡ true
      → into.has_events ≡ true
      → into.mode ≢ server
      → length buf ≤ buffer_size
      → ((said : Bytes) × (sent ≡ (ca.link, transmit said) ∷ [])
          × (on_receive there ep_there said
              ≡ ok (refreshed there, Link.on_setup_data (idx % 2 ^ 16) local ca.call_id ∷ [])))
        × (v : IsOpen a' ca' (idx % 2 ^ 16) local) × (msg : Bytes) × (on_media b' ref buf
            ≡ ok (b', (conn.link, transmit msg) ∷ []))
        × (on_receive into ep msg ≡ ok (refreshed into, on_receive_data local buf ∷ []))
        × (Media.on_receive_data a' local buf ≡ (v.ref, buf) ∷ [])
  stream_arrives call ref conn out buf opened short hears not_listening named set_up known at made
        linked up listening mode fits =
      let v = add_data_port-IsOpen wa a ca addr port idx a' ca' sent local opened in
      let (msg, goes, comes) =
        send_data-on_receive into ep listening mode out local buf up fits short in
      let to_port =
        vpn_port_at b' ca.call_id (idx % 2 ^ 16) local call ref conn
          (on_setup_data-IsLinked wb b link (idx % 2 ^ 16) local ca.call_id b' named set_up) known
          at made in
      (
        add_data_port-Announces there ep_there hears not_listening wa a a' ca ca' addr port idx
            local sent short opened,
        v,
        msg,
        media_sent b' ref conn out buf msg made linked
            (ap (λ p. send_data out p buf) to_port ∙ goes),
        comes,
        v.arrives buf,
      )
