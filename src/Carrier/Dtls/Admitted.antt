-- ===== src/Carrier/Dtls/Admitted.antt =====
-- `VPNDTLSLink::onAccept` of svoiptunnel/vpndtlslink.cpp does to the links only what a transport may do.
use svoiptunnel.Net.Udp as Net
use svoiptunnel.Net.Udp.{Completion, Report, UdpSocket, closed, complete, error, received}
use svoiptunnel.Base.{
  [], ◌∷◌, ◌++◌, >>=-eq-ok, List, Option-cases, Outcome, Bool, arith, codes, inl, inr, length, none,
  ok, refl, sym, true, Bytes, ◌>>=◌, ◌∙◌, ◌≡◌, ◌≢◌, some, if◌then◌else◌,
}
use mathlib.Core.Path.{subst}
use svoiptunnel.Base.Dict.{find}
use svoiptunnel.Carrier.Guests.{is_some}
use svoiptunnel.Carrier.Secured.{Library, Wired, out_by}
use svoiptunnel.Carrier.Secured.Moved.{receive_at-Moves}
use svoiptunnel.Carrier.Secured.Received.{receive-Hears}
use svoiptunnel.Carrier.Secured.Hearing.{Hears-run, from_guest-self}
use svoiptunnel.Carrier.Secured.Quiet.{
  MovesBehind, accepted_session-silent, behind_on, one_origin, same_rest, silent_by,
}
use svoiptunnel.Carrier.Udp.{Platform}
use svoiptunnel.Carrier.Dtls.{DtlsLink, newcomer, on_accept, turn_away, welcome}
use svoiptunnel.Ssl.Session.{Out, Session, accepted_session, receive}
use svoiptunnel.Vpn.Endpoints.{endpoint_eq}
use svoiptunnel.Vpn.Link.{Endpoint, Link, generate_id, set_events}
use svoiptunnel.Vpn.Node as Node
use svoiptunnel.Vpn.Node.{Call, Node, Sent, at_client, attach, perform, self, sent_by}
use svoiptunnel.Vpn.Tunnel.{admits, alone, newborn, passes, single, stays}

module _ {E : Type 0} (ssl : Library E) (p : Platform) where
  -- What the steps are refined to.
  abbrev pub Tunnels : DtlsLink ssl → DtlsLink ssl → Wired → Type 0
  Tunnels t t' out = MovesBehind p.naming.less t.node t'.node out

  nothing_said :
      (id : _) → Node.run p.naming.less (alone (newborn id)) [] ≡ ok (alone (newborn id), [])
  unfolding Node.run
  nothing_said id = refl

  attach_first :
      (present : Bool) (l : Link) (cs : List Call) (n : Node) (sent : Sent)
      → Node.run p.naming.less (alone (set_events present l)) cs ≡ ok (n, sent)
      → Node.run p.naming.less (alone l) (attach present ∷ cs) ≡ ok (n, sent)
  unfolding Node.run perform
  attach_first present l cs n sent h = rw h refl

  welcome-Tunnels :
      (t t' : DtlsLink ssl) (ep : Endpoint) (id : Bytes) (s : UdpSocket) (session : Session E)
      (buf : Bytes) (out : Wired)
      → find ep t.node.clients ≡ none
      → welcome ssl p t ep (newborn id) s session buf ≡ ok (t', out)
      → Tunnels t t' out
  unfolding welcome
  welcome-Tunnels t t' ep id s session buf out f h =
      let guest = newcomer ssl ep s session true in
      let t₁ : DtlsLink ssl = record t {
        node = Node.on_accept p.naming.less ep (newborn id) t.node;
        accepted_sockets = t.accepted_sockets ++ guest ∷ [];
      } in
      behind_on p.naming.less t.node t₁.node t'.node [] out out
        (
          [],
          single p.naming.less t.node t₁.node []
              (admits ep id [] (alone (newborn id)) [] tt (nothing_said id) refl refl),
          refl,
        )
        (receive_at-Moves ssl.engine p.naming.less t₁ t' (length t.accepted_sockets) guest ep buf
          out h)
        refl

  turn_away-Tunnels :
      (t t' : DtlsLink ssl) (ep : Endpoint) (id : Bytes) (s : UdpSocket) (session : Session E)
      (buf : Bytes) (out : Wired)
      → turn_away ssl t ep (newborn id) s session buf ≡ ok (t', out)
      → Tunnels t t' out
  unfolding turn_away
  turn_away-Tunnels t t' ep id s session buf out h =
      let l : Link = set_events t.node.link.has_events (newborn id) in
      let ((s', (l', sent)), e, f) = >>=-eq-ok (receive ssl.engine buf session l ep) _ h in
      let (es, heard, q) = receive-Hears ssl.engine buf session s' l l' ep sent e in
      let (cs, own_calls, r) = Hears-run p.naming.less ep l l' es heard in
      let o = at_client ep in
      let same_node : t.node ≡ t'.node = ground arith in
      let same_out : out_by o sent ≡ out = ground arith in
      (
        sent_by o es,
        single p.naming.less t.node t'.node (sent_by o es) (
            passes ep id (attach t.node.link.has_events ∷ cs) (alone l') (sent_by self es)
              (tt, own_calls)
              (attach_first t.node.link.has_events (newborn id) cs (alone l') (sent_by self es) r)
              (sym same_node) (sym (from_guest-self ep es))),
        same_rest (sent_by o es) (out_by o sent) out (one_origin o es sent q) same_out,
      )

  -- What the constructor of an accepted link sends goes out first.
  abbrev greeting : DtlsLink ssl → Session E × List Out
  greeting t = accepted_session ssl.engine (ssl.accept_state (length t.accepted_sockets))

  abbrev behind_greeting :
      DtlsLink ssl → Endpoint → DtlsLink ssl × Wired → Outcome (DtlsLink ssl × Wired)
  behind_greeting t ep r = ok (r.0, out_by (at_client ep) (greeting t).1 ++ r.1)

  greeted-Tunnels :
      (t t' : DtlsLink ssl) (ep : Endpoint) (first : Outcome (DtlsLink ssl × Wired)) (out : Wired)
      → ((u : DtlsLink ssl) (more : Wired) → first ≡ ok (u, more) → Tunnels t u more)
      → first >>= behind_greeting t ep ≡ ok (t', out)
      → Tunnels t t' out
  greeted-Tunnels t t' ep first out each h =
      let ((u, more), k, j) = >>=-eq-ok first (behind_greeting t ep) h in
      let hello = out_by (at_client ep) (greeting t).1 in
      let same_link : u ≡ t' = ground arith in
      let same_out : hello ++ more ≡ out = ground arith in
      behind_on p.naming.less t.node t.node t'.node hello more out
        (
          [],
          stays refl refl,
          silent_by (at_client ep) (greeting t).1 hello
              (accepted_session-silent ssl.engine (ssl.accept_state (length t.accepted_sockets)))
              refl,
        )
        (subst (λ x. Tunnels t x more) same_link (each u more k)) same_out

  id_of : Endpoint → Bytes
  id_of ep = p.naming.hash_text (ep.address ++ codes ":" ++ p.naming.show ep.port)

  on_accept-first :
      (t : DtlsLink ssl) (s : UdpSocket) (buf : Bytes) (ep : Endpoint)
      → s.peer ≡ some ep
      → on_accept ssl p t s buf
        ≡ (if is_some (find ep t.node.clients)
            then turn_away ssl t ep (newborn (id_of ep)) (Net.set_events true s) (greeting t).0 buf
            else welcome ssl p t ep (newborn (id_of ep)) (Net.set_events true s) (greeting t).0 buf)
          >>= behind_greeting t ep
  unfolding on_accept generate_id Net.set_events id_of
  on_accept-first t s buf ep e = rw e refl

  no_peer :
      (t t' : DtlsLink ssl) (s : UdpSocket) (buf : Bytes) (out : Wired)
      → s.peer ≡ none
      → on_accept ssl p t s buf ≢ ok (t', out)
  unfolding on_accept Net.set_events
  no_peer t t' s buf out e h = ground arith

  pub on_accept-Tunnels :
      (t t' : DtlsLink ssl) (s : UdpSocket) (buf : Bytes) (out : Wired)
      → on_accept ssl p t s buf ≡ ok (t', out)
      → Tunnels t t' out
  on_accept-Tunnels t t' s buf out h = elim (Option-cases s.peer) [
    | inl e ↦ absurd (no_peer t t' s buf out e h)
    | inr (ep, e) ↦
        let s' = Net.set_events true s in
        let session = (greeting t).0 in
        let first = sym (on_accept-first t s buf ep e) ∙ h in
        elim (Option-cases (find ep t.node.clients)) [
          | inl f ↦
              greeted-Tunnels t t' ep (welcome ssl p t ep (newborn (id_of ep)) s' session buf) out
                (λ u more k. welcome-Tunnels t u ep (id_of ep) s' session buf more f k)
                (subst
                  (λ x.
                    (if is_some x
                        then turn_away ssl t ep (newborn (id_of ep)) s' session buf
                        else welcome ssl p t ep (newborn (id_of ep)) s' session buf)
                      >>= behind_greeting t ep
                    ≡ ok (t', out))
                  f first)
          | inr (w, f) ↦
              greeted-Tunnels t t' ep (turn_away ssl t ep (newborn (id_of ep)) s' session buf) out
                (λ u more k. turn_away-Tunnels t u ep (id_of ep) s' session buf more k)
                (subst
                  (λ x.
                    (if is_some x
                        then turn_away ssl t ep (newborn (id_of ep)) s' session buf
                        else welcome ssl p t ep (newborn (id_of ep)) s' session buf)
                      >>= behind_greeting t ep
                    ≡ ok (t', out))
                  f first)
        ]
  ]
