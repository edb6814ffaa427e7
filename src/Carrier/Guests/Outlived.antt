-- ===== src/Carrier/Guests/Outlived.antt =====
-- What the servers of svoiptunnel/vpnudplink.cpp and vpntcplink.cpp keep while their own timer never
-- runs.
use svoiptunnel.Carrier.Guests.{
  Accepted, SocketLink, IsPublic, call_at, call_guest, call_main, chain, guest_timer_step, is_some,
  joined, timer_step, waits_of,
}
use svoiptunnel.Vpn.Tunnel.{alone, from_guest}
use svoiptunnel.Vpn.Node.{
  Call, Node, Sent, accept, attach, do_connect, do_disconnect, do_ping, data_out, expire, link_down,
  link_ready, perform, place, receive, send_signalling, setup, signal_out,
}
use svoiptunnel.Vpn.Link.{
  Endpoint, Link, connect, disconnect, on_receive, ping, send_data, server, set_events,
  setup_data_conn,
}
use svoiptunnel.Vpn.Endpoints.{endpoint_eq}
use svoiptunnel.Base.Dict.{Dict, assign, find, find-assign}
use svoiptunnel.Base.{
  ℕ, >>=-eq-ok, Bool, Bool-cases, List, Option-cases, Outcome, [], arith, inl, inr, ok, fails, refl,
  sym, true, ltb, ◌&&◌, ◌-◌, ◌>>=◌, ◌∙◌, ◌∷◌, ◌≡◌,
}
use mathlib.Core.Path.{subst}

-- Every endpoint of the first map is in the second.
abbrev pub Grows : Dict Endpoint Link → Dict Endpoint Link → Type 0
Grows m m' = (ep : Endpoint) → is_some (find ep m) ≡ true → is_some (find ep m') ≡ true

Grows-assign : (ep : Endpoint) (l : Link) (m : Dict Endpoint Link) → Grows m (assign ep l m)
Grows-assign ep l m j h = ground (arith, find-assign ep j l m)

pub Grows-place :
    (less : Endpoint → Endpoint → Bool) (ep : Endpoint) (l : Link) (m : Dict Endpoint Link)
    → Grows m (place less ep l m)
unfolding place find
Grows-place less ep l [] j h = cc
Grows-place less ep l ((i, w) ∷ m) j h = ground (arith, Grows-place less ep l m j)

abbrev pub IsCalm : Call → Type 0
IsCalm (receive ep buf) = Unit
IsCalm c = IsPublic c

-- A server does nothing to its timer, its mode or its map when it is called.
abbrev Calm : Node → Node → Sent → Type 0
Calm n n' sent = (n'.link.mode ≡ server) × (n'.clients ≡ n.clients) × (waits_of sent ≡ 0)

perform-Calm :
    (less : Endpoint → Endpoint → Bool) (n n' : Node) (c : Call) (sent : Sent)
    → n.link.mode ≡ server
    → IsCalm c
    → perform less n c ≡ ok (n', sent)
    → Calm n n' sent
unfolding perform
perform-Calm less n n' (attach b) sent m h e = unfold set_events in ground arith
perform-Calm less n n' do_connect sent m h e = unfold connect in ground arith
perform-Calm less n n' do_ping sent m h e = unfold ping in ground arith
perform-Calm less n n' do_disconnect sent m h e = unfold disconnect in ground arith
perform-Calm less n n' (receive ep buf) sent m h e = unfold on_receive in ground arith
perform-Calm less n n' (setup callid idx port) sent m h e = unfold setup_data_conn in ground arith
perform-Calm less n n' (data_out port buf) sent m h e = unfold send_data in ground arith
perform-Calm less n n' (signal_out ch buf vpn_id) sent m h e =
    unfold send_signalling in ground arith
perform-Calm less n n' link_ready sent m h e = absurd h
perform-Calm less n n' link_down sent m h e = absurd h
perform-Calm less n n' (expire aborted) sent m h e = absurd h
perform-Calm less n n' (accept ep l) sent m h e = absurd h

pub public-IsCalm : (c : Call) → IsPublic c → IsCalm c
public-IsCalm (receive ep buf) h = absurd h
public-IsCalm (accept ep l) h = h
public-IsCalm (attach b) h = h
public-IsCalm do_connect h = h
public-IsCalm do_ping h = h
public-IsCalm do_disconnect h = h
public-IsCalm link_ready h = h
public-IsCalm link_down h = h
public-IsCalm (expire aborted) h = h
public-IsCalm (setup callid idx port) h = h
public-IsCalm (data_out port buf) h = h
public-IsCalm (signal_out ch buf vpn_id) h = h

abbrev pub NodeGrows : Node → Node → Type 0
NodeGrows n n' = (n'.link ≡ n.link) × Grows n.clients n'.clients

pub call_guest-Grows :
    (less : Endpoint → Endpoint → Bool) (n n' : Node) (ep : Endpoint) (c : Call) (out : Sent)
    → call_guest less n ep c ≡ ok (n', out)
    → NodeGrows n n'
unfolding call_guest
call_guest-Grows less n n' ep c out h = elim (Option-cases (find ep n.clients)) [
  | inl e ↦ absurd (ground arith)
  | inr (l, e) ↦
      let finish : Node × Sent → Outcome (Node × Sent) =
        λ r. ok (record n { clients = assign ep r.0.link n.clients }, from_guest ep r.1) in
      let chain : perform less (alone l) c >>= finish ≡ ok (n', out) = ground arith in
      let ((m, es), f, g) = >>=-eq-ok (perform less (alone l) c) finish chain in
      let same : n' ≡ record n { clients = assign ep m.link n.clients } = ground arith in
      rw same (refl, Grows-assign ep m.link n.clients)
]

module _ {S : Type 0} where
  -- A server, none of whose waits is outstanding.
  abbrev pub IsTimeless : SocketLink S → Type 0
  IsTimeless t = (t.node.link.mode ≡ server) × (t.waits ≡ 0)

  -- What a step from such a server leaves.
  pub record Outlives (t t' : SocketLink S) : Type 0 where
    pub timeless : IsTimeless t'
    pub grows : Grows t.node.clients t'.node.clients

  pub call_main-Outlives :
      (less : Endpoint → Endpoint → Bool) (t t' : SocketLink S) (c : Call) (out : Sent)
      → IsTimeless t
      → IsCalm c
      → call_main less t c ≡ ok (t', out)
      → Outlives t t'
  unfolding call_main
  call_main-Outlives less t t' c out v h e =
      let ((n, sent), f, g) = >>=-eq-ok (perform less t.node c) _ e in
      let (m, same, w) = perform-Calm less t.node n c sent v.0 h f in
      let same_node : n ≡ t'.node = ground arith in
      let still : t'.waits ≡ 0 = ground (arith, v.1, w) in
      record {
        timeless = (subst (λ k. k.link.mode ≡ server) same_node m, still);
        grows = λ ep there. rw (sym same_node, same) there;
      }

  pub grown :
      (t t' : SocketLink S)
      → IsTimeless t
      → NodeGrows t.node t'.node
      → t'.waits ≡ t.waits
      → Outlives t t'
  grown t t' v g w = record { timeless = (rw g.0 v.0, w ∙ v.1); grows = g.1 }

  pub joined-Outlives :
      (t t' : SocketLink S) (s : S) (ep : Endpoint) (kept : Bool) (done : Outcome (Node × Sent))
      (out : Sent)
      → IsTimeless t
      → ((n : Node) (sent : Sent) → done ≡ ok (n, sent) → NodeGrows t.node n)
      → joined t s ep kept done ≡ ok (t', out)
      → Outlives t t'
  unfolding joined
  joined-Outlives t t' s ep kept (ok (n, sent)) out v g h =
      let same : n ≡ t'.node = ground arith in
      grown t t' v (subst (NodeGrows t.node) same (g n sent refl)) (ground arith)
  joined-Outlives t t' s ep kept (fails why) out v g h = cc

  pub stays_same : (t t' : SocketLink S) → IsTimeless t → t ≡ t' → Outlives t t'
  stays_same t t' v e = subst (Outlives t) e (record { timeless = v; grows = λ j there. there })

  pub grown_on : (t t' t'' : SocketLink S) → Outlives t t' → Outlives t' t'' → Outlives t t''
  grown_on t t' t'' a b = record {
    timeless = b.timeless;
    grows = λ j there. b.grows j (a.grows j there);
  }

  pub call_at-Outlives :
      (less : Endpoint → Endpoint → Bool) (t t' : SocketLink S) (i : ℕ) (a : Accepted S) (c : Call)
      (out : Sent)
      → IsTimeless t
      → call_at less t i a c ≡ ok (t', out)
      → Outlives t t'
  unfolding call_at
  call_at-Outlives less t t' i a c out v h =
      let ((n, sent), e, f) = >>=-eq-ok (call_guest less t.node a.peer c) _ h in
      let same : n ≡ t'.node = ground arith in
      grown t t' v (subst (NodeGrows t.node) same (call_guest-Grows less t.node n a.peer c sent e))
        (ground arith)

  pub timer_step-Outlives :
      (less : Endpoint → Endpoint → Bool) (t t' : SocketLink S) (aborted : Bool) (out : Sent)
      → IsTimeless t
      → timer_step less t aborted ≡ ok (t', out)
      → Outlives t t'
  unfolding timer_step
  timer_step-Outlives less t t' aborted out v e = stays_same t t' v (ground arith)

  pub guest_timer_step-Outlives :
      (less : Endpoint → Endpoint → Bool) (t t' : SocketLink S) (i : ℕ) (aborted : Bool)
      (a : Accepted S) (out : Sent)
      → IsTimeless t
      → guest_timer_step less t i aborted a ≡ ok (t', out)
      → Outlives t t'
  unfolding guest_timer_step
  guest_timer_step-Outlives less t t' i aborted a out v e =
      elim (Bool-cases (a.is_kept && ltb 0 a.waits)) [
        | inl due ↦
            call_at-Outlives less t t' i (record a { waits = a.waits - 1 }) (expire aborted) out v
              (ground arith)
        | inr none_due ↦ stays_same t t' v (ground arith)
      ]

  -- If such a server outlives each step, it outlives the steps of a chain.
  pub chain-Outlives :
      {E : Type 0} (step : SocketLink S → E → Outcome (SocketLink S × Sent))
      → ((t t' : SocketLink S) (e : E) (out : Sent)
          → IsTimeless t
          → step t e ≡ ok (t', out)
          → Outlives t t')
      → (es : List E) (t t' : SocketLink S) (out : Sent) → IsTimeless t
      → chain step t es ≡ ok (t', out)
      → Outlives t t'
  unfolding chain
  chain-Outlives step each [] t t' out v h = stays_same t t' v (ground arith)
  chain-Outlives step each (e ∷ es) t t'' out v h =
      let ((t', sent), f, g) = >>=-eq-ok (step t e) _ h in
      let ((u, later), k, j) = >>=-eq-ok (chain step t' es) _ g in
      let same : u ≡ t'' = ground arith in
      let a = each t t' e sent v f in
      grown_on t t' t'' a
        (subst (Outlives t') same (chain-Outlives step each es t' u later a.timeless k))
