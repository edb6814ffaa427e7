-- ===== src/Carrier/Guests/Moved.antt =====
-- Calls of accepted links are moves of the links.
use svoiptunnel.Carrier.Guests.{
  Accepted, IsPublic, SocketLink, call_at, call_guest, call_main, chain, guest_timer_step, joined,
  timer_step,
}
use svoiptunnel.Vpn.Tunnel.{
  IsOwn, Moves, Moves-append, alone, from_guest, guest, single, own, stays,
}
use svoiptunnel.Vpn.Node.{
  Call, Node, Sent, accept, attach, do_connect, do_disconnect, do_ping, data_out, expire, link_down,
  link_ready, perform, receive, setup, signal_out,
}
use svoiptunnel.Vpn.Link.{Endpoint}
use svoiptunnel.Vpn.Endpoints.{endpoint_eq}
use svoiptunnel.Base.Dict.{assign, find}
use mathlib.Core.Path.{subst}
use svoiptunnel.Base.{
  [], ◌∷◌, ◌++◌, ap, ℕ, Bool-cases, List, fails, ltb, ◌&&◌, ◌-◌, ◌∙◌, >>=-eq-ok, Bool, Option-cases,
  Outcome, arith, inl, inr, ok, ◌>>=◌, ◌≡◌,
}

pub public-IsOwn : (c : Call) → IsPublic c → IsOwn c
public-IsOwn (accept ep l) h = absurd h
public-IsOwn (attach b) h = tt
public-IsOwn do_connect h = tt
public-IsOwn do_ping h = tt
public-IsOwn do_disconnect h = tt
public-IsOwn link_ready h = tt
public-IsOwn link_down h = tt
public-IsOwn (receive ep buf) h = tt
public-IsOwn (expire aborted) h = tt
public-IsOwn (setup callid idx port) h = tt
public-IsOwn (data_out port buf) h = tt
public-IsOwn (signal_out ch buf vpn_id) h = tt

pub call_guest-Moves :
    (less : Endpoint → Endpoint → Bool) (n n' : Node) (ep : Endpoint) (c : Call) (out : Sent)
    → IsOwn c
    → call_guest less n ep c ≡ ok (n', out)
    → Moves less n n' out
unfolding call_guest
call_guest-Moves less n n' ep c out o h = elim (Option-cases (find ep n.clients)) [
  | inl e ↦ absurd (ground arith)
  | inr (l, e) ↦
      let finish : Node × Sent → Outcome (Node × Sent) =
        λ r. ok (record n { clients = assign ep r.0.link n.clients }, from_guest ep r.1) in
      let chain : perform less (alone l) c >>= finish ≡ ok (n', out) = ground arith in
      let ((m, es), f, g) = >>=-eq-ok (perform less (alone l) c) finish chain in
      single less n n' out (guest ep l c m es o e f (ground arith) (ground arith))
]

module _ {S : Type 0} (less : Endpoint → Endpoint → Bool) where
  pub call_main-Moves :
      (t t' : SocketLink S) (c : Call) (out : Sent)
      → IsOwn c
      → call_main less t c ≡ ok (t', out)
      → Moves less t.node t'.node out
  unfolding call_main
  call_main-Moves t t' c out o h =
      let ((n, sent), e, f) = >>=-eq-ok (perform less t.node c) _ h in
      let same_node : n ≡ t'.node = ground arith in
      let same_out : sent ≡ out = ground arith in
      single less t.node t'.node out (own c o (e ∙ ground (arith, same_node, same_out)))

  pub joined-node :
      (t t' : SocketLink S) (s : S) (ep : Endpoint) (kept : Bool) (done : Outcome (Node × Sent))
      (out : Sent)
      → joined t s ep kept done ≡ ok (t', out)
      → done ≡ ok (t'.node, out)
  unfolding joined
  joined-node t t' s ep kept (ok (n, sent)) out h = ground arith
  joined-node t t' s ep kept (fails why) out h = cc

  pub call_at-Moves :
      (t t' : SocketLink S) (i : ℕ) (a : Accepted S) (c : Call) (out : Sent)
      → IsOwn c
      → call_at less t i a c ≡ ok (t', out)
      → Moves less t.node t'.node out
  unfolding call_at
  call_at-Moves t t' i a c out o h =
      let ((n, sent), e, f) = >>=-eq-ok (call_guest less t.node a.peer c) _ h in
      let same_node : n ≡ t'.node = ground arith in
      let same_out : sent ≡ out = ground arith in
      call_guest-Moves less t.node t'.node a.peer c out o (e ∙ ground (arith, same_node, same_out))

  pub timer_step-Moves :
      (t t' : SocketLink S) (aborted : Bool) (out : Sent)
      → timer_step less t aborted ≡ ok (t', out)
      → Moves less t.node t'.node out
  unfolding timer_step
  timer_step-Moves t t' aborted out e = elim (Bool-cases (ltb 0 t.waits)) [
    | inl due ↦
        call_main-Moves (record t { waits = t.waits - 1 }) t' (expire aborted) out tt (ground arith)
    | inr none_due ↦ stays (ground arith) (ground arith)
  ]

  pub guest_timer_step-Moves :
      (t t' : SocketLink S) (i : ℕ) (aborted : Bool) (a : Accepted S) (out : Sent)
      → guest_timer_step less t i aborted a ≡ ok (t', out)
      → Moves less t.node t'.node out
  unfolding guest_timer_step
  guest_timer_step-Moves t t' i aborted a out e = elim (Bool-cases (a.is_kept && ltb 0 a.waits)) [
    | inl due ↦
        call_at-Moves t t' i (record a { waits = a.waits - 1 }) (expire aborted) out tt
          (ground arith)
    | inr none_due ↦ stays (ground arith) (ground arith)
  ]

  -- If each step is a sequence of moves, so are the steps of a chain.
  pub chain-Moves :
      {E : Type 0} (step : SocketLink S → E → Outcome (SocketLink S × Sent))
      → ((t t' : SocketLink S) (e : E) (out : Sent)
          → step t e ≡ ok (t', out)
          → Moves less t.node t'.node out)
      → (es : List E) (t t' : SocketLink S) (out : Sent) → chain step t es ≡ ok (t', out)
      → Moves less t.node t'.node out
  unfolding chain
  chain-Moves step each [] t t' out h = stays (ground arith) (ground arith)
  chain-Moves step each (e ∷ es) t t'' out h =
      let ((t', sent), f, g) = >>=-eq-ok (step t e) _ h in
      let ((u, later), k, j) = >>=-eq-ok (chain step t' es) _ g in
      let same_link : u ≡ t'' = ground arith in
      let same_out : sent ++ later ≡ out = ground arith in
      subst (λ o. Moves less t.node t''.node o) same_out
        (Moves-append less t.node t'.node t''.node sent later (each t t' e sent f)
          (chain-Moves step each es t' t'' later (k ∙ ap (λ x. ok (x, later)) same_link)))
