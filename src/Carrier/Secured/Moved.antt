-- ===== src/Carrier/Secured/Moved.antt =====
-- What the steps that svoiptunnel/vpntlslink.cpp and vpndtlslink.cpp share do to the links: what a
-- transport may do, with the same effects but for what they send.
use svoiptunnel.Base.{
  [], ◌∷◌, ◌++◌, ℕ, >>=-eq-ok, Bool, Bool-cases, Bytes, List, Option-cases, Outcome, arith, ap, inl,
  inr, ltb, ok, refl, sym, ◌&&◌, ◌-◌, ◌>>=◌, ◌∙◌, ◌≡◌,
}
use mathlib.Core.Path.{subst}
use svoiptunnel.Base.Dict.{assign, find}
use svoiptunnel.Carrier.Guests.{Accepted, SocketLink}
use svoiptunnel.Carrier.Secured.{
  Secured, Wired, call_at, call_main, carry, chain, effects_of, guest_timer_step, out_by, put_guest,
  receive_at, receive_main, timer_step,
}
use svoiptunnel.Carrier.Secured.Heard.{send_effects-quiet}
use svoiptunnel.Carrier.Secured.Received.{receive-Hears}
use svoiptunnel.Carrier.Secured.Hearing.{Hears-Moves, Hears-guest}
use svoiptunnel.Carrier.Secured.Quiet.{
  MovesBehind, behind_on, effects_out, from_guest-by, one_origin, quiet_sent, same_rest,
}
use svoiptunnel.Carrier.Secured.Carried.{carry-quiet}
use svoiptunnel.Ssl.Session.{Engine, Session, receive, send_effects}
use svoiptunnel.Vpn.Endpoints.{endpoint_eq}
use svoiptunnel.Vpn.Link.{Endpoint}
use svoiptunnel.Vpn.Node.{Call, Node, Sent, at_client, expire, perform, self, sent_by}
use svoiptunnel.Vpn.Tunnel.{IsOwn, Moves, alone, from_guest, guest, own, single, stays}

module _ {E S : Type 0} (eng : Engine E) where
  -- A step that returns.
  abbrev pub done : SocketLink (Secured E S) → Wired → Outcome (SocketLink (Secured E S) × Wired)
  done t out = ok (t, out)

  pub call_main-Moves :
      (less : Endpoint → Endpoint → Bool) (t t' : SocketLink (Secured E S)) (c : Call) (out : Wired)
      → IsOwn c
      → call_main eng less t c ≡ ok (t', out)
      → MovesBehind less t.node t'.node out
  unfolding call_main
  call_main-Moves less t t' c out o h =
      let ((n, sent), e, f) = >>=-eq-ok (perform less t.node c) _ h in
      let ((u, sent_out), g, k) = >>=-eq-ok (carry eng sent t) _ f in
      let same_node : n ≡ t'.node = ground arith in
      let same_out : sent_out ≡ out = ground arith in
      (
        sent,
        single less t.node t'.node sent (own c o (e ∙ ap (λ x. ok (x, sent)) same_node)),
        carry-quiet eng sent t u sent_out g ∙ ap effects_out same_out,
      )

  pub receive_main-Moves :
      (less : Endpoint → Endpoint → Bool) (t t' : SocketLink (Secured E S)) (ep : Endpoint)
      (buf : Bytes) (out : Wired)
      → receive_main eng t ep buf ≡ ok (t', out)
      → MovesBehind less t.node t'.node out
  unfolding receive_main
  receive_main-Moves less t t' ep buf out h =
      let (s, e, f) = >>=-eq-ok t.socket.session _ h in
      let ((s', (l, sent)), g, k) = >>=-eq-ok (receive eng buf s t.node.link ep) _ f in
      let (es, heard, q) = receive-Hears eng buf s s' t.node.link l ep sent g in
      let same_node : record t.node { link = l } ≡ t'.node = ground arith in
      let same_out : out_by self sent ≡ out = ground arith in
      (
        sent_by self es,
        subst (λ n. Moves less t.node n (sent_by self es)) same_node
            (Hears-Moves less t.node ep t.node.link l es heard),
        same_rest (sent_by self es) (out_by self sent) out (one_origin self es sent q) same_out,
      )

  pub receive_at-Moves :
      (less : Endpoint → Endpoint → Bool) (t t' : SocketLink (Secured E S)) (i : ℕ)
      (a : Accepted (Secured E S)) (ep : Endpoint) (buf : Bytes) (out : Wired)
      → receive_at eng t i a ep buf ≡ ok (t', out)
      → MovesBehind less t.node t'.node out
  unfolding receive_at put_guest
  receive_at-Moves less t t' i a ep buf out h = elim (Option-cases (find a.peer t.node.clients)) [
    | inl none_there ↦ absurd (ground arith)
    | inr (l, at) ↦
        let finish : Session E → Outcome (SocketLink (Secured E S) × Wired) = λ s.
          receive eng buf s l ep >>= λ r.
          ok (put_guest t i a r.1.0 r.0 r.1.1, out_by (at_client a.peer) r.1.1) in
        let started : a.socket.session >>= finish ≡ done t' out = ground arith in
        let (s, e, f) = >>=-eq-ok a.socket.session finish started in
        let ((s', (l', sent)), g, k) = >>=-eq-ok (receive eng buf s l ep) _ f in
        let (es, heard, q) = receive-Hears eng buf s s' l l' ep sent g in
        let o = at_client a.peer in
        let same_node : record t.node { clients = assign a.peer l' t.node.clients } ≡ t'.node =
          ground arith in
        let same_out : out_by o sent ≡ out = ground arith in
        (
          sent_by o es,
          subst (λ n. Moves less t.node n (sent_by o es)) same_node
              (Hears-guest less a.peer ep t.node l l' es at heard),
          same_rest (sent_by o es) (out_by o sent) out (one_origin o es sent q) same_out,
        )
  ]

  pub call_at-Moves :
      (less : Endpoint → Endpoint → Bool) (t t' : SocketLink (Secured E S)) (i : ℕ)
      (a : Accepted (Secured E S)) (c : Call) (out : Wired)
      → IsOwn c
      → call_at eng less t i a c ≡ ok (t', out)
      → MovesBehind less t.node t'.node out
  unfolding call_at put_guest
  call_at-Moves less t t' i a c out own_call h = elim (Option-cases (find a.peer t.node.clients)) [
    | inl none_there ↦ absurd (ground arith)
    | inr (l, at) ↦
        let o = at_client a.peer in
        let finish : Node × Sent → Outcome (SocketLink (Secured E S) × Wired) = λ r.
          a.socket.session >>= λ s. ok (
            let (s', sent) = send_effects eng (effects_of r.1) s in
            (put_guest t i a r.0.link s' sent, out_by o sent)) in
        let started : perform less (alone l) c >>= finish ≡ done t' out = ground arith in
        let ((n, es), e, f) = >>=-eq-ok (perform less (alone l) c) finish started in
        let (s, g, k) = >>=-eq-ok a.socket.session _ f in
        let sent = (send_effects eng (effects_of es) s).1 in
        let same_node : record t.node { clients = assign a.peer n.link t.node.clients } ≡ t'.node =
          ground arith in
        let same_out : out_by o sent ≡ out = ground arith in
        (
          from_guest a.peer es,
          single less t.node t'.node (from_guest a.peer es)
              (guest a.peer l c n es own_call at e (sym same_node) refl),
          same_rest (from_guest a.peer es) (out_by o sent) out
              (ap quiet_sent (from_guest-by a.peer es)
                ∙ one_origin o (effects_of es) sent
                    (sym (send_effects-quiet eng (effects_of es) s)))
              same_out,
        )
  ]

  pub rests_behind :
      (less : Endpoint → Endpoint → Bool) (t t' : SocketLink (Secured E S)) (out : Wired)
      → done t [] ≡ done t' out
      → MovesBehind less t.node t'.node out
  rests_behind less t t' out h =
      let same_node : t.node ≡ t'.node = ground arith in
      let same_out : [] ≡ out = ground arith in ([], stays same_node refl, ap effects_out same_out)

  pub timer_step-Moves :
      (less : Endpoint → Endpoint → Bool) (t t' : SocketLink (Secured E S)) (aborted : Bool)
      (out : Wired)
      → timer_step eng less t aborted ≡ ok (t', out)
      → MovesBehind less t.node t'.node out
  unfolding timer_step
  timer_step-Moves less t t' aborted out e = elim (Bool-cases (ltb 0 t.waits)) [
    | inl due ↦
        call_main-Moves less (record t { waits = t.waits - 1 }) t' (expire aborted) out tt
          (ground arith)
    | inr none_due ↦ rests_behind less t t' out (ground arith)
  ]

  pub guest_timer_step-Moves :
      (less : Endpoint → Endpoint → Bool) (t t' : SocketLink (Secured E S)) (i : ℕ) (aborted : Bool)
      (a : Accepted (Secured E S)) (out : Wired)
      → guest_timer_step eng less t i aborted a ≡ ok (t', out)
      → MovesBehind less t.node t'.node out
  unfolding guest_timer_step
  guest_timer_step-Moves less t t' i aborted a out e =
      elim (Bool-cases (a.is_kept && ltb 0 a.waits)) [
        | inl due ↦
            call_at-Moves less t t' i (record a { waits = a.waits - 1 }) (expire aborted) out tt
              (ground arith)
        | inr none_due ↦ rests_behind less t t' out (ground arith)
      ]

  -- If each step is a sequence of moves, so are the steps of a chain.
  pub chain-Moves :
      {I : Type 0} (less : Endpoint → Endpoint → Bool)
      (step : SocketLink (Secured E S) → I → Outcome (SocketLink (Secured E S) × Wired))
      → ((t t' : SocketLink (Secured E S)) (i : I) (out : Wired)
          → step t i ≡ ok (t', out)
          → MovesBehind less t.node t'.node out)
      → (is : List I) (t t' : SocketLink (Secured E S)) (out : Wired)
      → chain step t is ≡ ok (t', out)
      → MovesBehind less t.node t'.node out
  unfolding chain
  chain-Moves less step each [] t t' out h = rests_behind less t t' out h
  chain-Moves less step each (i ∷ is) t t'' out h =
      let ((t', sent), f, g) = >>=-eq-ok (step t i) _ h in
      let ((u, later), k, j) = >>=-eq-ok (chain step t' is) _ g in
      let same_link : u ≡ t'' = ground arith in
      let same_out : sent ++ later ≡ out = ground arith in
      behind_on less t.node t'.node t''.node sent later out (each t t' i sent f)
        (chain-Moves less step each is t' t'' later (k ∙ ap (λ x. ok (x, later)) same_link))
        same_out
