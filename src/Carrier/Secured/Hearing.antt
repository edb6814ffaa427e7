-- ===== src/Carrier/Secured/Hearing.antt =====
-- What a link of svoiptunnel/vpntlslink.cpp or vpndtlslink.cpp hears is a sequence of moves, whether it is
-- the link itself, an accepted link in the map, or one that has been turned away.
use svoiptunnel.Base.{
  [], ◌∷◌, ◌++◌, All, Bool, Bytes, List, ap, arith, ok, refl, some, sym, ◌∙◌, ◌≡◌,
}
use mathlib.Core.Path.{subst}
use svoiptunnel.Base.Dict.{assign, assign-assign, assign_same, find, find-assign}
use svoiptunnel.Carrier.Secured.Heard.{Hears, reads, readies, rests}
use svoiptunnel.Vpn.Endpoints.{endpoint_eq}
use svoiptunnel.Vpn.Link.{Effect, Endpoint, Link, on_link_ready, on_receive}
use svoiptunnel.Vpn.Node.{
  Call, Node, Origin, at_client, link_ready, perform, receive, run, self, sent_by,
}
use svoiptunnel.Vpn.Tunnel.{
  IsOwn, Moves, Moves-append, alone, from_guest, guest, own, single, stays,
}

pub sent_by-append :
    (o : Origin) (a b : List Effect) → sent_by o (a ++ b) ≡ sent_by o a ++ sent_by o b
sent_by-append o [] b = refl
sent_by-append o (e ∷ a) b = ap (λ x. (o, e) ∷ x) (sent_by-append o a b)

pub from_guest-self :
    (ep : Endpoint) (es : List Effect) → from_guest ep (sent_by self es) ≡ sent_by (at_client ep) es
from_guest-self ep [] = refl
from_guest-self ep (e ∷ es) = ap (λ x. (at_client ep, e) ∷ x) (from_guest-self ep es)

module _ (less : Endpoint → Endpoint → Bool) where
  one_on :
      (o : Origin) (n n' n'' : Node) (first later es : List Effect)
      → Moves less n n' (sent_by o first)
      → Moves less n' n'' (sent_by o later)
      → es ≡ first ++ later
      → Moves less n n'' (sent_by o es)
  one_on o n n' n'' first later es a b e =
      subst (Moves less n n'') (sym (ap (sent_by o) e ∙ sent_by-append o first later))
        (Moves-append less n n' n'' (sent_by o first) (sent_by o later) a b)

  gets_ready :
      (n : Node)
      → perform less n link_ready
        ≡ ok (record n { link = (on_link_ready n.link).0 }, sent_by self (on_link_ready n.link).1)
  unfolding perform
  gets_ready n = refl

  hears_bytes :
      (n : Node) (ep : Endpoint) (buf : Bytes) (l : Link) (es : List Effect)
      → on_receive n.link ep buf ≡ ok (l, es)
      → perform less n (receive ep buf) ≡ ok (record n { link = l }, sent_by self es)
  unfolding perform
  hears_bytes n ep buf l es h = rw h refl

  -- The link itself.
  pub Hears-Moves :
      (n : Node) (ep : Endpoint) (l l' : Link) (es : List Effect)
      → Hears ep l l' es
      → Moves less (record n { link = l }) (record n { link = l' }) (sent_by self es)
  Hears-Moves n ep l l' es (rests e f) =
      stays (ap (λ x. record n { link = x }) e) (ap (sent_by self) f)
  Hears-Moves n ep l l' es (readies later more e) =
      let here : Node = record n { link = l } in
      let (l₁, first) = on_link_ready l in
      let there : Node = record n { link = l₁ } in
      one_on self here there (record n { link = l' }) first later es
        (single less here there (sent_by self first) (own link_ready tt (gets_ready here)))
        (Hears-Moves n ep l₁ l' later more) e
  Hears-Moves n ep l l'' es (reads buf l' first later got more e) =
      let here : Node = record n { link = l } in
      let there : Node = record n { link = l' } in
      one_on self here there (record n { link = l'' }) first later es
        (single less here there (sent_by self first)
          (own (receive ep buf) tt (hears_bytes here ep buf l' first got)))
        (Hears-Moves n ep l' l'' later more) e

  -- An accepted link in the map calls a method.
  guest_calls :
      (n : Node) (ep : Endpoint) (c : Call) (l l' : Link) (es : List Effect)
      → IsOwn c
      → find ep n.clients ≡ some l
      → perform less (alone l) c ≡ ok (alone l', sent_by self es)
      → Moves less n (record n { clients = assign ep l' n.clients }) (sent_by (at_client ep) es)
  guest_calls n ep c l l' es o at h =
      single less n (record n { clients = assign ep l' n.clients }) (sent_by (at_client ep) es)
        (guest ep l c (alone l') (sent_by self es) o at h refl (sym (from_guest-self ep es)))

  -- A move of an accepted link, then others.
  guest_on :
      (n : Node) (ep : Endpoint) (l' l'' : Link) (first later es : List Effect)
      → Moves less n (record n { clients = assign ep l' n.clients }) (sent_by (at_client ep) first)
      → Moves less
          (record n { clients = assign ep l' n.clients })
          (record n { clients = assign ep l'' (assign ep l' n.clients) })
          (sent_by (at_client ep) later)
      → es ≡ first ++ later
      → Moves less n (record n { clients = assign ep l'' n.clients }) (sent_by (at_client ep) es)
  guest_on n ep l' l'' first later es a b e =
      let there : Node = record n { clients = assign ep l' n.clients } in
      let end : Node = record n { clients = assign ep l'' n.clients } in
      one_on (at_client ep) n there end first later es a
        (subst (λ m. Moves less there (record n { clients = m }) (sent_by (at_client ep) later))
          (assign-assign ep l'' l' n.clients) b)
        e

  pub Hears-guest :
      (ep from : Endpoint) (n : Node) (l l' : Link) (es : List Effect)
      → find ep n.clients ≡ some l
      → Hears from l l' es
      → Moves less n (record n { clients = assign ep l' n.clients }) (sent_by (at_client ep) es)
  Hears-guest ep from n l l' es at (rests e f) =
      stays
        (ap (λ m. record n { clients = m })
          (sym (assign_same ep l n.clients at) ∙ ap (λ x. assign ep x n.clients) e))
        (ap (sent_by (at_client ep)) f)
  Hears-guest ep from n l l' es at (readies later more e) =
      let (l₁, first) = on_link_ready l in
      guest_on n ep l₁ l' first later es
        (guest_calls n ep link_ready l l₁ first tt at (gets_ready (alone l)))
        (Hears-guest ep from (record n { clients = assign ep l₁ n.clients }) l₁ l' later
          (ground (arith, find-assign ep ep l₁ n.clients, endpoint_eq.beq_iff ep ep)) more)
        e
  Hears-guest ep from n l l'' es at (reads buf l' first later got more e) =
      guest_on n ep l' l'' first later es
        (guest_calls n ep (receive from buf) l l' first tt at
          (hears_bytes (alone l) from buf l' first got))
        (Hears-guest ep from (record n { clients = assign ep l' n.clients }) l' l'' later
          (ground (arith, find-assign ep ep l' n.clients, endpoint_eq.beq_iff ep ep)) more)
        e

  -- The calls of a link that nothing keeps, one more at the front.
  calls_on :
      (c : Call) (cs : List Call) (l l' l'' : Link) (first later es : List Effect)
      → perform less (alone l) c ≡ ok (alone l', sent_by self first)
      → run less (alone l') cs ≡ ok (alone l'', sent_by self later)
      → es ≡ first ++ later
      → run less (alone l) (c ∷ cs) ≡ ok (alone l'', sent_by self es)
  unfolding run
  calls_on c cs l l' l'' first later es h k e =
      rw (h, k)
        (ap (λ x. ok (alone l'', x)) (sym (ap (sent_by self) e ∙ sent_by-append self first later)))

  pub Hears-run :
      (ep : Endpoint) (l l' : Link) (es : List Effect)
      → Hears ep l l' es
      → (cs : List Call) × All IsOwn cs × (run less (alone l) cs ≡ ok (alone l', sent_by self es))
  unfolding run
  Hears-run ep l l' es (rests e f) = ([], tt, rw (e, f) refl)
  Hears-run ep l l' es (readies later more e) =
      let (l₁, first) = on_link_ready l in
      let (cs, own_calls, h) = Hears-run ep l₁ l' later more in
      (
        link_ready ∷ cs,
        (tt, own_calls),
        calls_on link_ready cs l l₁ l' first later es (gets_ready (alone l)) h e,
      )
  Hears-run ep l l'' es (reads buf l' first later got more e) =
      let (cs, own_calls, h) = Hears-run ep l' l'' later more in
      (
        receive ep buf ∷ cs,
        (tt, own_calls),
        calls_on (receive ep buf) cs l l' l'' first later es
            (hears_bytes (alone l) ep buf l' first got) h e,
      )
