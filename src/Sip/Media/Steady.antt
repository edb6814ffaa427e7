-- ===== src/Sip/Media/Steady.antt =====
-- The calls on data connections of svoiptunnel/sipcall.cpp, and the endpoints and the table of calls of
-- svoiptunnel/sipserver.cpp.
use svoiptunnel.Vpn.Endpoints.{endpoint_eq}
use svoiptunnel.Vpn.Link.{Effect, Link, setup_data_conn}
use svoiptunnel.Base.Dict.{find}
use svoiptunnel.Vpn.Node.{Origin, at_client, self}
use svoiptunnel.Base.{
  ℕ, Bool, Bool-cases, Bytes, Ensures, Ensures->>=, List, Option, Outcome, any, false, get_elem?,
  inl, inr, leb, length, none, refl, some, true, ◌%◌, ◌==◌, ◌^◌, ◌∙◌, ◌≡◌, if◌then◌else◌,
  Ensures-elim,
}
use svoiptunnel.Sip.Media
use svoiptunnel.Sip.Media.{
  World, Server, SipCall, DataConn, add_data_port, announce, connect_conn, ensure_slot, new_conn,
  put_conn, register_data_port, slot_at, with_conn,
}

-- Neither the endpoints nor the table of calls change.
abbrev pub Steady : Server → Server → Type 0
Steady s t = (t.registry ≡ s.registry) × (t.calls ≡ s.calls)

pub Steady-trans : (s t u : Server) → Steady s t → Steady t u → Steady s u
Steady-trans s t u a b = (b.0 ∙ a.0, b.1 ∙ a.1)

pub on_link-Steady :
    (o : Origin) (call : Link → Outcome (Link × List Effect)) (s : Server)
    → Ensures (λ r. Steady s r.0) (Media.on_link o call s)
unfolding Media.on_link
on_link-Steady self call s =
    Ensures->>= (λ _. Unit) _ (call s.node.link) _ (any (call s.node.link)) (λ r u. (refl, refl))
on_link-Steady (at_client ep) call s =
    Ensures-elim (λ r. Steady s r.0) (find ep s.node.clients) _ _ tt
      (λ l there. Ensures->>= (λ _. Unit) _ (call l) _ (any (call l)) (λ r u. (refl, refl)))

pub with_conn-Ensures :
    {A : Type 0} (P : A → Type 0) (s : Server) (slot : Option ℕ) (use_it : ℕ → DataConn → Outcome A)
    → ((ref : ℕ) (d : DataConn) → Ensures P (use_it ref d))
    → Ensures P (with_conn s slot use_it)
with_conn-Ensures P s none use_it h = tt
with_conn-Ensures P s (some ref) use_it h =
    Ensures-elim P (get_elem? s.conns ref) _ _ tt (λ d there. h ref d)

module _ (w : World) where
  pub ensure_slot-Steady : (s : Server) (c : SipCall) (idx : ℕ) → Steady s (ensure_slot w s c idx).0
  unfolding ensure_slot new_conn
  ensure_slot-Steady s c idx = elim (Bool-cases (leb (length c.slots) idx)) [
    | inl new ↦ rw new (refl, refl)
    | inr old ↦ rw old (refl, refl)
  ]

  announce-Steady :
      (c : SipCall) (idx ref port : ℕ) (s : Server)
      → Ensures (λ r. Steady s r.0) (announce c idx ref port s)
  unfolding announce register_data_port
  announce-Steady c idx ref port s =
      Ensures->>= (λ r. Steady s r.0) _
        (Media.on_link c.link (λ l. setup_data_conn l c.call_id idx port) s) _
        (on_link-Steady c.link (λ l. setup_data_conn l c.call_id idx port) s) (λ r u. u)

  connected_or_same :
      (s : Server) (b : Bool) (ref : ℕ) (d : DataConn)
      → Steady s (if b then s else put_conn ref d s)
  connected_or_same s true ref d = (refl, refl)
  connected_or_same s false ref d = (refl, refl)

  pub add_data_port-Steady :
      (s : Server) (c : SipCall) (addr : Bytes) (port idx : ℕ)
      → Ensures (λ r. Steady s r.0) (add_data_port w s c addr port idx)
  unfolding add_data_port
  add_data_port-Steady s c addr port idx =
      let e = ensure_slot w s c (idx % 2 ^ 16) in
      with_conn-Ensures (λ r. Steady s r.0) e.0 (slot_at e.1.slots (idx % 2 ^ 16)) _
        (λ ref d.
          let t = if port == 0 then e.0 else put_conn ref (connect_conn w addr port d) e.0 in
          Ensures->>= (λ r. Steady t r.0) _ (announce e.1 (idx % 2 ^ 16) ref d.local_port t) _
            (announce-Steady e.1 (idx % 2 ^ 16) ref d.local_port t)
            (λ r u. Steady-trans s e.0 r.0 (ensure_slot-Steady s c (idx % 2 ^ 16)) (
              Steady-trans e.0 t r.0
                (connected_or_same e.0 (port == 0) ref (connect_conn w addr port d)) u)))
