-- ===== src/Sip/Media/Streams.antt =====
-- Opening a data connection: `addDataPort` of svoiptunnel/sipcall.cpp and `onReceiveData` of
-- svoiptunnel/sipserver.cpp.
use svoiptunnel.Vpn.Endpoints.{endpoint_eq}
use mathlib.Core.Path.{subst}
use svoiptunnel.Base.{
  ℕ, ◌%◌, ◌^◌, ◌≡◌, refl, [], ◌∷◌, Bytes, get_elem?, Option, none, some, Option-cases, inl, inr,
  Outcome, ok, ◌>>=◌, >>=-eq-ok, if◌then◌else◌, arith, ◌==◌, ==_refl,
}
use svoiptunnel.Base.Dict.{bytes_eq, nat_eq, find-assign}
use svoiptunnel.Vpn.Link.{setup_data_conn}
use svoiptunnel.Vpn.Node.{Sent}
use svoiptunnel.Sip.Media
use svoiptunnel.Sip.Media.{
  World, Server, SipCall, DataConn, slot_at, with_conn, on_link, announce, add_data_port,
  ensure_slot, register_data_port, put_conn, link_vpn_port, connect_conn, call_for, put_call,
  on_media,
}

-- Where a stream to the slot of a call comes in: at the local port, for the data connection.
pub record IsOpen (s : Server) (c : SipCall) (idx port : ℕ) : Type 0 where
  pub ref : ℕ
  pub at : slot_at c.slots idx ≡ some ref
  pub arrives : (buf : Bytes) → Media.on_receive_data s port buf ≡ (ref, buf) ∷ []

received-register :
    (s : Server) (port ref : ℕ) (buf : Bytes)
    → Media.on_receive_data (register_data_port port ref s) port buf ≡ (ref, buf) ∷ []
unfolding Media.on_receive_data register_data_port
received-register s port ref buf =
    rw (Media.on_receive_data, find-assign port port ref s.data_ports, ==_refl port)

ok_left {ℓ κ} :
    {S : Type ℓ} {T : Type κ} {a c : S} {b d : T}
    → ◌≡◌ {A = Outcome (S × T)} (ok (a, b)) (ok (c, d))
    → a ≡ c
ok_left h = cc

announced :
    (c : SipCall) (idx ref port : ℕ) (s s' : Server) (sent : Sent) (buf : Bytes)
    → announce c idx ref port s ≡ ok (s', sent)
    → Media.on_receive_data s' port buf ≡ (ref, buf) ∷ []
unfolding announce
announced c idx ref port s s' sent buf h =
    let (r, e, done) =
      >>=-eq-ok (on_link c.link (λ l. setup_data_conn l c.call_id idx port) s)
        (λ r. ok (register_data_port port ref r.0, r.1)) h in
    subst (λ t. Media.on_receive_data t port buf ≡ (ref, buf) ∷ []) (ok_left done)
      (received-register r.0 port ref buf)

-- A shared pointer that has been used is one to a connection.
pub record IsUsed {ℓ} {A : Type ℓ} (s : Server) (slot : Option ℕ)
    (use_it : ℕ → DataConn → Outcome A) (t : A) : Type ℓ where
  pub ref : ℕ
  pub conn : DataConn
  pub filled : slot ≡ some ref
  pub made : get_elem? s.conns ref ≡ some conn
  pub went : use_it ref conn ≡ ok t

pub with_conn-IsUsed {ℓ} :
    {A : Type ℓ} (s : Server) (slot : Option ℕ) (use_it : ℕ → DataConn → Outcome A) (t : A)
    → with_conn s slot use_it ≡ ok t
    → IsUsed s slot use_it t
with_conn-IsUsed s none use_it t h = cc
with_conn-IsUsed s (some ref) use_it t h = elim (Option-cases (get_elem? s.conns ref)) [
  | inl gone ↦ absurd (ground arith)
  | inr (d, made) ↦ record {
    ref = ref;
    conn = d;
    filled = refl;
    made = made;
    went = rw (with_conn, made) at h;
  }
]

four {ℓ κ ι η} :
    {A : Type ℓ} {B : Type κ} {C : Type ι} {D : Type η} {a a' : A} {b b' : B} {c c' : C} {d d' : D}
    → ◌≡◌ {A = Outcome (A × B × C × D)} (ok (a, b, c, d)) (ok (a', b', c', d'))
    → (a ≡ a') × (b ≡ b') × (d ≡ d')
four h = (cc, cc, cc)

module _ (w : World) (s : Server) (c : SipCall) (addr : Bytes) (port idx : ℕ) where
  abbrev at_slot : ℕ
  at_slot = idx % 2 ^ 16

  abbrev ensured : Server × SipCall
  ensured = ensure_slot w s c at_slot

  abbrev opens : ℕ → DataConn → Outcome (Server × SipCall × Sent × ℕ)
  opens ref d =
      announce ensured.1 at_slot ref d.local_port
        (if port == 0 then ensured.0 else put_conn ref (connect_conn w addr port d) ensured.0)
      >>= λ r. ok (r.0, ensured.1, r.1, d.local_port)

  -- An end that has opened a data connection gives what comes in for its port, whatever it is, to the
  -- connection in the slot of the call.
  pub add_data_port-IsOpen :
      (s' : Server) (c' : SipCall) (sent : Sent) (local : ℕ)
      → add_data_port w s c addr port idx ≡ ok (s', c', sent, local)
      → IsOpen s' c' (idx % 2 ^ 16) local
  unfolding add_data_port
  add_data_port-IsOpen s' c' sent local h =
      let u = with_conn-IsUsed ensured.0 (slot_at ensured.1.slots at_slot) opens _ h in
      let (r, e, done) =
        >>=-eq-ok (announce ensured.1 at_slot u.ref u.conn.local_port _) _ u.went in
      let (p, q, l) = four done in
      record {
        ref = u.ref;
        at = subst (λ t. slot_at t.slots at_slot ≡ some u.ref) q u.filled;
        arrives = λ buf.
            subst (λ t. Media.on_receive_data s' t buf ≡ (u.ref, buf) ∷ []) l
              (subst (λ t. Media.on_receive_data t u.conn.local_port buf ≡ (u.ref, buf) ∷ []) p
                (announced ensured.1 at_slot u.ref u.conn.local_port _ r.0 r.1 buf e));
      }
