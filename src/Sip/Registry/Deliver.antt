-- ===== src/Sip/Registry/Deliver.antt =====
-- The end of `processOutgoing`: where a message goes.
use svoiptunnel.Base.{
  ℕ, ◌≡◌, ◌≢◌, ◌↔◌, refl, Bool, true, false, [], ◌∷◌, arith, length, Bytes, none, some,
  Option-cases, Bool-cases, inl, inr, ◌∙◌, ◌⊎◌, ok, fails, null_pointer,
}
use svoiptunnel.Base.Dict.{bytes_eq, find}
use svoiptunnel.Sip.Registry.Slots.{slot-set, slot_within, slot-put_slot}
use svoiptunnel.Sip.Registry.Calls.{
  request_client-appends, request_client-IsConsistent, touch-IsConsistent,
}
use svoiptunnel.Sip.Registry.Consistent.{IsConsistent}
use svoiptunnel.Sip.Registry.{
  SipEndpoint, Registry, slot, get_id, id_of, add_endpoint, request_client, touch, send_to, deliver,
}

module _ (show : ℕ → Bytes) (reachable : Bytes → ℕ → Bool) (r : Registry)
    (v : IsConsistent show r) where
  -- The endpoint that a request is sent through.
  pub record IsClient (addr : Bytes) (port now : ℕ) : Type 0 where
    pub at : ℕ
    pub endpoint : SipEndpoint
    pub chosen : (request_client show reachable r addr port now).1 ≡ some at
    pub filled : slot (request_client show reachable r addr port now).0.clients at ≡ some endpoint
    pub named : id_of show endpoint ≡ get_id show addr port

  known_client :
      (addr : Bytes) (port now ch : ℕ)
      → find (get_id show addr port) r.addr_map ≡ some ch
      → IsClient addr port now
  unfolding request_client
  known_client addr port now ch known =
      let (e, s, q) = v.mapped (get_id show addr port) ch known in
      record {
        at = ch;
        endpoint = e;
        chosen = rw (known, request_client);
        filled = rw (known, request_client) s;
        named = q;
      }

  new_client :
      (addr : Bytes) (port now : ℕ)
      → find (get_id show addr port) r.addr_map ≡ none
      → reachable addr port ≡ true
      → IsClient addr port now
  new_client addr port now new up =
      let e : SipEndpoint = record {
        ch = length r.clients;
        addr = addr;
        port = port;
        last_active = now;
      } in
      record {
        at = length r.clients;
        endpoint = e;
        chosen = rw (request_client-appends show r v reachable addr port now new, up);
        filled =
            rw (request_client-appends show r v reachable addr port now new, up)
              (unfold add_endpoint in
                ground (
                  arith,
                  slot-put_slot r.clients (length r.clients) (length r.clients) e (omega arith),
                ));
        named = refl;
      }

  send_to-client :
      (addr : Bytes) (port now : ℕ) (text : Bytes) (c : IsClient addr port now)
      → send_to show
          (request_client show reachable r addr port now).0
          (request_client show reachable r addr port now).1
          text
          now
        ≡ ok (
          touch show (request_client show reachable r addr port now).0 c.at now,
          (c.at, text) ∷ [],
        )
  unfolding send_to
  send_to-client addr port now text c = rw (c.chosen, c.filled, send_to)

  deliver_request :
      (ch : ℕ) (addr : Bytes) (port now : ℕ) (text : Bytes)
      → deliver show reachable r true ch addr port text now
        ≡ send_to show
            (request_client show reachable r addr port now).0
            (request_client show reachable r addr port now).1
            text
            now
  unfolding deliver
  deliver_request ch addr port now text = refl

  client :
      (addr : Bytes) (port now : ℕ)
      → (find (get_id show addr port) r.addr_map ≢ none) ⊎ (reachable addr port ≡ true)
      → IsClient addr port now
  client addr port now h = elim (Option-cases (find (get_id show addr port) r.addr_map)) [
    | inl new ↦
        new_client addr port now new (elim h [ inl known ↦ absurd (known new) | inr up ↦ up ])
    | inr (ch, known) ↦ known_client addr port now ch known
  ]

  slot-touch :
      (r' : Registry) (ch now : ℕ) (e : SipEndpoint)
      → slot r'.clients ch ≡ some e
      → slot (touch show r' ch now).clients ch ≡ some (record e { last_active = now })
  unfolding touch
  slot-touch r' ch now e s =
      rw (s, touch)
        (ground (
          arith,
          slot-set r'.clients ch ch (some (record e { last_active = now }))
              (slot_within r'.clients ch s),
        ))

  -- In a consistent registry, a request to an address that is known or can be reached goes out once,
  -- whole, through an endpoint with the id of that address and port; the registry stays consistent.
  pub deliver-sends :
      (ch : ℕ) (addr : Bytes) (port now : ℕ) (text : Bytes)
      → (find (get_id show addr port) r.addr_map ≢ none) ⊎ (reachable addr port ≡ true)
      → (r' : Registry) × (ch' : ℕ) × (deliver show reachable r true ch addr port text now
          ≡ ok (r', (ch', text) ∷ []))
        × ((e : SipEndpoint) × (slot r'.clients ch' ≡ some e)
            × (id_of show e ≡ get_id show addr port))
        × IsConsistent show r'
  deliver-sends ch addr port now text h =
      let c = client addr port now h in
      let r₁ = (request_client show reachable r addr port now).0 in
      (
        touch show r₁ c.at now,
        c.at,
        deliver_request ch addr port now text ∙ send_to-client addr port now text c,
        (
          record c.endpoint { last_active = now },
          slot-touch r₁ c.at now c.endpoint c.filled,
          c.named,
        ),
        touch-IsConsistent show r₁ (request_client-IsConsistent show r v reachable addr port now)
            c.at now,
      )

  sent :
      (ch : ℕ) (addr : Bytes) (port now : ℕ) (text : Bytes)
      → (find (get_id show addr port) r.addr_map ≢ none) ⊎ (reachable addr port ≡ true)
      → deliver show reachable r true ch addr port text now ≢ fails null_pointer
  sent ch addr port now text h e =
      let (r', ch', q, _, _) = deliver-sends ch addr port now text h in ground arith

  response_safe :
      (ch : ℕ) (addr : Bytes) (port now : ℕ) (text : Bytes)
      → (deliver show reachable r false ch addr port text now ≡ fails null_pointer) ↔ (
          (false ≡ true)
          × (find (get_id show addr port) r.addr_map ≡ none)
          × (reachable addr port ≡ false))
  unfolding deliver
  response_safe ch addr port now text = ground arith

  -- In a consistent registry, the end of `processOutgoing` dereferences a null pointer exactly when a
  -- request goes to an address that is not known yet and cannot be reached.
  pub deliver-null_pointer_iff :
      (request : Bool) (ch : ℕ) (addr : Bytes) (port now : ℕ) (text : Bytes)
      → (deliver show reachable r request ch addr port text now ≡ fails null_pointer) ↔ (
          (request ≡ true)
          × (find (get_id show addr port) r.addr_map ≡ none)
          × (reachable addr port ≡ false))
  deliver-null_pointer_iff true ch addr port now text =
      elim (Option-cases (find (get_id show addr port) r.addr_map)) [
        | inl new ↦ elim (Bool-cases (reachable addr port)) [
          | inl up ↦ ground (arith, sent ch addr port now text (inr up))
          | inr down ↦ (
            (λ _. (refl, new, down)),
            λ _.
                deliver_request ch addr port now text
                ∙ rw (request_client-appends show r v reachable addr port now new, down)
                    (unfold send_to in refl),
          )
        ]
        | inr (j, known) ↦ ground (arith, sent ch addr port now text (inl (λ e. ground arith)))
      ]
  deliver-null_pointer_iff false ch addr port now text = response_safe ch addr port now text
