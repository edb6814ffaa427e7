-- ===== src/Sip/Registry/Calls.antt =====
-- The calls on the registry: what each returns, and that each keeps it consistent.
use svoiptunnel.Base.{
  ℕ, ◌≤◌, ◌<◌, ◌≡◌, ◌≢◌, refl, Bool, true, arith, length, set, ap, Bytes, none, some, if◌then◌else◌,
  ◌==◌, ==_iff, same, same_iff, Option-cases, Bool-cases, inl, inr, sym, ◌∙◌, le→ltb_false,
}
use svoiptunnel.Base.Dict.{bytes_eq, find, erase, find-erase, IsKeyed-erase, length-erase}
use svoiptunnel.Sip.Registry.Slots.{
  slot-set, slot_within, slot-put_slot, first_free-IsFree, end-IsFree, taken-le, taken-clear,
  taken-replace,
}
use svoiptunnel.Sip.Registry.Consistent.{IsConsistent, add_endpoint-IsConsistent}
use svoiptunnel.Sip.Registry.{
  SipEndpoint, Registry, slot, first_free, get_id, id_of, add_endpoint, on_accept, request_client,
  touch, close_endpoint,
}

module _ (show : ℕ → Bytes) (r : Registry) (v : IsConsistent show r) where
  -- In a consistent registry, a datagram from any address is given to an endpoint whose id is the
  -- sender's `address:port` and whose channel is its slot. Every other slot is as it was, and the
  -- registry stays consistent.
  pub on_accept-finds :
      (addr : Bytes) (port now : ℕ)
      → let (r', ch) = on_accept show r addr port now in
        IsConsistent show r'
        × ((e : SipEndpoint) × (slot r'.clients ch ≡ some e)
            × (id_of show e ≡ get_id show addr port)
            × (e.ch ≡ ch))
        × ((j : ℕ) → j ≢ ch → slot r'.clients j ≡ slot r.clients j)
  unfolding on_accept
  on_accept-finds addr port now = elim (Option-cases (find (get_id show addr port) r.addr_map)) [
    | inl new ↦
        let ch = first_free r.clients in
        let free = first_free-IsFree r.clients in
        let e : SipEndpoint = record { ch = ch; addr = addr; port = port; last_active = now } in
        rw (new, on_accept)
          (
            add_endpoint-IsConsistent show r v ch addr port now free new,
            (
              e,
              unfold add_endpoint in ground (arith, slot-put_slot r.clients ch ch e free.0),
              refl,
              refl,
            ),
            λ j ne. unfold add_endpoint in ground (arith, slot-put_slot r.clients ch j e free.0),
          )
    | inr (ch, known) ↦
        let (e, s, q) = v.mapped (get_id show addr port) ch known in
        rw (known, on_accept) (v, (e, s, q, (v.listed ch e s).1), λ j ne. refl)
  ]

  -- The vector is never shorter than the map.
  map-le : length r.addr_map ≤ length r.clients
  map-le = omega (arith, v.counted, taken-le r.clients)

  -- In a consistent registry, a request to a new address that can be reached makes an endpoint in a
  -- new slot at the end of the vector, whether or not there are null slots. Nothing changes if the
  -- address cannot be reached.
  pub request_client-appends :
      (reachable : Bytes → ℕ → Bool) (addr : Bytes) (port now : ℕ)
      → find (get_id show addr port) r.addr_map ≡ none
      → request_client show reachable r addr port now ≡ (
          if reachable addr port
          then (add_endpoint show r (length r.clients) addr port now, some (length r.clients))
          else (r, none))
  unfolding request_client
  request_client-appends reachable addr port now new =
      rw (new, request_client, le→ltb_false (length r.clients) (length r.addr_map) map-le)

  pub request_client-IsConsistent :
      (reachable : Bytes → ℕ → Bool) (addr : Bytes) (port now : ℕ)
      → IsConsistent show (request_client show reachable r addr port now).0
  request_client-IsConsistent reachable addr port now =
      elim (Option-cases (find (get_id show addr port) r.addr_map)) [
        | inl new ↦
            rw (request_client-appends reachable addr port now new)
              (elim (Bool-cases (reachable addr port)) [
                | inl up ↦ rw up (
                    add_endpoint-IsConsistent show r v (length r.clients) addr port now
                      (end-IsFree r.clients) new)
                | inr down ↦ rw down v
              ])
        | inr (ch, known) ↦ unfold request_client in rw (known, request_client) v
      ]

  module _ (id : Bytes) (ch : ℕ) (known : find id r.addr_map ≡ some ch) (e : SipEndpoint)
      (here : slot r.clients ch ≡ some e) (names : id_of show e ≡ id) where
    within : ch < length r.clients
    within = slot_within r.clients ch here

    closed_mapped :
        (id' : Bytes) (j : ℕ)
        → find id' (erase id r.addr_map) ≡ some j
        → (e' : SipEndpoint) × (slot (set r.clients ch none) j ≡ some e') × (id_of show e' ≡ id')
    closed_mapped id' j h = elim (Bool-cases (same id id')) [
      | inl hit ↦ absurd (ground (arith, find-erase id id' r.addr_map))
      | inr miss ↦
          let (e', s, q) = v.mapped id' j (ground (arith, find-erase id id' r.addr_map)) in
          (e', ground (arith, slot-set r.clients ch j none within, same_iff id id'), q)
    ]

    closed_listed :
        (j : ℕ) (e' : SipEndpoint)
        → slot (set r.clients ch none) j ≡ some e'
        → (find (id_of show e') (erase id r.addr_map) ≡ some j) × (e'.ch ≡ j)
    closed_listed j e' h = elim (Bool-cases (ch == j)) [
      | inl hit ↦ absurd (ground (arith, slot-set r.clients ch j none within))
      | inr miss ↦
          let old = v.listed j e' (ground (arith, slot-set r.clients ch j none within)) in
          (
            ground (
              arith,
              find-erase id (id_of show e') r.addr_map,
              same_iff id (id_of show e'),
              old.0,
            ),
            old.1,
          )
    ]

    closed :
        IsConsistent show
          (record { addr_map = erase id r.addr_map; clients = set r.clients ch none })
    closed = record {
      mapped = closed_mapped;
      listed = closed_listed;
      keyed = IsKeyed-erase id r.addr_map v.keyed;
      counted = omega (
        arith,
        length-erase id r.addr_map v.keyed known,
        taken-clear r.clients ch here,
        v.counted,
      );
    }

  -- Closing any id, known or not, keeps a consistent registry consistent.
  pub close_endpoint-IsConsistent : (id : Bytes) → IsConsistent show (close_endpoint show r id)
  close_endpoint-IsConsistent id = elim (Option-cases (find id r.addr_map)) [
    | inl absent ↦ unfold close_endpoint in rw (absent, close_endpoint) v
    | inr (ch, known) ↦
        let (e, s, q) = v.mapped id ch known in
        unfold close_endpoint in rw (known, close_endpoint) (closed id ch known e s q)
  ]

  module _ (ch now : ℕ) (e : SipEndpoint) (here : slot r.clients ch ≡ some e) where
    abbrev fresh : SipEndpoint
    fresh = record e { last_active = now }

    one_endpoint :
        (j : ℕ) (e' : SipEndpoint) → (ch == j) ≡ true → slot r.clients j ≡ some e' → e ≡ e'
    one_endpoint j e' hit s = ground (arith, ap (slot r.clients) ((==_iff ch j).0 hit))

    touched_mapped :
        (id : Bytes) (j : ℕ)
        → find id r.addr_map ≡ some j
        → (e' : SipEndpoint) × (slot (set r.clients ch (some fresh)) j ≡ some e')
          × (id_of show e' ≡ id)
    touched_mapped id j h = elim (Bool-cases (ch == j)) [
      | inl hit ↦
          let (e', s, q) = v.mapped id j h in
          (
            fresh,
            ground (arith, slot-set r.clients ch j (some fresh) (slot_within r.clients ch here)),
            ap (λ (x : SipEndpoint). id_of show x) (one_endpoint j e' hit s) ∙ q,
          )
      | inr miss ↦
          let (e', s, q) = v.mapped id j h in
          (
            e',
            ground (arith, slot-set r.clients ch j (some fresh) (slot_within r.clients ch here)),
            q,
          )
    ]

    touched_listed :
        (j : ℕ) (e' : SipEndpoint)
        → slot (set r.clients ch (some fresh)) j ≡ some e'
        → (find (id_of show e') r.addr_map ≡ some j) × (e'.ch ≡ j)
    touched_listed j e' h = elim (Bool-cases (ch == j)) [
      | inl hit ↦
          let at : ch ≡ j = (==_iff ch j).0 hit in
          let q : fresh ≡ e' =
            ground (arith, slot-set r.clients ch j (some fresh) (slot_within r.clients ch here)) in
          let old = v.listed ch e here in rw (← q, ← at) old
      | inr miss ↦
          v.listed j e'
            (ground (arith, slot-set r.clients ch j (some fresh) (slot_within r.clients ch here)))
    ]

  -- Activity on any channel keeps a consistent registry consistent.
  pub touch-IsConsistent : (ch now : ℕ) → IsConsistent show (touch show r ch now)
  touch-IsConsistent ch now = elim (Option-cases (slot r.clients ch)) [
    | inl absent ↦ unfold touch in rw (absent, touch) v
    | inr (e, here) ↦
        unfold touch in
        rw (here, touch)
          (record {
            mapped = touched_mapped ch now e here;
            listed = touched_listed ch now e here;
            keyed = v.keyed;
            counted = v.counted ∙ sym (taken-replace r.clients ch (fresh ch now e here) here);
          })
  ]
