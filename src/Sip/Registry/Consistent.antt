-- ===== src/Sip/Registry/Consistent.antt =====
-- The map and the vector agree, after every call.
use svoiptunnel.Base.{
  ℕ, suc, ◌≡◌, refl, arith, length, ap, Bytes, none, some, ◌==◌, ==_iff, same, same_iff, Bool-cases,
  inl, inr, sym, ◌∙◌, same_refl,
}
use svoiptunnel.Base.Dict.{
  bytes_eq, find, insert, IsKeyed, find-insert, IsKeyed-insert, length-insert,
}
use svoiptunnel.Sip.Registry.Slots.{slot-put_slot, IsFree, taken, taken-put_slot}
use svoiptunnel.Sip.Registry.{
  SipEndpoint, Registry, empty_registry, slot, put_slot, get_id, id_of, add_endpoint,
}

module _ (show : ℕ → Bytes) where
  pub record IsConsistent (r : Registry) : Type 0 where
    -- an id in the map leads to the slot of the endpoint with that id
    pub mapped :
        (id : Bytes) (ch : ℕ)
        → find id r.addr_map ≡ some ch
        → (e : SipEndpoint) × (slot r.clients ch ≡ some e) × (id_of show e ≡ id)
    -- an endpoint in a slot knows its channel and is found by its id
    pub listed :
        (ch : ℕ) (e : SipEndpoint)
        → slot r.clients ch ≡ some e
        → (find (id_of show e) r.addr_map ≡ some ch) × (e.ch ≡ ch)
    pub keyed : IsKeyed r.addr_map
    pub counted : length r.addr_map ≡ taken r.clients

  pub empty-IsConsistent : IsConsistent empty_registry
  unfolding find
  empty-IsConsistent = record {
    mapped = λ id ch h. absurd (ground arith);
    listed = λ ch e h. absurd (ground arith);
    keyed = tt;
    counted = refl;
  }

  module _ (r : Registry) (v : IsConsistent r) (ch : ℕ) (addr : Bytes) (port now : ℕ)
      (free : IsFree r.clients ch) (new : find (get_id show addr port) r.addr_map ≡ none) where
    abbrev added : SipEndpoint
    added = record { ch = ch; addr = addr; port = port; last_active = now }

    added_mapped :
        (id : Bytes) (j : ℕ)
        → find id (insert (get_id show addr port) ch r.addr_map) ≡ some j
        → (e : SipEndpoint) × (slot (put_slot ch added r.clients) j ≡ some e) × (id_of show e ≡ id)
    added_mapped id j h = elim (Bool-cases (same (get_id show addr port) id)) [
      | inl hit ↦
          let at : ch ≡ j =
            ground (arith, find-insert (get_id show addr port) id ch r.addr_map new) in
          (
            added,
            ground (arith, slot-put_slot r.clients ch j added free.0),
            (same_iff (get_id show addr port) id).0 hit,
          )
      | inr miss ↦
          let (e, s, q) =
            v.mapped id j
              (ground (arith, find-insert (get_id show addr port) id ch r.addr_map new)) in
          (e, ground (arith, slot-put_slot r.clients ch j added free.0, free.1), q)
    ]

    added_listed :
        (j : ℕ) (e : SipEndpoint)
        → slot (put_slot ch added r.clients) j ≡ some e
        → (find (id_of show e) (insert (get_id show addr port) ch r.addr_map) ≡ some j) × (e.ch ≡ j)
    added_listed j e h = elim (Bool-cases (ch == j)) [
      | inl hit ↦
          let at : ch ≡ j = (==_iff ch j).0 hit in
          let q : added ≡ e = ground (arith, slot-put_slot r.clients ch j added free.0) in
          rw (← q) (
            rw
                (
                  find-insert (get_id show addr port) (get_id show addr port) ch r.addr_map new,
                  same_refl (get_id show addr port),
                )
                (ap some at),
            at,
          )
      | inr miss ↦
          let old = v.listed j e (ground (arith, slot-put_slot r.clients ch j added free.0)) in
          (
            ground (
              arith,
              find-insert (get_id show addr port) (id_of show e) ch r.addr_map new,
              same_iff (get_id show addr port) (id_of show e),
              old.0,
            ),
            old.1,
          )
    ]

    pub add_endpoint-IsConsistent : IsConsistent (add_endpoint show r ch addr port now)
    unfolding add_endpoint
    add_endpoint-IsConsistent = record {
      mapped = added_mapped;
      listed = added_listed;
      keyed = IsKeyed-insert (get_id show addr port) ch r.addr_map new v.keyed;
      counted =
          length-insert (get_id show addr port) ch r.addr_map new
          ∙ ap suc v.counted
          ∙ sym (taken-put_slot r.clients ch added free);
    }
