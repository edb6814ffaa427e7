-- ===== src/Sip/Media/Gaps.antt =====
-- Null slots in the vector of data connections of svoiptunnel/sipcall.cpp.
use svoiptunnel.Base.{
  ℕ, zero, suc, ◌+◌, ◌-◌, ◌<◌, ◌≡◌, refl, ◌∙◌, ap, true, List, [], ◌∷◌, Bytes, length, set,
  get_elem?, replicate, get_elem?-append_length, Option, none, some, Outcome, ok, fails,
  null_pointer, arith, same_refl, leb, lt→leb_false,
}
use svoiptunnel.Base.Dict.{bytes_eq, find, find-assign}
use svoiptunnel.Vpn.Node.{Origin}
use svoiptunnel.Sip.Media.{
  World, Server, SipCall, DataConn, slot_at, grow, with_conn, new_conn, ensure_slot,
  register_data_port, put_conn, link_vpn_port, call_for, put_call, on_setup_data, erase_call,
}
use svoiptunnel.Sip.Media.Closing.{destroy_call-null_pointer}

-- Null slots before one that is filled.
gapped : ℕ → ℕ → List (Option ℕ)
gapped zero ref = some ref ∷ []
gapped (suc k) ref = none ∷ gapped k ref

set-gapped : (k ref : ℕ) → set (replicate (suc k) none) k (some ref) ≡ gapped k ref
unfolding gapped
set-gapped zero ref = refl
set-gapped (suc k) ref = ap (◌∷◌ none) (set-gapped k ref)

grow-gapped : (k ref : ℕ) → grow [] k ref ≡ gapped k ref
grow-gapped k ref = let e : k + 1 - 0 ≡ suc k = omega arith in rw e (set-gapped k ref)

at_gap : (k ref j : ℕ) → j < k → slot_at (gapped k ref) j ≡ none
unfolding gapped
at_gap zero ref j h = absurd (omega arith)
at_gap (suc k) ref zero h = refl
at_gap (suc k) ref (suc j) h = at_gap k ref j (omega arith)

at_end : (k ref : ℕ) → slot_at (gapped k ref) k ≡ some ref
unfolding gapped
at_end zero ref = refl
at_end (suc k) ref = at_end k ref

length-gapped : (k ref : ℕ) → length (gapped k ref) ≡ suc k
unfolding gapped
length-gapped zero ref = refl
length-gapped (suc k) ref = ap suc (length-gapped k ref)

-- `onSetupData` behind the block that makes the slot.
abbrev set_up_from : ℕ → ℕ → Server × SipCall → Outcome Server
set_up_from idx port (t, c) = with_conn t (slot_at c.slots idx) λ ref d.
    ok (register_data_port d.local_port ref (put_call c (put_conn ref (link_vpn_port port d) t)))

set_up_parts :
    (w : World) (s : Server) (link : Origin) (idx port : ℕ) (id : Bytes)
    → on_setup_data w s link idx port id
      ≡ set_up_from idx port (ensure_slot w s (call_for link id s) idx)
unfolding on_setup_data
set_up_parts w s link idx port id = refl

set_up_made :
    (t : Server) (c : SipCall) (idx port ref : ℕ) (d : DataConn)
    → slot_at c.slots idx ≡ some ref
    → get_elem? t.conns ref ≡ some d
    → set_up_from idx port (t, c)
      ≡ ok
          (register_data_port d.local_port ref (put_call c (put_conn ref (link_vpn_port port d) t)))
set_up_made t c idx port ref d at made = rw (at, with_conn, made)

set_up_null :
    (t : Server) (c : SipCall) (idx port : ℕ)
    → slot_at c.slots idx ≡ none
    → set_up_from idx port (t, c) ≡ fails null_pointer
set_up_null t c idx port at = rw at

module _ (w : World) (s : Server) (link : Origin) (id : Bytes) (k port : ℕ) where
  abbrev first : DataConn
  first = record {
    link = link;
    vpn_port = 0;
    local_port = w.bound_port (length s.conns);
    peer = none;
    is_open = true;
  }

  abbrev gapped_call : SipCall
  gapped_call = record { link = link; call_id = id; slots = gapped k (length s.conns) }

  abbrev after : Server
  after = register_data_port first.local_port (length s.conns) (
      put_call gapped_call
        (put_conn (length s.conns) (link_vpn_port port first) (new_conn w link s)))

  fresh_call :
      find id s.calls ≡ none → call_for link id s ≡ record { link = link; call_id = id; slots = [] }
  unfolding call_for
  fresh_call e = rw (call_for, e)

  first_slot :
      ensure_slot w s (record { link = link; call_id = id; slots = [] }) k
      ≡ (new_conn w link s, gapped_call)
  unfolding ensure_slot
  first_slot =
      let e : leb 0 k ≡ true = ground arith in
      rw (ensure_slot, e)
        (ap (λ x. (new_conn w link s, record { link = link; call_id = id; slots = x }))
          (grow-gapped k (length s.conns)))

  first_made : get_elem? (new_conn w link s).conns (length s.conns) ≡ some first
  unfolding new_conn
  first_made = get_elem?-append_length s.conns first

  set_up_first : find id s.calls ≡ none → on_setup_data w s link k port id ≡ ok after
  set_up_first e =
      set_up_parts w s link k port id
      ∙ ap (λ c. set_up_from k port (ensure_slot w s c k)) (fresh_call e)
      ∙ ap (set_up_from k port) first_slot
      ∙ set_up_made (new_conn w link s) gapped_call k port (length s.conns) first
          (at_end k (length s.conns)) first_made

  known_after : find id after.calls ≡ some gapped_call
  unfolding register_data_port
  known_after = find-assign id id gapped_call _ ∙ rw (same_refl id)

  old_slot : (c : SipCall) (t : Server) (j : ℕ) → j < length c.slots → ensure_slot w t c j ≡ (t, c)
  unfolding ensure_slot
  old_slot c t j h = rw (ensure_slot, lt→leb_false (length c.slots) j h)

  call_after : call_for link id after ≡ gapped_call
  unfolding call_for
  call_after = rw (call_for, known_after)

  again : (j p : ℕ) → j < k → on_setup_data w after link j p id ≡ fails null_pointer
  again j p low =
      set_up_parts w after link j p id
      ∙ ap (λ c. set_up_from j p (ensure_slot w after c j)) call_after
      ∙ ap (set_up_from j p)
          (old_slot gapped_call after j (omega (arith, length-gapped k (length s.conns))))
      ∙ set_up_null after gapped_call j p (at_gap k (length s.conns) j low)

  first_null : (i : ℕ) → k ≡ suc i → gapped k (length s.conns) ≡ none ∷ gapped i (length s.conns)
  unfolding gapped
  first_null i e = rw e

  erased : 0 < k → erase_call id gapped_call after ≡ fails null_pointer
  unfolding erase_call
  erased later =
      destroy_call-null_pointer _ gapped_call [] (gapped (k - 1) (length s.conns))
        (first_null (k - 1) (omega arith)) tt (omega arith)

  -- A set-up message for a call that is not known, with an index above 0, is taken; but the call then has
  -- null slots below the index: a set-up message for one of these dereferences a null pointer, and so
  -- does the end of the call.
  pub setup_gap :
      find id s.calls ≡ none
      → 0 < k
      → (j p : ℕ) → j < k
      → (s' : Server) × (c : SipCall) × (on_setup_data w s link k port id ≡ ok s')
        × (find id s'.calls ≡ some c)
        × (erase_call id c s' ≡ fails null_pointer)
        × (on_setup_data w s' link j p id ≡ fails null_pointer)
  setup_gap new later j p low =
      (after, gapped_call, set_up_first new, known_after, erased later, again j p low)
