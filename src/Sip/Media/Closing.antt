-- ===== src/Sip/Media/Closing.antt =====
-- The end of a call: what the destructor of `sipcall` does to the data connections and their ports.
use svoiptunnel.Base.{
  ℕ, zero, suc, ◌+◌, ◌%◌, ◌^◌, ◌<◌, ◌≤◌, ◌≡◌, refl, ◌∙◌, ap, Bool, true, false, List, [], ◌∷◌, ◌++◌,
  length, set, All, Option, none, some, Outcome, ok, fails, if◌then◌else◌, arith, ltb, leb,
  null_pointer, replicate, length-append, ◌==◌, ◌||◌, sym,
}
use svoiptunnel.Base.Dict.{nat_eq, find, find-erase}
use svoiptunnel.Sip.Media.{
  Server, SipCall, DataConn, slot_at, with_conn, put_conn, unregister_data_port, del_data_port,
  del_data_ports, destroy_call,
}
use svoiptunnel.Sip.Media.Live.{IsLive, has_port, owns, closed, owns-closed, All-closed}

-- The vector after some rounds: null slots, then the rest.
abbrev cleared : ℕ → List (Option ℕ) → List (Option ℕ)
cleared idx slots = replicate idx none ++ slots

length-cleared :
    (idx : ℕ) (slots : List (Option ℕ)) → length (cleared idx slots) ≡ idx + length slots
length-cleared zero slots = omega arith
length-cleared (suc idx) slots = omega (arith, length-cleared idx slots)

slot_at-cleared :
    (idx : ℕ) (slot : Option ℕ) (slots : List (Option ℕ))
    → slot_at (cleared idx (slot ∷ slots)) idx ≡ slot
slot_at-cleared zero none slots = refl
slot_at-cleared zero (some ref) slots = refl
slot_at-cleared (suc idx) slot slots = slot_at-cleared idx slot slots

set-cleared :
    (idx : ℕ) (slot : Option ℕ) (slots : List (Option ℕ))
    → set (cleared idx (slot ∷ slots)) idx none ≡ cleared (suc idx) slots
set-cleared zero slot slots = refl
set-cleared (suc idx) slot slots = ap (◌∷◌ none) (set-cleared idx slot slots)

abbrev with_slots : SipCall → List (Option ℕ) → SipCall
with_slots c slots = record c { slots = slots }

-- What a round does to the server.
abbrev closes_one : Server → ℕ → DataConn → Server
closes_one s ref d =
    put_conn ref (record d { is_open = false }) (unregister_data_port d.local_port s)

module _ (s : Server) (c : SipCall) (idx : ℕ) (slot : Option ℕ) (slots : List (Option ℕ)) where
  del_live :
      (v : IsLive s.conns slot)
      → del_data_port s (with_slots c (cleared idx (slot ∷ slots))) idx
        ≡ ok (closes_one s v.ref v.conn, with_slots c (cleared (suc idx) slots))
  unfolding del_data_port
  del_live v =
      let inside : leb (length (cleared idx (slot ∷ slots))) idx ≡ false =
        ground (arith, length-cleared idx (slot ∷ slots)) in
      rw (
        del_data_port,
        inside,
        slot_at-cleared idx slot slots,
        v.filled,
        with_conn,
        v.made,
        set-cleared idx (some v.ref) slots,
      )

  del_null :
      slot ≡ none
      → del_data_port s (with_slots c (cleared idx (slot ∷ slots))) idx ≡ fails null_pointer
  unfolding del_data_port
  del_null e =
      let inside : leb (length (cleared idx (slot ∷ slots))) idx ≡ false =
        ground (arith, length-cleared idx (slot ∷ slots)) in
      rw (del_data_port, inside, slot_at-cleared idx slot slots, e)

shifted :
    (b : Bool) (port p : ℕ) (old : Option ℕ)
    → (if b then none else if port == p then none else old) ≡ (if port == p || b then none else old)
shifted b port p old = ground arith

next_idx : (idx k n : ℕ) → idx + suc k ≤ n → n < 2 ^ 16 → (idx + 1) % 2 ^ 16 ≡ suc idx
next_idx idx k n h short = omega arith

-- The state after the loop over connections that are there.
pub record IsClosed (s : Server) (slots : List (Option ℕ)) (result : Outcome Server) : Type 0 where
  pub after : Server
  pub returned : result ≡ ok after
  pub ports :
      (p : ℕ)
      → find p after.data_ports ≡ (if owns s.conns slots p then none else find p s.data_ports)

one_closed :
    (s : Server) (ref : ℕ) (d : DataConn) (p : ℕ)
    → find p (closes_one s ref d).data_ports
      ≡ (if d.local_port == p then none else find p s.data_ports)
unfolding unregister_data_port
one_closed s ref d p = find-erase d.local_port p s.data_ports

has_port-live :
    (s : Server) (slot : Option ℕ) (v : IsLive s.conns slot) (p : ℕ)
    → has_port s.conns slot p ≡ (v.conn.local_port == p)
has_port-live s slot v p = rw (v.filled, has_port, v.made)

conns-closes_one :
    (s : Server) (ref : ℕ) (d : DataConn) → (closes_one s ref d).conns ≡ set s.conns ref (closed d)
unfolding closed unregister_data_port
conns-closes_one s ref d = refl

owns-closes_one :
    (s : Server) (slot : Option ℕ) (slots : List (Option ℕ)) (v : IsLive s.conns slot) (p : ℕ)
    → owns (closes_one s v.ref v.conn).conns slots p ≡ owns s.conns slots p
unfolding closed unregister_data_port
owns-closes_one s slot slots v p = owns-closed s.conns v.ref v.conn v.made slots p

ports-closes_one :
    (s : Server) (slot : Option ℕ) (slots : List (Option ℕ)) (v : IsLive s.conns slot) (p : ℕ)
    → (if owns (closes_one s v.ref v.conn).conns slots p
        then none
        else find p (closes_one s v.ref v.conn).data_ports)
      ≡ (if owns s.conns (slot ∷ slots) p then none else find p s.data_ports)
ports-closes_one s slot slots v p =
    ap (λ b. if b then none else find p (closes_one s v.ref v.conn).data_ports)
      (owns-closes_one s slot slots v p)
    ∙ ap (λ o. if owns s.conns slots p then none else o) (one_closed s v.ref v.conn p)
    ∙ shifted (owns s.conns slots p) v.conn.local_port p (find p s.data_ports)
    ∙ ap (λ b. if b || owns s.conns slots p then none else find p s.data_ports)
        (sym (has_port-live s slot v p))

module _ (c : SipCall) where
  close_rounds :
      (slots : List (Option ℕ)) (idx : ℕ) (s : Server)
      → All (IsLive s.conns) slots
      → idx + length slots < 2 ^ 16
      → IsClosed s slots
          (del_data_ports (suc (length slots)) idx s (with_slots c (cleared idx slots)))
  unfolding del_data_ports
  close_rounds [] idx s v short = record {
    after = s;
    returned =
        let outside : ltb idx (length (cleared idx [])) ≡ false =
          ground (arith, length-cleared idx []) in
        rw (del_data_ports, outside);
    ports = λ p. refl;
  }
  close_rounds (slot ∷ slots) idx s v short =
      let inside : ltb idx (length (cleared idx (slot ∷ slots))) ≡ true =
        ground (arith, length-cleared idx (slot ∷ slots)) in
      let t = closes_one s v.0.ref v.0.conn in
      let live : All (IsLive t.conns) slots =
        rw (conns-closes_one s v.0.ref v.0.conn)
          (All-closed s.conns v.0.ref v.0.conn v.0.made slots v.1) in
      let rest = close_rounds slots (suc idx) t live (omega arith) in
      record {
        after = rest.after;
        returned =
            rw
              (
                del_data_ports,
                inside,
                del_live s c idx slot slots v.0,
                next_idx idx (length slots) (idx + suc (length slots)) (omega arith) short,
              )
              rest.returned;
        ports = λ p. rest.ports p ∙ ports-closes_one s slot slots v.0 p;
      }

  null_round :
      (front back : List (Option ℕ)) (idx rounds : ℕ) (s : Server)
      → length front < rounds
      → All (IsLive s.conns) front
      → idx + length front < 2 ^ 16
      → del_data_ports rounds idx s (with_slots c (cleared idx (front ++ none ∷ back)))
        ≡ fails null_pointer
  unfolding del_data_ports
  null_round front back idx zero s enough v short = absurd (omega arith)
  null_round [] back idx (suc rounds) s enough v short =
      let inside : ltb idx (length (cleared idx (none ∷ back))) ≡ true =
        ground (arith, length-cleared idx (none ∷ back)) in
      rw (del_data_ports, inside, del_null s c idx none back refl)
  null_round (slot ∷ front) back idx (suc rounds) s enough v short =
      let inside : ltb idx (length (cleared idx (slot ∷ (front ++ none ∷ back)))) ≡ true =
        ground (arith, length-cleared idx (slot ∷ (front ++ none ∷ back))) in
      let t = closes_one s v.0.ref v.0.conn in
      let live : All (IsLive t.conns) front =
        rw (conns-closes_one s v.0.ref v.0.conn)
          (All-closed s.conns v.0.ref v.0.conn v.0.made front v.1) in
      rw
        (
          del_data_ports,
          inside,
          del_live s c idx slot (front ++ none ∷ back) v.0,
          next_idx idx (length front) (idx + suc (length front)) (omega arith) short,
        )
        (null_round front back (suc idx) rounds t (omega arith) live (omega arith))

-- The end of a call whose data connections are all there, fewer than 2^16: the destructor returns, the
-- ports of these connections are taken out of the table of data ports, and no other port.
pub destroy_call-IsClosed :
    (s : Server) (c : SipCall)
    → All (IsLive s.conns) c.slots
    → length c.slots < 2 ^ 16
    → IsClosed s c.slots (destroy_call s c)
unfolding destroy_call
destroy_call-IsClosed s c v short = close_rounds c c.slots 0 s v (omega arith)

-- The end of a call with a null slot behind connections that are there: the destructor dereferences the
-- null pointer.
pub destroy_call-null_pointer :
    (s : Server) (c : SipCall) (front back : List (Option ℕ))
    → c.slots ≡ front ++ none ∷ back
    → All (IsLive s.conns) front
    → length front < 2 ^ 16
    → destroy_call s c ≡ fails null_pointer
unfolding destroy_call
destroy_call-null_pointer s c front back e v short =
    ap (λ slots. destroy_call s (with_slots c slots)) e
    ∙ null_round c front back 0 (suc (length (front ++ none ∷ back))) s
        (omega (arith, length-append front (none ∷ back))) v (omega arith)
