-- ===== src/Sip/Registry/Timeout.antt =====
-- `timer_tick` of the SIP server: which endpoints it closes.
use svoiptunnel.Base.{
  ℕ, zero, suc, ◌+◌, ◌≤◌, ◌<◌, ◌≡◌, refl, Bool, true, false, ◌&&◌, List, arith, length, set, Bytes,
  Option, none, some, if◌then◌else◌, ltb, leb, ◌==◌, ==_iff, Option-cases, Bool-cases, inl, inr,
  ◌∙◌, sym,
}
use native.Mathlib.Decide.{dec_lt}
use svoiptunnel.Base.Dict.{bytes_eq, find}
use svoiptunnel.Sip.Registry.Slots.{slot-set, slot_within, slot_beyond}
use svoiptunnel.Sip.Registry.Consistent.{IsConsistent}
use svoiptunnel.Sip.Registry.Calls.{close_endpoint-IsConsistent}
use svoiptunnel.Sip.Registry.{
  SipEndpoint, Registry, slot, id_of, close_endpoint, check_slot, sweep, timer_tick, is_expired,
}

-- What a tick makes of one slot.
abbrev pub kept : ℕ → Option SipEndpoint → Option SipEndpoint
kept now none = none
kept now (some e) = if is_expired now e then none else some e

at_idx :
    (now idx j : ℕ) (slots : List (Option SipEndpoint))
    → kept now (slot slots idx) ≡ slot slots idx
    → slot slots j ≡ (if idx == j then kept now (slot slots j) else slot slots j)
at_idx now idx j slots h = elim (Bool-cases (idx == j)) [
  | inl hit ↦ rw hit (rw (← (==_iff idx j).0 hit) (sym h))
  | inr miss ↦ rw miss
]

at_old :
    (now idx j : ℕ) (slots : List (Option SipEndpoint)) (e : SipEndpoint)
    → slot slots idx ≡ some e
    → is_expired now e ≡ true
    → (if idx == j then none else slot slots j)
      ≡ (if idx == j then kept now (slot slots j) else slot slots j)
at_old now idx j slots e here old = elim (Bool-cases (idx == j)) [
  | inl hit ↦ rw hit (rw (← (==_iff idx j).0 hit) (rw (here, kept, old)))
  | inr miss ↦ rw miss
]

-- The rounds from `idx` on that reach the slot `j`.
in_range : ℕ → ℕ → ℕ → Bool
in_range idx n j = leb idx j && ltb j (idx + n)

range_zero : (idx j : ℕ) → in_range idx 0 j ≡ false
unfolding in_range
range_zero idx j = ground arith

range_suc :
    (f : Option SipEndpoint → Option SipEndpoint) (idx n j : ℕ) (x : Option SipEndpoint)
    → (if in_range (idx + 1) n j
        then f (if idx == j then f x else x)
        else if idx == j
        then f x
        else x)
      ≡ (if in_range idx (suc n) j then f x else x)
unfolding in_range
range_suc f idx n j x = ground arith

range_all : (n j : ℕ) → j < n → in_range 0 n j ≡ true
unfolding in_range
range_all n j h = ground arith

module _ (show : ℕ → Bytes) (now : ℕ) where
  check_empty : (idx : ℕ) (r : Registry) → slot r.clients idx ≡ none → check_slot show now idx r ≡ r
  unfolding check_slot
  check_empty idx r empty = rw (empty, check_slot)

  check_young :
      (idx : ℕ) (r : Registry) (e : SipEndpoint)
      → slot r.clients idx ≡ some e
      → is_expired now e ≡ false
      → check_slot show now idx r ≡ r
  unfolding check_slot
  check_young idx r e here young = rw (here, check_slot, young)

  check_old :
      (idx : ℕ) (r : Registry) (e : SipEndpoint)
      → slot r.clients idx ≡ some e
      → is_expired now e ≡ true
      → check_slot show now idx r ≡ close_endpoint show r (id_of show e)
  unfolding check_slot
  check_old idx r e here old = rw (here, check_slot, old)

  close_listed :
      (idx : ℕ) (r : Registry) (e : SipEndpoint)
      → find (id_of show e) r.addr_map ≡ some idx
      → (close_endpoint show r (id_of show e)).clients ≡ set r.clients idx none
  unfolding close_endpoint
  close_listed idx r e known = rw (known, close_endpoint)

  -- One round keeps the agreement and touches its own slot only.
  check_slot_lem :
      (idx j : ℕ) (r : Registry)
      → IsConsistent show r
      → IsConsistent show (check_slot show now idx r)
        × (slot (check_slot show now idx r).clients j
            ≡ (if idx == j then kept now (slot r.clients j) else slot r.clients j))
  check_slot_lem idx j r v = elim (Option-cases (slot r.clients idx)) [
    | inl empty ↦ rw (check_empty idx r empty) (v, at_idx now idx j r.clients (rw empty))
    | inr (e, here) ↦ elim (Bool-cases (is_expired now e)) [
      | inl old ↦ rw (check_old idx r e here old) (
        close_endpoint-IsConsistent show r v (id_of show e),
        rw (close_listed idx r e (v.listed idx e here).0) (
            slot-set r.clients idx j none (slot_within r.clients idx here)
            ∙ at_old now idx j r.clients e here old),
      )
      | inr young ↦
          rw (check_young idx r e here young)
            (v, at_idx now idx j r.clients (rw (here, kept, young)))
    ]
  ]

  sweep_zero : (idx : ℕ) (r : Registry) → sweep show now 0 idx r ≡ r
  unfolding sweep
  sweep_zero idx r = refl

  sweep-suc :
      (n idx : ℕ) (r : Registry)
      → sweep show now (suc n) idx r ≡ sweep show now n (idx + 1) (check_slot show now idx r)
  unfolding sweep
  sweep-suc n idx r = refl

  sweep_lem :
      (n idx j : ℕ) (r : Registry)
      → IsConsistent show r
      → IsConsistent show (sweep show now n idx r)
        × (slot (sweep show now n idx r).clients j
            ≡ (if in_range idx n j then kept now (slot r.clients j) else slot r.clients j))
  sweep_lem zero idx j r v = rw (sweep_zero idx r, range_zero idx j) (v, refl)
  sweep_lem (suc n) idx j r v =
      let c = check_slot_lem idx j r v in
      let s = sweep_lem n (idx + 1) j (check_slot show now idx r) c.0 in
      rw (sweep-suc n idx r) (s.0, s.1 ∙ rw c.1 (range_suc (kept now) idx n j (slot r.clients j)))

  tick_sweeps : (r : Registry) → timer_tick show false now r ≡ sweep show now (length r.clients) 0 r
  unfolding timer_tick
  tick_sweeps r = refl

  kept_beyond :
      (j : ℕ) (slots : List (Option SipEndpoint)) (b : Bool)
      → length slots ≤ j
      → (if b then kept now (slot slots j) else slot slots j) ≡ kept now (slot slots j)
  kept_beyond j slots true h = refl
  kept_beyond j slots false h = rw (slot_beyond slots j h)

  slot-sweep :
      (j : ℕ) (r : Registry)
      → IsConsistent show r
      → slot (sweep show now (length r.clients) 0 r).clients j ≡ kept now (slot r.clients j)
  slot-sweep j r v = (sweep_lem (length r.clients) 0 j r v).1 ∙ elim (dec_lt j (length r.clients)) [
    | yes inside ↦ rw (range_all (length r.clients) j inside)
    | no outside ↦ kept_beyond j r.clients _ (omega arith)
  ]

  -- In a consistent registry, a tick closes exactly the endpoints that were last active more than sixty
  -- seconds ago: every other endpoint keeps its slot, no slot is filled, and the registry stays
  -- consistent.
  pub timer_tick-kept :
      (r : Registry)
      → IsConsistent show r
      → IsConsistent show (timer_tick show false now r)
        × ((j : ℕ) → slot (timer_tick show false now r).clients j ≡ kept now (slot r.clients j))
  timer_tick-kept r v =
      rw (tick_sweeps r) ((sweep_lem (length r.clients) 0 0 r v).0, λ j. slot-sweep j r v)
