-- ===== src/Examples/Endpoints.antt =====
-- A small registry of svoiptunnel/sipserver.cpp: two endpoints, of which one has timed out.
use svoiptunnel.Base.{
  ℕ, ◌≡◌, ◌≢◌, ◌↔◌, refl, Bool, true, false, [], ◌∷◌, Bytes, codes, none, some, inr, ok, fails,
  null_pointer, same,
}
use svoiptunnel.Base.Dict.{bytes_eq, find, insert, erase}
use svoiptunnel.Sip.Registry.{
  SipEndpoint, Registry, empty_registry, slot, put_slot, get_id, id_of, on_accept, deliver,
  close_endpoint, timer_tick,
}
use svoiptunnel.Sip.Registry.Consistent.{IsConsistent, empty-IsConsistent}
use svoiptunnel.Sip.Registry.Calls.{on_accept-finds, close_endpoint-IsConsistent}
use svoiptunnel.Sip.Registry.Deliver.{deliver-sends, deliver-null_pointer_iff}
use svoiptunnel.Sip.Registry.Timeout.{kept, timer_tick-kept}

-- One character for a port number is enough to tell the ports of the examples apart.
abbrev digit : ℕ → Bytes
digit n = n ∷ []

abbrev one : Registry
one = (on_accept digit empty_registry (codes "a") 60 0).0

abbrev two : Registry
two = (on_accept digit one (codes "b") 60 50).0

one-IsConsistent : IsConsistent digit one
one-IsConsistent =
    (on_accept-finds digit empty_registry (empty-IsConsistent digit) (codes "a") 60 0).0

two-IsConsistent : IsConsistent digit two
two-IsConsistent = (on_accept-finds digit one one-IsConsistent (codes "b") 60 50).0

abbrev only_c : Bytes → ℕ → Bool
only_c addr port = same addr (codes "c")

on_accept-finds_example :
    let (r', ch) = on_accept digit one (codes "b") 60 50 in
    IsConsistent digit r'
    × ((e : SipEndpoint) × (slot r'.clients ch ≡ some e)
        × (id_of digit e ≡ get_id digit (codes "b") 60)
        × (e.ch ≡ ch))
    × ((j : ℕ) → j ≢ ch → slot r'.clients j ≡ slot one.clients j)
on_accept-finds_example = on_accept-finds digit one one-IsConsistent (codes "b") 60 50

-- Slot 0 is null after this, and the next request still takes slot 2.
abbrev with_gap : Registry
with_gap = close_endpoint digit two (codes "a:<")

gap_test :
    with_gap.clients
    ≡ none ∷ some (record { ch = 1; addr = codes "b"; port = 60; last_active = 50 }) ∷ []
unfolding close_endpoint on_accept find insert same get_id put_slot
gap_test = refl

with_gap-IsConsistent : IsConsistent digit with_gap
with_gap-IsConsistent = close_endpoint-IsConsistent digit two two-IsConsistent (codes "a:<")

deliver-sends_example :
    (r' : Registry) × (ch' : ℕ) × (deliver digit only_c two true 0 (codes "c") 60 (codes "hi") 55
      ≡ ok (r', (ch', codes "hi") ∷ []))
    × ((e : SipEndpoint) × (slot r'.clients ch' ≡ some e)
        × (id_of digit e ≡ get_id digit (codes "c") 60))
    × IsConsistent digit r'
unfolding same
deliver-sends_example =
    deliver-sends digit only_c two two-IsConsistent 0 (codes "c") 60 55 (codes "hi") (inr refl)

deliver-null_pointer_iff_example :
    (deliver digit only_c two true 0 (codes "d") 60 (codes "hi") 55 ≡ fails null_pointer) ↔ (
      (true ≡ true)
      × (find (get_id digit (codes "d") 60) two.addr_map ≡ none)
      × (only_c (codes "d") 60 ≡ false))
deliver-null_pointer_iff_example =
    deliver-null_pointer_iff digit only_c two two-IsConsistent true 0 (codes "d") 60 55 (codes "hi")

timer_tick-kept_example :
    IsConsistent digit (timer_tick digit false 61 two)
    × ((j : ℕ) → slot (timer_tick digit false 61 two).clients j ≡ kept 61 (slot two.clients j))
timer_tick-kept_example = timer_tick-kept digit 61 two two-IsConsistent

tick_test : slot (timer_tick digit false 61 two).clients 0 ≡ none
unfolding timer_tick on_accept find insert erase same get_id put_slot
tick_test = refl
