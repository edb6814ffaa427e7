-- ===== src/Vpn/Tunnel/Timely.antt =====
-- What any transport keeps of the links of svoiptunnel/vpnlinkbase.cpp.
use svoiptunnel.Vpn.Tunnel.{
  IsOwn, Move, Moves, admits, alone, guest, moves, newborn, own, passes, stays,
}
use svoiptunnel.Vpn.Node.History.{IsTimely, perform-IsTimely, run-IsTimely}
use svoiptunnel.Vpn.Node.{
  Call, Node, Sent, drop_inactive, expire, on_accept, perform, place, timer_tick, accept, data_out,
  receive, setup, signal_out, send_signalling,
}
use svoiptunnel.Vpn.Node.History.{on_link_or-eq-ok}
use svoiptunnel.Vpn.Endpoints.{endpoint_eq}
use svoiptunnel.Base.Dict.{Dict, assign, find}
use svoiptunnel.Base.{All, Bool, Bytes, [], arith, ◌⊎◌, inl, inr, ok, some, ◌∷◌, ◌≡◌}
use svoiptunnel.Vpn.Link.{
  Endpoint, Link, Mode, accepted, new_link, set_events, on_receive, setup_data_conn, send_data,
}
use mathlib.Core.Path.{subst}

-- The link has mode `m`, the links of the map are accepted, and no timer exceeds its default.
abbrev pub AllTimely : Dict Endpoint Link → Type 0
AllTimely = All (λ x. IsTimely accepted x.1)

pub record IsSound (m : Mode) (n : Node) : Type 0 where
  pub main : IsTimely m n.link
  pub guests : AllTimely n.clients

find-IsTimely :
    (ep : Endpoint) (l : Link) (m : Dict Endpoint Link)
    → AllTimely m
    → find ep m ≡ some l
    → IsTimely accepted l
unfolding find
find-IsTimely ep l [] v e = cc
find-IsTimely ep l ((j, w) ∷ m) v e = ground (arith, find-IsTimely ep l m v.1)

assign-IsTimely :
    (ep : Endpoint) (l : Link) (m : Dict Endpoint Link)
    → AllTimely m
    → IsTimely accepted l
    → AllTimely (assign ep l m)
unfolding assign
assign-IsTimely ep l [] v h = (h, tt)
assign-IsTimely ep l ((j, w) ∷ m) v h = ground (arith, assign-IsTimely ep l m v.1 h)

place-IsTimely :
    (less : Endpoint → Endpoint → Bool) (ep : Endpoint) (l : Link) (m : Dict Endpoint Link)
    → AllTimely m
    → IsTimely accepted l
    → AllTimely (place less ep l m)
unfolding place
place-IsTimely less ep l [] v h = (h, tt)
place-IsTimely less ep l ((j, w) ∷ m) v h = ground (arith, place-IsTimely less ep l m v.1 h)

drop_inactive-IsTimely : (m : Dict Endpoint Link) → AllTimely m → AllTimely (drop_inactive m)
unfolding drop_inactive
drop_inactive-IsTimely [] v = tt
drop_inactive-IsTimely ((j, w) ∷ m) v = ground (arith, drop_inactive-IsTimely m v.1)

newborn-IsTimely : (id : Bytes) → IsTimely accepted (newborn id)
unfolding new_link
newborn-IsTimely id = ground arith

-- What a link does to its map, apart from `accept`.
pub perform-clients :
    (less : Endpoint → Endpoint → Bool) (n n' : Node) (c : Call) (sent : Sent)
    → IsOwn c
    → perform less n c ≡ ok (n', sent)
    → (n'.clients ≡ n.clients) ⊎ (n'.clients ≡ drop_inactive n.clients)
unfolding perform
perform-clients less n n' (receive ep buf) sent o e =
    inl (ground (arith, on_link_or-eq-ok n (on_receive n.link ep buf) e))
perform-clients less n n' (expire aborted) sent o e = unfold timer_tick in ground arith
perform-clients less n n' (setup callid idx port) sent o e =
    inl (ground (arith, on_link_or-eq-ok n (setup_data_conn n.link callid idx port) e))
perform-clients less n n' (data_out port buf) sent o e =
    inl (ground (arith, on_link_or-eq-ok n (send_data n.link port buf) e))
perform-clients less n n' (signal_out ch buf vpn_id) sent o e =
    unfold send_signalling in ground arith
perform-clients less n n' (accept ep l) sent o e = absurd o
perform-clients less n n' _ sent o e = inl (ground arith)

perform-AllTimely :
    (less : Endpoint → Endpoint → Bool) (n n' : Node) (c : Call) (sent : Sent)
    → IsOwn c
    → AllTimely n.clients
    → perform less n c ≡ ok (n', sent)
    → AllTimely n'.clients
perform-AllTimely less n n' c sent o v e = elim (perform-clients less n n' c sent o e) [
  | inl same ↦ rw same v
  | inr dropped ↦ rw dropped (drop_inactive-IsTimely n.clients v)
]

on_accept-IsSound :
    (less : Endpoint → Endpoint → Bool) (m : Mode) (ep : Endpoint) (l : Link) (n : Node)
    → IsSound m n
    → IsTimely accepted l
    → IsSound m (on_accept less ep l n)
unfolding on_accept set_events
on_accept-IsSound less m ep l n v h = record {
  main = v.main;
  guests =
      place-IsTimely less ep (record l { has_events = n.link.has_events }) n.clients v.guests h;
}

Move-IsSound :
    (less : Endpoint → Endpoint → Bool) (m : Mode) (n n' : Node) (out : Sent)
    → IsSound m n
    → Move less n n' out
    → IsSound m n'
Move-IsSound less m n n' out v (own c o e) = record {
  main = perform-IsTimely less m n n' c out v.main e;
  guests = perform-AllTimely less n n' c out o v.guests e;
}
Move-IsSound less m n n' out v (guest ep l c k es o found e same _) =
    let timely = find-IsTimely ep l n.clients v.guests found in
    rw same (record {
      main = v.main;
      guests =
          assign-IsTimely ep k.link n.clients v.guests
            (perform-IsTimely less accepted (alone l) k c es timely e);
    })
Move-IsSound less m n n' out v (admits ep id cs k es o e same _) = rw same (
    on_accept-IsSound less m ep k.link n v
      (run-IsTimely less accepted cs (alone (newborn id)) k es (newborn-IsTimely id) e))
Move-IsSound less m n n' out v (passes ep id cs k es o e same _) = rw same v

-- Through any moves, in any number and order, of a link of mode `m` and of the links that it has
-- accepted, no link changes its mode, and the timer of none exceeds its default (2 for a client, 12
-- for any other): if that holds at first, it holds behind the moves.
pub Moves-IsSound :
    (less : Endpoint → Endpoint → Bool) (m : Mode) (n n' : Node) (out : Sent)
    → IsSound m n
    → Moves less n n' out
    → IsSound m n'
Moves-IsSound less m n n' out v (stays e f) = subst (IsSound m) e v
Moves-IsSound less m n n' out v (moves k first later move more f) =
    Moves-IsSound less m k n' later (Move-IsSound less m n k first v move) more
