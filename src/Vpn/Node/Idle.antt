-- ===== src/Vpn/Node/Idle.antt =====
-- What a link does when no message comes in, tick after tick.
use svoiptunnel.Base.{
  ℕ, zero, suc, ◌≡◌, refl, true, false, List, [], ◌∷◌, ◌++◌, arith, replicate, ◌∙◌,
}
use svoiptunnel.Vpn.Wire.{ping_msg}
use svoiptunnel.Vpn.Link.{client, accepted, Effect, schedule, Link, bare}
use svoiptunnel.Vpn.Node.{tick_link}

-- `n` ticks of the timer of one link, with all that they send.
unfoldable pub ticks : ℕ → Link → Link × List Effect
ticks zero l = (l, [])
ticks (suc n) l =
    let (l', sent) = tick_link l in let (l'', later) = ticks n l' in (l'', sent ++ later)

abbrev pub pings : ℕ → List Effect
pings zero = []
pings (suc n) = bare ping_msg ∷ schedule ∷ pings n

-- A connected client that hears nothing sends a PING on each tick but the last of its timer, and
-- is then disconnected. Its timer goes on.
pub ticks-client :
    (n : ℕ) (l : Link)
    → l.mode ≡ client
    → l.connected ≡ true
    → l.activity_timer ≡ suc n
    → ticks (suc n) l
      ≡ (record l { connected = false; activity_timer = 0 }, pings n ++ schedule ∷ [])
unfolding ticks tick_link
ticks-client zero l m c t = ground arith
ticks-client (suc n) l m c t = ground (arith, ticks-client n (record l { activity_timer = suc n }))

ticks-suc :
    (n : ℕ) (l : Link) {l' : Link} {sent : List Effect}
    → tick_link l ≡ (l', sent)
    → ticks (suc n) l ≡ ((ticks n l').0, sent ++ (ticks n l').1)
unfolding ticks
ticks-suc n l e = rw e

tick_accepted :
    (n : ℕ) (l : Link)
    → l.mode ≡ accepted
    → l.activity_timer ≡ suc (suc n)
    → tick_link l ≡ (record l { activity_timer = suc n }, schedule ∷ [])
unfolding tick_link
tick_accepted n l m t = ground arith

tick_accepted_last :
    (l : Link)
    → l.mode ≡ accepted
    → l.activity_timer ≡ 1
    → tick_link l ≡ (record l { connected = false; activity_timer = 0 }, [])
unfolding tick_link
tick_accepted_last l m t = ground arith

-- An accepted link that hears nothing for its whole timer is disconnected, having sent nothing, and
-- the last tick does not schedule another.
pub ticks_accepted :
    (n : ℕ) (l : Link)
    → l.mode ≡ accepted
    → l.activity_timer ≡ suc n
    → ticks (suc n) l ≡ (record l { connected = false; activity_timer = 0 }, replicate n schedule)
ticks_accepted zero l m t = ticks-suc 0 l (tick_accepted_last l m t) ∙ unfold ticks in refl
ticks_accepted (suc n) l m t =
    ticks-suc (suc n) l (tick_accepted n l m t)
    ∙ rw (ticks_accepted n (record l { activity_timer = suc n }) m refl)
