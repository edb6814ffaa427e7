-- ===== src/Examples/Tunnels.antt =====
-- Links over TLS and DTLS, svoiptunnel/vpntlslink.cpp and vpndtlslink.cpp, at concrete inputs.
use svoiptunnel.Base.{
  Bytes, ℕ, zero, suc, List, [], codes, drop, false, length, ok, refl, same, some, take_all, true,
  ◌++◌, ◌∷◌, ◌≡◌, ◌≢◌, ◌≤◌, arith,
}
use svoiptunnel.Carrier.Dtls as Dtls
use svoiptunnel.Carrier.Dtls.{DtlsLink}
use svoiptunnel.Carrier.Dtls.Modeless.{IsModeless, dtls_run-StaysModeless}
use svoiptunnel.Carrier.Dtls.Refined.{dtls_run-Moves}
use svoiptunnel.Carrier.Dtls.Waiting.{IsWaiting, dtls_run-waits}
use svoiptunnel.Carrier.Secured.{Library, Wired, chain}
use svoiptunnel.Carrier.Secured.Quiet.{MovesBehind, effects_out}
use svoiptunnel.Carrier.Secured.Unfinished.{IsInert}
use svoiptunnel.Carrier.Tls as Tls
use svoiptunnel.Carrier.Tls.{TlsLink}
use svoiptunnel.Carrier.Tls.Refined.{tls_run-Moves}
use svoiptunnel.Carrier.Udp as Udp
use svoiptunnel.Examples.Carriers.{connection, heard, naming, platform, tcp_system, value}
use svoiptunnel.Examples.Links.{phone, up}
use svoiptunnel.Examples.Secrets.{Pipe, or_none, pipe}
use svoiptunnel.Net.Udp.{receive_done, send_done, success}
use svoiptunnel.Ssl.Session.{Engine, Session, link_effect, ssl_client, ssl_server, wire}
use svoiptunnel.Vpn.Link.{
  Link, accepted, client, new_link, no_channel, on_receive, on_receive_data, refreshed, schedule,
  send_data, transmit,
}
use svoiptunnel.Vpn.Wire.{connect_msg, frame, read_header}
use svoiptunnel.Carrier.Secured.Delivered.{IsTunnel, send_data-receive}
use svoiptunnel.Ssl.Session.{receive, send}
use svoiptunnel.Vpn.Node.{do_connect, place}
use svoiptunnel.Vpn.Node.{self}

abbrev library : Library Pipe
library = record { engine = pipe; connect_state = ([], []); accept_state = λ n. ([], []) }

abbrev dialling : TlsLink library
dialling = Tls.client_link library tcp_system (codes "office") 5000

abbrev talked : TlsLink library × Wired
talked = value (dialling, []) (Tls.run library naming dialling connection)

talked_test :
    talked.1 ≡ (self, wire (frame connect_msg no_channel [])) ∷ (self, link_effect schedule) ∷ []
unfolding Tls.step Tls.client_link chain new_link frame read_header on_receive
talked_test = refl

tls_run-Moves_example : MovesBehind naming.less dialling.node talked.0.node talked.1
unfolding Tls.step Tls.client_link chain new_link frame read_header on_receive
tls_run-Moves_example = tls_run-Moves library naming connection dialling talked.0 talked.1 refl

abbrev fresh : DtlsLink library
fresh = Dtls.server_link library platform 5000

abbrev greeted : DtlsLink library × Wired
greeted = value (fresh, []) (Dtls.run library platform fresh (heard ∷ heard ∷ []))

dtls_run-Moves_example : MovesBehind naming.less fresh.node greeted.0.node greeted.1
unfolding Dtls.step Dtls.server_link chain new_link frame read_header on_receive place same
dtls_run-Moves_example =
    dtls_run-Moves library platform (heard ∷ heard ∷ []) fresh greeted.0 greeted.1 refl

-- An engine whose handshake does not end: it has a greeting to send and waits.
abbrev slow : Engine Pipe
slow = record pipe {
  ssl_connect = λ e. ((e.0, e.1 ++ codes "hello"), false);
  is_init_finished = λ e. false;
}

abbrev slow_library : Library Pipe
slow_library = record { engine = slow; connect_state = ([], []); accept_state = λ n. ([], []) }

abbrev calling : DtlsLink slow_library
calling = (Dtls.client_link slow_library platform ssl_client (codes "office") 5000).0

abbrev shaking : Session Pipe
shaking = record { engine = ([], []); mode = ssl_client; handshaking = true }

abbrev lost : List Udp.Event
lost = Udp.socket_done (send_done success) ∷ Udp.called do_connect tt ∷ Udp.timer_done false ∷ []

abbrev unanswered : DtlsLink slow_library × Wired
unanswered = value (calling, []) (Dtls.run slow_library platform calling lost)

dtls_run-waits_example : IsWaiting slow_library platform unanswered.0 shaking × (unanswered.1 ≡ [])
unfolding Dtls.step Dtls.client_link chain new_link
dtls_run-waits_example =
    dtls_run-waits slow_library platform lost calling unanswered.0 shaking unanswered.1
      (tt, (tt, (tt, tt))) ((refl, refl, refl, refl, (refl, refl)), refl) refl

slow-IsInert : IsInert slow
slow-IsInert = record { written = λ buf e. refl; taken = λ n e. refl }

abbrev undecided : DtlsLink slow_library
undecided = (Dtls.client_link slow_library platform ssl_server (codes "office") 5000).0

abbrev answers : List Udp.Event
answers =
    Udp.socket_done (receive_done success (codes "server hello")) ∷ Udp.called do_connect tt ∷ []

abbrev answered : DtlsLink slow_library × Wired
answered = value (undecided, []) (Dtls.run slow_library platform undecided answers)

dtls_run-StaysModeless_example :
    (s : Session Pipe) × IsModeless slow_library slow-IsInert platform answered.0 s
    × (effects_out answered.1 ≡ [])
unfolding Dtls.step Dtls.client_link chain new_link
dtls_run-StaysModeless_example =
    dtls_run-StaysModeless slow_library slow-IsInert platform answers undecided answered.0
      (record shaking { mode = ssl_server }) answered.1
      (((refl, refl, refl, refl, (refl, refl)), refl), (refl, refl, refl)) refl

-- Two pipes with nothing in between.
abbrev Quiet : Pipe → Pipe → Type 0
Quiet a b = (a.1 ≡ []) × (b.0 ≡ [])

drop_past : (n : ℕ) (xs : Bytes) → length xs ≤ n → drop n xs ≡ []
drop_past zero [] h = refl
drop_past (suc n) [] h = refl
drop_past zero (x ∷ xs) h = absurd (omega arith)
drop_past (suc n) (x ∷ xs) h = drop_past n xs (omega arith)

or_none-full : (xs : Bytes) → xs ≢ [] → or_none xs ≡ some xs
or_none-full [] h = absurd (h refl)
or_none-full (x ∷ xs) h = refl

pipe-IsTunnel : IsTunnel pipe Quiet
pipe-IsTunnel (x, out) (inp, y) buf (e, f) full fits = record {
  after = (x, out ++ buf);
  cipher = buf;
  after_read = ([], y);
  fine = refl;
  some_bytes = full;
  pending = rw e refl;
  rest = (x, []);
  taken =
      rw (e, take_all (length buf) buf (omega arith), drop_past (length buf) buf (omega arith))
        refl;
  all_taken = refl;
  plain = rw (f, take_all 1024 buf fits, drop_past 1024 buf fits, or_none-full buf full) refl;
  still_paired = (refl, refl);
}

abbrev ready : Session Pipe
ready = record { engine = ([], []); mode = ssl_client; handshaking = false }

abbrev sender : Link
sender = record (new_link client) { connected = true }

send_data-receive_example :
    (msg w : Bytes) × (e e' : Pipe) × (send_data sender 7 (codes "voice")
      ≡ ok (sender, transmit msg ∷ []))
    × (send pipe msg ready ≡ (record ready { engine = e }, wire w ∷ []))
    × (receive pipe w ready (up accepted (codes "77")) phone
        ≡ ok (
          record ready { engine = e' },
          (
            refreshed (up accepted (codes "77")),
            link_effect (on_receive_data 7 (codes "voice")) ∷ [],
          ),
        ))
    × Quiet e e'
unfolding new_link
send_data-receive_example =
    send_data-receive pipe Quiet pipe-IsTunnel ready ready sender (up accepted (codes "77")) phone 7
      (codes "voice") (refl, refl) refl refl refl refl (ground arith) (omega arith) (omega arith)
