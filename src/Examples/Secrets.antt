-- ===== src/Examples/Secrets.antt =====
-- Cookies of svoiptunnel/sslbase.cpp and the encoding of svoiptunnel/config.cpp at concrete inputs.
use svoiptunnel.Ssl.Session.{Engine, Session, do_send, receive, send_rounds, ssl_accepted}
use svoiptunnel.Ssl.Session.Flushed.{do_send-empties}
use svoiptunnel.Ssl.Session.Oversized.{receive-over_read}
use svoiptunnel.Examples.Links.{phone, up}
use svoiptunnel.Vpn.Link.{accepted}
use svoiptunnel.Vpn.Wire.{frame, signalling}
use svoiptunnel.Ssl.Cookie.{Crypto, Peer, generate_cookie, inet, inet6, verify_cookie}
use svoiptunnel.Ssl.Cookie.Checked.{verify_cookie-generate_cookie}
use svoiptunnel.Setup.Codec.{encode}
use svoiptunnel.Base.{
  Bytes, Option, [], arith, codes, drop, fails, false, length, none, ok, over_read, refl, replicate,
  some, take, true, ◌++◌, ◌<◌, ◌↔◌, ◌∷◌, ◌≡◌, ◌≢◌,
}

abbrev crypto : Crypto
crypto = record {
  hmac = λ secret text. secret ++ text;
  rand_bytes = λ n. some (codes "0123456789abcdef");
  can_allocate = λ n. true;
}

abbrev caller : Peer
caller = inet (19 ∷ 136 ∷ []) (10 ∷ 0 ∷ 0 ∷ 2 ∷ [])

abbrev cookie : Bytes
cookie = codes "0123456789abcdef" ++ 19 ∷ 136 ∷ 10 ∷ 0 ∷ 0 ∷ 2 ∷ []

verify_cookie-generate_cookie_example :
    (verify_cookie crypto caller (codes "guess") (some (codes "0123456789abcdef")) ≡ ok true)
    ↔ (codes "guess" ≡ cookie)
unfolding generate_cookie
verify_cookie-generate_cookie_example =
    verify_cookie-generate_cookie crypto caller (inet6 [] [] ∷ caller ∷ []) none
      (some (codes "0123456789abcdef")) (some (codes "0123456789abcdef")) cookie (codes "guess")
      refl refl

encode_test : encode (1 ∷ 2 ∷ 255 ∷ []) 3 170 ≡ ok (171 ∷ 169 ∷ 86 ∷ [], 86)
unfolding encode
encode_test = refl

-- An engine that hides nothing: what has come in and what is to go out, as bytes.
abbrev pub Pipe : Type 0
Pipe = Bytes × Bytes

abbrev pub or_none : Bytes → Option Bytes
or_none [] = none
or_none (b ∷ bs) = some (b ∷ bs)

abbrev pub pipe : Engine Pipe
pipe = record {
  bio_write = λ bytes e. (e.0 ++ bytes, e.1);
  ssl_accept = λ e. (e, true);
  ssl_connect = λ e. (e, true);
  ssl_read = λ n e. ((drop n e.0, e.1), or_none (take n e.0));
  ssl_write = λ bytes e. ((e.0, e.1 ++ bytes), false);
  bio_pending = λ e. length e.1;
  bio_read = λ n e. ((e.0, drop n e.1), take n e.1);
  is_init_finished = λ e. true;
}

pub drop_all : (xs : Bytes) → length (drop (length xs) xs) ≡ 0
drop_all [] = refl
drop_all (x ∷ xs) = drop_all xs

pipe_drains : (e : Pipe) → length e.1 ≢ 0 → length (drop (length e.1) e.1) < length e.1
pipe_drains e h = omega (arith, drop_all e.1)

abbrev talking : Session Pipe
talking = record { engine = ([], 1 ∷ 2 ∷ 3 ∷ []); mode = ssl_accepted; handshaking = false }

do_send-empties_example :
    (length (do_send pipe talking).0.engine.1 ≡ 0)
    × (send_rounds pipe 9 talking ≡ do_send pipe talking)
do_send-empties_example = do_send-empties pipe pipe_drains talking 9 (omega arith)

abbrev long_text : Bytes
long_text = replicate 1100 b'a'

receive-over_read_example :
    receive pipe
      (frame signalling 3 long_text)
      (record talking { engine = ([], []) })
      (up accepted (codes "77"))
      phone
    ≡ fails over_read
unfolding frame
receive-over_read_example =
    receive-over_read pipe (frame signalling 3 long_text) (record talking { engine = ([], []) })
      (drop 1024 (frame signalling 3 long_text), []) (up accepted (codes "77")) phone 3 long_text
      refl (ground arith) refl (omega arith) (omega arith) refl
