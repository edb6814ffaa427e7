-- ===== src/Ssl/Cookie/Checked.antt =====
-- Which cookies the functions of svoiptunnel/sslbase.cpp accept.
use svoiptunnel.Ssl.Cookie.{
  Crypto, Peer, Secret, ensure_secret, generate_cookie, inet, inet6, other_family, peer_buffer,
  verify_cookie,
}
use svoiptunnel.Base.{
  Bytes, List, Option-cases, Outcome, [], arith, inl, inr, ok, same_iff, some, true, ◌++◌, ◌>>=◌,
  ◌∷◌, ◌≡◌, ◌↔◌,
}

-- The bytes that stand for a peer.
abbrev pub text_of : Peer → Bytes
text_of (inet port addr) = port ++ addr
text_of (inet6 port addr) = port ++ addr
text_of other_family = []

-- The cookies for other clients, one after the other.
abbrev pub generate_all : Crypto → List Peer → Secret → Outcome Secret
generate_all crypto [] s = ok s
generate_all crypto (peer ∷ more) s =
    generate_cookie crypto peer s >>= λ r. generate_all crypto more r.0

generated :
    (crypto : Crypto) (peer : Peer) (s s' : Secret) (cookie : Bytes)
    → generate_cookie crypto peer s ≡ ok (s', some cookie)
    → (secret : Bytes) × (s' ≡ some secret)
      × (peer_buffer crypto peer ≡ ok (some (text_of peer)))
      × (cookie ≡ crypto.hmac secret (text_of peer))
unfolding generate_cookie peer_buffer
generated crypto (inet port addr) s s' cookie h = elim (Option-cases (ensure_secret crypto s)) [
  | inl e ↦ absurd (ground arith)
  | inr (secret, e) ↦ (secret, ground arith, ground arith, ground arith)
]
generated crypto (inet6 port addr) s s' cookie h = elim (Option-cases (ensure_secret crypto s)) [
  | inl e ↦ absurd (ground arith)
  | inr (secret, e) ↦ (secret, ground arith, ground arith, ground arith)
]
generated crypto other_family s s' cookie h = elim (Option-cases (ensure_secret crypto s)) [
  | inl e ↦ absurd (ground arith)
  | inr (secret, e) ↦ absurd (ground arith)
]

secret_stays :
    (crypto : Crypto) (peers : List Peer) (secret : Bytes) (s : Secret)
    → generate_all crypto peers (some secret) ≡ ok s
    → s ≡ some secret
unfolding generate_cookie ensure_secret
secret_stays crypto [] secret s h = ground arith
secret_stays crypto (inet port addr ∷ peers) secret s h =
    secret_stays crypto peers secret s (unfold peer_buffer in ground arith)
secret_stays crypto (inet6 port addr ∷ peers) secret s h =
    secret_stays crypto peers secret s (unfold peer_buffer in ground arith)
secret_stays crypto (other_family ∷ peers) secret s h = unfold peer_buffer in cc

-- After a cookie has been made for a client, and cookies for any other clients since, none of which
-- ends the process: what is accepted from that client is exactly that cookie, and any other bytes
-- are refused.
pub verify_cookie-generate_cookie :
    (crypto : Crypto) (peer : Peer) (others : List Peer) (s s' later : Secret)
    (cookie answer : Bytes)
    → generate_cookie crypto peer s ≡ ok (s', some cookie)
    → generate_all crypto others s' ≡ ok later
    → (verify_cookie crypto peer answer later ≡ ok true) ↔ (answer ≡ cookie)
unfolding verify_cookie
verify_cookie-generate_cookie crypto peer others s s' later cookie answer h more =
    let (secret, e, f, g) = generated crypto peer s s' cookie h in
    let kept : later ≡ some secret = secret_stays crypto others secret later (rw⁻¹ e more) in
    rw (kept, f, g) (ground (arith, same_iff answer (crypto.hmac secret (text_of peer))))
