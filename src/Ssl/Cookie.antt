-- ===== src/Ssl/Cookie.antt =====
-- The cookies of svoiptunnel/sslbase.cpp, by which a DTLS server tells that a client is where it claims
-- to be, and which errors of OpenSSL end a connection.
pub mod Checked
use svoiptunnel.Base.{
  ℕ, Bool, Bytes, List, Option, Outcome, [], aborts, false, fails, if◌then◌else◌, is_empty, length,
  none, ok, same, some, true, ◌++◌, ◌+◌, ◌>>=◌, ◌∷◌, ◌&&◌, ◌==◌,
}

-- What the code uses of OpenSSL: HMAC over SHA-1 of a secret and a text; `RAND_bytes` of a length, none
-- where it fails; and whether `OPENSSL_malloc` of a length succeeds.
pub record Crypto : Type 0 where
  pub hmac : Bytes → Bytes → Bytes
  pub rand_bytes : ℕ → Option Bytes
  pub can_allocate : ℕ → Bool

-- The address that `BIO_dgram_get_peer` stores, by its family: the bytes of the port and of the address
-- as they stand in it.
pub data Peer : Type 0 where
  inet inet6 : Bytes → Bytes → Peer
  other_family : Peer

-- `COOKIE_SECRET_LENGTH`
abbrev pub secret_length : ℕ
secret_length = 16

-- The buffer with the port and the address of the peer, none where there is no memory for it. The lengths
-- are the sizes of `in_addr` or `in6_addr`, and of `in_port_t`.
unfoldable pub peer_buffer : Crypto → Peer → Outcome (Option Bytes)
peer_buffer crypto (inet port addr) =
    ok (if crypto.can_allocate (4 + 2) then some (port ++ addr) else none)
peer_buffer crypto (inet6 port addr) =
    ok (if crypto.can_allocate (16 + 2) then some (port ++ addr) else none)
peer_buffer crypto other_family = fails aborts

-- `cookie_secret`, if `cookie_initialized` is set.
abbrev pub Secret : Type 0
Secret = Option Bytes

-- The secret that is there, or a new one, none where there are no random bytes.
unfoldable pub ensure_secret : Crypto → Secret → Option Bytes
ensure_secret crypto (some secret) = some secret
ensure_secret crypto none = crypto.rand_bytes secret_length

abbrev cookie_of : Crypto → Bytes → Option Bytes → Option Bytes
cookie_of crypto secret none = none
cookie_of crypto secret (some buffer) = some (crypto.hmac secret buffer)

-- The cookie, none where the function returns 0; and the secret, which stays.
unfoldable pub generate_cookie : Crypto → Peer → Secret → Outcome (Secret × Option Bytes)
unfolding ensure_secret peer_buffer
generate_cookie crypto peer s =
    elim (ensure_secret crypto s) as (λ _. Outcome (Secret × Option Bytes)) [
      | none ↦ ok (s, none)
      | some secret ↦
          peer_buffer crypto peer >>= λ buffer. ok (some secret, cookie_of crypto secret buffer)
    ]

abbrev is_cookie : Crypto → Bytes → Bytes → Option Bytes → Bool
is_cookie crypto secret cookie none = false
is_cookie crypto secret cookie (some buffer) = same cookie (crypto.hmac secret buffer)

-- Whether the function returns 1: the lengths agree, and the bytes.
unfoldable pub verify_cookie : Crypto → Peer → Bytes → Secret → Outcome Bool
unfolding peer_buffer
verify_cookie crypto peer cookie none = ok false
verify_cookie crypto peer cookie (some secret) =
    peer_buffer crypto peer >>= λ buffer. ok (is_cookie crypto secret cookie buffer)

-- The errors that `SSL_get_error` returns.
pub data SslError : Type 0 where
  error_none want_read want_write want_connect want_accept : SslError
  error_code : ℕ → SslError

unfoldable pub ssl_is_fatal_error : SslError → Bool
ssl_is_fatal_error (error_code n) = true
ssl_is_fatal_error _ = false

-- What is logged by the loop: the fatal ones of the first error and of those of `ERR_get_error`, which
-- the list holds, up to the first that is none.
unfoldable pub logged_errors : SslError → List SslError → List SslError
unfolding ssl_is_fatal_error
logged_errors error_none queue = []
logged_errors e [] = if ssl_is_fatal_error e then e ∷ [] else []
logged_errors e (next ∷ queue) =
    let later = logged_errors next queue in if ssl_is_fatal_error e then e ∷ later else later

-- Every certificate is trusted.
abbrev pub dtls_verify_callback : ℕ → ℕ
dtls_verify_callback preverified = 1
