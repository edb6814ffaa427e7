-- ===== src/Vpn/Link/Safety.antt =====
-- `onReceive` on a buffer that no link has framed: when it is safe, and what it skips.
use svoiptunnel.Base.{
  ℕ, ◌+◌, ◌≤◌, ◌≡◌, ◌≢◌, refl, true, ◌∷◌, ◌++◌, arith, Bytes, length, length-append,
  take-length-append, le→leb, ◌∙◌, returns, sym, take-length, ◌↔◌,
}
use svoiptunnel.Vpn.Wire.{
  buffer_size, header_size, MsgType, signalling, data_msg, setup_data, frame, read_header, data_of,
  Header, length-frame, read_header-frame-append, data_of-frame-append, read_header-frame,
}
use svoiptunnel.Vpn.Link.Delivery.{not_server, framed, on_receive-frame}
use svoiptunnel.Vpn.Link.{Endpoint, server, Link, refreshed, dispatch, on_receive}

-- The `_size` of the header stays within the data that was received, where a handler reads it.
pub record IsHonest (buf : Bytes) : Type 0 where
  pub signalling_fits :
      (read_header buf).msg_type ≡ signalling → (read_header buf).size ≤ length (data_of buf)
  pub data_fits :
      (read_header buf).msg_type ≡ data_msg → (read_header buf).size ≤ length (data_of buf)
  pub setup_fits :
      (read_header buf).msg_type ≡ setup_data
      → (4 ≤ (read_header buf).size) × ((read_header buf).size ≤ length (data_of buf))

dispatch-returns :
    (t : MsgType) (l : Link) (ep : Endpoint) (h : Header) (body : Bytes)
    → (t ≡ signalling → h.size ≤ length body)
    → (t ≡ data_msg → h.size ≤ length body)
    → (t ≡ setup_data → (4 ≤ h.size) × (h.size ≤ length body))
    → returns (dispatch t l ep h body) ≡ true
unfolding dispatch
dispatch-returns signalling l ep h body s d u = ground arith
dispatch-returns _ l ep h body s d u = ground arith

module _ (t : MsgType) (l : Link) (ep : Endpoint) (h : Header) (body : Bytes)
    (listening : l.has_events ≡ true) (done : returns (dispatch t l ep h body) ≡ true) where
  returned_signalling : t ≡ signalling → h.size ≤ length body
  unfolding dispatch
  returned_signalling e = ground arith

  returned_data : t ≡ data_msg → h.size ≤ length body
  unfolding dispatch
  returned_data e = ground arith

  returned_setup : t ≡ setup_data → (4 ≤ h.size) × (h.size ≤ length body)
  unfolding dispatch
  returned_setup e = ground arith

-- A link with a handler that does not listen takes a buffer of at least a header without an exception
-- or a read beyond the buffer exactly when the buffer is honest: the size that the header of a
-- message with a payload announces is there, and at least 4 in a set-up message.
pub on_receive-returns_iff :
    (l : Link) (ep : Endpoint) (buf : Bytes)
    → l.mode ≢ server
    → l.has_events ≡ true
    → header_size ≤ length buf
    → (returns (on_receive l ep buf) ≡ true) ↔ IsHonest buf
unfolding on_receive refreshed
on_receive-returns_iff l ep buf m listening long =
    rw (not_server l.mode m, le→leb 12 (length buf) long)
      (
        (λ done. record {
          signalling_fits = returned_signalling _ _ ep _ _ listening done;
          data_fits = returned_data _ _ ep _ _ listening done;
          setup_fits = returned_setup _ _ ep _ _ listening done;
        }),
        (λ h. dispatch-returns _ _ ep _ _ h.signalling_fits h.data_fits h.setup_fits),
      )

dispatch-append :
    (t : MsgType) (l : Link) (ep : Endpoint) (ch : ℕ) (p rest : Bytes)
    → dispatch t l ep (framed t ch p) (p ++ rest) ≡ dispatch t l ep (framed t ch p) p
unfolding dispatch
dispatch-append signalling l ep ch p rest =
    ground (arith, length-append p rest, take-length-append p rest, take-length p)
dispatch-append data_msg l ep ch p rest =
    ground (arith, length-append p rest, take-length-append p rest, take-length p)
dispatch-append setup_data l ep ch (a ∷ b ∷ c ∷ d ∷ p) rest =
    ground (arith, length-append p rest, take-length-append p rest, take-length p)
dispatch-append setup_data l ep ch _ rest = ground arith
dispatch-append _ l ep ch p rest = refl

-- Whatever follows a message, of at most 1500 bytes of data, in the same chunk of a stream is not
-- looked at by a link that does not listen: the chunk is handled as its first message alone.
pub on_receive_coalesced :
    (l : Link) (ep : Endpoint) (t : MsgType) (ch : ℕ) (p rest : Bytes)
    → l.mode ≢ server
    → length p ≤ buffer_size
    → on_receive l ep (frame t ch p ++ rest) ≡ on_receive l ep (frame t ch p)
on_receive_coalesced l ep t ch p rest m h =
    read_first
    ∙ dispatch-append t (refreshed l) ep ch p rest
    ∙ sym (on_receive-frame l ep t ch p m h)
  where
    read_first :
        on_receive l ep (frame t ch p ++ rest)
        ≡ dispatch t (refreshed l) ep (framed t ch p) (p ++ rest)
    read_first =
        unfold on_receive refreshed in
        rw
          (
            not_server l.mode m,
            length-append (frame t ch p) rest,
            length-frame t ch p,
            le→leb 12 (12 + length p + length rest) (omega arith),
            read_header-frame-append t ch p rest,
            read_header-frame t ch p h,
            data_of-frame-append t ch p rest,
          )
          refl
