-- ===== src/Setup/Codec.antt =====
-- `Encode` and `Decode` of svoiptunnel/config.cpp: each byte is combined by exclusive or with the
-- encoded byte before it. A buffer is the memory that the pointer leads to; counts are not negative.
use svoiptunnel.Base.{
  ℕ, zero, suc, All, Bytes, Outcome, [], arith, buffer_overflow, fails, ok, over_read, refl, length,
  returns, returns-ok, true, ◌≤◌, >>=-eq-ok, ◌%◌, ◌*◌, ◌+◌, ◌/◌, ◌<◌, ◌>>=◌, ◌^◌, ◌∷◌, ◌≡◌,
}

-- The exclusive or of the lowest bits.
unfoldable xor_bits : ℕ → ℕ → ℕ → ℕ
xor_bits zero a b = 0
xor_bits (suc width) a b = (a + b) % 2 + 2 * xor_bits width (a / 2) (b / 2)

-- `^=` of bytes.
unfoldable pub xor : ℕ → ℕ → ℕ
unfolding xor_bits
xor a b = xor_bits 8 a b

xor_bits-cancel : (width a b : ℕ) → a < 2 ^ width → xor_bits width (xor_bits width a b) b ≡ a
unfolding xor_bits
xor_bits-cancel zero a b h = omega arith
xor_bits-cancel (suc width) a b h =
    let x = xor_bits width (a / 2) (b / 2) in
    let e : xor_bits width x (b / 2) ≡ a / 2 =
      xor_bits-cancel width (a / 2) (b / 2) (omega arith) in
    let half : ((a + b) % 2 + 2 * x) / 2 ≡ x = omega arith in rw (half, e) (omega arith)

xor-cancel : (a b : ℕ) → a < 256 → xor (xor a b) b ≡ a
unfolding xor
xor-cancel a b h = xor_bits-cancel 8 a b h

-- The loop of `Encode` behind the first byte, with the byte before; and the byte that is encoded last.
unfoldable encode_rest : ℕ → ℕ → Bytes → Outcome (Bytes × ℕ)
encode_rest zero before buf = ok (buf, before)
encode_rest (suc count) before [] = fails buffer_overflow
encode_rest (suc count) before (c ∷ buf) =
    encode_rest count (xor c before) buf >>= λ r. ok (xor c before ∷ r.0, r.1)

-- For a count of 0 the first byte is encoded and the byte in front of the buffer is read.
unfoldable pub encode : Bytes → ℕ → ℕ → Outcome (Bytes × ℕ)
unfolding encode_rest xor
encode [] count first = fails buffer_overflow
encode (c ∷ buf) zero first = fails over_read
encode (c ∷ buf) (suc count) first =
    encode_rest count (xor c first) buf >>= λ r. ok (xor c first ∷ r.0, r.1)

unfoldable decode_rest : ℕ → ℕ → Bytes → Outcome (Bytes × ℕ)
decode_rest zero before buf = ok (buf, before)
decode_rest (suc count) before [] = fails buffer_overflow
decode_rest (suc count) before (c ∷ buf) =
    decode_rest count c buf >>= λ r. ok (xor c before ∷ r.0, r.1)

-- For a count of 0 or 1 the first byte is decoded.
unfoldable pub decode : Bytes → ℕ → ℕ → Outcome (Bytes × ℕ)
unfolding decode_rest xor
decode [] count first = fails buffer_overflow
decode (c ∷ buf) zero first = ok (xor c first ∷ buf, c)
decode (c ∷ buf) (suc count) first = decode_rest count c buf >>= λ r. ok (xor c first ∷ r.0, r.1)

abbrev pub IsByte : ℕ → Type 0
IsByte c = c < 256

rest_round :
    (count before : ℕ) (buf coded : Bytes) (last : ℕ)
    → All IsByte buf
    → encode_rest count before buf ≡ ok (coded, last)
    → decode_rest count before coded ≡ ok (buf, last)
unfolding encode_rest decode_rest
rest_round zero before buf coded last v h = ground arith
rest_round (suc count) before [] coded last v h = cc
rest_round (suc count) before (c ∷ buf) coded last v h =
    let (r, e, f) = >>=-eq-ok (encode_rest count (xor c before) buf) _ h in
    let later = rest_round count (xor c before) buf r.0 r.1 v.1 e in
    let same : xor c before ∷ r.0 ≡ coded = ground arith in
    let same_last : r.1 ≡ last = ground arith in
    rw⁻¹ (same, same_last) (rw (decode_rest, later, xor-cancel c before v.0) refl)

decode_back :
    (buf coded : Bytes) (count first last : ℕ)
    → All IsByte buf
    → encode buf count first ≡ ok (coded, last)
    → decode coded count first ≡ ok (buf, last)
unfolding encode decode
decode_back [] coded count first last v h = cc
decode_back (c ∷ buf) coded zero first last v h = cc
decode_back (c ∷ buf) coded (suc count) first last v h =
    let (r, e, f) = >>=-eq-ok (encode_rest count (xor c first) buf) _ h in
    let later = rest_round count (xor c first) buf r.0 r.1 v.1 e in
    let same : xor c first ∷ r.0 ≡ coded = ground arith in
    let same_last : r.1 ≡ last = ground arith in
    rw⁻¹ (same, same_last) (rw (decode, later, xor-cancel c first v.0) refl)

rest_returns :
    (count before : ℕ) (buf : Bytes)
    → count ≤ length buf
    → returns (encode_rest count before buf) ≡ true
unfolding encode_rest
rest_returns zero before buf h = refl
rest_returns (suc count) before [] h = absurd (omega arith)
rest_returns (suc count) before (c ∷ buf) h =
    let (r, e) =
      returns-ok (encode_rest count (xor c before) buf)
        (rest_returns count (xor c before) buf (omega arith)) in
    rw e refl

encode-returns :
    (buf : Bytes) (count first : ℕ)
    → 1 ≤ count
    → count ≤ length buf
    → returns (encode buf count first) ≡ true
unfolding encode
encode-returns [] count first some_byte h = absurd (omega arith)
encode-returns (c ∷ buf) zero first some_byte h = absurd (omega arith)
encode-returns (c ∷ buf) (suc count) first some_byte h =
    let (r, e) =
      returns-ok (encode_rest count (xor c first) buf)
        (rest_returns count (xor c first) buf (omega arith)) in
    rw e refl

-- For a count of at least 1, up to the length of a buffer of bytes, `Encode` returns, and `Decode` with
-- the same count and the same first byte gives the buffer back and returns the same byte: with it as
-- the first byte of the next call, a text that is encoded in pieces is decoded in the same pieces.
pub decode-encode :
    (buf : Bytes) (count first : ℕ)
    → All IsByte buf
    → 1 ≤ count
    → count ≤ length buf
    → (coded : Bytes) × (last : ℕ) × (encode buf count first ≡ ok (coded, last))
      × (decode coded count first ≡ ok (buf, last))
decode-encode buf count first v some_byte fits =
    let ((coded, last), e) =
      returns-ok (encode buf count first) (encode-returns buf count first some_byte fits) in
    (coded, last, e, decode_back buf coded count first last v e)
