-- ===== src/Sip/Headers/Reading.antt =====
-- What single header lines are read as, for the loops of both directions.
use svoiptunnel.Base.{
  ℕ, ◌≡◌, sym, ap, false, List, [], ◌∷◌, ◌++◌, append_assoc, append-nil, Bytes, All, codes,
  is_empty, ok,
}
use svoiptunnel.Sip.Boost.{Boost}
use svoiptunnel.Sip.Lines.{print_lines, IsLine}
use svoiptunnel.Sip.Headers.{
  Headers, keep_line, read_content_type, read_content_length, read_call_id,
}
use svoiptunnel.Sip.Headers.Fields.{
  Field, content_type, call_id, to, content_length, print_field, print_fields, IsRead, IsField,
  grep_one-Finds, passes_on,
}

-- Two lines, one after the other.
pub keep_two : (a b : Bytes) (h : Headers) → keep_line b (keep_line a h) ≡ passes_on (a ∷ b ∷ []) h
keep_two a b h = ap (λ t. record h { out = t }) (simp append_assoc)

-- An address, written piece by piece.
pub to_text :
    (user host : Bytes)
    → codes "To: <" ++ user ++ codes "@" ++ host ++ codes ">\r\n"
      ≡ print_lines (print_field (to user host) ∷ []) []
to_text user host = simp append_assoc

pub passes_none : (h : Headers) → h ≡ passes_on [] h
passes_none h = ap (λ t. record h { out = t }) (sym (append-nil h.out))

pub standing :
    (boost : Boost) (fs : List Field)
    → All (IsField boost) fs
    → All (λ line. IsLine line × (is_empty line ≡ false)) (print_fields fs)
standing boost [] r = tt
standing boost (f ∷ fs) r = ((r.0.0, r.0.1), standing boost fs r.1)

module _ (boost : Boost) (h : Headers) where
  pub read_content_type_lem :
      (v : Bytes)
      → IsRead boost (content_type v)
      → read_content_type boost h (print_field (content_type v)) ≡ record h { content_type = v }
  unfolding read_content_type
  read_content_type_lem v r = rw (read_content_type, grep_one-Finds boost _ _ v r)

  pub read_content_length_lem :
      (text : Bytes) (n : ℕ)
      → IsRead boost (content_length text n)
      → read_content_length boost h (print_field (content_length text n))
        ≡ ok (record h { content_length = n })
  unfolding read_content_length
  read_content_length_lem text n r =
      rw (read_content_length, grep_one-Finds boost _ _ text r.0, r.1)

  pub read_call_id_lem :
      (v : Bytes)
      → IsRead boost (call_id v)
      → read_call_id boost h (print_field (call_id v))
        ≡ keep_line (print_field (call_id v)) (record h { call_id = v })
  unfolding read_call_id
  read_call_id_lem v r = rw (read_call_id, grep_one-Finds boost _ _ v r)
