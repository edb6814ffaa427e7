-- ===== src/Sip/Media/Kept.antt =====
-- The destructor of `sipcall` (svoiptunnel/sipcall.cpp), and the rest of the server.
use svoiptunnel.Base.{
  ℕ, zero, suc, ◌+◌, ◌%◌, ◌^◌, ◌≡◌, ◌∙◌, length, Bool-cases, inl, inr, ok, >>=-eq-ok, arith, ltb,
}
use svoiptunnel.Base.Dict.{nat_eq}
use svoiptunnel.Sip.Media.{Server, SipCall, del_data_port, del_data_ports}

-- What the end of a call leaves alone.
pub record IsKept (s s' : Server) : Type 0 where
  pub calls : s'.calls ≡ s.calls
  pub node : s'.node ≡ s.node
  pub registry : s'.registry ≡ s.registry

IsKept-trans : {s t u : Server} → IsKept s t → IsKept t u → IsKept s u
IsKept-trans a b = record {
  calls = b.calls ∙ a.calls;
  node = b.node ∙ a.node;
  registry = b.registry ∙ a.registry;
}

del_data_port-IsKept :
    (s : Server) (c : SipCall) (idx : ℕ) (s' : Server) (c' : SipCall)
    → del_data_port s c idx ≡ ok (s', c')
    → IsKept s s'
unfolding del_data_port
del_data_port-IsKept s c idx s' c' h = ground arith

pub del_data_ports-IsKept :
    (rounds idx : ℕ) (s : Server) (c : SipCall) (s' : Server)
    → del_data_ports rounds idx s c ≡ ok s'
    → IsKept s s'
unfolding del_data_ports
del_data_ports-IsKept zero idx s c s' h = ground arith
del_data_ports-IsKept (suc rounds) idx s c s' h = elim (Bool-cases (ltb idx (length c.slots))) [
  | inl more ↦
      let ((t, d), e, later) =
        >>=-eq-ok (del_data_port s c idx) (λ r. del_data_ports rounds ((idx + 1) % 2 ^ 16) r.0 r.1)
          (rw (more, del_data_ports) at h) in
      IsKept-trans (del_data_port-IsKept s c idx t d e)
        (del_data_ports-IsKept rounds _ t d s' later)
  | inr done ↦ ground arith
]
