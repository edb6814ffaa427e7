-- ===== src/Vpn/Endpoints.antt =====
-- Equality of endpoints, the keys of `_VpnLinkMap` in svoiptunnel/vpnlinkbase.h.
use svoiptunnel.Base.{Bool, true, ◌&&◌, ◌==◌, same, same_iff, ◌≡◌, ◌↔◌, arith}
use svoiptunnel.Base.Dict.{Eq}
use svoiptunnel.Vpn.Link.{Endpoint}

abbrev pub same_endpoint : Endpoint → Endpoint → Bool
same_endpoint a b = same a.address b.address && a.port == b.port

pub same_endpoint_iff : (a b : Endpoint) → (same_endpoint a b ≡ true) ↔ (a ≡ b)
same_endpoint_iff a b = ground (arith, same_iff a.address b.address)

instance abbrev pub endpoint_eq : Eq Endpoint
endpoint_eq = record { beq = same_endpoint; beq_iff = same_endpoint_iff }
