-- ===== src/Setup/Addresses.antt =====
-- The addresses of the host: `getLocalIP` and `isLocalIP` of svoiptunnel/util.cpp, as they are built where WIN32
-- is not defined.
pub mod Least
use svoiptunnel.Base.{
  Bool, Bytes, List, Option, [], false, if◌then◌else◌, ltb, none, some, true, ◌∷◌,
}

-- `gethostname`, none where it fails, and the addresses that `gethostbyname` finds, as `inet_ntoa` writes them.
pub record Host : Type 0 where
  pub host_name : Option Bytes
  pub lookup : Bytes → Option (List Bytes)

-- The order of `std::string`.
unfoldable pub text_less : Bytes → Bytes → Bool
text_less [] [] = false
text_less [] (y ∷ ys) = true
text_less (x ∷ xs) [] = false
text_less (x ∷ xs) (y ∷ ys) =
    let later = text_less xs ys in if ltb x y then true else if ltb y x then false else later

-- `set<string>::insert`, in a set as the list of its elements in order.
unfoldable pub insert_address : Bytes → List Bytes → List Bytes
unfolding text_less
insert_address k [] = k ∷ []
insert_address k (j ∷ m) =
    let later = insert_address k m in
    if text_less k j then k ∷ j ∷ m else if text_less j k then j ∷ later else j ∷ m

unfoldable pub insert_all : List Bytes → List Bytes → List Bytes
unfolding insert_address
insert_all [] m = m
insert_all (a ∷ addrs) m = insert_all addrs (insert_address a m)

-- Behind the name of the host.
abbrev insert_found : Option (List Bytes) → List Bytes → List Bytes × Bool
insert_found none m = (m, false)
insert_found (some addrs) m = (insert_all addrs m, true)

unfoldable pub get_local_ip : Host → List Bytes → List Bytes × Bool
unfolding insert_all
get_local_ip host m = elim host.host_name as (λ _. List Bytes × Bool) [
  | none ↦ (m, false)
  | some name ↦ insert_found (host.lookup name) m
]

-- `isLocalIP` does not look at the address.
unfoldable pub is_local_ip : Bytes → Bool
is_local_ip addr = true

-- What `main` finds, in order: the set is empty before.
unfoldable pub host_addresses : Host → Option (List Bytes)
unfolding get_local_ip
host_addresses host = let found = get_local_ip host [] in if found.1 then some found.0 else none
