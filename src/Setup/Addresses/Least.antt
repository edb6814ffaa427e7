-- ===== src/Setup/Addresses/Least.antt =====
-- The address that `main` of svoiptunnel/voiptunnel.cpp takes from those of svoiptunnel/util.cpp is the least text.
use svoiptunnel.Base.{
  All, ap, Bool-cases, Bytes, List, [], arith, false, inl, inr, refl, some, true, ◌∷◌, ◌≡◌, ◌⊎◌,
  ◌∙◌,
}
use svoiptunnel.Setup.Addresses.{
  Host, get_local_ip, host_addresses, insert_address, insert_all, text_less,
}

text_less_trans :
    (x y z : Bytes) → text_less x y ≡ true → text_less y z ≡ true → text_less x z ≡ true
unfolding text_less
text_less_trans [] [] z h k = cc
text_less_trans [] (y ∷ ys) [] h k = cc
text_less_trans [] (y ∷ ys) (z ∷ zs) h k = refl
text_less_trans (x ∷ xs) [] z h k = cc
text_less_trans (x ∷ xs) (y ∷ ys) [] h k = cc
text_less_trans (x ∷ xs) (y ∷ ys) (z ∷ zs) h k = ground (arith, text_less_trans xs ys zs)

text_less_irrefl : (x : Bytes) → text_less x x ≡ false
unfolding text_less
text_less_irrefl [] = refl
text_less_irrefl (x ∷ xs) = ground (arith, text_less_irrefl xs)

-- No text of a list comes before a text.
abbrev pub NoneBefore : Bytes → List Bytes → Type 0
NoneBefore k xs = All (λ a. text_less a k ≡ false) xs

text_less_through :
    (x y z : Bytes) → text_less x y ≡ true → text_less z y ≡ false → text_less x z ≡ true
unfolding text_less
text_less_through [] [] z h k = cc
text_less_through [] (y ∷ ys) [] h k = cc
text_less_through [] (y ∷ ys) (z ∷ zs) h k = refl
text_less_through (x ∷ xs) [] z h k = cc
text_less_through (x ∷ xs) (y ∷ ys) [] h k = cc
text_less_through (x ∷ xs) (y ∷ ys) (z ∷ zs) h k = ground (arith, text_less_through xs ys zs)

abbrev pub IsIn : Bytes → List Bytes → Type 0
IsIn k [] = ⊥
IsIn k (x ∷ xs) = (k ≡ x) ⊎ IsIn k xs

-- A set that starts with a text which is one of a list, and which none of the list comes before.
abbrev pub StartsLeast : List Bytes → List Bytes → Type 0
StartsLeast xs m = (k : Bytes) × (rest : List Bytes) × (m ≡ k ∷ rest) × IsIn k xs × NoneBefore k xs

inserted-first :
    (a k : Bytes) (rest : List Bytes)
    → text_less a k ≡ false
    → (more : List Bytes) × (insert_address a (k ∷ rest) ≡ k ∷ more)
unfolding insert_address
inserted-first a k rest h = elim (Bool-cases (text_less k a)) [
  | inl later ↦ (insert_address a rest, rw (h, later) refl)
  | inr equal ↦ (rest, rw (h, equal) refl)
]

inserted-before :
    (a k : Bytes) (rest : List Bytes)
    → text_less a k ≡ true
    → insert_address a (k ∷ rest) ≡ a ∷ k ∷ rest
unfolding insert_address
inserted-before a k rest h = rw h refl

IsIn-more : (j k a : Bytes) (addrs : List Bytes) → IsIn j (k ∷ addrs) → IsIn j (k ∷ a ∷ addrs)
IsIn-more j k a addrs (inl e) = inl e
IsIn-more j k a addrs (inr there) = inr (inr there)

insert_all-StartsLeast :
    (addrs : List Bytes) (k : Bytes) (rest : List Bytes)
    → StartsLeast (k ∷ addrs) (insert_all addrs (k ∷ rest))
unfolding insert_all
insert_all-StartsLeast [] k rest = (k, rest, refl, inl refl, (text_less_irrefl k, tt))
insert_all-StartsLeast (a ∷ addrs) k rest = elim (Bool-cases (text_less a k)) [
  | inl before ↦
      let (j, more, e, there, n) = insert_all-StartsLeast addrs a (k ∷ rest) in
      (
        j,
        more,
        ap (insert_all addrs) (inserted-before a k rest before) ∙ e,
        inr there,
        (ground (arith, text_less_trans a k j, n.0), n),
      )
  | inr after ↦
      let (rest', f) = inserted-first a k rest after in
      let (j, more, e, there, n) = insert_all-StartsLeast addrs k rest' in
      (
        j,
        more,
        ap (insert_all addrs) f ∙ e,
        IsIn-more j k a addrs there,
        (n.0, (ground (arith, text_less_through a j k, n.0), n.1)),
      )
]

-- Where the host has a name for which addresses are found, at least one of them, `getLocalIP` succeeds, and
-- the set that `main` takes the first element of starts with one of them, which none of the others comes
-- before as a text.
pub get_local_ip-StartsLeast :
    (host : Host) (name a : Bytes) (addrs : List Bytes)
    → host.host_name ≡ some name
    → host.lookup name ≡ some (a ∷ addrs)
    → (m : List Bytes) × (host_addresses host ≡ some m) × StartsLeast (a ∷ addrs) m
unfolding host_addresses get_local_ip insert_all insert_address
get_local_ip-StartsLeast host name a addrs h k =
    (insert_all addrs (a ∷ []), rw (h, k) refl, insert_all-StartsLeast addrs a [])
