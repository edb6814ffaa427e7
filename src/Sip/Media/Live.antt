-- ===== src/Sip/Media/Live.antt =====
-- The data connections that the slots of a call share with the server.
use svoiptunnel.Base.{
  ℕ, zero, suc, ◌≡◌, refl, ◌∙◌, Bool, false, List, [], ◌∷◌, set, get_elem?, All, Option, none, some,
  Bool-cases, inl, inr, if◌then◌else◌, arith, ◌==◌, ◌||◌,
}
use svoiptunnel.Base.Dict.{nat_eq}
use svoiptunnel.Sip.Media.{DataConn}

-- A slot with a data connection that was made.
pub record IsLive (conns : List DataConn) (slot : Option ℕ) : Type 0 where
  pub ref : ℕ
  pub conn : DataConn
  pub filled : slot ≡ some ref
  pub made : get_elem? conns ref ≡ some conn

-- Whether one of the slots has a connection with the local port.
abbrev pub has_port : List DataConn → Option ℕ → ℕ → Bool
has_port conns none p = false
has_port conns (some ref) p = elim (get_elem? conns ref) [
  | none ↦ false
  | some d ↦ d.local_port == p
]

abbrev pub owns : List DataConn → List (Option ℕ) → ℕ → Bool
owns conns [] p = false
owns conns (slot ∷ slots) p = has_port conns slot p || owns conns slots p

unfoldable pub closed : DataConn → DataConn
closed d = record d { is_open = false }

-- A write in range, at each index.
pub get_elem?-set {ℓ} :
    {A : Type ℓ} (xs : List A) (i j : ℕ) (x a : A)
    → get_elem? xs i ≡ some a
    → get_elem? (set xs i x) j ≡ (if i == j then some x else get_elem? xs j)
get_elem?-set [] i j x a h = cc
get_elem?-set (y ∷ xs) zero zero x a h = refl
get_elem?-set (y ∷ xs) zero (suc j) x a h = ground arith
get_elem?-set (y ∷ xs) (suc i) zero x a h = ground arith
get_elem?-set (y ∷ xs) (suc i) (suc j) x a h = get_elem?-set xs i j x a h ∙ ground arith

module _ (conns : List DataConn) (ref : ℕ) (d : DataConn)
    (made : get_elem? conns ref ≡ some d) where
  has_port-closed :
      (slot : Option ℕ) (p : ℕ) → has_port (set conns ref (closed d)) slot p ≡ has_port conns slot p
  unfolding closed
  has_port-closed none p = refl
  has_port-closed (some r) p = ground (arith, get_elem?-set conns ref r (closed d) d made)

  pub owns-closed :
      (slots : List (Option ℕ)) (p : ℕ)
      → owns (set conns ref (closed d)) slots p ≡ owns conns slots p
  owns-closed [] p = refl
  owns-closed (slot ∷ slots) p = rw (has_port-closed slot p, owns-closed slots p)

  IsLive-closed : (slot : Option ℕ) → IsLive conns slot → IsLive (set conns ref (closed d)) slot
  IsLive-closed slot v = elim (Bool-cases (ref == v.ref)) [
    | inl hit ↦ record {
      ref = v.ref;
      conn = closed d;
      filled = v.filled;
      made = get_elem?-set conns ref v.ref (closed d) d made ∙ rw hit;
    }
    | inr miss ↦ record {
      ref = v.ref;
      conn = v.conn;
      filled = v.filled;
      made = get_elem?-set conns ref v.ref (closed d) d made ∙ rw miss v.made;
    }
  ]

  pub All-closed :
      (slots : List (Option ℕ))
      → All (IsLive conns) slots
      → All (IsLive (set conns ref (closed d))) slots
  All-closed [] v = tt
  All-closed (slot ∷ slots) v = (IsLive-closed slot v.0, All-closed slots v.1)
