-- ===== src/Base/Dict.antt =====
-- `std::map` as an association list. `insert` keeps an entry that is there, as the program's does;
-- `assign` is `m[k] = v`.
use mathlib.Core.Path.{◌≡◌, refl}
use mathlib.Core.Bool.{Bool, true}
use mathlib.Core.Logic.{◌↔◌, inl, inr}
use mathlib.Core.Option.{Option, none, some}
use mathlib.Core.List.{List, [], ◌∷◌}
use native.Mathlib.Omega.{arith}
use Prim.Native.Nat.{ℕ, suc}
use svoiptunnel.Base.Tests.{◌==◌ as nat_beq, ==_iff, if◌then◌else◌, Bool-cases}
use svoiptunnel.Base.Lists.{length}
use svoiptunnel.Base.Text.{Bytes, same, same_iff}

pub record Eq {ℓ} (A : Type ℓ) : Type ℓ where
  pub beq : A → A → Bool
  pub beq_iff : (j k : A) → (beq j k ≡ true) ↔ (j ≡ k)

instance abbrev pub bytes_eq : Eq Bytes
bytes_eq = record { beq = same; beq_iff = same_iff }

instance abbrev pub nat_eq : Eq ℕ
nat_eq = record { beq_iff = ==_iff; beq = nat_beq }

abbrev pub Dict {ℓ κ} : Type ℓ → Type κ → Type (ℓ ⊔ κ)
Dict K V = List (K × V)

module _ {ℓ κ} {K : Type ℓ} {V : Type κ} ⦃e : Eq K⦄ where
  unfoldable pub find : K → Dict K V → Option V
  find k [] = none
  find k ((j, v) ∷ m) = if e.beq j k then some v else find k m

  unfoldable pub insert : K → V → Dict K V → Dict K V
  insert k v [] = (k, v) ∷ []
  insert k v ((j, w) ∷ m) = if e.beq j k then (j, w) ∷ m else (j, w) ∷ insert k v m

  unfoldable pub assign : K → V → Dict K V → Dict K V
  assign k v [] = (k, v) ∷ []
  assign k v ((j, w) ∷ m) = if e.beq j k then (j, v) ∷ m else (j, w) ∷ assign k v m

  unfoldable pub erase : K → Dict K V → Dict K V
  erase k [] = []
  erase k ((j, w) ∷ m) = let rest = erase k m in if e.beq j k then rest else (j, w) ∷ rest

  pub find-assign :
      (k j : K) (v : V) (m : Dict K V)
      → find j (assign k v m) ≡ (if e.beq k j then some v else find j m)
  unfolding find assign
  find-assign k j v [] = refl
  find-assign k j v ((i, w) ∷ m) =
      ground (arith, e.beq_iff k j, e.beq_iff i k, e.beq_iff i j, find-assign k j v m)

  pub find-erase :
      (k j : K) (m : Dict K V) → find j (erase k m) ≡ (if e.beq k j then none else find j m)
  unfolding find erase
  find-erase k j [] = ground arith
  find-erase k j ((i, w) ∷ m) =
      ground (arith, e.beq_iff k j, e.beq_iff i k, e.beq_iff i j, find-erase k j m)

  pub find-insert :
      (k j : K) (v : V) (m : Dict K V)
      → find k m ≡ none
      → find j (insert k v m) ≡ (if e.beq k j then some v else find j m)
  unfolding find insert
  find-insert k j v [] h = refl
  find-insert k j v ((i, w) ∷ m) h =
      ground (arith, e.beq_iff k j, e.beq_iff i k, e.beq_iff i j, find-insert k j v m)

module _ {ℓ κ} {K : Type ℓ} {V : Type κ} ⦃e : Eq K⦄ where
  -- Each key has one entry.
  abbrev pub IsKeyed : Dict K V → Type κ
  IsKeyed [] = Unit
  IsKeyed ((j, v) ∷ m) = (find j m ≡ none) × IsKeyed m

  pub IsKeyed-insert :
      (k : K) (v : V) (m : Dict K V) → find k m ≡ none → IsKeyed m → IsKeyed (insert k v m)
  unfolding insert find
  IsKeyed-insert k v [] h d = (refl, tt)
  IsKeyed-insert k v ((i, w) ∷ m) h d = elim (Bool-cases (e.beq i k)) [
    | inl same ↦ absurd (ground (arith, e.beq_iff i k))
    | inr other ↦ rw other (
      rw (find-insert k i v m (ground arith)) (ground (arith, e.beq_iff k i, e.beq_iff i k)),
      IsKeyed-insert k v m (ground arith) d.1,
    )
  ]

  pub length-insert :
      (k : K) (v : V) (m : Dict K V) → find k m ≡ none → length (insert k v m) ≡ suc (length m)
  unfolding insert find
  length-insert k v [] h = refl
  length-insert k v ((i, w) ∷ m) h = ground (arith, length-insert k v m)

  pub erase_absent : (k : K) (m : Dict K V) → find k m ≡ none → erase k m ≡ m
  unfolding erase find
  erase_absent k [] h = refl
  erase_absent k ((i, w) ∷ m) h = ground (arith, erase_absent k m)

  pub IsKeyed-erase : (k : K) (m : Dict K V) → IsKeyed m → IsKeyed (erase k m)
  unfolding erase
  IsKeyed-erase k [] d = tt
  IsKeyed-erase k ((i, w) ∷ m) d = elim (Bool-cases (e.beq i k)) [
    | inl same ↦ rw same (IsKeyed-erase k m d.1)
    | inr other ↦ rw other (rw (find-erase k i m) (ground (arith, d.0)), IsKeyed-erase k m d.1)
  ]

  pub length-erase :
      (k : K) (m : Dict K V) {v : V}
      → IsKeyed m
      → find k m ≡ some v
      → suc (length (erase k m)) ≡ length m
  unfolding erase find
  length-erase k [] d h = cc
  length-erase k ((i, w) ∷ m) {v} d h = elim (Bool-cases (e.beq i k)) [
    | inl same ↦ rw same (ground (arith, e.beq_iff i k, erase_absent k m))
    | inr other ↦ rw other (ground (arith, length-erase k m {v = v} d.1))
  ]

  pub assign-assign : (k : K) (v w : V) (m : Dict K V) → assign k v (assign k w m) ≡ assign k v m
  unfolding assign
  assign-assign k v w [] = ground (arith, e.beq_iff k k)
  assign-assign k v w ((i, u) ∷ m) = ground (arith, e.beq_iff i k, assign-assign k v w m)

  pub assign_same : (k : K) (v : V) (m : Dict K V) → find k m ≡ some v → assign k v m ≡ m
  unfolding assign find
  assign_same k v [] h = cc
  assign_same k v ((i, w) ∷ m) h = ground (arith, e.beq_iff i k, assign_same k v m)
