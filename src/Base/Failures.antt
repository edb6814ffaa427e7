-- ===== src/Base/Failures.antt =====
-- What a call of the program can do: return a value, or stop with an exception or a memory fault.
use mathlib.Core.Path.{◌≡◌, refl, subst}
use mathlib.Core.Bool.{Bool, true, false}
use mathlib.Core.Option.{Option, none, some}
use svoiptunnel.Base.Tests.{if◌then◌else◌}

pub data Failure : Type 0 where
  -- exceptions that no handler below `main` catches
  bad_lexical_cast length_error system_error : Failure
  -- undefined behaviour
  buffer_overflow over_read null_pointer dangling_pointer : Failure
  -- `OPENSSL_assert` ends the process
  aborts : Failure

pub data Outcome {ℓ} (A : Type ℓ) : Type ℓ where
  ok : A → Outcome A
  fails : Failure → Outcome A

infixl 5 ◌>>=◌
abbrev pub ◌>>=◌ {ℓ κ} : {S : Type ℓ} {T : Type κ} → Outcome S → (S → Outcome T) → Outcome T
ok s >>= next = next s
fails why >>= next = fails why

-- What a chain that returns has passed through.
pub >>=-eq-ok {ℓ κ} :
    {S : Type ℓ} {T : Type κ} {t : T} (first : Outcome S) (next : S → Outcome T)
    → first >>= next ≡ ok t
    → (s : S) × (first ≡ ok s) × (next s ≡ ok t)
>>=-eq-ok (fails why) next done = cc
>>=-eq-ok (ok s) next done = (s, refl, done)

-- Whether a call returns.
abbrev pub returns {ℓ} : {A : Type ℓ} → Outcome A → Bool
returns (ok a) = true
returns (fails e) = false

pub returns-ok {ℓ} : {A : Type ℓ} (m : Outcome A) → returns m ≡ true → (a : A) × (m ≡ ok a)
returns-ok (ok a) h = (a, refl)
returns-ok (fails e) h = cc

-- If it returns, the result has the property.
abbrev pub Ensures {ℓ} : {A : Type ℓ} → (A → Type 0) → Outcome A → Type 0
Ensures P (ok a) = P a
Ensures P (fails why) = Unit

pub Ensures->>= {ℓ κ} :
    {S : Type ℓ} {T : Type κ} (P : S → Type 0) (Q : T → Type 0) (first : Outcome S)
    (next : S → Outcome T)
    → Ensures P first
    → ((s : S) → P s → Ensures Q (next s))
    → Ensures Q (first >>= next)
Ensures->>= P Q (ok s) next h go_on = go_on s h
Ensures->>= P Q (fails why) next h go_on = tt

pub Ensures-ok {ℓ} :
    {A : Type ℓ} (P : A → Type 0) (o : Outcome A) (a : A) → Ensures P o → o ≡ ok a → P a
Ensures-ok P o a h e = subst (Ensures P) e h

pub Ensures-if {ℓ} :
    {A : Type ℓ} (P : A → Type 0) (b : Bool) (x y : Outcome A)
    → Ensures P x
    → Ensures P y
    → Ensures P (if b then x else y)
Ensures-if P true x y h k = h
Ensures-if P false x y h k = k

pub any {ℓ} : {A : Type ℓ} (o : Outcome A) → Ensures (λ _. Unit) o
any (ok a) = tt
any (fails why) = tt

pub Ensures-elim {ℓ κ} :
    {A : Type ℓ} {B : Type κ} (P : A → Type 0) (o : Option B) (x : Outcome A) (f : B → Outcome A)
    → Ensures P x
    → ((b : B) → o ≡ some b → Ensures P (f b))
    → Ensures P (elim o as (λ _. Outcome A) [ none ↦ x | some b ↦ f b ])
Ensures-elim P none x f h k = h
Ensures-elim P (some b) x f h k = k b refl
