-- ===== src/Sip/Registry/Slots.antt =====
-- The vector of endpoints: what a slot holds after a write, and how many slots are taken.
use svoiptunnel.Base.{
  ℕ, zero, suc, ◌≤◌, ◌<◌, ◌≡◌, ◌≢◌, refl, List, [], ◌∷◌, ◌++◌, arith, length, set, ap, Option, none,
  some, if◌then◌else◌, ◌==◌,
}
use svoiptunnel.Sip.Registry.{SipEndpoint, slot, put_slot, first_free}

abbrev pub Slots : Type 0
Slots = List (Option SipEndpoint)

pub slot-set :
    (slots : Slots) (ch j : ℕ) (v : Option SipEndpoint)
    → ch < length slots
    → slot (set slots ch v) j ≡ (if ch == j then v else slot slots j)
slot-set [] ch j v h = absurd (omega arith)
slot-set (s ∷ slots) zero zero v h = refl
slot-set (s ∷ slots) zero (suc j) v h = ground arith
slot-set (s ∷ slots) (suc ch) zero v h = ground arith
slot-set (s ∷ slots) (suc ch) (suc j) v h = ground (arith, slot-set slots ch j v)

pub slot_beyond : (slots : Slots) (j : ℕ) → length slots ≤ j → slot slots j ≡ none
slot_beyond [] j h = refl
slot_beyond (s ∷ slots) zero h = absurd (omega arith)
slot_beyond (s ∷ slots) (suc j) h = slot_beyond slots j (omega arith)

pub slot_within :
    (slots : Slots) (j : ℕ) {e : SipEndpoint} → slot slots j ≡ some e → j < length slots
slot_within [] j h = cc
slot_within (s ∷ slots) zero h = omega arith
slot_within (s ∷ slots) (suc j) {e} h = omega (arith, slot_within slots j {e = e} h)

pub slot-push :
    (slots : Slots) (j : ℕ) (e : SipEndpoint)
    → slot (slots ++ some e ∷ []) j ≡ (if length slots == j then some e else slot slots j)
slot-push [] zero e = refl
slot-push [] (suc j) e = ground arith
slot-push (s ∷ slots) zero e = ground arith
slot-push (s ∷ slots) (suc j) e = ground (arith, slot-push slots j e)

-- A slot that `add_endpoint` may take: null, or the next one behind the end.
abbrev pub IsFree : Slots → ℕ → Type 0
IsFree slots ch = (ch ≤ length slots) × (slot slots ch ≡ none)

pub slot-put_slot :
    (slots : Slots) (ch j : ℕ) (e : SipEndpoint)
    → ch ≤ length slots
    → slot (put_slot ch e slots) j ≡ (if ch == j then some e else slot slots j)
unfolding put_slot
slot-put_slot slots ch j e h = ground (arith, slot-set slots ch j (some e), slot-push slots j e)

pub first_free-IsFree : (slots : Slots) → IsFree slots (first_free slots)
unfolding first_free
first_free-IsFree [] = (omega arith, refl)
first_free-IsFree (none ∷ slots) = (omega arith, refl)
first_free-IsFree (some e ∷ slots) =
    (omega (arith, (first_free-IsFree slots).0), (first_free-IsFree slots).1)

-- No slot before the first free one is null.
pub first_free-least : (slots : Slots) (j : ℕ) → j < first_free slots → slot slots j ≢ none
unfolding first_free
first_free-least [] j h = absurd (omega arith)
first_free-least (none ∷ slots) j h = absurd (omega arith)
first_free-least (some e ∷ slots) zero h = ground arith
first_free-least (some e ∷ slots) (suc j) h = first_free-least slots j (omega arith)

pub end-IsFree : (slots : Slots) → IsFree slots (length slots)
end-IsFree slots = (omega arith, slot_beyond slots (length slots) (omega arith))

abbrev pub taken : Slots → ℕ
taken [] = 0
taken (none ∷ slots) = taken slots
taken (some e ∷ slots) = suc (taken slots)

pub taken-le : (slots : Slots) → taken slots ≤ length slots
taken-le [] = omega arith
taken-le (none ∷ slots) = omega (arith, taken-le slots)
taken-le (some e ∷ slots) = omega (arith, taken-le slots)

taken-push : (slots : Slots) (e : SipEndpoint) → taken (slots ++ some e ∷ []) ≡ suc (taken slots)
taken-push [] e = refl
taken-push (none ∷ slots) e = taken-push slots e
taken-push (some x ∷ slots) e = ap suc (taken-push slots e)

taken-fill :
    (slots : Slots) (ch : ℕ) (e : SipEndpoint)
    → ch < length slots
    → slot slots ch ≡ none
    → taken (set slots ch (some e)) ≡ suc (taken slots)
taken-fill [] ch e h f = absurd (omega arith)
taken-fill (none ∷ slots) zero e h f = refl
taken-fill (some x ∷ slots) zero e h f = cc
taken-fill (none ∷ slots) (suc ch) e h f = taken-fill slots ch e (omega arith) f
taken-fill (some x ∷ slots) (suc ch) e h f = ap suc (taken-fill slots ch e (omega arith) f)

pub taken-put_slot :
    (slots : Slots) (ch : ℕ) (e : SipEndpoint)
    → IsFree slots ch
    → taken (put_slot ch e slots) ≡ suc (taken slots)
unfolding put_slot
taken-put_slot slots ch e f = ground (arith, taken-push slots e, taken-fill slots ch e)

pub taken-clear :
    (slots : Slots) (ch : ℕ) {e : SipEndpoint}
    → slot slots ch ≡ some e
    → suc (taken (set slots ch none)) ≡ taken slots
taken-clear [] ch f = cc
taken-clear (none ∷ slots) zero f = cc
taken-clear (some x ∷ slots) zero f = refl
taken-clear (none ∷ slots) (suc ch) {e} f = taken-clear slots ch {e = e} f
taken-clear (some x ∷ slots) (suc ch) {e} f = ap suc (taken-clear slots ch {e = e} f)

pub taken-replace :
    (slots : Slots) (ch : ℕ) (e' : SipEndpoint) {e : SipEndpoint}
    → slot slots ch ≡ some e
    → taken (set slots ch (some e')) ≡ taken slots
taken-replace [] ch e' f = cc
taken-replace (none ∷ slots) zero e' f = cc
taken-replace (some x ∷ slots) zero e' f = refl
taken-replace (none ∷ slots) (suc ch) e' {e} f = taken-replace slots ch e' {e = e} f
taken-replace (some x ∷ slots) (suc ch) e' {e} f = ap suc (taken-replace slots ch e' {e = e} f)
