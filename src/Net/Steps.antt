-- ===== src/Net/Steps.antt =====
-- Completions of asynchronous operations one after the other, as `io_service::run` calls their handlers.
use svoiptunnel.Base.{
  All, All-append, List, Option-cases, [], arith, inl, inr, none, some, sym, ◌++◌, ◌∷◌, ◌≡◌, Option,
}
use mathlib.Core.Option
use mathlib.Core.Path.{subst}

-- What one completion does to a socket, and what it reports; none where nothing like that is outstanding.
module _ {C S R : Type 0} (complete : C → S → Option (S × List R)) where
  unfoldable pub all : List C → S → Option (S × List R)
  all [] s = some (s, [])
  all (c ∷ cs) s = elim (complete c s) [
    | none ↦ none
    | some r ↦ Option.map (λ t. (t.0, r.1 ++ t.1)) (all cs r.0)
  ]

  -- The first completion of several, and the others.
  pub record First (c : C) (cs : List C) (s t : S) (out : List R) : Type 0 where
    pub between : S
    pub before : List R
    pub behind : List R
    pub first : complete c s ≡ some (between, before)
    pub later : all cs between ≡ some (t, behind)
    pub joins : out ≡ before ++ behind

  pub head_of :
      (c : C) (cs : List C) (s t : S) (out : List R)
      → all (c ∷ cs) s ≡ some (t, out)
      → First c cs s t out
  unfolding all
  head_of c cs s t out h = elim (Option-cases (complete c s)) [
    | inl e ↦ absurd (ground arith)
    | inr ((s', a), e) ↦ elim (Option-cases (all cs s')) [
      | inl f ↦ absurd (ground arith)
      | inr ((t', b), f) ↦ record {
        between = s';
        before = a;
        behind = b;
        first = e;
        later = ground arith;
        joins = ground arith;
      }
    ]
  ]

  -- What each completion keeps, all keep; and what holds of the reports of each holds of all.
  pub all-Keeps :
      (P : S → Type 0) (Q : C → Type 0) (O : R → Type 0)
      → ((c : C) (s t : S) (out : List R)
          → P s
          → Q c
          → complete c s ≡ some (t, out)
          → P t × All O out)
      → (cs : List C) (s t : S) (out : List R) → P s
      → All Q cs
      → all cs s ≡ some (t, out)
      → P t × All O out
  unfolding all
  all-Keeps P Q O step [] s t out v g h =
      let e : s ≡ t = cc in let f : [] ≡ out = cc in (subst P e v, subst (All O) f tt)
  all-Keeps P Q O step (c ∷ cs) s t out v g h =
      let p = head_of c cs s t out h in
      let (v', q) = step c s p.between p.before v g.0 p.first in
      let (v'', q') = all-Keeps P Q O step cs p.between t p.behind v' g.1 p.later in
      (v'', subst (All O) (sym p.joins) (All-append O p.before p.behind q q'))

pub All-any {ℓ} : {A : Type ℓ} (xs : List A) → All {ℓ, 0} (λ _. Unit) xs
All-any [] = tt
All-any (x ∷ xs) = (tt, All-any xs)
