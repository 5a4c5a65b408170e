-- ===== src/Compaction/Due.antt =====
-- The policy of nontainer/compaction.py.
use nontainer.Prelude.{
  ℕ, Bool, true, false, Option, none, some, ◌≡◌, refl, ltb, ◌==◌, ◌||◌, if◌then◌else◌, arith, ap,
  sym, ◌∙◌,
}
use nontainer.Compaction.Folds.{Policy, create_policy, due, fits}

from_some : Policy → Option Policy → Policy
from_some p none = p
from_some p (some q) = q

some_only :
    (b : Bool) (p q : Policy) → (if b then none else some p) ≡ some q → (b ≡ false) × (p ≡ q)
unfolding from_some
some_only true p q h = absurd (cc)
some_only false p q h = (refl, ap (from_some p) h)

-- A request that does not fit in the window of a policy that was created is one that a fold is due
-- at, so a fold is never first due after the window is full.
pub create_policy-due :
    (budget : ℕ) (window : Option ℕ) (policy : Policy) (tokens : ℕ)
    → create_policy budget window ≡ some policy
    → fits policy tokens ≡ false
    → due policy tokens ≡ true
unfolding create_policy due fits
create_policy-due budget none policy tokens h e =
    let (positive, same) =
      some_only (budget == 0) (record { budget = budget; window = none }) policy h in
    absurd (cc (sym e ∙ ap (λ p. fits p tokens) (sym same)))
create_policy-due budget (some w) policy tokens h e =
    let (positive, same) =
      some_only ((budget == 0) || ltb w budget) (record { budget = budget; window = some w }) policy
        h in
    let late : ltb tokens w ≡ false = ap (λ p. fits p tokens) same ∙ e in
    ap (λ p. due p tokens) (sym same) ∙ ground arith
