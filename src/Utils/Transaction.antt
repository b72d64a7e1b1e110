-- ===== src/Utils/Transaction.antt =====
-- libs/utils/src/linglong/utils/transaction.h: a `Transaction` runs its rollbacks, the last one
-- first, when it is destroyed, unless it was committed. A rollback with its arguments is a function
-- on the state that it may change; it throws nothing, which the code asserts when it is compiled.
pub mod Rollback
use linyaps.Prelude.{List, [], ◌∷◌, ◌++◌}

pub record Transaction {ℓ} (S : Type ℓ) : Type ℓ where
  pub rollbacks : List (S → S)

module _ {ℓ} {S : Type ℓ} where
  abbrev pub empty : Transaction S
  empty = record { rollbacks = [] }

  unfoldable pub add_roll_back : (S → S) → Transaction S → Transaction S
  add_roll_back func t = record { rollbacks = t.rollbacks ++ func ∷ [] }

  unfoldable pub commit : Transaction S → Transaction S
  commit t = record { rollbacks = [] }

  -- From the last to the first.
  unfoldable pub run_back : List (S → S) → S → S
  run_back [] s = s
  run_back (func ∷ funcs) s = func (run_back funcs s)

  -- The destructor.
  unfoldable pub destroy : Transaction S → S → S
  unfolding run_back
  destroy t s = run_back t.rollbacks s
