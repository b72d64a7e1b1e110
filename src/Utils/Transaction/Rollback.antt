-- ===== src/Utils/Transaction/Rollback.antt =====
-- What a transaction undoes.
use linyaps.Prelude.{◌≡◌, refl, ap, ◌∙◌, List, [], ◌∷◌, ◌++◌, All}
use linyaps.Utils.Transaction.{Transaction, empty, add_roll_back, commit, run_back, destroy}

-- A step of a caller, and the rollback that it registers.
pub record Step {ℓ} (S : Type ℓ) : Type ℓ where
  pub act : S → S
  pub undo : S → S

module _ {ℓ} {S : Type ℓ} where
  abbrev pub IsUndone : Step S → Type ℓ
  IsUndone x = (s : S) → x.undo (x.act s) ≡ s

  -- A caller that does the steps and registers the rollback of each.
  unfoldable pub perform : List (Step S) → S → Transaction S → S × Transaction S
  unfolding add_roll_back
  perform [] s t = (s, t)
  perform (x ∷ xs) s t = perform xs (x.act s) (add_roll_back x.undo t)

  run_back-append :
      (fs : List (S → S)) (g : S → S) (s : S) → run_back (fs ++ g ∷ []) s ≡ run_back fs (g s)
  unfolding run_back
  run_back-append [] g s = refl
  run_back-append (f ∷ fs) g s = ap f (run_back-append fs g s)

  destroy-perform_after :
      (xs : List (Step S)) (s : S) (t : Transaction S)
      → All IsUndone xs
      → destroy (perform xs s t).1 (perform xs s t).0 ≡ destroy t s
  unfolding perform destroy
  destroy-perform_after [] s t h = refl
  destroy-perform_after (x ∷ xs) s t h =
      destroy-perform_after xs (x.act s) (add_roll_back x.undo t) h.1
      ∙ run_back-append t.rollbacks x.undo (x.act s)
      ∙ ap (run_back t.rollbacks) (h.0 s)

  -- If the rollback that each step of a caller registers undoes the step, a transaction that is
  -- destroyed after the steps gives the state before them back, and one that was committed leaves
  -- the state after them.
  pub destroy-perform :
      (xs : List (Step S)) (s : S)
      → All IsUndone xs
      → (destroy (perform xs s empty).1 (perform xs s empty).0 ≡ s)
        × (destroy (commit (perform xs s empty).1) (perform xs s empty).0 ≡ (perform xs s empty).0)
  destroy-perform xs s h =
      (destroy-perform_after xs s empty h ∙ (unfold destroy in refl), unfold destroy commit in refl)
