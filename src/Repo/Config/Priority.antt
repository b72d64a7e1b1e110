-- ===== src/Repo/Config/Priority.antt =====
-- Repositories by priority: what is found first, and that a promotion is undone.
use linyaps.Prelude.{
  ◌≡◌, refl, ap, sym, ◌∙◌, subst, Bool, true, false, ◌||◌, none, some, List, [], ◌∷◌, Text, any,
  All, is_empty, arith, ℤ, int_lt, int_eq, int_lt-asym, int_lt-total, int_le_trans, int_eq→eq,
  int_eq_refl, int_lt-not_eq, Bool-cases, Option-cases, inl, inr,
}
use linyaps.Prelude.Maybe.{some-injective}
use linyaps.Repo.Config.{
  Repo, RepoConfigV2, find_repo, less, max_from, get_repo_max_priority, insert_ordered, sort_repos,
  copy_if_priority, highest_of, get_highest_priority_repos, set_priority, promote_priority,
  recover_priority, max_priority,
}

-- A priority that no repository exceeds, and that one has.
abbrev pub IsMax : ℤ → List Repo → Type 0
IsMax m rs =
    All (λ (r : Repo). int_lt m r.priority ≡ false) rs
    × (any (λ (r : Repo). int_eq r.priority m) rs ≡ true)

copy_if-insert :
    (p : ℤ) (x : Repo) (ys : List Repo)
    → copy_if_priority p (insert_ordered x ys) ≡ copy_if_priority p (x ∷ ys)
unfolding copy_if_priority insert_ordered
copy_if-insert p x [] = refl
copy_if-insert p x (y ∷ ys) =
    ground
      (arith, copy_if-insert p x ys, int_lt-not_eq x.priority y.priority, int_eq→eq x.priority p)

copy_if-sort : (p : ℤ) (xs : List Repo) → copy_if_priority p (sort_repos xs) ≡ copy_if_priority p xs
unfolding copy_if_priority sort_repos
copy_if-sort p [] = refl
copy_if-sort p (x ∷ xs) = ground (arith, copy_if-insert p x (sort_repos xs), copy_if-sort p xs)

-- There is one such priority at most.
IsMax-unique : (rs : List Repo) (m n : ℤ) → IsMax m rs → IsMax n rs → m ≡ n
IsMax-unique rs m n h k = int_lt-total m n (bounded m n rs h.0 k.1) (bounded n m rs k.0 h.1)
  where
    bounded :
        (p q : ℤ) (rs : List Repo)
        → All (λ (r : Repo). int_lt p r.priority ≡ false) rs
        → any (λ (r : Repo). int_eq r.priority q) rs ≡ true
        → int_lt p q ≡ false
    bounded p q [] a b = cc
    bounded p q (r ∷ rs) a b = elim (Bool-cases (int_eq r.priority q)) [
      | inl e ↦ subst (λ t. int_lt p t ≡ false) (int_eq→eq r.priority q e) a.0
      | inr e ↦ bounded p q rs a.1 (rw e at b)
    ]

All-weaken :
    (m n : ℤ) (rs : List Repo)
    → int_lt n m ≡ false
    → All (λ (r : Repo). int_lt m r.priority ≡ false) rs
    → All (λ (r : Repo). int_lt n r.priority ≡ false) rs
All-weaken m n [] h a = tt
All-weaken m n (r ∷ rs) h a = (int_le_trans r.priority m n a.0 h, All-weaken m n rs h a.1)

pick_right :
    (best r : Repo) (rs : List Repo) → less best r ≡ true → max_from best (r ∷ rs) ≡ max_from r rs
unfolding max_from
pick_right best r rs e = rw e

pick_left :
    (best r : Repo) (rs : List Repo)
    → less best r ≡ false
    → max_from best (r ∷ rs) ≡ max_from best rs
unfolding max_from
pick_left best r rs e = rw e

abbrev Bounds : Repo → List Repo → Repo → Type 0
Bounds r rs m = All (λ (x : Repo). int_lt m.priority x.priority ≡ false) (r ∷ rs)

abbrev Attained : Repo → Repo → List Repo → Repo → Type 0
Attained best r rs m = any (λ (x : Repo). int_eq x.priority m.priority) (best ∷ r ∷ rs) ≡ true

or_right : (a : Bool) {b : Bool} → b ≡ true → (a || b) ≡ true
or_right a h = ground arith

or_middle : (a b c : Bool) → (a || c) ≡ true → (a || (b || c)) ≡ true
or_middle a b c h = ground arith

max_from-le :
    (best : Repo) (rs : List Repo) → int_lt (max_from best rs).priority best.priority ≡ false
unfolding max_from
max_from-le best [] = ground arith
max_from-le best (r ∷ rs) = elim (Bool-cases (less best r)) [
  | inl e ↦
      rw (e, max_from)
        (int_le_trans best.priority r.priority (max_from r rs).priority
          (int_lt-asym best.priority r.priority e) (max_from-le r rs))
  | inr e ↦ rw (e, max_from) (max_from-le best rs)
]

max_from-bounds :
    (best : Repo) (rs : List Repo)
    → All (λ (r : Repo). int_lt (max_from best rs).priority r.priority ≡ false) rs
unfolding max_from
max_from-bounds best [] = tt
max_from-bounds best (r ∷ rs) = elim (Bool-cases (less best r)) [
  | inl e ↦
      subst (Bounds r rs) (sym (pick_right best r rs e)) (max_from-le r rs, max_from-bounds r rs)
  | inr e ↦ subst (Bounds r rs) (sym (pick_left best r rs e)) (
    int_le_trans r.priority best.priority (max_from best rs).priority e (max_from-le best rs),
    max_from-bounds best rs,
  )
]

max_from-attained :
    (best : Repo) (rs : List Repo)
    → any (λ (r : Repo). int_eq r.priority (max_from best rs).priority) (best ∷ rs) ≡ true
unfolding max_from
max_from-attained best [] = ground (arith, int_eq_refl best.priority)
max_from-attained best (r ∷ rs) = elim (Bool-cases (less best r)) [
  | inl e ↦
      subst (Attained best r rs) (sym (pick_right best r rs e))
        (or_right (int_eq best.priority (max_from r rs).priority) (max_from-attained r rs))
  | inr e ↦ subst (Attained best r rs) (sym (pick_left best r rs e)) (
      or_middle (int_eq best.priority (max_from best rs).priority)
        (int_eq r.priority (max_from best rs).priority)
        (any (λ (x : Repo). int_eq x.priority (max_from best rs).priority) rs)
        (max_from-attained best rs))
]

max_from-IsMax : (best : Repo) (rs : List Repo) → IsMax (max_from best rs).priority (best ∷ rs)
max_from-IsMax best rs = ((max_from-le best rs, max_from-bounds best rs), max_from-attained best rs)

insert-All :
    (m : ℤ) (x : Repo) (ys : List Repo)
    → All (λ (r : Repo). int_lt m r.priority ≡ false) (x ∷ ys)
    → All (λ (r : Repo). int_lt m r.priority ≡ false) (insert_ordered x ys)
unfolding insert_ordered
insert-All m x [] h = h
insert-All m x (y ∷ ys) h = elim (Bool-cases (less x y)) [
  | inl e ↦ rw e (h.1.0, insert-All m x ys (h.0, h.1.1))
  | inr e ↦ rw e h
]

insert-any :
    (m : ℤ) (x : Repo) (ys : List Repo)
    → any (λ (r : Repo). int_eq r.priority m) (insert_ordered x ys)
      ≡ any (λ (r : Repo). int_eq r.priority m) (x ∷ ys)
unfolding insert_ordered
insert-any m x [] = refl
insert-any m x (y ∷ ys) = ground (arith, insert-any m x ys)

sort-All :
    (m : ℤ) (rs : List Repo)
    → All (λ (r : Repo). int_lt m r.priority ≡ false) rs
    → All (λ (r : Repo). int_lt m r.priority ≡ false) (sort_repos rs)
unfolding sort_repos
sort-All m [] h = tt
sort-All m (x ∷ xs) h = insert-All m x (sort_repos xs) (h.0, sort-All m xs h.1)

sort-any :
    (m : ℤ) (rs : List Repo)
    → any (λ (r : Repo). int_eq r.priority m) (sort_repos rs)
      ≡ any (λ (r : Repo). int_eq r.priority m) rs
unfolding sort_repos
sort-any m [] = refl
sort-any m (x ∷ xs) = ground (arith, insert-any m x (sort_repos xs), sort-any m xs)

sort-IsMax : (m : ℤ) (rs : List Repo) → IsMax m rs → IsMax m (sort_repos rs)
sort-IsMax m rs h = (sort-All m rs h.0, sort-any m rs ∙ h.1)

-- The first repository is exceeded by none.
abbrev HeadIsMax : List Repo → Type 0
HeadIsMax [] = Unit
HeadIsMax (x ∷ xs) = All (λ (r : Repo). int_lt x.priority r.priority ≡ false) xs

insert-HeadIsMax : (x : Repo) (ys : List Repo) → HeadIsMax ys → HeadIsMax (insert_ordered x ys)
unfolding insert_ordered
insert-HeadIsMax x [] h = tt
insert-HeadIsMax x (y ∷ ys) h = elim (Bool-cases (less x y)) [
  | inl e ↦ rw e (insert-All y.priority x ys (int_lt-asym x.priority y.priority e, h))
  | inr e ↦ rw e (e, All-weaken y.priority x.priority ys e h)
]

sort-HeadIsMax : (rs : List Repo) → HeadIsMax (sort_repos rs)
unfolding sort_repos
sort-HeadIsMax [] = tt
sort-HeadIsMax (x ∷ xs) = insert-HeadIsMax x (sort_repos xs) (sort-HeadIsMax xs)

-- Of a list whose first repository is exceeded by none, those of its priority.
highest_of-max :
    (m : ℤ) (rs : List Repo) → HeadIsMax rs → IsMax m rs → highest_of rs ≡ copy_if_priority m rs
unfolding highest_of
highest_of-max m [] h k = absurd (cc)
highest_of-max m (x ∷ xs) h k =
    ap (λ p. copy_if_priority p (x ∷ xs))
      (IsMax-unique (x ∷ xs) x.priority m
        ((ground arith, h), ground (arith, int_eq_refl x.priority)) k)

-- `getRepoMaxPriority` gives the greatest priority.
pub get_repo_max_priority-IsMax :
    (cfg : RepoConfigV2) (m : ℤ) → get_repo_max_priority cfg ≡ some m → IsMax m cfg.repos
unfolding get_repo_max_priority
get_repo_max_priority-IsMax cfg m h = go cfg.repos h
  where
    go :
        (rs : List Repo)
        → elim rs [ [] ↦ none | r ∷ rs ↦ some (max_from r rs).priority ] ≡ some m
        → IsMax m rs
    go [] k = absurd (cc)
    go (r ∷ rs) k = subst (λ p. IsMax p (r ∷ rs)) (some-injective k) (max_from-IsMax r rs)

-- The repositories of highest priority are those whose priority is the greatest, as
-- `getRepoMaxPriority` finds it, in the order in which they are configured.
pub get_highest_priority_repos-max :
    (cfg : RepoConfigV2) (m : ℤ)
    → get_repo_max_priority cfg ≡ some m
    → get_highest_priority_repos cfg ≡ copy_if_priority m cfg.repos
unfolding get_highest_priority_repos
get_highest_priority_repos-max cfg m h =
    highest_of-max m (sort_repos cfg.repos) (sort-HeadIsMax cfg.repos)
      (sort-IsMax m cfg.repos (get_repo_max_priority-IsMax cfg m h))
    ∙ copy_if-sort m cfg.repos

-- Where there are repositories, `getRepoMaxPriority` gives the greatest priority, and the
-- repositories of highest priority are those of that priority, in the order in which they are
-- configured.
pub get_highest_priority_repos-IsMax :
    (cfg : RepoConfigV2)
    → is_empty cfg.repos ≡ false
    → (m : ℤ) × (get_repo_max_priority cfg ≡ some m)
      × IsMax m cfg.repos
      × (get_highest_priority_repos cfg ≡ copy_if_priority m cfg.repos)
get_highest_priority_repos-IsMax cfg h = elim (Option-cases (get_repo_max_priority cfg)) [
  | inl e ↦ absurd (unfold get_repo_max_priority in (ground arith))
  | inr (m, e) ↦ (m, e, get_repo_max_priority-IsMax cfg m e, get_highest_priority_repos-max cfg m e)
]

-- Setting the priority of the repository of a name and setting it back changes nothing.
set_priority-twice :
    (alias : Text) (p : ℤ) (rs : List Repo) (r : Repo)
    → find_repo alias rs ≡ some r
    → set_priority alias r.priority (set_priority alias p rs) ≡ rs
unfolding set_priority find_repo
set_priority-twice alias p [] r h = refl
set_priority-twice alias p (x ∷ rs) r h = ground (arith, set_priority-twice alias p rs r)

-- Promoting the repository of an alias gives back the priority that it had, and recovering that
-- priority leaves the configuration as it was.
pub recover-promote :
    (cfg : RepoConfigV2) (alias : Text) (r : Repo)
    → find_repo alias cfg.repos ≡ some r
    → ((promote_priority cfg alias).1 ≡ some r.priority)
      × (recover_priority (promote_priority cfg alias).0 alias r.priority ≡ cfg)
unfolding promote_priority recover_priority
recover-promote cfg alias r h = (
  rw h refl,
  ap (λ rs. record cfg { repos = rs }) (set_priority-twice alias max_priority cfg.repos r h),
)
