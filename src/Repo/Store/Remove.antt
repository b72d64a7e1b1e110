-- ===== src/Repo/Store/Remove.antt =====
-- repo/ostree_repo.cpp: `removeOstreeRef` and `remove` keep the cache and the refs of OSTree together.
use linyaps.Prelude.{
  ◌≡◌, refl, sym, ap, subst, ◌∙◌, Bool, true, false, not, ◌&&◌, Option, some, List, [], ◌∷◌, Text,
  text_eq, All, any, keep_if, Memᴰ, Mem-All, text_eq→eq, arith, Bool-cases, Option-cases, is_empty,
  inl, inr,
}
use linyaps.Error.{Result, ok, err, module_empty}
use linyaps.Qt.{Qt}
use linyaps.Semver.{Semver}
use linyaps.Package.Reference.{Reference}
use linyaps.Repo.Config.{RepoConfigV2, alias_or, get_default_repo}
use linyaps.Repo.Cache.{LayersItem, RepoCache, Disk, erase_matching, matches, delete_layer_item}
use linyaps.Package.Reference.{front}
use linyaps.Repo.Cache.Layers.{text_eq_comm}
use linyaps.Repo.Cache.Erase.{All-erase, member-tail, find-Mem, delete-layers}
use linyaps.Repo.Cache.Query.{selects}
use linyaps.Repo.Store.Lookup.{IsFound, fits, get_layer_item-IsFound}
use linyaps.Repo.Store.{
  OstreeRepo, ostree_ref_spec_from_layer_item, delete_item, remove_ostree_ref, drop_ref, layer_dir,
  after_ref, remove_layer, remove, get_layer_item, new_module, item_query,
}

-- No two layers have the same ref.
abbrev pub HasOwnRefs : List LayersItem → Type 0
HasOwnRefs [] = Unit
HasOwnRefs (x ∷ xs) =
    All
      (λ y. text_eq (ostree_ref_spec_from_layer_item x) (ostree_ref_spec_from_layer_item y) ≡ false)
      xs
    × HasOwnRefs xs

-- The ref of each layer is in the OSTree repository.
abbrev pub HasRefs : List Text → List LayersItem → Type 0
HasRefs refs layers =
    All (λ x. any (text_eq (ostree_ref_spec_from_layer_item x)) refs ≡ true) layers

matches-spec :
    (x y : LayersItem)
    → matches x y ≡ true
    → ostree_ref_spec_from_layer_item x ≡ ostree_ref_spec_from_layer_item y
unfolding matches ostree_ref_spec_from_layer_item linyaps.Repo.Store.ostree_ref_from_layer_item
matches-spec x y h =
    rw
      (
        text_eq→eq x.repo y.repo (ground (arith, h)),
        text_eq→eq x.info.channel y.info.channel (ground (arith, h)),
        text_eq→eq x.info.id y.info.id (ground (arith, h)),
        text_eq→eq x.info.version y.info.version (ground (arith, h)),
        text_eq→eq (front x.info.arch) (front y.info.arch) (ground (arith, h)),
        text_eq→eq x.info.module_name y.info.module_name (ground (arith, h)),
      )
      refl

abbrev pub IsOther : LayersItem → LayersItem → Type 0
IsOther x y =
    text_eq (ostree_ref_spec_from_layer_item x) (ostree_ref_spec_from_layer_item y) ≡ false

HasOwnRefs-erase :
    (item : LayersItem) (xs : List LayersItem) → HasOwnRefs xs → HasOwnRefs (erase_matching item xs)
unfolding erase_matching
HasOwnRefs-erase item [] u = tt
HasOwnRefs-erase item (x ∷ xs) u = elim (Bool-cases (matches item x)) [
  | inl e ↦ rw e u.1
  | inr e ↦ rw e (All-erase (IsOther x) item xs u.0, HasOwnRefs-erase item xs u.1)
]

-- The layers that are left have other refs.
erase-IsOther :
    (item : LayersItem) (xs : List LayersItem)
    → HasOwnRefs xs
    → Memᴰ item xs
    → All (IsOther item) (erase_matching item xs)
unfolding erase_matching
erase-IsOther item [] u m = tt
erase-IsOther item (x ∷ xs) u m = elim (Bool-cases (matches item x)) [
  | inl e ↦
      let IsApart : Text → Type 0 =
        λ spec. All (λ y. text_eq spec (ostree_ref_spec_from_layer_item y) ≡ false) xs in
      rw e (subst IsApart (sym (matches-spec item x e)) u.0)
  | inr e ↦
      let later = member-tail item x xs e m in
      let other =
        text_eq_comm (ostree_ref_spec_from_layer_item item) (ostree_ref_spec_from_layer_item x)
        ∙ Mem-All (IsOther x) item xs later u.0 in
      rw e (other, erase-IsOther item xs u.1 later)
]

pub any-kept :
    (ref t : Text) (refs : List Text)
    → text_eq ref t ≡ false
    → any (text_eq t) refs ≡ true
    → any (text_eq t) (keep_if (λ other. not (text_eq ref other)) refs) ≡ true
any-kept ref t [] h k = k
any-kept ref t (r ∷ rs) h k = elim (Bool-cases (text_eq ref r)) [
  | inl e ↦
      let differs = text_eq_comm t r ∙ ap (λ u. text_eq u t) (sym (text_eq→eq ref r e)) ∙ h in
      rw e (any-kept ref t rs h (ground (arith, differs, k)))
  | inr e ↦ elim (Bool-cases (text_eq t r)) [
    | inl f ↦ rw e (rw f refl)
    | inr f ↦ rw e (rw f (any-kept ref t rs h (ground (arith, f, k))))
  ]
]

HasRefs-drop :
    (ref : Text) (refs : List Text) (xs : List LayersItem)
    → All (λ x. text_eq ref (ostree_ref_spec_from_layer_item x) ≡ false) xs
    → HasRefs refs xs
    → HasRefs (keep_if (λ other. not (text_eq ref other)) refs) xs
HasRefs-drop ref refs [] o hs = tt
HasRefs-drop ref refs (x ∷ xs) o hs = (
  any-kept ref (ostree_ref_spec_from_layer_item x) refs o.0 hs.0,
  HasRefs-drop ref refs xs o.1 hs.1,
)

abbrev pub IsTogether : OstreeRepo → Type 0
IsTogether s = HasOwnRefs s.cache.cache.layers × HasRefs s.refs s.cache.cache.layers

any-dropped :
    (ref : Text) (refs : List Text)
    → any (text_eq ref) (keep_if (λ other. not (text_eq ref other)) refs) ≡ false
any-dropped ref [] = refl
any-dropped ref (r ∷ rs) = ground (arith, any-dropped ref rs)

abbrev pub has_ref : LayersItem → List Text → Bool
has_ref item refs = any (text_eq (ostree_ref_spec_from_layer_item item)) refs

-- The layer's ref is with no layer, and in the OSTree repository only if it was left there.
abbrev pub IsGone : Bool → LayersItem → OstreeRepo → Type 0
IsGone left item s = All (IsOther item) s.cache.cache.layers × (has_ref item s.refs ≡ left)

abbrev pub IsRemoved : Bool → LayersItem → Result (Unit {0}) × OstreeRepo → Type 0
IsRemoved left item (ok done, s) = IsTogether s × IsGone left item s
IsRemoved left item (err e, s) = IsTogether s

IsRemoved-of :
    (left : Bool) (item : LayersItem) (result : Result (Unit {0})) (s : OstreeRepo)
    → IsTogether s
    → IsGone left item s
    → IsRemoved left item (result, s)
IsRemoved-of left item (ok done) s t g = (t, g)
IsRemoved-of left item (err e) s t g = t

delete_item-IsRemoved :
    (v : Text) (disk : Disk) (left : Bool) (item : LayersItem) (s : OstreeRepo) (refs : List Text)
    → IsTogether s
    → Memᴰ item s.cache.cache.layers
    → HasRefs refs (erase_matching item s.cache.cache.layers)
    → has_ref item refs ≡ left
    → IsRemoved left item (delete_item v disk item (record s { refs = refs }))
unfolding delete_item
delete_item-IsRemoved v disk left item s refs t m h k =
    let (it, found) = find-Mem item s.cache.cache.layers m in
    let layers = sym (delete-layers v disk item it s.cache found) in
    let own = HasOwnRefs-erase item s.cache.cache.layers t.0 in
    let others = erase-IsOther item s.cache.cache.layers t.0 m in
    IsRemoved-of left item (delete_layer_item v disk item s.cache).0
      (record s { refs = refs; cache = (delete_layer_item v disk item s.cache).1 })
      (subst HasOwnRefs layers own, subst (HasRefs refs) layers h)
      (subst (λ ls. All (IsOther item) ls) layers others, k)

-- A ref that OSTree cannot resolve is left.
abbrev pub is_left : Bool → LayersItem → OstreeRepo → Bool
is_left resolves item s = has_ref item s.refs && not resolves

remove_ostree_ref-IsRemoved :
    (v : Text) (disk : Disk) (resolves lets : Bool) (item : LayersItem) (s : OstreeRepo)
    → IsTogether s
    → Memᴰ item s.cache.cache.layers
    → IsRemoved (is_left resolves item s) item (remove_ostree_ref v disk resolves lets item s)
unfolding remove_ostree_ref drop_ref linyaps.Repo.Store.drop_then
remove_ostree_ref-IsRemoved v disk resolves lets item s t m =
    let ref = ostree_ref_spec_from_layer_item item in
    let others = erase-IsOther item s.cache.cache.layers t.0 m in
    let kept =
      All-erase (λ x. any (text_eq (ostree_ref_spec_from_layer_item x)) s.refs ≡ true) item
        s.cache.cache.layers t.1 in
    elim (Bool-cases (any (text_eq ref) s.refs)) [
      | inl e ↦ elim (Bool-cases resolves) [
        | inl g ↦ elim (Bool-cases lets) [
          | inl f ↦
              rw (e, g, f)
                (delete_item-IsRemoved v disk false item s
                  (keep_if (λ other. not (text_eq ref other)) s.refs) t m
                  (HasRefs-drop ref s.refs (erase_matching item s.cache.cache.layers) others kept)
                  (any-dropped ref s.refs))
          | inr f ↦ rw (e, g, f) t
        ]
        | inr g ↦ rw (e, g) (delete_item-IsRemoved v disk true item s s.refs t m kept e)
      ]
      | inr e ↦ rw e (delete_item-IsRemoved v disk false item s s.refs t m kept e)
    ]

abbrev pub IsRemovedOf :
    Bool → OstreeRepo → Result LayersItem → Result (Unit {0}) × OstreeRepo → Type 0
IsRemovedOf resolves before (err e) (result, s) = s ≡ before
IsRemovedOf resolves before (ok item) m = IsRemoved (is_left resolves item before) item m

remove_dir-IsRemoved :
    (left removes : Bool) (item : LayersItem) (m : Result (Unit {0}) × OstreeRepo)
    → IsRemoved left item m
    → IsRemoved left item (after_ref removes item m)
unfolding linyaps.Repo.Store.remove_dir
remove_dir-IsRemoved left removes item (err e, s) h = h
remove_dir-IsRemoved left removes item (ok done, s) h = h

-- What is found is in the cache.
abbrev IsMember : List LayersItem → Result LayersItem → Type 0
IsMember layers (err e) = Unit
IsMember layers (ok item) = Memᴰ item layers

remove_layer-IsRemovedOf :
    (v : Text) (disk : Disk) (resolves lets removes : Bool) (s : OstreeRepo)
    (found : Result LayersItem)
    → IsTogether s
    → IsMember s.cache.cache.layers found
    → IsRemovedOf resolves s found (remove_layer v disk resolves lets removes s found)
unfolding remove_layer
remove_layer-IsRemovedOf v disk resolves lets removes s (err e) t m = refl
remove_layer-IsRemovedOf v disk resolves lets removes s (ok item) t m =
    remove_dir-IsRemoved (is_left resolves item s) removes item
      (remove_ostree_ref v disk resolves lets item s)
      (remove_ostree_ref-IsRemoved v disk resolves lets item s t m)

unchanged-IsRemovedOf :
    (resolves : Bool) (s : OstreeRepo) (found : Result LayersItem)
    → IsTogether s
    → IsRemovedOf resolves s found (err module_empty, s)
unchanged-IsRemovedOf resolves s (err e) t = refl
unchanged-IsRemovedOf resolves s (ok item) t = t

IsFound-IsMember :
    (p q : LayersItem → Bool) (layers : List LayersItem) (found : Result LayersItem)
    → IsFound p q layers found
    → IsMember layers found
IsFound-IsMember p q layers (err e) h = tt
IsFound-IsMember p q layers (ok item) (m, fit, preferred) = m

module _ (qt : Qt) (sv : Semver) where
  get_layer_item-IsMember :
      (c : RepoCache) (cfg : RepoConfigV2) (ref : Reference) (asked : Text) (sub_ref : Option Text)
      → IsMember c.cache.layers (get_layer_item qt sv c cfg ref asked sub_ref)
  unfolding get_layer_item
  get_layer_item-IsMember c cfg ref asked sub_ref = elim (Option-cases (get_default_repo cfg)) [
    | inl e ↦ rw e tt
    | inr (default, e) ↦
        let name = new_module asked in
        IsFound-IsMember
          (selects (item_query qt sv ref (some (alias_or default.alias default.name)) name sub_ref))
          (fits qt sv ref name sub_ref) c.cache.layers
          (get_layer_item qt sv c cfg ref asked sub_ref)
          (get_layer_item-IsFound qt sv c cfg default ref asked sub_ref e)
  ]

  -- Where no two layers of the cache have the same ref and the ref of each is in the OSTree
  -- repository, that is so after `remove`, whatever fails; where no layer is found, nothing is
  -- changed; and where `remove` succeeds, no layer is left with the ref of the layer found, and the
  -- ref is in the OSTree repository exactly if it was there before and OSTree could not resolve it.
  pub remove-IsRemovedOf :
      (v : Text) (disk : Disk) (resolves lets removes : Bool) (cfg : RepoConfigV2) (ref : Reference)
      (asked : Text) (sub_ref : Option Text) (s : OstreeRepo)
      → IsTogether s
      → IsRemovedOf resolves s
          (get_layer_item qt sv s.cache cfg ref asked sub_ref)
          (remove qt sv v disk resolves lets removes cfg ref asked sub_ref s)
  unfolding remove
  remove-IsRemovedOf v disk resolves lets removes cfg ref asked sub_ref s t =
      let found = get_layer_item qt sv s.cache cfg ref asked sub_ref in
      elim (Bool-cases (is_empty asked)) [
        | inl e ↦ rw e (unchanged-IsRemovedOf resolves s found t)
        | inr e ↦ rw e (
            remove_layer-IsRemovedOf v disk resolves lets removes s found t
              (get_layer_item-IsMember s.cache cfg ref asked sub_ref))
      ]
