-- ===== src/Repo/Cache/Query/Asked.antt =====
-- repo/repo_cache.cpp: which layers `queryLayerItem` finds, by the values that a query asks for.
use linyaps.Prelude.{
  ◌≡◌, refl, ◌∙◌, ap, Bool, true, false, ◌&&◌, ◌||◌, not, Option, none, some, List, [], ◌∷◌, Text,
  text_eq, all, arith,
}
use mathlib.Core.Path.{fun_ext}
use linyaps.Prelude.Sort.{count_if}
use linyaps.Qt.{Qt}
use linyaps.Semver.{Semver}
use linyaps.Repo.Cache.{LayersItem, RepoCache}
use linyaps.Repo.Cache.Query.{
  RepoCacheQuery, differs, lacks_deleted, lacks_uuid, selects, query_layer_item,
}
use linyaps.Repo.Cache.Query.Order.{query-count_selects}

-- A text that is asked for, if any, and the one that a layer has, if any.
abbrev pub Asked : Type 0
Asked = Option Text × Option Text

abbrev pub is_met : Asked → Bool
is_met (none, given) = true
is_met (some text, none) = false
is_met (some text, some given) = text_eq text given

-- A mark as a text.
abbrev pub flag : Bool → Text
flag true = 1 ∷ []
flag false = []

abbrev pub flag_of : Option Bool → Option Text
flag_of none = none
flag_of (some b) = some (flag b)

-- What a query may ask for, with what a layer has.
abbrev pub asked_of : RepoCacheQuery → LayersItem → List Asked
asked_of query layer =
    (query.id, some layer.info.id)
    ∷ (query.repo, some layer.repo)
    ∷ (query.channel, some layer.info.channel)
    ∷ (query.version, some layer.info.version)
    ∷ (query.module_name, some layer.info.module_name)
    ∷ (query.uuid, layer.info.uuid)
    ∷ (flag_of query.deleted, flag_of layer.deleted)
    ∷ []

met-differs :
    (asked : Option Text) (text : Text) → not (differs asked text) ≡ is_met (asked, some text)
met-differs none text = refl
met-differs (some a) text = ground arith

met-uuid : (asked uuid : Option Text) → not (lacks_uuid asked uuid) ≡ is_met (asked, uuid)
met-uuid none uuid = refl
met-uuid (some a) none = refl
met-uuid (some a) (some b) = ground arith

met-deleted :
    (asked deleted : Option Bool)
    → not (lacks_deleted asked deleted) ≡ is_met (flag_of asked, flag_of deleted)
unfolding text_eq
met-deleted none deleted = refl
met-deleted (some a) none = refl
met-deleted (some true) (some true) = refl
met-deleted (some true) (some false) = refl
met-deleted (some false) (some true) = refl
met-deleted (some false) (some false) = refl

-- Each of seven tests, in the order of the code and in that of the list.
seven :
    (a b c d e f g : Bool)
    → not (a || b || c || d || e || f || g)
      ≡ (not a && (not b && (not c && (not d && (not e && (not g && (not f && true)))))))
seven a b c d e f g = ground arith

selects-asked :
    (query : RepoCacheQuery) (layer : LayersItem)
    → selects query layer ≡ all is_met (asked_of query layer)
unfolding selects
selects-asked query layer =
    seven (differs query.id layer.info.id) (differs query.repo layer.repo)
      (differs query.channel layer.info.channel) (differs query.version layer.info.version)
      (differs query.module_name layer.info.module_name) (lacks_deleted query.deleted layer.deleted)
      (lacks_uuid query.uuid layer.info.uuid)
    ∙ rw
        (
          met-differs query.id layer.info.id,
          met-differs query.repo layer.repo,
          met-differs query.channel layer.info.channel,
          met-differs query.version layer.info.version,
          met-differs query.module_name layer.info.module_name,
          met-uuid query.uuid layer.info.uuid,
          met-deleted query.deleted layer.deleted,
        )
        refl

-- The layers found are those of the cache that have each of the values that the query asks for, the
-- identifier, the repository, the channel, the version, the module, the uuid and the mark of deletion
-- (a layer without uuid or mark has none that is asked for), each as often as it is there: whatever
-- test is put to them, as many pass it.
pub query_layer_item-count :
    (qt : Qt) (sv : Semver) (c : RepoCache) (query : RepoCacheQuery) (p : LayersItem → Bool)
    → count_if p (query_layer_item qt sv c query)
      ≡ count_if (λ layer. all is_met (asked_of query layer) && p layer) c.cache.layers
query_layer_item-count qt sv c query p =
    query-count_selects qt sv c query p
    ∙ ap (λ (f : LayersItem → Bool). count_if (λ layer. f layer && p layer) c.cache.layers)
        (fun_ext λ layer. selects-asked query layer)
