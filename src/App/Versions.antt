-- ===== src/App/Versions.antt =====
-- The changelog under every call of the service of cmd/app/main.go.
use chargeflow_registry.Prelude.{sym, subst}
use chargeflow_registry.Schema.Model.{Bytes, Time}
use chargeflow_registry.Schema.Steps.{Preserves, Reachable}
use chargeflow_registry.Schema.Reachable.{Reachable-Keeps}
use chargeflow_registry.Postgres.Gorm.{Gorm, Json}
use chargeflow_registry.Postgres.Tables.{Tables, IsPostgres}
use chargeflow_registry.Postgres.Changelog.{IsVersioned}
use chargeflow_registry.Postgres.Repository.{repository}
use chargeflow_registry.Postgres.Lookup.{get-view}
use chargeflow_registry.Postgres.Reading.{
  list-view, list_vendor_models-view, list_versions-view, get_version-view,
}
use chargeflow_registry.Postgres.Versions.{
  add-IsVersioned, upsert-IsVersioned, delete-IsVersioned, update_status-IsVersioned,
}
use chargeflow_registry.Redis.Store.{Client, SchemaJson}
use chargeflow_registry.App.{repo, store}

module _ {D R V : Type 0} (db : Gorm D) (json : Json V) (client : Client R) (coding : SchemaJson)
    (ttl : Time) (jsonb : Bytes → Bytes) (view : D → Tables) (laws : IsPostgres db jsonb view) where
  pub versions-Preserves :
      Preserves
        (repo db json client coding ttl)
        (store db json client coding ttl)
        (λ w. IsVersioned (view w.0))
        (λ s. Unit {0})
  unfolding repo store repository
  versions-Preserves = record {
    served-Good = λ version action msg_type vendor model w s p. tt;
    after_get = λ version action msg_type vendor model w h.
        subst IsVersioned
          (sym (get-view version action msg_type db jsonb view laws vendor model w.0)) h;
    after_add = λ s w h. add-IsVersioned db jsonb view laws s w.0 h;
    after_upsert = λ s w h. upsert-IsVersioned db jsonb view laws json s w.0 h;
    after_delete = λ version action msg_type vendor model w h.
        delete-IsVersioned db jsonb view laws version action msg_type vendor model w.0 h;
    after_update_status =
        λ id status w h. update_status-IsVersioned db jsonb view laws id status w.0 h;
    after_list = λ version vendor model action msg_type status limit offset w h.
        subst IsVersioned
          (sym (
            list-view db jsonb view laws version vendor model action msg_type status limit offset
              w.0))
          h;
    after_list_vendor_models = λ vendor models limit offset w h.
        subst IsVersioned
          (sym (list_vendor_models-view db jsonb view laws vendor models limit offset w.0)) h;
    after_list_versions = λ id limit offset w h.
        subst IsVersioned (sym (list_versions-view db jsonb view laws id limit offset w.0)) h;
    after_get_version = λ id version w h.
        subst IsVersioned (sym (get_version-view db jsonb view laws id version w.0)) h;
    after_cache_get = λ key w h. h;
    after_cache_set = λ key s w good h. h;
    after_cache_delete = λ key w h. h;
  }

  -- From tables where each schema has a changelog entry for every version from 1 to its current one
  -- and no other, the current one with the current content, any sequence of calls of the service
  -- over the repository and the cache, whatever fails on the way, reaches only such tables.
  pub Reachable-IsVersioned :
      (start w : D × R)
      → IsVersioned (view start.0)
      → Reachable (repo db json client coding ttl) (store db json client coding ttl) start w
      → IsVersioned (view w.0)
  Reachable-IsVersioned start w h path = Reachable-Keeps versions-Preserves path h
