-- ===== src/App/Registry.antt =====
-- The service of cmd/app/main.go against a registry with no tables and no cache.
use chargeflow_registry.Prelude.{List, [], ◌∷◌, sym, subst}
use chargeflow_registry.Schema.Model.{Bytes, Time}
use chargeflow_registry.Schema.Steps.{Preserves}
use chargeflow_registry.Schema.Recording.{
  Write, added, upserted, deleted, status_updated, recording_repo, recording_cache,
}
use chargeflow_registry.Postgres.Gorm.{Gorm, Json}
use chargeflow_registry.Postgres.Tables.{Tables, IsPostgres}
use chargeflow_registry.Postgres.Repository as Rows
use chargeflow_registry.Postgres.Repository.{repository}
use chargeflow_registry.Postgres.Lookup.{get-view}
use chargeflow_registry.Postgres.Reading.{
  list-view, list_vendor_models-view, list_versions-view, get_version-view,
}
use chargeflow_registry.Postgres.Spec.{Slot, Registry}
use chargeflow_registry.Postgres.Represents.{Represents}
use chargeflow_registry.Postgres.Represents
use chargeflow_registry.Postgres.Outcomes.{Addition, Upsertion, Deletion, Restatus}
use chargeflow_registry.Postgres.Refinement.{add-Addition, delete-Deletion, update_status-Restatus}
use chargeflow_registry.Postgres.Refinement.Upsert.{upsert-Upsertion}
use chargeflow_registry.Redis.Store.{Client, SchemaJson}
use chargeflow_registry.App.{repo, store}

-- What each call did to the registry `r`, if the rows are `rows` afterwards.
abbrev pub Does :
    {V : Type 0} → (Bytes → Bytes) → Json V → Registry → Represents.Rows → Write → Type 0
Does jsonb json r rows (added s result) = Addition r rows jsonb s result
Does jsonb json r rows (upserted s result) = Upsertion r rows jsonb json s result
Does jsonb json r rows (deleted version action msg_type vendor model result) =
    Deletion r rows
      (record {
        ocpp_version = version;
        action = action;
        message_type = msg_type;
        vendor = vendor;
        model = model;
      })
      result
Does jsonb json r rows (status_updated id status result) = Restatus r rows id status result

-- The rows that a list of calls leads to from the registry `r`: each call has done to the registry
-- that it found, with what it returned, what the repository promises of it.
pub data History {V : Type 0} (jsonb : Bytes → Bytes) (json : Json V) (r : Registry)
    : List Write → Represents.Rows → Type 0 where
  start : {rows : Represents.Rows} → Represents rows r → History jsonb json r [] rows
  next :
      {calls : List Write} {rows rows' : Represents.Rows} (call : Write) (q : Registry)
      → History jsonb json r calls rows
      → Represents rows q
      → Does jsonb json q rows' call
      → History jsonb json r (call ∷ calls) rows'

module _ {V : Type 0} (jsonb : Bytes → Bytes) (json : Json V) where
  Does-Represents :
      (q : Registry) (rows : Represents.Rows) (call : Write)
      → Does jsonb json q rows call
      → (p : Registry) × Represents rows p
  Does-Represents q rows (added s result) (Addition.added id done free h) = (_, h)
  Does-Represents q rows (added s result) (Addition.failed e bad h) = (_, h)
  Does-Represents q rows (upserted s result) (Upsertion.added id done free h) = (_, h)
  Does-Represents q rows (upserted s result) (Upsertion.unchanged i done there equal h) = (_, h)
  Does-Represents q rows (upserted s result) (Upsertion.replaced i done there differ h) = (_, h)
  Does-Represents q rows (upserted s result) (Upsertion.failed e bad h) = (_, h)
  Does-Represents q rows (deleted v a t vendor model result) (Deletion.deleted i done full h) =
      (_, h)
  Does-Represents q rows (deleted v a t vendor model result) (Deletion.missing bad free h) = (_, h)
  Does-Represents q rows (deleted v a t vendor model result) (Deletion.failed e bad h) = (_, h)
  Does-Represents q rows (status_updated id status result) (Restatus.changed s done _ _ _ h) =
      (_, h)
  Does-Represents q rows (status_updated id status result) (Restatus.missing bad absent h) = (_, h)
  Does-Represents q rows (status_updated id status result) (Restatus.failed e bad h) = (_, h)
  Does-Represents q rows (status_updated id status result)
        (Restatus.unread e slot i bad full same h) =
      (_, h)

  History-Represents :
      (r : Registry) {calls : List Write} {rows : Represents.Rows}
      → History jsonb json r calls rows
      → (q : Registry) × Represents rows q
  History-Represents r (start h) = (r, h)
  History-Represents r (next {rows' = rows'} call q before h done) =
      Does-Represents q rows' call done

module _ {D R V : Type 0} (db : Gorm D) (json : Json V) (client : Client R) (coding : SchemaJson)
    (ttl : Time) (jsonb : Bytes → Bytes) (view : D → Tables) (laws : IsPostgres db jsonb view)
    (r : Registry) where
  abbrev Leads : List Write → Tables → Type 0
  Leads calls t = History jsonb json r calls t.rows

  pub history-Preserves :
      Preserves
        (recording_repo (repo db json client coding ttl))
        (recording_cache (store db json client coding ttl))
        (λ w. Leads w.1 (view w.0.0))
        (λ s. Unit {0})
  unfolding repo store repository
  history-Preserves = record {
    served-Good = λ version action msg_type vendor model w s p. tt;
    after_get = λ version action msg_type vendor model w h.
        subst (Leads w.1)
          (sym (get-view version action msg_type db jsonb view laws vendor model w.0.0)) h;
    after_add = λ s w before.
        let (q, h) = History-Represents jsonb json r before in
        next (added s (Rows.add db s w.0.0).0) q before h
          (add-Addition db jsonb view laws s w.0.0 q h);
    after_upsert = λ s w before.
        let (q, h) = History-Represents jsonb json r before in
        next (upserted s (Rows.upsert db json s w.0.0).0) q before h
          (upsert-Upsertion db jsonb view laws json s w.0.0 q h);
    after_delete = λ version action msg_type vendor model w before.
        let (q, h) = History-Represents jsonb json r before in
        let slot : Slot = record {
          ocpp_version = version;
          action = action;
          message_type = msg_type;
          vendor = vendor;
          model = model;
        } in
        next
          (deleted version action msg_type vendor model
            (Rows.delete db version action msg_type vendor model w.0.0).0)
          q before h (delete-Deletion db jsonb view laws slot w.0.0 q h);
    after_update_status = λ id status w before.
        let (q, h) = History-Represents jsonb json r before in
        next (status_updated id status (Rows.update_status db id status w.0.0).0) q before h
          (update_status-Restatus db jsonb view laws id status w.0.0 q h);
    after_list = λ version vendor model action msg_type status limit offset w h.
        subst (Leads w.1)
          (sym (
            list-view db jsonb view laws version vendor model action msg_type status limit offset
              w.0.0))
          h;
    after_list_vendor_models = λ vendor models limit offset w h.
        subst (Leads w.1)
          (sym (list_vendor_models-view db jsonb view laws vendor models limit offset w.0.0)) h;
    after_list_versions = λ id limit offset w h.
        subst (Leads w.1) (sym (list_versions-view db jsonb view laws id limit offset w.0.0)) h;
    after_get_version = λ id version w h.
        subst (Leads w.1) (sym (get_version-view db jsonb view laws id version w.0.0)) h;
    after_cache_get = λ key w h. h;
    after_cache_set = λ key s w good h. h;
    after_cache_delete = λ key w h. h;
  }
