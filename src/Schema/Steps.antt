-- ===== src/Schema/Steps.antt =====
-- The calls of internal/schema/service.go as steps from state to state, and what every one of
-- them keeps.
use chargeflow_registry.Prelude.{ℕ, ℤ, List, String, Option, ◌≡◌, ok}
use chargeflow_registry.Schema.Model.{OcppVersion, MessageType, Status, Uuid, Schema}
use chargeflow_registry.Schema.Ports.{Repository, Cache}
use chargeflow_registry.Schema.Service.{
  list, list_vendor_models, list_versions, get_version, get, add, add_pair, delete, change_status,
  upsert,
}

module _ {W : Type 0} (repo : Repository W) (cache : Cache W) where
  -- `P` outlives every call of the repository and of the cache, where only a schema that the
  -- repository has served, and that is therefore `Good`, is written to the cache.
  pub record Preserves (P : W → Type 0) (Good : Schema → Type 0) : Type 0 where
    pub served-Good :
        (version : OcppVersion) (action : String) (msg_type : MessageType)
        (vendor model : Option String) (w : W) (s : Schema)
        → (repo.get version action msg_type vendor model w).0 ≡ ok s
        → Good s
    pub after_get :
        (version : OcppVersion) (action : String) (msg_type : MessageType)
        (vendor model : Option String) (w : W)
        → P w
        → P (repo.get version action msg_type vendor model w).1
    pub after_add : (s : Schema) (w : W) → P w → P (repo.add s w).1
    pub after_upsert : (s : Schema) (w : W) → P w → P (repo.upsert s w).1
    pub after_delete :
        (version : OcppVersion) (action : String) (msg_type : MessageType)
        (vendor model : Option String) (w : W)
        → P w
        → P (repo.delete version action msg_type vendor model w).1
    pub after_update_status :
        (id : Uuid) (status : Status) (w : W) → P w → P (repo.update_status id status w).1
    pub after_list :
        (version : OcppVersion) (vendor model action : Option String)
        (msg_type : Option MessageType) (status : Option Status) (limit offset : ℕ) (w : W)
        → P w
        → P (repo.list version vendor model action msg_type status limit offset w).1
    pub after_list_vendor_models :
        (vendor : String) (models : List String) (limit offset : ℕ) (w : W)
        → P w
        → P (repo.list_vendor_models vendor models limit offset w).1
    pub after_list_versions :
        (id : Uuid) (limit offset : ℕ) (w : W) → P w → P (repo.list_versions id limit offset w).1
    pub after_get_version :
        (id : Uuid) (version : ℤ) (w : W) → P w → P (repo.get_version id version w).1
    pub after_cache_get : (key : String) (w : W) → P w → P (cache.get key w).1
    pub after_cache_set :
        (key : String) (s : Schema) (w : W) → Good s → P w → P (cache.set key s w).1
    pub after_cache_delete : (key : String) (w : W) → P w → P (cache.delete key w).1

  -- One call of the service, whatever it returns.
  pub data Step (w : W) : W → Type 0 where
    by_get :
        (version : OcppVersion) (action : String) (msg_type : MessageType)
        (vendor model : Option String)
        → Step w (get repo cache version action msg_type vendor model w).1
    by_add : (s : Schema) → Step w (add repo cache s w).1
    by_add_pair : (req resp : Schema) → Step w (add_pair repo cache req resp w).1
    by_delete :
        (version : OcppVersion) (action : String) (vendor model : Option String)
        → Step w (delete repo cache version action vendor model w).1
    by_change_status :
        (id : Uuid) (status : Status) → Step w (change_status repo cache id status w).1
    by_upsert : (s : Schema) → Step w (upsert repo cache s w).1
    by_list :
        (version : OcppVersion) (vendor model action : Option String)
        (msg_type : Option MessageType) (status : Option Status) (limit offset : ℕ)
        → Step w (list repo cache version vendor model action msg_type status limit offset w).1
    by_list_vendor_models :
        (vendor : String) (models : List String) (limit offset : ℕ)
        → Step w (list_vendor_models repo cache vendor models limit offset w).1
    by_list_versions :
        (id : Uuid) (limit offset : ℕ) → Step w (list_versions repo cache id limit offset w).1
    by_get_version :
        (version : OcppVersion) (action : String) (msg_type : MessageType)
        (vendor model : Option String) (schema_version : ℤ)
        → Step w (get_version repo cache version action msg_type vendor model schema_version w).1

  -- Calls in a row, from a first state on.
  pub data Reachable (start : W) : W → Type 0 where
    here : Reachable start start
    next : {w w' : W} → Reachable start w → Step w w' → Reachable start w'
