-- ===== src/Schema/Overlap.antt =====
-- Calls of internal/schema/service.go that overlap in time with calls of other clients. The service
-- holds no lock: between two of its own calls of the repository or of the cache, any number of
-- others' may take place. One call of the repository or of the cache is one step.
use chargeflow_registry.Prelude.{ℕ, ℤ, List, [], ◌∷◌, String, Option, ◌≡◌, ok, Exec}
use chargeflow_registry.Errors.{Error}
use chargeflow_registry.Schema.Model.{OcppVersion, MessageType, Status, Uuid, Schema}
use chargeflow_registry.Schema.Ports.{Repository, Cache}

module _ {W : Type 0} (repo : Repository W) (cache : Cache W) where
  -- A schema that the repository has served to somebody: only such a schema is written to the cache.
  pub record Served (s : Schema) : Type 0 where
    pub version : OcppVersion
    pub action : String
    pub msg_type : MessageType
    pub vendor : Option String
    pub model : Option String
    pub state : W
    pub same : (repo.get version action msg_type vendor model state).0 ≡ ok s

  -- One call that the service makes for another client.
  pub data Call : Type 0 where
    repo_get :
        (version : OcppVersion) (action : String) (msg_type : MessageType)
        (vendor model : Option String)
        → Call
    repo_add : Schema → Call
    repo_upsert : Schema → Call
    repo_delete :
        (version : OcppVersion) (action : String) (msg_type : MessageType)
        (vendor model : Option String)
        → Call
    repo_update_status : Uuid → Status → Call
    repo_list :
        (version : OcppVersion) (vendor model action : Option String)
        (msg_type : Option MessageType) (status : Option Status) (limit offset : ℕ)
        → Call
    repo_list_vendor_models : (vendor : String) (models : List String) (limit offset : ℕ) → Call
    repo_list_versions : (id : Uuid) (limit offset : ℕ) → Call
    repo_get_version : Uuid → ℤ → Call
    cache_get : String → Call
    cache_set : (key : String) (s : Schema) → Served s → Call
    cache_delete : String → Call

  abbrev pub effect : Call → W → W
  effect (repo_get version action msg_type vendor model) w =
      (repo.get version action msg_type vendor model w).1
  effect (repo_add s) w = (repo.add s w).1
  effect (repo_upsert s) w = (repo.upsert s w).1
  effect (repo_delete version action msg_type vendor model) w =
      (repo.delete version action msg_type vendor model w).1
  effect (repo_update_status id status) w = (repo.update_status id status w).1
  effect (repo_list version vendor model action msg_type status limit offset) w =
      (repo.list version vendor model action msg_type status limit offset w).1
  effect (repo_list_vendor_models vendor models limit offset) w =
      (repo.list_vendor_models vendor models limit offset w).1
  effect (repo_list_versions id limit offset) w = (repo.list_versions id limit offset w).1
  effect (repo_get_version id version) w = (repo.get_version id version w).1
  effect (cache_get key) w = (cache.get key w).1
  effect (cache_set key s _) w = (cache.set key s w).1
  effect (cache_delete key) w = (cache.delete key w).1

  abbrev pub effects : List Call → W → W
  effects [] w = w
  effects (call ∷ calls) w = effects calls (effect call w)

  -- For each call still to be made, the others' calls that come before it.
  abbrev pub Schedule : Type 0
  Schedule = List (List Call)

  abbrev pub meanwhile : W → Schedule → W × Schedule
  meanwhile w [] = (w, [])
  meanwhile w (calls ∷ rest) = (effects calls w, rest)

  abbrev pub overlapped : {A : Type 0} → Exec W Error A → Exec (W × Schedule) Error A
  overlapped m w = let now = meanwhile w.0 w.1 in let done = m now.0 in (done.0, (done.1, now.1))

  abbrev pub overlapped_repo : Repository (W × Schedule)
  overlapped_repo = record {
    get = λ v a t vendor model. overlapped (repo.get v a t vendor model);
    list = λ v vendor model a t s limit offset.
        overlapped (repo.list v vendor model a t s limit offset);
    add = λ s. overlapped (repo.add s);
    upsert = λ s. overlapped (repo.upsert s);
    delete = λ v a t vendor model. overlapped (repo.delete v a t vendor model);
    update_status = λ id s. overlapped (repo.update_status id s);
    list_vendor_models = λ vendor models limit offset.
        overlapped (repo.list_vendor_models vendor models limit offset);
    list_versions = λ id limit offset. overlapped (repo.list_versions id limit offset);
    get_version = λ id v. overlapped (repo.get_version id v);
  }

  abbrev pub overlapped_cache : Cache (W × Schedule)
  overlapped_cache = record {
    get = λ key. overlapped (cache.get key);
    set = λ key s. overlapped (cache.set key s);
    delete = λ key. overlapped (cache.delete key);
  }
