-- ===== src/Schema/Serving.antt =====
-- What internal/schema/service.go may serve: the cache and the repository beneath it as interfaces
-- with laws, and the states that the operations of the service reach.
use chargeflow_registry.Prelude.{
  ℕ, ℤ, List, String, Option, ◌≡◌, ◌∙◌, ◌⊎◌, inl, inr, Bool-cases, Result-cases, Exec, ok,
}
use chargeflow_registry.Errors.{Error, is, err_not_found}
use chargeflow_registry.Schema.Model.{
  OcppVersion, MessageType, Status, Uuid, Schema, status_verified,
}
use chargeflow_registry.Schema.Ports.{Repository, Cache}
use chargeflow_registry.Schema.CacheKey.{cache_key}
use chargeflow_registry.Schema.Service.{get}
use chargeflow_registry.Schema.Steps.{Preserves, Reachable}
use chargeflow_registry.Schema.Reachable.{Reachable-Keeps}

-- What `Get` returns is good, if a hit in the cache is.
pub get-Good :
    {W : Type 0} {repo : Repository W} {cache : Cache W} {P : W → Type 0} {Good : Schema → Type 0}
    (laws : Preserves repo cache P Good)
    (hit : (key : String) (w : W) (s : Schema) → P w → (cache.get key w).0 ≡ ok s → Good s)
    (version : OcppVersion) (action : String) (msg_type : MessageType)
    (vendor model : Option String) (w : W) (s : Schema)
    → P w
    → (get repo cache version action msg_type vendor model w).0 ≡ ok s
    → Good s
unfolding get
get-Good {repo = repo} {cache = cache} laws hit version action msg_type vendor model w s h p =
    let key = cache_key version action msg_type vendor model in
    let asked = (cache.get key w).1 in
    elim (Result-cases (cache.get key w).0) [
      | inl (x, held) ↦ hit key w s h (held ∙ rw held at p)
      | inr (e, miss) ↦ elim (Bool-cases (is e err_not_found)) [
        | inr broken ↦ absurd (cc (rw (miss, broken) at p))
        | inl absent ↦ elim (Result-cases (repo.get version action msg_type vendor model asked).0) [
          | inr (x, failed) ↦ absurd (cc (rw (miss, absent, failed) at p))
          | inl (x, done) ↦
              laws.served-Good version action msg_type vendor model asked s
                (done ∙ rw (miss, absent, done) at p)
        ]
      ]
    ]

-- `Holds w key s`: in the state `w`, a read of `key` can give `s`. A write adds what it writes at
-- most, up to the JSON form, which keeps the status; a deletion adds nothing.
pub record IsCache {W : Type 0} (cache : Cache W) (Holds : W → String → Schema → Type 0)
    : Type 0 where
  pub get-hit : (key : String) (w : W) (s : Schema) → (cache.get key w).0 ≡ ok s → Holds w key s
  pub get-keeps :
      (key : String) (w : W) (k : String) (s : Schema) → Holds (cache.get key w).1 k s → Holds w k s
  pub set-keeps :
      (key : String) (x : Schema) (w : W) (k : String) (s : Schema)
      → Holds (cache.set key x w).1 k s
      → Holds w k s ⊎ (s.status ≡ x.status)
  pub delete-keeps :
      (key : String) (w : W) (k : String) (s : Schema)
      → Holds (cache.delete key w).1 k s
      → Holds w k s

module _ {W : Type 0} (Holds : W → String → Schema → Type 0) where
  -- Every schema that the cache can give is verified.
  abbrev pub OnlyVerified : W → Type 0
  OnlyVerified w = (key : String) (s : Schema) → Holds w key s → s.status ≡ status_verified

  -- A call that caches nothing.
  abbrev pub IsQuiet : {A : Type 0} → Exec W Error A → Type 0
  IsQuiet m = (w : W) (key : String) (s : Schema) → Holds (m w).1 key s → Holds w key s

  -- The repository serves verified schemas only, and does not touch the cache.
  pub record IsRepository (repo : Repository W) : Type 0 where
    pub get-verified :
        (version : OcppVersion) (action : String) (msg_type : MessageType)
        (vendor model : Option String) (w : W) (s : Schema)
        → (repo.get version action msg_type vendor model w).0 ≡ ok s
        → s.status ≡ status_verified
    pub get-IsQuiet :
        (version : OcppVersion) (action : String) (msg_type : MessageType)
        (vendor model : Option String)
        → IsQuiet (repo.get version action msg_type vendor model)
    pub add-IsQuiet : (s : Schema) → IsQuiet (repo.add s)
    pub upsert-IsQuiet : (s : Schema) → IsQuiet (repo.upsert s)
    pub delete-IsQuiet :
        (version : OcppVersion) (action : String) (msg_type : MessageType)
        (vendor model : Option String)
        → IsQuiet (repo.delete version action msg_type vendor model)
    pub list-IsQuiet :
        (version : OcppVersion) (vendor model action : Option String)
        (msg_type : Option MessageType) (status : Option Status) (limit offset : ℕ)
        → IsQuiet (repo.list version vendor model action msg_type status limit offset)
    pub list_vendor_models-IsQuiet :
        (vendor : String) (models : List String) (limit offset : ℕ)
        → IsQuiet (repo.list_vendor_models vendor models limit offset)
    pub list_versions-IsQuiet :
        (id : Uuid) (limit offset : ℕ) → IsQuiet (repo.list_versions id limit offset)
    pub get_version-IsQuiet : (id : Uuid) (version : ℤ) → IsQuiet (repo.get_version id version)
    pub update_status-IsQuiet :
        (id : Uuid) (status : Status) → IsQuiet (repo.update_status id status)

module _ {W : Type 0} (Holds : W → String → Schema → Type 0) (repo : Repository W) (cache : Cache W)
    (storage : IsRepository Holds repo) (caching : IsCache cache Holds) where
  -- The verified schemas are the good ones.
  pub serving-Preserves :
      Preserves repo cache (OnlyVerified Holds) (λ s. s.status ≡ status_verified)
  serving-Preserves = record {
    served-Good = storage.get-verified;
    after_get = λ version action msg_type vendor model w h k s held.
        h k s (storage.get-IsQuiet version action msg_type vendor model w k s held);
    after_add = λ x w h k s held. h k s (storage.add-IsQuiet x w k s held);
    after_upsert = λ x w h k s held. h k s (storage.upsert-IsQuiet x w k s held);
    after_delete = λ version action msg_type vendor model w h k s held.
        h k s (storage.delete-IsQuiet version action msg_type vendor model w k s held);
    after_update_status =
        λ id status w h k s held. h k s (storage.update_status-IsQuiet id status w k s held);
    after_list = λ version vendor model action msg_type status limit offset w h k s held.
        h k s (
          storage.list-IsQuiet version vendor model action msg_type status limit offset w k s held);
    after_list_vendor_models = λ vendor models limit offset w h k s held.
        h k s (storage.list_vendor_models-IsQuiet vendor models limit offset w k s held);
    after_list_versions = λ id limit offset w h k s held.
        h k s (storage.list_versions-IsQuiet id limit offset w k s held);
    after_get_version =
        λ id version w h k s held. h k s (storage.get_version-IsQuiet id version w k s held);
    after_cache_get = λ key w h k s held. h k s (caching.get-keeps key w k s held);
    after_cache_set = λ key x w good h k s held. elim (caching.set-keeps key x w k s held) [
      | inl before ↦ h k s before
      | inr same ↦ same ∙ good
    ];
    after_cache_delete = λ key w h k s held. h k s (caching.delete-keeps key w k s held);
  }

  -- From a cache of verified schemas, whatever calls of the service come before it, and whatever
  -- failed on the way, a schema that `Get` returns is verified.
  pub get-verified :
      (start w : W) (version : OcppVersion) (action : String) (msg_type : MessageType)
      (vendor model : Option String) (s : Schema)
      → Reachable repo cache start w
      → OnlyVerified Holds start
      → (get repo cache version action msg_type vendor model w).0 ≡ ok s
      → s.status ≡ status_verified
  get-verified start w version action msg_type vendor model s path h p =
      get-Good serving-Preserves (λ key u x held hit. held key x (caching.get-hit key u x hit))
        version action msg_type vendor model w s (Reachable-Keeps serving-Preserves path h) p
