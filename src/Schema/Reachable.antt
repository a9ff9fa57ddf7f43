-- ===== src/Schema/Reachable.antt =====
-- What the calls of internal/schema/service.go keep, in any sequence.
use chargeflow_registry.Prelude.{
  ℕ, ℤ, pos, int_eq, List, String, Option, inl, inr, ◌==◌, ◌&&◌, Bool-cases, Result-cases, Exec,
}
use chargeflow_registry.Errors.{Error, is, err_not_found}
use chargeflow_registry.Schema.Model.{
  OcppVersion, MessageType, Status, Uuid, Schema, status_rejected, message_type_request,
  message_type_response,
}
use chargeflow_registry.Schema.Ports.{Repository, Cache}
use chargeflow_registry.Schema.CacheKey.{cache_key}
use chargeflow_registry.Schema.Service.{
  clamp_page_size, list, list_vendor_models, list_versions, get_version, get, add, delete_one,
  add_pair, delete, change_status, upsert, failed_with_not_found,
}
use chargeflow_registry.Schema.Steps.{
  Preserves, Step, Reachable, here, next, by_get, by_add, by_add_pair, by_delete, by_change_status,
  by_upsert, by_list, by_list_vendor_models, by_list_versions, by_get_version,
}

module _ {W : Type 0} {repo : Repository W} {cache : Cache W} {P : W → Type 0}
    {Good : Schema → Type 0} (laws : Preserves repo cache P Good) where
  -- A call that keeps `P`.
  abbrev Keeps : {A : Type 0} → Exec W Error A → Type 0
  Keeps m = (w : W) → P w → P (m w).1

  get-Keeps :
      (version : OcppVersion) (action : String) (msg_type : MessageType)
      (vendor model : Option String)
      → Keeps (get repo cache version action msg_type vendor model)
  unfolding get
  get-Keeps version action msg_type vendor model w h =
      let key = cache_key version action msg_type vendor model in
      let asked = (cache.get key w).1 in
      let read = laws.after_cache_get key w h in
      let found = repo.get version action msg_type vendor model asked in
      let looked = laws.after_get version action msg_type vendor model asked read in
      elim (Result-cases (cache.get key w).0) [
        | inl (s, hit) ↦ rw hit read
        | inr (e, miss) ↦ elim (Bool-cases (is e err_not_found)) [
          | inr broken ↦ rw (miss, broken) read
          | inl absent ↦ elim (Result-cases found.0) [
            | inr (x, failed) ↦ rw (miss, absent, failed) looked
            | inl (s, done) ↦
                rw (miss, absent, done)
                  (laws.after_cache_set key s found.1
                    (laws.served-Good version action msg_type vendor model asked s done) looked)
          ]
        ]
      ]

  delete_one-Keeps :
      (version : OcppVersion) (action : String) (msg_type : MessageType)
      (vendor model : Option String)
      → Keeps (delete_one repo cache version action msg_type vendor model)
  unfolding delete_one
  delete_one-Keeps version action msg_type vendor model w h =
      let gone = laws.after_delete version action msg_type vendor model w h in
      elim (Result-cases (repo.delete version action msg_type vendor model w).0) [
        | inr (e, failed) ↦ rw failed gone
        | inl (_, done) ↦ rw done (
            laws.after_cache_delete (cache_key version action msg_type vendor model)
              (repo.delete version action msg_type vendor model w).1 gone)
      ]

  add_pair-Keeps : (req resp : Schema) → Keeps (add_pair repo cache req resp)
  unfolding add_pair
  add_pair-Keeps req resp w h =
      let middle = (repo.add req w).1 in
      let first = laws.after_add req w h in
      let second = laws.after_add resp middle first in
      elim (Result-cases (repo.add req w).0) [
        | inr (e, failed) ↦ rw failed first
        | inl (s, done) ↦ elim (Result-cases (repo.add resp middle).0) [
          | inl (s', done') ↦ rw (done, done') second
          | inr (e, failed) ↦
              rw (done, failed)
                (delete_one-Keeps req.ocpp_version req.action req.message_type req.vendor req.model
                  (repo.add resp middle).1 second)
        ]
      ]

  delete-Keeps :
      (version : OcppVersion) (action : String) (vendor model : Option String)
      → Keeps (delete repo cache version action vendor model)
  unfolding delete
  delete-Keeps version action vendor model w h =
      let evict = laws.after_cache_delete in
      let req = delete_one repo cache version action message_type_request vendor model w in
      let resp = delete_one repo cache version action message_type_response vendor model req.1 in
      let req_key = cache_key version action message_type_request vendor model in
      let resp_key = cache_key version action message_type_response vendor model in
      let gone =
        delete_one-Keeps version action message_type_response vendor model req.1
          (delete_one-Keeps version action message_type_request vendor model w h) in
      elim (Bool-cases (failed_with_not_found req.0 && failed_with_not_found resp.0)) [
        | inl missing ↦ rw missing gone
        | inr found ↦
            rw found (evict resp_key (cache.delete req_key resp.1).1 (evict req_key resp.1 gone))
      ]

  change_status-Keeps : (id : Uuid) (status : Status) → Keeps (change_status repo cache id status)
  unfolding change_status
  change_status-Keeps id status w h =
      let changed = laws.after_update_status id status w h in
      elim (Result-cases (repo.update_status id status w).0) [
        | inr (e, failed) ↦ rw failed changed
        | inl (s, done) ↦ elim (Bool-cases (status == status_rejected)) [
          | inl rejected ↦
              rw (done, rejected)
                (laws.after_cache_delete
                  (cache_key s.ocpp_version s.action s.message_type s.vendor s.model)
                  (repo.update_status id status w).1 changed)
          | inr kept ↦ rw (done, kept) changed
        ]
      ]

  add-Keeps : (s : Schema) → Keeps (add repo cache s)
  unfolding add
  add-Keeps s w h =
      let added = laws.after_add s w h in
      elim (Result-cases (repo.add s w).0) [
        | inr (e, failed) ↦ rw failed added
        | inl (s', done) ↦ rw done added
      ]

  upsert-Keeps : (s : Schema) → Keeps (upsert repo cache s)
  unfolding upsert
  upsert-Keeps s w h =
      let stored = laws.after_upsert s w h in
      elim (Result-cases (repo.upsert s w).0) [
        | inr (e, failed) ↦ rw failed stored
        | inl (s', done) ↦ rw done (
            laws.after_cache_delete
              (cache_key s.ocpp_version s.action s.message_type s.vendor s.model)
              (repo.upsert s w).1 stored)
      ]

  list-Keeps :
      (version : OcppVersion) (vendor model action : Option String) (msg_type : Option MessageType)
      (status : Option Status) (limit offset : ℕ)
      → Keeps (list repo cache version vendor model action msg_type status limit offset)
  unfolding list
  list-Keeps version vendor model action msg_type status limit offset w h =
      let size = clamp_page_size limit in
      let read = laws.after_list version vendor model action msg_type status size offset w h in
      elim (Result-cases (repo.list version vendor model action msg_type status size offset w).0) [
        | inr (e, failed) ↦ rw failed read
        | inl (found, done) ↦ rw done read
      ]

  list_vendor_models-Keeps :
      (vendor : String) (models : List String) (limit offset : ℕ)
      → Keeps (list_vendor_models repo cache vendor models limit offset)
  unfolding list_vendor_models
  list_vendor_models-Keeps vendor models limit offset w h =
      let size = clamp_page_size limit in
      let read = laws.after_list_vendor_models vendor models size offset w h in
      elim (Result-cases (repo.list_vendor_models vendor models size offset w).0) [
        | inr (e, failed) ↦ rw failed read
        | inl (found, done) ↦ rw done read
      ]

  list_versions-Keeps :
      (id : Uuid) (limit offset : ℕ) → Keeps (list_versions repo cache id limit offset)
  unfolding list_versions
  list_versions-Keeps id limit offset w h =
      let size = clamp_page_size limit in
      let read = laws.after_list_versions id size offset w h in
      elim (Result-cases (repo.list_versions id size offset w).0) [
        | inr (e, failed) ↦ rw failed read
        | inl (found, done) ↦ rw done read
      ]

  get_version-Keeps :
      (version : OcppVersion) (action : String) (msg_type : MessageType)
      (vendor model : Option String) (schema_version : ℤ)
      → Keeps (get_version repo cache version action msg_type vendor model schema_version)
  unfolding get_version
  get_version-Keeps version action msg_type vendor model schema_version w h =
      let current = get repo cache version action msg_type vendor model w in
      let got = get-Keeps version action msg_type vendor model w h in
      elim (Result-cases current.0) [
        | inr (e, failed) ↦ rw failed got
        | inl (sc, done) ↦ elim (Bool-cases (int_eq (pos sc.version) schema_version)) [
          | inl same ↦ rw (done, same) got
          | inr older ↦
              let read = laws.after_get_version sc.id schema_version current.1 got in
              elim (Result-cases (repo.get_version sc.id schema_version current.1).0) [
                | inr (e, failed) ↦ rw (done, older, failed) read
                | inl (v, found) ↦ rw (done, older, found) read
              ]
        ]
      ]

  step-Keeps : {w w' : W} → Step repo cache w w' → P w → P w'
  step-Keeps {w = w} (by_get version action msg_type vendor model) h =
      get-Keeps version action msg_type vendor model w h
  step-Keeps {w = w} (by_add s) h = add-Keeps s w h
  step-Keeps {w = w} (by_add_pair req resp) h = add_pair-Keeps req resp w h
  step-Keeps {w = w} (by_delete version action vendor model) h =
      delete-Keeps version action vendor model w h
  step-Keeps {w = w} (by_change_status id status) h = change_status-Keeps id status w h
  step-Keeps {w = w} (by_upsert s) h = upsert-Keeps s w h
  step-Keeps {w = w} (by_list version vendor model action msg_type status limit offset) h =
      list-Keeps version vendor model action msg_type status limit offset w h
  step-Keeps {w = w} (by_list_vendor_models vendor models limit offset) h =
      list_vendor_models-Keeps vendor models limit offset w h
  step-Keeps {w = w} (by_list_versions id limit offset) h = list_versions-Keeps id limit offset w h
  step-Keeps {w = w} (by_get_version version action msg_type vendor model schema_version) h =
      get_version-Keeps version action msg_type vendor model schema_version w h

  -- What every call keeps holds in every state that calls of the service reach.
  pub Reachable-Keeps : {start w : W} → Reachable repo cache start w → P start → P w
  Reachable-Keeps here h = h
  Reachable-Keeps (next before step) h = step-Keeps step (Reachable-Keeps before h)
