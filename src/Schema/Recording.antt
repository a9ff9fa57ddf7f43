-- ===== src/Schema/Recording.antt =====
-- The interfaces of internal/schema/repository.go with the list of the calls that change the
-- repository, the last one first, each with what it returned. The calls themselves are the same.
use chargeflow_registry.Prelude.{String, Option, List, ◌∷◌, Exec, Result}
use chargeflow_registry.Errors.{Error}
use chargeflow_registry.Schema.Model.{OcppVersion, MessageType, Status, Uuid, Schema}
use chargeflow_registry.Schema.Ports.{Repository, Cache}

pub data Write : Type 0 where
  added : Schema → Result Error Schema → Write
  upserted : Schema → Result Error Schema → Write
  deleted :
      (version : OcppVersion) (action : String) (msg_type : MessageType)
      (vendor model : Option String)
      → Result Error (Unit {0})
      → Write
  status_updated : Uuid → Status → Result Error Schema → Write

abbrev pub recording :
    {W A : Type 0} → (Result Error A → Write) → Exec W Error A → Exec (W × List Write) Error A
recording write m w = let done = m w.0 in (done.0, (done.1, write done.0 ∷ w.1))

abbrev pub unrecorded : {W A : Type 0} → Exec W Error A → Exec (W × List Write) Error A
unrecorded m w = let done = m w.0 in (done.0, (done.1, w.1))

module _ {W : Type 0} where
  abbrev pub recording_repo : Repository W → Repository (W × List Write)
  recording_repo r = record {
    get = λ v a t vendor model. unrecorded (r.get v a t vendor model);
    list =
        λ v vendor model a t s limit offset. unrecorded (r.list v vendor model a t s limit offset);
    add = λ s. recording (added s) (r.add s);
    upsert = λ s. recording (upserted s) (r.upsert s);
    delete =
        λ v a t vendor model. recording (deleted v a t vendor model) (r.delete v a t vendor model);
    update_status = λ id s. recording (status_updated id s) (r.update_status id s);
    list_vendor_models =
        λ vendor models limit offset. unrecorded (r.list_vendor_models vendor models limit offset);
    list_versions = λ id limit offset. unrecorded (r.list_versions id limit offset);
    get_version = λ id v. unrecorded (r.get_version id v);
  }

  abbrev pub recording_cache : Cache W → Cache (W × List Write)
  recording_cache c = record {
    get = λ key. unrecorded (c.get key);
    set = λ key s. unrecorded (c.set key s);
    delete = λ key. unrecorded (c.delete key);
  }
