-- ===== src/App/Concurrent.antt =====
-- The service of cmd/app/main.go while other clients call it too.
use chargeflow_registry.Prelude.{List, [], subst, sym, String, Option, none, ◌≡◌, ok}
use chargeflow_registry.Schema.Model.{
  OcppVersion, MessageType, Bytes, Time, Schema, status_verified,
}
use chargeflow_registry.Schema.Ports.{Repository, Cache}
use chargeflow_registry.Schema.Service
use chargeflow_registry.Schema.Serving.{serving-Preserves, get-Good}
use chargeflow_registry.Schema.Steps.{Reachable}
use chargeflow_registry.Schema.Reachable.{Reachable-Keeps}
use chargeflow_registry.Schema.Overlap.{Schedule, meanwhile, overlapped_repo, overlapped_cache}
use chargeflow_registry.Schema.Concurrent.{overlapped-Preserves, meanwhile-Keeps}
use chargeflow_registry.Postgres.Gorm.{Gorm, Json}
use chargeflow_registry.Postgres.Tables.{Tables, IsPostgres}
use chargeflow_registry.Postgres.Changelog.{IsVersioned}
use chargeflow_registry.Postgres.Spec.{Registry}
use chargeflow_registry.Postgres.Represents.{Represents}
use chargeflow_registry.Redis.Store.{Client, SchemaJson}
use chargeflow_registry.Redis.Contents.{IsRedis, KeepsStatus}
use chargeflow_registry.App.{repo, store}
use chargeflow_registry.App.Versions.{versions-Preserves}
use chargeflow_registry.App.Registry.{History, history-Preserves, start}
use chargeflow_registry.Schema.Recording.{Write, recording_repo, recording_cache}
use chargeflow_registry.App.Serving.{Holds, store-IsCache, repo-IsRepository}

module _ {D R V : Type 0} (db : Gorm D) (json : Json V) (client : Client R) (coding : SchemaJson)
    (ttl : Time) where
  abbrev pub Schedules : Type 0
  Schedules = Schedule (repo db json client coding ttl) (store db json client coding ttl)

  abbrev pub busy_repo : Repository ((D × R) × Schedules)
  busy_repo = overlapped_repo (repo db json client coding ttl) (store db json client coding ttl)

  abbrev pub busy_store : Cache ((D × R) × Schedules)
  busy_store = overlapped_cache (repo db json client coding ttl) (store db json client coding ttl)

  -- The same, with the calls that write to the repository on record.
  abbrev pub RecordedSchedules : Type 0
  RecordedSchedules =
      Schedule (recording_repo (repo db json client coding ttl))
        (recording_cache (store db json client coding ttl))

  abbrev pub recorded_repo : Repository (((D × R) × List Write) × RecordedSchedules)
  recorded_repo =
      overlapped_repo (recording_repo (repo db json client coding ttl))
        (recording_cache (store db json client coding ttl))

  abbrev pub recorded_store : Cache (((D × R) × List Write) × RecordedSchedules)
  recorded_store =
      overlapped_cache (recording_repo (repo db json client coding ttl))
        (recording_cache (store db json client coding ttl))

  module _ (jsonb : Bytes → Bytes) (view : D → Tables) (laws : IsPostgres db jsonb view) where
    -- From tables where each schema has a changelog entry for every version from 1 to its current
    -- one and no other, the current one with the current content, any sequence of the service's
    -- calls, with any calls of other clients between their steps, and whatever fails, reaches only
    -- such tables.
    pub overlapped-IsVersioned :
        (first w : (D × R) × Schedules)
        → IsVersioned (view first.0.0)
        → Reachable busy_repo busy_store first w
        → IsVersioned (view w.0.0)
    overlapped-IsVersioned first w h path =
        Reachable-Keeps
          (overlapped-Preserves (versions-Preserves db json client coding ttl jsonb view laws)) path
          h

    -- From tables that represent a registry, a map from slots to at most one schema each, take any
    -- sequence of the service's calls, with any calls of other clients between their steps,
    -- whatever fails. The tables are then the ones that the calls of the repository's Add, Upsert,
    -- Delete and UpdateStatus have led to, one after the other: each has done to the registry that
    -- the tables represented at its turn what the repository promises of it (Addition, Upsertion,
    -- Deletion, Restatus), with the result that it returned.
    pub overlapped-History :
        (r : Registry) (first w : ((D × R) × List Write) × RecordedSchedules)
        → Represents (view first.0.0.0).rows r
        → first.0.1 ≡ []
        → Reachable recorded_repo recorded_store first w
        → History jsonb json r w.0.1 (view w.0.0.0).rows
    overlapped-History r first w h nothing path =
        Reachable-Keeps
          (overlapped-Preserves (history-Preserves db json client coding ttl jsonb view laws r))
          path
          (subst (λ calls. History jsonb json r calls (view first.0.0.0).rows) (sym nothing)
            (start h))

    -- From an empty cache, after any sequence of the service's calls, a schema that Get returns is
    -- verified, even if calls of other clients come between the steps of all these calls and of Get
    -- itself, given that the JSON form of a schema keeps its status and that only schemas that the
    -- repository has served are written to the cache.
    pub overlapped-verified :
        (contents : R → String → Option Bytes)
        → IsRedis client contents
        → KeepsStatus coding
        → (first w : (D × R) × Schedules) (version : OcppVersion) (action : String)
          (msg_type : MessageType) (vendor model : Option String) (s : Schema)
        → ((key : String) → contents first.0.1 key ≡ none)
        → Reachable busy_repo busy_store first w
        → (Service.get busy_repo busy_store version action msg_type vendor model w).0 ≡ ok s
        → s.status ≡ status_verified
    overlapped-verified contents redis keeps first w version action msg_type vendor model s empty
          path p =
        let holds = Holds db json client coding ttl contents in
        let caching = store-IsCache db json client coding ttl contents redis keeps in
        let storage = repo-IsRepository db json client coding ttl contents jsonb view laws in
        let kept =
          serving-Preserves holds (repo db json client coding ttl) (store db json client coding ttl)
            storage caching in
        let busy = overlapped-Preserves kept in
        get-Good busy
          (λ key u x held hit.
            let now =
              (meanwhile (repo db json client coding ttl) (store db json client coding ttl) u.0
                u.1).0 in
            meanwhile-Keeps kept u.0 u.1 held key x (caching.get-hit key now x hit))
          version action msg_type vendor model w s
          (Reachable-Keeps busy path (λ key x held. absurd (cc (held.1, empty key)))) p
