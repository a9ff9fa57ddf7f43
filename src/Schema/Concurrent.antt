-- ===== src/Schema/Concurrent.antt =====
-- What holds of the calls of internal/schema/service.go however they overlap.
use chargeflow_registry.Prelude.{List, [], ◌∷◌}
use chargeflow_registry.Schema.Model.{Schema}
use chargeflow_registry.Schema.Ports.{Repository, Cache}
use chargeflow_registry.Schema.Steps.{Preserves}
use chargeflow_registry.Schema.Overlap.{
  Call, repo_get, repo_add, repo_upsert, repo_delete, repo_update_status, repo_list,
  repo_list_vendor_models, repo_list_versions, repo_get_version, cache_get, cache_set, cache_delete,
  effect, effects, Schedule, meanwhile, overlapped_repo, overlapped_cache,
}

module _ {W : Type 0} {repo : Repository W} {cache : Cache W} {P : W → Type 0}
    {Good : Schema → Type 0} (laws : Preserves repo cache P Good) where
  effect-Keeps : (call : Call repo cache) (w : W) → P w → P (effect repo cache call w)
  effect-Keeps (repo_get version action msg_type vendor model) w h =
      laws.after_get version action msg_type vendor model w h
  effect-Keeps (repo_add s) w h = laws.after_add s w h
  effect-Keeps (repo_upsert s) w h = laws.after_upsert s w h
  effect-Keeps (repo_delete version action msg_type vendor model) w h =
      laws.after_delete version action msg_type vendor model w h
  effect-Keeps (repo_update_status id status) w h = laws.after_update_status id status w h
  effect-Keeps (repo_list version vendor model action msg_type status limit offset) w h =
      laws.after_list version vendor model action msg_type status limit offset w h
  effect-Keeps (repo_list_vendor_models vendor models limit offset) w h =
      laws.after_list_vendor_models vendor models limit offset w h
  effect-Keeps (repo_list_versions id limit offset) w h =
      laws.after_list_versions id limit offset w h
  effect-Keeps (repo_get_version id version) w h = laws.after_get_version id version w h
  effect-Keeps (cache_get key) w h = laws.after_cache_get key w h
  effect-Keeps (cache_set key s served) w h =
      laws.after_cache_set key s w
        (laws.served-Good served.version served.action served.msg_type served.vendor served.model
          served.state s served.same)
        h
  effect-Keeps (cache_delete key) w h = laws.after_cache_delete key w h

  effects-Keeps : (calls : List (Call repo cache)) (w : W) → P w → P (effects repo cache calls w)
  effects-Keeps [] w h = h
  effects-Keeps (call ∷ calls) w h =
      effects-Keeps calls (effect repo cache call w) (effect-Keeps call w h)

  pub meanwhile-Keeps : (w : W) (s : Schedule repo cache) → P w → P (meanwhile repo cache w s).0
  meanwhile-Keeps w [] h = h
  meanwhile-Keeps w (calls ∷ rest) h = effects-Keeps calls w h

  -- What each call keeps, it keeps with others' calls before it.
  pub overlapped-Preserves :
      Preserves
        (overlapped_repo repo cache)
        (overlapped_cache repo cache)
        (λ (w : W × Schedule repo cache). P w.0)
        Good
  overlapped-Preserves = record {
    served-Good = λ version action msg_type vendor model w s p.
        laws.served-Good version action msg_type vendor model (meanwhile repo cache w.0 w.1).0 s p;
    after_get = λ version action msg_type vendor model w h.
        laws.after_get version action msg_type vendor model (meanwhile repo cache w.0 w.1).0
          (meanwhile-Keeps w.0 w.1 h);
    after_add =
        λ s w h. laws.after_add s (meanwhile repo cache w.0 w.1).0 (meanwhile-Keeps w.0 w.1 h);
    after_upsert =
        λ s w h. laws.after_upsert s (meanwhile repo cache w.0 w.1).0 (meanwhile-Keeps w.0 w.1 h);
    after_delete = λ version action msg_type vendor model w h.
        laws.after_delete version action msg_type vendor model (meanwhile repo cache w.0 w.1).0
          (meanwhile-Keeps w.0 w.1 h);
    after_update_status = λ id status w h.
        laws.after_update_status id status (meanwhile repo cache w.0 w.1).0
          (meanwhile-Keeps w.0 w.1 h);
    after_list = λ version vendor model action msg_type status limit offset w h.
        laws.after_list version vendor model action msg_type status limit offset
          (meanwhile repo cache w.0 w.1).0 (meanwhile-Keeps w.0 w.1 h);
    after_list_vendor_models = λ vendor models limit offset w h.
        laws.after_list_vendor_models vendor models limit offset (meanwhile repo cache w.0 w.1).0
          (meanwhile-Keeps w.0 w.1 h);
    after_list_versions = λ id limit offset w h.
        laws.after_list_versions id limit offset (meanwhile repo cache w.0 w.1).0
          (meanwhile-Keeps w.0 w.1 h);
    after_get_version = λ id version w h.
        laws.after_get_version id version (meanwhile repo cache w.0 w.1).0
          (meanwhile-Keeps w.0 w.1 h);
    after_cache_get = λ key w h.
        laws.after_cache_get key (meanwhile repo cache w.0 w.1).0 (meanwhile-Keeps w.0 w.1 h);
    after_cache_set = λ key s w good h.
        laws.after_cache_set key s (meanwhile repo cache w.0 w.1).0 good
          (meanwhile-Keeps w.0 w.1 h);
    after_cache_delete = λ key w h.
        laws.after_cache_delete key (meanwhile repo cache w.0 w.1).0 (meanwhile-Keeps w.0 w.1 h);
  }
