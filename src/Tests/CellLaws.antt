-- ===== src/Tests/CellLaws.antt =====
-- The database of one schema behaves as the theorems ask of PostgreSQL.
use chargeflow_registry.Prelude.{
  ◌&&◌, sym, ℕ, ◌≡◌, refl, Option, none, some, All, Bool, true, false, nat_eq, Bool-cases,
  Option-cases, inl, inr, ok, err, Result, ok-injective, arith, subst,
}
use chargeflow_registry.Errors.{Error, is, err_not_found}
use chargeflow_registry.Schema.Model.{Uuid}
use chargeflow_registry.Postgres.Model.{SchemaEntity, SchemaVersionEntity}
use chargeflow_registry.Postgres.Tables.{
  IsPostgres, IsInsertion, put_row, put_entry, stored, stored_entry,
}
use chargeflow_registry.Tests.CellWrites.{
  update_in-view, update_in-none, update_in-some, delete_in-some, update_in-never_fails,
  delete_in-view, delete_in-none, delete_in-never_fails,
}
use chargeflow_registry.Tests.Cell.{
  Log, Cell, jsonb, at, view, first_of, generated, create_in, matching, first_entry, commit, cell,
}

first_of-found :
    (p : SchemaEntity → Bool) (o : Option SchemaEntity) (e : SchemaEntity)
    → first_of p o ≡ ok e
    → (at e.id o ≡ some e) × (p e ≡ true)
first_of-found p none e h = absurd (cc h)
first_of-found p (some x) e h = elim (Bool-cases (p x)) [
  | inr other ↦ absurd (cc (rw other at h))
  | inl met ↦
      let same : x ≡ e = ok-injective (rw met at h) in
      subst (λ y. (at y.id (some x) ≡ some y) × (p y ≡ true)) same (ground arith, met)
]

first_of-missing :
    (p : SchemaEntity → Bool) (o : Option SchemaEntity) (x : Error)
    → first_of p o ≡ err x
    → (id : Uuid) (e : SchemaEntity) → at id o ≡ some e
    → p e ≡ false
first_of-missing p none x h id e there = absurd (cc there)
first_of-missing p (some y) x h id e there = elim (Bool-cases (p y)) [
  | inl met ↦ absurd (cc (rw met at h))
  | inr other ↦ ground arith
]

first_of-foreign :
    (p : SchemaEntity → Bool) (o : Option SchemaEntity) (x : Error)
    → first_of p o ≡ err x
    → is x err_not_found ≡ false
first_of-foreign p none x h = ground arith
first_of-foreign p (some y) x h = ground arith

create_in-ok :
    (e : SchemaEntity) (o : Option SchemaEntity) (log : Log) (e' : SchemaEntity)
    → (create_in e o log).0 ≡ ok e'
    → IsInsertion (view (o, log)) e e'
      × (view (create_in e o log).1 ≡ put_row (stored jsonb e') (view (o, log)))
create_in-ok e (some x) log e' h = absurd (cc h)
create_in-ok e none log e' h =
    subst
      (λ y.
        IsInsertion (view (none, log)) e y
        × (view (some (generated e), log) ≡ put_row (stored jsonb y) (view (none, log))))
      (ok-injective h)
      (record { same = refl; fresh = refl; unique = λ id x there. absurd (cc there) }, refl)

create_in-err :
    (e : SchemaEntity) (o : Option SchemaEntity) (log : Log) (x : Error)
    → (create_in e o log).0 ≡ err x
    → view (create_in e o log).1 ≡ view (o, log)
create_in-err e none log x h = absurd (cc h)
create_in-err e (some y) log x h = refl

matching-met :
    (p : SchemaEntity → Bool) (o : Option SchemaEntity) → All (λ e. p e ≡ true) (matching p o)
matching-met p none = tt
matching-met p (some e) = elim (Bool-cases (p e)) [
  | inl met ↦ rw met (met, tt)
  | inr other ↦ rw other tt
]

first_entry-found :
    (p : SchemaVersionEntity → Bool) (log : Log) (v : SchemaVersionEntity)
    → first_entry p (log 7 1) ≡ ok v
    → (log v.schema_id v.version ≡ some v) × (p v ≡ true)
first_entry-found p log v h = elim (Option-cases (log 7 1)) [
  | inl absent ↦ absurd (cc (rw absent at h))
  | inr (x, present) ↦ elim (Bool-cases (nat_eq x.schema_id 7 && nat_eq x.version 1 && p x)) [
    | inr other ↦ absurd (cc (rw (present, other) at h))
    | inl met ↦
        let same : x ≡ v = ok-injective (rw (present, met) at h) in
        let keyed : x.schema_id ≡ 7 = ground arith in
        let numbered : x.version ≡ 1 = ground arith in
        let there : log x.schema_id x.version ≡ some x =
          subst (λ k. log k x.version ≡ some x) (sym keyed)
            (subst (λ n. log 7 n ≡ some x) (sym numbered) present) in
        subst (λ (y : SchemaVersionEntity). (log y.schema_id y.version ≡ some y) × (p y ≡ true))
          same (there, ground arith)
  ]
]

commit-ok :
    (r : Result Error (Uuid × ℕ)) (before after : Cell) (a : Uuid × ℕ)
    → (commit r before after).0 ≡ ok a
    → (r ≡ ok a) × (view (commit r before after).1 ≡ view after)
commit-ok (ok b) before after a h = (h, refl)
commit-ok (err e) before after a h = absurd (cc h)

commit-err :
    (r : Result Error (Uuid × ℕ)) (before after : Cell) (x : Error)
    → (commit r before after).0 ≡ err x
    → view (commit r before after).1 ≡ view before
commit-err (ok b) before after x h = absurd (cc h)
commit-err (err e) before after x h = refl

pub cell-IsPostgres : IsPostgres cell jsonb view
cell-IsPostgres = record {
  first_schema-view = λ p w. refl;
  first_schema-found = λ p w e h. first_of-found p w.0 e h;
  first_schema-missing = λ p w x h missing id e there. first_of-missing p w.0 x h id e there;
  first_schema-foreign = λ p w x h. first_of-foreign p w.0 x h;
  create_schema-ok = λ e w e' positive h. create_in-ok e w.0 w.1 e' h;
  create_schema-err = λ e w x h. create_in-err e w.0 w.1 x h;
  create_version-ok = λ v w v' h.
      subst
        (λ (y : SchemaVersionEntity).
          (y ≡ record v { id = y.id; created_at = y.created_at })
          × (view (cell.create_version v w).1 ≡ put_entry (stored_entry jsonb y) (view w)))
        (ok-injective h) (refl, refl);
  create_version-err = λ v w x h. absurd (cc h);
  update_schemas-ok = λ p columns w n h. (6, update_in-view p columns w.0 w.1);
  update_schemas-none = λ p columns w h id. update_in-none p columns w.0 w.1 h id;
  update_schemas-some = λ p columns w n h met. update_in-some p columns w.0 w.1 n h met;
  update_schemas-err = λ p columns w x h. absurd (update_in-never_fails p columns w.0 w.1 x h);
  first_version-view = λ p w. refl;
  first_version-found = λ p w v h. first_entry-found p w.1 v h;
  count_schemas-view = λ p w. refl;
  count_vendor_models-view = λ p w. refl;
  count_versions-view = λ p w. refl;
  find_schemas-view = λ p order limit offset w. refl;
  find_vendor_models-view = λ p order limit offset w. refl;
  find_versions-view = λ p order limit offset w. refl;
  find_schemas-met = λ p order limit offset w es h.
      subst (All (λ e. p e ≡ true)) (ok-injective h) (matching-met p w.0);
  delete_schemas-ok = λ p w n h. delete_in-view p w.0 w.1;
  delete_schemas-none = λ p w h id. delete_in-none p w.0 w.1 h id;
  delete_schemas-some = λ p w n h met. delete_in-some p w.0 w.1 n h met;
  delete_schemas-err = λ p w x h. absurd (delete_in-never_fails p w.0 w.1 x h);
  transaction-ok = λ body w a h. commit-ok (body w).0 w (body w).1 a h;
  transaction-err = λ body w x h. commit-err (body w).0 w (body w).1 x h;
}
