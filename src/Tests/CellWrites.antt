-- ===== src/Tests/CellWrites.antt =====
-- Updates and deletions of the database of one schema.
use chargeflow_registry.Prelude.{
  true, ℕ, ◌≡◌, refl, Option, none, some, List, [], ◌∷◌, Bool, false, nat_eq, Bool-cases, inl, inr,
  ok, err, arith, ◌≢◌,
}
use mathlib.Core.Path.{fun_ext, ap₂}
use chargeflow_registry.Errors.{Error}
use chargeflow_registry.Schema.Model.{Uuid}
use chargeflow_registry.Postgres.Model.{SchemaEntity}
use chargeflow_registry.Postgres.Gorm.{Assignment, set_status, set_schema, set_version}
use chargeflow_registry.Postgres.Tables.{assign, updated, update_rows, delete_rows, meets}
use chargeflow_registry.Tests.Cell.{Log, jsonb, at, view, update_in, delete_in}

assign-id : (columns : List Assignment) (e : SchemaEntity) → (assign jsonb columns e).id ≡ e.id
assign-id [] e = refl
assign-id (set_status s ∷ more) e = assign-id more (record e { status = s })
assign-id (set_schema s ∷ more) e = assign-id more (record e { schema = s })
assign-id (set_version n ∷ more) e = assign-id more (record e { version = n })

update_in-rows :
    (p : SchemaEntity → Bool) (columns : List Assignment) (o : Option SchemaEntity) (log : Log)
    (id : Uuid)
    → at id (update_in p columns o log).1.0 ≡ updated jsonb 6 p columns (at id o)
update_in-rows p columns none log id = refl
update_in-rows p columns (some e) log id = elim (Bool-cases (p e)) [
  | inl met ↦ elim (Bool-cases (nat_eq e.id id)) [
    | inl here ↦ rw (met, here, assign-id columns e, here, met) refl
    | inr away ↦ rw (met, away, assign-id columns e, away) refl
  ]
  | inr other ↦ elim (Bool-cases (nat_eq e.id id)) [
    | inl here ↦ rw (other, here, other) refl
    | inr away ↦ rw (other, away) refl
  ]
]

update_in-log :
    (p : SchemaEntity → Bool) (columns : List Assignment) (o : Option SchemaEntity) (log : Log)
    → (update_in p columns o log).1.1 ≡ log
update_in-log p columns none log = refl
update_in-log p columns (some e) log = elim (Bool-cases (p e)) [
  | inl met ↦ rw met refl
  | inr other ↦ rw other refl
]

pub update_in-view :
    (p : SchemaEntity → Bool) (columns : List Assignment) (o : Option SchemaEntity) (log : Log)
    → view (update_in p columns o log).1 ≡ update_rows jsonb 6 p columns (view (o, log))
update_in-view p columns o log =
    ap₂ (λ r c. record { rows = r; changelog = c }) (fun_ext (update_in-rows p columns o log))
      (update_in-log p columns o log)

pub update_in-never_fails :
    (p : SchemaEntity → Bool) (columns : List Assignment) (o : Option SchemaEntity) (log : Log)
    (x : Error)
    → (update_in p columns o log).0 ≢ err x
update_in-never_fails p columns none log x h = cc h
update_in-never_fails p columns (some e) log x h = elim (Bool-cases (p e)) [
  | inl met ↦ cc (rw met at h)
  | inr other ↦ cc (rw other at h)
]

pub update_in-none :
    (p : SchemaEntity → Bool) (columns : List Assignment) (o : Option SchemaEntity) (log : Log)
    → (update_in p columns o log).0 ≡ ok 0
    → (id : Uuid) → meets p (at id o) ≡ false
update_in-none p columns none log h id = refl
update_in-none p columns (some e) log h id = elim (Bool-cases (p e)) [
  | inl met ↦ absurd (ground (arith, rw met at h))
  | inr other ↦ elim (Bool-cases (nat_eq e.id id)) [
    | inl here ↦ rw (here, other) refl
    | inr away ↦ rw away refl
  ]
]

delete_in-rows :
    (p : SchemaEntity → Bool) (o : Option SchemaEntity) (log : Log) (id : Uuid)
    → at id (delete_in p o log).1.0 ≡ (delete_rows p (view (o, log))).rows id
delete_in-rows p none log id = refl
delete_in-rows p (some e) log id = elim (Bool-cases (p e)) [
  | inl met ↦ elim (Bool-cases (nat_eq e.id id)) [
    | inl here ↦ rw (met, here, met) refl
    | inr away ↦ rw (met, away) refl
  ]
  | inr other ↦ elim (Bool-cases (nat_eq e.id id)) [
    | inl here ↦ rw (other, here, other) refl
    | inr away ↦ rw (other, away) refl
  ]
]

delete_in-log :
    (p : SchemaEntity → Bool) (o : Option SchemaEntity) (log : Log) (id : Uuid) (n : ℕ)
    → (delete_in p o log).1.1 id n ≡ (delete_rows p (view (o, log))).changelog id n
delete_in-log p none log id n = refl
delete_in-log p (some e) log id n = elim (Bool-cases (p e)) [
  | inl met ↦ elim (Bool-cases (nat_eq e.id id)) [
    | inl here ↦ rw (met, here, met) refl
    | inr away ↦ rw (met, away) refl
  ]
  | inr other ↦ elim (Bool-cases (nat_eq e.id id)) [
    | inl here ↦ rw (other, here, other) refl
    | inr away ↦ rw (other, away) refl
  ]
]

pub delete_in-view :
    (p : SchemaEntity → Bool) (o : Option SchemaEntity) (log : Log)
    → view (delete_in p o log).1 ≡ delete_rows p (view (o, log))
delete_in-view p o log =
    ap₂ (λ r c. record { rows = r; changelog = c }) (fun_ext (delete_in-rows p o log))
      (fun_ext λ id. fun_ext (delete_in-log p o log id))

pub delete_in-none :
    (p : SchemaEntity → Bool) (o : Option SchemaEntity) (log : Log)
    → (delete_in p o log).0 ≡ ok 0
    → (id : Uuid) → meets p (at id o) ≡ false
delete_in-none p none log h id = refl
delete_in-none p (some e) log h id = elim (Bool-cases (p e)) [
  | inl met ↦ absurd (ground (arith, rw met at h))
  | inr other ↦ elim (Bool-cases (nat_eq e.id id)) [
    | inl here ↦ rw (here, other) refl
    | inr away ↦ rw away refl
  ]
]

pub delete_in-never_fails :
    (p : SchemaEntity → Bool) (o : Option SchemaEntity) (log : Log) (x : Error)
    → (delete_in p o log).0 ≢ err x
delete_in-never_fails p none log x h = cc h
delete_in-never_fails p (some e) log x h = elim (Bool-cases (p e)) [
  | inl met ↦ cc (rw met at h)
  | inr other ↦ cc (rw other at h)
]

pub update_in-some :
    (p : SchemaEntity → Bool) (columns : List Assignment) (o : Option SchemaEntity) (log : Log)
    (n : ℕ)
    → (update_in p columns o log).0 ≡ ok n
    → nat_eq n 0 ≡ false
    → (id : Uuid) × (e : SchemaEntity) × (at id o ≡ some e) × (p e ≡ true)
update_in-some p columns none log n h some_rows = absurd (ground arith)
update_in-some p columns (some e) log n h some_rows = elim (Bool-cases (p e)) [
  | inl met ↦ (e.id, e, ground arith, met)
  | inr other ↦ absurd (ground (arith, rw other at h))
]

pub delete_in-some :
    (p : SchemaEntity → Bool) (o : Option SchemaEntity) (log : Log) (n : ℕ)
    → (delete_in p o log).0 ≡ ok n
    → nat_eq n 0 ≡ false
    → (id : Uuid) × (e : SchemaEntity) × (at id o ≡ some e) × (p e ≡ true)
delete_in-some p none log n h some_rows = absurd (ground arith)
delete_in-some p (some e) log n h some_rows = elim (Bool-cases (p e)) [
  | inl met ↦ (e.id, e, ground arith, met)
  | inr other ↦ absurd (ground (arith, rw other at h))
]
