-- ===== src/Postgres/Changelog.antt =====
-- The changelog of every schema: its entries are the versions from 1 to the current one, and the
-- entry of the current version holds the current content.
use chargeflow_registry.Prelude.{
  ℕ, ◌+◌, ◌≤◌, ◌<◌, ◌≡◌, ◌≢◌, refl, Option, none, some, Bool, arith, [], ◌∷◌, nat_eq, inl, inr,
  Bool-cases, if◌then◌else◌, subst, true, false, sym,
}
use mathlib.Core.Path.{fun_ext}
use chargeflow_registry.Schema.Model.{Uuid, Time, Bytes, Status}
use chargeflow_registry.Postgres.Model.{SchemaEntity, SchemaVersionEntity}
use chargeflow_registry.Postgres.Gorm.{set_status, set_schema, set_version}
use chargeflow_registry.Postgres.Query.{has_id}
use chargeflow_registry.Postgres.Tables.{
  Tables, put_row, put_entry, updated, update_rows, delete_rows, meets,
}

abbrev pub Log : Type 0
Log = ℕ → Option SchemaVersionEntity

abbrev pub content_of : Option SchemaVersionEntity → Option Bytes
content_of none = none
content_of (some v) = some v.schema

pub record HasLog (id : Uuid) (e : SchemaEntity) (log : Log) : Type 0 where
  pub keyed : e.id ≡ id
  pub started : 0 < e.version
  pub current : content_of (log e.version) ≡ some e.schema
  pub complete : (n : ℕ) → 0 < n → n ≤ e.version → log n ≢ none
  pub unborn : log 0 ≡ none
  pub bounded : (n : ℕ) → e.version < n → log n ≡ none

abbrev pub with_entry : SchemaVersionEntity → Log → Log
with_entry v log n = if nat_eq v.version n then some v else log n

log-put_self :
    (t : Tables) (v : SchemaVersionEntity) (id : Uuid)
    → v.schema_id ≡ id
    → (put_entry v t).changelog id ≡ with_entry v (t.changelog id)
log-put_self t v id same = fun_ext λ n. ground arith

log-put_other :
    (t : Tables) (v : SchemaVersionEntity) (id : Uuid)
    → nat_eq v.schema_id id ≡ false
    → (put_entry v t).changelog id ≡ t.changelog id
log-put_other t v id apart = fun_ext λ n. ground arith

-- Without a row there is no entry either.
abbrev pub Agrees : Uuid → Option SchemaEntity → Log → Type 0
Agrees id none log = (n : ℕ) → log n ≡ none
Agrees id (some e) log = HasLog id e log

pub record IsVersioned (t : Tables) : Type 0 where
  pub at_id : (id : Uuid) → Agrees id (t.rows id) (t.changelog id)

-- One row, and its log.
module _ (id : Uuid) (log : Log) where
  set_status-Agrees :
      (jsonb : Bytes → Bytes) (now : Time) (p : SchemaEntity → Bool) (status : Status)
      (o : Option SchemaEntity)
      → Agrees id o log
      → Agrees id (updated jsonb now p (set_status status ∷ []) o) log
  set_status-Agrees jsonb now p status none h = h
  set_status-Agrees jsonb now p status (some e) h = elim (Bool-cases (p e)) [
    | inl met ↦ rw met (record {
      keyed = h.keyed;
      started = h.started;
      current = h.current;
      complete = h.complete;
      unborn = h.unborn;
      bounded = h.bounded;
    })
    | inr other ↦ rw other h
  ]

  delete-Agrees :
      (p : SchemaEntity → Bool) (o : Option SchemaEntity)
      → Agrees id o log
      → Agrees id (if meets p o then none else o) (λ n. if meets p o then none else log n)
  delete-Agrees p none h = h
  delete-Agrees p (some e) h = elim (Bool-cases (p e)) [
    | inl met ↦ rw met (λ n. refl)
    | inr other ↦ rw other h
  ]

  -- The next version of a row: its content, and an entry with the same content.
  append-HasLog :
      (e : SchemaEntity) (v : SchemaVersionEntity) (content : Bytes) (now : Time)
      → HasLog id e log
      → v.schema ≡ content
      → v.version ≡ e.version + 1
      → HasLog id
          (record e { schema = content; version = e.version + 1; updated_at = now })
          (with_entry v log)
  append-HasLog e v content now h same next = record {
    keyed = h.keyed;
    started = omega arith;
    current = ground arith;
    complete = λ n p q. ground (arith, h.complete n);
    unborn = ground (arith, h.unborn);
    bounded = λ n p. ground (arith, h.bounded n);
  }

module _ (t : Tables) (h : IsVersioned t) where
  pub set_status-IsVersioned :
      (jsonb : Bytes → Bytes) (now : Time) (p : SchemaEntity → Bool) (status : Status)
      → IsVersioned (update_rows jsonb now p (set_status status ∷ []) t)
  set_status-IsVersioned jsonb now p status = record {
    at_id = λ i. set_status-Agrees i (t.changelog i) jsonb now p status (t.rows i) (h.at_id i);
  }

  pub delete-IsVersioned : (p : SchemaEntity → Bool) → IsVersioned (delete_rows p t)
  delete-IsVersioned p = record {
    at_id = λ i. delete-Agrees i (t.changelog i) p (t.rows i) (h.at_id i);
  }

  -- A row and an entry of its log are put in place: only that row's log has to be looked at.
  put-IsVersioned :
      (e : SchemaEntity) (v : SchemaVersionEntity)
      → v.schema_id ≡ e.id
      → HasLog e.id e (with_entry v (t.changelog e.id))
      → IsVersioned (put_entry v (put_row e t))
  put-IsVersioned e v same log =
      let after = put_entry v (put_row e t) in
      let own : nat_eq e.id e.id ≡ true = ground arith in
      record {
        at_id = λ i. elim (Bool-cases (nat_eq e.id i)) [
          | inl here ↦
              let key : e.id ≡ i = ground arith in
              subst (λ j. Agrees j (after.rows j) (after.changelog j)) key
                (subst (Agrees e.id (after.rows e.id))
                  (sym (log-put_self (put_row e t) v e.id same)) (rw own log))
          | inr other ↦
              let apart : nat_eq v.schema_id i ≡ false = ground arith in
              subst (Agrees i (after.rows i)) (sym (log-put_other (put_row e t) v i apart))
                (rw other (h.at_id i))
        ];
      }

  first-HasLog :
      (e : SchemaEntity) (v : SchemaVersionEntity)
      → t.rows e.id ≡ none
      → e.version ≡ 1
      → v.version ≡ 1
      → v.schema ≡ e.schema
      → HasLog e.id e (with_entry v (t.changelog e.id))
  first-HasLog e v fresh one same_version same_content =
      let empty : (n : ℕ) → t.changelog e.id n ≡ none = rw fresh at (h.at_id e.id) in
      record {
        keyed = refl;
        started = omega arith;
        current = ground arith;
        complete = λ n p q. ground arith;
        unborn = ground (arith, empty 0);
        bounded = λ n p. ground (arith, empty n);
      }

  -- A new row at version 1 with its first entry.
  pub insert-IsVersioned :
      (e : SchemaEntity) (v : SchemaVersionEntity)
      → t.rows e.id ≡ none
      → e.version ≡ 1
      → v.schema_id ≡ e.id
      → v.version ≡ 1
      → v.schema ≡ e.schema
      → IsVersioned (put_entry v (put_row e t))
  insert-IsVersioned e v fresh one same_id same_version same_content =
      put-IsVersioned e v same_id (first-HasLog e v fresh one same_version same_content)

  -- An update by id is an update of that row alone.
  updated_other :
      (jsonb : Bytes → Bytes) (now : Time) (id i : Uuid) (content : Bytes) (version : ℕ)
      (o : Option SchemaEntity) (log : Log)
      → Agrees i o log
      → nat_eq id i ≡ false
      → updated jsonb now (has_id id) (set_schema content ∷ set_version version ∷ []) o ≡ o
  updated_other jsonb now id i content version none log a ne = refl
  updated_other jsonb now id i content version (some x) log a ne =
      let key = a.keyed in let apart : nat_eq x.id id ≡ false = ground arith in rw apart

  -- The next version of an existing row, with its entry.
  pub append-IsVersioned :
      (jsonb : Bytes → Bytes) (now : Time) (e : SchemaEntity) (v : SchemaVersionEntity)
      (content : Bytes)
      → t.rows e.id ≡ some e
      → v.schema_id ≡ e.id
      → v.version ≡ e.version + 1
      → v.schema ≡ jsonb content
      → IsVersioned (
          put_entry v (
            update_rows jsonb now
              (has_id e.id)
              (set_schema content ∷ set_version (e.version + 1) ∷ [])
              t))
  append-IsVersioned jsonb now e v content found same_id same_version same_content =
      let before =
        update_rows jsonb now (has_id e.id) (set_schema content ∷ set_version (e.version + 1) ∷ [])
          t in
      let own : nat_eq e.id e.id ≡ true = ground arith in
      let log : HasLog e.id e (t.changelog e.id) = rw found at (h.at_id e.id) in
      record {
        at_id = λ i. elim (Bool-cases (nat_eq e.id i)) [
          | inl here ↦
              let key : e.id ≡ i = ground arith in
              subst (λ j. Agrees j (before.rows j) ((put_entry v before).changelog j)) key
                (subst (Agrees e.id (before.rows e.id)) (sym (log-put_self before v e.id same_id)) (
                  rw (found, own)
                    (append-HasLog e.id (t.changelog e.id) e v (jsonb content) now log same_content
                      same_version)))
          | inr other ↦
              let apart : nat_eq v.schema_id i ≡ false = ground arith in
              subst (Agrees i (before.rows i)) (sym (log-put_other before v i apart)) (
                rw
                  (updated_other jsonb now e.id i content (e.version + 1) (t.rows i) (t.changelog i)
                    (h.at_id i) other)
                  (h.at_id i))
        ];
      }
