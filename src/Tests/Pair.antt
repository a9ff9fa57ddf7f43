-- ===== src/Tests/Pair.antt =====
-- A database of two schemas that takes insertions only: every other statement fails.
use chargeflow_registry.Prelude.{
  ℕ, Option, none, some, Bool, false, ◌||◌, nat_eq, if◌then◌else◌, ◌≡◌, ◌≢◌, refl, ap, subst,
  Bool-cases, inl, inr, ok, err, Result, ok-injective, arith, ◌&&◌,
}
use mathlib.Core.Path.{fun_ext}
use chargeflow_registry.Errors.{
  Error, sentinel, other, err_duplicated_key, err_not_found, err_record_not_found,
}
use chargeflow_registry.Schema.Model.{Uuid}
use chargeflow_registry.Schema.Service.{add_pair}
use chargeflow_registry.Postgres.Model.{SchemaEntity, SchemaVersionEntity, to_entity}
use chargeflow_registry.Postgres.Gorm.{Gorm}
use chargeflow_registry.Postgres.Query.{in_slot}
use chargeflow_registry.Postgres.Repository.{repository, add, insert_with_changelog}
use chargeflow_registry.Postgres.Spec.{slot_of_schema, put}
use chargeflow_registry.Postgres.Represents.{Represents}
use chargeflow_registry.Postgres.Outcomes.{new_item}
use chargeflow_registry.Postgres.Tables.{
  Tables, IsPostgres, IsInsertion, or_default, put_row, put_entry, stored, stored_entry,
}
use chargeflow_registry.App.{repo, store}
use chargeflow_registry.App.Pairs.{add_pair-Represents}
use chargeflow_registry.Tests.Cell.{Log, jsonb, at, stamped}
use chargeflow_registry.Tests.Failing.{down, commit, commit-ok, commit-err, foreign, err-injective}
use chargeflow_registry.Tests.Refinements.{nothing}
use chargeflow_registry.Tests.Worlds.{boot, boot_response, plain_json, Keys, redis, coding}

abbrev Two : Type 0
Two = Option SchemaEntity × Option SchemaEntity × Log

abbrev at_two : Uuid → Option SchemaEntity → Option SchemaEntity → Option SchemaEntity
at_two id none b = at id b
at_two id (some x) b = if nat_eq x.id id then some x else at id b

abbrev view : Two → Tables
view (a, b, log) = record { rows = λ id. at_two id a b; changelog = log }

abbrev numbered : ℕ → SchemaEntity → SchemaEntity
numbered n e = record e { id = n; status = or_default e.status; created_at = 5; updated_at = 5 }

abbrev taken : SchemaEntity → SchemaEntity → Bool
taken e x = nat_eq x.id 8 || in_slot e.ocpp_version e.action e.message_type e.vendor e.model x

abbrev create_in :
    SchemaEntity → Option SchemaEntity → Option SchemaEntity → Log → Result Error SchemaEntity × Two
create_in e none none log = (ok (numbered 7 e), (some (numbered 7 e), none, log))
create_in e (some x) none log =
    if taken e x
    then (err (sentinel err_duplicated_key), (some x, none, log))
    else (ok (numbered 8 e), (some x, some (numbered 8 e), log))
create_in e none (some y) log = (err (sentinel err_duplicated_key), (none, some y, log))
create_in e (some x) (some y) log = (err (sentinel err_duplicated_key), (some x, some y, log))

abbrev two : Gorm Two
two = record {
  first_schema = λ p. down;
  create_schema = λ e w. create_in e w.0 w.1 w.2;
  update_schemas = λ p columns. down;
  delete_schemas = λ p. down;
  count_schemas = λ p. down;
  find_schemas = λ p order limit offset. down;
  count_vendor_models = λ p. down;
  find_vendor_models = λ p order limit offset. down;
  first_version = λ p. down;
  create_version = λ v w. (
    ok (stamped v),
    (
      w.0,
      w.1,
      λ id n. if nat_eq v.schema_id id && nat_eq v.version n then some (stamped v) else w.2 id n,
    ),
  );
  count_versions = λ p. down;
  find_versions = λ p order limit offset. down;
  transaction = λ body w. let done = body w in commit done.0 w done.1;
}

create_in-second :
    (e x : SchemaEntity) (log : Log)
    → taken e x ≡ false
    → IsInsertion (view (some x, none, log)) e (numbered 8 e)
      × (view (some x, some (numbered 8 e), log)
          ≡ put_row (stored jsonb (numbered 8 e)) (view (some x, none, log)))
create_in-second e x log free =
    let slot = in_slot e.ocpp_version e.action e.message_type e.vendor e.model in
    let apart : nat_eq x.id 8 ≡ false = ground arith in
    let clear : slot x ≡ false = ground arith in
    (
      record {
        same = refl;
        fresh = rw apart refl;
        unique = λ id y there. elim (Bool-cases (nat_eq x.id id)) [
          | inl here ↦
              let same : x ≡ y = cc (rw here at there) in subst (λ z. slot z ≡ false) same clear
          | inr away ↦ absurd (cc (rw away at there))
        ];
      },
      ap (λ r. record { rows = r; changelog = log })
          (fun_ext λ id. elim (Bool-cases (nat_eq x.id id)) [
            | inr away ↦ rw away refl
            | inl here ↦ let other : nat_eq 8 id ≡ false = ground arith in rw (here, other) refl
          ]),
    )

create_in-ok :
    (e : SchemaEntity) (a b : Option SchemaEntity) (log : Log) (e' : SchemaEntity)
    → (create_in e a b log).0 ≡ ok e'
    → IsInsertion (view (a, b, log)) e e'
      × (view (create_in e a b log).1 ≡ put_row (stored jsonb e') (view (a, b, log)))
create_in-ok e none none log e' h =
    subst
      (λ y.
        IsInsertion (view (none, none, log)) e y
        × (view (some (numbered 7 e), none, log)
            ≡ put_row (stored jsonb y) (view (none, none, log))))
      (ok-injective h)
      (record { same = refl; fresh = refl; unique = λ id x there. absurd (cc there) }, refl)
create_in-ok e (some x) none log e' h = elim (Bool-cases (taken e x)) [
  | inl full ↦ absurd (cc (rw full at h))
  | inr free ↦ rw free (
      subst
        (λ y.
          IsInsertion (view (some x, none, log)) e y
          × (view (some x, some (numbered 8 e), log)
              ≡ put_row (stored jsonb y) (view (some x, none, log))))
        (ok-injective (rw free at h)) (create_in-second e x log free))
]
create_in-ok e none (some y) log e' h = absurd (cc h)
create_in-ok e (some x) (some y) log e' h = absurd (cc h)

create_in-err :
    (e : SchemaEntity) (a b : Option SchemaEntity) (log : Log) (x : Error)
    → (create_in e a b log).0 ≡ err x
    → view (create_in e a b log).1 ≡ view (a, b, log)
create_in-err e none none log x h = absurd (cc h)
create_in-err e (some y) none log x h = elim (Bool-cases (taken e y)) [
  | inl full ↦ rw full refl
  | inr free ↦ absurd (cc (rw free at h))
]
create_in-err e none (some y) log x h = refl
create_in-err e (some y) (some z) log x h = refl

two-IsPostgres : IsPostgres two jsonb view
two-IsPostgres = record {
  first_schema-view = λ p w. refl;
  first_schema-found = λ p w e h. absurd (cc h);
  first_schema-missing = λ p w x h missing.
      absurd (cc (foreign x err_record_not_found (err-injective (other "down") x h), missing));
  first_schema-foreign = λ p w x h. foreign x err_not_found (err-injective (other "down") x h);
  create_schema-ok = λ e w e' positive h. create_in-ok e w.0 w.1 w.2 e' h;
  create_schema-err = λ e w x h. create_in-err e w.0 w.1 w.2 x h;
  create_version-ok = λ v w v' h.
      subst
        (λ (y : SchemaVersionEntity).
          (y ≡ record v { id = y.id; created_at = y.created_at })
          × (view (two.create_version v w).1 ≡ put_entry (stored_entry jsonb y) (view w)))
        (ok-injective h) (refl, refl);
  create_version-err = λ v w x h. absurd (cc h);
  update_schemas-ok = λ p columns w n h. absurd (cc h);
  update_schemas-none = λ p columns w h. absurd (cc h);
  update_schemas-some = λ p columns w n h. absurd (cc h);
  update_schemas-err = λ p columns w x h. refl;
  first_version-view = λ p w. refl;
  first_version-found = λ p w v h. absurd (cc h);
  count_schemas-view = λ p w. refl;
  count_vendor_models-view = λ p w. refl;
  count_versions-view = λ p w. refl;
  find_schemas-view = λ p order limit offset w. refl;
  find_vendor_models-view = λ p order limit offset w. refl;
  find_versions-view = λ p order limit offset w. refl;
  find_schemas-met = λ p order limit offset w es h. absurd (cc h);
  delete_schemas-ok = λ p w n h. absurd (cc h);
  delete_schemas-none = λ p w h. absurd (cc h);
  delete_schemas-some = λ p w n h. absurd (cc h);
  delete_schemas-err = λ p w x h. refl;
  transaction-ok = λ body w a h. commit-ok view (body w).0 w (body w).1 a h;
  transaction-err = λ body w x h. commit-err view (body w).0 w (body w).1 x h;
}

abbrev bare : Two × Keys
bare = ((none, none, λ id n. none), λ k. none)

add_pair-Represents_example :
    (id id' : ℕ) × (nothing (slot_of_schema boot) ≡ none)
    × (nothing (slot_of_schema boot_response) ≡ none)
    × (slot_of_schema boot_response ≢ slot_of_schema boot)
    × Represents
        (view
          (add_pair
            (repo two plain_json redis coding 60)
            (store two plain_json redis coding 60)
            boot
            boot_response
            bare).1.0).rows
        (put
          (slot_of_schema boot_response)
          (some (new_item jsonb boot_response id'))
          (put (slot_of_schema boot) (some (new_item jsonb boot id)) nothing))
add_pair-Represents_example =
    add_pair-Represents two plain_json redis coding 60 jsonb view two-IsPostgres boot boot_response
      bare nothing
      (record {
        sound = λ id e there. absurd (cc there);
        keyed = λ id e there. absurd (cc there);
        complete = λ slot i full. absurd (cc full);
      })
      (unfold add_pair repo store repository add insert_with_changelog to_entity in_slot in refl)
