-- ===== src/Tests/Archive.antt =====
-- A database with one schema of three versions, which answers queries of its changelog only, and the
-- theorem on the client that reads it.
use chargeflow_registry.Prelude.{
  ℕ, zero, suc, ◌<◌, ◌≤◌, none, some, List, [], ◌∷◌, true, false, nat_eq, if◌then◌else◌, pos,
  length, take, drop, select, ◌≡◌, ◌≢◌, ◌∙◌, refl, sym, ap, subst, Bool-cases, inl, inr, ◌==◌, ok,
  ok-injective, arith,
}
use mathlib.Core.Path.{fun_ext}
use chargeflow_registry.Errors.{other, err_not_found, err_record_not_found}
use chargeflow_registry.Schema.Model.{Uuid}
use chargeflow_registry.Postgres.Model.{SchemaEntity, SchemaVersionEntity}
use chargeflow_registry.Postgres.Gorm.{Gorm}
use chargeflow_registry.Postgres.Query.{of_schema}
use chargeflow_registry.Postgres.Tables.{Tables, IsPostgres}
use chargeflow_registry.Postgres.Changelog.{Log, HasLog, Agrees, IsVersioned}
use chargeflow_registry.Postgres.Paging.{newest_first, IsListing}
use chargeflow_registry.Postgres.Model.{to_version_domain_slice}
use chargeflow_registry.Postgres.Repository.{repository, list_versions}
use chargeflow_registry.Schema.Service
use chargeflow_registry.Pagination.Token.{clamp_page_size, decode_offset, next_token}
use chargeflow_registry.Grpc.Messages.{SchemaVersionMessage}
use chargeflow_registry.Grpc.Mapping.{Wire, schema_versions_to_proto}
use chargeflow_registry.Grpc.Handler.{list_schema_versions}
use chargeflow_registry.App.{repo, schema_service}
use chargeflow_registry.App.Paging.{messages}
use chargeflow_registry.App.Changelogs.{read_changelog, read_changelog-newest_first}
use chargeflow_registry.Tests.Tokens.{letters, letters-IsCodec, spell, spell_all, read_letters}
use chargeflow_registry.Tests.Cell.{jsonb}
use chargeflow_registry.Tests.Failing.{down, commit, commit-ok, commit-err, foreign, err-injective}
use chargeflow_registry.Tests.Worlds.{boot_verified, plain_json, Keys, redis, coding}

abbrev entry : ℕ → SchemaVersionEntity
entry n = record { id = n; schema_id = 7; version = n; schema = n ∷ []; created_at = n }

abbrev pub log : Log
log zero = none
log (suc zero) = some (entry 1)
log (suc (suc zero)) = some (entry 2)
log (suc (suc (suc zero))) = some (entry 3)
log (suc (suc (suc (suc n)))) = none

abbrev pub row : SchemaEntity
row = record {
  id = 7;
  ocpp_version = boot_verified.ocpp_version;
  action = boot_verified.action;
  message_type = boot_verified.message_type;
  vendor = none;
  model = none;
  schema = 3 ∷ [];
  status = boot_verified.status;
  version = 3;
  created_at = 5;
  updated_at = 6;
}

abbrev three : List SchemaVersionEntity
three = entry 3 ∷ entry 2 ∷ entry 1 ∷ []

abbrev pub view : Unit {0} → Tables
view _ = record {
  rows = λ id. if nat_eq 7 id then some row else none;
  changelog = λ id n. if nat_eq 7 id then log n else none;
}

abbrev pub archive : Gorm (Unit {0})
archive = record {
  first_schema = λ p. down;
  create_schema = λ e. down;
  update_schemas = λ p columns. down;
  delete_schemas = λ p. down;
  count_schemas = λ p. down;
  find_schemas = λ p order limit offset. down;
  count_vendor_models = λ p. down;
  find_vendor_models = λ p order limit offset. down;
  first_version = λ p. down;
  create_version = λ v. down;
  count_versions = λ p w. (ok (pos (length (select p three))), w);
  find_versions = λ p order limit offset w. (ok (take limit (drop offset (select p three))), w);
  transaction = λ body w. let done = body w in commit done.0 w done.1;
}

pub archive-IsPostgres : IsPostgres archive jsonb view
archive-IsPostgres = record {
  first_schema-view = λ p w. refl;
  first_schema-found = λ p w e h. absurd (cc h);
  first_schema-missing = λ p w x h missing.
      absurd (cc (foreign x err_record_not_found (err-injective (other "down") x h), missing));
  first_schema-foreign = λ p w x h. foreign x err_not_found (err-injective (other "down") x h);
  create_schema-ok = λ e w e' positive h. absurd (cc h);
  create_schema-err = λ e w x h. refl;
  create_version-ok = λ v w v' h. absurd (cc h);
  create_version-err = λ v w x h. refl;
  update_schemas-ok = λ p columns w n h. absurd (cc h);
  update_schemas-none = λ p columns w h. absurd (cc h);
  update_schemas-some = λ p columns w n h. absurd (cc h);
  update_schemas-err = λ p columns w x h. refl;
  first_version-view = λ p w. refl;
  first_version-found = λ p w v h. absurd (cc h);
  count_schemas-view = λ p w. refl;
  count_vendor_models-view = λ p w. refl;
  count_versions-view = λ p w. refl;
  find_schemas-view = λ p order limit offset w. refl;
  find_vendor_models-view = λ p order limit offset w. refl;
  find_versions-view = λ p order limit offset w. refl;
  find_schemas-met = λ p order limit offset w es h. absurd (cc h);
  delete_schemas-ok = λ p w n h. absurd (cc h);
  delete_schemas-none = λ p w h. absurd (cc h);
  delete_schemas-some = λ p w n h. absurd (cc h);
  delete_schemas-err = λ p w x h. refl;
  transaction-ok = λ body w a h. commit-ok view (body w).0 w (body w).1 a h;
  transaction-err = λ body w x h. commit-err view (body w).0 w (body w).1 x h;
}

newest_first-none : (n : ℕ) → newest_first (λ k. none) n ≡ []
newest_first-none zero = refl
newest_first-none (suc n) = newest_first-none n

newest_first-three : (n : ℕ) → 3 ≤ n → newest_first log n ≡ three
newest_first-three zero h = absurd (omega arith)
newest_first-three (suc zero) h = absurd (omega arith)
newest_first-three (suc (suc zero)) h = absurd (omega arith)
newest_first-three (suc (suc (suc zero))) h = refl
newest_first-three (suc (suc (suc (suc n)))) h =
    newest_first-three (suc (suc (suc n))) (omega arith)

log_reaches : (n : ℕ) → ((k : ℕ) → n < k → log k ≡ none) → 3 ≤ n
log_reaches zero h = absurd (cc (h 3 (omega arith)))
log_reaches (suc zero) h = absurd (cc (h 3 (omega arith)))
log_reaches (suc (suc zero)) h = absurd (cc (h 3 (omega arith)))
log_reaches (suc (suc (suc n))) h = omega arith

own_changelog : (id : Uuid) → nat_eq 7 id ≡ true → (view tt).changelog id ≡ log
own_changelog id here = fun_ext λ n. rw here refl

no_changelog : (id : Uuid) → nat_eq 7 id ≡ false → (view tt).changelog id ≡ (λ n. none)
no_changelog id away = fun_ext λ n. rw away refl

select-newest_first :
    (id : Uuid) (n : ℕ)
    → ((k : ℕ) → n < k → (view tt).changelog id k ≡ none)
    → select (of_schema id) three ≡ newest_first ((view tt).changelog id) n
select-newest_first id n h = elim (Bool-cases (nat_eq 7 id)) [
  | inl here ↦
      let own = own_changelog id here in
      let reaches = log_reaches n (λ k above. sym (ap (λ (l : Log). l k) own) ∙ h k above) in
      let picked : select (of_schema id) three ≡ three = rw here refl in
      picked ∙ sym (ap (λ l. newest_first l n) own ∙ newest_first-three n reaches)
  | inr away ↦
      let none_picked : select (of_schema id) three ≡ [] = rw away refl in
      none_picked ∙ sym (ap (λ l. newest_first l n) (no_changelog id away) ∙ newest_first-none n)
]

pub archive-IsListing : IsListing archive view
archive-IsListing = record {
  count-ok = λ id n w total bounded h.
      sym (ok-injective h) ∙ ap (λ vs. pos (length vs)) (select-newest_first id n bounded);
  find-ok = λ id n limit offset w vs bounded h.
      sym (ok-injective h)
      ∙ ap (λ es. take limit (drop offset es)) (select-newest_first id n bounded);
}

log_complete : (n : ℕ) → 0 < n → n ≤ 3 → log n ≢ none
log_complete zero low high e = absurd (omega arith)
log_complete (suc zero) low high e = cc e
log_complete (suc (suc zero)) low high e = cc e
log_complete (suc (suc (suc zero))) low high e = cc e
log_complete (suc (suc (suc (suc n)))) low high e = absurd (omega arith)

log_bounded : (n : ℕ) → 3 < n → log n ≡ none
log_bounded zero h = refl
log_bounded (suc zero) h = absurd (omega arith)
log_bounded (suc (suc zero)) h = absurd (omega arith)
log_bounded (suc (suc (suc zero))) h = absurd (omega arith)
log_bounded (suc (suc (suc (suc n)))) h = refl

row-HasLog : HasLog 7 row log
row-HasLog = record {
  keyed = refl;
  started = omega arith;
  current = refl;
  complete = log_complete;
  unborn = refl;
  bounded = log_bounded;
}

pub archive-IsVersioned : IsVersioned (view tt)
archive-IsVersioned = record {
  at_id = λ id. elim (Bool-cases (nat_eq 7 id)) [
    | inr away ↦ rw away (λ n. rw away refl)
    | inl here ↦
        let key : 7 ≡ id = ground arith in
        subst (λ k. Agrees k ((view tt).rows k) ((view tt).changelog k)) key
          (subst (HasLog 7 row) (sym (own_changelog 7 refl)) row-HasLog)
  ];
}

abbrev wire : Wire ℕ
wire = record {
  parse_uuid = λ s. if s == "seven" then some 7 else none;
  uuid_string = λ id. "seven";
  timestamp = λ t. t;
}

abbrev opened : Unit {0} × Keys
opened = (tt, λ k. none)

abbrev shown : List (SchemaVersionMessage ℕ)
shown = messages wire three

-- Two pages: two entries, and one.
read_changelog-newest_first_example :
    (shown ≡ messages wire (newest_first ((view tt).changelog 7) 3)) × (length shown ≡ 3)
read_changelog-newest_first_example =
    read_changelog-newest_first wire archive plain_json redis coding 60 jsonb view
      archive-IsPostgres archive-IsListing letters "seven" (pos 2) 7 row opened 5 shown
      letters-IsCodec (omega arith) refl archive-IsVersioned refl (omega arith) (omega arith)
      (unfold read_changelog list_schema_versions schema_service Service.list_versions
          Service.clamp_page_size clamp_page_size repo repository list_versions decode_offset
          next_token schema_versions_to_proto to_version_domain_slice letters spell_all spell
          read_letters in
        refl)
