-- ===== src/Validation/Routing.antt =====
-- `GetSchema` of internal/validation/registry_adapter.go: which schema the library's lookups reach.
use chargeflow_registry.Prelude.{
  ℕ, suc, ◌+◌, ◌≤◌, String, ◌≡◌, refl, ap, true, false, arith, Bool-cases, inl, inr, ◌==◌, ◌<>◌,
  has_suffix, trim_suffix, eq_iff,
}
use text.Mathlib.TextLemmas.{nil-append, cons-append}
use Prim.Native.Char.{Char}
use chargeflow_registry.Schema.Model.{message_type_request, message_type_response}
use chargeflow_registry.Validation.Chargeflow.{Chargeflow, OcppContext}
use chargeflow_registry.Validation.Adapter.{SchemaGetter, fetch, get_schema}

size : String → ℕ
size String.[] = 0
size (String.◌∷◌ c s) = suc (size s)

size-append : (s t : String) → size (s <> t) ≡ size s + size t
unfolding size
size-append String.[] t = rw (nil-append t) (omega arith)
size-append (String.◌∷◌ c s) t = rw (cons-append c s t) (omega (arith, size-append s t))

-- A text in front of a suffix makes it longer.
longer : (c : Char) (s t : String) → (String.◌∷◌ c (s <> t) == t) ≡ false
longer c s t = elim (Bool-cases (String.◌∷◌ c (s <> t) == t)) [
  | inr differ ↦ differ
  | inl same ↦
      let e : String.◌∷◌ c (s <> t) ≡ t = (eq_iff (String.◌∷◌ c (s <> t)) t).0 same in
      let sizes : suc (size (s <> t)) ≡ size t = unfold size in ap size e in
      absurd (omega (arith, size-append s t))
]

module _ (t : String) where
  has_suffix-append : (s : String) → has_suffix t t ≡ true → has_suffix (s <> t) t ≡ true
  unfolding has_suffix
  has_suffix-append String.[] h = rw (nil-append t) h
  has_suffix-append (String.◌∷◌ c s) h =
      rw (cons-append c s t, longer c s t) (has_suffix-append s h)

  trim_suffix-append : (s : String) → trim_suffix t t ≡ "" → trim_suffix (s <> t) t ≡ s
  unfolding trim_suffix
  trim_suffix-append String.[] h = rw (nil-append t) h
  trim_suffix-append (String.◌∷◌ c s) h =
      rw (cons-append c s t, longer c s t) (ap (λ r. String.◌∷◌ c r) (trim_suffix-append s h))

other_suffix :
    (t u : String) (s : String)
    → size u ≤ size t
    → has_suffix t u ≡ false
    → has_suffix (s <> t) u ≡ false
unfolding has_suffix
other_suffix t u String.[] le h = rw (nil-append t) h
other_suffix t u (String.◌∷◌ c s) le h =
    let differ : (String.◌∷◌ c (s <> t) == u) ≡ false =
      elim (Bool-cases (String.◌∷◌ c (s <> t) == u)) [
        | inr differ ↦ differ
        | inl same ↦
            let sizes : suc (size (s <> t)) ≡ size u =
              unfold size in ap size ((eq_iff (String.◌∷◌ c (s <> t)) u).0 same) in
            absurd (omega (arith, size-append s t))
      ] in
    rw (cons-append c s t, differ) (other_suffix t u s le h)

module _ {W C P : Type 0} (getter : SchemaGetter W) (lib : Chargeflow W C P) where
  -- A lookup of <action>Request by the library is the lookup of the request schema of <action>, and
  -- one of <action>Response that of its response schema, for every action.
  pub get_schema-append :
      (context : OcppContext) (action : String) (w : W)
      → (get_schema getter lib (record { ocpp_context = context; action = action <> "Request" }) w
          ≡ fetch getter lib message_type_request action
              (record { ocpp_context = context; action = action <> "Request" })
              w)
        × (get_schema getter lib
              (record { ocpp_context = context; action = action <> "Response" })
              w
            ≡ fetch getter lib message_type_response action
                (record { ocpp_context = context; action = action <> "Response" })
                w)
  unfolding get_schema
  get_schema-append context action w =
      let requested : has_suffix (action <> "Request") "Request" ≡ true =
        has_suffix-append "Request" action (unfold has_suffix in refl) in
      let of_request : trim_suffix (action <> "Request") "Request" ≡ action =
        trim_suffix-append "Request" action (unfold trim_suffix in refl) in
      let not_requested : has_suffix (action <> "Response") "Request" ≡ false =
        other_suffix "Response" "Request" action (unfold size in omega arith)
          (unfold has_suffix in refl) in
      let responded : has_suffix (action <> "Response") "Response" ≡ true =
        has_suffix-append "Response" action (unfold has_suffix in refl) in
      let of_response : trim_suffix (action <> "Response") "Response" ≡ action =
        trim_suffix-append "Response" action (unfold trim_suffix in refl) in
      (rw (requested, of_request) refl, rw (not_requested, responded, of_response) refl)
