-- ===== src/Schema/Keys.antt =====
-- When `cacheKey` of internal/schema/service.go tells two schemas apart.
use chargeflow_registry.Prelude.{
  String, Option, none, some, Bool, true, false, ◌==◌, ◌<>◌, if◌then◌else◌, ◌≡◌, ◌≢◌, refl, ap, sym,
  ◌∙◌, inl, inr, Bool-cases,
}
use Prim.Native.Char.{Char}
use Prim.Native.String as Text
use text.Mathlib.TextLemmas.{append_cancel_left, nil-append, cons-append}
use chargeflow_registry.Schema.Model.{OcppVersion, MessageType}
use chargeflow_registry.Schema.CacheKey.{cache_key, or_nil}

-- A text with no colon in it.
abbrev pub no_colon : String → Bool
no_colon Text.[] = true
no_colon (Text.◌∷◌ c s) = if Text.◌∷◌ c "" == ":" then false else no_colon s

-- A slot whose key can be read back: `model` comes last, so it may hold colons.
pub record IsPlain (version : OcppVersion) (action : String) (msg_type : MessageType)
    (vendor model : Option String) : Type 0 where
  pub version_plain : no_colon version ≡ true
  pub action_plain : no_colon action ≡ true
  pub msg_type_plain : no_colon msg_type ≡ true
  pub vendor_plain : no_colon (or_nil vendor) ≡ true
  pub vendor_named : vendor ≢ some "nil"
  pub model_named : model ≢ some "nil"

colon-first : (c : Char) (s : String) → Text.◌∷◌ c "" ≡ ":" → no_colon (Text.◌∷◌ c s) ≡ false
colon-first c s e = rw e refl

no_colon-tail : (c : Char) (s : String) → no_colon (Text.◌∷◌ c s) ≡ true → no_colon s ≡ true
no_colon-tail c s h = elim (Bool-cases (Text.◌∷◌ c "" == ":")) [
  | inl colon ↦ absurd (cc (rw colon at h))
  | inr other ↦ rw other at h
]

cons-injective : (c d : Char) (s t : String) → Text.◌∷◌ c s ≡ Text.◌∷◌ d t → (c ≡ d) × (s ≡ t)
cons-injective c d s t e = (cc, cc)

-- What a separated text begins with.
colon_joined : (x : String) → "" <> ":" <> x ≡ Text.◌∷◌ ":" x
colon_joined x =
    nil-append (":" <> x) ∙ cons-append ":" "" x ∙ ap (λ s. Text.◌∷◌ ":" s) (nil-append x)

cons_joined : (c : Char) (a x : String) → Text.◌∷◌ c a <> ":" <> x ≡ Text.◌∷◌ c (a <> ":" <> x)
cons_joined c a x = cons-append c a (":" <> x)

split-injective :
    (a b x y : String)
    → no_colon a ≡ true
    → no_colon b ≡ true
    → a <> ":" <> x ≡ b <> ":" <> y
    → (a ≡ b) × (x ≡ y)
split-injective Text.[] Text.[] x y ha hb e =
    (refl, append_cancel_left ":" x y (append_cancel_left "" _ _ e))
split-injective Text.[] (Text.◌∷◌ d b) x y ha hb e =
    let (first, _) =
      cons-injective ":" d x (b <> ":" <> y) (sym (colon_joined x) ∙ e ∙ cons_joined d b y) in
    absurd (cc (colon-first d b (sym (ap (λ k. Text.◌∷◌ k "") first)), hb))
split-injective (Text.◌∷◌ c a) Text.[] x y ha hb e =
    let (first, _) =
      cons-injective c ":" (a <> ":" <> x) y (sym (cons_joined c a x) ∙ e ∙ colon_joined y) in
    absurd (cc (colon-first c a (ap (λ k. Text.◌∷◌ k "") first), ha))
split-injective (Text.◌∷◌ c a) (Text.◌∷◌ d b) x y ha hb e =
    let (first, behind) =
      cons-injective c d (a <> ":" <> x) (b <> ":" <> y)
        (sym (cons_joined c a x) ∙ e ∙ cons_joined d b y) in
    let (same, rest) =
      split-injective a b x y (no_colon-tail c a ha) (no_colon-tail d b hb) behind in
    (cc (first, same), rest)

or_nil-injective :
    (a b : Option String) → a ≢ some "nil" → b ≢ some "nil" → or_nil a ≡ or_nil b → a ≡ b
or_nil-injective none none ha hb e = refl
or_nil-injective none (some t) ha hb e = absurd (hb (ap some (sym e)))
or_nil-injective (some s) none ha hb e = absurd (ha (ap some e))
or_nil-injective (some s) (some t) ha hb e = ap some e

-- Two slots whose cache keys are equal are equal, if their versions, actions, message types and
-- vendors contain no colon and neither a vendor nor a model is the text nil.
pub cache_key-injective :
    (version version' : OcppVersion) (action action' : String) (msg_type msg_type' : MessageType)
    (vendor vendor' model model' : Option String)
    → IsPlain version action msg_type vendor model
    → IsPlain version' action' msg_type' vendor' model'
    → cache_key version action msg_type vendor model
      ≡ cache_key version' action' msg_type' vendor' model'
    → (version ≡ version')
      × (action ≡ action')
      × (msg_type ≡ msg_type')
      × (vendor ≡ vendor')
      × (model ≡ model')
unfolding cache_key
cache_key-injective version version' action action' msg_type msg_type' vendor vendor' model model' h
      h' e =
    let (versions, e1) =
      split-injective version version' _ _ h.version_plain h'.version_plain
        (append_cancel_left "schema:" _ _ e) in
    let (actions, e2) = split-injective action action' _ _ h.action_plain h'.action_plain e1 in
    let (types, e3) =
      split-injective msg_type msg_type' _ _ h.msg_type_plain h'.msg_type_plain e2 in
    let (vendors, models) =
      split-injective (or_nil vendor) (or_nil vendor') _ _ h.vendor_plain h'.vendor_plain e3 in
    (
      versions,
      actions,
      types,
      or_nil-injective vendor vendor' h.vendor_named h'.vendor_named vendors,
      or_nil-injective model model' h.model_named h'.model_named models,
    )
