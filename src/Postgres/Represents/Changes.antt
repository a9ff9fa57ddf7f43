-- ===== src/Postgres/Represents/Changes.antt =====
-- What a change of the rows is for the registry that they stand for.
use chargeflow_registry.Prelude.{
  none, some, Bool, true, false, nat_eq, ◌≡◌, refl, sym, ap, ◌∙◌, subst, inl, inr, Bool-cases,
  Option-cases, arith,
}
use chargeflow_registry.Schema.Model.{Uuid}
use chargeflow_registry.Postgres.Model.{SchemaEntity}
use chargeflow_registry.Postgres.Spec.{
  Slot, Item, Registry, slot_eq, put, modify, slot_eq_iff, slot_eq_refl,
}
use chargeflow_registry.Postgres.Represents.{
  Represents, Rows, slot_of, item_of, insert_row, remove_rows, change_row,
}

module _ (rows : Rows) (r : Registry) (h : Represents rows r) where
  -- A registry has an item in a slot if and only if a row is in it.
  pub slot_free :
      (s : Slot)
      → ((id : Uuid) (e : SchemaEntity) → rows id ≡ some e → slot_eq (slot_of e) s ≡ false)
      → r s ≡ none
  slot_free s free = elim (Option-cases (r s)) [
    | inl empty ↦ empty
    | inr (i, full) ↦
        let (e, present, here, same) = h.complete s i full in
        absurd (cc (free i.id e present, (slot_eq_iff (slot_of e) s).1 here))
  ]

  pub insert-Represents :
      (e : SchemaEntity)
      → rows e.id ≡ none
      → ((id : Uuid) (x : SchemaEntity)
          → rows id ≡ some x
          → slot_eq (slot_of x) (slot_of e) ≡ false)
      → Represents (insert_row e rows) (put (slot_of e) (some (item_of e)) r)
  insert-Represents e free unique = record {
    sound = λ id x there. elim (Bool-cases (nat_eq e.id id)) [
      | inl here ↦
          let same : e ≡ x = cc (rw here at there) in
          subst (λ y. put (slot_of e) (some (item_of e)) r (slot_of y) ≡ some (item_of y)) same
            (rw (slot_eq_refl (slot_of e)) refl)
      | inr away ↦
          let before : rows id ≡ some x = rw away at there in
          rw (unique id x before) (h.sound id x before)
    ];
    keyed = λ id x there. elim (Bool-cases (nat_eq e.id id)) [
      | inl here ↦
          let same : e ≡ x = cc (rw here at there) in
          let key : e.id ≡ id = ground arith in ap (λ (y : SchemaEntity). y.id) (sym same) ∙ key
      | inr away ↦ h.keyed id x (rw away at there)
    ];
    complete = λ s i full. elim (Bool-cases (slot_eq s (slot_of e))) [
      | inl here ↦
          let same : item_of e ≡ i = cc (rw here at full) in
          let slot : s ≡ slot_of e = (slot_eq_iff s (slot_of e)).0 here in
          let key : e.id ≡ i.id = ap (λ (y : Item). y.id) same in
          (e, subst (λ k. insert_row e rows k ≡ some e) key (ground arith), sym slot, same)
      | inr away ↦
          let (x, present, there, same) = h.complete s i (rw away at full) in
          let apart : nat_eq e.id i.id ≡ false = elim (Bool-cases (nat_eq e.id i.id)) [
            | inr apart ↦ apart
            | inl met ↦
                let key : e.id ≡ i.id = ground arith in
                absurd (cc (subst (λ k. rows k ≡ none) key free, present))
          ] in
          (x, rw apart present, there, same)
    ];
  }

  remains :
      (p : SchemaEntity → Bool) (id : Uuid) (x : SchemaEntity)
      → remove_rows p rows id ≡ some x
      → (rows id ≡ some x) × (p x ≡ false)
  remains p id x there = elim (Option-cases (rows id)) [
    | inl absent ↦ absurd (cc (rw absent at there))
    | inr (y, present) ↦ elim (Bool-cases (p y)) [
      | inl met ↦ absurd (cc (rw (present, met) at there))
      | inr kept ↦
          let same : y ≡ x = cc (rw (present, kept) at there) in
          (present ∙ ap some same, subst (λ z. p z ≡ false) same kept)
    ]
  ]

  pub remove-Represents :
      (p : SchemaEntity → Bool) (s : Slot)
      → ((e : SchemaEntity) → p e ≡ slot_eq (slot_of e) s)
      → Represents (remove_rows p rows) (put s none r)
  remove-Represents p s test = record {
    sound = λ id x there.
        let (before, other) = remains p id x there in
        let apart : slot_eq (slot_of x) s ≡ false = sym (test x) ∙ other in
        rw apart (h.sound id x before);
    keyed = λ id x there. let (before, other) = remains p id x there in h.keyed id x before;
    complete = λ t i full. elim (Bool-cases (slot_eq t s)) [
      | inl here ↦ absurd (cc (rw here at full))
      | inr away ↦
          let (x, present, there, same) = h.complete t i (rw away at full) in
          let kept : p x ≡ false = test x ∙ ap (λ u. slot_eq u s) there ∙ away in
          (x, rw (present, kept) refl, there, same)
    ];
  }

  module _ (id : Uuid) (g : SchemaEntity → SchemaEntity) (f : Item → Item)
      (same_slot : (e : SchemaEntity) → slot_of (g e) ≡ slot_of e)
      (same_id : (e : SchemaEntity) → (g e).id ≡ e.id)
      (same_item : (e : SchemaEntity) → item_of (g e) ≡ f (item_of e)) where
    pub modify-Represents : Represents (λ j. change_row id g (rows j)) (modify id f r)
    modify-Represents = record {
      sound = λ j x there. elim (Option-cases (rows j)) [
        | inl absent ↦ absurd (cc (rw absent at there))
        | inr (e, present) ↦
            let item = h.sound j e present in
            elim (Bool-cases (nat_eq e.id id)) [
              | inl here ↦
                  let same : g e ≡ x = cc (rw (present, here) at there) in
                  subst (λ y. modify id f r (slot_of y) ≡ some (item_of y)) same
                    (rw (same_slot e, item, here) (ap some (sym (same_item e))))
              | inr away ↦
                  let same : e ≡ x = cc (rw (present, away) at there) in
                  subst (λ y. modify id f r (slot_of y) ≡ some (item_of y)) same
                    (rw (item, away) refl)
            ]
      ];
      keyed = λ j x there. elim (Option-cases (rows j)) [
        | inl absent ↦ absurd (cc (rw absent at there))
        | inr (e, present) ↦ elim (Bool-cases (nat_eq e.id id)) [
          | inl here ↦
              let same : g e ≡ x = cc (rw (present, here) at there) in
              ap (λ (y : SchemaEntity). y.id) (sym same) ∙ same_id e ∙ h.keyed j e present
          | inr away ↦
              let same : e ≡ x = cc (rw (present, away) at there) in
              ap (λ (y : SchemaEntity). y.id) (sym same) ∙ h.keyed j e present
        ]
      ];
      complete = λ s i full. elim (Option-cases (r s)) [
        | inl empty ↦ absurd (cc (rw empty at full))
        | inr (k, held) ↦
            let (e, present, there, same) = h.complete s k held in
            let key : e.id ≡ k.id = ap (λ (y : Item). y.id) same in
            elim (Bool-cases (nat_eq e.id id)) [
              | inl here ↦
                  let here' : nat_eq k.id id ≡ true = subst (λ n. nat_eq n id ≡ true) key here in
                  let item : f k ≡ i = cc (rw (held, here') at full) in
                  let made : item_of (g e) ≡ i = same_item e ∙ ap f same ∙ item in
                  let key' : k.id ≡ i.id =
                    sym key ∙ sym (same_id e) ∙ ap (λ (y : Item). y.id) made in
                  (
                    g e,
                    subst (λ n. change_row id g (rows n) ≡ some (g e)) key'
                        (rw (present, here) refl),
                    same_slot e ∙ there,
                    made,
                  )
              | inr away ↦
                  let away' : nat_eq k.id id ≡ false = subst (λ n. nat_eq n id ≡ false) key away in
                  let item : k ≡ i = cc (rw (held, away') at full) in
                  (
                    e,
                    subst (λ (n : Item). change_row id g (rows n.id) ≡ some e) item
                        (rw (present, away) refl),
                    there,
                    same ∙ item,
                  )
            ]
      ];
    }
