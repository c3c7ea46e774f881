-- ===== src/Provider/Answers/Numbered.antt =====
-- What `interpret_batch` of crates/provider/src/gateway.rs makes of an answer, by its items' ids.
use datalens.Prelude.{
  ℕ, zero, suc, ◌+◌, ◌-◌, ◌≤◌, ◌≡◌, refl, ◌∙◌, inl, inr, Bool, true, false, Option, none, some,
  List, length, ◌==◌, arith, Bool-cases, Option-cases, subst, ap,
}
use datalens.Provider.Errors.{fatal, duplicate_id, Result, ok, err, Phrases}
use datalens.Provider.Answers.{
  Value, null, scalar, int, negative, text, object, id_key, get, Values, nil, item, array, item_id,
  Slot, slot_at, set_slot, empty_slots, results_of, interpret_object, fill_slots, interpret_batch,
}
use datalens.Provider.Answers.Slots.{
  any_id, well_numbered, answers_from, merged, merged-nil, merged-empty, merged-set_slot,
  slot_at-set_slot, slot_at-own, length-set_slot,
}

item_id-bounds :
    (expected id : ℕ) (v : Value) → item_id expected v ≡ some id → (1 ≤ id) × (id ≤ expected)
unfolding item_id
item_id-bounds expected id v e = go (get id_key v) refl
  where
    go : (o : Option Value) → get id_key v ≡ o → (1 ≤ id) × (id ≤ expected)
    go none f = ground (arith, e, f)
    go (some (int n)) f = ground (arith, e, f)
    go (some null) f = ground (arith, e, f)
    go (some scalar) f = ground (arith, e, f)
    go (some (negative n)) f = ground (arith, e, f)
    go (some (text n)) f = ground (arith, e, f)
    go (some (array n)) f = ground (arith, e, f)
    go (some (object n)) f = ground (arith, e, f)

any_id-bounds : (expected id : ℕ) (items : Values) → any_id expected id items ≡ true → 1 ≤ id
any_id-bounds expected id nil a = cc
any_id-bounds expected id (item v items) a = elim (Option-cases (item_id expected v)) [
  | inl e ↦ any_id-bounds expected id items (ground (arith, e, a))
  | inr (i, e) ↦
      ground (arith, e, a, item_id-bounds expected i v e, any_id-bounds expected id items)
]

-- An item's id is not that of an item after it.
id_differs :
    (expected id k : ℕ) (items : Values)
    → any_id expected id items ≡ false
    → any_id expected k items ≡ true
    → 1 ≤ id
    → (id - 1 == k - 1) ≡ false
id_differs expected id k items n a b = elim (Bool-cases (id - 1 == k - 1)) [
  | inl e ↦
      let same : k ≡ id = ground (arith, e, b, any_id-bounds expected k items a) in
      cc (n, subst (λ k. any_id expected k items ≡ true) same a)
  | inr e ↦ e
]

slot_at-empty : (n i : ℕ) → slot_at i (empty_slots n) ≡ none
unfolding slot_at empty_slots
slot_at-empty zero i = refl
slot_at-empty (suc n) zero = refl
slot_at-empty (suc n) (suc i) = slot_at-empty n i

length-empty_slots : (n : ℕ) → length (empty_slots n) ≡ n
unfolding empty_slots
length-empty_slots zero = refl
length-empty_slots (suc n) = ground (arith, length-empty_slots n)

abbrev pub is_ok {ℓ} : {A : Type ℓ} → Result A → Bool
is_ok (ok a) = true
is_ok (err e) = false

abbrev collected : Result (List Slot) → Result (List (Result Value))
collected (ok slots) = ok (results_of slots)
collected (err e) = err e

module _ (phrases : Option ℕ → Phrases) where
  -- The slots of the items' ids are free.
  abbrev Free : ℕ → Values → List Slot → Type 0
  Free expected items slots =
      (id : ℕ) → any_id expected id items ≡ true → slot_at (id - 1) slots ≡ none

  fill_slots-next :
      (expected id : ℕ) (v : Value) (items : Values) (slots : List Slot)
      → item_id expected v ≡ some id
      → slot_at (id - 1) slots ≡ none
      → fill_slots phrases expected (item v items) slots
        ≡ fill_slots phrases expected items (set_slot (id - 1) (interpret_object phrases v) slots)
  unfolding fill_slots
  fill_slots-next expected id v items slots e f = ground (arith, e, f)

  fill_slots-duplicate :
      (expected id : ℕ) (v : Value) (items : Values) (slots : List Slot) (r : Result Value)
      → item_id expected v ≡ some id
      → slot_at (id - 1) slots ≡ some r
      → fill_slots phrases expected (item v items) slots ≡ err (fatal duplicate_id)
  unfolding fill_slots
  fill_slots-duplicate expected id v items slots r e f = ground (arith, e, f)

  fill_slots-merged :
      (expected : ℕ) (items : Values) (slots : List Slot)
      → length slots ≡ expected
      → well_numbered expected items ≡ true
      → Free expected items slots
      → collected (fill_slots phrases expected items slots)
        ≡ ok (merged phrases expected 1 items slots)
  unfolding fill_slots
  fill_slots-merged expected nil slots l w f = rw (merged-nil phrases expected 1 slots) refl
  fill_slots-merged expected (item v items) slots l w f = elim (Option-cases (item_id expected v)) [
    | inl e ↦ ground (arith, e, w)
    | inr (id, e) ↦
        let b = item_id-bounds expected id v e in
        let s : slot_at (id - 1) slots ≡ none = f id (ground (arith, e)) in
        let e' : item_id expected v ≡ some (1 + (id - 1)) = ground (arith, e, b.0) in
        let other : (k : ℕ)
            → any_id expected k items ≡ true
            → slot_at (k - 1) (set_slot (id - 1) (interpret_object phrases v) slots) ≡ none =
          λ k a.
            slot_at-set_slot phrases (id - 1) (k - 1) (interpret_object phrases v) slots
              (id_differs expected id k items (ground (arith, w, e)) a b.0)
            ∙ f k (ground (arith, a)) in
        let rest =
          fill_slots-merged expected items (set_slot (id - 1) (interpret_object phrases v) slots)
            (length-set_slot phrases (id - 1) (interpret_object phrases v) slots ∙ l)
            (ground (arith, w, e)) other in
        rw (fill_slots-next expected id v items slots e s)
          (rest ∙ ap ok (merged-set_slot phrases expected (id - 1) 1 v items slots e' s))
  ]

  -- A second item for a filled slot is an error.
  fill_slots-taken :
      (expected id : ℕ) (items : Values) (slots : List Slot) (r : Result Value)
      → any_id expected id items ≡ true
      → slot_at (id - 1) slots ≡ some r
      → is_ok (fill_slots phrases expected items slots) ≡ false
  unfolding fill_slots
  fill_slots-taken expected id nil slots r a s = cc
  fill_slots-taken expected id (item v items) slots r a s =
      elim (Option-cases (item_id expected v)) [
        | inl e ↦ ground (arith, e)
        | inr (i, e) ↦ elim (Option-cases (slot_at (i - 1) slots)) [
          | inr (t, f) ↦ rw (fill_slots-duplicate expected i v items slots t e f) refl
          | inl f ↦
              let rest : any_id expected id items ≡ true = ground (arith, e, a, s, f) in
              let differs : (i - 1 == id - 1) ≡ false = ground (arith, s, f) in
              rw (fill_slots-next expected i v items slots e f) (
                fill_slots-taken expected id items
                  (set_slot (i - 1) (interpret_object phrases v) slots) r rest
                  (slot_at-set_slot phrases (i - 1) (id - 1) (interpret_object phrases v) slots
                      differs
                    ∙ s))
        ]
      ]

  fill_slots-refused :
      (expected : ℕ) (items : Values) (slots : List Slot)
      → length slots ≡ expected
      → well_numbered expected items ≡ false
      → is_ok (fill_slots phrases expected items slots) ≡ false
  unfolding fill_slots
  fill_slots-refused expected nil slots l w = cc
  fill_slots-refused expected (item v items) slots l w = elim (Option-cases (item_id expected v)) [
    | inl e ↦ ground (arith, e)
    | inr (i, e) ↦
        let b = item_id-bounds expected i v e in
        let set = set_slot (i - 1) (interpret_object phrases v) slots in
        elim (Option-cases (slot_at (i - 1) slots)) [
          | inr (t, f) ↦ rw (fill_slots-duplicate expected i v items slots t e f) refl
          | inl f ↦ elim (Bool-cases (any_id expected i items)) [
            | inl a ↦ rw (fill_slots-next expected i v items slots e f) (
                fill_slots-taken expected i items set (interpret_object phrases v) a (
                  slot_at-own phrases (i - 1) (interpret_object phrases v) slots
                    (omega (arith, b.0, b.1, l))))
            | inr a ↦ rw (fill_slots-next expected i v items slots e f) (
                fill_slots-refused expected items set
                  (length-set_slot phrases (i - 1) (interpret_object phrases v) slots ∙ l)
                  (ground (arith, w, e, a)))
          ]
        ]
  ]

  -- An answer to `expected` requests is accepted exactly if its items have distinct ids from 1 to
  -- `expected`; the results are then, for each request in order, what the item with its id says, or
  -- that the item is missing.
  pub interpret_batch-by_id :
      (items : Values) (expected : ℕ)
      → (well_numbered expected items ≡ true
          → interpret_batch phrases (array items) expected
            ≡ ok (answers_from phrases expected expected 1 items))
        × (well_numbered expected items ≡ false
            → is_ok (interpret_batch phrases (array items) expected) ≡ false)
  unfolding interpret_batch
  interpret_batch-by_id items expected = (
    (λ w.
        let full =
          fill_slots-merged expected items (empty_slots expected) (length-empty_slots expected) w
            (λ id a. slot_at-empty expected (id - 1)) in
        full ∙ ap ok (merged-empty phrases expected expected 1 items)),
    (λ w.
        let bad =
          fill_slots-refused expected items (empty_slots expected) (length-empty_slots expected)
            w in
        ground (arith, bad)),
  )
