-- ===== src/Provider/Answers/Slots.antt =====
-- `interpret_batch` of crates/provider/src/gateway.rs against a description by the items' ids.
use datalens.Prelude.{
  ℕ, zero, suc, ◌+◌, ◌≤◌, ◌≡◌, refl, Bool, true, false, not, ◌&&◌, ◌||◌, Option, none, some, List,
  [], ◌∷◌, length, ◌==◌, if◌then◌else◌, arith,
}
use datalens.Provider.Errors.{fatal, missing_item, Result, err, Phrases}
use datalens.Provider.Answers.{
  Value, Values, nil, item, item_id, Slot, slot_at, set_slot, empty_slots, results_of,
  interpret_object,
}

-- Whether an item has the id.
abbrev pub has_id : ℕ → ℕ → Value → Bool
has_id expected id v = elim (item_id expected v) [ none ↦ false | some i ↦ i == id ]

abbrev pub any_id : ℕ → ℕ → Values → Bool
any_id expected id nil = false
any_id expected id (item v items) = has_id expected id v || any_id expected id items

-- Each item has an id from 1 to `expected`, and no other item has it.
abbrev pub well_numbered : ℕ → Values → Bool
well_numbered expected nil = true
well_numbered expected (item v items) =
    (elim (item_id expected v) [ none ↦ false | some id ↦ not (any_id expected id items) ])
    && well_numbered expected items

module _ (phrases : Option ℕ → Phrases) where
  -- What the answer says of one id: the item with it, or that none has it.
  pub answer_of : ℕ → ℕ → Values → Result Value
  answer_of expected id nil = err (fatal missing_item)
  answer_of expected id (item v items) =
      if has_id expected id v then interpret_object phrases v else answer_of expected id items

  -- The answers of the ids from `id` on, `n` of them.
  pub answers_from : ℕ → ℕ → ℕ → Values → List (Result Value)
  unfolding answer_of
  answers_from expected zero id items = []
  answers_from expected (suc n) id items =
      answer_of expected id items ∷ answers_from expected n (id + 1) items

  pub length-answers_from :
      (expected n id : ℕ) (items : Values) → length (answers_from expected n id items) ≡ n
  unfolding answers_from
  length-answers_from expected zero id items = refl
  length-answers_from expected (suc n) id items =
      ground (arith, length-answers_from expected n (id + 1) items)

  -- What slots and items say together.
  pub merged : ℕ → ℕ → Values → List Slot → List (Result Value)
  merged expected id items [] = []
  merged expected id items (none ∷ slots) =
      answer_of expected id items ∷ merged expected (id + 1) items slots
  merged expected id items (some r ∷ slots) = r ∷ merged expected (id + 1) items slots

  pub merged-nil :
      (expected id : ℕ) (slots : List Slot) → merged expected id nil slots ≡ results_of slots
  unfolding merged answer_of results_of
  merged-nil expected id [] = refl
  merged-nil expected id (none ∷ slots) = rw (merged-nil expected (id + 1) slots) refl
  merged-nil expected id (some r ∷ slots) = rw (merged-nil expected (id + 1) slots) refl

  pub merged-empty :
      (expected n id : ℕ) (items : Values)
      → merged expected id items (empty_slots n) ≡ answers_from expected n id items
  unfolding merged empty_slots answers_from
  merged-empty expected zero id items = refl
  merged-empty expected (suc n) id items = rw (merged-empty expected n (id + 1) items) refl

  answer_of-other :
      (expected i id : ℕ) (v : Value) (items : Values)
      → item_id expected v ≡ some i
      → (i == id) ≡ false
      → answer_of expected id (item v items) ≡ answer_of expected id items
  unfolding answer_of
  answer_of-other expected i id v items e h = ground (arith, e, h)

  answer_of-own :
      (expected id : ℕ) (v : Value) (items : Values)
      → item_id expected v ≡ some id
      → answer_of expected id (item v items) ≡ interpret_object phrases v
  unfolding answer_of
  answer_of-own expected id v items e = ground (arith, e)

  -- Slots above an item's id do not see it.
  merged-above :
      (expected i id : ℕ) (v : Value) (items : Values) (slots : List Slot)
      → item_id expected v ≡ some i
      → i + 1 ≤ id
      → merged expected id (item v items) slots ≡ merged expected id items slots
  unfolding merged
  merged-above expected i id v items [] e h = refl
  merged-above expected i id v items (none ∷ slots) e h =
      rw
        (
          answer_of-other expected i id v items e (ground (arith, h)),
          merged-above expected i (id + 1) v items slots e (omega (arith, h)),
        )
        refl
  merged-above expected i id v items (some r ∷ slots) e h =
      rw (merged-above expected i (id + 1) v items slots e (omega (arith, h))) refl

  -- An item fills the slot of its id.
  pub merged-set_slot :
      (expected k id : ℕ) (v : Value) (items : Values) (slots : List Slot)
      → item_id expected v ≡ some (id + k)
      → slot_at k slots ≡ none
      → merged expected id items (set_slot k (interpret_object phrases v) slots)
        ≡ merged expected id (item v items) slots
  unfolding merged slot_at set_slot
  merged-set_slot expected k id v items [] e f = refl
  merged-set_slot expected zero id v items (none ∷ slots) e f =
      let e' : item_id expected v ≡ some id = ground (arith, e) in
      rw
        (
          answer_of-own expected id v items e',
          merged-above expected id (id + 1) v items slots e' (omega arith),
        )
        refl
  merged-set_slot expected zero id v items (some r ∷ slots) e f = cc
  merged-set_slot expected (suc k) id v items (none ∷ slots) e f =
      let e' : item_id expected v ≡ some (id + 1 + k) = ground (arith, e) in
      rw
        (
          answer_of-other expected (id + suc k) id v items e (ground arith),
          merged-set_slot expected k (id + 1) v items slots e' f,
        )
        refl
  merged-set_slot expected (suc k) id v items (some r ∷ slots) e f =
      let e' : item_id expected v ≡ some (id + 1 + k) = ground (arith, e) in
      rw (merged-set_slot expected k (id + 1) v items slots e' f) refl

  pub slot_at-set_slot :
      (k i : ℕ) (r : Result Value) (slots : List Slot)
      → (k == i) ≡ false
      → slot_at i (set_slot k r slots) ≡ slot_at i slots
  unfolding slot_at set_slot
  slot_at-set_slot k i r [] h = refl
  slot_at-set_slot zero zero r (s ∷ slots) h = cc
  slot_at-set_slot zero (suc i) r (s ∷ slots) h = refl
  slot_at-set_slot (suc k) zero r (s ∷ slots) h = refl
  slot_at-set_slot (suc k) (suc i) r (s ∷ slots) h =
      slot_at-set_slot k i r slots (ground (arith, h))

  pub slot_at-own :
      (k : ℕ) (r : Result Value) (slots : List Slot)
      → k + 1 ≤ length slots
      → slot_at k (set_slot k r slots) ≡ some r
  unfolding slot_at set_slot
  slot_at-own k r [] h = ground (arith, h)
  slot_at-own zero r (s ∷ slots) h = refl
  slot_at-own (suc k) r (s ∷ slots) h = slot_at-own k r slots (omega (arith, h))

  pub length-set_slot :
      (k : ℕ) (r : Result Value) (slots : List Slot) → length (set_slot k r slots) ≡ length slots
  unfolding set_slot
  length-set_slot k r [] = refl
  length-set_slot zero r (s ∷ slots) = refl
  length-set_slot (suc k) r (s ∷ slots) = ground (arith, length-set_slot k r slots)
