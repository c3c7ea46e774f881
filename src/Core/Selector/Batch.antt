-- ===== src/Core/Selector/Batch.antt =====
-- `batch` of crates/core/src/selector.rs.
use datalens.Prelude.{
  ℕ, ◌≤◌, ◌≡◌, refl, Bool, true, false, ◌&&◌, ◌||◌, not, Option, none, some, List, [], ◌∷◌, ◌++◌,
  arith, any-append, any, all, map, All, set_contains, set_is_subset, set_collect,
  set_contains-collect, subset_of_contains, Option-cases, Bool-cases, inl, inr, length, ◌==◌, subst,
  sym, if◌then◌else◌,
}
use datalens.Core.Wire.{LogRow}
use datalens.Core.Selector.{
  TopicFilter, any_topic, one_of, LogSelector, covers, matches, batch, is_empty, batch_addresses,
  batch_topic0, shared_filter, merged, all_addresses, topic0_cons, topic0_sets, filter_covers,
  filter_eq,
}
use datalens.Core.Selector.Covers.{covers_refl, covers-matches, filter_covers_refl, filter_eq→eq}

members_subset :
    (members : List LogSelector) (wide : List ℕ)
    → ((u : ℕ) → set_contains (all_addresses members) u ≡ true → set_contains wide u ≡ true)
    → All (λ m. set_is_subset m.addresses wide ≡ true) members
unfolding all_addresses
members_subset [] wide h = tt
members_subset (m ∷ members) wide h =
    let split = λ (u : ℕ). any-append (λ s. s == u) m.addresses (all_addresses members) in
    (
      subset_of_contains m.addresses wide (λ u c. h u (ground (arith, split u))),
      members_subset members wide (λ u c. h u (ground (arith, split u))),
    )

abbrev AddressesCover : List ℕ → LogSelector → Type 0
AddressesCover wide m =
    (is_empty wide || (not (is_empty m.addresses) && set_is_subset m.addresses wide)) ≡ true

AddressesCover-members :
    (members : List LogSelector) (wide : List ℕ)
    → any (λ m. is_empty m.addresses) members ≡ false
    → All (λ m. set_is_subset m.addresses wide ≡ true) members
    → All (AddressesCover wide) members
AddressesCover-members [] wide e s = tt
AddressesCover-members (m ∷ members) wide e s =
    (ground (arith, s.0), AddressesCover-members members wide (ground arith) s.1)

any_AddressesCover : (members : List LogSelector) → All (AddressesCover []) members
any_AddressesCover [] = tt
any_AddressesCover (m ∷ members) = (refl, any_AddressesCover members)

batch_AddressesCover :
    (members : List LogSelector) (max_addresses : ℕ) (wide : List ℕ)
    → batch_addresses members max_addresses ≡ some wide
    → All (AddressesCover wide) members
unfolding batch_addresses
batch_AddressesCover members max_addresses wide e =
    elim (Bool-cases (all (λ m. is_empty m.addresses) members)) [
      | inl every ↦ let is : wide ≡ [] = ground arith in rw is (any_AddressesCover members)
      | inr some' ↦
          let is : wide ≡ set_collect (all_addresses members) = ground arith in
          AddressesCover-members members wide (ground arith) (
            members_subset members wide
              (λ u c. rw (is, set_contains-collect u (all_addresses members)) c))
    ]

topic0_cons-eq-some :
    (f : TopicFilter) (o : Option (List ℕ)) (topics : List ℕ)
    → topic0_cons f o ≡ some topics
    → (set : List ℕ) × (sets : List ℕ) × (f ≡ one_of set) × (o ≡ some sets) × (topics ≡ set ++ sets)
unfolding topic0_cons
topic0_cons-eq-some any_topic o topics e = cc
topic0_cons-eq-some (one_of set) none topics e = cc
topic0_cons-eq-some (one_of set) (some sets) topics e = (set, sets, refl, refl, cc)

topic0_cover :
    (members : List LogSelector) (topics wide : List ℕ)
    → topic0_sets members ≡ some topics
    → ((u : ℕ) → set_contains topics u ≡ true → set_contains wide u ≡ true)
    → All (λ m. filter_covers (one_of wide) m.topic0 ≡ true) members
topic0_cover [] topics wide e h = tt
topic0_cover (m ∷ members) topics wide e h =
    let (set, sets, is, tail, joined) =
      topic0_cons-eq-some m.topic0 (topic0_sets members) topics (unfold topic0_sets in e) in
    let split = λ (u : ℕ). any-append (λ s. s == u) set sets in
    (
      rw is (
          unfold filter_covers in
          subset_of_contains set wide (λ u c. h u (rw (joined, split u) (ground arith)))),
      topic0_cover members sets wide tail (λ u c. h u (rw (joined, split u) (ground arith))),
    )

any_topic_cover :
    (members : List LogSelector) → All (λ m. filter_covers any_topic m.topic0 ≡ true) members
unfolding filter_covers
any_topic_cover [] = tt
any_topic_cover (m ∷ members) = (refl, any_topic_cover members)

batch_topic0_cover :
    (members : List LogSelector)
    → All (λ m. filter_covers (batch_topic0 members) m.topic0 ≡ true) members
unfolding batch_topic0
batch_topic0_cover members = elim (Option-cases (topic0_sets members)) [
  | inl e ↦ rw (e, batch_topic0) (any_topic_cover members)
  | inr (topics, e) ↦
      rw (e, batch_topic0)
        (topic0_cover members topics (set_collect topics) e
          (λ u c. rw (set_contains-collect u topics) c))
]

module _ (position : LogSelector → TopicFilter) where
  shared_rest :
      (shared : TopicFilter) (rest : List LogSelector)
      → all (λ filter. filter_eq filter shared) (map position rest) ≡ true
      → All (λ m. filter_covers shared (position m) ≡ true) rest
  shared_rest shared [] h = tt
  shared_rest shared (m ∷ rest) h = (
    rw (filter_eq→eq (position m) shared (ground arith)) (filter_covers_refl shared),
    shared_rest shared rest (ground arith),
  )

  any_rest : (rest : List LogSelector) → All (λ m. filter_covers any_topic (position m) ≡ true) rest
  unfolding filter_covers
  any_rest [] = tt
  any_rest (m ∷ rest) = (refl, any_rest rest)

  shared_filter-eq :
      (f : TopicFilter) (fs : List TopicFilter) (b : Bool)
      → all (λ filter. filter_eq filter f) fs ≡ b
      → shared_filter f fs ≡ (if b then f else any_topic)
  unfolding shared_filter
  shared_filter-eq f fs b e = rw e

  shared_filter_cover :
      (first : LogSelector) (rest : List LogSelector)
      → All
          (λ m.
            filter_covers (shared_filter (position first) (map position rest)) (position m) ≡ true)
          (first ∷ rest)
  shared_filter_cover first rest =
      let P = λ (f : TopicFilter). All (λ m. filter_covers f (position m) ≡ true) (first ∷ rest) in
      elim (Bool-cases (all (λ filter. filter_eq filter (position first)) (map position rest))) [
        | inl same ↦
            subst P (sym (shared_filter-eq (position first) (map position rest) true same))
              (filter_covers_refl (position first), shared_rest (position first) rest same)
        | inr differ ↦
            subst P (sym (shared_filter-eq (position first) (map position rest) false differ))
              (any_rest (first ∷ rest))
      ]

-- All five conditions of `covers` for a list of members, put together.
covers_members :
    (q : LogSelector) (members : List LogSelector)
    → All (AddressesCover q.addresses) members
    → All (λ m. filter_covers q.topic0 m.topic0 ≡ true) members
    → All (λ m. filter_covers q.topic1 m.topic1 ≡ true) members
    → All (λ m. filter_covers q.topic2 m.topic2 ≡ true) members
    → All (λ m. filter_covers q.topic3 m.topic3 ≡ true) members
    → All (λ m. covers q m ≡ true) members
covers_members q [] a t0 t1 t2 t3 = tt
covers_members q (m ∷ members) a t0 t1 t2 t3 = (
  unfold covers in ground (arith, a.0, t0.0, t1.0, t2.0, t3.0),
  covers_members q members a.1 t0.1 t1.1 t2.1 t3.1,
)

-- The merged selector covers every member, so one `eth_getLogs` for it returns what each wants.
pub batch-covers :
    (members : List LogSelector) (max_addresses : ℕ) (q : LogSelector)
    → batch members max_addresses ≡ some q
    → All (λ m. covers q m ≡ true) members
batch-covers [] max_addresses q e = tt
batch-covers (first ∷ []) max_addresses q e =
    let is : first ≡ q = unfold batch in ground arith in
    subst (λ (s : LogSelector). All (λ m. covers s m ≡ true) (first ∷ [])) is
      (covers_refl first, tt)
batch-covers (first ∷ m ∷ rest) max_addresses q e =
    let members = first ∷ m ∷ rest in
    elim (Option-cases (batch_addresses members max_addresses)) [
      | inl refused ↦ let bad : ⊥ = unfold batch in ground (arith, refused) in absurd bad
      | inr (wide, is) ↦
          let eq : merged first (m ∷ rest) wide ≡ q = unfold batch in ground (arith, is) in
          subst (λ (s : LogSelector). All (λ n. covers s n ≡ true) members) eq
            (covers_members (merged first (m ∷ rest) wide) members
              (batch_AddressesCover members max_addresses wide is) (batch_topic0_cover members)
              (shared_filter_cover (λ s. s.topic1) first (m ∷ rest))
              (shared_filter_cover (λ s. s.topic2) first (m ∷ rest))
              (shared_filter_cover (λ s. s.topic3) first (m ∷ rest)))
    ]

-- A batch of several members asks for at most `max_addresses` addresses.
pub length-batch :
    (first second : LogSelector) (rest : List LogSelector) (max_addresses : ℕ) (q : LogSelector)
    → batch (first ∷ second ∷ rest) max_addresses ≡ some q
    → length q.addresses ≤ max_addresses
unfolding batch batch_addresses
length-batch first second rest max_addresses q e = ground arith

any-matches :
    (q : LogSelector) (log : LogRow) (members : List LogSelector)
    → All (λ m. covers q m ≡ true) members
    → any (λ m. matches m log) members ≡ true
    → matches q log ≡ true
any-matches q log [] c h = cc
any-matches q log (m ∷ members) c h =
    ground (arith, covers-matches q m log c.0, any-matches q log members c.1)

-- The merged selector covers every member and matches every log that some member matches, so one
-- `eth_getLogs` for it returns what each member wants.
pub batch-matches :
    (members : List LogSelector) (max_addresses : ℕ) (q : LogSelector) (log : LogRow)
    → batch members max_addresses ≡ some q
    → All (λ m. covers q m ≡ true) members
      × (any (λ m. matches m log) members ≡ true → matches q log ≡ true)
batch-matches members max_addresses q log e =
    let c = batch-covers members max_addresses q e in (c, any-matches q log members c)
