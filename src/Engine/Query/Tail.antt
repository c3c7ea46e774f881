-- ===== src/Engine/Query/Tail.antt =====
-- What `hot` of crates/engine/src/query.rs serves.
use datalens.Prelude.{
  ℕ, ◌≤◌, ◌≡◌, ◌⊎◌, inl, inr, refl, min, ◌&&◌, Option, none, some, arith, leb, Bool-cases,
}
use datalens.Core.Range.{BlockRange, IsValid}
use datalens.Core.Range.Cells.{new_iff}
use datalens.Core.Finality.{Finality}
use datalens.Core.Wire.{Segment}
use datalens.Engine.Query.{Hot, FollowProgress, hot_part, hot_to}

-- A served range is a prefix of what was wanted.
abbrev pub Serves : BlockRange → Option BlockRange → Type 0
Serves wanted none = Unit {0}
Serves wanted (some s) = (s.start ≡ wanted.start) × (s.start ≤ s.end) × (s.end ≤ wanted.end)

abbrev pub HotBlocks : BlockRange → BlockRange → Segment → Type 0
HotBlocks wanted s t =
    (s.start ≡ wanted.start)
    × (s.start ≤ s.end)
    × (s.end ≤ wanted.end)
    × (t.start ≡ s.start)
    × (t.end ≡ s.end)
    × (t.finality ≡ Finality.unsafe)

-- The hot part is a prefix of what is wanted, and its segment says the same.
abbrev pub IsHot : BlockRange → Hot → Type 0
IsHot wanted h =
    ((h.progress.served ≡ none) × (h.segment ≡ none))
    ⊎ ((s : BlockRange) × (t : Segment) × (h.progress.served ≡ some s)
        × (h.segment ≡ some t)
        × HotBlocks wanted s t)

abbrev pub MakesHot : BlockRange → Option Hot → Type 0
MakesHot wanted none = ⊥
MakesHot wanted (some h) = IsHot wanted h

hot_to-MakesHot :
    (wanted : BlockRange) (head hash : ℕ)
    → IsValid wanted
    → wanted.start ≤ head
    → MakesHot wanted (hot_to wanted head hash)
unfolding hot_to
hot_to-MakesHot wanted head hash v l =
    let made =
      (new_iff wanted.start (min wanted.end head)).1
        (record { ordered = ground (arith, v); bounded = ground (arith, v) }) in
    rw (made, hot_to)
      (inr (_, _, refl, refl, (refl, ground (arith, v), ground (arith, v), refl, refl, refl)))

pub hot_part-MakesHot :
    (row : FollowProgress) (wanted : BlockRange)
    → IsValid wanted
    → MakesHot wanted (hot_part row wanted)
unfolding hot_part
hot_part-MakesHot row wanted v = go row.head_block refl
  where
    go : (o : Option ℕ) → row.head_block ≡ o → MakesHot wanted (hot_part row wanted)
    go none e = rw e (inl (refl, refl))
    go (some head) e =
        elim (Bool-cases (leb wanted.start head && leb row.from_block wanted.start)) [
          | inr short ↦ rw (e, short) (inl (refl, refl))
          | inl long ↦ rw (e, long) (hot_to-MakesHot wanted head row.head_hash v (ground arith))
        ]
