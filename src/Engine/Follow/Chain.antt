-- ===== src/Engine/Follow/Chain.antt =====
-- The check of fetched headers in crates/engine/src/follow.rs.
use datalens.Prelude.{
  ℕ, ◌≡◌, ◌∙◌, inl, inr, refl, Bool, true, false, not, ◌&&◌, Option, none, some, List, [], ◌∷◌,
  arith, Bool-cases, Option-cases, ◌==◌, if◌then◌else◌, saturating_sub,
}
use datalens.Core.Range.{BlockRange}
use datalens.Core.Wire.{B256, Heads}
use datalens.Store.Follow.{FollowProgress}
use datalens.Engine.Follow.{
  Header, Checked, reorg_detected, stale, empty, stored, check_headers, follow_blocks,
}

abbrev follows_from : Option B256 → Header → Bool
follows_from none h = true
follows_from (some parent) h = parent == h.parent_hash

-- Each header's parent is the one before it, the first's is the given one where it is known.
abbrev pub is_linked : Option B256 → List Header → Bool
is_linked parent [] = true
is_linked parent (h ∷ headers) = follows_from parent h && is_linked (some h.hash) headers

abbrev pub last_hash : Option B256 → List Header → Option B256
last_hash last [] = last
last_hash last (h ∷ headers) = last_hash (some h.hash) headers

-- The height before the first header that does not follow from the one before it.
abbrev pub break_of : Option B256 → List Header → Option ℕ
break_of parent [] = none
break_of parent (h ∷ headers) =
    if follows_from parent h
    then break_of (some h.hash) headers
    else some (saturating_sub h.number 1)

check_headers-break :
    (parent last : Option B256) (headers : List Header)
    → (check_headers parent last headers).0 ≡ break_of parent headers
unfolding check_headers
check_headers-break parent last [] = refl
check_headers-break none last (h ∷ headers) =
    check_headers-break (some h.hash) (some h.hash) headers
check_headers-break (some parent) last (h ∷ headers) =
    ground (arith, check_headers-break (some h.hash) (some h.hash) headers)

check_headers-last :
    (parent last : Option B256) (headers : List Header)
    → is_linked parent headers ≡ true
    → (check_headers parent last headers).1 ≡ last_hash last headers
unfolding check_headers
check_headers-last parent last [] l = refl
check_headers-last none last (h ∷ headers) l =
    check_headers-last (some h.hash) (some h.hash) headers l
check_headers-last (some parent) last (h ∷ headers) l =
    ground (arith, check_headers-last (some h.hash) (some h.hash) headers, l)

break-linked :
    (parent : Option B256) (headers : List Header)
    → break_of parent headers ≡ none
    → is_linked parent headers ≡ true
break-linked parent [] e = refl
break-linked parent (h ∷ headers) e = ground (arith, break-linked (some h.hash) headers, e)

break_not_linked :
    (parent : Option B256) (headers : List Header) (block : ℕ)
    → break_of parent headers ≡ some block
    → is_linked parent headers ≡ false
break_not_linked parent [] block e = cc
break_not_linked parent (h ∷ headers) block e =
    ground (arith, break_not_linked (some h.hash) headers block, e)

abbrev pub known_parent : FollowProgress → Option B256
known_parent row = if row.head_hash == 0 then none else some row.head_hash

-- What each way to end says of the headers.
abbrev pub Says : Heads → FollowProgress → BlockRange → List Header → Checked → Type 0
Says heads row span headers (reorg_detected block) =
    (is_linked (known_parent row) headers ≡ false)
    × (break_of (known_parent row) headers ≡ some block)
Says heads row span headers stale =
    (is_linked (known_parent row) headers ≡ true) × (span.end ≡ heads.latest)
Says heads row span headers empty = headers ≡ []
Says heads row span headers (stored hash) =
    (is_linked (known_parent row) headers ≡ true)
    × ((last_hash none headers ≡ some hash) × (span.end ≡ heads.latest → hash ≡ heads.latest_hash))

last_hash-some : (hash : B256) (headers : List Header) → last_hash (some hash) headers ≡ none → ⊥
last_hash-some hash [] e = cc
last_hash-some hash (h ∷ headers) e = last_hash-some h.hash headers e

no_last : (headers : List Header) → last_hash none headers ≡ none → headers ≡ []
no_last [] e = refl
no_last (h ∷ headers) e = absurd (last_hash-some h.hash headers e)

-- Fetched headers are stored only if each follows from the one before it, the first from the row's head
-- where its hash is known, and the last is the chain's latest block where the span ends there. Where
-- the chain of parents breaks, a reorg is detected, at the height before the first header that does not
-- follow.
pub follow_blocks-Says :
    (heads : Heads) (row : FollowProgress) (span : BlockRange) (headers : List Header)
    → Says heads row span headers (follow_blocks heads row span headers)
unfolding follow_blocks
follow_blocks-Says heads row span headers =
    elim (Option-cases (break_of (known_parent row) headers)) [
      | inr (block, e) ↦
          let e' : (check_headers (known_parent row) none headers).0 ≡ some block =
            check_headers-break (known_parent row) none headers ∙ e in
          rw (e', follow_blocks) (break_not_linked (known_parent row) headers block e, e)
      | inl e ↦
          let l = break-linked (known_parent row) headers e in
          let e' : (check_headers (known_parent row) none headers).0 ≡ none =
            check_headers-break (known_parent row) none headers ∙ e in
          elim (Option-cases (last_hash none headers)) [
            | inl g ↦
                let g' : (check_headers (known_parent row) none headers).1 ≡ none =
                  check_headers-last (known_parent row) none headers l ∙ g in
                rw (e', follow_blocks, g') (no_last headers g)
            | inr (hash, g) ↦
                let g' : (check_headers (known_parent row) none headers).1 ≡ some hash =
                  check_headers-last (known_parent row) none headers l ∙ g in
                elim (Bool-cases (span.end == heads.latest && not (hash == heads.latest_hash))) [
                  | inl k ↦ rw (e', follow_blocks, g', k) (l, ground (arith, k))
                  | inr k ↦ rw (e', follow_blocks, g', k) (l, (g, λ s. ground (arith, k, s)))
                ]
          ]
    ]
