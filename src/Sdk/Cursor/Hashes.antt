-- ===== src/Sdk/Cursor/Hashes.antt =====
-- What `hot_hashes` of sdks/rust/src/cursor.rs holds, read off the segments and the rows of a response.
use datalens.Prelude.{
  ℕ, ◌≡◌, refl, Bool, true, false, ◌&&◌, ◌||◌, Option, none, some, List, [], ◌∷◌, arith, leb, ◌==◌,
  if◌then◌else◌,
}
use datalens.Core.Wire.{B256, Segment}
use datalens.Sdk.Cursor.{
  QueryResponse, Block, Seen, Entry, is_hot, in_hot, map_get, map_insert, anchor_hashes, row_hashes,
  hot_hashes,
}

-- A hot segment holds the height.
abbrev pub hot_at : List Segment → ℕ → Bool
hot_at [] n = false
hot_at (s ∷ segments) n = (is_hot s.source && (leb s.start n && leb n s.end)) || hot_at segments n

abbrev pub or_else : Option B256 → Bool → B256 → Option B256
or_else (some h) here hash = some h
or_else none here hash = if here then some hash else none

-- The hash of the last row at a height.
abbrev pub row_hash : List (Option Block) → ℕ → Option B256
row_hash [] n = none
row_hash (none ∷ rows) n = row_hash rows n
row_hash (some b ∷ rows) n = or_else (row_hash rows n) (b.number == n) b.hash

-- The hash of the last anchor at a height, of those of hot segments.
abbrev pub anchor_hash : List Segment → ℕ → Option B256
anchor_hash [] n = none
anchor_hash (s ∷ segments) n = elim s.anchor [
  | none ↦ anchor_hash segments n
  | some anchor ↦
      or_else (anchor_hash segments n) (is_hot s.source && anchor.number == n) anchor.hash
]

abbrev with_rows : Bool → Option B256 → Option Seen → Option Seen
with_rows rows none other = other
with_rows rows (some h) other = some (record { hash = h; rows = rows })

-- What a response says of a height: the hash of its rows, where it is in a hot segment and has rows,
-- or else that of an anchor.
abbrev pub seen_at : QueryResponse → ℕ → Option Seen
seen_at r n =
    let anchored = with_rows false (anchor_hash r.segments n) none in
    if hot_at r.segments n then with_rows true (row_hash r.rows n) anchored else anchored

pub in_hot-hot_at : (segments : List Segment) (n : ℕ) → in_hot segments n ≡ hot_at segments n
unfolding in_hot
in_hot-hot_at [] n = refl
in_hot-hot_at (s ∷ segments) n = ground (arith, in_hot-hot_at segments n)

map_get-map_insert :
    (n m : ℕ) (s : Seen) (es : List Entry)
    → map_get (map_insert n s es) m ≡ (if n == m then some s else map_get es m)
unfolding map_get map_insert
map_get-map_insert n m s [] = refl
map_get-map_insert n m s (e ∷ es) = ground (arith, map_get-map_insert n m s es)

map_get-anchor_hashes :
    (segments : List Segment) (n : ℕ) (hashes : List Entry)
    → map_get (anchor_hashes segments hashes) n
      ≡ with_rows false (anchor_hash segments n) (map_get hashes n)
unfolding anchor_hashes
map_get-anchor_hashes [] n hashes = refl
map_get-anchor_hashes (s ∷ segments) n hashes =
    elim s.anchor
      as (λ a.
        map_get
          (elim a as (λ x. List Entry) [
            | none ↦ anchor_hashes segments hashes
            | some anchor ↦
                if is_hot s.source
                then anchor_hashes segments
                    (map_insert anchor.number (record { hash = anchor.hash; rows = false }) hashes)
                else anchor_hashes segments hashes
          ])
          n
        ≡ with_rows false
            (elim a as (λ x. Option B256) [
              | none ↦ anchor_hash segments n
              | some anchor ↦
                  or_else (anchor_hash segments n) (is_hot s.source && anchor.number == n)
                    anchor.hash
            ])
            (map_get hashes n)) [
              | none ↦ map_get-anchor_hashes segments n hashes
              | some anchor ↦
                  let new' : Seen = record { hash = anchor.hash; rows = false } in
                  ground (
                    arith,
                    map_get-anchor_hashes segments n hashes,
                    map_get-anchor_hashes segments n (map_insert anchor.number new' hashes),
                    map_get-map_insert anchor.number n new' hashes,
                  )
            ]

map_get-row_hashes :
    (segments : List Segment) (rows : List (Option Block)) (n : ℕ) (hashes : List Entry)
    → map_get (row_hashes segments rows hashes) n ≡ (
        if in_hot segments n
        then with_rows true (row_hash rows n) (map_get hashes n)
        else map_get hashes n)
unfolding row_hashes
map_get-row_hashes segments [] n hashes = ground arith
map_get-row_hashes segments (none ∷ rows) n hashes = map_get-row_hashes segments rows n hashes
map_get-row_hashes segments (some b ∷ rows) n hashes =
    let new' : Seen = record { hash = b.hash; rows = true } in
    ground (
      arith,
      map_get-row_hashes segments rows n hashes,
      map_get-row_hashes segments rows n (map_insert b.number new' hashes),
      map_get-map_insert b.number n new' hashes,
    )

-- The map that `observe` compares is what the response says of each height.
pub map_get-hot_hashes : (r : QueryResponse) (n : ℕ) → map_get (hot_hashes r) n ≡ seen_at r n
unfolding hot_hashes map_get
map_get-hot_hashes r n = ground (
  arith,
  map_get-row_hashes r.segments r.rows n (anchor_hashes r.segments []),
  map_get-anchor_hashes r.segments n [],
  in_hot-hot_at r.segments n,
)
