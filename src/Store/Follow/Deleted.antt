-- ===== src/Store/Follow/Deleted.antt =====
-- What `delete_unwatched_follow` of crates/store/src/follow.rs leaves.
use datalens.Prelude.{
  ℕ, ◌≡◌, refl, ◌⊎◌, inl, inr, Bool, true, false, not, ◌&&◌, List, [], ◌∷◌, ◌==◌, All, arith,
  Bool-cases,
}
use datalens.Store.Follow.{FollowKey, FollowProgress, has_key, follow_row, delete_unwatched_follow}
use datalens.Store.Follow.Rows.{key_of, IsValid}

deleted_apart :
    (key : FollowKey) (chain : ℕ) (watched : FollowProgress → Bool) (rows : List FollowProgress)
    → All (λ k. has_key key k ≡ false) rows
    → All (λ k. has_key key k ≡ false) (delete_unwatched_follow chain watched rows)
unfolding delete_unwatched_follow
deleted_apart key chain watched [] a = tt
deleted_apart key chain watched (row ∷ rows) a =
    elim (Bool-cases (row.chain_id == chain && not (watched row))) [
      | inl e ↦ rw e (deleted_apart key chain watched rows a.1)
      | inr e ↦ rw e (a.0, deleted_apart key chain watched rows a.1)
    ]

pub delete_unwatched_follow-IsValid :
    (chain : ℕ) (watched : FollowProgress → Bool) (rows : List FollowProgress)
    → IsValid rows
    → IsValid (delete_unwatched_follow chain watched rows)
unfolding delete_unwatched_follow
delete_unwatched_follow-IsValid chain watched [] v = tt
delete_unwatched_follow-IsValid chain watched (row ∷ rows) v =
    let rest = delete_unwatched_follow-IsValid chain watched rows v.1.1 in
    elim (Bool-cases (row.chain_id == chain && not (watched row))) [
      | inl e ↦ rw e rest
      | inr e ↦ rw e (v.0, (deleted_apart (key_of row) chain watched rows v.1.0, rest))
    ]

spared_row :
    (key : FollowKey) (chain : ℕ) (watched : FollowProgress → Bool) (row : FollowProgress)
    → ((key.chain_id == chain) ≡ false)
      ⊎ ((row : FollowProgress) → has_key key row ≡ true → watched row ≡ true)
    → has_key key row ≡ true
    → (row.chain_id == chain && not (watched row)) ≡ false
spared_row key chain watched row (inl n) h = ground (arith, n, h)
spared_row key chain watched row (inr w) h = ground (arith, w row h)

pub delete_unwatched_follow-row :
    (key : FollowKey) (chain : ℕ) (watched : FollowProgress → Bool) (rows : List FollowProgress)
    → ((key.chain_id == chain) ≡ false)
      ⊎ ((row : FollowProgress) → has_key key row ≡ true → watched row ≡ true)
    → follow_row key (delete_unwatched_follow chain watched rows) ≡ follow_row key rows
unfolding delete_unwatched_follow follow_row
delete_unwatched_follow-row key chain watched [] k = refl
delete_unwatched_follow-row key chain watched (row ∷ rows) k = ground (
  arith,
  delete_unwatched_follow-row key chain watched rows k,
  spared_row key chain watched row k,
)
