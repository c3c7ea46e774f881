-- ===== src/Engine/Follow/Finalize.antt =====
-- What `finalize` of crates/engine/src/follow.rs promotes of a row.
use datalens.Prelude.{
  ℕ, zero, suc, ◌≤◌, ◌≡◌, min, true, false, ◌&&◌, Option, none, some, List, [], ◌∷◌, arith, leb,
  if◌then◌else◌,
}
use datalens.Core.Finality.{Finality, safe, finalized}
use datalens.Core.Wire.{Heads}
use datalens.Store.Codec.{ℤ, pos, negsuc, lebℤ, minℤ, maxℤ, predℤ}
use datalens.Store.Follow.{FollowProgress}
use datalens.Store.Follow.Rows.{Ordered}
use datalens.Engine.Follow.{Part, parts_between, parts_of, promoted_mark, finalized_mark, to_i64}

-- The finality that the parts give a block.
abbrev pub finality_in : ℕ → List Part → Option Finality
finality_in b [] = none
finality_in b (p ∷ parts) =
    if leb p.start b && leb b p.end then some p.finality else finality_in b parts

-- Blocks after the old finalized mark up to the new one become finalized, and blocks after those and
-- the old promoted mark up to the new promoted one become safe.
abbrev pub wanted : ℤ → ℤ → ℤ → ℤ → ℕ → Option Finality
wanted row_finalized_to row_promoted_to promoted_to finalized_to b =
    if lebℤ (pos b) finalized_to
    then (if lebℤ (pos b) row_finalized_to then none else some finalized)
    else if lebℤ (pos b) promoted_to && (if lebℤ (pos b) row_promoted_to then false else true)
    then some safe
    else none

abbrev pub Gives : (ℕ → Option Finality) → Option (List Part) → Type 0
Gives f none = ⊥
Gives f (some parts) = (b : ℕ) → finality_in b parts ≡ f b

parts_between-Gives :
    (f p p' f' : ℤ)
    → lebℤ (negsuc 0) f ≡ true
    → lebℤ f p ≡ true
    → lebℤ p p' ≡ true
    → lebℤ f' p' ≡ true
    → Gives (wanted f p p' f') (parts_between f p p' f')
unfolding parts_between
parts_between-Gives f p p' f' h0 h1 h2 h3 = ground (arith, h0, h1, h2, h3)

-- What `finalize` plans for a row: marks that stand to each other as the store wants them, and parts
-- that give each block the finality between the old and the new marks.
pub record Planned (heads : Heads) (head : ℕ) (row : FollowProgress) : Type 0 where
  pub forward : lebℤ row.promoted_to (promoted_mark heads head row) ≡ true
  pub below_head : lebℤ (promoted_mark heads head row) row.head_block ≡ true
  pub below_promoted :
      lebℤ (finalized_mark heads (promoted_mark heads head row)) (promoted_mark heads head row)
      ≡ true
  pub gives :
      Gives
        (wanted row.finalized_to row.promoted_to
          (promoted_mark heads head row)
          (finalized_mark heads (promoted_mark heads head row)))
        (parts_of heads head row)

max-right : (a b : ℤ) → lebℤ b (maxℤ a b) ≡ true
max-right a b = ground arith

min-right : (a b : ℤ) → lebℤ (minℤ a b) b ≡ true
min-right a b = ground arith

max-least : (a b c : ℤ) → lebℤ a c ≡ true → lebℤ b c ≡ true → lebℤ (maxℤ a b) c ≡ true
max-least a b c = ground arith

to_i64-le : (n m : ℕ) → n ≤ m → lebℤ (to_i64 n) (pos m) ≡ true
unfolding to_i64
to_i64-le n m h = ground (arith, h)

pred-least : (n : ℕ) (a : ℤ) → lebℤ (predℤ n) a ≡ true → lebℤ (negsuc 0) a ≡ true
pred-least zero a h = h
pred-least (suc n) a h = ground (arith, h)

-- For a row that is ordered, `finalize` plans marks that never move `promoted_to` back, do not pass the
-- head, and keep finalized below promoted; its parts raise exactly the blocks between the old and the
-- new marks, each to the finality of the higher mark that reaches it.
pub parts_of-Planned :
    (heads : Heads) (head : ℕ) (row : FollowProgress)
    → Ordered row
    → row.head_block ≡ pos head
    → Planned heads head row
unfolding promoted_mark finalized_mark parts_of
parts_of-Planned heads head row o e =
    let p' = maxℤ (to_i64 (min heads.safe head)) row.promoted_to in
    let ahead = max-right (to_i64 (min heads.safe head)) row.promoted_to in
    record {
      forward = ahead;
      below_head = rw e (
          max-least (to_i64 (min heads.safe head)) row.promoted_to (pos head)
            (to_i64-le (min heads.safe head) head (omega arith)) (ground (arith, e, o.promoted)));
      below_promoted = min-right (to_i64 heads.finalized) p';
      gives =
          parts_between-Gives row.finalized_to row.promoted_to p' (minℤ (to_i64 heads.finalized) p')
            (pred-least row.from_block row.finalized_to o.starts) o.finalized ahead
            (min-right (to_i64 heads.finalized) p');
    }
