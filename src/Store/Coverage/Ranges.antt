-- ===== src/Store/Coverage/Ranges.antt =====
-- `longest_covered_prefix` and `intersect_ranges` of crates/store/src/coverage.rs.
use datalens.Prelude.{
  ℕ, ◌+◌, ◌≤◌, ◌≡◌, refl, true, false, ◌&&◌, ◌⊎◌, inl, inr, Option, none, some, List, [], ◌∷◌,
  arith, min, any-append, Option-cases, Bool-cases,
}
use datalens.Core.Range.{BlockRange, IsValid, new, contains, intersect}
use datalens.Core.Range.Cells.{contains-intersect, new_iff}
use datalens.Core.Range.Lists.{holds, ApartFrom, ApartFrom-holds}
use datalens.Store.Coverage.{longest_covered_prefix, intersect_one, intersect_ranges}

holds-intersect_one :
    (a : BlockRange) (right : List BlockRange) (b : ℕ)
    → holds (intersect_one a right) b ≡ (contains a b && holds right b)
unfolding intersect_one
holds-intersect_one a [] b = ground arith
holds-intersect_one a (r ∷ right) b = elim (Option-cases (intersect a r)) [
  | inl e ↦
      rw (e, intersect_one)
        (ground (arith, contains-intersect a r b, holds-intersect_one a right b))
  | inr (hit, e) ↦
      rw (e, intersect_one)
        (ground (arith, contains-intersect a r b, holds-intersect_one a right b))
]

-- The intersection of two coverings holds the blocks that both hold: a query of several addresses
-- is covered where each of its parts is.
pub holds-intersect_ranges :
    (left right : List BlockRange) (b : ℕ)
    → holds (intersect_ranges left right) b ≡ (holds left b && holds right b)
unfolding intersect_ranges
holds-intersect_ranges [] right b = refl
holds-intersect_ranges (a ∷ left) right b = ground (
  arith,
  any-append (λ r. contains r b) (intersect_one a right) (intersect_ranges left right),
  holds-intersect_one a right b,
  holds-intersect_ranges left right b,
)

-- What a covered prefix promises.
pub record IsLongestPrefix (covered : List BlockRange) (query r : BlockRange) : Type 0 where
  pub from : r.start ≡ query.start
  pub ordered : r.start ≤ r.end
  pub within : r.end ≤ query.end
  pub covers : (b : ℕ) → contains r b ≡ true → holds covered b ≡ true
  pub longest : (r.end ≡ query.end) ⊎ (holds covered (r.end + 1) ≡ false)

abbrev pub PrefixOf : List BlockRange → BlockRange → Option BlockRange → Type 0
PrefixOf covered query none = holds covered query.start ≡ false
PrefixOf covered query (some r) = IsLongestPrefix covered query r

prefix_here :
    (n : ℕ) (hit query : BlockRange) (covered : List BlockRange)
    → IsValid query
    → ApartFrom n (hit ∷ covered)
    → contains hit query.start ≡ true
    → PrefixOf (hit ∷ covered) query (new query.start (min hit.end query.end))
prefix_here n hit query covered v a h =
    rw ((new_iff query.start (min hit.end query.end)).1 (unfold contains in ground (arith, v)))
      (record {
        from = refl;
        ordered = unfold contains in ground (arith, v);
        within = omega arith;
        covers = λ b k. unfold contains in ground (arith, v);
        longest =
            unfold contains in
            ground (arith, ApartFrom-holds (hit.end + 2) (min hit.end query.end + 1) covered a.2);
      })

prefix_later :
    (n : ℕ) (hit query : BlockRange) (covered : List BlockRange) (o : Option BlockRange)
    → ApartFrom n (hit ∷ covered)
    → contains hit query.start ≡ false
    → PrefixOf covered query o
    → PrefixOf (hit ∷ covered) query o
prefix_later n hit query covered none a h p = ground arith
prefix_later n hit query covered (some r) a h p =
    let first = p.covers query.start (unfold contains in ground (arith, p)) in
    record {
      from = p.from;
      ordered = p.ordered;
      within = p.within;
      covers = λ b k. ground (arith, p.covers b k);
      longest =
          unfold contains in
          ground (arith, first, p, ApartFrom-holds (hit.end + 2) query.start covered a.2);
    }

-- The covered prefix of a query starts where the query does, holds covered blocks only, and ends
-- with the query or before a block that is not covered; there is none exactly when the query's
-- first block is not covered. The covered ranges are coalesced, as the database returns them.
pub longest_covered_prefix-PrefixOf :
    (covered : List BlockRange) (query : BlockRange) (n : ℕ)
    → IsValid query
    → ApartFrom n covered
    → PrefixOf covered query (longest_covered_prefix covered query)
unfolding longest_covered_prefix
longest_covered_prefix-PrefixOf [] query n v a = refl
longest_covered_prefix-PrefixOf (hit ∷ covered) query n v a =
    elim (Bool-cases (contains hit query.start)) [
      | inl h ↦ rw h (prefix_here n hit query covered v a h)
      | inr h ↦ rw h (
          prefix_later n hit query covered _ a h
            (longest_covered_prefix-PrefixOf covered query (hit.end + 2) v a.2))
    ]
