-- ===== src/Engine/Query/Answer.antt =====
-- `query` of crates/engine/src/query.rs answers, from the two parts on.
use datalens.Prelude.{
  subst, sym, ℕ, ◌+◌, ◌≤◌, ◌<◌, ◌≡◌, inl, inr, refl, max, Bool, true, false, Option, none, some,
  arith, leb, Bool-cases,
}
use datalens.Core.Range.{BlockRange, IsValid}
use datalens.Core.Range.Cells.{new_iff}
use datalens.Core.Finality.{QueryFinality, durable_only, safe_to_latest, latest_only}
use datalens.Core.Wire.{Heads}
use datalens.Engine.Plan.{durable_part}
use datalens.Engine.Plan.Grid.{durable_part_cut, durable_part-none}
use datalens.Engine.Query.{
  Progress, Hot, FollowProgress, Reply, ok, Answered, is_latest_only, is_durable_only, reaches,
  hot_part, hot_range, durable_range, respond, durable_done, low_part, high_part, answer,
  answer_parts,
}
use datalens.Engine.Query.Tail.{Serves, IsHot, MakesHot, hot_part-MakesHot}
use datalens.Engine.Query.Parts.{Answers, low_only, nothing, high_only, low_short, both}

hot_range-none :
    (finality : QueryFinality) (range : BlockRange) (heads : Heads)
    → range.end ≤ heads.safe
    → hot_range finality range heads ≡ ok none
unfolding hot_range
hot_range-none finality range heads h = ground arith

-- What a query reads above the safe head.
abbrev upper : BlockRange → Heads → BlockRange
upper range heads = record { start = max range.start (heads.safe + 1); end = range.end }

upper-IsValid :
    (range : BlockRange) (heads : Heads)
    → IsValid range
    → heads.safe < range.end
    → IsValid (upper range heads)
upper-IsValid range heads v h = record { ordered = ground (arith, v); bounded = ground (arith, v) }

hot_range-some :
    (finality : QueryFinality) (range : BlockRange) (heads : Heads)
    → is_durable_only finality ≡ false
    → IsValid range
    → heads.safe < range.end
    → hot_range finality range heads ≡ ok (some (upper range heads))
unfolding hot_range
hot_range-some finality range heads f v h =
    let made =
      (new_iff (max range.start (heads.safe + 1)) range.end).1 (upper-IsValid range heads v h) in
    ground (arith, made, f)

durable_range-eq-part :
    (finality : QueryFinality) (range : BlockRange) (heads : Heads)
    → is_latest_only finality ≡ false
    → durable_range finality range heads ≡ durable_part range heads.safe
unfolding durable_range
durable_range-eq-part finality range heads f = ground arith

durable_part_whole :
    (range : BlockRange) (safe : ℕ)
    → IsValid range
    → range.end ≤ safe
    → durable_part range safe ≡ some range
durable_part_whole range safe v h = ground (arith, v, durable_part_cut range safe v)

-- What `fill_durable` promises of each durable part.
abbrev pub Fills : (BlockRange → Progress) → Type 0
Fills fill = (durable : BlockRange) → IsValid durable → Serves durable (fill durable).served

module _ (fill : BlockRange → Progress) (row : FollowProgress) (fills : Fills fill)
    (range : BlockRange) (heads : Heads) (v : IsValid range)
    (order : heads.finalized ≤ heads.safe) where
  -- `answer` once it is known which parts there are, and whether the durable one is complete.
  abbrev part : QueryFinality → Option BlockRange → Option BlockRange → Bool → Reply Answered
  part finality durable wanted done = answer_parts fill row finality range heads durable wanted done

  answer_by :
      (finality : QueryFinality) (durable wanted : Option BlockRange) (done : Bool)
      → durable_range finality range heads ≡ durable
      → hot_range finality range heads ≡ ok wanted
      → durable_done durable (low_part fill row durable) ≡ done
      → Answers finality range heads (part finality durable wanted done)
      → Answers finality range heads (answer fill row finality range heads)
  answer_by finality durable wanted done d w c a =
      let is : answer fill row finality range heads ≡ part finality durable wanted done =
        unfold answer in rw (d, w, c) refl in
      subst (Answers finality range heads) (sym is) a

  answer_below :
      (finality : QueryFinality)
      → range.end ≤ heads.safe
      → Answers finality range heads (answer fill row finality range heads)
  unfolding high_part durable_range
  answer_below latest_only h =
      answer_by latest_only none none true refl (hot_range-none latest_only range heads h) refl
        (nothing range heads v order h)
  answer_below durable_only h =
      answer_by durable_only (some range) none (reaches (fill range) range.end)
        (durable_part_whole range heads.safe v h) (hot_range-none durable_only range heads h) refl
        (low_only range heads v order durable_only (fill range) refl h (fills range v))
  answer_below safe_to_latest h =
      answer_by safe_to_latest (some range) none (reaches (fill range) range.end)
        (durable_part_whole range heads.safe v h) (hot_range-none safe_to_latest range heads h) refl
        (low_only range heads v order safe_to_latest (fill range) refl h (fills range v))

  -- The hot part is read and joined.
  hot_read :
      (finality : QueryFinality) (durable : Option BlockRange)
      → IsValid (upper range heads)
      → ((h : Hot)
          → IsHot (upper range heads) h
          → Answers finality range heads (
              respond finality range heads
                (some (upper range heads))
                (low_part fill row durable)
                (some h)
                true))
      → Answers finality range heads (part finality durable (some (upper range heads)) true)
  unfolding high_part
  hot_read finality durable w joined =
      go (hot_part row (upper range heads)) refl (hot_part-MakesHot row (upper range heads) w)
    where
      go :
          (o : Option Hot)
          → hot_part row (upper range heads) ≡ o
          → MakesHot (upper range heads) o
          → Answers finality range heads (part finality durable (some (upper range heads)) true)
      go none e made = absurd made
      go (some h) e made =
          let is : high_part fill row (some (upper range heads)) true ≡ ok (some h) =
            rw (e, high_part) refl in
          rw (is, Answers) (joined h made)

  abbrev durable_to : BlockRange
  durable_to = record { start = range.start; end = heads.safe }

  -- Both parts are wanted.
  two_parts :
      IsValid (upper range heads)
      → heads.safe < range.end
      → range.start ≤ heads.safe
      → (done : Bool) → reaches (fill durable_to) heads.safe ≡ done
      → Answers safe_to_latest range heads
          (part safe_to_latest (some durable_to) (some (upper range heads)) done)
  unfolding high_part
  two_parts w h l false short =
      low_short range heads v order (upper range heads) w h refl refl safe_to_latest
        (fill durable_to) durable_to refl refl refl
        (fills durable_to (record { ordered = l; bounded = ground (arith, v) })) short
  two_parts w h l true done =
      go (fill durable_to).served refl
        (fills durable_to (record { ordered = l; bounded = ground (arith, v) }))
    where
      go :
          (o : Option BlockRange)
          → (fill durable_to).served ≡ o
          → Serves durable_to o
          → Answers safe_to_latest range heads
              (part safe_to_latest (some durable_to) (some (upper range heads)) true)
      go none e serves = absurd (unfold reaches in ground (arith, e, done))
      go (some s) e serves = hot_read safe_to_latest (some durable_to) w (λ p made.
          both range heads v order (upper range heads) w h refl refl safe_to_latest
            (fill durable_to) durable_to s p refl refl refl l e serves
            (unfold reaches in ground (arith, e, done)) made)

  answer_above :
      (finality : QueryFinality)
      → is_durable_only finality ≡ false
      → heads.safe < range.end
      → Answers finality range heads (answer fill row finality range heads)
  unfolding durable_range
  answer_above durable_only f h = absurd (ground (arith, f))
  answer_above latest_only f h =
      let w = upper-IsValid range heads v h in
      answer_by latest_only none (some (upper range heads)) true refl
        (hot_range-some latest_only range heads f v h) refl
        (hot_read latest_only none w (λ p.
          high_only range heads v order (upper range heads) w h refl refl latest_only p (inl refl)))
  answer_above safe_to_latest f h =
      let w = upper-IsValid range heads v h in
      let wanted = hot_range-some safe_to_latest range heads f v h in
      elim (Bool-cases (leb range.start heads.safe)) [
        | inr above ↦
            answer_by safe_to_latest none (some (upper range heads)) true
              (durable_part-none range heads.safe v (ground arith)) wanted refl
              (hot_read safe_to_latest none w (λ p.
                high_only range heads v order (upper range heads) w h refl refl safe_to_latest p
                  (inr (ground arith))))
        | inl under ↦
            answer_by safe_to_latest (some durable_to) (some (upper range heads))
              (reaches (fill durable_to) heads.safe)
              (ground (arith, durable_part_cut range heads.safe v (ground arith))) wanted refl
              (two_parts w h (ground arith) (reaches (fill durable_to) heads.safe) refl)
      ]

-- A query of a valid range, which `durable_only` asks up to the safe head only, is answered.
pub answer-Answers :
    (fill : BlockRange → Progress) (row : FollowProgress) (finality : QueryFinality)
    (range : BlockRange) (heads : Heads)
    → Fills fill
    → IsValid range
    → heads.finalized ≤ heads.safe
    → (is_durable_only finality ≡ true → range.end ≤ heads.safe)
    → Answers finality range heads (answer fill row finality range heads)
answer-Answers fill row finality range heads fills v order only =
    elim (Bool-cases (leb range.end heads.safe)) [
      | inl under ↦ answer_below fill row fills range heads v order finality (ground arith)
      | inr over ↦
          answer_above fill row fills range heads v order finality (ground (arith, only))
            (ground arith)
    ]
