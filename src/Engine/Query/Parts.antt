-- ===== src/Engine/Query/Parts.antt =====
-- What the end of `query` of crates/engine/src/query.rs makes of the durable and the hot part.
use datalens.Prelude.{
  ℕ, ◌+◌, ◌≤◌, ◌<◌, ◌≡◌, ◌⊎◌, inl, inr, refl, max, Bool, true, false, not, ◌&&◌, ◌||◌, Option, none,
  some, List, [], ◌∷◌, ◌++◌, arith, leb, ltb, if◌then◌else◌,
}
use datalens.Core.Range.{BlockRange, IsValid, contains}
use datalens.Core.Range.Cells.{contains_opt, new_iff}
use datalens.Core.Finality.{Finality, QueryFinality, latest_only}
use datalens.Core.Wire.{Heads, Segment}
use datalens.Engine.Plan.{durable_segments, row_finality}
use datalens.Engine.Plan.Grid.{
  segment_finality, segment_finality-durable_segments, row_finality_above,
}
use datalens.Engine.Query.{
  Progress, Hot, Reply, ok, err, Answered, is_latest_only, is_some, reaches, join, next_start,
  scope_start, incomplete_reason, respond, hot_segments,
}
use datalens.Engine.Query.Tail.{Serves, IsHot}

-- The blocks that a query is about: `latest_only` leaves those up to the safe head out.
abbrev pub in_scope : QueryFinality → BlockRange → Heads → ℕ → Bool
in_scope finality range heads b =
    contains range b && (not (is_latest_only finality) || ltb heads.safe b)

-- The blocks before `next_start`: all of them where there is none.
abbrev pub before : Option ℕ → ℕ → Bool
before none b = true
before (some next) b = ltb b next

pub record IsAnswer (finality : QueryFinality) (range : BlockRange) (heads : Heads) (a : Answered)
    : Type 0 where
  pub served :
      (b : ℕ) → contains_opt a.served b ≡ (in_scope finality range heads b && before a.next_start b)
  pub next : (n : ℕ) → a.next_start ≡ some n → in_scope finality range heads n ≡ true
  pub reason :
      is_some a.incomplete_reason
      ≡ (is_some a.next_start || (is_latest_only finality && leb range.start heads.safe))
  pub segments :
      (b : ℕ)
      → segment_finality a.segments b
        ≡ (if contains_opt a.served b then some (row_finality b heads) else none)

abbrev first_some : Option Finality → Option Finality → Option Finality
first_some none g = g
first_some (some f) g = some f

segment_finality-append :
    (xs ys : List Segment) (b : ℕ)
    → segment_finality (xs ++ ys) b ≡ first_some (segment_finality xs b) (segment_finality ys b)
segment_finality-append [] ys b = refl
segment_finality-append (x ∷ xs) ys b = ground (arith, segment_finality-append xs ys b)

-- A reply that is an answer, and no error.
abbrev pub Answers : QueryFinality → BlockRange → Heads → Reply Answered → Type 0
Answers finality range heads (ok a) = IsAnswer finality range heads a
Answers finality range heads (err error) = ⊥

module _ (range : BlockRange) (heads : Heads) (v : IsValid range)
    (order : heads.finalized ≤ heads.safe) where
  -- Nothing above the safe head is wanted.
  pub low_only :
      (finality : QueryFinality) (p : Progress)
      → is_latest_only finality ≡ false
      → range.end ≤ heads.safe
      → Serves range p.served
      → Answers finality range heads
          (respond finality range heads none (some p) none (reaches p range.end))
  unfolding respond join next_start scope_start incomplete_reason contains reaches
  low_only finality p f h serves = go p.served refl serves
    where
      go :
          (o : Option BlockRange)
          → p.served ≡ o
          → Serves range o
          → Answers finality range heads
              (respond finality range heads none (some p) none (reaches p range.end))
      go none e serves = rw e (record {
        served = λ b. ground (arith, v, f);
        next = λ n is. ground (arith, v, f, is);
        reason = ground (arith, f);
        segments = λ b. ground (arith, f);
      })
      go (some s) e serves = simp e (record {
        served = λ b. ground (arith, v, f);
        next = λ n is. ground (arith, v, f, is);
        reason = ground (arith, f);
        segments = λ b. ground (
          arith,
          f,
          segment_finality-durable_segments s heads b (omega arith),
          segment_finality-append (durable_segments s heads)
              (if reaches p range.end then hot_segments none else []) b,
        );
      })

  -- `latest_only` below the safe head: nothing is wanted.
  pub nothing :
      range.end ≤ heads.safe
      → Answers latest_only range heads (respond latest_only range heads none none none true)
  unfolding respond join next_start scope_start incomplete_reason contains
  nothing h = record {
    served = λ b. ground (arith, v);
    next = λ n is. ground (arith, v, is);
    reason = ground (arith, v);
    segments = λ b. refl;
  }

  module _ (wanted : BlockRange) (w : IsValid wanted) (above : heads.safe < range.end)
      (low : wanted.start ≡ max range.start (heads.safe + 1)) (high : wanted.end ≡ range.end) where
    pub high_only :
        (finality : QueryFinality) (h : Hot)
        → (is_latest_only finality ≡ true) ⊎ (heads.safe < range.start)
        → IsHot wanted h
        → Answers finality range heads
            (respond finality range heads (some wanted) none (some h) true)
    unfolding respond join next_start scope_start incomplete_reason contains
    high_only finality h a (inl (e, f)) =
        rw (e, f, respond, join)
          (record {
            served = λ b. ground (arith, v, low, high);
            next = λ n is. ground (arith, v, low, high, is);
            reason = ground (arith, v, low, high);
            segments = λ b. refl;
          })
    high_only finality h a (inr (s, t, e, f, q)) =
        rw (e, f, respond, join)
          (record {
            served = λ b. ground (arith, v, low, high, q);
            next = λ n is. ground (arith, v, low, high, q, is);
            reason = ground (arith, v, low, high, q);
            segments = λ b. ground (arith, v, low, high, q, row_finality_above heads b order);
          })

    -- The durable part fell short, and the hot part was not read.
    pub low_short :
        (finality : QueryFinality) (p : Progress) (durable : BlockRange)
        → is_latest_only finality ≡ false
        → durable.start ≡ range.start
        → durable.end ≡ heads.safe
        → Serves durable p.served
        → reaches p durable.end ≡ false
        → Answers finality range heads
            (respond finality range heads (some wanted) (some p) none false)
    unfolding respond join next_start scope_start incomplete_reason contains reaches
    low_short finality p durable f from to serves short = go p.served refl serves
      where
        go :
            (o : Option BlockRange)
            → p.served ≡ o
            → Serves durable o
            → Answers finality range heads
                (respond finality range heads (some wanted) (some p) none false)
        go none e serves = simp e (record {
          served = λ b. ground (arith, v, f);
          next = λ n is. ground (arith, v, f, is);
          reason = ground (arith, f);
          segments = λ b. refl;
        })
        go (some s) e serves = simp e (record {
          served = λ b. ground (arith, v, f);
          next = λ n is. ground (arith, v, f, is);
          reason = ground (arith, f);
          segments = λ b. ground (
            arith,
            f,
            segment_finality-durable_segments s heads b (omega arith),
            segment_finality-append (durable_segments s heads) [] b,
          );
        })

    pub both :
        (finality : QueryFinality) (p : Progress) (durable s : BlockRange) (h : Hot)
        → is_latest_only finality ≡ false
        → durable.start ≡ range.start
        → durable.end ≡ heads.safe
        → durable.start ≤ durable.end
        → p.served ≡ some s
        → Serves durable (some s)
        → s.end ≡ durable.end
        → IsHot wanted h
        → Answers finality range heads
            (respond finality range heads (some wanted) (some p) (some h) true)
    unfolding respond join next_start scope_start incomplete_reason contains
    both finality p durable s h f from to some' e serves done (inl (eh, fh)) =
        rw (e, eh, fh, respond, join)
          (record {
            served = λ b. ground (arith, v, f);
            next = λ n is. ground (arith, v, f, is);
            reason = ground (arith, f);
            segments = λ b. ground (
              arith,
              f,
              segment_finality-durable_segments s heads b (omega arith),
              segment_finality-append (durable_segments s heads) [] b,
            );
          })
    both finality p durable s h f from to some' e serves done (inr (t, g, eh, fh, q)) =
        let made =
          (new_iff s.start t.end).1
            (record { ordered = ground (arith, q); bounded = ground (arith, q, v) }) in
        rw (e, eh, made, fh, respond, join)
          (record {
            served = λ b. ground (arith, v, f, q);
            next = λ n is. ground (arith, v, f, q, is);
            reason = ground (arith, f, q);
            segments = λ b. ground (
              arith,
              f,
              q,
              row_finality_above heads b order,
              segment_finality-durable_segments s heads b (omega arith),
              segment_finality-append (durable_segments s heads) (g ∷ []) b,
            );
          })
