-- ===== src/Provider/Retry.antt =====
-- `call_counted` of crates/provider/src/gateway.rs: up to three attempts of one call. What the
-- network does is a parameter: `acquire n` is how waiting for a token ends before attempt `n`, and
-- `reply n` is what `dispatch` and `interpret_object` make of that attempt's answer.
use datalens.Prelude.{
  ℕ, zero, suc, ◌+◌, ◌-◌, ◌≤◌, ◌<◌, ◌≡◌, ◌⊎◌, inl, inr, refl, Bool, true, false, ◌&&◌, Option, none,
  some, arith, ltb, if◌then◌else◌, Bool-cases, Option-cases, ◌==◌, subst,
}
use datalens.Provider.Errors.{
  ProviderError, rate_limited, fatal, retry_loop_ended, Result, ok, err, retryable, retry_after_cap,
}

abbrev pub attempts : ℕ
attempts = 3

-- `consider_retry` without its sleep and without the hold that it puts on the budget; a longer hold
-- than the cap ends the call.
unfoldable pub consider_retry : ProviderError → ℕ → Bool
consider_retry (rate_limited retry_after) attempt =
    if ltb retry_after_cap retry_after
    then false
    else retryable (rate_limited retry_after) && ltb attempt attempts
consider_retry error attempt = retryable error && ltb attempt attempts

pub record Counted (V : Type 0) : Type 0 where
  pub outcome : Result V
  pub calls : ℕ

Result-cases :
    {V : Type 0} (r : Result V) → ((v : V) × (r ≡ ok v)) ⊎ ((e : ProviderError) × (r ≡ err e))
Result-cases (ok v) = inl (v, refl)
Result-cases (err e) = inr (e, refl)

module _ {V : Type 0} (acquire : ℕ → Option ProviderError) (reply : ℕ → Result V) where
  -- The loop, by the attempts left.
  call_from : ℕ → ℕ → ℕ → Counted V
  call_from zero attempt calls = record { outcome = err (fatal retry_loop_ended); calls = calls }
  call_from (suc left) attempt calls =
      let again = call_from left (attempt + 1) (calls + 1) in
      elim (acquire attempt) [
        | some error ↦ record { outcome = err error; calls = calls }
        | none ↦ elim (reply attempt) [
          | ok value ↦ record { outcome = ok value; calls = calls + 1 }
          | err error ↦
              if consider_retry error attempt
              then again
              else record { outcome = err error; calls = calls + 1 }
        ]
      ]

  pub call_counted : Counted V
  unfolding call_from consider_retry
  call_counted = call_from attempts 1 0

  -- An attempt that is repeated: a token was got, and the provider failed in a way to retry.
  abbrev pub Repeated : ℕ → Type 0
  Repeated k =
      (acquire k ≡ none)
      × ((error : ProviderError) × (reply k ≡ err error) × (consider_retry error k ≡ true))

  -- The attempt that ends the call, with `calls` answers before it.
  pub data EndsAt (k calls : ℕ) (c : Counted V) : Type 0 where
    refused :
        (error : ProviderError)
        → acquire k ≡ some error
        → c ≡ record { outcome = err error; calls = calls }
        → EndsAt k calls c
    answered :
        (value : V)
        → acquire k ≡ none
        → reply k ≡ ok value
        → c ≡ record { outcome = ok value; calls = calls + 1 }
        → EndsAt k calls c
    given_up :
        (error : ProviderError)
        → acquire k ≡ none
        → reply k ≡ err error
        → consider_retry error k ≡ false
        → c ≡ record { outcome = err error; calls = calls + 1 }
        → EndsAt k calls c

  -- One attempt either ends the call or is repeated.
  attempt_cases :
      (left k calls : ℕ)
      → EndsAt k calls (call_from (suc left) k calls)
        ⊎ (Repeated k × (call_from (suc left) k calls ≡ call_from left (k + 1) (calls + 1)))
  unfolding call_from
  attempt_cases left k calls = elim (Option-cases (acquire k)) [
    | inr (error, h) ↦ inl (refused error h (rw (h, call_from)))
    | inl free ↦ elim (Result-cases (reply k)) [
      | inl (value, h) ↦ inl (answered value free h (rw (free, call_from) (rw (h, call_from))))
      | inr (error, h) ↦ elim (Bool-cases (consider_retry error k)) [
        | inl again ↦
            inr ((free, (error, h, again)), rw (free, call_from) (rw (h, call_from) (rw again)))
        | inr stop ↦
            inl (given_up error free h stop (rw (free, call_from) (rw (h, call_from) (rw stop))))
      ]
    ]
  ]

  not-Repeated-last : ¬ Repeated attempts
  unfolding consider_retry
  not-Repeated-last (free, (error, h, again)) = absurd (never error again)
    where
      never : (e : ProviderError) → consider_retry e attempts ≡ true → ⊥
      never e h = ground arith

  -- The call ends by one of its three attempts, by the first that is not to be repeated: with its
  -- value, or with its error, which is then not one to retry or the third. The answers counted are
  -- those of the attempts before it and its own.
  pub call_counted-EndsAt :
      (k : ℕ) × (1 ≤ k)
      × (k ≤ attempts)
      × ((j : ℕ) → 1 ≤ j → j < k → Repeated j)
      × EndsAt k (k - 1) call_counted
  unfolding call_counted
  call_counted-EndsAt = elim (attempt_cases 2 1 0) [
    | inl e ↦ (1, omega arith, omega arith, (λ j l m. absurd (omega arith)), e)
    | inr (r1, s1) ↦ elim (attempt_cases 1 2 1) [
      | inl e ↦ (2, omega arith, omega arith, (λ j l m. before1 r1 j l m), rw s1 e)
      | inr (r2, s2) ↦ elim (attempt_cases 0 3 2) [
        | inl e ↦ (3, omega arith, omega arith, (λ j l m. before2 r1 r2 j l m), rw s1 (rw s2 e))
        | inr (r3, s3) ↦ absurd (not-Repeated-last r3)
      ]
    ]
  ]
    where
      before1 : Repeated 1 → (j : ℕ) → 1 ≤ j → j < 2 → Repeated j
      before1 r j l m = let e : 1 ≡ j = omega arith in subst Repeated e r

      before2 : Repeated 1 → Repeated 2 → (j : ℕ) → 1 ≤ j → j < 3 → Repeated j
      before2 r1 r2 j l m = elim (Bool-cases (j == 1)) [
        | inl one ↦ let e : 1 ≡ j = ground arith in subst Repeated e r1
        | inr two ↦ let e : 2 ≡ j = ground arith in subst Repeated e r2
      ]
