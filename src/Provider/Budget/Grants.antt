-- ===== src/Provider/Budget/Grants.antt =====
-- To whom `try_acquire` of crates/provider/src/budget.rs gives a token.
use datalens.Prelude.{
  ℕ, subst, refl, ◌+◌, ◌≤◌, ◌<◌, ◌≡◌, ◌⊎◌, inl, inr, ◌↔◌, Bool, true, false, Option, none, some,
  List, [], arith, ◌==◌, leb, if◌then◌else◌, Bool-cases,
}
use datalens.Provider.Budget.{
  Budget, Purpose, Acquired, taken, queued, failed, daily, scale, wake_highest, take_token,
  acquire_open, try_acquire, roll_day, daily_exhausted, has_higher, has_same, enqueue, rank,
}
use datalens.Provider.Budget.Queues.{queue_of, has_higher-none, has_same-none}

-- What an outcome takes from the balance.
abbrev pub cost : Acquired → ℕ
cost taken = scale
cost (queued parked) = 0
cost (failed reason) = 0

-- The fields that set the rate.
pub record SameRate (b b' : Budget) : Type 0 where
  pub burst : b'.burst ≡ b.burst
  pub rps : b'.rps ≡ b.rps
  pub updated : b'.updated ≡ b.updated
  pub daily_limit : b'.daily_limit ≡ b.daily_limit

-- A daily limit is not passed.
abbrev pub UnderLimit : Option ℕ → ℕ → Type 0
UnderLimit none used = Unit {0}
UnderLimit (some limit) used = used ≤ limit

-- How many calls of the day an outcome counts as.
abbrev pub calls_of : Acquired → ℕ
calls_of taken = 1
calls_of (queued parked) = 0
calls_of (failed reason) = 0

-- The calls made on a day, before the count is set back on a new day.
abbrev pub used_today : Budget → ℕ → ℕ
used_today b today = if b.daily_day == today then b.daily_used else 0

-- When a caller may take a token: the day's limit, priority, turn and balance.
pub record MayTake (b : Budget) (purpose : Purpose) (today : ℕ) (woken : Bool) : Type 0 where
  pub limit : UnderLimit b.daily_limit (used_today b today + 1)
  pub first : (r : ℕ) → r < rank purpose → queue_of r b.waiters ≡ []
  pub turn : (woken ≡ true) ⊎ (queue_of (rank purpose) b.waiters ≡ [])
  pub token : scale ≤ b.balance

module _ (receives : ℕ → Bool) where
  acquire_open-cost :
      (b : Budget) (purpose : Purpose) (deadline : Option ℕ) (now : ℕ) (woken higher same : Bool)
      → let (b', r) = acquire_open receives b purpose deadline now woken higher same in
        (b'.balance + cost r ≡ b.balance) × SameRate b b'
  unfolding acquire_open take_token wake_highest enqueue
  acquire_open-cost b purpose deadline now woken higher same = ground arith

  -- With nobody of a higher rank queued, the token is given exactly where there is one and it is the
  -- caller's turn; and never with somebody of a higher rank queued.
  acquire_open-taken :
      (b : Budget) (purpose : Purpose) (deadline : Option ℕ) (now : ℕ) (woken higher same : Bool)
      → let r = (acquire_open receives b purpose deadline now woken higher same).1 in
        (r ≡ taken) ↔ ((higher ≡ false) × ((woken ≡ true) ⊎ (same ≡ false)) × (scale ≤ b.balance))
  unfolding acquire_open take_token wake_highest enqueue
  acquire_open-taken b purpose deadline now woken higher same =
      (λ e. ground arith, λ h. ground arith)

  acquire_open-used :
      (b : Budget) (purpose : Purpose) (deadline : Option ℕ) (now : ℕ) (woken higher same : Bool)
      → let (b', r) = acquire_open receives b purpose deadline now woken higher same in
        b'.daily_used ≡ b.daily_used + calls_of r
  unfolding acquire_open take_token wake_highest enqueue
  acquire_open-used b purpose deadline now woken higher same = ground arith

  pub try_acquire-cost :
      (b : Budget) (purpose : Purpose) (deadline : Option ℕ) (now today : ℕ) (woken : Bool)
      → let (b', r) = try_acquire receives b purpose deadline now today woken in
        (b'.balance + cost r ≡ b.balance) × SameRate b b'
  unfolding try_acquire roll_day
  try_acquire-cost b purpose deadline now today woken = ground (
    arith,
    acquire_open-cost (roll_day b today) purpose deadline now woken
        (has_higher (roll_day b today) purpose) (has_same (roll_day b today) purpose),
  )

  rolled :
      (b : Budget) (today : ℕ)
      → let b0 = roll_day b today in
        (b0.waiters ≡ b.waiters)
        × (b0.daily_limit ≡ b.daily_limit)
        × (b0.balance ≡ b.balance)
        × (b0.daily_used ≡ used_today b today)
  unfolding roll_day
  rolled b today = ground arith

  exhausted_iff :
      (b : Budget) → (daily_exhausted b ≡ false) ↔ UnderLimit b.daily_limit (b.daily_used + 1)
  unfolding daily_exhausted
  exhausted_iff b = limit b.daily_limit b.daily_used
    where
      limit :
          (l : Option ℕ) (used : ℕ)
          → (elim l as (λ x. Bool) [ none ↦ false | some n ↦ leb n used ] ≡ false)
            ↔ UnderLimit l (used + 1)
      limit none used = (λ e. tt, λ h. refl)
      limit (some n) used = (λ e. ground (arith, e), λ h. ground (arith, h))

  limit_today :
      (b : Budget) (today : ℕ)
      → (daily_exhausted (roll_day b today) ≡ false)
        ↔ UnderLimit b.daily_limit (used_today b today + 1)
  limit_today b today =
      let same = rolled b today in
      let closed = daily_exhausted (roll_day b today) ≡ false in
      subst (λ (u : ℕ). closed ↔ UnderLimit b.daily_limit (u + 1)) same.3
        (subst (λ (l : Option ℕ). closed ↔ UnderLimit l ((roll_day b today).daily_used + 1)) same.1
          (exhausted_iff (roll_day b today)))

  over :
      (b : Budget) (today : ℕ)
      → daily_exhausted (roll_day b today) ≡ true
      → UnderLimit b.daily_limit (used_today b today + 1)
      → ⊥
  over b today e h = let f = (limit_today b today).1 h in cc (e, f)

  may_take :
      (b : Budget) (purpose : Purpose) (deadline : Option ℕ) (now today : ℕ) (woken : Bool)
      → daily_exhausted (roll_day b today) ≡ false
      → let b0 = roll_day b today in
        let r =
          (acquire_open receives b0 purpose deadline now woken
            (has_higher b0 purpose)
            (has_same b0 purpose)).1 in
        (r ≡ taken) ↔ MayTake b purpose today woken
  may_take b purpose deadline now today woken e =
      let b0 = roll_day b today in
      let same = rolled b today in
      let given =
        acquire_open-taken b0 purpose deadline now woken (has_higher b0 purpose)
          (has_same b0 purpose) in
      let higher =
        subst
          (λ (q : List (List ℕ)).
            (has_higher b0 purpose ≡ false) ↔ ((r : ℕ) → r < rank purpose → queue_of r q ≡ []))
          same.0 (has_higher-none b0 purpose) in
      let own =
        subst
          (λ (q : List (List ℕ)). (has_same b0 purpose ≡ false) ↔ (queue_of (rank purpose) q ≡ []))
          same.0 (has_same-none b0 purpose) in
      (
        λ t.
            let (none_higher, turn, token) = given.0 t in
            record {
              limit = (limit_today b today).0 e;
              first = higher.0 none_higher;
              turn = elim turn [ inl w ↦ inl w | inr n ↦ inr (own.0 n) ];
              token = ground (arith, token, same);
            },
        λ h. given.1 (
          higher.1 h.first,
          elim h.turn [ inl w ↦ inl w | inr n ↦ inr (own.1 n) ],
          ground (arith, h.token, same),
        ),
      )

  -- Over every budget, caller and time: a call takes a token exactly where the day's calls are under the
  -- limit, every queue of a higher rank is empty, the caller was woken or its own queue is empty, and
  -- the balance has a token. It then costs one token and counts as one call of the day, and else
  -- neither.
  pub try_acquire-taken :
      (b : Budget) (purpose : Purpose) (deadline : Option ℕ) (now today : ℕ) (woken : Bool)
      → let (b', r) = try_acquire receives b purpose deadline now today woken in
        ((r ≡ taken) ↔ MayTake b purpose today woken)
        × (b'.balance + cost r ≡ b.balance)
        × (b'.daily_used ≡ used_today b today + calls_of r)
  unfolding try_acquire
  try_acquire-taken b purpose deadline now today woken =
      let b0 = roll_day b today in
      let same = rolled b today in
      let used =
        acquire_open-used b0 purpose deadline now woken (has_higher b0 purpose)
          (has_same b0 purpose) in
      let paid =
        acquire_open-cost b0 purpose deadline now woken (has_higher b0 purpose)
          (has_same b0 purpose) in
      elim (Bool-cases (daily_exhausted b0)) [
        | inl e ↦ rw e (
          (λ t. cc t, λ h. absurd (over b today e h.limit)),
          ground (arith, same),
          ground (arith, same),
        )
        | inr e ↦ rw e (
          may_take b purpose deadline now today woken e,
          ground (arith, same, paid),
          ground (arith, same, used),
        )
      ]

  -- A call is refused for the day exactly when the day's calls have reached the limit; nothing is
  -- taken then, and no waiter moves.
  pub try_acquire-daily :
      (b : Budget) (purpose : Purpose) (deadline : Option ℕ) (now today : ℕ) (woken : Bool)
      → let (b', r) = try_acquire receives b purpose deadline now today woken in
        ((r ≡ failed daily) ↔ (daily_exhausted (roll_day b today) ≡ true))
        × (r ≡ failed daily → b' ≡ roll_day b today)
  unfolding try_acquire acquire_open
  try_acquire-daily b purpose deadline now today woken =
      ((λ e. ground arith, λ e. ground arith), λ e. ground arith)
