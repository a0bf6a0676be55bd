-- ===== src/Conformance/Await/Converges.antt =====
-- When `AwaitConvergence` returns.
use gateway_api.Prelude.{
  ℕ, zero, suc, ◌+◌, ◌≤◌, ◌<◌, true, false, List, [], ◌∷◌, ◌++◌, ◌≡◌, ◌≢◌, ◌⊎◌, inl, inr, refl, ap,
  arith, ltb, if-elim, Bool-cases, if◌then◌else◌,
}
use gateway_api.Prelude.Lists.{All, Any}
use gateway_api.Conformance.Await.{Round, converged, awaiting, await, await_convergence}

abbrev pub count : List Round → ℕ
count [] = 0
count (_ ∷ rest) = suc (count rest)

abbrev pub IsCompleted : Round → Type 0
IsCompleted round = round.completed ≡ true

-- No timeout ends the round.
abbrev pub IsInTime : Round → Type 0
IsInTime round = (round.late ≡ false) × (round.late_after ≡ false)

-- The attempts in a row that are asked for: at least one.
abbrev pub asked : ℕ → ℕ
asked zero = 1
asked (suc n) = suc n

-- The last of the rounds before the end are a streak of completed attempts, which the `successes`
-- before them may lengthen when it has no round before it.
abbrev Streak : ℕ → List Round → ℕ → ℕ → ℕ → Type 0
Streak threshold rounds successes attempts n =
    (before : List Round) × (streak : List Round) × (rest : List Round) × (rounds
      ≡ before ++ (streak ++ rest))
    × All IsCompleted streak
    × (attempts + count before + count streak ≡ n)
    × ((count streak ≡ asked threshold)
        ⊎ ((before ≡ []) × (successes + count streak ≡ asked threshold)))

-- A streak of the later rounds is one of all of them.
Streak-success :
    (threshold : ℕ) (round : Round) (rounds : List Round) (successes attempts n : ℕ)
    → IsCompleted round
    → Streak threshold rounds (suc successes) (suc attempts) n
    → Streak threshold (round ∷ rounds) successes attempts n
Streak-success threshold round rounds successes attempts n c
      (before, streak, rest, e, all, sum, inl full) =
    (round ∷ before, streak, rest, ap (λ l. round ∷ l) e, all, omega arith, inl full)
Streak-success threshold round rounds successes attempts n c
      (before, streak, rest, e, all, sum, inr (first, full)) =
    (
      [],
      round ∷ streak,
      rest,
      cc,
      (c, all),
      ground (arith, ap count first),
      inr (refl, omega arith),
    )

Streak-failure :
    (threshold : ℕ) (round : Round) (rounds : List Round) (successes attempts n : ℕ)
    → Streak threshold rounds 0 (suc attempts) n
    → Streak threshold (round ∷ rounds) successes attempts n
Streak-failure threshold round rounds successes attempts n
      (before, streak, rest, e, all, sum, full) =
    (
      round ∷ before,
      streak,
      rest,
      ap (λ l. round ∷ l) e,
      all,
      omega arith,
      inl (ground (arith, full)),
    )

asked_reached :
    (threshold successes : ℕ)
    → ltb (suc successes) threshold ≡ false
    → successes < asked threshold
    → suc successes ≡ asked threshold
asked_reached zero successes few h = omega arith
asked_reached (suc n) successes few h = ground arith

asked-fewer :
    (threshold successes : ℕ)
    → ltb (suc successes) threshold ≡ true
    → suc successes < asked threshold
asked-fewer zero successes h = ground arith
asked-fewer (suc n) successes h = ground arith

asked_positive : (threshold : ℕ) → 0 < asked threshold
asked_positive zero = omega arith
asked_positive (suc n) = omega arith

module _ (threshold : ℕ) where
  await-Streak :
      (rounds : List Round) (successes attempts n : ℕ)
      → successes < asked threshold
      → await threshold rounds successes attempts ≡ converged n
      → Streak threshold rounds successes attempts n
  unfolding await
  await-Streak [] successes attempts n few h = ground (arith, h)
  await-Streak (round ∷ rounds) successes attempts n few h =
      if-elim round.late h (λ _ e. ground (arith, e))
        λ _ in_time.
          if-elim round.completed in_time
            (λ c succeeded.
              if-elim (ltb (suc successes) threshold) succeeded
                (λ fewer later. Streak-success threshold round rounds successes attempts n c (
                  await-Streak rounds (suc successes) (suc attempts) n
                    (asked-fewer threshold successes fewer) later))
                (λ reached now. (
                  [],
                  round ∷ [],
                  rounds,
                  refl,
                  (c, tt),
                  ground (arith, now),
                  inr (refl, ground (arith, asked_reached threshold successes reached few)),
                )))
            λ _ failed.
              if-elim round.late_after failed (λ _ e. ground (arith, e))
                λ _ later.
                  Streak-failure threshold round rounds successes attempts n
                    (await-Streak rounds 0 (suc attempts) n (asked_positive threshold) later)

  await-finishes :
      (rounds : List Round) (successes attempts : ℕ)
      → Any (λ (round : Round). round.late ≡ true) rounds
      → await threshold rounds successes attempts ≢ awaiting
  unfolding await
  await-finishes [] successes attempts m = elim m [ ]
  await-finishes (round ∷ rounds) successes attempts m = ground (
    arith,
    await-finishes rounds (suc successes) (suc attempts),
    await-finishes rounds 0 (suc attempts),
  )

  await_streak :
      (streak rest : List Round) (successes attempts : ℕ)
      → All IsCompleted streak
      → All IsInTime streak
      → asked threshold ≤ successes + count streak
      → 0 < count streak
      → (n : ℕ) × (await threshold (streak ++ rest) successes attempts ≡ converged n)
        × (n ≤ attempts + count streak)
  unfolding await
  await_streak [] rest successes attempts all in_time enough some_left = absurd (omega arith)
  await_streak (round ∷ streak) rest successes attempts all in_time enough some_left =
      elim (Bool-cases (ltb (suc successes) threshold)) [
        | inl fewer ↦
            (let (n, e, bound) =
                await_streak streak rest (suc successes) (suc attempts) all.1 in_time.1
                  (omega arith) (ground (arith, asked-fewer threshold successes fewer)) in
              (n, ground (arith, e), omega arith))
        | inr reached ↦ (suc attempts, ground arith, omega arith)
      ]

  -- A streak as long as is asked for, after rounds that end in time, is not missed.
  await-finds :
      (before streak rest : List Round) (successes attempts : ℕ)
      → All IsInTime before
      → All IsInTime streak
      → All IsCompleted streak
      → asked threshold ≤ count streak
      → (n : ℕ) × (await threshold (before ++ (streak ++ rest)) successes attempts ≡ converged n)
        × (n ≤ attempts + count before + count streak)
  unfolding await
  await-finds [] streak rest successes attempts before_in_time in_time all enough =
      let (n, e, bound) =
        await_streak streak rest successes attempts all in_time (omega arith)
          (ground (arith, asked_positive threshold)) in
      (n, e, omega arith)
  await-finds (round ∷ before) streak rest successes attempts before_in_time in_time all enough =
      let (n, e, bound) =
        await-finds before streak rest (if round.completed then suc successes else 0) (suc attempts)
          before_in_time.1 in_time all enough in
      elim (Bool-cases (ltb (suc successes) threshold)) [
        | inl fewer ↦ (n, ground (arith, e), omega arith)
        | inr reached ↦ elim (Bool-cases round.completed) [
          | inl c ↦ (suc attempts, ground arith, omega arith)
          | inr c ↦ (n, ground (arith, e), omega arith)
        ]
      ]

-- `AwaitConvergence` returns only after the last attempts in a row have completed, at least one and
-- as many as the threshold asks for, and it counts all attempts made.
pub await_convergence-Streak :
    (threshold n : ℕ) (rounds : List Round)
    → await_convergence threshold rounds ≡ converged n
    → (before : List Round) × (streak : List Round) × (rest : List Round) × (rounds
        ≡ before ++ (streak ++ rest))
      × All IsCompleted streak
      × (count streak ≡ asked threshold)
      × (count before + count streak ≡ n)
unfolding await_convergence
await_convergence-Streak threshold n rounds h =
    let (before, streak, rest, e, all, sum, full) =
      await-Streak threshold rounds 0 0 n (asked_positive threshold) h in
    (before, streak, rest, e, all, ground (arith, full), omega arith)

-- `AwaitConvergence` ends when the time is up: if in one of the rounds the timer has fired, the loop
-- does not go beyond the rounds.
pub await_convergence-finishes :
    (threshold : ℕ) (rounds : List Round)
    → Any (λ (round : Round). round.late ≡ true) rounds
    → await_convergence threshold rounds ≢ awaiting
unfolding await_convergence
await_convergence-finishes threshold rounds = await-finishes threshold rounds 0 0

-- `AwaitConvergence` returns if at some time as many attempts in a row complete as the threshold
-- asks for and the time is not up before, and then it does so by the end of that streak.
pub await_convergence-converged :
    (threshold : ℕ) (before streak rest : List Round)
    → All IsInTime before
    → All IsInTime streak
    → All IsCompleted streak
    → asked threshold ≤ count streak
    → (n : ℕ) × (await_convergence threshold (before ++ (streak ++ rest)) ≡ converged n)
      × (n ≤ count before + count streak)
unfolding await_convergence
await_convergence-converged threshold before streak rest before_in_time in_time all enough =
    let (n, e, bound) =
      await-finds threshold before streak rest 0 0 before_in_time in_time all enough in
    (n, e, omega arith)
