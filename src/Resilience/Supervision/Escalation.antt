-- ===== src/Resilience/Supervision/Escalation.antt =====
-- Where supervision ends.
use df_fabric.Prelude.{
  ℕ, zero, suc, ◌+◌, ◌≤◌, ◌<◌, String, ◌≡◌, inl, inr, refl, Bool, true, false, Option, none, some,
  arith, string_dec, ltb, Bool-cases,
}
use df_fabric.Prelude.Dict.{get}
use df_fabric.Prelude.Result.{Result, ok, err}
use df_fabric.Resilience.Error.{ResilienceError, supervision_escalation}
use df_fabric.Resilience.Planner.{RecoveryClass, recovery_target_specific, recovery_impossible}
use df_fabric.Resilience.Supervision.{
  Level, task, worker, domain, federation, abort, Decision, Tree, node, action_of, or_zero, decide,
  decide_at, is_escalate, is_impossible, handle_loop, handle,
}

-- the number of levels from a level up
abbrev height : Level → ℕ
height task = 4
height worker = 3
height domain = 2
height federation = 1

height-bound : (l : Level) → height l ≤ 4
height-bound task = omega arith
height-bound worker = omega arith
height-bound domain = omega arith
height-bound federation = omega arith

-- how often a supervisor has been asked about a subject
abbrev pub asked : Level → String → Tree → ℕ
asked level subject t = or_zero (get string_dec (node level t).attempts subject)

-- How a call of `handle` may end: with a decision other than to escalate, or past the top.
abbrev pub Ends : Result ResilienceError Decision → Type 0
Ends (ok d) = is_escalate d.action ≡ false
Ends (err e) = e ≡ supervision_escalation

abbrev escalates : Level → Option Level → String → RecoveryClass → Tree → Bool
escalates l from subject c t = is_escalate (decide_at l from subject c t).0.action

loop-Ends :
    (fuel : ℕ) (level : Level) (from : Option Level) (subject : String) (c : RecoveryClass)
    (t : Tree)
    → height level ≤ fuel
    → Ends (handle_loop fuel level from subject c t).0
unfolding handle_loop
loop-Ends zero task from subject c t h = absurd (omega arith)
loop-Ends zero worker from subject c t h = absurd (omega arith)
loop-Ends zero domain from subject c t h = absurd (omega arith)
loop-Ends zero federation from subject c t h = absurd (omega arith)
loop-Ends (suc fuel) task from subject c t h = elim (Bool-cases (escalates task from subject c t)) [
  | inl e ↦ rw e (
      loop-Ends fuel worker (some task) subject c (decide_at task from subject c t).1 (omega arith))
  | inr e ↦ rw e e
]
loop-Ends (suc fuel) worker from subject c t h =
    elim (Bool-cases (escalates worker from subject c t)) [
      | inl e ↦ rw e (
          loop-Ends fuel domain (some worker) subject c (decide_at worker from subject c t).1
            (omega arith))
      | inr e ↦ rw e e
    ]
loop-Ends (suc fuel) domain from subject c t h =
    elim (Bool-cases (escalates domain from subject c t)) [
      | inl e ↦ rw e (
          loop-Ends fuel federation (some domain) subject c (decide_at domain from subject c t).1
            (omega arith))
      | inr e ↦ rw e e
    ]
loop-Ends (suc fuel) federation from subject c t h =
    elim (Bool-cases (escalates federation from subject c t)) [ inl e ↦ rw e refl | inr e ↦ rw e e ]

-- `handle` always ends within its four rounds: with a decision other than to escalate, or with
-- SupervisionEscalation.
pub handle-Ends :
    (start : Level) (subject : String) (c : RecoveryClass) (t : Tree)
    → Ends (handle start subject c t).0
unfolding handle
handle-Ends start subject c t = loop-Ends 4 start none subject c t (height-bound start)

specific-escalates :
    (l : Level) (from : Option Level) (subject : String) (t : Tree)
    → escalates l from subject recovery_target_specific t ≡ true
unfolding decide_at decide action_of
specific-escalates l from subject t =
    elim (Bool-cases (ltb (node l t).max_attempts (asked l subject t + 1))) [
      | inl e ↦ rw e refl
      | inr e ↦ rw e refl
    ]

impossible-aborts :
    (fuel : ℕ) (l : Level) (subject : String) (t : Tree)
    → (d : Decision) × ((handle_loop (suc fuel) l none subject recovery_impossible t).0 ≡ ok d)
      × (d.action ≡ abort)
      × (d.level ≡ l)
unfolding handle_loop decide_at decide
impossible-aborts fuel l subject t =
    ((decide_at l none subject recovery_impossible t).0, refl, refl, refl)

specific-fails :
    (fuel : ℕ) (level : Level) (from : Option Level) (subject : String) (t : Tree)
    → height level ≤ fuel
    → (handle_loop fuel level from subject recovery_target_specific t).0
      ≡ err supervision_escalation
unfolding handle_loop
specific-fails zero task from subject t h = absurd (omega arith)
specific-fails zero worker from subject t h = absurd (omega arith)
specific-fails zero domain from subject t h = absurd (omega arith)
specific-fails zero federation from subject t h = absurd (omega arith)
specific-fails (suc fuel) task from subject t h = rw (specific-escalates task from subject t) (
    specific-fails fuel worker (some task) subject
      (decide_at task from subject recovery_target_specific t).1 (omega arith))
specific-fails (suc fuel) worker from subject t h = rw (specific-escalates worker from subject t) (
    specific-fails fuel domain (some worker) subject
      (decide_at worker from subject recovery_target_specific t).1 (omega arith))
specific-fails (suc fuel) domain from subject t h = rw (specific-escalates domain from subject t) (
    specific-fails fuel federation (some domain) subject
      (decide_at domain from subject recovery_target_specific t).1 (omega arith))
specific-fails (suc fuel) federation from subject t h =
    rw (specific-escalates federation from subject t) refl

-- An impossible recovery is aborted by the supervisor that it reaches first. A target-specific one
-- passes every level and raises SupervisionEscalation.
pub handle-class :
    (start : Level) (subject : String) (t : Tree)
    → ((d : Decision) × ((handle start subject recovery_impossible t).0 ≡ ok d)
        × (d.action ≡ abort)
        × (d.level ≡ start))
      × ((handle start subject recovery_target_specific t).0 ≡ err supervision_escalation)
unfolding handle
handle-class start subject t = (
  impossible-aborts 3 start subject t,
  specific-fails 4 start none subject t (height-bound start),
)

within : {m n : ℕ} → n < m → ltb m (n + 1) ≡ false
within h = ground arith

-- Within the budget of the first level that it reaches, a recovery that is neither impossible nor
-- target-specific gets the action of its class there, with its attempt one more than the level has
-- counted.
pub handle_within :
    (start : Level) (subject : String) (c : RecoveryClass) (t : Tree)
    → is_impossible c ≡ false
    → is_escalate (action_of c) ≡ false
    → asked start subject t < (node start t).max_attempts
    → (d : Decision) × ((handle start subject c t).0 ≡ ok d)
      × (d.action ≡ action_of c)
      × (d.level ≡ start)
      × (d.attempt ≡ asked start subject t + 1)
unfolding handle handle_loop decide_at decide
handle_within start subject c t possible plain room = (
  (decide_at start none subject c t).0,
  rw (possible, within room, plain) refl,
  rw (possible, within room) refl,
  refl,
  refl,
)
