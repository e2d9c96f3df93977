-- ===== src/Placement/Put/Exclusion.antt =====
-- The apply lock as the handlers use it: microceph/api/placement.go.
use microceph.Prelude.{
  ℕ, ◌+◌, ◌≤◌, List, [], ◌∷◌, true, false, not, ◌||◌, Option, none, some, ◌≡◌, refl, ap, ◌≢◌, inl,
  inr, ◌==◌, string_eq, nat_eq, if◌then◌else◌, Bool-cases, arith,
}
use microceph.Placement.Policy.{PlacementPolicy}
use microceph.Placement.Errors.{
  RemoteError, Refusal, PlacementError, operation_failed, wraps, retain_refusals,
}
use microceph.Placement.Store.{
  PlacementPolicyRecord, Row, lock_placement_apply, try_acquire, release, placement_apply_lease,
}
use microceph.Placement.Store.Lock.{token_of}
use microceph.Placement.Apply.{Cluster, World}
use microceph.Placement.Apply.Writes.{apply-token}
use microceph.Placement.Put.{
  Request, Response, sync_response, bad_request, internal_error, is_client_side, answer,
  unlock_placement_apply, unlocked, when_locked, try_lock, with_lock, applied, put_body,
  cmd_placement_put,
}

lock-held :
    (now token : ℕ) (r : PlacementPolicyRecord)
    → r.apply_lock_token ≡ token
    → token ≢ 0
    → now ≤ token + placement_apply_lease
    → lock_placement_apply now (some r) ≡ (some r, some false)
unfolding lock_placement_apply try_acquire
lock-held now token r h held within = ground arith

lock-free :
    (now : ℕ) (r : PlacementPolicyRecord)
    → r.apply_lock_token ≡ 0
    → lock_placement_apply now (some r) ≡ (some (record r { apply_lock_token = now }), some true)
unfolding lock_placement_apply try_acquire
lock-free now r free = ground arith

unlock-held :
    (token : ℕ) (row : Row)
    → token_of row ≡ some token
    → token_of (unlock_placement_apply none token row) ≡ some 0
unfolding unlock_placement_apply release
unlock-held token none h = cc
unlock-held token (some r) h = ground arith

abbrev pub untouched : Row → World
untouched row = record { row = row; calls = [] }

module _ (req : Request) (body : Row → World × Response) where
  try_lock-excluded :
      (o : Option RemoteError) (r : PlacementPolicyRecord) (token : ℕ)
      → r.apply_lock_token ≡ token
      → token ≢ 0
      → req.now ≤ token + placement_apply_lease
      → ((try_lock req body o (some r)).0 ≡ untouched (some r))
        × ((try_lock req body o (some r)).1 ≢ sync_response)
  unfolding try_lock when_locked
  try_lock-excluded (some e) r token h held within = (refl, λ k. cc)
  try_lock-excluded none r token h held within =
      rw (lock-held req.now token r h held within) (refl, λ k. cc)

  unlocked-releases :
      (p : World × Response)
      → req.unlock_fault ≡ none
      → token_of p.0.row ≡ some req.now
      → token_of (unlocked req p).0.row ≡ some 0
  unfolding unlocked
  unlocked-releases (w, response) runs h = rw runs (unlock-held req.now w.row h)

  try_lock-releases :
      ((row : Row) → token_of (body row).0.row ≡ token_of row)
      → req.unlock_fault ≡ none
      → (o : Option RemoteError) (r : PlacementPolicyRecord) → r.apply_lock_token ≡ 0
      → token_of (try_lock req body o (some r)).0.row ≡ some 0
  unfolding try_lock when_locked
  try_lock-releases keeps runs (some e) r free = ap some free
  try_lock-releases keeps runs none r free = rw (lock-free req.now r free) (
      unlocked-releases (body (some (record r { apply_lock_token = req.now }))) runs
        (keeps (some (record r { apply_lock_token = req.now }))))

module _ (cluster : Cluster) (req : Request) where
  put_body-excluded :
      (body : Option PlacementPolicy) (r : PlacementPolicyRecord) (token : ℕ)
      → r.apply_lock_token ≡ token
      → token ≢ 0
      → req.now ≤ token + placement_apply_lease
      → ((put_body cluster req body (some r)).0 ≡ untouched (some r))
        × ((put_body cluster req body (some r)).1 ≢ sync_response)
  unfolding put_body with_lock
  put_body-excluded none r token h held within = (refl, λ k. cc)
  put_body-excluded (some policy) r token h held within =
      elim (Bool-cases (req.trailing || not (policy.mode == "reconcile"))) [
        | inl e ↦ rw e (refl, λ k. cc)
        | inr e ↦
            rw e
              (try_lock-excluded req (applied cluster policy) req.lock_fault r token h held within)
      ]

  -- While another apply holds the lock within its lease, a PUT, whatever it asks for, changes
  -- nothing in the row, dispatches nothing and does not answer that it succeeded.
  pub put-excluded :
      (r : PlacementPolicyRecord) (token : ℕ)
      → r.apply_lock_token ≡ token
      → token ≢ 0
      → req.now ≤ token + placement_apply_lease
      → ((cmd_placement_put cluster req (some r)).0 ≡ untouched (some r))
        × ((cmd_placement_put cluster req (some r)).1 ≢ sync_response)
  unfolding cmd_placement_put
  put-excluded r token h held within = put_body-excluded req.body r token h held within

  applied-token :
      (policy : PlacementPolicy) (row : Row)
      → token_of (applied cluster policy row).0.row ≡ token_of row
  unfolding applied
  applied-token policy row = apply-token cluster policy row

  put_body-releases :
      (body : Option PlacementPolicy) (r : PlacementPolicyRecord)
      → req.unlock_fault ≡ none
      → r.apply_lock_token ≡ 0
      → token_of (put_body cluster req body (some r)).0.row ≡ some 0
  unfolding put_body with_lock
  put_body-releases none r runs free = ap some free
  put_body-releases (some policy) r runs free =
      elim (Bool-cases (req.trailing || not (policy.mode == "reconcile"))) [
        | inl e ↦ rw e (ap some free)
        | inr e ↦ rw e (
            try_lock-releases req (applied cluster policy) (applied-token policy) runs
              req.lock_fault r free)
      ]

  -- A PUT that finds the lock free leaves it free on every path: after a refused request, a failed
  -- check, a failed reconcile and a success. The transaction that releases it is assumed to run.
  pub put-releases :
      (r : PlacementPolicyRecord)
      → req.unlock_fault ≡ none
      → r.apply_lock_token ≡ 0
      → token_of (cmd_placement_put cluster req (some r)).0.row ≡ some 0
  unfolding cmd_placement_put
  put-releases r runs free = put_body-releases req.body r runs free

-- A refusal that stands beside another failure: the response is 500 where that failure is
-- operational, and 400 where it is not, never 500 or the library's choice for the refusal's sake.
pub answer-retain_refusals :
    (e : PlacementError) (refused : List Refusal)
    → refused ≢ []
    → answer (some (retain_refusals e refused))
      ≡ (if wraps operation_failed e then internal_error else bad_request)
unfolding answer retain_refusals is_client_side wraps
answer-retain_refusals e [] h = absurd (h refl)
answer-retain_refusals e (x ∷ xs) h = ground arith
