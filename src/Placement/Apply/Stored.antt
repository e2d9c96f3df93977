-- ===== src/Placement/Apply/Stored.antt =====
-- What an apply leaves in the placement_policy row: ApplyPlacementPolicy of
-- microceph/ceph/placement.go.
use microceph.Prelude.{
  List, [], true, Option, none, some, ◌≡◌, refl, string_eq, Result, ok, err, ◌>>=◌, arith,
}
use microceph.Placement.Policy.{PlacementPolicy}
use microceph.Placement.Errors.{Call, PlacementError}
use microceph.Placement.Engine.{Run}
use microceph.Placement.Reconcile.{reconcile_placement}
use microceph.Placement.Store.{
  PlacementPolicyRecord, update, transaction, set_placement_policy, set_placement_refusal,
  store_placement_policy, policy_for_storage,
}
use microceph.Placement.Apply.{
  Cluster, World, normalize_placement, validate_placement, write_refusal, refuse, apply_valid,
  apply_stored, reconciled, apply_normal, apply_placement_policy,
}

abbrev pub checked : PlacementPolicy → Option PlacementError → Result PlacementError PlacementPolicy
checked n none = ok n
checked n (some e) = err e

-- The first error of normalizePlacement and ValidatePlacement, and else the policy to store.
abbrev pub accepted : Cluster → PlacementPolicy → Result PlacementError PlacementPolicy
accepted cluster policy =
    normalize_placement cluster.tls policy >>= λ n. checked n (validate_placement cluster n)

-- The row, the dispatches and the error after an apply that stored `n` over `r` and then ran.
abbrev pub outcome :
    Cluster
    → PlacementPolicy
    → PlacementPolicyRecord
    → Run × Option PlacementError
    → World × Option PlacementError
outcome cluster n r run = (
  record {
    row = some (record {
      active = true;
      policy_json = some (policy_for_storage n);
      last_refusal = run.1;
      apply_lock_token = r.apply_lock_token;
    });
    calls = run.0.calls;
  },
  run.1,
)

module _ (cluster : Cluster) (quiet : cluster.refusal_fault ≡ none) where
  write_refusal-quiet :
      (reason : Option PlacementError) (r : PlacementPolicyRecord)
      → write_refusal cluster reason (some r) ≡ some (record r { last_refusal = reason })
  unfolding write_refusal transaction set_placement_refusal update
  write_refusal-quiet reason r = rw quiet refl

  refuse-quiet :
      (e : PlacementError) (r : PlacementPolicyRecord) (calls : List Call)
      → refuse cluster e (record { row = some r; calls = calls })
        ≡ (record { row = some (record r { last_refusal = some e }); calls = calls }, some e)
  unfolding refuse
  refuse-quiet e r calls = rw (write_refusal-quiet (some e) r) refl

  reconciled-quiet :
      (r : PlacementPolicyRecord) (run : Run) (o : Option PlacementError)
      → reconciled cluster (record { row = some r; calls = [] }) (run, o)
        ≡ (record { row = some (record r { last_refusal = o }); calls = run.calls }, o)
  unfolding reconciled
  reconciled-quiet r run (some e) = refuse-quiet e r run.calls
  reconciled-quiet r run none = rw (write_refusal-quiet none r) refl

  valid-rejected :
      (n : PlacementPolicy) (r : PlacementPolicyRecord) (e : PlacementError)
      (o : Option PlacementError)
      → checked n o ≡ err e
      → apply_valid cluster n (record { row = some r; calls = [] }) o
        ≡ (record { row = some (record r { last_refusal = some e }); calls = [] }, some e)
  unfolding apply_valid
  valid-rejected n r e none h = cc
  valid-rejected n r e (some x) h =
      let same : x ≡ e = ground arith in rw (refuse-quiet x r [], same) refl

  normal-rejected :
      (r : PlacementPolicyRecord) (e : PlacementError) (res : Result PlacementError PlacementPolicy)
      → (res >>= λ n. checked n (validate_placement cluster n)) ≡ err e
      → apply_normal cluster (record { row = some r; calls = [] }) res
        ≡ (record { row = some (record r { last_refusal = some e }); calls = [] }, some e)
  unfolding apply_normal
  normal-rejected r e (err x) h =
      let same : x ≡ e = ground arith in rw (refuse-quiet x r [], same) refl
  normal-rejected r e (ok n) h = valid-rejected n r e (validate_placement cluster n) h

  -- A policy that the checks reject changes neither the stored policy, nor whether it is active, nor
  -- any service: only the refusal is recorded, and the caller gets the error of the check. The
  -- transaction that records the refusal is assumed to run.
  pub apply-rejected :
      (policy : PlacementPolicy) (r : PlacementPolicyRecord) (e : PlacementError)
      → accepted cluster policy ≡ err e
      → apply_placement_policy cluster policy (some r)
        ≡ (record { row = some (record r { last_refusal = some e }); calls = [] }, some e)
  unfolding apply_placement_policy
  apply-rejected policy r e h = normal-rejected r e (normalize_placement cluster.tls policy) h

  module _ (stores : cluster.store_fault ≡ none) where
    stored :
        (n : PlacementPolicy) (r : PlacementPolicyRecord)
        → store_placement_policy cluster.store_fault n (some r)
          ≡ (some (record r { active = true; policy_json = some (policy_for_storage n) }), none)
    unfolding store_placement_policy transaction set_placement_policy update
    stored n r = rw stores refl

    valid-accepted :
        (n m : PlacementPolicy) (r : PlacementPolicyRecord) (o : Option PlacementError)
        → checked n o ≡ ok m
        → apply_valid cluster n (record { row = some r; calls = [] }) o
          ≡ outcome cluster m r (reconcile_placement cluster.engine m)
    unfolding apply_valid apply_stored
    valid-accepted n m r (some x) h = cc
    valid-accepted n m r none h =
        let same : m ≡ n = ground arith in
        rw (stored n r, same)
          (reconciled-quiet (record r { active = true; policy_json = some (policy_for_storage n) })
            (reconcile_placement cluster.engine n).0 (reconcile_placement cluster.engine n).1)

    normal-accepted :
        (m : PlacementPolicy) (r : PlacementPolicyRecord)
        (res : Result PlacementError PlacementPolicy)
        → (res >>= λ n. checked n (validate_placement cluster n)) ≡ ok m
        → apply_normal cluster (record { row = some r; calls = [] }) res
          ≡ outcome cluster m r (reconcile_placement cluster.engine m)
    unfolding apply_normal
    normal-accepted m r (err x) h = cc
    normal-accepted m r (ok n) h = valid-accepted n m r (validate_placement cluster n) h

    -- An accepted policy replaces the stored one whole, without its TLS material, and becomes
    -- active, whatever the reconcile then does; the reconcile gets the material, and its error, or
    -- none, is what is recorded and returned. Both transactions are assumed to run.
    pub apply-accepted :
        (policy n : PlacementPolicy) (r : PlacementPolicyRecord)
        → accepted cluster policy ≡ ok n
        → apply_placement_policy cluster policy (some r)
          ≡ outcome cluster n r (reconcile_placement cluster.engine n)
    unfolding apply_placement_policy
    apply-accepted policy n r h = normal-accepted n r (normalize_placement cluster.tls policy) h
