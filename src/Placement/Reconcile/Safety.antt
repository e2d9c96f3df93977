-- ===== src/Placement/Reconcile/Safety.antt =====
-- The dispatches of a whole reconcile: reconcilePlacement of microceph/ceph/placement.go.
use microceph.Prelude.{
  String, List, [], ◌∷◌, true, false, not, Option, none, some, ◌≡◌, refl, ◌≢◌, inl, inr, string_eq,
  Occurs, Bool-cases, resume_keeps, ok, err, Result, resume_either, ◌>>◌,
}
use microceph.Placement.Policy.{PlacementPolicy, Members}
use microceph.Placement.Errors.{
  ControlService, service_eq, Call, remove_control, RemoteError, PlacementError,
}
use microceph.Placement.Engine.{
  Env, Run, ServiceRow, is_keeper, add_services, remove_services, assess, initial_run,
}
use microceph.Placement.Engine.Viability.{viability_sound}
use microceph.Placement.Engine.KeepOne.{
  Guarded, remove_services-Guarded, NothingRemoved, add_services-NothingRemoved,
}
use microceph.Placement.Engine.Order.{
  AddsFirst, NothingRemoved-AddsFirst, remove_services-AddsFirst,
}
use microceph.Placement.Gateways.{apply_rgw_placement}
use microceph.Placement.Gateways.Calls.{Insensitive, apply_rgw_placement_keeps}
use microceph.Placement.Reconcile.{
  conclude, finish, idle, with_rows, with_members, reconcile_from, reconcile_placement,
}

module _ (P : List Call → Type 0) where
  conclude_keeps : (s : Run) (o : Option PlacementError) → P s.calls → P (conclude s o).0.calls
  unfolding conclude
  conclude_keeps s none h = h
  conclude_keeps s (some e) h = h

  finish_keeps :
      Insensitive P
      → (env : Env) (policy : PlacementPolicy) (s : Run) → P s.calls
      → P (finish env policy s).0.calls
  unfolding finish
  finish_keeps i env policy s h =
      let r = apply_rgw_placement env policy s in
      conclude_keeps r.0 r.1 (apply_rgw_placement_keeps P i env policy s h)

AddsFirst-Insensitive : Insensitive AddsFirst
AddsFirst-Insensitive = record { enabling = λ g cs h. h; removing = λ g cs h. h }

-- The state in which the removals of a run start: after its additions, with the polls' results.
abbrev pub before_removals : Env → PlacementPolicy → List ServiceRow → Run
before_removals env policy rows =
    (assess env policy (add_services env policy (initial_run rows)).0).0

-- The rest of a run once the additions are made, whatever they returned.
pub reconcile_from_keeps :
    (P : List Call → Type 0)
    → Insensitive P
    → (env : Env) (policy : PlacementPolicy) (rows : List ServiceRow)
    → P (add_services env policy (initial_run rows)).0.calls
    → P (remove_services env policy (before_removals env policy rows)).0.calls
    → P (reconcile_from env policy rows).0.calls
unfolding reconcile_from assess
reconcile_from_keeps P i env policy rows added removed =
    let Q : Run → Type 0 = λ s. P s.calls in
    let a = add_services env policy (initial_run rows) in
    let r = remove_services env policy (before_removals env policy rows) in
    resume_either Q (assess env policy >> (remove_services env policy >> finish env policy)) a.0 a.1
      added (resume_keeps Q (finish env policy) (finish_keeps P i env policy) r.0 r.1 removed)

module _ (P : List Call → Type 0) (start : P []) (env : Env) (policy : PlacementPolicy)
    (h : (rows : List ServiceRow)
      → env.services ≡ ok rows
      → P (reconcile_from env policy rows).0.calls) where
  with_rows_keeps :
      (services : Result RemoteError (List ServiceRow))
      → env.services ≡ services
      → P (with_rows env policy services).0.calls
  unfolding with_rows initial_run
  with_rows_keeps (ok rows) e = h rows e
  with_rows_keeps (err x) e = start

  with_members_keeps : (ms : Members) → P (with_members env policy ms).0.calls
  unfolding with_members initial_run
  with_members_keeps [] = start
  with_members_keeps (m ∷ ms) = with_rows_keeps env.services refl

  reconcile_placement_keeps : P (reconcile_placement env policy).0.calls
  unfolding reconcile_placement idle initial_run
  reconcile_placement_keeps = elim (Bool-cases (not env.server_cert)) [
    | inl bare ↦ rw bare start
    | inr fine ↦ rw fine (with_members_keeps policy.members)
  ]

-- The dispatched removals of a run, each with the keeper that it leaves. `before` is the state in
-- which the removals start.
pub record KeptBy (env : Env) (policy : PlacementPolicy) (svc : ControlService) (m : String)
    : Type 0 where
  pub retainer : String
  pub differs : retainer ≢ m
  pub keeper : is_keeper policy retainer ≡ true
  pub is_ready : env.ready svc retainer ≡ true

abbrev pub RemovalsKept : Env → PlacementPolicy → List Call → Type 0
RemovalsKept env policy calls =
    (svc : ControlService) (m : String)
    → Occurs (remove_control svc m) calls
    → (is_keeper policy m ≡ false) × KeptBy env policy svc m

RemovalsKept-Insensitive :
    (env : Env) (policy : PlacementPolicy) → Insensitive (RemovalsKept env policy)
RemovalsKept-Insensitive env policy = record {
  enabling = λ g cs h svc m q. elim q [ inl e ↦ cc | inr later ↦ h svc m later ];
  removing = λ g cs h svc m q. elim q [ inl e ↦ cc | inr later ↦ h svc m later ];
}

Guarded-start : (policy : PlacementPolicy) (s : Run) → NothingRemoved s → Guarded policy s s
Guarded-start policy s h = record {
  keepers_stand = λ svc o k. refl;
  observed_shrinks = λ svc o k. k;
  removals_safe = λ svc m q. absurd (h svc m q);
}

reconcile_from-RemovalsKept :
    (env : Env) (policy : PlacementPolicy) (rows : List ServiceRow)
    → RemovalsKept env policy (reconcile_from env policy rows).0.calls
unfolding assess initial_run
reconcile_from-RemovalsKept env policy rows =
    let added = add_services-NothingRemoved env policy (initial_run rows) (λ svc m q. q) in
    let start = before_removals env policy rows in
    let g = remove_services-Guarded policy start env start (Guarded-start policy start added) in
    reconcile_from_keeps (RemovalsKept env policy) (RemovalsKept-Insensitive env policy) env policy
      rows (λ svc m q. absurd (added svc m q))
      (λ svc m q.
        let (gone, seen, kept) = g.removals_safe svc m q in
        let sound =
          viability_sound env.ready policy start.observed svc m svc kept.retainer seen gone
            kept.keeper kept.was_viable in
        (
          gone,
          record {
            retainer = kept.retainer;
            differs = kept.differs;
            keeper = kept.keeper;
            is_ready = sound.1;
          },
        ))

-- Whatever the members answer and in whatever order Go ranges over its maps, where a run removes a
-- control service from a member, that member's entry says control:false, and some other member,
-- which the policy leaves the service with, was found ready by a poll of the run and is not itself
-- a target of a removal of that service in the run.
pub reconcile_placement_keeps_one :
    (env : Env) (policy : PlacementPolicy) (svc : ControlService) (m : String)
    → Occurs (remove_control svc m) (reconcile_placement env policy).0.calls
    → (is_keeper policy m ≡ false)
      × (retainer : String) × (retainer ≢ m)
      × (is_keeper policy retainer ≡ true)
      × (env.ready svc retainer ≡ true)
      × ¬ (Occurs (remove_control svc retainer) (reconcile_placement env policy).0.calls)
reconcile_placement_keeps_one env policy svc m q =
    let all =
      reconcile_placement_keeps (RemovalsKept env policy) (λ svc m q. absurd q) env policy
        (λ rows e. reconcile_from-RemovalsKept env policy rows) in
    let (gone, kept) = all svc m q in
    (
      gone,
      kept.retainer,
      kept.differs,
      kept.keeper,
      kept.is_ready,
      λ r. cc (kept.keeper, (all svc kept.retainer r).0),
    )

-- In the history of a run, whose newest dispatch comes first, every dispatch that adds a control
-- service comes before every dispatch that removes one.
pub reconcile_placement-AddsFirst :
    (env : Env) (policy : PlacementPolicy) → AddsFirst (reconcile_placement env policy).0.calls
reconcile_placement-AddsFirst env policy =
    reconcile_placement_keeps AddsFirst tt env policy (λ rows e. from rows)
  where
    from : (rows : List ServiceRow) → AddsFirst (reconcile_from env policy rows).0.calls
    from rows =
        let added = NothingRemoved-AddsFirst (add_services env policy (initial_run rows)).0.calls (
          add_services-NothingRemoved env policy (initial_run rows)
            (unfold initial_run in λ svc m q. q)) in
        reconcile_from_keeps AddsFirst AddsFirst-Insensitive env policy rows added (
          remove_services-AddsFirst env policy (before_removals env policy rows)
            (unfold assess in added))
