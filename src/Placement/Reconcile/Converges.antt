-- ===== src/Placement/Reconcile/Converges.antt =====
-- What a reconcile without an error has added: reconcilePlacement of microceph/ceph/placement.go.
use microceph.Prelude.{
  String, List, [], ◌∷◌, Bool, true, false, not, ◌&&◌, Option, none, some, ◌≡◌, ◌≢◌, lookup, refl,
  subst, ◌⊎◌, inl, inr, ◌==◌, string_eq, nat_eq, Occurs, arith, Bool-cases, for_each_keeps,
  for_each, for_each_reaches, resume, resume-none, ◌>>◌, if◌then◌else◌, Result, ok, err,
}
use microceph.Placement.Policy.{PlacementPolicy, Members}
use microceph.Placement.Errors.{
  ControlService, mon, mgr, mds, control_services, service_eq, same_service_iff, Call, add_control,
  RemoteError, PlacementError, no_server_certificate,
}
use microceph.Placement.Table.{get, get-put}
use microceph.Placement.Engine.{
  Env, Run, ServiceRow, control_of, is_desired, observe, dispatch, mark_added, add_member,
  add_services, remove_services, assess, initial_run,
}
use microceph.Placement.Engine.Order.{remove_services_keeps}
use microceph.Placement.Gateways.Calls.{Insensitive}
use microceph.Placement.Reconcile.{
  reconcile_from, with_rows, with_members, reconcile_placement, finish, idle,
}
use microceph.Placement.Reconcile.Safety.{before_removals, reconcile_from_keeps}

module _ (rows : List ServiceRow) (svc : ControlService) (m : String) where
  -- The service was registered on the member when the run read the table, or is added by the run.
  abbrev pub Present : List Call → Type 0
  Present calls = (get (observe rows (λ _. [])) svc m ≡ true) ⊎ Occurs (add_control svc m) calls

  abbrev pub Seen : Run → Type 0
  Seen s = get s.observed svc m ≡ true → Present s.calls

  Present-more : (c : Call) (cs : List Call) → Present cs → Present (c ∷ cs)
  Present-more c cs (inl e) = inl e
  Present-more c cs (inr q) = inr (inr q)

  Present-Insensitive : Insensitive Present
  Present-Insensitive = record {
    enabling = λ g cs h. Present-more _ cs h;
    removing = λ g cs h. Present-more _ cs h;
  }

  module _ (svc' : ControlService) (m' : String) where
    marked-Seen :
        (s : Run) (o : Option PlacementError)
        → Seen s
        → Seen
            (resume (mark_added svc' m') (record s { calls = add_control svc' m' ∷ s.calls }) o).0
    unfolding mark_added
    marked-Seen s (some e) h k = Present-more _ s.calls (h k)
    marked-Seen s none h k = elim (Bool-cases (svc' == svc && m' == m)) [
      | inl e ↦
          let same_svc : svc' ≡ svc = ground (arith, same_service_iff svc' svc) in
          let same : m' ≡ m = ground (arith, string_eq.beq_iff m' m) in
          inr (inl (cc (same_svc, same)))
      | inr e ↦
          let old : get s.observed svc m ≡ true =
            ground (arith, get-put svc' svc m' m true s.observed) in
          Present-more _ s.calls (h old)
    ]

    marked-Present :
        (s : Run) (o : Option PlacementError)
        → Present (add_control svc' m' ∷ s.calls)
        → Present
            (resume
              (mark_added svc' m')
              (record s { calls = add_control svc' m' ∷ s.calls })
              o).0.calls
    unfolding mark_added
    marked-Present s (some e) h = h
    marked-Present s none h = h

  add_member-Seen :
      (env : Env) (policy : PlacementPolicy) (svc' : ControlService) (m' : String) (s : Run)
      → Seen s
      → Seen (add_member env policy svc' m' s).0
  unfolding add_member dispatch
  add_member-Seen env policy svc' m' s h =
      elim (Bool-cases (is_desired policy m' && not (get s.observed svc' m'))) [
        | inl e ↦ rw (e, Seen) (marked-Seen svc' m' s _ h)
        | inr e ↦ rw (e, Seen) h
      ]

  add_member-keeps_Present :
      (env : Env) (policy : PlacementPolicy) (svc' : ControlService) (m' : String) (s : Run)
      → Present s.calls
      → Present (add_member env policy svc' m' s).0.calls
  unfolding add_member dispatch
  add_member-keeps_Present env policy svc' m' s h =
      elim (Bool-cases (is_desired policy m' && not (get s.observed svc' m'))) [
        | inl e ↦ rw (e, Present) (marked-Present svc' m' s _ (Present-more _ s.calls h))
        | inr e ↦ rw (e, Present) h
      ]

  -- The round of the member itself.
  add_member-Present :
      (env : Env) (policy : PlacementPolicy) (s : Run)
      → is_desired policy m ≡ true
      → Seen s
      → Present (add_member env policy svc m s).0.calls
  unfolding add_member dispatch
  add_member-Present env policy s desired h = elim (Bool-cases (get s.observed svc m)) [
    | inl e ↦ rw (desired, e, Present) (h e)
    | inr e ↦ rw (desired, e, Present) (marked-Present svc m s _ (inr (inl refl)))
  ]

  module _ (env : Env) (policy : PlacementPolicy) (desired : is_desired policy m ≡ true)
      (ranged : Occurs m (env.add_order svc)) where
    abbrev PresentRun : Run → Type 0
    PresentRun s = Present s.calls

    added_by :
        (svc' : ControlService) (s : Run)
        → PresentRun s
        → PresentRun (for_each (add_member env policy svc') (env.add_order svc') s).0
    added_by svc' s h =
        for_each_keeps PresentRun _ (add_member-keeps_Present env policy svc') (env.add_order svc')
          s h

    add_services-Present :
        (s : Run)
        → Occurs svc control_services
        → Seen s
        → (add_services env policy s).1 ≡ none
        → PresentRun (add_services env policy s).0
    unfolding add_services
    add_services-Present s place h quiet =
        for_each_reaches Seen PresentRun
          (λ svc'. for_each (add_member env policy svc') (env.add_order svc')) svc
          (λ svc' s' h'.
            for_each_keeps Seen _ (add_member-Seen env policy svc') (env.add_order svc') s' h')
          added_by
          (λ s' h' quiet'.
            for_each_reaches Seen PresentRun (add_member env policy svc) m
              (add_member-Seen env policy svc) (add_member-keeps_Present env policy svc)
              (λ s'' h'' _. add_member-Present env policy s'' desired h'') (env.add_order svc) s'
              ranged h' quiet')
          control_services s place h quiet

    reconcile_from-Present :
        Occurs svc control_services
        → (reconcile_from env policy rows).1 ≡ none
        → Present (reconcile_from env policy rows).0.calls
    unfolding reconcile_from
    reconcile_from-Present place quiet =
        let a = add_services env policy (initial_run rows) in
        let added_quiet =
          resume-none (assess env policy >> (remove_services env policy >> finish env policy)) a.0
            a.1 quiet in
        let present =
          add_services-Present (initial_run rows) place (unfold initial_run in λ k. inl k)
            added_quiet in
        reconcile_from_keeps Present Present-Insensitive env policy rows present (
          remove_services_keeps Present (λ svc' m' cs h. Present-more _ cs h) env policy
            (before_removals env policy rows) (unfold assess in present))

Occurs-control_services : (svc : ControlService) → Occurs svc control_services
Occurs-control_services mon = inl refl
Occurs-control_services mgr = inr (inl refl)
Occurs-control_services mds = inr (inr (inl refl))

undesired :
    (policy : PlacementPolicy) (m : String) → policy.members ≡ [] → is_desired policy m ≡ false
unfolding is_desired control_of lookup
undesired policy m nobody = ground arith

quiet_else :
    (b : Bool) (x y : Run × Option PlacementError)
    → x.1 ≢ none
    → (if b then x else y).1 ≡ none
    → (b ≡ false) × (y.1 ≡ none)
quiet_else true x y loud h = absurd (loud h)
quiet_else false x y loud h = (refl, h)

module _ (env : Env) (policy : PlacementPolicy) (rows : List ServiceRow) (svc : ControlService)
    (m : String) (desired : is_desired policy m ≡ true)
    (ranged : Occurs m (env.add_order svc)) where
  with_rows-Present :
      (services : Result RemoteError (List ServiceRow))
      → services ≡ ok rows
      → (with_rows env policy services).1 ≡ none
      → Present rows svc m (with_rows env policy services).0.calls
  unfolding with_rows
  with_rows-Present (err e) read quiet = cc
  with_rows-Present (ok rows') read quiet =
      let same : rows ≡ rows' = ground arith in
      subst
        (λ r.
          (reconcile_from env policy r).1 ≡ none
          → Present rows svc m (reconcile_from env policy r).0.calls)
        same
        (reconcile_from-Present rows svc m env policy desired ranged (Occurs-control_services svc))
        quiet

  with_members-Present :
      (ms : Members)
      → policy.members ≡ ms
      → env.services ≡ ok rows
      → (with_members env policy ms).1 ≡ none
      → Present rows svc m (with_members env policy ms).0.calls
  unfolding with_members
  with_members-Present [] nobody read quiet = absurd (cc (desired, undesired policy m nobody))
  with_members-Present (p ∷ ps) e read quiet = with_rows-Present env.services read quiet

  -- A run that returns no error leaves every control service that the policy asks of a member, over
  -- whom the run ranges, registered before the run or added by it.
  pub reconcile_placement-Present :
      env.services ≡ ok rows
      → (reconcile_placement env policy).1 ≡ none
      → Present rows svc m (reconcile_placement env policy).0.calls
  unfolding reconcile_placement
  reconcile_placement-Present read quiet =
      let (fine, served) =
        quiet_else (not env.server_cert) (idle, some no_server_certificate)
          (with_members env policy policy.members) (λ k. cc) quiet in
      rw (fine, Present) (with_members-Present policy.members refl read served)
