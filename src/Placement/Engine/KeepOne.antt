-- ===== src/Placement/Engine/KeepOne.antt =====
-- The loop of reconcilePlacement that removes, and the keep-one rule: microceph/ceph/placement.go.
use microceph.Prelude.{
  String, List, [], ◌∷◌, Bool, true, false, not, ◌&&◌, ◌||◌, ◌≡◌, refl, ap, ◌≢◌, inl, inr, ◌==◌,
  string_eq, Occurs, arith, Bool-cases, nat_eq, ne_of_beq, for_each_keeps, resume_keeps,
}
use text.Mathlib.TextEquality.{eq_iff}
use microceph.Placement.Policy.{PlacementPolicy}
use microceph.Placement.Errors.{
  ControlService, control_services, service_eq, add_control, remove_control, add_failed,
}
use microceph.Placement.Table.{Table, get, get-put}
use microceph.Placement.Engine.{
  Env, Run, is_keeper, is_desired, dispatch, mark_removed, mark_added, add_member, add_services,
  remove_member, remove_services, count_retainers,
}

-- Another member that the policy leaves the service with, viable before any removal.
pub record Retained (policy : PlacementPolicy) (viable : Table) (svc : ControlService) (m : String)
    : Type 0 where
  pub retainer : String
  pub differs : retainer ≢ m
  pub keeper : is_keeper policy retainer ≡ true
  pub was_viable : get viable svc retainer ≡ true

pub count_retainers-Retained :
    (policy : PlacementPolicy) (viable : Table) (svc : ControlService) (m : String)
    (ms : List (String × Bool))
    → count_retainers policy viable svc m ms ≢ 0
    → Retained policy viable svc m
unfolding count_retainers
count_retainers-Retained policy viable svc m [] h = absurd (h refl)
count_retainers-Retained policy viable svc m ((o, b) ∷ ms) h =
    elim (Bool-cases (not (o == m) && get viable svc o && is_keeper policy o)) [
      | inl t ↦ record {
        retainer = o;
        differs = ground (arith, eq_iff o m);
        keeper = ground arith;
        was_viable = ground arith;
      }
      | inr f ↦ count_retainers-Retained policy viable svc m ms (λ e. h (rw f (omega arith)))
    ]

-- What every prefix of the removal loop leaves, against the state at its start: keepers count as
-- viable as then, nothing is observed anew, and each removal dispatched left such a keeper.
pub record Guarded (policy : PlacementPolicy) (start : Run) (s : Run) : Type 0 where
  pub keepers_stand :
      (svc : ControlService) (o : String)
      → is_keeper policy o ≡ true
      → get s.viable svc o ≡ get start.viable svc o
  pub observed_shrinks :
      (svc : ControlService) (o : String)
      → get s.observed svc o ≡ true
      → get start.observed svc o ≡ true
  pub removals_safe :
      (svc : ControlService) (m : String)
      → Occurs (remove_control svc m) s.calls
      → (is_keeper policy m ≡ false)
        × (get start.observed svc m ≡ true)
        × Retained policy start.viable svc m

module _ (policy : PlacementPolicy) (start : Run) where
  mark_removed-Guarded :
      (svc : ControlService) (m : String)
      → is_keeper policy m ≡ false
      → (s : Run) → Guarded policy start s
      → Guarded policy start (mark_removed svc m s).0
  unfolding mark_removed
  mark_removed-Guarded svc m gone s g = record {
    keepers_stand = λ svc' o k. ground (
      arith,
      g.keepers_stand svc' o k,
      get-put svc svc' m o false s.viable,
      eq_iff m o,
      ap (is_keeper policy) {x = m} {y = o},
    );
    observed_shrinks = λ svc' o h.
        g.observed_shrinks svc' o (ground (arith, get-put svc svc' m o false s.observed));
    removals_safe = g.removals_safe;
  }

  Retained-start :
      (svc : ControlService) (m : String) (s : Run)
      → Guarded policy start s
      → Retained policy s.viable svc m
      → Retained policy start.viable svc m
  Retained-start svc m s g r = record {
    retainer = r.retainer;
    differs = r.differs;
    keeper = r.keeper;
    was_viable = ground (arith, g.keepers_stand svc r.retainer r.keeper, r.was_viable);
  }

  dispatch-Guarded :
      (svc : ControlService) (m : String)
      → is_keeper policy m ≡ false
      → (s : Run) → get s.observed svc m ≡ true
      → Guarded policy start s
      → Retained policy s.viable svc m
      → Guarded policy start (record s { calls = remove_control svc m ∷ s.calls })
  dispatch-Guarded svc m gone s seen g r = record {
    keepers_stand = g.keepers_stand;
    observed_shrinks = g.observed_shrinks;
    removals_safe = λ svc' m' q. elim q [
      | inl e ↦
          let same_svc : svc' ≡ svc = cc in
          let same_member : m' ≡ m = cc in
          rw (same_svc, same_member)
            (gone, g.observed_shrinks svc m seen, Retained-start svc m s g r)
      | inr later ↦ g.removals_safe svc' m' later
    ];
  }

  remove_member-Guarded :
      (env : Env) (svc : ControlService) (m : String) (s : Run)
      → Guarded policy start s
      → Guarded policy start (remove_member env policy svc m s).0
  unfolding remove_member dispatch
  remove_member-Guarded env svc m s g =
      elim (Bool-cases (is_keeper policy m || not (get s.observed svc m))) [
        | inl skipped ↦ rw skipped g
        | inr target ↦
            rw target
              (elim (Bool-cases (count_retainers policy s.viable svc m (s.observed svc) == 0)) [
                | inl last ↦ rw last (record {
                  keepers_stand = g.keepers_stand;
                  observed_shrinks = g.observed_shrinks;
                  removals_safe = g.removals_safe;
                })
                | inr spare ↦
                    let gone : is_keeper policy m ≡ false = ground arith in
                    let seen : get s.observed svc m ≡ true = ground arith in
                    let retained =
                      count_retainers-Retained policy s.viable svc m (s.observed svc)
                        (ne_of_beq _ 0 spare) in
                    rw spare (
                      resume_keeps (Guarded policy start) (mark_removed svc m)
                        (mark_removed-Guarded svc m gone) _ _
                        (dispatch-Guarded svc m gone s seen g retained))
              ])
      ]

  pub remove_services-Guarded :
      (env : Env) (s : Run)
      → Guarded policy start s
      → Guarded policy start (remove_services env policy s).0
  unfolding remove_services
  remove_services-Guarded env s g =
      for_each_keeps (Guarded policy start) _
        (λ svc.
          for_each_keeps (Guarded policy start) _ (remove_member-Guarded env svc)
            (env.remove_order svc))
        control_services s g

-- Nothing was removed yet, of control services.
abbrev pub NothingRemoved : Run → Type 0
NothingRemoved s = (svc : ControlService) (m : String) → ¬ (Occurs (remove_control svc m) s.calls)

add_member-NothingRemoved :
    (env : Env) (policy : PlacementPolicy) (svc : ControlService) (m : String) (s : Run)
    → NothingRemoved s
    → NothingRemoved (add_member env policy svc m s).0
unfolding add_member dispatch mark_added
add_member-NothingRemoved env policy svc m s h =
    elim (Bool-cases (is_desired policy m && not (get s.observed svc m))) [
      | inl add ↦
          let called : NothingRemoved (record s { calls = add_control svc m ∷ s.calls }) =
            λ svc' m' q. elim q [ inl e ↦ cc | inr later ↦ h svc' m' later ] in
          let d = dispatch env (add_control svc m) (add_failed svc m) s in
          rw add (resume_keeps NothingRemoved (mark_added svc m) (λ s' h'. h') d.0 d.1 called)
      | inr skipped ↦ rw skipped h
    ]

pub add_services-NothingRemoved :
    (env : Env) (policy : PlacementPolicy) (s : Run)
    → NothingRemoved s
    → NothingRemoved (add_services env policy s).0
unfolding add_services
add_services-NothingRemoved env policy s h =
    for_each_keeps NothingRemoved _
      (λ svc.
        for_each_keeps NothingRemoved _ (add_member-NothingRemoved env policy svc)
          (env.add_order svc))
      control_services s h
