-- ===== src/Placement/Engine/Viability.antt =====
-- controlServiceViability against the polls: microceph/ceph/control_readiness.go.
use microceph.Prelude.{
  String, List, [], ◌∷◌, ◌++◌, Bool, true, false, ◌||◌, ◌≡◌, refl, ap, subst, ◌⊎◌, inl, inr, ◌==◌,
  string_eq, lookup, if◌then◌else◌, Occurs, arith, Bool-cases,
}
use text.Mathlib.TextEquality.{eq_iff}
use microceph.Placement.Policy.{PlacementPolicy}
use microceph.Placement.Errors.{
  ControlService, mon, mgr, mds, control_services, service_eq, same_service_iff, Refusal,
}
use microceph.Placement.Table.{Table, get, put, get-put, or_false}
use microceph.Placement.Engine.{
  is_keeper, scan_members, scan_services, mark_unready, control_service_viability,
}

pub Occurs-append :
    {A : Type 0} (a : A) (xs ys : List A) → Occurs a xs ⊎ Occurs a ys → Occurs a (xs ++ ys)
Occurs-append a [] ys (inl h) = absurd h
Occurs-append a [] ys (inr h) = h
Occurs-append a (x ∷ xs) ys (inl (inl e)) = inl e
Occurs-append a (x ∷ xs) ys (inl (inr h)) = inr (Occurs-append a xs ys (inl h))
Occurs-append a (x ∷ xs) ys (inr h) = inr (Occurs-append a xs ys (inr h))

-- What one poll leaves behind.
unready_entry :
    (r : Bool) (s : ControlService) (m : String) (t : Table) (svc : ControlService) (o : String)
    → get (if r then t else put s m false t) svc o ≡ true
    → (get t svc o ≡ true) × (◌≡◌ {A = Refusal} (s, m) (svc, o) → r ≡ true)
unready_entry true s m t svc o h = (h, λ _. refl)
unready_entry false s m t svc o h = (
  ground (arith, get-put s svc m o false t),
  λ e. ground (
    arith,
    get-put s svc m o false t,
    eq_iff m o,
    same_service_iff s svc,
    ap {B = ControlService} (λ (p : Refusal). p.0) e,
    ap {B = String} (λ (p : Refusal). p.1) e,
  ),
)

or_true : (b : Bool) → (b || true) ≡ true
or_true true = refl
or_true false = refl

mark_unready_sound :
    (ready : ControlService → String → Bool) (ps : List Refusal) (t : Table) (svc : ControlService)
    (o : String)
    → get (mark_unready ready ps t) svc o ≡ true
    → (get t svc o ≡ true) × (Occurs (svc, o) ps → ready svc o ≡ true)
unfolding mark_unready
mark_unready_sound ready [] t svc o h = (h, λ z. absurd z)
mark_unready_sound ready ((s, m) ∷ ps) t svc o h =
    let t' = if ready s m then t else put s m false t in
    let later = mark_unready_sound ready ps t' svc o h in
    let entry = unready_entry (ready s m) s m t svc o later.0 in
    (
      entry.0,
      λ q. elim q [
        | inl e ↦ subst (λ (p : Refusal). ready p.0 p.1 ≡ true) e (entry.1 e)
        | inr r ↦ later.1 r
      ],
    )

scan_members_pending :
    (policy : PlacementPolicy) (svc : ControlService) (ms : List (String × Bool)) (o : String)
    → or_false (lookup o ms) ≡ true
    → is_keeper policy o ≡ true
    → Occurs (svc, o) (scan_members policy svc ms).0
unfolding scan_members lookup
scan_members_pending policy svc [] o h k = absurd (ground arith)
scan_members_pending policy svc ((m, false) ∷ ms) o h k =
    scan_members_pending policy svc ms o (ground (arith, eq_iff m o)) k
scan_members_pending policy svc ((m, true) ∷ ms) o h k = elim (Bool-cases (is_keeper policy m)) [
  | inl keeper ↦ rw keeper (elim (Bool-cases (m == o)) [
    | inl same ↦ inl (rw ((eq_iff m o).0 same))
    | inr other ↦ inr (scan_members_pending policy svc ms o (ground (arith, eq_iff m o)) k)
  ])
  | inr target ↦ rw target (
      scan_members_pending policy svc ms o
        (ground (arith, eq_iff m o, ap (is_keeper policy) {x = m} {y = o})) k)
]

scan_members_removals :
    (policy : PlacementPolicy) (svc : ControlService) (ms : List (String × Bool)) (o : String)
    → or_false (lookup o ms) ≡ true
    → is_keeper policy o ≡ false
    → (scan_members policy svc ms).1 ≡ true
unfolding scan_members lookup
scan_members_removals policy svc [] o h k = ground arith
scan_members_removals policy svc ((m, b) ∷ ms) o h k =
    ground (arith, eq_iff m o, scan_members_removals policy svc ms o)

scan_services_pending :
    (policy : PlacementPolicy) (t : Table) (svcs : List ControlService) (svc : ControlService)
    (o : String)
    → Occurs svc svcs
    → get t svc o ≡ true
    → is_keeper policy o ≡ true
    → Occurs (svc, o) (scan_services policy t svcs).0
unfolding scan_services get
scan_services_pending policy t [] svc o i h k = absurd i
scan_services_pending policy t (x ∷ svcs) svc o i h k =
    Occurs-append (svc, o) (scan_members policy x (t x)).0 (scan_services policy t svcs).0
      (elim i [
        | inl e ↦ inl (rw e (scan_members_pending policy svc (t svc) o h k))
        | inr j ↦ inr (scan_services_pending policy t svcs svc o j h k)
      ])

scan_services_removals :
    (policy : PlacementPolicy) (t : Table) (svcs : List ControlService) (svc : ControlService)
    (o : String)
    → Occurs svc svcs
    → get t svc o ≡ true
    → is_keeper policy o ≡ false
    → (scan_services policy t svcs).1 ≡ true
unfolding scan_services get
scan_services_removals policy t [] svc o i h k = absurd i
scan_services_removals policy t (x ∷ svcs) svc o i h k = elim i [
  | inl e ↦ rw e (rw (scan_members_removals policy svc (t svc) o h k))
  | inr j ↦ rw (scan_services_removals policy t svcs svc o j h k) (or_true _)
]

every_service : (svc : ControlService) → Occurs svc control_services
every_service mon = inl refl
every_service mgr = inr (inl refl)
every_service mds = inr (inr (inl refl))

-- Where some observed service is a removal target, a keeper that counts as viable was observed and
-- answered a readiness poll.
pub viability_sound :
    (ready : ControlService → String → Bool) (policy : PlacementPolicy) (t : Table)
    (target : ControlService) (m : String) (svc : ControlService) (o : String)
    → get t target m ≡ true
    → is_keeper policy m ≡ false
    → is_keeper policy o ≡ true
    → get (control_service_viability ready policy t) svc o ≡ true
    → (get t svc o ≡ true) × (ready svc o ≡ true)
unfolding control_service_viability
viability_sound ready policy t target m svc o seen gone keeper h =
    let pending = (scan_services policy t control_services).0 in
    let removals =
      scan_services_removals policy t control_services target m (every_service target) seen gone in
    let sound = mark_unready_sound ready pending t svc o (rw removals at h) in
    (
      sound.0,
      sound.1 (
          scan_services_pending policy t control_services svc o (every_service svc) sound.0 keeper),
    )

-- A poll never makes a service viable that was not observed.
pub viability-le-observed :
    (ready : ControlService → String → Bool) (policy : PlacementPolicy) (t : Table)
    (svc : ControlService) (o : String)
    → get (control_service_viability ready policy t) svc o ≡ true
    → get t svc o ≡ true
unfolding control_service_viability
viability-le-observed ready policy t svc o h =
    elim (Bool-cases (scan_services policy t control_services).1) [
      | inl yes' ↦
          (mark_unready_sound ready (scan_services policy t control_services).0 t svc o
            (rw yes' at h)).0
      | inr no' ↦ rw no' at h
    ]
