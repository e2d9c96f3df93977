-- ===== src/Placement/Engine.antt =====
-- reconcilePlacement of microceph/ceph/placement.go, and controlServiceViability of
-- microceph/ceph/control_readiness.go.
pub mod Viability
pub mod KeepOne
pub mod Order
use microceph.Prelude.{
  ℕ, ◌+◌, String, List, [], ◌∷◌, ◌++◌, Bool, true, false, not, ◌&&◌, ◌||◌, Option, none, some, ◌==◌,
  string_eq, nat_eq, if◌then◌else◌, lookup, Result, ok, err, Action, ◌>>◌, skip, for_each,
}
use microceph.Placement.Policy.{RgwPlacement, MemberPlacement, PlacementPolicy, Members}
use microceph.Placement.Errors.{
  ControlService, mon, mgr, mds, control_services, service_eq, RemoteError, Call, add_control,
  remove_control, Refusal, PlacementError, no_server_certificate, observe_failed, add_failed,
  remove_failed, keep_one, retain_refusals,
}
use microceph.Placement.Table.{Table, get, put}

-- A row of the services table.
pub record ServiceRow : Type 0 where
  pub service : String
  pub member : String

-- Everything that a run meets outside this code: the database, the members that it dispatches to
-- (whose answer may depend on all earlier dispatches, the newest first), the outcome of polling
-- Ceph for each service, and the order in which Go ranges over a map.
pub record Env : Type 0 where
  pub server_cert : Bool
  pub services : Result RemoteError (List ServiceRow)
  pub respond : List Call → Call → Option RemoteError
  pub ready : ControlService → String → Bool
  pub add_order : ControlService → List String
  pub remove_order : ControlService → List String

-- The variables of a run. `calls` holds the dispatches made, the newest first.
pub record Run : Type 0 where
  pub calls : List Call
  pub observed : Table
  pub viable : Table
  pub refused : List Refusal

abbrev pub Step : Type 0
Step = Action Run PlacementError

-- `mp.Control` of the member's entry; none where the member has no entry or an omitted field.
unfoldable pub control_of : PlacementPolicy → String → Option Bool
control_of policy member = elim (lookup member policy.members) [
  | none ↦ none
  | some mp ↦ mp.control
]

-- `mp.Control != nil && *mp.Control`.
unfoldable pub is_desired : PlacementPolicy → String → Bool
unfolding control_of
is_desired policy member = elim (control_of policy member) [ some true ↦ true | _ ↦ false ]

-- `!inMap || mp.Control == nil || *mp.Control`.
unfoldable pub is_keeper : PlacementPolicy → String → Bool
unfolding control_of
is_keeper policy member = elim (control_of policy member) [ some false ↦ false | _ ↦ true ]

-- getObservedControlServicesFunc: the rows of other services are passed over.
unfoldable pub control_service_of : String → Option ControlService
control_service_of name =
    if name == "mon"
    then some mon
    else if name == "mgr"
    then some mgr
    else if name == "mds"
    then some mds
    else none

unfoldable pub observe : List ServiceRow → Table → Table
unfolding control_service_of
observe [] t = t
observe (row ∷ rows) t =
    observe rows
      (elim (control_service_of row.service) [ none ↦ t | some svc ↦ put svc row.member true t ])

-- One dispatch, with the error that the caller makes of the member's.
unfoldable pub dispatch : Env → Call → (RemoteError → PlacementError) → Step
dispatch env call fail s = (
  record s { calls = call ∷ s.calls },
  elim (env.respond s.calls call) [ none ↦ none | some e ↦ some (fail e) ],
)

unfoldable pub mark_added : ControlService → String → Step
mark_added svc member s = (record s { observed = put svc member true s.observed }, none)

unfoldable pub mark_removed : ControlService → String → Step
mark_removed svc member s = (
  record s { observed = put svc member false s.observed; viable = put svc member false s.viable },
  none,
)

-- The body of the loop that adds; `member` ranges over `desiredControl`.
unfoldable pub add_member : Env → PlacementPolicy → ControlService → String → Step
unfolding mark_added
add_member env policy svc member s =
    if is_desired policy member && not (get s.observed svc member)
    then (dispatch env (add_control svc member) (add_failed svc member) >> mark_added svc member) s
    else (s, none)

unfoldable pub add_services : Env → PlacementPolicy → Step
add_services env policy =
    for_each (λ svc. for_each (add_member env policy svc) (env.add_order svc)) control_services

-- The pairs to poll, and whether a removal is pending, for one service.
unfoldable pub scan_members :
    PlacementPolicy → ControlService → List (String × Bool) → List Refusal × Bool
scan_members policy svc [] = ([], false)
scan_members policy svc ((member, exists) ∷ rest) =
    let (pending, removals) = scan_members policy svc rest in
    if not exists
    then (pending, removals)
    else if not (is_keeper policy member)
    then (pending, true)
    else ((svc, member) ∷ pending, removals)

unfoldable pub scan_services : PlacementPolicy → Table → List ControlService → List Refusal × Bool
unfolding scan_members
scan_services policy t [] = ([], false)
scan_services policy t (svc ∷ rest) =
    let (pending, removals) = scan_members policy svc (t svc) in
    let (more, others) = scan_services policy t rest in (pending ++ more, removals || others)

-- The results of the polls: what is not ready is marked so.
unfoldable pub mark_unready :
    (ControlService → String → Bool) → List (ControlService × String) → Table → Table
mark_unready ready [] t = t
mark_unready ready ((svc, member) ∷ rest) t =
    mark_unready ready rest (if ready svc member then t else put svc member false t)

-- controlServiceViability. Each pair is polled once, whatever the order of the results.
unfoldable pub control_service_viability :
    (ControlService → String → Bool) → PlacementPolicy → Table → Table
unfolding scan_services
control_service_viability ready policy observed =
    let (pending, removals) = scan_services policy observed control_services in
    if removals then mark_unready ready pending observed else observed

-- The retainers of a service other than `member`, over the keys of `observedControl[svc]`.
unfoldable pub count_retainers :
    PlacementPolicy → Table → ControlService → String → List (String × Bool) → ℕ
count_retainers policy viable svc member [] = 0
count_retainers policy viable svc member ((other, _) ∷ rest) =
    (if not (other == member) && get viable svc other && is_keeper policy other then 1 else 0)
    + count_retainers policy viable svc member rest

-- The body of the loop that removes; `member` ranges over the policy's members.
unfoldable pub remove_member : Env → PlacementPolicy → ControlService → String → Step
unfolding mark_removed
remove_member env policy svc member s =
    let removed =
      (dispatch env (remove_control svc member)
            (λ e. retain_refusals (remove_failed svc member e) s.refused)
          >> mark_removed svc member)
        s in
    let refuse : Run × Option PlacementError =
      (record s { refused = s.refused ++ (svc, member) ∷ [] }, none) in
    if is_keeper policy member || not (get s.observed svc member)
    then (s, none)
    else if count_retainers policy s.viable svc member (s.observed svc) == 0
    then refuse
    else removed

unfoldable pub remove_services : Env → PlacementPolicy → Step
remove_services env policy =
    for_each (λ svc. for_each (remove_member env policy svc) (env.remove_order svc))
      control_services

-- The viability that the removals start from.
unfoldable pub assess : Env → PlacementPolicy → Step
assess env policy s =
    (record s { viable = control_service_viability env.ready policy s.observed }, none)

unfoldable pub initial_run : List ServiceRow → Run
initial_run rows = record {
  calls = [];
  observed = observe rows (λ _. []);
  viable = λ _. [];
  refused = [];
}
