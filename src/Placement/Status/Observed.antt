-- ===== src/Placement/Status/Observed.antt =====
-- What GET /placement reports of a member: the loops of GetPlacementStatus in
-- microceph/ceph/placement.go against a description by the rows of the member.
use microceph.Prelude.{
  String, List, [], ◌∷◌, ◌++◌, Bool, true, false, ◌||◌, ◌&&◌, Option, none, some, ◌≡◌, refl, sym,
  ap, ◌∙◌, subst, append_assoc, append-nil, Bool-cases, inl, inr, ◌==◌, string_eq, lookup, insert,
  lookup-insert, arith, if◌then◌else◌,
}
use microceph.Placement.Engine.{ServiceRow}
use microceph.Placement.Status.{
  RgwObservedFrontend, PlacementObservedMember, Observed, GroupedService, RgwFrontend, Tables,
  no_services, or_new, is_control, mark_service, note_services, add_group, note_groups, attached,
  populate_rgw_frontends, observe_members,
}

-- The rows of one member.
any_service : (String → Bool) → String → List ServiceRow → Bool
any_service p name [] = false
any_service p name (s ∷ ss) = (s.member == name && p s.service) || any_service p name ss

nfs_groups : String → List GroupedService → List String
nfs_groups name [] = []
nfs_groups name (g ∷ gs) =
    let rest = nfs_groups name gs in
    if g.service == "nfs" && g.member == name then g.group_id ∷ rest else rest

-- The loops, seen by one member.
services_of :
    String → List ServiceRow → Option PlacementObservedMember → Option PlacementObservedMember
services_of name [] o = o
services_of name (s ∷ ss) o =
    services_of name ss (if s.member == name then some (mark_service s.service (or_new o)) else o)

groups_of :
    String → List GroupedService → Option PlacementObservedMember → Option PlacementObservedMember
groups_of name [] o = o
groups_of name (g ∷ gs) o = groups_of name gs (
    if g.service == "nfs"
    then (if g.member == name then some (add_group g.group_id (or_new o)) else o)
    else o)

with_frontend :
    RgwObservedFrontend → Option PlacementObservedMember → Option PlacementObservedMember
with_frontend f none = none
with_frontend f (some om) = if om.rgw then some (record om { rgw_frontend = some f }) else some om

frontends_of :
    String → List RgwFrontend → Option PlacementObservedMember → Option PlacementObservedMember
unfolding with_frontend
frontends_of name [] o = o
frontends_of name (f ∷ fs) o =
    frontends_of name fs (if f.member == name then with_frontend f.frontend o else o)

marked :
    (s : ServiceRow) (name : String) (obs : Observed)
    → lookup name (insert s.member (mark_service s.service (or_new (lookup s.member obs))) obs) ≡ (
        if s.member == name
        then some (mark_service s.service (or_new (lookup name obs)))
        else lookup name obs)
marked s name obs =
    let om = mark_service s.service (or_new (lookup s.member obs)) in
    ground (arith, lookup-insert s.member name om obs, string_eq.beq_iff s.member name)

grouped :
    (g : GroupedService) (name : String) (obs : Observed)
    → lookup name (
        if g.service == "nfs"
        then insert g.member (add_group g.group_id (or_new (lookup g.member obs))) obs
        else obs)
      ≡ (if g.service == "nfs"
          then (if g.member == name
              then some (add_group g.group_id (or_new (lookup name obs)))
              else lookup name obs)
          else lookup name obs)
grouped g name obs =
    let om = add_group g.group_id (or_new (lookup g.member obs)) in
    ground (arith, lookup-insert g.member name om obs, string_eq.beq_iff g.member name)

fronted :
    (f : RgwFrontend) (name : String) (obs : Observed) (o : Option PlacementObservedMember)
    → lookup f.member obs ≡ o
    → lookup name (attached f.member f.frontend obs o)
      ≡ (if f.member == name then with_frontend f.frontend (lookup name obs) else lookup name obs)
unfolding attached with_frontend
fronted f name obs none h = ground (arith, string_eq.beq_iff f.member name)
fronted f name obs (some om) h =
    let om2 : PlacementObservedMember = record om { rgw_frontend = some f.frontend } in
    ground (arith, lookup-insert f.member name om2 obs, string_eq.beq_iff f.member name)

lookup-note_services :
    (name : String) (ss : List ServiceRow) (obs : Observed)
    → lookup name (note_services ss obs) ≡ services_of name ss (lookup name obs)
unfolding note_services services_of
lookup-note_services name [] obs = refl
lookup-note_services name (s ∷ ss) obs =
    let om = mark_service s.service (or_new (lookup s.member obs)) in
    lookup-note_services name ss (insert s.member om obs)
    ∙ ap (services_of name ss) (marked s name obs)

lookup-note_groups :
    (name : String) (gs : List GroupedService) (obs : Observed)
    → lookup name (note_groups gs obs) ≡ groups_of name gs (lookup name obs)
unfolding note_groups groups_of
lookup-note_groups name [] obs = refl
lookup-note_groups name (g ∷ gs) obs =
    let om = add_group g.group_id (or_new (lookup g.member obs)) in
    let next = if g.service == "nfs" then insert g.member om obs else obs in
    lookup-note_groups name gs next ∙ ap (groups_of name gs) (grouped g name obs)

lookup-populate_rgw_frontends :
    (name : String) (fs : List RgwFrontend) (obs : Observed)
    → lookup name (populate_rgw_frontends fs obs) ≡ frontends_of name fs (lookup name obs)
unfolding populate_rgw_frontends frontends_of
lookup-populate_rgw_frontends name [] obs = refl
lookup-populate_rgw_frontends name (f ∷ fs) obs =
    lookup-populate_rgw_frontends name fs (attached f.member f.frontend obs (lookup f.member obs))
    ∙ ap (frontends_of name fs) (fronted f name obs (lookup f.member obs) refl)

abbrev pub is_rgw : String → Bool
is_rgw service = service == "rgw"

abbrev pub any_name : String → Bool
any_name service = true

-- The services that count as control services.
is_among : String → List String → Bool
is_among service [] = false
is_among service (name ∷ names) = service == name || is_among service names

control_kind : String → Bool
unfolding is_among
control_kind service = is_among service ("mon" ∷ "mgr" ∷ "mds" ∷ [])

or3_false : (a b c : Bool) → a || (b || c) ≡ a || (b || (c || false))
or3_false a b c = ground arith

is_control-kind : (s : String) → is_control s ≡ control_kind s
unfolding control_kind is_among
is_control-kind s = or3_false (s == "mon") (s == "mgr") (s == "mds")

-- The two kinds of service do not overlap.
control-rgw : (s : String) → is_control s ≡ true → is_rgw s ≡ false
control-rgw s h = elim (Bool-cases (is_rgw s)) [
  | inl e ↦
      let bad : false ≡ true =
        subst (λ x. is_control x ≡ true) ((string_eq.beq_iff s "rgw").0 e) h in
      cc
  | inr e ↦ e
]

noted : Bool → Bool → PlacementObservedMember → PlacementObservedMember
noted control rgw om = record om { control = om.control || control; rgw = om.rgw || rgw }

noted-mark_service :
    (s : String) (c r : Bool) (om : PlacementObservedMember)
    → noted c r (mark_service s om) ≡ noted (control_kind s || c) (is_rgw s || r) om
unfolding noted mark_service
noted-mark_service s c r om = ground (arith, is_control-kind s, control-rgw s)

services_of-some :
    (name : String) (ss : List ServiceRow) (om : PlacementObservedMember)
    → services_of name ss (some om)
      ≡ some (noted (any_service control_kind name ss) (any_service is_rgw name ss) om)
unfolding services_of any_service
services_of-some name [] om = ap some (unfold noted in ground arith)
services_of-some name (s ∷ ss) om = elim (Bool-cases (s.member == name)) [
  | inl e ↦ rw e (
      services_of-some name ss (mark_service s.service om)
      ∙ ap some (
          noted-mark_service s.service (any_service control_kind name ss)
            (any_service is_rgw name ss) om))
  | inr e ↦ rw e (services_of-some name ss om)
]

services_of-none :
    (name : String) (ss : List ServiceRow)
    → services_of name ss none ≡ (
        if any_service any_name name ss
        then some
            (noted (any_service control_kind name ss) (any_service is_rgw name ss) no_services)
        else none)
unfolding services_of any_service
services_of-none name [] = refl
services_of-none name (s ∷ ss) = elim (Bool-cases (s.member == name)) [
  | inl e ↦ rw e (
      services_of-some name ss (mark_service s.service no_services)
      ∙ ap some (
          noted-mark_service s.service (any_service control_kind name ss)
            (any_service is_rgw name ss) no_services))
  | inr e ↦ rw e (services_of-none name ss)
]

abbrev is_some_group : List String → Bool
is_some_group [] = false
is_some_group (g ∷ gs) = true

-- The last frontend row of a member.
last_frontend : String → List RgwFrontend → Option RgwObservedFrontend → Option RgwObservedFrontend
last_frontend name [] found = found
last_frontend name (f ∷ fs) found =
    last_frontend name fs (if f.member == name then some f.frontend else found)

-- What is to be reported of a member, read off its rows.
pub expected : String → Tables → Option PlacementObservedMember
unfolding any_service nfs_groups last_frontend
expected name t =
    let rgw = any_service is_rgw name t.services in
    let groups = nfs_groups name t.grouped_services in
    if any_service any_name name t.services || is_some_group groups
    then some (record {
      control = any_service control_kind name t.services;
      rgw = rgw;
      rgw_frontend = if rgw then last_frontend name t.rgw_frontends none else none;
      nfs = groups;
    })
    else none

with_groups : List String → PlacementObservedMember → PlacementObservedMember
with_groups groups om = record om { nfs = om.nfs ++ groups }

with_groups-add_group :
    (g : String) (gs : List String) (om : PlacementObservedMember)
    → with_groups gs (add_group g om) ≡ with_groups (g ∷ gs) om
unfolding with_groups add_group
with_groups-add_group g gs om = ap (λ ns. record om { nfs = ns }) (append_assoc om.nfs (g ∷ []) gs)

groups_of-some :
    (name : String) (gs : List GroupedService) (om : PlacementObservedMember)
    → groups_of name gs (some om) ≡ some (with_groups (nfs_groups name gs) om)
unfolding groups_of nfs_groups
groups_of-some name [] om =
    unfold with_groups in ap (λ ns. some (record om { nfs = ns })) (sym (append-nil om.nfs))
groups_of-some name (g ∷ gs) om = ground (
  arith,
  groups_of-some name gs om,
  groups_of-some name gs (add_group g.group_id om),
  with_groups-add_group g.group_id (nfs_groups name gs) om,
)

groups_of-none :
    (name : String) (gs : List GroupedService)
    → groups_of name gs none ≡ (
        if is_some_group (nfs_groups name gs)
        then some (with_groups (nfs_groups name gs) no_services)
        else none)
unfolding groups_of nfs_groups
groups_of-none name [] = refl
groups_of-none name (g ∷ gs) = ground (
  arith,
  groups_of-none name gs,
  groups_of-some name gs (add_group g.group_id no_services),
  with_groups-add_group g.group_id (nfs_groups name gs) no_services,
)

set_frontend : Option RgwObservedFrontend → PlacementObservedMember → PlacementObservedMember
set_frontend found om = record om { rgw_frontend = found }

frontends_of-some :
    (name : String) (fs : List RgwFrontend) (om : PlacementObservedMember)
    → frontends_of name fs (some om)
      ≡ some (if om.rgw then set_frontend (last_frontend name fs om.rgw_frontend) om else om)
unfolding frontends_of last_frontend set_frontend with_frontend
frontends_of-some name [] om = ap some (unfold set_frontend in ground arith)
frontends_of-some name (f ∷ fs) om = ground (
  arith,
  frontends_of-some name fs om,
  frontends_of-some name fs (set_frontend (some f.frontend) om),
)

frontends_of-none : (name : String) (fs : List RgwFrontend) → frontends_of name fs none ≡ none
unfolding frontends_of with_frontend
frontends_of-none name [] = refl
frontends_of-none name (f ∷ fs) = ground (arith, frontends_of-none name fs)

any_service-none :
    (p : String → Bool) (name : String) (ss : List ServiceRow)
    → any_service any_name name ss ≡ false
    → any_service p name ss ≡ false
unfolding any_service
any_service-none p name [] h = refl
any_service-none p name (s ∷ ss) h = ground (arith, any_service-none p name ss)

merged :
    (name : String) (t : Tables) (present : Bool)
    → any_service any_name name t.services ≡ present
    → frontends_of name t.rgw_frontends (
        groups_of name t.grouped_services (
          if present
          then some (
              noted
                (any_service control_kind name t.services)
                (any_service is_rgw name t.services)
                no_services)
          else none))
      ≡ expected name t
unfolding expected with_groups noted set_frontend
merged name t true h =
    let om =
      noted (any_service control_kind name t.services) (any_service is_rgw name t.services)
        no_services in
    ap (frontends_of name t.rgw_frontends) (groups_of-some name t.grouped_services om)
    ∙ frontends_of-some name t.rgw_frontends (with_groups (nfs_groups name t.grouped_services) om)
    ∙ (unfold with_groups set_frontend noted in ground arith)
merged name t false h =
    ap (frontends_of name t.rgw_frontends) (groups_of-none name t.grouped_services)
    ∙ (unfold frontends_of in
        ground (
          arith,
          any_service-none control_kind name t.services h,
          any_service-none is_rgw name t.services h,
          frontends_of-none name t.rgw_frontends,
          frontends_of-some name t.rgw_frontends
              (with_groups (nfs_groups name t.grouped_services) no_services),
        ))

-- The member's entry in the report is the one read off its rows. It is there exactly where a services
-- row or an nfs group names the member (a group of another service or a frontend alone does not):
-- control where one of its services is mon, mgr or mds, rgw where one is rgw, the groups in the order
-- of their rows, and with rgw the frontend of the last row.
pub observe_members-expected :
    (name : String) (t : Tables) → lookup name (observe_members t) ≡ expected name t
unfolding observe_members expected lookup
observe_members-expected name t =
    lookup-populate_rgw_frontends name t.rgw_frontends
      (note_groups t.grouped_services (note_services t.services []))
    ∙ ap (frontends_of name t.rgw_frontends) (
        lookup-note_groups name t.grouped_services (note_services t.services [])
        ∙ ap (groups_of name t.grouped_services)
            (lookup-note_services name t.services [] ∙ services_of-none name t.services))
    ∙ merged name t (any_service any_name name t.services) refl
