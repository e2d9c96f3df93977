-- ===== src/Operations/Removal.antt =====
-- The removal of a member: removeNode of microceph/ceph/remove.go.
use microceph.Prelude.{
  String, List, [], ◌∷◌, Bool, true, false, ◌&&◌, ◌||◌, Option, none, some, ◌==◌, string_eq, Result,
  ok, err, if◌then◌else◌,
}
use microceph.Operations.{Service, ConfiguredDisk, OperationError, ensure_non_osd_svc_enough}

-- What the members and the leader answer; `deletion` is the answer to DeleteService, whose success
-- removes the row of the service.
pub record Cluster : Type 0 where
  pub members : Result String (List String)
  pub disks : Result String (List ConfiguredDisk)
  pub first_read : Option String
  pub second_read : Option String
  pub deletion : Service → Option String

pub data RemovalError : Type 0 where
  members_unread disks_unread services_unread : String → RemovalError
  not_found has_disks : RemovalError
  too_few : OperationError → RemovalError
  undeleted : List Service → RemovalError

unfoldable pub is_listed : String → List String → Bool
is_listed name [] = false
is_listed name (m ∷ ms) = m == name || is_listed name ms

unfoldable pub holds_disk : String → List ConfiguredDisk → Bool
holds_disk name [] = false
holds_disk name (d ∷ ds) = d.location == name || holds_disk name ds

unfoldable pub disks_checked :
    String
    → Option String
    → List Service
    → Result String (List ConfiguredDisk)
    → Option RemovalError
unfolding holds_disk ensure_non_osd_svc_enough
disks_checked name fault services (err e) = some (disks_unread e)
disks_checked name fault services (ok disks) =
    if holds_disk name disks then some has_disks else elim fault [
      | some e ↦ some (services_unread e)
      | none ↦ elim (ensure_non_osd_svc_enough services name 3 1 1) [
        | none ↦ none
        | some e ↦ some (too_few e)
      ]
    ]

unfoldable pub member_checked :
    Cluster → String → List Service → Result String (List String) → Option RemovalError
unfolding is_listed disks_checked
member_checked cluster name services (err e) = some (members_unread e)
member_checked cluster name services (ok names) =
    if is_listed name names
    then disks_checked name cluster.first_read services cluster.disks
    else some not_found

-- checkPrerequisites.
unfoldable pub check_prerequisites : Cluster → String → List Service → Option RemovalError
unfolding member_checked
check_prerequisites cluster name services = member_checked cluster name services cluster.members

abbrev pub same_row : Service → Service → Bool
same_row a b = a.service == b.service && a.location == b.location

-- The table without a service.
unfoldable pub delete_row : Service → List Service → List Service
delete_row s [] = []
delete_row s (r ∷ rs) = let rest = delete_row s rs in if same_row s r then rest else r ∷ rest

abbrev pub Deleted : Type 0
Deleted = List Service × List Service

unfoldable pub tried : Service → Option String → (List Service → Deleted) → List Service → Deleted
unfolding delete_row
tried s none rest rows = rest (delete_row s rows)
tried s (some e) rest rows = let r = rest rows in (r.0, s ∷ r.1)

-- The loop of deleteNodeServices: the table, and the services whose deletion failed.
unfoldable pub delete_services :
    (Service → Option String) → String → List Service → List Service → Deleted
unfolding tried
delete_services deletion name [] rows = (rows, [])
delete_services deletion name (s ∷ ss) rows =
    let rest = λ (t : List Service). delete_services deletion name ss t in
    let attempt = tried s (deletion s) rest rows in
    let skipped = rest rows in if s.location == name then attempt else skipped

unfoldable pub joined : Deleted → List Service × Option RemovalError
joined (rows, []) = (rows, none)
joined (rows, s ∷ ss) = (rows, some (undeleted (s ∷ ss)))

unfoldable pub when_read :
    (Service → Option String)
    → String
    → List Service
    → Option String
    → List Service × Option RemovalError
unfolding joined delete_services
when_read deletion name services (some e) = (services, some (services_unread e))
when_read deletion name services none = joined (delete_services deletion name services services)

-- deleteNodeServices.
unfoldable pub delete_node_services :
    Cluster → String → List Service → List Service × Option RemovalError
unfolding when_read
delete_node_services cluster name services =
    when_read cluster.deletion name services cluster.second_read

unfoldable pub unforced :
    Bool → List Service × Option RemovalError → List Service × Option RemovalError
unforced true (rows, o) = (rows, none)
unforced false (rows, o) = (rows, o)

unfoldable pub when_checked :
    Cluster
    → String
    → Bool
    → List Service
    → Option RemovalError
    → List Service × Option RemovalError
unfolding unforced delete_node_services
when_checked cluster name force services (some e) = (services, some e)
when_checked cluster name force services none =
    unforced force (delete_node_services cluster name services)

-- removeNode.
unfoldable pub remove_node :
    Cluster → String → Bool → List Service → List Service × Option RemovalError
unfolding when_checked check_prerequisites
remove_node cluster name force services =
    when_checked cluster name force services
      (if force then none else check_prerequisites cluster name services)
