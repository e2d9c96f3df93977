-- ===== src/Lifecycle/Exclusion.antt =====
-- What no interleaving of the calls of BootstrapCeph can do: microceph/ceph/bootstrap_ceph.go.
use microceph.Prelude.{
  ℕ, ◌+◌, ◌≤◌, String, List, [], ◌∷◌, ◌++◌, Bool, false, Option, none, some, ◌≡◌, refl, sym, subst,
  ◌∙◌, arith,
}
use microceph.Lifecycle.{
  CephState, in_progress, bootstrapped, ClusterLifecycle, Database, in_transaction,
  set_cluster_lifecycle, mark_ceph_bootstrapped,
}
use microceph.Lifecycle.Bootstrap.{is_stale, mark_recovered, atomic_start, record_result}
use microceph.Lifecycle.Steps.{populate_bootstrap_database}
use microceph.Lifecycle.Interleaving.{
  Phase, running, System, Act, check, unreachable, heal, claim, populate, mark, conclude, Step,
  acts, Reach, here, next,
}

abbrev pub load : Phase → ℕ
load running = 1
load _ = 0

-- How many members run the bootstrap steps.
unfoldable pub runners : List Phase → ℕ
runners [] = 0
runners (p ∷ ps) = load p + runners ps

runners-append : (ps qs : List Phase) → runners (ps ++ qs) ≡ runners ps + runners qs
unfolding runners
runners-append [] qs = omega arith
runners-append (p ∷ ps) qs = omega (arith, runners-append ps qs)

-- The states of the row in which no call can claim it.
abbrev pub closed : CephState → ℕ
closed in_progress = 1
closed bootstrapped = 1
closed _ = 0

abbrev pub closed_row : Option ClusterLifecycle → ℕ
closed_row none = 0
closed_row (some lc) = closed lc.ceph_bootstrap_state

-- Whether the row is in such a state; then no call runs the steps, or at most one does.
abbrev IsExclusive : System → Type 0
IsExclusive s = runners s.phases ≤ closed_row s.database.lifecycle

abbrev Keeps : Database → Phase → Database → Phase → Type 0
Keeps db p db' p' =
    (n : ℕ) → n + load p ≤ closed_row db.lifecycle → n + load p' ≤ closed_row db'.lifecycle

Act-Keeps : {db db' : Database} {p p' : Phase} → Act db p db' p' → Keeps db p db' p'
Act-Keeps (check db fault) n h = unfold in_transaction is_stale in ground arith
Act-Keeps (unreachable db) n h = h
Act-Keeps (heal db fault target) n h =
    unfold mark_recovered in_transaction set_cluster_lifecycle in ground arith
Act-Keeps (claim db fault target) n h = unfold atomic_start in_transaction in ground arith
Act-Keeps (populate db cert fault fsid key) n h =
    unfold populate_bootstrap_database in_transaction in ground arith
Act-Keeps (mark db cert fault) n h =
    unfold mark_ceph_bootstrapped in_transaction set_cluster_lifecycle in ground arith
Act-Keeps (conclude db fault target outcome) n h =
    unfold record_result in_transaction set_cluster_lifecycle in ground arith

Step-IsExclusive : {s t : System} → Step s t → IsExclusive s → IsExclusive t
unfolding runners
Step-IsExclusive (acts {p} {p'} before after act) h = omega (
  arith,
  runners-append before (p ∷ after),
  runners-append before (p' ∷ after),
  Act-Keeps act (runners before + runners after),
)

Reach-IsExclusive : {s t : System} → IsExclusive s → Reach s t → IsExclusive t
Reach-IsExclusive h here = h
Reach-IsExclusive h (next r st) = Step-IsExclusive st (Reach-IsExclusive h r)

closed-le : (o : Option ClusterLifecycle) → closed_row o ≤ 1
closed-le none = omega arith
closed-le (some lc) = ground arith

-- A value that is there stays what it is.
abbrev pub Stays : Option String → Option String → Type 0
Stays none o' = Unit
Stays (some value) o' = o' ≡ some value

abbrev KeepsFsid : Database → Database → Type 0
KeepsFsid db db' = Stays db.fsid db'.fsid

Stays-refl : (o : Option String) → Stays o o
Stays-refl none = tt
Stays-refl (some value) = refl

Stays-trans : (o o' o'' : Option String) → Stays o o' → Stays o' o'' → Stays o o''
Stays-trans none o' o'' h k = tt
Stays-trans (some value) none o'' h k = cc
Stays-trans (some value) (some other) o'' h k = k ∙ h

same-fsid : (db db' : Database) → db'.fsid ≡ db.fsid → KeepsFsid db db'
same-fsid db db' e = subst (Stays db.fsid) (sym e) (Stays-refl db.fsid)

populate-fsid :
    (cert : Bool) (fault : Option String) (fsid key : String) (db : Database) (o : Option String)
    → db.fsid ≡ o
    → Stays o (populate_bootstrap_database cert fault fsid key db).0.fsid
unfolding populate_bootstrap_database in_transaction
populate-fsid cert fault fsid key db none e = tt
populate-fsid cert fault fsid key db (some value) e = ground arith

Act-KeepsFsid : {db db' : Database} {p p' : Phase} → Act db p db' p' → KeepsFsid db db'
Act-KeepsFsid (check db fault) =
    same-fsid db (in_transaction fault is_stale db).0
      (unfold in_transaction is_stale in ground arith)
Act-KeepsFsid (unreachable db) = same-fsid db db refl
Act-KeepsFsid (heal db fault target) =
    same-fsid db (mark_recovered fault target db).0
      (unfold mark_recovered in_transaction set_cluster_lifecycle in ground arith)
Act-KeepsFsid (claim db fault target) =
    same-fsid db (atomic_start fault target false db).0
      (unfold atomic_start in_transaction in ground arith)
Act-KeepsFsid (populate db cert fault fsid key) = populate-fsid cert fault fsid key db db.fsid refl
Act-KeepsFsid (mark db cert fault) =
    same-fsid db (mark_ceph_bootstrapped cert fault db).0
      (unfold mark_ceph_bootstrapped in_transaction set_cluster_lifecycle in ground arith)
Act-KeepsFsid (conclude db fault target outcome) =
    same-fsid db (record_result fault target outcome db).0
      (unfold record_result in_transaction set_cluster_lifecycle in ground arith)

Reach-KeepsFsid : {s t : System} → Reach s t → KeepsFsid s.database t.database
Reach-KeepsFsid {s} here = Stays-refl s.database.fsid
Reach-KeepsFsid {s} (next r (acts {db} {db'} before after act)) =
    Stays-trans s.database.fsid db.fsid db'.fsid (Reach-KeepsFsid r) (Act-KeepsFsid act)

-- From a state where no member runs the bootstrap steps, no interleaving of unforced calls makes
-- two members run them at once; while one runs them, the row is in progress or bootstrapped; and
-- an FSID that is in the config table is never removed or replaced.
pub Reach-one_runner :
    {s t : System}
    → runners s.phases ≡ 0
    → Reach s t
    → (runners t.phases ≤ 1)
      × (runners t.phases ≤ closed_row t.database.lifecycle)
      × Stays s.database.fsid t.database.fsid
Reach-one_runner {s} {t} h r =
    let only = Reach-IsExclusive (omega (arith, h)) r in
    (omega (arith, only, closed-le t.database.lifecycle), only, Reach-KeepsFsid r)
