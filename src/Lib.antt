-- ===== src/Lib.antt =====
-- MicroCeph: the declarative placement engine, the bootstrap of Ceph on a running cluster, the
-- device matching language, the planner of WAL and DB partitions, the removal of OSDs, the
-- maintenance and removal of members, and the replication of RBD pools.
--
-- The placement engine takes a policy document, a complete desired state for each cluster member,
-- over the REST API. A PUT takes the cluster-wide apply lock, normalises and validates the policy,
-- stores it without its TLS material, and reconciles: it adds missing control services (mon, mgr,
-- mds), polls which services are healthy, removes those that the policy refuses while a healthy
-- one stays, and then enables and disables RGW gateways. OSD enrolment asks the stored policy for
-- a grant. Before Ceph is bootstrapped, the guard of ValidatePlacement refuses every policy with
-- members; BootstrapCeph opens it: it claims the cluster_lifecycle row, runs the bootstrap steps,
-- and records their result, so the row is a lock between the members. GET /placement reports the
-- stored policy beside what the service tables show. The device matching language selects disks: a
-- lexer, a recursive descent parser, a validator and an evaluator. The disks it selects from are
-- those that FilterAvailableDisks leaves. A request to remove an OSD is checked against the
-- failure domain and then runs doRemoveOSD. The planner spreads the WAL or DB partitions of new
-- OSDs over the disks that the language selects as carriers. A member is brought into maintenance
-- by a list of operations, after checks that the cluster can do without it, and removed after
-- similar checks. A replication request fires an event at a state machine, whose handlers enable
-- and disable the mirroring of RBD pools and images, and promote or demote all pools of a site.
--
-- The files, by the code that they model (paths from the repository's root):
-- - Placement/Policy: the types of microceph/api/types/placement.go; Placement/Rgw: Normalized,
--   NormalizeRGWPorts and DecodeRGWCertificate of the same file.
-- - Placement/Errors, Table, Engine: reconcilePlacement of microceph/ceph/placement.go up to the
--   end of its control pass, and controlServiceViability of microceph/ceph/control_readiness.go;
--   Placement/Gateways: applyRgwPlacement; Placement/Reconcile: the whole run.
-- - Placement/Store: the row of microceph/database/placement_policy_extras.go, policyForStorage,
--   storePlacementPolicy and LockPlacementApply of microceph/ceph/placement.go, and
--   checkStorageEligibility of microceph/ceph/osd.go.
-- - Placement/Apply: normalizePlacement, ValidatePlacement and ApplyPlacementPolicy of
--   microceph/ceph/placement.go; Placement/Put: cmdPlacementPut and cmdPlacementDelete of
--   microceph/api/placement.go.
-- - Placement/Status: GetPlacementStatus of microceph/ceph/placement.go, with redactStoredPolicy
--   and populateRGWFrontends.
-- - Lifecycle: microceph/database/cluster_lifecycle_extras.go and microceph/ceph/lifecycle.go;
--   Lifecycle/Bootstrap: microceph/ceph/bootstrap_ceph.go; Lifecycle/Handler: cmdCephBootstrapPut
--   of microceph/api/placement.go; Lifecycle/Steps: the writes of SimpleBootstrapper.Bootstrap
--   (microceph/cmd/microcephd/simple_bootstrapper.go) and PopulateBootstrapDatabase
--   (microceph/ceph/bootstrap.go). Lifecycle/Interleaving puts these calls on all members
--   together, one transaction at a time.
-- - Operations: microceph/ceph/operations.go, with EnsureNonOsdSvcEnough of
--   microceph/ceph/remove.go; Operations/Maintenance: microceph/ceph/maintenance.go and the
--   handler of microceph/api/ops_maintenance.go; Operations/Removal: removeNode of
--   microceph/ceph/remove.go.
-- - Osd/Removal: doRemoveOSD, purgeOSD and the safety checks of microceph/ceph/osd.go, as a chain
--   of calls with their log; Osd/Available: FilterAvailableDisks of microceph/common/storage.go;
--   Crush: the counts of availability zones of microceph/ceph/crush.go, with IsRackDegradeBlocked
--   and IsDowngradeNeeded of microceph/ceph/osd.go; Crush/Request: cmdDisksDelete of
--   microceph/api/disks.go.
-- - Replication: microceph/ceph/replication.go, microceph/api/types/replication.go and
--   handleReplicationRequest of microceph/api/ops_replication.go; Replication/Rbd and Site: the
--   handlers of microceph/ceph/replication_rbd.go, and ListPools of microceph/ceph/osd.go.
-- - Dsl/Text, Token, Lexer: microceph/dsl/lexer.go and errors.go; Dsl/Units: units.go; Dsl/Ast,
--   Parser: ast.go and parser.go; Dsl/Device, Value: vars.go; Dsl/Eval: eval.go; Dsl/Match:
--   dsl.go.
-- - Osd/Plan: planAuxiliaryPartitionsDetailed of microceph/ceph/osd_waldb.go, with diskUsedBytes
--   and nextPartitionNumber of microceph/ceph/osd.go.
-- - Prelude: Boolean tests, lists, association lists, loops with errors, results. Tests: runs on
--   concrete inputs and instances of the theorems.
-- The files below a component's folder hold its lemmas.
--
-- State and surroundings. A run of reconcilePlacement passes its variables along in the record
-- Run: the dispatches made, newest first, and the tables observedControl and viableControl. What
-- lies outside is the record Env: the rows of the services table, the answer of a member to a
-- dispatch, which may depend on all earlier dispatches, the outcome of polling Ceph for a service,
-- and the orders in which Go ranges over desiredControl and over the policy's members. A theorem
-- holds for every Env. The order of a range over the policy's members in the RGW pass and in
-- normalizePlacement is that of the association list. The polls run concurrently in Go; each
-- writes the entry of its own pair, so their order does not matter and they are made one after
-- another here. The placement_policy row is a record under an option, and a transaction leaves it
-- as it was when the database refuses it. A transaction on the lifecycle is rolled back where its
-- body returns an error. The policy is stored as JSON by the program and as a value here, and the
-- text of a refusal as the error whose text it is. errors.Is is the function wraps on the errors
-- of the engine.
--
-- The operations of a maintenance run change the noout flag and the OSD service of the node; a
-- ceph or snap command that fails is taken to have changed nothing. A removal changes the services
-- table, by the requests to delete a service that succeed. What the commands and members answer is
-- a record Env or Cluster.
--
-- The removal of an OSD is a chain of calls on a log of the calls so far; what a call answers may
-- depend on the log, so a theorem holds however Ceph and the files change meanwhile. A call stands
-- for a function that runs commands, with its own waiting: killOSD, waitForOSDPresence, the
-- suppression of the autostart marker, the wiping and the clean-up. The requests about failure
-- domains read one state of the tags, the disks and the tree.
--
-- A replication handler appends to the history of the changing calls of
-- microceph/ceph/rbd_mirror.go; their answers may depend on all earlier calls, and each call
-- stands for the whole function that it names, with its retries. A text that is one of several
-- constants is a data type, with a constructor for any other text. A pool is mirrored as far as
-- the program can tell: a failed query of the list of pools reads as an empty list, and one of a
-- pool as one that is not mirrored, as in the code.
--
-- Bounds and fuel. Ports are integers, positive or not, so the range test is the code's. The
-- lock's token is the clock in nanoseconds, a natural number at least the lease, so no subtraction
-- or sum of the code leaves int64. parse_expression recurs on the levels left below
-- MaxRecursionDepth, as the code counts them. The loop over a call's arguments recurs on a number
-- of rounds, one more than twice the bytes left and two, and what runs out is an error of its own,
-- out_of_rounds, that the program does not have; every round reads a token, and a token reads a
-- byte but at the end. purgeWithRetries recurs on the attempts left, ten in all, purgeOSD on its
-- two rounds, and the safety checks on their sixteen tries, as in the code. The search for a
-- vacant slot is bounded by the number of partitions, each of which occupies one slot. A uint64 of
-- the planner is a natural number: sums of partition sizes wrap as in the code, the subtractions
-- stand behind the code's tests, and a count or a slot is one of a partition table. The code's
-- panic on a nil flag of an RGW entry is an error of its own, nil_dereference. A lexer keeps the
-- input behind its position as a list, so an index out of range does not arise.
--
-- Parameters, for code that is not in the repository: float64 with strconv and fmt, and package
-- regexp (record Library); the replacement of redactSecrets, also by regexp (record Redaction);
-- base64 and crypto/tls (record Tls); the JSON decoder of a request (the field body of a Request);
-- SmartError of microcluster, whose status is left open: it may be 400 or 409 too.
--
-- Not modelled: the handlers on the members that a dispatch reaches, the Ceph commands behind the
-- polls, deadlines and contexts, logging, and the texts of messages outside the lexer.
-- strings.ToLower, ToUpper, EqualFold and TrimSpace are those of ASCII; unicode's letters and
-- digits are those of the first 256 code points, which is all that a byte can be. The subsystems
-- outside these parts (the rest of OSD provisioning, the switch of the CRUSH rules, the commands
-- of the bootstrap steps, joining, the replication of CephFS, the Ceph services, the command line)
-- are not modelled.
pub mod Prelude
pub mod Placement
pub mod Dsl
pub mod Osd
pub mod Lifecycle
pub mod Operations
pub mod Replication
pub mod Crush
pub mod Tests
