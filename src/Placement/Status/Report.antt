-- ===== src/Placement/Status/Report.antt =====
-- What GET /placement gives away: redactStoredPolicy and the guards on the reported texts in
-- GetPlacementStatus of microceph/ceph/placement.go.
use microceph.Prelude.{
  Bool, true, false, subst, ◌⊎◌, inl, inr, if◌then◌else◌, [], ◌∷◌, Option, none, some, ◌≡◌, refl,
  ok, err,
}
use microceph.Placement.Policy.{RgwPlacement, MemberPlacement, Members, PlacementPolicy}
use microceph.Placement.Errors.{
  PlacementError, RemoteError, row_missing, store_failed, no_server_certificate,
}
use microceph.Placement.Store.{Row}
use microceph.Placement.Store.Secrets.{EntryClean, MembersClean, PolicyClean}
use microceph.Placement.Status.{
  Redaction, Tables, PlacementStatus, blanked, redact_members, redact_stored_policy,
  reported_policy, blocked, status_of, get_placement_status, observe_members,
}
use microceph.Lifecycle.{
  CephState, failed, not_bootstrapped, in_progress, bootstrapped, other, ClusterLifecycle,
}

blanked_rgw :
    (mp : MemberPlacement) (o : Option RgwPlacement) → mp.rgw ≡ o → EntryClean (blanked mp).rgw
unfolding blanked
blanked_rgw mp none h = rw h tt
blanked_rgw mp (some r) h = rw h (refl, refl)

redact_members-MembersClean : (ms : Members) → MembersClean (redact_members ms)
unfolding redact_members
redact_members-MembersClean [] = tt
redact_members-MembersClean ((name, mp) ∷ rest) =
    (blanked_rgw mp mp.rgw refl, redact_members-MembersClean rest)

reported_policy-PolicyClean :
    (active : Bool) (stored : Option PlacementPolicy) → PolicyClean (reported_policy active stored)
unfolding reported_policy redact_stored_policy
reported_policy-PolicyClean true none = tt
reported_policy-PolicyClean true (some policy) = redact_members-MembersClean policy.members
reported_policy-PolicyClean false stored = tt

-- A text of the report that the redaction has been through.
abbrev pub Redacted : {A : Type 0} → (A → A) → Option A → Type 0
Redacted f none = Unit
Redacted {A = A} f (some text) = (original : A) × (f original ≡ text)

-- A report that gives away no more than it should.
abbrev pub Discreet : Redaction → PlacementStatus → Type 0
Discreet redaction status =
    PolicyClean status.policy
    × ((status.active ≡ true) ⊎ (status.policy ≡ none))
    × ((status.bootstrap_state ≡ failed) ⊎ (status.blocked_reason ≡ none))
    × Redacted redaction.detail status.blocked_reason
    × Redacted redaction.refusal status.placement_refusal

blocked-Redacted :
    (redaction : Redaction) (lc : ClusterLifecycle) (state : CephState)
    → lc.ceph_bootstrap_state ≡ state
    → ((lc.ceph_bootstrap_state ≡ failed) ⊎ (blocked redaction lc ≡ none))
      × Redacted redaction.detail (blocked redaction lc)
blocked-Redacted redaction lc failed h = rw (h, Redacted) (inl refl, (lc.detail, refl))
blocked-Redacted redaction lc not_bootstrapped h = rw (h, Redacted) (inr refl, tt)
blocked-Redacted redaction lc in_progress h = rw (h, Redacted) (inr refl, tt)
blocked-Redacted redaction lc bootstrapped h = rw (h, Redacted) (inr refl, tt)
blocked-Redacted redaction lc (other text) h = rw (h, Redacted) (inr refl, tt)

refusal-Redacted :
    (f : PlacementError → PlacementError) (o : Option PlacementError)
    → Redacted f (elim o [ none ↦ none | some e ↦ some (f e) ])
refusal-Redacted f none = tt
refusal-Redacted f (some e) = (e, refl)

only_active :
    (active : Bool) (stored : Option PlacementPolicy)
    → (active ≡ true) ⊎ (reported_policy active stored ≡ none)
unfolding reported_policy
only_active true stored = inl refl
only_active false stored = inr refl

status_of-Discreet :
    (redaction : Redaction) (t : Tables) (row : Row) (lifecycle : Option ClusterLifecycle)
    (status : PlacementStatus)
    → status_of redaction t row lifecycle ≡ ok status
    → Discreet redaction status
unfolding status_of
status_of-Discreet redaction t none lifecycle status h =
    let bad : err row_missing ≡ ok status = h in cc
status_of-Discreet redaction t (some rec) none status h =
    let bad : err row_missing ≡ ok status = h in cc
status_of-Discreet redaction t (some rec) (some lc) status h =
    let report : PlacementStatus = record {
      active = rec.active;
      policy = reported_policy rec.active rec.policy_json;
      observed = observe_members t;
      bootstrap_state = lc.ceph_bootstrap_state;
      bootstrap_target = lc.ceph_bootstrap_target;
      blocked_reason = blocked redaction lc;
      placement_refusal = elim rec.last_refusal [
        | none ↦ none
        | some e ↦ some (redaction.refusal e)
      ];
    } in
    let same : report ≡ status = cc in
    subst (Discreet redaction) same (
      reported_policy-PolicyClean rec.active rec.policy_json,
      only_active rec.active rec.policy_json,
      (blocked-Redacted redaction lc lc.ceph_bootstrap_state refl).0,
      (blocked-Redacted redaction lc lc.ceph_bootstrap_state refl).1,
      refusal-Redacted redaction.refusal rec.last_refusal,
    )

answered :
    (redaction : Redaction) (t : Tables) (status : PlacementStatus) (server_cert : Bool)
    (fault : Option RemoteError)
    → (if server_cert
        then elim fault [
          | none ↦ status_of redaction t t.policy t.lifecycle
          | some e ↦ err (store_failed e)
        ]
        else err no_server_certificate)
      ≡ ok status
    → Discreet redaction status
answered redaction t status true none h =
    status_of-Discreet redaction t t.policy t.lifecycle status h
answered redaction t status true (some e) h = let bad : err (store_failed e) ≡ ok status = h in cc
answered redaction t status false fault h =
    let bad : err no_server_certificate ≡ ok status = h in cc

-- Whatever the tables hold, a report of GetPlacementStatus shows no certificate and no private key,
-- a policy only where one is active, and the reason of a blocked bootstrap only where the bootstrap
-- has failed; both texts of errors in it have been through the redaction.
pub get_placement_status-Discreet :
    (redaction : Redaction) (server_cert : Bool) (t : Tables) (status : PlacementStatus)
    → get_placement_status redaction server_cert t ≡ ok status
    → Discreet redaction status
unfolding get_placement_status
get_placement_status-Discreet redaction server_cert t status h =
    answered redaction t status server_cert t.fault h
