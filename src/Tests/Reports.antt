-- ===== src/Tests/Reports.antt =====
-- GET /placement over a database whose stored policy still holds TLS material.
use microceph.Prelude.{[], ◌∷◌, true, false, none, some, ◌≡◌, refl, lookup, insert, string_eq, ok}
use microceph.Prelude.Int.{pos}
use microceph.Placement.Policy.{PlacementPolicy}
use microceph.Placement.Errors.{not_bootstrapped}
use microceph.Lifecycle.{failed, command_failed, force_reset, failure}
use microceph.Placement.Status.{
  Tables, Redaction, PlacementStatus, RgwObservedFrontend, observe_members, note_services,
  note_groups, populate_rgw_frontends, get_placement_status, redact_stored_policy,
}
use microceph.Placement.Status.Observed.{expected, observe_members-expected}
use microceph.Placement.Status.Report.{Discreet, get_placement_status-Discreet}

abbrev frontend : RgwObservedFrontend
frontend = record { port = pos 80; ssl_port = pos 443; ssl = true }

abbrev leaky : PlacementPolicy
leaky = record {
  mode = "declarative";
  members =
      (
        "a",
        record {
          control = some true;
          rgw = some (record {
            enabled = some true;
            ssl = some true;
            port = pos 0;
            ssl_port = pos 443;
            ssl_certificate = "certificate";
            ssl_private_key = "key";
          });
          nfs = none;
          storage_eligible = none;
        },
      )
      ∷ [];
}

-- `b` runs a gateway, and `c` has only an NFS group; a frontend of `c` is left over.
abbrev tables : Tables
tables = record {
  policy = some (record {
    active = true;
    policy_json = some leaky;
    last_refusal = some not_bootstrapped;
    apply_lock_token = 0;
  });
  lifecycle = some (record {
    ceph_bootstrap_state = failed;
    ceph_bootstrap_target = "a";
    detail = failure (command_failed "key");
  });
  services =
      record { service = "mon"; member = "a" }
      ∷ record { service = "rgw"; member = "b" }
      ∷ record { service = "mgr"; member = "a" }
      ∷ [];
  grouped_services =
      record { service = "nfs"; group_id = "g"; member = "c" }
      ∷ record { service = "smb"; group_id = "h"; member = "d" }
      ∷ record { service = "nfs"; group_id = "i"; member = "b" }
      ∷ [];
  rgw_frontends =
      record { member = "c"; frontend = frontend }
      ∷ record { member = "b"; frontend = frontend }
      ∷ [];
  fault = none;
}

-- Any failure is masked as a reset.
abbrev redaction : Redaction
redaction = record { refusal = λ e. e; detail = λ d. force_reset }

abbrev status : PlacementStatus
status = record {
  active = true;
  policy = some (redact_stored_policy leaky);
  observed = observe_members tables;
  bootstrap_state = failed;
  bootstrap_target = "a";
  blocked_reason = some force_reset;
  placement_refusal = some not_bootstrapped;
}

reported-b :
    lookup "b" (observe_members tables)
    ≡ some (record { control = false; rgw = true; rgw_frontend = some frontend; nfs = "i" ∷ [] })
unfolding lookup insert observe_members note_services note_groups populate_rgw_frontends
reported-b = refl

reported-c :
    lookup "c" (observe_members tables)
    ≡ some (record { control = false; rgw = false; rgw_frontend = none; nfs = "g" ∷ [] })
unfolding lookup insert observe_members note_services note_groups populate_rgw_frontends
reported-c = refl

reported-d : lookup "d" (observe_members tables) ≡ none
unfolding lookup insert observe_members note_services note_groups populate_rgw_frontends
reported-d = refl

observe_members-expected_example : lookup "b" (observe_members tables) ≡ expected "b" tables
observe_members-expected_example = observe_members-expected "b" tables

reported : get_placement_status redaction true tables ≡ ok status
unfolding get_placement_status
reported = refl

get_placement_status-Discreet_example : Discreet redaction status
get_placement_status-Discreet_example =
    get_placement_status-Discreet redaction true tables status reported
