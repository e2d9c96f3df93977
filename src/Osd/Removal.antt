-- ===== src/Osd/Removal.antt =====
-- The removal of an OSD: doRemoveOSD of microceph/ceph/osd.go, with purgeOSD and the checks.
pub mod Rules
pub mod Order
pub mod Stages
pub mod Purges
pub mod Stops
pub mod Safe
use microceph.Prelude.{
  ℕ, zero, suc, String, List, [], ◌∷◌, Bool, true, false, ◌&&◌, ◌||◌, not, Result, ok, err, leb,
  if◌then◌else◌,
}
use microceph.Prelude.Int.{ℤ, pos, ltb_int}

-- The calls that the removal makes for its OSD. `have_osd`, `downgrade_needed`, `in_tree`,
-- `wait_for_presence`, `in_osd_map` and `suppress_autostart` answer a Boolean.
pub data Command : Type 0 where
  have_osd migrate_manifest list_disks downgrade_needed switch_to_osd in_tree reweight : Command
  ok_to_stop out suppress_autostart kill down wait_for_presence in_osd_map : Command
  restore_autostart safe_to_destroy purge clear_storage clean_aux_devices : Command
  remove_config delete_row : Command

-- A failed call: `not_down` is the monitors' refusal to purge an OSD that is up.
pub data Fault : Type 0 where
  not_down : Fault
  failed : String → Fault

pub data TeardownError : Type 0 where
  negative_id not_found too_few unsafe_to_stop unsafe_to_destroy still_in_map : TeardownError
  call_failed : Command → Fault → TeardownError

pub data Entry : Type 0 where
  did : Command → Bool → Entry
  refused : Command → Entry

-- The calls so far, the newest first.
abbrev pub Log : Type 0
Log = List Entry

-- What a call answers, which may depend on all calls before it, and the number of disks in the
-- database.
pub record Env : Type 0 where
  pub answer : Command → Log → Result Fault Bool
  pub disks : ℕ

abbrev pub Ended : Type 0 → Type 0
Ended A = Result TeardownError A × Log

abbrev pub Chain : Type 0 → Type 0
Chain A = Log → Ended A

unfoldable pub continue_with : {A B : Type 0} → (A → Chain B) → Ended A → Ended B
continue_with k (ok x, log) = k x log
continue_with k (err e, log) = (err e, log)

infixl 5 ◌>>=◌
unfoldable pub ◌>>=◌ : {A B : Type 0} → Chain A → (A → Chain B) → Chain B
unfolding continue_with
m >>= k = λ log. continue_with k (m log)

infixl 5 ◌>>◌
unfoldable pub ◌>>◌ : {A B : Type 0} → Chain A → Chain B → Chain B
unfolding ◌>>=◌
m >> k = m >>= λ _. k

abbrev pub done : {A : Type 0} → A → Chain A
done x log = (ok x, log)

abbrev pub end_with : {A : Type 0} → TeardownError → Chain A
end_with e log = (err e, log)

unfoldable pub log_call : Command → Log → Result Fault Bool → Result Fault Bool × Log
log_call act log (ok b) = (ok b, did act b ∷ log)
log_call act log (err e) = (err e, refused act ∷ log)

unfoldable pub or_fail : Command → Result Fault Bool × Log → Ended Bool
or_fail act (ok b, log) = (ok b, log)
or_fail act (err e, log) = (err (call_failed act e), log)

unfoldable pub when : Bool → Chain Bool → Chain Bool
when true m = m
when false m = done true

-- One round of a loop of attempts; `again` is the rest of the loop after a failed call.
unfoldable pub round : (Fault → Chain Bool) → Command → Log → Result Fault Bool → Ended Bool
round again act log (ok b) = (ok true, did act b ∷ log)
round again act log (err f) = again f (refused act ∷ log)

-- The deferred restoration of the autostart marker, with what it does to the log.
unfoldable pub restoring : (Log → Log) → Bool → Ended Bool → Ended Bool
restoring restore suppressed (ok x, log) = (ok x, log)
restoring restore suppressed (err e, log) = (err e, if suppressed then restore log else log)

module _ (env : Env) where
  -- A call whose failure ends the removal, and one whose failure is only logged.
  unfoldable pub demand : Command → Chain Bool
  unfolding log_call or_fail
  demand act log = or_fail act (log_call act log (env.answer act log))

  unfoldable pub attempt_call : Command → Log → Log
  unfolding log_call
  attempt_call act log = (log_call act log (env.answer act log)).1

  unfoldable pub logged : Command → Chain Bool
  unfolding attempt_call
  logged act log = (ok true, attempt_call act log)

  -- The loops of safetyCheckStop and safetyCheckDestroy.
  unfoldable pub reaches : ℕ → Command → TeardownError → Chain Bool
  unfolding round
  reaches zero act e log = (err e, log)
  reaches (suc tries) act e log = round (λ f. reaches tries act e) act log (env.answer act log)

  unfoldable pub safety_check_stop : Chain Bool
  unfolding reaches
  safety_check_stop = reaches 16 ok_to_stop unsafe_to_stop

  unfoldable pub safety_check_destroy : Chain Bool
  unfolding reaches
  safety_check_destroy = reaches 16 safe_to_destroy unsafe_to_destroy

  unfoldable pub down_again : Fault → Log → Log
  unfolding attempt_call
  down_again not_down log = attempt_call down log
  down_again (failed text) log = log

  -- purgeWithRetries, on the attempts left after this one.
  unfoldable pub purge_with_retries : ℕ → Chain Bool
  unfolding round down_again
  purge_with_retries zero log =
      round (λ f. end_with (call_failed purge f)) purge log (env.answer purge log)
  purge_with_retries (suc left) log =
      round (λ f log'. purge_with_retries left (down_again f log')) purge log (env.answer purge log)

  -- purgeOSD, on the rounds left after this one.
  unfoldable pub purge_osd : ℕ → Chain Bool
  unfolding purge_with_retries demand
  purge_osd zero = do
    purge_with_retries 9
    in_map ← demand in_osd_map
    if in_map then end_with still_in_map else done true
  purge_osd (suc left) = do
    purge_with_retries 9
    in_map ← demand in_osd_map
    when in_map (demand down >> purge_osd left)

  sanity_check : ℤ → Chain Bool
  unfolding demand
  sanity_check osd =
      if ltb_int osd (pos 0)
      then end_with negative_id
      else (do exists ← demand have_osd; if exists then done true else end_with not_found)

  check_min_osds : Chain Bool
  unfolding demand
  check_min_osds =
      demand list_disks >>= λ _. if leb env.disks 3 then end_with too_few else done true

  scale_down_failure_domain : Chain Bool
  unfolding demand when
  scale_down_failure_domain =
      demand downgrade_needed >>= λ needed. when needed (demand switch_to_osd)

  -- Up to the suppression of the autostart; answers whether the tree shows the OSD.
  unfoldable pub prepare_removal : ℤ → Bool → Chain Bool
  unfolding sanity_check check_min_osds scale_down_failure_domain safety_check_stop demand logged
      when
  prepare_removal osd bypass = do
    sanity_check osd
    demand migrate_manifest
    when (not bypass) check_min_osds
    scale_down_failure_domain
    present ← demand in_tree
    when present (logged reweight)
    when (present && not bypass) safety_check_stop
    when present (demand out)
    done present

  appeared : Bool → Bool → Chain Bool
  unfolding demand logged when safety_check_stop
  appeared bypass true = do
    logged reweight
    when (not bypass) safety_check_stop
    demand out
    demand down
  appeared bypass false = do in_map ← demand in_osd_map; when in_map (demand down); done in_map

  -- From killOSD to the last failure that restores the marker; answers whether the OSD is to be
  -- purged, isPresent || inOSDMapOnly.
  unfoldable pub stop_process : Bool → Bool → Chain Bool
  unfolding demand appeared
  stop_process bypass true = do demand kill; demand down; done true
  stop_process bypass false = do
    demand kill
    found ← demand wait_for_presence
    in_map ← appeared bypass found
    done (found || in_map)

  -- The steps that leave the marker suppressed.
  unfoldable pub tear_down : Bool → Bool → Chain Bool
  unfolding demand logged when purge_osd safety_check_destroy
  tear_down bypass purging = do
    when (purging && not bypass) safety_check_destroy
    when purging (purge_osd 1)
    logged clear_storage
    demand clean_aux_devices
    demand remove_config
    demand delete_row

  guarded_stop : Bool → Bool → Bool → Chain Bool
  unfolding restoring attempt_call stop_process
  guarded_stop bypass present suppressed log =
      restoring (attempt_call restore_autostart) suppressed (stop_process bypass present log)

  -- doRemoveOSD.
  unfoldable pub do_remove_osd : ℤ → Bool → Chain Bool
  unfolding prepare_removal demand guarded_stop tear_down
  do_remove_osd osd bypass = do
    present ← prepare_removal osd bypass
    suppressed ← demand suppress_autostart
    purging ← guarded_stop bypass present suppressed
    tear_down bypass purging
