-- ===== src/Osd/Removal/Safe.antt =====
-- doRemoveOSD of microceph/ceph/osd.go keeps the order of its calls, whatever they answer.
use microceph.Prelude.{[], Bool, true, false, ◌≡◌, refl, arith, ok, err}
use microceph.Prelude.Int.{ℤ}
use microceph.Osd.Removal.{
  suppress_autostart, restore_autostart, Env, Ended, Chain, restoring, attempt_call, stop_process,
  guarded_stop, do_remove_osd,
}
use microceph.Osd.Removal.Rules.{Post, Triple, bind, weaken, attempt_call-keeps}
use microceph.Osd.Removal.Order.{made, gone, in_order}
use microceph.Osd.Removal.Purges.{fresh_call, fresh-in_order, tear_down-Triple}
use microceph.Osd.Removal.Stops.{prepare_removal-Triple, stop_process-Triple}
use microceph.Osd.Removal.Stages.{fresh, settled, found_or_gone, fresh-restore}

module _ (env : Env) (bypass : Bool) where
  restored :
      (suppressed : Bool) (o : Ended Bool)
      → Post (found_or_gone bypass) (fresh bypass) o
      → Post
          (found_or_gone bypass)
          (in_order bypass)
          (restoring (attempt_call env restore_autostart) suppressed o)
  unfolding restoring
  restored suppressed (ok x, log) h = h
  restored true (err e, log) h =
      attempt_call-keeps env (in_order bypass) (fresh-restore bypass) log h
  restored false (err e, log) h = fresh-in_order env bypass log h

  guarded_stop-Triple :
      (present suppressed : Bool)
      → Triple
          (fresh bypass)
          (guarded_stop env bypass present suppressed)
          (found_or_gone bypass)
          (in_order bypass)
  unfolding guarded_stop
  guarded_stop-Triple present suppressed = record {
    holds = λ log p.
        restored suppressed (stop_process env bypass present log)
          ((stop_process-Triple env bypass present).holds log p);
  }

  fresh_error :
      {m : Chain Bool}
      → Triple (fresh bypass) m (λ _. fresh bypass) (fresh bypass)
      → Triple (fresh bypass) m (λ _. fresh bypass) (in_order bypass)
  fresh_error h =
      weaken (λ _. fresh bypass) (λ _. fresh bypass) (fresh bypass) (in_order bypass) (λ x log p. p)
        (fresh-in_order env bypass) h

  do_remove_osd-Triple :
      (osd : ℤ)
      → Triple (fresh bypass) (do_remove_osd env osd bypass) (λ _. settled bypass) (in_order bypass)
  unfolding do_remove_osd
  do_remove_osd-Triple osd =
      bind (λ _. fresh bypass) (fresh_error (prepare_removal-Triple env bypass osd))
        (λ present.
          bind (λ _. fresh bypass) (fresh_error (fresh_call env bypass suppress_autostart refl))
            (λ suppressed.
              bind (found_or_gone bypass) (guarded_stop-Triple present suppressed)
                (λ purging. tear_down-Triple env bypass purging)))

-- What is promised of a removal: its calls are in order, and after a success the OSD is gone.
abbrev pub Orderly : Bool → Ended Bool → Type 0
Orderly bypass (ok x, log) = (in_order bypass log ≡ true) × (gone log ≡ true)
Orderly bypass (err e, log) = in_order bypass log ≡ true

orderly :
    (bypass : Bool) (o : Ended Bool)
    → Post (λ _. settled bypass) (in_order bypass) o
    → Orderly bypass o
unfolding settled
orderly bypass (ok x, log) h = (ground arith, ground arith)
orderly bypass (err e, log) h = h

-- Whatever Ceph and the files answer, a removal that starts from an empty log marks the OSD down and
-- purges it only after its process was stopped, purges it only after a check that it is safe to
-- destroy, unless checks are bypassed, restores the autostart marker only if no purge was tried, and
-- deletes its row only after the last look at the OSD map, with no purge since, has shown that it
-- is gone, as it is on success.
pub do_remove_osd-Orderly :
    (env : Env) (osd : ℤ) (bypass : Bool) → Orderly bypass (do_remove_osd env osd bypass [])
unfolding fresh in_order made
do_remove_osd-Orderly env osd bypass =
    orderly bypass (do_remove_osd env osd bypass [])
      ((do_remove_osd-Triple env bypass osd).holds [] refl)
