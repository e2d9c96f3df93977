-- ===== src/Osd/Removal/Stops.antt =====
-- The part of doRemoveOSD (microceph/ceph/osd.go) up to the stop of the process and what is seen after it.
use microceph.Prelude.{Bool, true, false, ◌&&◌, ◌||◌, not, refl, arith, leb, if◌then◌else◌}
use microceph.Prelude.Int.{ℤ, pos, ltb_int}
use microceph.Osd.Removal.{
  have_osd, migrate_manifest, list_disks, downgrade_needed, switch_to_osd, in_tree, reweight,
  ok_to_stop, out, down, wait_for_presence, TeardownError, negative_id, not_found, too_few,
  unsafe_to_stop, Log, Env, Chain, ◌>>=◌, ◌>>◌, done, end_with, when, demand, safety_check_stop,
  sanity_check, check_min_osds, scale_down_failure_domain, prepare_removal, appeared, stop_process,
}
use microceph.Osd.Removal.Rules.{
  Triple, bind, weaken, precede, demand-Triple, logged-Triple, reaches-Triple, when-Triple,
}
use microceph.Osd.Removal.Order.{gone}
use microceph.Osd.Removal.Purges.{
  done-Triple, end_with-Triple, fresh_call, stopped_call, stopped-fresh,
}
use microceph.Osd.Removal.Stages.{
  fresh, stopped, found_or_gone, fresh-plain, stopped-plain, fresh-kill, stopped-down, stopped-look,
}

module _ (env : Env) (bypass : Bool) where
  fresh_stop : Triple (fresh bypass) (safety_check_stop env) (λ _. fresh bypass) (fresh bypass)
  unfolding safety_check_stop
  fresh_stop =
      reaches-Triple env (fresh bypass) (λ _. fresh bypass) 16 ok_to_stop unsafe_to_stop
        (fresh-plain bypass ok_to_stop refl)

  stopped_stop :
      Triple (stopped bypass) (safety_check_stop env) (λ _. stopped bypass) (fresh bypass)
  unfolding safety_check_stop
  stopped_stop =
      weaken (λ _. stopped bypass) (λ _. stopped bypass) (stopped bypass) (fresh bypass)
        (λ x log h. h) (stopped-fresh env bypass)
        (reaches-Triple env (stopped bypass) (λ _. stopped bypass) 16 ok_to_stop unsafe_to_stop
          (stopped-plain bypass ok_to_stop refl))

  fresh_if :
      (b : Bool) (e : TeardownError)
      → Triple
          (fresh bypass)
          (if b then done true else end_with e)
          (λ _. fresh bypass)
          (fresh bypass)
  fresh_if true e = done-Triple env bypass (fresh bypass) true (λ log p. p)
  fresh_if false e = end_with-Triple env bypass (λ _. fresh bypass) (fresh bypass) e (λ log p. p)

  fresh_unless :
      (b : Bool) (e : TeardownError)
      → Triple
          (fresh bypass)
          (if b then end_with e else done true)
          (λ _. fresh bypass)
          (fresh bypass)
  fresh_unless true e = end_with-Triple env bypass (λ _. fresh bypass) (fresh bypass) e (λ log p. p)
  fresh_unless false e = done-Triple env bypass (fresh bypass) true (λ log p. p)

  fresh_optional :
      {m : Chain Bool} (b : Bool)
      → Triple (fresh bypass) m (λ _. fresh bypass) (fresh bypass)
      → Triple (fresh bypass) (when b m) (λ _. fresh bypass) (fresh bypass)
  fresh_optional b h = when-Triple b (λ e. h) (λ e log p. p)

  sanity_check-Triple :
      (osd : ℤ) → Triple (fresh bypass) (sanity_check env osd) (λ _. fresh bypass) (fresh bypass)
  unfolding sanity_check
  sanity_check-Triple osd = negative (ltb_int osd (pos 0))
    where
      negative :
          (b : Bool)
          → Triple
              (fresh bypass)
              (if b
                then end_with negative_id
                else (demand env have_osd >>= λ exists.
                    if exists then done true else end_with not_found))
              (λ _. fresh bypass)
              (fresh bypass)
      negative true =
          end_with-Triple env bypass (λ _. fresh bypass) (fresh bypass) negative_id (λ log p. p)
      negative false =
          bind (λ _. fresh bypass) (fresh_call env bypass have_osd refl)
            (λ exists. fresh_if exists not_found)

  pub prepare_removal-Triple :
      (osd : ℤ)
      → Triple (fresh bypass) (prepare_removal env osd bypass) (λ _. fresh bypass) (fresh bypass)
  unfolding prepare_removal ◌>>◌ check_min_osds scale_down_failure_domain
  prepare_removal-Triple osd =
      bind (λ _. fresh bypass) (sanity_check-Triple osd)
        (λ _.
          bind (λ _. fresh bypass) (fresh_call env bypass migrate_manifest refl)
            (λ _.
              bind (λ _. fresh bypass)
                (fresh_optional (not bypass) (
                  bind (λ _. fresh bypass) (fresh_call env bypass list_disks refl)
                    (λ _. fresh_unless (leb env.disks 3) too_few)))
                (λ _.
                  bind (λ _. fresh bypass)
                    (bind (λ _. fresh bypass) (fresh_call env bypass downgrade_needed refl)
                      (λ needed. fresh_optional needed (fresh_call env bypass switch_to_osd refl)))
                    (λ _.
                      bind (λ _. fresh bypass) (fresh_call env bypass in_tree refl)
                        (λ present.
                          bind (λ _. fresh bypass)
                            (fresh_optional present (
                              logged-Triple env (fresh bypass) (fresh bypass)
                                (fresh-plain bypass reweight refl)))
                            (λ _.
                              bind (λ _. fresh bypass)
                                (fresh_optional (present && not bypass) fresh_stop)
                                (λ _.
                                  bind (λ _. fresh bypass)
                                    (fresh_optional present (fresh_call env bypass out refl))
                                    (λ _.
                                      done-Triple env bypass (fresh bypass) present
                                        (λ log p. p)))))))))

  stopped_down : Triple (stopped bypass) (demand env down) (λ _. stopped bypass) (fresh bypass)
  stopped_down = demand-Triple env (λ _. stopped bypass) (stopped-down bypass)

  -- What the second look at the tree and at the map leaves.
  known : Bool → Bool → Log → Bool
  known found in_map log = stopped bypass log && (found || (in_map || gone log))

  down_in_map :
      (in_map : Bool)
      → Triple
          (λ log. stopped bypass log && (in_map || gone log))
          (when in_map (demand env down))
          (λ _. known false in_map)
          (fresh bypass)
  unfolding when known
  down_in_map true =
      precede (stopped bypass) (λ log p. ground arith)
        (weaken (λ _. stopped bypass) (λ _. known false true) (fresh bypass) (fresh bypass)
          (λ x log h. ground arith) (λ log h. h) stopped_down)
  down_in_map false = done-Triple env bypass (fresh bypass) true (λ log p. p)

  appeared-Triple :
      (found : Bool)
      → Triple (stopped bypass) (appeared env bypass found) (known found) (fresh bypass)
  unfolding appeared ◌>>◌ known
  appeared-Triple true =
      bind (λ _. stopped bypass)
        (logged-Triple env (stopped bypass) (fresh bypass) (stopped-plain bypass reweight refl))
        (λ _.
          bind (λ _. stopped bypass) (when-Triple (not bypass) (λ e. stopped_stop) (λ e log p. p))
            (λ _.
              bind (λ _. stopped bypass) (stopped_call env bypass out refl)
                (λ _.
                  weaken (λ _. stopped bypass) (known true) (fresh bypass) (fresh bypass)
                    (λ x log h. ground arith) (λ log h. h) stopped_down)))
  appeared-Triple false =
      bind (λ b log. stopped bypass log && (b || gone log))
        (demand-Triple env (λ b log. stopped bypass log && (b || gone log)) (stopped-look bypass))
        (λ in_map.
          bind (λ _. known false in_map) (down_in_map in_map) (λ _. record { holds = λ log p. p }))

  pub stop_process-Triple :
      (present : Bool)
      → Triple
          (fresh bypass)
          (stop_process env bypass present)
          (found_or_gone bypass)
          (fresh bypass)
  unfolding stop_process ◌>>◌ known
  stop_process-Triple true =
      bind (λ _. stopped bypass) (demand-Triple env (λ _. stopped bypass) (fresh-kill bypass))
        (λ _.
          bind (λ _. stopped bypass) stopped_down (λ _. record { holds = λ log p. ground arith }))
  stop_process-Triple false =
      bind (λ _. stopped bypass) (demand-Triple env (λ _. stopped bypass) (fresh-kill bypass))
        (λ _.
          bind (λ _. stopped bypass) (stopped_call env bypass wait_for_presence refl)
            (λ found.
              bind (known found) (appeared-Triple found)
                (λ in_map. record { holds = λ log p. ground arith })))
