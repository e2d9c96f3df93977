-- ===== src/Osd/Removal/Purges.antt =====
-- The part of doRemoveOSD (microceph/ceph/osd.go) that purges the OSD and tears down what is local.
use microceph.Prelude.{
  ℕ, zero, suc, Bool, true, false, ◌&&◌, ◌||◌, not, ◌≡◌, refl, arith, if◌then◌else◌,
}
use microceph.Osd.Removal.{
  Command, safe_to_destroy, purge, clear_storage, clean_aux_devices, remove_config, delete_row,
  Fault, not_down, failed, TeardownError, unsafe_to_destroy, still_in_map, call_failed, Log, Env,
  Chain, ◌>>◌, done, end_with, when, demand, logged, safety_check_destroy, down_again,
  purge_with_retries, purge_osd, tear_down,
}
use microceph.Osd.Removal.Rules.{
  Triple, bind, weaken, precede, demand-Triple, attempt_call-keeps, logged-Triple, round-Post,
  reaches-Triple,
}
use microceph.Osd.Removal.Order.{gone, in_order}
use microceph.Osd.Removal.Stages.{
  fresh, stopped, purgeable, settled, found_or_gone, plain, fresh-plain, stopped-plain,
  settled-plain, purgeable-purge, purgeable-down, purgeable-look, stopped-check, settled-delete,
}

module _ (env : Env) (bypass : Bool) where
  pub done-Triple :
      {P Q : Log → Bool} (E : Log → Bool) (x : Bool)
      → ((log : Log) → P log ≡ true → Q log ≡ true)
      → Triple P (done x) (λ _. Q) E
  done-Triple E x h = record { holds = h }

  pub end_with-Triple :
      {P : Log → Bool} (Q : Bool → Log → Bool) (E : Log → Bool) (e : TeardownError)
      → ((log : Log) → P log ≡ true → E log ≡ true)
      → Triple P (end_with e) Q E
  end_with-Triple Q E e h = record { holds = h }

  pub fresh_call :
      (act : Command)
      → plain act ≡ true
      → Triple (fresh bypass) (demand env act) (λ _. fresh bypass) (fresh bypass)
  fresh_call act p = demand-Triple env (λ _. fresh bypass) (fresh-plain bypass act p)

  pub stopped-fresh : (log : Log) → stopped bypass log ≡ true → fresh bypass log ≡ true
  unfolding stopped
  stopped-fresh log h = ground arith

  pub stopped_call :
      (act : Command)
      → plain act ≡ true
      → Triple (stopped bypass) (demand env act) (λ _. stopped bypass) (fresh bypass)
  stopped_call act p =
      weaken (λ _. stopped bypass) (λ _. stopped bypass) (stopped bypass) (fresh bypass)
        (λ x log h. h) stopped-fresh
        (demand-Triple env (λ _. stopped bypass) (stopped-plain bypass act p))

  settled_call :
      (act : Command)
      → plain act ≡ true
      → Triple (settled bypass) (demand env act) (λ _. settled bypass) (settled bypass)
  settled_call act p = demand-Triple env (λ _. settled bypass) (settled-plain bypass act p)

  down_again-purgeable :
      (f : Fault) (log : Log)
      → purgeable bypass log ≡ true
      → purgeable bypass (down_again env f log) ≡ true
  unfolding down_again
  down_again-purgeable not_down log h =
      attempt_call-keeps env (purgeable bypass) (purgeable-down bypass) log h
  down_again-purgeable (failed text) log h = h

  purge_with_retries-Triple :
      (n : ℕ)
      → Triple
          (purgeable bypass)
          (purge_with_retries env n)
          (λ _. purgeable bypass)
          (purgeable bypass)
  unfolding purge_with_retries
  purge_with_retries-Triple zero = record {
    holds = λ log h.
        round-Post env (λ _. purgeable bypass) (purgeable bypass)
          (λ f. end_with (call_failed purge f)) purge log (env.answer purge log)
          (purgeable-purge bypass log h).0 (λ f. (purgeable-purge bypass log h).1);
  }
  purge_with_retries-Triple (suc n) = record {
    holds = λ log h.
        round-Post env (λ _. purgeable bypass) (purgeable bypass)
          (λ f log'. purge_with_retries env n (down_again env f log')) purge log
          (env.answer purge log) (purgeable-purge bypass log h).0
          (λ f.
            (purge_with_retries-Triple n).holds _
              (down_again-purgeable f _ (purgeable-purge bypass log h).1));
  }

  seen_or_gone : Bool → Log → Bool
  seen_or_gone in_map log = purgeable bypass log && (in_map || gone log)

  last_look :
      (in_map : Bool)
      → Triple
          (seen_or_gone in_map)
          (if in_map then end_with still_in_map else done true)
          (λ _. settled bypass)
          (purgeable bypass)
  unfolding seen_or_gone settled purgeable
  last_look true =
      end_with-Triple (λ _. settled bypass) (purgeable bypass) still_in_map (λ log h. ground arith)
  last_look false = done-Triple (purgeable bypass) true (λ log h. ground arith)

  when_seen :
      {m : Chain Bool} (in_map : Bool)
      → Triple (purgeable bypass) m (λ _. settled bypass) (purgeable bypass)
      → Triple (seen_or_gone in_map) (when in_map m) (λ _. settled bypass) (purgeable bypass)
  unfolding when seen_or_gone settled purgeable
  when_seen true h = precede (purgeable bypass) (λ log p. ground arith) h
  when_seen false h = done-Triple (purgeable bypass) true (λ log p. ground arith)

  purge_osd-Triple :
      (n : ℕ) → Triple (purgeable bypass) (purge_osd env n) (λ _. settled bypass) (purgeable bypass)
  unfolding purge_osd ◌>>◌ seen_or_gone
  purge_osd-Triple zero =
      bind (λ _. purgeable bypass) (purge_with_retries-Triple 9)
        (λ _. bind seen_or_gone (demand-Triple env seen_or_gone (purgeable-look bypass)) last_look)
  purge_osd-Triple (suc n) =
      bind (λ _. purgeable bypass) (purge_with_retries-Triple 9)
        (λ _. bind seen_or_gone (demand-Triple env seen_or_gone (purgeable-look bypass)) (λ in_map.
          when_seen in_map (
            bind (λ _. purgeable bypass)
              (demand-Triple env (λ _. purgeable bypass) (purgeable-down bypass))
              (λ _. purge_osd-Triple n))))

  clean_up :
      Triple
        (settled bypass)
        (logged env clear_storage
          >> (demand env clean_aux_devices >> (demand env remove_config >> demand env delete_row)))
        (λ _. settled bypass)
        (settled bypass)
  unfolding ◌>>◌
  clean_up =
      bind (λ _. settled bypass)
        (logged-Triple env (settled bypass) (settled bypass)
          (settled-plain bypass clear_storage refl))
        (λ _.
          bind (λ _. settled bypass) (settled_call clean_aux_devices refl)
            (λ _.
              bind (λ _. settled bypass) (settled_call remove_config refl)
                (λ _. demand-Triple env (λ _. settled bypass) (settled-delete bypass))))

  pub fresh-in_order : (log : Log) → fresh bypass log ≡ true → in_order bypass log ≡ true
  unfolding fresh
  fresh-in_order log h = ground arith

  check_destroy :
      (b : Bool)
      → bypass ≡ b
      → Triple
          (found_or_gone bypass true)
          (when (not b) (safety_check_destroy env))
          (λ _. purgeable bypass)
          (in_order bypass)
  unfolding when safety_check_destroy stopped fresh purgeable
  check_destroy true e = done-Triple (in_order bypass) true (λ log p. ground arith)
  check_destroy false e =
      precede (stopped bypass) (λ log p. ground arith)
        (weaken (λ _. purgeable bypass) (λ _. purgeable bypass) (stopped bypass) (in_order bypass)
          (λ x log p. p) (λ log p. ground arith)
          (reaches-Triple env (stopped bypass) (λ _. purgeable bypass) 16 safe_to_destroy
            unsafe_to_destroy (stopped-check bypass)))

  in_order_error :
      {P : Log → Bool} {m : Chain Bool} (E : Log → Bool)
      → ((log : Log) → E log ≡ true → in_order bypass log ≡ true)
      → Triple P m (λ _. settled bypass) E
      → Triple P m (λ _. settled bypass) (in_order bypass)
  in_order_error E h t =
      weaken (λ _. settled bypass) (λ _. settled bypass) E (in_order bypass) (λ x log p. p) h t

  clean_up_in_order :
      Triple
        (settled bypass)
        (logged env clear_storage
          >> (demand env clean_aux_devices >> (demand env remove_config >> demand env delete_row)))
        (λ _. settled bypass)
        (in_order bypass)
  clean_up_in_order =
      in_order_error (settled bypass) (unfold settled in λ log p. ground arith) clean_up

  pub tear_down-Triple :
      (purging : Bool)
      → Triple
          (found_or_gone bypass purging)
          (tear_down env bypass purging)
          (λ _. settled bypass)
          (in_order bypass)
  unfolding tear_down ◌>>◌ when
  tear_down-Triple true =
      bind (λ _. purgeable bypass) (check_destroy bypass refl)
        (λ _.
          bind (λ _. settled bypass)
            (in_order_error (purgeable bypass) (unfold purgeable in λ log p. ground arith)
              (purge_osd-Triple 1))
            (λ _. clean_up_in_order))
  tear_down-Triple false =
      bind (λ _. settled bypass)
        (done-Triple (in_order bypass) true (unfold stopped fresh settled in λ log p. ground arith))
        (λ _.
          bind (λ _. settled bypass) (done-Triple (in_order bypass) true (λ log p. p))
            (λ _. clean_up_in_order))
