-- ===== src/Osd/Removal/Stages.antt =====
-- The stages of doRemoveOSD (microceph/ceph/osd.go), and what its calls make of them.
use microceph.Prelude.{◌∷◌, Bool, true, ◌&&◌, ◌||◌, not, ◌≡◌, arith}
use microceph.Osd.Removal.{
  Command, kill, safe_to_destroy, purge, down, restore_autostart, delete_row, in_osd_map, did,
  refused, Log,
}
use microceph.Osd.Removal.Rules.{Answers}
use microceph.Osd.Removal.Order.{
  is_kill, is_safe_to_destroy, is_purge, is_down, is_restore, is_delete, is_look, succeeded, made,
  gone, allowed, in_order,
}

-- Before the process is stopped, after it, once a purge is allowed, and once the OSD is gone.
unfoldable pub fresh : Bool → Log → Bool
unfolding in_order made
fresh bypass log = in_order bypass log && not (made is_purge log)

unfoldable pub stopped : Bool → Log → Bool
unfolding fresh
stopped bypass log = fresh bypass log && succeeded is_kill log

unfoldable pub purgeable : Bool → Log → Bool
unfolding in_order
purgeable bypass log =
    in_order bypass log && (succeeded is_kill log && (bypass || succeeded is_safe_to_destroy log))

unfoldable pub settled : Bool → Log → Bool
unfolding in_order
settled bypass log = in_order bypass log && gone log

-- Whether the OSD is to be purged, or is seen to be gone.
abbrev pub found_or_gone : Bool → Bool → Log → Bool
found_or_gone bypass purging log = stopped bypass log && (purging || gone log)

-- A call that the order does not speak of.
abbrev pub plain : Command → Bool
plain act =
    not (is_purge act || (is_down act || (is_restore act || (is_delete act || is_look act))))

module _ (bypass : Bool) where
  pub fresh-plain :
      (act : Command)
      → plain act ≡ true
      → Answers (fresh bypass) act (λ _. fresh bypass) (fresh bypass)
  unfolding fresh in_order made allowed
  fresh-plain act p log h = (λ b. ground arith, ground arith)

  pub stopped-plain :
      (act : Command)
      → plain act ≡ true
      → Answers (stopped bypass) act (λ _. stopped bypass) (stopped bypass)
  unfolding stopped fresh in_order made allowed succeeded
  stopped-plain act p log h = (λ b. ground arith, ground arith)

  pub settled-plain :
      (act : Command)
      → plain act ≡ true
      → Answers (settled bypass) act (λ _. settled bypass) (settled bypass)
  unfolding settled in_order allowed gone
  settled-plain act p log h = (λ b. ground arith, ground arith)

  pub fresh-kill : Answers (fresh bypass) kill (λ _. stopped bypass) (fresh bypass)
  unfolding stopped fresh in_order made allowed succeeded
  fresh-kill log h = (λ b. ground arith, ground arith)

  pub stopped-down : Answers (stopped bypass) down (λ _. stopped bypass) (fresh bypass)
  unfolding stopped fresh in_order made allowed succeeded
  stopped-down log h = (λ b. ground arith, ground arith)

  pub stopped-look :
      Answers
        (stopped bypass)
        in_osd_map
        (λ b log. stopped bypass log && (b || gone log))
        (fresh bypass)
  unfolding stopped fresh in_order made allowed succeeded gone
  stopped-look log h = (λ b. ground arith, ground arith)

  pub purgeable-purge : Answers (purgeable bypass) purge (λ _. purgeable bypass) (purgeable bypass)
  unfolding purgeable in_order allowed succeeded
  purgeable-purge log h = (λ b. ground arith, ground arith)

  pub purgeable-down : Answers (purgeable bypass) down (λ _. purgeable bypass) (purgeable bypass)
  unfolding purgeable in_order allowed succeeded
  purgeable-down log h = (λ b. ground arith, ground arith)

  pub purgeable-look :
      Answers
        (purgeable bypass)
        in_osd_map
        (λ b log. purgeable bypass log && (b || gone log))
        (purgeable bypass)
  unfolding purgeable in_order allowed succeeded gone
  purgeable-look log h = (λ b. ground arith, ground arith)

  pub stopped-check :
      (log : Log)
      → stopped bypass log ≡ true
      → ((b : Bool) → purgeable bypass (did safe_to_destroy b ∷ log) ≡ true)
        × (stopped bypass (refused safe_to_destroy ∷ log) ≡ true)
  unfolding purgeable stopped fresh in_order made allowed succeeded
  stopped-check log h = (λ b. ground arith, ground arith)

  pub fresh-restore :
      Answers (fresh bypass) restore_autostart (λ _. in_order bypass) (in_order bypass)
  unfolding fresh in_order made allowed
  fresh-restore log h = (λ b. ground arith, ground arith)

  pub settled-delete : Answers (settled bypass) delete_row (λ _. settled bypass) (settled bypass)
  unfolding settled in_order allowed gone
  settled-delete log h = (λ b. ground arith, ground arith)
