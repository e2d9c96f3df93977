-- ===== src/Osd/Removal/Order.antt =====
-- The order of the calls in doRemoveOSD of microceph/ceph/osd.go, which its comments ask for.
use microceph.Prelude.{[], ◌∷◌, Bool, true, false, ◌&&◌, ◌||◌, not}
use microceph.Osd.Removal.{
  Command, kill, safe_to_destroy, purge, down, restore_autostart, delete_row, in_osd_map, did,
  refused, Log,
}

abbrev pub is_kill : Command → Bool
is_kill kill = true
is_kill a = false

abbrev pub is_safe_to_destroy : Command → Bool
is_safe_to_destroy safe_to_destroy = true
is_safe_to_destroy a = false

abbrev pub is_purge : Command → Bool
is_purge purge = true
is_purge a = false

abbrev pub is_down : Command → Bool
is_down down = true
is_down a = false

abbrev pub is_restore : Command → Bool
is_restore restore_autostart = true
is_restore a = false

abbrev pub is_delete : Command → Bool
is_delete delete_row = true
is_delete a = false

abbrev pub is_look : Command → Bool
is_look in_osd_map = true
is_look a = false

-- A call that succeeded, and one that was made.
unfoldable pub succeeded : (Command → Bool) → Log → Bool
succeeded p [] = false
succeeded p (did a b ∷ log) = p a || succeeded p log
succeeded p (refused a ∷ log) = succeeded p log

unfoldable pub made : (Command → Bool) → Log → Bool
made p [] = false
made p (did a b ∷ log) = p a || made p log
made p (refused a ∷ log) = p a || made p log

-- The OSD map was last seen without the OSD, and no purge was tried since.
unfoldable pub gone : Log → Bool
gone [] = false
gone (did a b ∷ log) = (is_look a && not b) || (not (is_look a) && (not (is_purge a) && gone log))
gone (refused a ∷ log) = not (is_purge a) && gone log

-- Purging and marking down want the process stopped, and purging a check unless it is bypassed;
-- the marker is restored only if no purge was tried; the row is deleted only when the OSD is gone.
unfoldable pub allowed : Bool → Command → Log → Bool
unfolding succeeded made gone
allowed bypass act log =
    (not (is_purge act) || (succeeded is_kill log && (bypass || succeeded is_safe_to_destroy log)))
    && ((not (is_down act) || succeeded is_kill log)
        && ((not (is_restore act) || not (made is_purge log)) && (not (is_delete act) || gone log)))

-- Every call of the log was allowed when it was made.
unfoldable pub in_order : Bool → Log → Bool
unfolding allowed
in_order bypass [] = true
in_order bypass (did act b ∷ log) = allowed bypass act log && in_order bypass log
in_order bypass (refused act ∷ log) = allowed bypass act log && in_order bypass log
