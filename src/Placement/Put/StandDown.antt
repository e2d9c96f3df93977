-- ===== src/Placement/Put/StandDown.antt =====
-- What a successful DELETE leaves: cmdPlacementDelete of microceph/api/placement.go.
use microceph.Prelude.{
  ℕ, String, Bool, true, false, Option, none, some, ◌≡◌, refl, ◌==◌, nat_eq, Bool-cases, inl, inr,
}
use microceph.Placement.Errors.{RemoteError}
use microceph.Placement.Store.{
  Row, lock_placement_apply, release, transaction, update, clear_placement_policy,
  check_storage_eligibility,
}
use microceph.Placement.Apply.{World}
use microceph.Placement.Put.{
  Request, Response, sync_response, unlock_placement_apply, unlocked, when_locked, try_lock,
  with_lock, cleared, cmd_placement_delete,
}

-- Role management is off, and no desired policy remains.
abbrev pub StoodDown : Row → Type 0
StoodDown none = ⊥
StoodDown (some r) = (r.active ≡ false) × (r.policy_json ≡ none) × (r.last_refusal ≡ none)

unlock-StoodDown :
    (fault : Option RemoteError) (token : ℕ) (row : Row)
    → StoodDown row
    → StoodDown (unlock_placement_apply fault token row)
unfolding unlock_placement_apply release
unlock-StoodDown (some e) token row h = h
unlock-StoodDown none token none h = elim h [ ]
unlock-StoodDown none token (some r) h = elim (Bool-cases (r.apply_lock_token == token)) [
  | inl e ↦ rw (e, StoodDown) h
  | inr e ↦ rw (e, StoodDown) h
]

cleared-StoodDown :
    (fault : Option RemoteError) (row : Row)
    → (cleared fault row).1 ≡ sync_response
    → StoodDown (cleared fault row).0.row
unfolding cleared transaction clear_placement_policy update
cleared-StoodDown (some e) row h = cc
cleared-StoodDown none none h = cc
cleared-StoodDown none (some r) h = (refl, refl, refl)

unlocked-StoodDown :
    (req : Request) (p : World × Response)
    → (p.1 ≡ sync_response → StoodDown p.0.row)
    → (unlocked req p).1 ≡ sync_response
    → StoodDown (unlocked req p).0.row
unfolding unlocked
unlocked-StoodDown req (w, response) stands h =
    unlock-StoodDown req.unlock_fault req.now w.row (stands h)

locked-StoodDown :
    (fault : Option RemoteError) (req : Request) (p : Row × Option Bool)
    → (when_locked req (cleared fault) p).1 ≡ sync_response
    → StoodDown (when_locked req (cleared fault) p).0.row
unfolding when_locked
locked-StoodDown fault req (row, none) h = cc
locked-StoodDown fault req (row, some false) h = cc
locked-StoodDown fault req (row, some true) h =
    unlocked-StoodDown req (cleared fault row) (cleared-StoodDown fault row) h

try-StoodDown :
    (fault : Option RemoteError) (req : Request) (o : Option RemoteError) (row : Row)
    → (try_lock req (cleared fault) o row).1 ≡ sync_response
    → StoodDown (try_lock req (cleared fault) o row).0.row
unfolding try_lock
try-StoodDown fault req (some e) row h = cc
try-StoodDown fault req none row h = locked-StoodDown fault req (lock_placement_apply req.now row) h

StoodDown-ungated :
    (name : String) (row : Row) → StoodDown row → check_storage_eligibility name row ≡ none
unfolding check_storage_eligibility
StoodDown-ungated name none h = elim h [ ]
StoodDown-ungated name (some r) h = rw h.0 refl

-- After a DELETE that answers success, no desired policy and no refusal is stored, and every member
-- may enrol OSDs.
pub delete-StoodDown :
    (fault : Option RemoteError) (req : Request) (row : Row) (name : String)
    → (cmd_placement_delete fault req row).1 ≡ sync_response
    → StoodDown (cmd_placement_delete fault req row).0.row
      × (check_storage_eligibility name (cmd_placement_delete fault req row).0.row ≡ none)
unfolding cmd_placement_delete with_lock
delete-StoodDown fault req row name h =
    let down = try-StoodDown fault req req.lock_fault row h in
    (down, StoodDown-ungated name (try_lock req (cleared fault) req.lock_fault row).0.row down)
