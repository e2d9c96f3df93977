-- ===== src/Crush/Request.antt =====
-- The request to remove an OSD: cmdDisksDelete of microceph/api/disks.go.
use microceph.Prelude.{
  List, [], ◌∷◌, Bool, true, false, ◌&&◌, not, Option, none, some, Result, ok, err, if◌then◌else◌,
}
use microceph.Prelude.Int.{ℤ}
use microceph.Crush.{CrushError, Env, is_downgrade_needed, is_rack_degrade_blocked}

pub record DisksDelete : Type 0 where
  pub bypass_safety : Bool
  pub confirm_downgrade : Bool
  pub prohibit_crush_scaledown : Bool

-- The number in the path and the body, where they can be decoded.
pub data DeleteRequest : Type 0 where
  undecoded : DeleteRequest
  decoded : ℤ → DisksDelete → DeleteRequest

pub data Reply : Type 0 where
  bad_request empty_sync : Reply
  internal_error smart_error : CrushError → Reply

-- A call of RemoveOSD: the OSD and bypassSafety.
abbrev pub Removal : Type 0
Removal = ℤ × Bool

-- What a handler answers, and its calls of RemoveOSD.
abbrev pub Handled : Type 0
Handled = Reply × List Removal

unfoldable pub removed : Removal → Option CrushError → Handled
removed call none = (empty_sync, call ∷ [])
removed call (some e) = (smart_error e, call ∷ [])

unfoldable pub after_racks :
    (Removal → Option CrushError) → Removal → Result CrushError Bool → Handled
unfolding removed
after_racks remove_osd call (err e) = (internal_error e, [])
after_racks remove_osd call (ok blocked) =
    if blocked then (bad_request, []) else removed call (remove_osd call)

unfoldable pub rack_guarded : Env → (Removal → Option CrushError) → ℤ → DisksDelete → Handled
unfolding removed after_racks is_rack_degrade_blocked
rack_guarded env remove_osd osd req =
    if req.bypass_safety
    then removed (osd, true) (remove_osd (osd, true))
    else after_racks remove_osd (osd, false) (is_rack_degrade_blocked env osd)

unfoldable pub downgrade_checked :
    Env → (Removal → Option CrushError) → ℤ → DisksDelete → Result CrushError Bool → Handled
unfolding rack_guarded
downgrade_checked env remove_osd osd req (err e) = (internal_error e, [])
downgrade_checked env remove_osd osd req (ok needed) =
    if needed && not req.confirm_downgrade
    then (bad_request, [])
    else rack_guarded env remove_osd osd req

-- cmdDisksDelete, with RemoveOSD as an argument. The warning on a downgrade that is confirmed to no
-- effect is only logged.
unfoldable pub cmd_disks_delete : Env → (Removal → Option CrushError) → DeleteRequest → Handled
unfolding rack_guarded downgrade_checked is_downgrade_needed
cmd_disks_delete env remove_osd undecoded = (bad_request, [])
cmd_disks_delete env remove_osd (decoded osd req) =
    if req.prohibit_crush_scaledown
    then rack_guarded env remove_osd osd req
    else downgrade_checked env remove_osd osd req (is_downgrade_needed env osd)
