-- ===== src/Placement/Policy.antt =====
-- microceph/api/types/placement.go: the policy document. A map is an association list, in the
-- order in which a `range` over it happens to run; an omitted (nil) field is `none`.
use microceph.Prelude.{String, List, Option, Bool}
use microceph.Prelude.Int.{ℤ}

pub record NfsPlacement : Type 0 where
  pub group_id : String
  pub bind_address : String

pub record RgwPlacement : Type 0 where
  pub enabled : Option Bool
  pub ssl : Option Bool
  pub port : ℤ
  pub ssl_port : ℤ
  pub ssl_certificate : String
  pub ssl_private_key : String

pub record MemberPlacement : Type 0 where
  pub control : Option Bool
  pub rgw : Option RgwPlacement
  pub nfs : Option (List NfsPlacement)
  pub storage_eligible : Option Bool

abbrev pub Members : Type 0
Members = List (String × MemberPlacement)

pub record PlacementPolicy : Type 0 where
  pub mode : String
  pub members : Members
