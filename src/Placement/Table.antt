-- ===== src/Placement/Table.antt =====
-- The engine's `map[string]map[string]bool`: for each control service, a flag for each member.
use microceph.Prelude.{
  String, List, Bool, false, ◌&&◌, ◌≡◌, Option, none, some, ◌==◌, string_eq, if◌then◌else◌, lookup,
  insert, lookup-insert, arith,
}
use microceph.Placement.Errors.{ControlService, service_eq}

abbrev pub Table : Type 0
Table = ControlService → List (String × Bool)

abbrev pub or_false : Option Bool → Bool
or_false none = false
or_false (some b) = b

-- `t[svc][member]`, false where there is no entry.
unfoldable pub get : Table → ControlService → String → Bool
get t svc member = or_false (lookup member (t svc))

-- `t[svc][member] = b`.
unfoldable pub put : ControlService → String → Bool → Table → Table
put svc member b t svc' = if svc == svc' then insert member b (t svc') else t svc'

pub get-put :
    (svc svc' : ControlService) (m m' : String) (b : Bool) (t : Table)
    → get (put svc m b t) svc' m' ≡ (if svc == svc' && m == m' then b else get t svc' m')
unfolding get put
get-put svc svc' m m' b t = ground (arith, lookup-insert m m' b (t svc'))
