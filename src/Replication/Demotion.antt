-- ===== src/Replication/Demotion.antt =====
-- What a demotion of a site does where one pool fails: handleSiteOp of
-- microceph/ceph/replication_rbd.go.
use microceph.Prelude.{
  String, List, [], ◌∷◌, ◌++◌, true, Option, none, some, ◌≡◌, ◌≢◌, refl, ap, ◌∙◌, Result, ok, err,
  arith,
}
use microceph.Replication.{
  known, event_of, demote_replication, ReplicationState, disabled, enabled, invalid, transition,
  fired, handled, handle_replication_request, ReplicationError,
}
use microceph.Replication.Rbd.{
  list_pools, PoolInfo, PoolStatus, RbdReplicationRequest, RbdReplicationHandler,
  get_resource_state, History, Env,
}
use microceph.Replication.Site.{
  Next, go_on, return_nil, return_error, handle_pool_demotion, demoted_or, demote_round, acted,
  site_round_on, site_round, continued, site_loop, handle_site_op, get_mirror_pool_metadata,
  demote_handler, rbd_handler,
}
use microceph.Replication.Mirrored.{eligible}

-- The history after rounds that all went on to the next pool; `none` where one did not.
went_on : (History → Option History) → History × Next → Option History
went_on rest (h, go_on) = rest h
went_on rest (h, return_nil) = none
went_on rest (h, return_error e) = none

unfoldable pub reached : Env → RbdReplicationRequest → List String → History → Option History
unfolding went_on
reached env req [] h = some h
reached env req (p ∷ ps) h = went_on (reached env req ps) (site_round env req p h)

loop-went_on :
    (env : Env) (req : RbdReplicationRequest) (ps rest : List String) (r : History × Next)
    (h' : History)
    → ((h : History)
        → reached env req ps h ≡ some h'
        → site_loop env req (ps ++ rest) h ≡ site_loop env req rest h')
    → went_on (reached env req ps) r ≡ some h'
    → continued (site_loop env req (ps ++ rest)) r ≡ site_loop env req rest h'
unfolding went_on continued
loop-went_on env req ps rest (h, go_on) h' ih e = ih h e
loop-went_on env req ps rest (h, return_nil) h' ih e = cc
loop-went_on env req ps rest (h, return_error x) h' ih e = cc

loop-append :
    (env : Env) (req : RbdReplicationRequest) (ps rest : List String) (h h' : History)
    → reached env req ps h ≡ some h'
    → site_loop env req (ps ++ rest) h ≡ site_loop env req rest h'
unfolding site_loop reached
loop-append env req [] rest h h' e = ap (site_loop env req rest) (some_inj e)
  where
    some_inj : {x y : History} → some x ≡ some y → x ≡ y
    some_inj e = cc
loop-append env req (p ∷ ps) rest h h' e =
    loop-went_on env req ps rest (site_round env req p h) h'
      (λ t k. loop-append env req ps rest t h' k) e

demoted-failed :
    (r : History × Option ReplicationError) (e : ReplicationError)
    → r.1 ≡ some e
    → demoted_or r ≡ (r.0, return_nil)
unfolding demoted_or
demoted-failed (h, none) e same = cc
demoted-failed (h, some x) e same = refl

round-failed :
    (env : Env) (req : RbdReplicationRequest) (p : String)
    (m : Result String (PoolStatus × PoolInfo)) (h : History) (e : ReplicationError)
    → req.request_type ≡ known demote_replication
    → eligible req m ≡ true
    → (handle_pool_demotion env p h).1 ≡ some e
    → site_round_on env req p m h ≡ ((handle_pool_demotion env p h).0, return_nil)
unfolding site_round_on acted demote_round
round-failed env req p (err message) h e demote part failed = cc
round-failed env req p (ok found) h e demote part failed =
    ground (arith, demoted-failed (handle_pool_demotion env p h) e failed)

site-swallowed :
    (env : Env) (req : RbdReplicationRequest) (before after : List String) (p : String)
    (h h' : History) (e : ReplicationError)
    → req.request_type ≡ known demote_replication
    → list_pools env.pools ≡ before ++ p ∷ after
    → reached env req before h ≡ some h'
    → eligible req (get_mirror_pool_metadata env p) ≡ true
    → (handle_pool_demotion env p h').1 ≡ some e
    → handle_site_op env req h ≡ ((handle_pool_demotion env p h').0, none)
unfolding handle_site_op
site-swallowed env req before after p h h' e demote pools going part failed =
    ap (λ ps. site_loop env req ps h) pools
    ∙ loop-append env req before (p ∷ after) h h' going
    ∙ unfold site_loop site_round continued in
      ap (continued (site_loop env req after))
        (round-failed env req p (get_mirror_pool_metadata env p) h' e demote part failed)

handled-demotes :
    (env : Env) (rh : RbdReplicationHandler) (state : ReplicationState) (h : History)
    → rh.request.is_force_op ≡ true
    → state ≢ invalid
    → handled (rbd_handler env rh) demote_replication (ok state) h ≡ handle_site_op env rh.request h
unfolding handled fired transition rbd_handler demote_handler
handled-demotes env rh disabled h force valid = rw force refl
handled-demotes env rh enabled h force valid = rw force refl
handled-demotes env rh invalid h force valid = absurd (valid refl)

request-demotes :
    (env : Env) (rh : RbdReplicationHandler) (h : History)
    → rh.request.is_force_op ≡ true
    → get_resource_state rh ≢ invalid
    → handle_replication_request (rbd_handler env rh) (known demote_replication) h
      ≡ handle_site_op env rh.request h
unfolding handle_replication_request event_of rbd_handler get_resource_state
request-demotes env rh h force valid = handled-demotes env rh (get_resource_state rh) h force valid

-- A forced request to demote the site, once it reaches a mirrored pool whose demotion or resync
-- fails, reports success, and leaves the pools behind that one as they are, whichever they are.
pub demotion-swallowed :
    (env : Env) (rh : RbdReplicationHandler) (before after : List String) (p : String)
    (h h' : History) (e : ReplicationError)
    → rh.request.request_type ≡ known demote_replication
    → rh.request.is_force_op ≡ true
    → get_resource_state rh ≢ invalid
    → list_pools env.pools ≡ before ++ p ∷ after
    → reached env rh.request before h ≡ some h'
    → eligible rh.request (get_mirror_pool_metadata env p) ≡ true
    → (handle_pool_demotion env p h').1 ≡ some e
    → handle_replication_request (rbd_handler env rh) rh.request.request_type h
      ≡ ((handle_pool_demotion env p h').0, none)
demotion-swallowed env rh before after p h h' e demote force valid pools going part failed =
    ap (λ r. handle_replication_request (rbd_handler env rh) r h) demote
    ∙ request-demotes env rh h force valid
    ∙ site-swallowed env rh.request before after p h h' e demote pools going part failed
