-- ===== src/Replication/Promotion.antt =====
-- What a promotion of a site does: handleSiteOp of microceph/ceph/replication_rbd.go.
use microceph.Prelude.{
  ◌⊎◌, string_eq, String, List, [], ◌∷◌, Bool, true, false, Option, none, ◌≡◌, ◌≢◌, refl, subst,
  sym, ◌∙◌, ap, Bool-cases, inl, inr, Result, ok, err, arith, if◌then◌else◌,
}
use microceph.Replication.{known, promote_replication, ReplicationError}
use microceph.Replication.Rbd.{
  list_pools, PoolInfo, PoolStatus, RbdReplicationRequest, MirrorCall, promote_pool, History, Env,
}
use microceph.Replication.Mirrored.{
  eligible, scanned, list_pools-scanned, IsMirrored, eligible-IsMirrored, IsMirrored-eligible,
}
use microceph.Replication.Site.{
  Next, go_on, return_nil, return_error, promoted_or, promote_round, acted, site_round_on,
  site_round, continued, site_loop, handle_site_op, get_mirror_pool_metadata,
}

-- The promotions that are due, in the order of the pools.
unfoldable pub due : Env → RbdReplicationRequest → List String → List MirrorCall
due env req [] = []
due env req (p ∷ ps) =
    let rest = due env req ps in
    if eligible req (get_mirror_pool_metadata env p)
    then promote_pool p req.is_force_op ∷ rest
    else rest

-- The history after further calls, and that each of them succeeds when it is made.
abbrev pub after_calls : List MirrorCall → History → History
after_calls [] history = history
after_calls (c ∷ cs) history = after_calls cs (c ∷ history)

abbrev pub Succeed : Env → List MirrorCall → History → Type 0
Succeed env [] history = Unit
Succeed env (c ∷ cs) history = (env.answer history c ≡ none) × Succeed env cs (c ∷ history)

abbrev Promotes : Env → List MirrorCall → History → History → Type 0
Promotes env calls before last = (last ≡ after_calls calls before) × Succeed env calls before

continued-go_on :
    (rest : History → History × Option ReplicationError) (r : History × Next)
    → r.1 ≢ return_nil
    → (continued rest r).1 ≡ none
    → (r.1 ≡ go_on) × (continued rest r ≡ rest r.0)
unfolding continued
continued-go_on rest (h, go_on) no_nil ended = (refl, refl)
continued-go_on rest (h, return_nil) no_nil ended = absurd (no_nil refl)
continued-go_on rest (h, return_error e) no_nil ended = cc

-- One round of a promotion: nothing for a pool that takes no part, and else one promotion.
round-eligible :
    (env : Env) (req : RbdReplicationRequest) (p : String)
    (m : Result String (PoolStatus × PoolInfo)) (h : History)
    → req.request_type ≡ known promote_replication
    → (site_round_on env req p m h).1 ≡ go_on
    → (eligible req m ≡ true)
    → ((site_round_on env req p m h).0 ≡ promote_pool p req.is_force_op ∷ h)
      × (env.answer h (promote_pool p req.is_force_op) ≡ none)
unfolding site_round_on acted promote_round promoted_or
round-eligible env req p (err message) h promote going part = cc
round-eligible env req p (ok found) h promote going part = ground arith

round-idle :
    (env : Env) (req : RbdReplicationRequest) (p : String)
    (m : Result String (PoolStatus × PoolInfo)) (h : History)
    → (site_round_on env req p m h).1 ≡ go_on
    → (eligible req m ≡ false)
    → (site_round_on env req p m h).0 ≡ h
unfolding site_round_on
round-idle env req p (err message) h going part = cc
round-idle env req p (ok found) h going part = ground arith

round-ne_nil :
    (env : Env) (req : RbdReplicationRequest) (p : String)
    (m : Result String (PoolStatus × PoolInfo)) (h : History)
    → req.request_type ≡ known promote_replication
    → (site_round_on env req p m h).1 ≢ return_nil
unfolding site_round_on acted promote_round promoted_or
round-ne_nil env req p (err message) h promote e = cc
round-ne_nil env req p (ok found) h promote e = ground arith

module _ (env : Env) (req : RbdReplicationRequest)
    (promote : req.request_type ≡ known promote_replication) where
  loop-Promotes :
      (ps : List String) (h : History)
      → (site_loop env req ps h).1 ≡ none
      → Promotes env (due env req ps) h (site_loop env req ps h).0
  unfolding site_loop due site_round
  loop-Promotes [] h ended = (refl, tt)
  loop-Promotes (p ∷ ps) h ended =
      let m = get_mirror_pool_metadata env p in
      let c = promote_pool p req.is_force_op in
      let round = site_round_on env req p m h in
      let (going, same) =
        continued-go_on (site_loop env req ps) round (round-ne_nil env req p m h promote) ended in
      let later =
        loop-Promotes ps round.0
          (ap (λ (r : History × Option ReplicationError). r.1) (sym same) ∙ ended) in
      subst
        (λ (r : History × Option ReplicationError).
          Promotes env (if eligible req m then c ∷ due env req ps else due env req ps) h r.0)
        (sym same)
        (elim (Bool-cases (eligible req m)) [
          | inl e ↦
              let (moved, answered) = round-eligible env req p m h promote going e in
              let after : Promotes env (due env req ps) (c ∷ h) (site_loop env req ps round.0).0 =
                subst (λ t. Promotes env (due env req ps) t (site_loop env req ps round.0).0) moved
                  later in
              rw e (after.0, (answered, after.1))
          | inr e ↦ rw e (
              subst (λ t. Promotes env (due env req ps) t (site_loop env req ps round.0).0)
                (round-idle env req p m h going e) later)
        ])

-- The promotions of exactly the mirrored pools among the names, in their order.
abbrev pub Due : Env → RbdReplicationRequest → List String → List MirrorCall → Type 0
Due env req [] calls = calls ≡ []
Due env req (p ∷ ps) calls =
    (IsMirrored req (get_mirror_pool_metadata env p)
      × (rest : List MirrorCall) × (calls ≡ promote_pool p req.is_force_op ∷ rest)
      × Due env req ps rest)
    ⊎ ((IsMirrored req (get_mirror_pool_metadata env p) → ⊥) × Due env req ps calls)

one_more_name :
    (env : Env) (req : RbdReplicationRequest) (p : String) (ps : List String)
    (calls : List MirrorCall) (b : Bool)
    → eligible req (get_mirror_pool_metadata env p) ≡ b
    → Due env req ps calls
    → Due env req (p ∷ ps) (if b then promote_pool p req.is_force_op ∷ calls else calls)
one_more_name env req p ps calls true h later =
    inl (eligible-IsMirrored req (get_mirror_pool_metadata env p) h, calls, refl, later)
one_more_name env req p ps calls false h later =
    inr ((λ m. let part = IsMirrored-eligible req (get_mirror_pool_metadata env p) m in cc), later)

due-Due :
    (env : Env) (req : RbdReplicationRequest) (ps : List String) → Due env req ps (due env req ps)
unfolding due
due-Due env req [] = refl
due-Due env req (p ∷ ps) =
    one_more_name env req p ps (due env req ps) (eligible req (get_mirror_pool_metadata env p)) refl
      (due-Due env req ps)

-- What a promotion of the site has added to the history.
abbrev pub PromotesMirrored : Env → RbdReplicationRequest → History → History → Type 0
PromotesMirrored env req before last =
    (calls : List MirrorCall) × Due env req (scanned env.pools) calls
    × (last ≡ after_calls calls before)
    × Succeed env calls before

-- A promotion of the site that succeeds has promoted, successfully and in order, exactly those among
-- the pools with the application that read as mirrored and have a peer of the request's remote, and
-- has called nothing else; a pool whose status or peers cannot be had reads as not mirrored, and a
-- list of pools that cannot be had as empty. For every pool without the application the empty name is
-- treated as another pool behind these.
pub site_op-promotes :
    (env : Env) (req : RbdReplicationRequest) (h : History)
    → req.request_type ≡ known promote_replication
    → (handle_site_op env req h).1 ≡ none
    → PromotesMirrored env req h (handle_site_op env req h).0
unfolding handle_site_op
site_op-promotes env req h promote ended =
    let names = list_pools env.pools in
    let (same, answered) = loop-Promotes env req promote names h ended in
    (
      due env req names,
      subst (λ ns. Due env req ns (due env req names)) (list_pools-scanned env.pools)
          (due-Due env req names),
      same,
      answered,
    )
