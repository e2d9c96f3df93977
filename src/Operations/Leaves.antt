-- ===== src/Operations/Leaves.antt =====
-- What the removal of a member leaves: microceph/ceph/remove.go.
use microceph.Prelude.{
  ◌≤◌, String, List, [], ◌∷◌, Bool, true, false, Option, none, some, ◌≡◌, ◌≢◌, refl, sym, ap, subst,
  ◌∙◌, ◌==◌, string_eq, Bool-cases, inl, inr, All, Occurs, arith, if◌then◌else◌,
}
use microceph.Operations.{Service, found, ensure_non_osd_svc_enough}
use microceph.Operations.Removal.{
  Cluster, RemovalError, disks_checked, member_checked, check_prerequisites, same_row, delete_row,
  Deleted, tried, delete_services, joined, when_read, when_checked, delete_node_services, unforced,
  remove_node,
}

same_row-eq : (a b : Service) → same_row a b ≡ true → a ≡ b
same_row-eq a b h =
    ground (arith, string_eq.beq_iff a.service b.service, string_eq.beq_iff a.location b.location)

same_row_refl : (a : Service) → same_row a a ≡ true
same_row_refl a =
    ground (arith, string_eq.beq_iff a.service a.service, string_eq.beq_iff a.location a.location)

delete_row-sub :
    (s x : Service) (rows : List Service) → Occurs x (delete_row s rows) → Occurs x rows
unfolding delete_row
delete_row-sub s x [] h = h
delete_row-sub s x (r ∷ rs) h = by_test (delete_row-sub s x rs) (same_row s r) h
  where
    by_test :
        (Occurs x (delete_row s rs) → Occurs x rs)
        → (b : Bool) → Occurs x (if b then delete_row s rs else r ∷ delete_row s rs)
        → Occurs x (r ∷ rs)
    by_test further true k = inr (further k)
    by_test further false (inl e) = inl e
    by_test further false (inr k) = inr (further k)

delete_row-ne : (s x : Service) (rows : List Service) → Occurs x (delete_row s rows) → x ≢ s
unfolding delete_row
delete_row-ne s x [] h e = absurd h
delete_row-ne s x (r ∷ rs) h e = by_test (λ k. delete_row-ne s x rs k e) (same_row s r) refl h
  where
    by_test :
        (¬ Occurs x (delete_row s rs))
        → (b : Bool) → same_row s r ≡ b
        → Occurs x (if b then delete_row s rs else r ∷ delete_row s rs)
        → ⊥
    by_test further true same k = further k
    by_test further false differ (inl same) =
        cc (subst (λ t. same_row s t ≡ true) (sym (same ∙ e)) (same_row_refl s))
    by_test further false differ (inr k) = further k

found-delete_row :
    (kind name : String) (s : Service) (rows : List Service)
    → (s.location == name) ≡ true
    → found kind name (delete_row s rows) ≡ found kind name rows
unfolding found delete_row
found-delete_row kind name s [] h = refl
found-delete_row kind name s (r ∷ rs) h = elim (Bool-cases (same_row s r)) [
  | inl e ↦ rw e (
      ground (
        arith,
        found-delete_row kind name s rs h,
        ap (λ (t : Service). t.location == name) (same_row-eq s r e),
      ))
  | inr e ↦ rw (e, found) (ground (arith, found-delete_row kind name s rs h))
]

module _ (deletion : Service → Option String) (name : String) where
  found-delete_services :
      (kind : String) (ss rows : List Service)
      → found kind name (delete_services deletion name ss rows).0 ≡ found kind name rows
  unfolding delete_services tried
  found-delete_services kind [] rows = refl
  found-delete_services kind (s ∷ ss) rows = elim (Bool-cases (s.location == name)) [
    | inr e ↦ rw e (found-delete_services kind ss rows)
    | inl e ↦ rw e (by_answer (λ rows. found-delete_services kind ss rows) (deletion s) e)
  ]
    where
      by_answer :
          ((t : List Service)
            → found kind name (delete_services deletion name ss t).0 ≡ found kind name t)
          → (o : Option String) → (s.location == name) ≡ true
          → found kind name (tried s o (delete_services deletion name ss) rows).0
            ≡ found kind name rows
      by_answer further none here =
          further (delete_row s rows) ∙ found-delete_row kind name s rows here
      by_answer further (some x) here = further rows

  delete_services-sub :
      (x : Service) (ss rows : List Service)
      → Occurs x (delete_services deletion name ss rows).0
      → Occurs x rows
  unfolding delete_services tried
  delete_services-sub x [] rows h = h
  delete_services-sub x (s ∷ ss) rows h =
      by_test (λ t k. delete_services-sub x ss t k) (s.location == name) (deletion s) h
    where
      by_test :
          ((t : List Service) → Occurs x (delete_services deletion name ss t).0 → Occurs x t)
          → (b : Bool) (o : Option String)
          → Occurs x
              (if b
                then tried s o (delete_services deletion name ss) rows
                else delete_services deletion name ss rows).0
          → Occurs x rows
      by_test further false o k = further rows k
      by_test further true (some e) k = further rows k
      by_test further true none k = delete_row-sub s x rows (further (delete_row s rows) k)

  delete_services-ne :
      (x y : Service) (ss rows : List Service)
      → Occurs y ss
      → (y.location == name) ≡ true
      → (delete_services deletion name ss rows).1 ≡ []
      → Occurs x (delete_services deletion name ss rows).0
      → x ≢ y
  unfolding delete_services tried
  delete_services-ne x y [] rows q at clean h e = absurd q
  delete_services-ne x y (s ∷ ss) rows q at clean h e =
      by_test (λ t p c k. delete_services-ne x y ss t p at c k e) (s.location == name) (deletion s)
        refl q clean h
    where
      by_test :
          ((t : List Service)
            → Occurs y ss
            → (delete_services deletion name ss t).1 ≡ []
            → ¬ Occurs x (delete_services deletion name ss t).0)
          → (b : Bool) (o : Option String) → (s.location == name) ≡ b
          → Occurs y (s ∷ ss)
          → (if b
              then tried s o (delete_services deletion name ss) rows
              else delete_services deletion name ss rows).1
            ≡ []
          → Occurs x
              (if b
                then tried s o (delete_services deletion name ss) rows
                else delete_services deletion name ss rows).0
          → ⊥
      by_test rest false o there (inr p) c k = rest rows p c k
      by_test rest false o there (inl same) c k =
          cc (subst (λ t. (t.location == name) ≡ true) (sym same) at)
      by_test rest true (some f) there p c k = cc
      by_test rest true none there (inr p) c k = rest (delete_row s rows) p c k
      by_test rest true none there (inl same) c k =
          delete_row-ne s x rows (delete_services-sub x ss (delete_row s rows) k) (e ∙ sym same)

All-of {ℓ} : {A : Type 0} (P : A → Type ℓ) (xs : List A) → ((x : A) → Occurs x xs → P x) → All P xs
All-of P [] f = tt
All-of P (x ∷ xs) f = (f x (inl refl), All-of P xs (λ y q. f y (inr q)))

prerequisites-enough :
    (cluster : Cluster) (name : String) (services : List Service)
    → check_prerequisites cluster name services ≡ none
    → ensure_non_osd_svc_enough services name 3 1 1 ≡ none
unfolding check_prerequisites member_checked disks_checked
prerequisites-enough cluster name services h = ground arith

joined-none : (r : Deleted) → (joined r).1 ≡ none → (r.1 ≡ []) × ((joined r).0 ≡ r.0)
unfolding joined
joined-none (rows, []) h = (refl, refl)
joined-none (rows, s ∷ ss) h = cc

-- No service of the node is left in the table, and the others are as many as before.
abbrev Leaves : String → List Service → List Service → Type 0
Leaves name before after =
    All (λ r. r.location ≢ name) after
    × ((kind : String) → found kind name after ≡ found kind name before)

deleted-Leaves :
    (deletion : Service → Option String) (name : String) (services : List Service)
    → (delete_services deletion name services services).1 ≡ []
    → Leaves name services (delete_services deletion name services services).0
deleted-Leaves deletion name services clean =
    let last = (delete_services deletion name services services).0 in
    (
      All-of (λ (r : Service). r.location ≢ name) last
          (λ x q at.
            delete_services-ne deletion name x x services services
              (delete_services-sub deletion name x services services q)
              ((string_eq.beq_iff x.location name).1 at) clean q refl),
      λ kind. found-delete_services deletion name kind services services,
    )

read-Leaves :
    (deletion : Service → Option String) (name : String) (services : List Service)
    (second : Option String)
    → (when_read deletion name services second).1 ≡ none
    → Leaves name services (when_read deletion name services second).0
unfolding when_read
read-Leaves deletion name services (some e) h = cc
read-Leaves deletion name services none h =
    let (clean, same) = joined-none (delete_services deletion name services services) h in
    subst (Leaves name services) (sym same) (deleted-Leaves deletion name services clean)

unforced-same : (r : List Service × Option RemovalError) → unforced false r ≡ r
unfolding unforced
unforced-same (rows, o) = refl

checked-Leaves :
    (cluster : Cluster) (name : String) (services : List Service) (o : Option RemovalError)
    → (when_checked cluster name false services o).1 ≡ none
    → Leaves name services (when_checked cluster name false services o).0 × (o ≡ none)
unfolding when_checked delete_node_services
checked-Leaves cluster name services (some e) h = cc
checked-Leaves cluster name services none h =
    let same = unforced-same (when_read cluster.deletion name services cluster.second_read) in
    (
      subst (λ r. Leaves name services r.0) (sym same)
          (read-Leaves cluster.deletion name services cluster.second_read
            (ap (λ r. r.1) (sym same) ∙ h)),
      refl,
    )

-- A removal that succeeds without force leaves no service of the node in the table, and at least
-- three monitors, a manager and a metadata server on other nodes.
pub remove_node-leaves :
    (cluster : Cluster) (name : String) (services : List Service)
    → (remove_node cluster name false services).1 ≡ none
    → All (λ r. r.location ≢ name) (remove_node cluster name false services).0
      × (3 ≤ found "mon" name (remove_node cluster name false services).0)
      × (1 ≤ found "mgr" name (remove_node cluster name false services).0)
      × (1 ≤ found "mds" name (remove_node cluster name false services).0)
unfolding remove_node ensure_non_osd_svc_enough
remove_node-leaves cluster name services h =
    let checks = check_prerequisites cluster name services in
    let (leaves, passed) = checked-Leaves cluster name services checks h in
    let enough = prerequisites-enough cluster name services passed in
    let kept = leaves.1 in
    (
      leaves.0,
      ground (arith, kept "mon", enough),
      ground (arith, kept "mgr", enough),
      ground (arith, kept "mds", enough),
    )
