-- ===== src/Scenario/Selectors/Fresh.antt =====
-- What a renaming does to the usages of the old and of the new name.
use ocs_testbench.Common.{
  ℕ, ◌+◌, ◌≡◌, ◌≢◌, refl, ap, String, false, ◌||◌, List, [], ◌∷◌, ◌++◌, Option, none, some, map,
  opt_is, str_eq, eq_iff, append-eq-nil_iff, arith,
}
use ocs_testbench.Common.Objects.{insert, has_key, has_key-insert}
use ocs_testbench.Scenario.{
  VarValue, AvpInfo, AvpNode, leaf, group, AvpTree, nil, cons, Service, ScenarioStep, Scenario,
}
use ocs_testbench.Scenario.Selectors.{
  rating_group, service_identifier, requested_units, used_units, own_usage, node_usages,
  tree_usages, field_usage, service_usages, overrides_name, step_usages, find_usages, rename_field,
  rename_required, rename_info, rename_avp_node, rename_avp_tree, rename_service, rename_entries,
  rename_overrides, has_override, rename_step, rename_usages, avp_ref, ServiceField,
}

module _ (old_name new_name : String) (ne : old_name ≢ new_name) where
  opt_is-rename_field_old :
      (v : Option String) → opt_is (rename_field old_name new_name v) old_name ≡ false
  opt_is-rename_field_old none = refl
  opt_is-rename_field_old (some v) = ground (arith, eq_iff v old_name, eq_iff new_name old_name)

  opt_is-rename_field_new :
      (v : Option String)
      → opt_is (rename_field old_name new_name v) new_name
        ≡ (opt_is v old_name || opt_is v new_name)
  opt_is-rename_field_new none = refl
  opt_is-rename_field_new (some v) =
      ground (arith, eq_iff v old_name, eq_iff v new_name, eq_iff new_name new_name)

  own_usage-rename_old :
      (p : List ℕ) (inf : AvpInfo) → own_usage old_name p (rename_info old_name new_name inf) ≡ []
  own_usage-rename_old p inf = rw (opt_is-rename_field_old inf.value_ref)

  field_usage-rename_old :
      (i : ℕ) (id : String) (f : ServiceField) (v : Option String)
      → field_usage old_name i id f (rename_field old_name new_name v) ≡ []
  field_usage-rename_old i id f v = rw (opt_is-rename_field_old v)

  mutual
    unfolding node_usages tree_usages rename_avp_node rename_avp_tree

    node_usages-rename_old :
        (n : AvpNode) (p : List ℕ)
        → node_usages old_name p (rename_avp_node old_name new_name n) ≡ []
    node_usages-rename_old (leaf inf) p = own_usage-rename_old p inf
    node_usages-rename_old (group inf kids) p =
        rw (own_usage-rename_old p inf) (tree_usages-rename_old kids p 0)

    tree_usages-rename_old :
        (t : AvpTree) (p : List ℕ) (i : ℕ)
        → tree_usages old_name p i (rename_avp_tree old_name new_name t) ≡ []
    tree_usages-rename_old nil p i = refl
    tree_usages-rename_old (cons n ns) p i =
        rw (node_usages-rename_old n (p ++ i ∷ [])) (tree_usages-rename_old ns p (i + 1))

  required-rename_old :
      (i : ℕ) (id : String) (f : ServiceField) (v : String)
      → field_usage old_name i id f (some (rename_required old_name new_name v)) ≡ []
  required-rename_old i id f v = ground (arith, eq_iff v old_name, eq_iff new_name old_name)

  service_usages-rename_old :
      (i : ℕ) (svcs : List Service)
      → service_usages old_name i (map (rename_service old_name new_name) svcs) ≡ []
  unfolding service_usages rename_service
  service_usages-rename_old i [] = refl
  service_usages-rename_old i (svc ∷ svcs) = simp (
    field_usage-rename_old i svc.id,
    required-rename_old i svc.id requested_units svc.requested_units,
    service_usages-rename_old (i + 1) svcs,
  )

  has_key-rename_entries_old :
      (next m : List (String × VarValue))
      → has_key old_name next ≡ false
      → has_key old_name (rename_entries old_name new_name next m) ≡ false
  unfolding rename_entries
  has_key-rename_entries_old next [] h = h
  has_key-rename_entries_old next ((k, v) ∷ m) h =
      has_key-rename_entries_old (insert (rename_required old_name new_name k) v next) m (
        ground (
          arith,
          has_key-insert (rename_required old_name new_name k) old_name v next,
          eq_iff k old_name,
          eq_iff new_name old_name,
        ))

  has_key-rename_entries_new :
      (next m : List (String × VarValue))
      → has_key new_name (rename_entries old_name new_name next m)
        ≡ (has_key new_name next || (has_key old_name m || has_key new_name m))
  unfolding rename_entries has_key
  has_key-rename_entries_new next [] = ground arith
  has_key-rename_entries_new next ((k, v) ∷ m) = ground (
    arith,
    has_key-rename_entries_new (insert (rename_required old_name new_name k) v next) m,
    has_key-insert (rename_required old_name new_name k) new_name v next,
    eq_iff k old_name,
    eq_iff new_name new_name,
    eq_iff k new_name,
  )

  has_override-rename_old :
      (o : Option (List (String × VarValue)))
      → has_override (rename_overrides old_name new_name o) old_name ≡ false
  unfolding has_key
  has_override-rename_old none = refl
  has_override-rename_old (some m) = has_key-rename_entries_old [] m refl

  has_override-rename_new :
      (o : Option (List (String × VarValue)))
      → has_override (rename_overrides old_name new_name o) new_name
        ≡ (has_override o old_name || has_override o new_name)
  unfolding has_key
  has_override-rename_new none = refl
  has_override-rename_new (some m) = has_key-rename_entries_new [] m

  overrides_name-rename_step_old :
      (s : ScenarioStep) → overrides_name (rename_step old_name new_name s) old_name ≡ false
  unfolding rename_step
  overrides_name-rename_step_old s = ground (arith, has_override-rename_old s.overrides)

  overrides_name-rename_step_new :
      (s : ScenarioStep)
      → overrides_name (rename_step old_name new_name s) new_name
        ≡ (overrides_name s old_name || overrides_name s new_name)
  unfolding rename_step
  overrides_name-rename_step_new s = ground (arith, has_override-rename_new s.overrides)

  step_usages-rename_old :
      (i : ℕ) (ss : List ScenarioStep)
      → step_usages old_name i (map (rename_step old_name new_name) ss) ≡ []
  unfolding step_usages
  step_usages-rename_old i [] = refl
  step_usages-rename_old i (s ∷ ss) =
      rw (overrides_name-rename_step_old s) (step_usages-rename_old (i + 1) ss)

  rename_usages_ne :
      (s : Scenario)
      → rename_usages s old_name new_name ≡ record s {
        avp_tree = rename_avp_tree old_name new_name s.avp_tree;
        services = map (rename_service old_name new_name) s.services;
        steps = map (rename_step old_name new_name) s.steps;
      }
  unfolding rename_usages
  rename_usages_ne s =
      let differ : str_eq old_name new_name ≡ false = ground (arith, eq_iff old_name new_name) in
      rw differ

  -- Renaming to another name leaves no reference to the old one, in the AVP tree, in the services
  -- or in the steps' overrides.
  pub find_usages-rename_old :
      (s : Scenario) → find_usages (rename_usages s old_name new_name) old_name ≡ []
  unfolding find_usages
  find_usages-rename_old s = rw (rename_usages_ne s) (
      rw (tree_usages-rename_old s.avp_tree [] 0, service_usages-rename_old 0 s.services)
        (step_usages-rename_old 0 s.steps))

  own_usage-rename_new :
      (p : List ℕ) (inf : AvpInfo)
      → own_usage new_name p inf ≡ []
      → own_usage new_name p (rename_info old_name new_name inf) ≡ own_usage old_name p inf
  unfolding avp_ref
  own_usage-rename_new p inf h = ground (arith, opt_is-rename_field_new inf.value_ref)

  field_usage-rename_new :
      (i : ℕ) (id : String) (f : ServiceField) (v : Option String)
      → field_usage new_name i id f v ≡ []
      → field_usage new_name i id f (rename_field old_name new_name v)
        ≡ field_usage old_name i id f v
  field_usage-rename_new i id f v h = ground (arith, opt_is-rename_field_new v)

  required-rename_new :
      (i : ℕ) (id : String) (f : ServiceField) (v : String)
      → field_usage new_name i id f (some v) ≡ []
      → field_usage new_name i id f (some (rename_required old_name new_name v))
        ≡ field_usage old_name i id f (some v)
  required-rename_new i id f v h = ground (arith, eq_iff v old_name, eq_iff new_name new_name)

  mutual
    unfolding node_usages tree_usages rename_avp_node rename_avp_tree

    node_usages-rename_new :
        (n : AvpNode) (p : List ℕ)
        → node_usages new_name p n ≡ []
        → node_usages new_name p (rename_avp_node old_name new_name n) ≡ node_usages old_name p n
    node_usages-rename_new (leaf inf) p h = own_usage-rename_new p inf h
    node_usages-rename_new (group inf kids) p h =
        let (own, below) =
          (append-eq-nil_iff (own_usage new_name p inf) (tree_usages new_name p 0 kids)).0 h in
        cc (own_usage-rename_new p inf own, tree_usages-rename_new kids p 0 below)

    tree_usages-rename_new :
        (t : AvpTree) (p : List ℕ) (i : ℕ)
        → tree_usages new_name p i t ≡ []
        → tree_usages new_name p i (rename_avp_tree old_name new_name t)
          ≡ tree_usages old_name p i t
    tree_usages-rename_new nil p i h = refl
    tree_usages-rename_new (cons n ns) p i h =
        let (here, rest) =
          (append-eq-nil_iff (node_usages new_name (p ++ i ∷ []) n)
              (tree_usages new_name p (i + 1) ns)).0
            h in
        cc (node_usages-rename_new n (p ++ i ∷ []) here, tree_usages-rename_new ns p (i + 1) rest)

  service_usages-rename_new :
      (i : ℕ) (svcs : List Service)
      → service_usages new_name i svcs ≡ []
      → service_usages new_name i (map (rename_service old_name new_name) svcs)
        ≡ service_usages old_name i svcs
  unfolding service_usages rename_service
  service_usages-rename_new i [] h = refl
  service_usages-rename_new i (svc ∷ svcs) h =
      let (h1, t1) =
        (append-eq-nil_iff (field_usage new_name i svc.id rating_group svc.rating_group) _).0 h in
      let (h2, t2) =
        (append-eq-nil_iff (field_usage new_name i svc.id service_identifier svc.service_identifier)
            _).0
          t1 in
      let (h3, t3) =
        (append-eq-nil_iff
            (field_usage new_name i svc.id requested_units (some svc.requested_units)) _).0
          t2 in
      let (h4, t4) =
        (append-eq-nil_iff (field_usage new_name i svc.id used_units svc.used_units) _).0 t3 in
      simp (
        field_usage-rename_new i svc.id rating_group svc.rating_group h1,
        field_usage-rename_new i svc.id service_identifier svc.service_identifier h2,
        required-rename_new i svc.id requested_units svc.requested_units h3,
        field_usage-rename_new i svc.id used_units svc.used_units h4,
        service_usages-rename_new (i + 1) svcs t4,
      )

  step_usages-rename_new :
      (i : ℕ) (ss : List ScenarioStep)
      → step_usages new_name i ss ≡ []
      → step_usages new_name i (map (rename_step old_name new_name) ss) ≡ step_usages old_name i ss
  unfolding step_usages
  step_usages-rename_new i [] h = refl
  step_usages-rename_new i (s ∷ ss) h =
      ground (arith, overrides_name-rename_step_new s, step_usages-rename_new (i + 1) ss)

  -- Renaming to a name that the scenario does not refer to carries every usage over: the new name
  -- is then used exactly where the old one was, in the same order.
  pub find_usages-rename_new :
      (s : Scenario)
      → find_usages s new_name ≡ []
      → find_usages (rename_usages s old_name new_name) new_name ≡ find_usages s old_name
  unfolding find_usages
  find_usages-rename_new s h =
      let (tree, more) = (append-eq-nil_iff (tree_usages new_name [] 0 s.avp_tree) _).0 h in
      let (svcs, steps) =
        (append-eq-nil_iff (service_usages new_name 0 s.services)
            (step_usages new_name 0 s.steps)).0
          more in
      rw (rename_usages_ne s) (
        rw
          (tree_usages-rename_new s.avp_tree [] 0 tree, service_usages-rename_new 0 s.services svcs)
          (ap
            (λ l.
              tree_usages old_name [] 0 s.avp_tree ++ (service_usages old_name 0 s.services ++ l))
            (step_usages-rename_new 0 s.steps steps)))
