-- ===== src/Service/Replicas/Links.antt =====
-- What handleSCReplica checks before it asks for a replica.
use infinibox_csi_driver.Prelude.{
  ℕ, zero, suc, ◌≡◌, refl, Bool, true, false, Option, List, ◌∷◌, any, is_empty, if◌then◌else◌,
}
use infinibox_csi_driver.Prelude.Int.{ℤ}
use infinibox_csi_driver.Strings.{Str, lit, str_eq}
use infinibox_csi_driver.Exec.{
  Answer, ok, err, plain_error, pure, throw, from_answer, or_fail, ◌>>◌, ◌>>=◌,
}
use infinibox_csi_driver.Params.{Params, value}
use infinibox_csi_driver.Ibox.{Call, Link, ConsistencyGroup, RemoteFields, Env, History}
use infinibox_csi_driver.Ibox.Client.{M}
use infinibox_csi_driver.Cluster.{build_client, get_secret, create_replica, create_group_change}
use infinibox_csi_driver.Ibox.Safety.{Once, now, before, Always, through-bind, through-answer}
use infinibox_csi_driver.Cluster.{Cluster}
use infinibox_csi_driver.Service.Replicas.{
  found_group, verify_group, verify_link, remote_pool, must_have, creates_claim, handle_create_pvc,
  replica_types, kubeconfig_exists, claim_fields, make_replica, requested_replica, handle_replica,
  same_error, replica_request, group_request,
}

module _ (k : Cluster) (env : Env) (volume protocol : Str) (params : Params) where
  abbrev link : Str
  link = value params (lit "link_remote_system_name")

  -- The call listed the links of the appliance, and the StorageClass's is one of them.
  abbrev pub ReadLink : History → Call → Type 0
  ReadLink h c =
      (links : List Link) × (c ≡ Call.get_links)
      × (env.get_links h ≡ ok links)
      × (any
            (λ (l : Link).
              str_eq l.remote_system_name (value params (lit "link_remote_system_name")))
            links
          ≡ true)

  -- A replica, or a change of a consistency group, is asked for only after that.
  abbrev pub IsLinkChecked : History → Call → Type 0
  IsLinkChecked h (Call.create_replica r) = Once ReadLink h
  IsLinkChecked h (Call.create_group_change r) = Once ReadLink h
  IsLinkChecked h _ = Unit

  abbrev Kept : History → Type 0
  Kept h = Always IsLinkChecked h

  abbrev Linked : History → Type 0
  Linked h = Once ReadLink h × Always IsLinkChecked h

  abbrev local_name : Str
  local_name = value params (lit "local_ibox_credential_name")

  abbrev local_namespace : Str
  local_namespace = value params (lit "local_ibox_credential_namespace")

  abbrev from_link : ℤ → M (Unit {0})
  from_link pool = do
    from_answer same_error (must_have params (lit "local_ibox_credential_name"))
    from_answer same_error (must_have params (lit "local_ibox_credential_namespace"))
    or_fail (build_client k) same_error
    or_fail (get_secret k local_name local_namespace) same_error
    creates ← from_answer same_error (creates_claim params)
    fields ← claim_fields k env volume protocol params creates
    make_replica k env volume protocol params pool fields

  kept : (h : History) → Linked h → Kept h
  kept h q = q.1

  -- What is asked for at the end, after the link was checked.
  answered-Kept :
      {A : Type 0} (r : Answer A) (h : History) → Kept h → Kept (from_answer same_error r h).1
  answered-Kept (ok a) h q = q
  answered-Kept (err e) h q = q

  found-Linked :
      (name : Str) (tries : ℕ) (r : Answer ConsistencyGroup) (h : History)
      → Linked h
      → Linked (found_group env tries name r h).1
  unfolding found_group
  found-Linked name tries (ok u) h q = q
  found-Linked name zero (err e) h q = q
  found-Linked name (suc tries) (err e) h q =
      found-Linked name tries (env.get_consistency_group_by_name h name)
        (Call.get_consistency_group_by_name name ∷ h) (before q.0, (tt, q.1))

  made-Kept :
      (pool : ℤ) (fields : Option RemoteFields) (h : History)
      → Linked h
      → Kept (make_replica k env volume protocol params pool fields h).1
  unfolding verify_group
  made-Kept pool fields h q = by_group (is_empty (value params (lit "cg_name")))
    where
      name : Str
      name = value params (lit "cg_name")

      by_group :
          (alone : Bool)
          → Kept
              ((if alone
                  then or_fail
                      (create_replica k (replica_request k env volume protocol params pool fields))
                      same_error
                  else (do
                    verify_group env name
                    or_fail
                        (create_group_change k (group_request k env volume protocol params fields))
                        same_error))
                h).1
      by_group true =
          answered-Kept
            (k.create_replica h (replica_request k env volume protocol params pool fields)) _
            (q.0, q.1)
      by_group false =
          through-bind Linked Kept (verify_group env name) _ h
            (found-Linked name 9 (env.get_consistency_group_by_name h name)
              (Call.get_consistency_group_by_name name ∷ h) (before q.0, (tt, q.1)))
            kept
            (λ u g l.
              answered-Kept
                (k.create_group_change g (group_request k env volume protocol params fields)) _
                (l.0, l.1))

  abbrev kubeconfig_read : RemoteFields → M (Unit {0})
  kubeconfig_read fields = do
    or_fail (get_secret k fields.kubeconfig_name fields.kubeconfig_namespace) same_error
    pure tt

  secret-Linked :
      (fields : RemoteFields) (h : History)
      → Linked h
      → Linked (kubeconfig_exists k env volume protocol params fields h).1
  secret-Linked fields h q = by_name (is_empty fields.kubeconfig_name)
    where
      by_name :
          (unnamed : Bool) → Linked ((if unnamed then pure tt else kubeconfig_read fields) h).1
      by_name true = q
      by_name false =
          through-answer Linked Linked same_error
            (k.get_secret h fields.kubeconfig_name fields.kubeconfig_namespace) _
            (Call.get_secret fields.kubeconfig_name fields.kubeconfig_namespace ∷ h)
            (before q.0, (tt, q.1)) (λ g l. l) (λ s e. (before q.0, (tt, q.1)))

  claimed-Linked :
      (creates : Bool) (h : History)
      → Linked h
      → Linked (claim_fields k env volume protocol params creates h).1
  claimed-Linked false h q = q
  claimed-Linked true h q =
      through-answer Linked Linked same_error (handle_create_pvc params) _ h q (λ g l. l)
        (λ fields e.
          through-bind Linked Linked (kubeconfig_exists k env volume protocol params fields) _ h
            (secret-Linked fields h q) (λ g l. l) (λ u g l. l))

  -- The rest of the handler, once the link was found.
  requested-Kept : (pool : ℤ) (h : History) → Linked h → Kept (from_link pool h).1
  requested-Kept pool h q =
      through-answer Linked Kept same_error (must_have params (lit "local_ibox_credential_name")) _
        h q kept
        (λ u e.
          through-answer Linked Kept same_error
            (must_have params (lit "local_ibox_credential_namespace")) _ h q kept
            (λ u' e'. through-answer Linked Kept same_error (k.build_client h) _ h q kept (λ c e''.
              through-answer Linked Kept same_error (k.get_secret h local_name local_namespace) _
                (Call.get_secret local_name local_namespace ∷ h) (before q.0, (tt, q.1)) kept
                (λ s e3.
                  through-answer Linked Kept same_error (creates_claim params) _
                    (Call.get_secret local_name local_namespace ∷ h) (before q.0, (tt, q.1)) kept
                    (λ creates e4.
                      through-bind Linked Kept (claim_fields k env volume protocol params creates) _
                        (Call.get_secret local_name local_namespace ∷ h)
                        (claimed-Linked creates _ (before q.0, (tt, q.1))) kept
                        (λ fields g l. made-Kept pool fields g l))))))

  abbrev found_link : List Link → M (Unit {0})
  found_link links =
      if any (λ (l : Link). str_eq l.remote_system_name link) links
      then pure tt
      else throw plain_error

  abbrev link_found : Bool → M (Unit {0})
  link_found found = if found then pure tt else throw plain_error

  linked-Kept :
      (pool : ℤ) (r : Answer (List Link)) (h : History)
      → env.get_links h ≡ r
      → Kept h
      → Kept
          (((from_answer same_error r >>= found_link) >>= λ u. from_link pool)
            (Call.get_links ∷ h)).1
  linked-Kept pool (err e) h p q = (tt, q)
  linked-Kept pool (ok links) h p q =
      by_link (any (λ (l : Link). str_eq l.remote_system_name link) links) refl
    where
      by_link :
          (found : Bool)
          → any (λ (l : Link). str_eq l.remote_system_name link) links ≡ found
          → Kept ((link_found found >>= λ u. from_link pool) (Call.get_links ∷ h)).1
      by_link true f = requested-Kept pool (Call.get_links ∷ h) (now (links, refl, p, f), (tt, q))
      by_link false f = (tt, q)

  checked-Kept : (h : History) → Kept h → Kept (requested_replica k env volume protocol params h).1
  unfolding verify_link
  checked-Kept h q =
      through-answer Kept Kept same_error (remote_pool params) _ h q (λ g l. l)
        (λ pool e.
          through-answer Kept Kept same_error (must_have params (lit "link_remote_system_name")) _ h
            q (λ g l. l) (λ u e'. linked-Kept pool (env.get_links h) h refl q))

  -- For any cluster, any appliance and any earlier calls that asked for none unchecked: however
  -- handleSCReplica ends, a replica, or a change of a consistency group, is asked for only after the
  -- links of the appliance were listed and the link of the StorageClass was among them.
  pub handle_replica-IsLinkChecked :
      (h : History) → Kept h → Kept (handle_replica k env volume protocol params h).1
  unfolding handle_replica
  handle_replica-IsLinkChecked h q = by_kind (is_empty kind) (any (str_eq kind) replica_types)
    where
      kind : Str
      kind = value params (lit "replication_type")

      by_kind :
          (none_asked known : Bool)
          → Kept
              ((if none_asked
                  then pure tt
                  else if known
                  then requested_replica k env volume protocol params
                  else throw plain_error)
                h).1
      by_kind true known = q
      by_kind false true = checked-Kept h q
      by_kind false false = q
