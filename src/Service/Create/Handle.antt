-- ===== src/Service/Create/Handle.antt =====
-- The identifiers that CreateVolume of the service hands out.
use infinibox_csi_driver.Prelude.{
  ◌≡◌, ◌≢◌, inl, inr, refl, sym, ap, ◌∙◌, arith, true, Bool-cases, [], is_empty,
}
use infinibox_csi_driver.Prelude.Int.{ℤ, pos, IsInt64}
use infinibox_csi_driver.Strings.{Str, str_eq, str_eq_iff}
use infinibox_csi_driver.Strings.Split.{Lacks}
use infinibox_csi_driver.Strings.Decimal.{itoa}
use infinibox_csi_driver.Exec.{Answer, ok, err, done, Code, to_status, wrapping}
use infinibox_csi_driver.Params.{
  Params, value, protocol_fc, protocol_iscsi, protocol_nvme, protocol_nfs, protocol_treeq,
  annotation_volume_metadata,
}
use infinibox_csi_driver.VolumeId.{VolumeConfig, validate_volume_id}
use infinibox_csi_driver.VolumeId.Format.{validate_volume_id-with_protocol}
use infinibox_csi_driver.Capability.{validate_capabilities}
use infinibox_csi_driver.Capacity.{determine_capacity}
use infinibox_csi_driver.Ibox.{Env, History}
use infinibox_csi_driver.Ibox.Returned.{Returned-through, Returned, Returned-bind, Returned-answer}
use infinibox_csi_driver.Cluster.{Cluster}
use infinibox_csi_driver.Volumes.Response.{CsiVolume}
use infinibox_csi_driver.Service.Secrets.{
  validate_secret, validate_class_secrets, handle_annotations,
}
use infinibox_csi_driver.Service.Protocol.{determine_storage_protocol}
use infinibox_csi_driver.Service.Classes.{validate_common_parameters}
use infinibox_csi_driver.Service.Replicas.{handle_replica}
use infinibox_csi_driver.Service.Operations.{
  VolumeRequest, Operations, Controller, Controllers, new_storage_node, build_common_service,
  with_controller, with_service, new_storage_controller,
}
use infinibox_csi_driver.Service.Create.{
  from_outcome, handle_metadata, unidentified, with_parameters, finish_volume, create_with,
  create_secured, service_create_volume,
}

-- The volume is named by an int64.
abbrev pub IsNumbered : CsiVolume → Type 0
IsNumbered v = (i : ℤ) × IsInt64 i × (v.volume_id ≡ itoa i)

-- The identifier is read back with a number and the protocol.
abbrev pub IsReadBack : (protocol : Str) → CsiVolume → Type 0
IsReadBack protocol v =
    (i : ℤ) × (validate_volume_id v.volume_id
      ≡ ok (record { volume_id = i; storage_type = protocol; treeq_id = pos 0 }))

-- A protocol that has a controller can stand in an identifier.
abbrev IsPrintable : Str → Type 0
IsPrintable p = (p ≢ []) × Lacks b'$' p

same-IsPrintable :
    (name protocol : Str) → IsPrintable name → str_eq protocol name ≡ true → IsPrintable protocol
same-IsPrintable name protocol n e = rw ((str_eq_iff protocol name).0 e) n

supported-IsPrintable :
    (c : Controllers) (protocol : Str) (controller : Controller)
    → new_storage_node c protocol ≡ ok controller
    → IsPrintable protocol
unfolding new_storage_node
supported-IsPrintable c protocol controller q = elim (Bool-cases (str_eq protocol protocol_fc)) [
  | inl e ↦ same-IsPrintable protocol_fc protocol ((λ x. cc), omega arith) e
  | inr a ↦ elim (Bool-cases (str_eq protocol protocol_iscsi)) [
    | inl e ↦ same-IsPrintable protocol_iscsi protocol ((λ x. cc), omega arith) e
    | inr b ↦ elim (Bool-cases (str_eq protocol protocol_nvme)) [
      | inl e ↦ same-IsPrintable protocol_nvme protocol ((λ x. cc), omega arith) e
      | inr d ↦ elim (Bool-cases (str_eq protocol protocol_nfs)) [
        | inl e ↦ same-IsPrintable protocol_nfs protocol ((λ x. cc), omega arith) e
        | inr f ↦ elim (Bool-cases (str_eq protocol protocol_treeq)) [
          | inl e ↦ same-IsPrintable protocol_treeq protocol ((λ x. cc), omega arith) e
          | inr g ↦ absurd (ground (arith, q, a, b, d, f, g))
        ]
      ]
    ]
  ]
]

-- What a controller that was found is.
made-from :
    (k : Cluster) (c : Controllers) (secrets : Params) (config : VolumeConfig) (capacity : ℤ)
    (env : Env) (ops : Operations)
    → new_storage_controller k c secrets config capacity ≡ ok (env, ops)
    → (controller : Controller) × (new_storage_node c config.storage_type ≡ ok controller)
      × (ops ≡ controller (k.appliance secrets) config capacity)
unfolding new_storage_controller build_common_service
made-from k c secrets config capacity env ops q = on_appliance (build_common_service k secrets) refl
  where
    chosen :
        (found : Env) (r : Answer Controller)
        → with_controller found config capacity r ≡ ok (env, ops)
        → (controller : Controller) × (r ≡ ok controller) × (ops ≡ controller found config capacity)
    chosen found (err e) p = absurd (cc p)
    chosen found (ok controller) p = (controller, refl, cc (p))

    appliance_found :
        (found : Env) → build_common_service k secrets ≡ ok found → found ≡ k.appliance secrets
    appliance_found found p = ground (arith, p)

    on_appliance :
        (r : Answer Env)
        → build_common_service k secrets ≡ r
        → (controller : Controller) × (new_storage_node c config.storage_type ≡ ok controller)
          × (ops ≡ controller (k.appliance secrets) config capacity)
    on_appliance (err e) p = absurd (cc (ap (with_service c config capacity) p, q))
    on_appliance (ok found) p =
        let (controller, kind, same) =
          chosen found (new_storage_node c config.storage_type)
            (sym (ap (with_service c config capacity) p) ∙ q) in
        (controller, kind, rw (sym (appliance_found found p)) same)

module _ (k : Cluster) (c : Controllers) (req : VolumeRequest) (protocol : Str) (params : Params)
    (not_treeq : protocol ≢ protocol_treeq) where
  finished :
      (env : Env) (v : CsiVolume) (h : History)
      → IsPrintable protocol
      → IsNumbered v
      → Returned (IsReadBack protocol) (finish_volume k req protocol params env v h).0
  finished env v h (some_protocol, lacks) (i, small, named) =
      elim (Bool-cases (is_empty v.volume_id)) [
        | inl none_given ↦ rw none_given tt
        | inr given ↦ rw given (
            Returned-bind (IsReadBack protocol)
              (handle_metadata env (value params annotation_volume_metadata) v.volume_id) _ h
              (λ u g.
                Returned-bind (IsReadBack protocol)
                  (wrapping (handle_replica k env req.request.name protocol params)
                    (to_status Code.internal))
                  _ g
                  (λ u' g'. (
                    i,
                    rw named (
                        validate_volume_id-with_protocol i protocol small some_protocol not_treeq
                          lacks),
                  ))))
      ]

  -- Each controller but the treeq controller numbers its volumes.
  module _
      (numbers : (kind : Str) (controller : Controller) (found_secrets : Params)
          (config : VolumeConfig) (capacity : ℤ) (r : VolumeRequest) (h : History)
        → new_storage_node c kind ≡ ok controller
        → kind ≢ protocol_treeq
        → Returned IsNumbered
            ((controller (k.appliance found_secrets) config capacity).create r h).0) where
    with-IsReadBack :
        (secrets : Params) (capacity : ℤ) (made : Env × Operations) (h : History)
        → new_storage_controller k c secrets (unidentified protocol) capacity ≡ ok made
        → Returned (IsReadBack protocol) (create_with k req protocol params made h).0
    with-IsReadBack secrets capacity (env, ops) h q =
        let (controller, found, same) =
          made-from k c secrets (unidentified protocol) capacity env ops q in
        Returned-bind (IsReadBack protocol)
          (wrapping (validate_common_parameters env k.to_upper params protocol)
            (to_status Code.internal))
          _ h
          (λ u g.
            Returned-answer (IsReadBack protocol) (to_status Code.internal)
              (ops.validate_storage_class params) _ g
              (λ u' valid.
                Returned-through IsNumbered (IsReadBack protocol)
                  (ops.create (with_parameters req params) g)
                  (finish_volume k req protocol params env)
                  (rw same (
                    numbers protocol controller secrets (unidentified protocol) capacity
                      (with_parameters req params) g found not_treeq))
                  (λ v g' n.
                    finished env v g' (supported-IsPrintable c protocol controller found) n)))

    secured-IsReadBack :
        (secrets : Params) (h : History)
        → Returned (IsReadBack protocol) (create_secured k req protocol params c secrets h).0
    secured-IsReadBack secrets h =
        Returned-bind (IsReadBack protocol)
          (wrapping (from_outcome (determine_capacity req.required_bytes params))
            (to_status Code.internal))
          _ h
          (λ capacity g.
            Returned-answer (IsReadBack protocol) (to_status Code.invalid_argument)
              (validate_secret req.secrets) _ g
              (λ u valid.
                Returned-bind (IsReadBack protocol)
                  (wrapping (validate_class_secrets k params) (to_status Code.invalid_argument)) _ g
                  (λ u' g'.
                    Returned-answer (IsReadBack protocol) (to_status Code.internal)
                      (new_storage_controller k c secrets (unidentified protocol) capacity) _ g'
                      (λ made q. with-IsReadBack secrets capacity made g' q))))

-- If each controller but that of treeqs, on any appliance of the cluster, names the volumes that it
-- creates by int64 numbers, and the
-- protocol of the request is determined and is not nfs_treeq, then whenever CreateVolume of the
-- service returns a volume, ValidateVolumeID reads its identifier back with that protocol.
pub service_create_volume-IsReadBack :
    (k : Cluster) (c : Controllers) (req : VolumeRequest) (h h' : History) (protocol : Str)
    (params : Params)
    → ((kind : Str) (controller : Controller) (found_secrets : Params) (config : VolumeConfig)
          (capacity : ℤ) (r : VolumeRequest) (g : History)
        → new_storage_node c kind ≡ ok controller
        → kind ≢ protocol_treeq
        → Returned IsNumbered
            ((controller (k.appliance found_secrets) config capacity).create r g).0)
    → determine_storage_protocol k req.request.parameters h ≡ (done (protocol, params), h')
    → protocol ≢ protocol_treeq
    → Returned (IsReadBack protocol) (service_create_volume k c req h).0
unfolding service_create_volume
service_create_volume-IsReadBack k c req h h' protocol params numbers determined not_treeq =
    elim (Bool-cases (is_empty req.request.name)) [
      | inl unnamed ↦ rw unnamed tt
      | inr named ↦ rw named (elim (Bool-cases (is_empty req.request.parameters)) [
        | inl no_class ↦ rw no_class tt
        | inr some_class ↦ rw some_class (
            rw determined (
              Returned-answer (IsReadBack protocol) (to_status Code.invalid_argument)
                (validate_capabilities req.capabilities) _ h'
                (λ u valid.
                  Returned-bind (IsReadBack protocol)
                    (wrapping (handle_annotations k req.secrets params)
                      (to_status Code.invalid_argument))
                    _ h'
                    (λ (secrets, annotated) g.
                      secured-IsReadBack k c req protocol annotated not_treeq numbers secrets g))))
      ])
    ]
