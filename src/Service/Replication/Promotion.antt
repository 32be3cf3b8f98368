-- ===== src/Service/Replication/Promotion.antt =====
-- PromoteVolume when no link has the name of the remote system.
use infinibox_csi_driver.Prelude.{◌≡◌, refl, false, List, [], ◌∷◌, All}
use infinibox_csi_driver.Prelude.Int.{pos}
use infinibox_csi_driver.Strings.{Str, str_eq}
use infinibox_csi_driver.Exec.{ok, fail, Code, status_error}
use infinibox_csi_driver.Params.{Params}
use infinibox_csi_driver.Ibox.{Call, Link, Replica, Volume, Env, History}
use infinibox_csi_driver.Cluster.{Cluster}
use infinibox_csi_driver.Service.Operations.{build_common_service}
use infinibox_csi_driver.Service.Replication.{link_namespace, link_named, turn_around}

link_named_none :
    (system : Str) (links : List Link)
    → All (λ (l : Link). str_eq l.name system ≡ false) links
    → link_named system links ≡ pos 0
unfolding link_named
link_named_none system [] a = refl
link_named_none system (l ∷ ls) a = rw a.0 (link_named_none system ls a.1)

-- The calls up to the deletion on the other appliance, the latest first.
abbrev pub deleted_there : Cluster → Link → Volume → Replica → Replica → History → History
deleted_there k l volume replica theirs h =
    Call.delete_replica theirs.id
    ∷ Call.get_replica_for_local_entity_name volume.name
    ∷ Call.get_secret_contains_name (link_namespace k.pod_namespace) l.remote_system_name
    ∷ Call.get_link replica.link_id
    ∷ h

-- If the replica's link, the secret of the remote system, its appliance and the replica there are
-- read, the appliance there deletes its replica, and none of the links is named as the remote system,
-- then PromoteVolume fails when the replica there is already deleted, and makes none in its place.
pub turn_around_loses :
    (k : Cluster) (env other : Env) (links : List Link) (volume : Volume) (replica theirs : Replica)
    (l : Link) (secret : Params) (h : History)
    → env.get_link h replica.link_id ≡ ok l
    → k.build_client (Call.get_link replica.link_id ∷ h) ≡ ok tt
    → k.get_secret_contains_name
        (Call.get_link replica.link_id ∷ h)
        (link_namespace k.pod_namespace)
        l.remote_system_name
      ≡ ok secret
    → build_common_service k secret ≡ ok other
    → other.get_replica_for_local_entity_name
        (Call.get_secret_contains_name (link_namespace k.pod_namespace) l.remote_system_name
          ∷ Call.get_link replica.link_id
          ∷ h)
        volume.name
      ≡ ok theirs
    → other.delete_replica
        (Call.get_replica_for_local_entity_name volume.name
          ∷ Call.get_secret_contains_name (link_namespace k.pod_namespace) l.remote_system_name
          ∷ Call.get_link replica.link_id
          ∷ h)
        theirs.id
      ≡ ok tt
    → All (λ (m : Link). str_eq m.name l.remote_system_name ≡ false) links
    → turn_around k env links volume replica h
      ≡ (fail (status_error Code.unknown), deleted_there k l volume replica theirs h)
unfolding turn_around
turn_around_loses k env other links volume replica theirs l secret h found client named built there
      deleted unnamed =
    rw found (
      rw client (
        rw named (
          rw built (
            rw there (rw deleted (rw (link_named_none l.remote_system_name links unnamed) refl))))))
