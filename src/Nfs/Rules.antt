-- ===== src/Nfs/Rules.antt =====
-- Export rules of a node: what ControllerUnpublishVolume takes away of what ControllerPublishVolume
-- adds.
use infinibox_csi_driver.Prelude.{
  ℕ, zero, suc, ◌≡◌, ◌≢◌, refl, ap, arith, false, none, List, [], ◌∷◌, ◌++◌, All, length,
  length-append, Bool-cases, inl, inr,
}
use infinibox_csi_driver.Prelude.Int.{ℤ}
use infinibox_csi_driver.Strings.{Str, lit, str_eq, str_eq_iff}
use infinibox_csi_driver.Exec.{done}
use infinibox_csi_driver.VolumeId.{VolumeConfig}
use infinibox_csi_driver.Ibox.{Call, Permission, Export, Env, History}
use infinibox_csi_driver.Exports.{client_is, rule_at, delete_rules, delete_each, delete_export_rule}
use infinibox_csi_driver.Nfs.Operations.{nfs_unpublish}

-- The node identifier that Kubernetes passes: `<name>$$<ip>`.
abbrev pub node_identifier : (name ip : Str) → Str
node_identifier name ip = name ++ (lit "$$" ++ ip)

identifier-ne-ip : (name ip : Str) → ip ≢ node_identifier name ip
identifier-ne-ip name ip e =
    absurd (omega (arith, ap (length {0}) e, length-append {0} name (lit "$$" ++ ip)))

module _ (env : Env) (id : ℤ) (client : Str) where
  rules_kept :
      (left i : ℕ) (ps : List Permission) (h : History)
      → ((j : ℕ) → client_is client (rule_at j ps) ≡ false)
      → delete_rules env id client left i ps h ≡ (done tt, h)
  unfolding delete_rules
  rules_kept zero i ps h other = refl
  rules_kept (suc left) i ps h other = rw (other i) (rules_kept left (suc i) ps h other)

not_client :
    (client ip : Str) (ps : List Permission) (j : ℕ)
    → ip ≢ client
    → All (λ (p : Permission). p.client ≡ ip) ps
    → client_is client (rule_at j ps) ≡ false
not_client client ip [] j n a = refl
not_client client ip (p ∷ ps) zero n a = elim (Bool-cases (str_eq p.client client)) [
  | inr differs ↦ differs
  | inl same ↦ absurd (n (cc (a.0, (str_eq_iff p.client client).0 same)))
]
not_client client ip (p ∷ ps) (suc j) n a = not_client client ip ps j n a.1

exports_kept :
    (env : Env) (client ip : Str) (es : List Export) (h : History)
    → ip ≢ client
    → All (λ (e : Export). All (λ (p : Permission). p.client ≡ ip) e.permissions) es
    → delete_each env client es h ≡ (done tt, h)
unfolding delete_rules
exports_kept env client ip [] h n a = refl
exports_kept env client ip (e ∷ es) h n a =
    rw
      (rules_kept env e.id client (length e.permissions) 0 e.permissions h
        (λ j. not_client client ip e.permissions j n a.0))
      (exports_kept env client ip es h n a.1)

-- If the exports of a file system are listed without error, and each of their rules is for the address
-- of the node, which is how ControllerPublishVolume writes it, then ControllerUnpublishVolume for that
-- node succeeds, and makes no call but the listing: the node keeps its access.
pub nfs_unpublish_keeps_rules :
    (env : Env) (config : VolumeConfig) (name ip : Str) (h : History)
    → (env.get_exports_by_file_system_id h config.volume_id).error ≡ none
    → All
        (λ (e : Export). All (λ (p : Permission). p.client ≡ ip) e.permissions)
        (env.get_exports_by_file_system_id h config.volume_id).items
    → nfs_unpublish env config (node_identifier name ip) h
      ≡ (done tt, Call.get_exports_by_file_system_id config.volume_id ∷ h)
unfolding nfs_unpublish delete_export_rule
nfs_unpublish_keeps_rules env config name ip h listed rules = rw listed (
    rw (
      exports_kept env (node_identifier name ip) ip
        (env.get_exports_by_file_system_id h config.volume_id).items
        (Call.get_exports_by_file_system_id config.volume_id ∷ h) (identifier-ne-ip name ip) rules))
