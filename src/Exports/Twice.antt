-- ===== src/Exports/Twice.antt =====
-- DeleteExportRule of an address that has two rules.
use infinibox_csi_driver.Prelude.{◌≡◌, refl, none, [], ◌∷◌, true}
use infinibox_csi_driver.Prelude.Int.{ℤ}
use infinibox_csi_driver.Strings.{Str, str_eq, str_eq_iff}
use infinibox_csi_driver.Exec.{ok, done}
use infinibox_csi_driver.Ibox.{Call, Permission, Export, Env, History}
use infinibox_csi_driver.Exports.{without_client, shifted, delete_rules, delete_export_rule}

-- If the only export of a file system has two rules, both of the address, and the appliance accepts
-- the updates, then DeleteExportRule succeeds, and both updates that it makes write the first of
-- the two rules: the address keeps its access.
pub delete_export_rule_twice :
    (env : Env) (filesystem : ℤ) (ip : Str) (h : History) (export written : Export)
    (p q : Permission)
    → env.get_exports_by_file_system_id h filesystem ≡ record { items = export ∷ []; error = none }
    → export.permissions ≡ p ∷ q ∷ []
    → p.client ≡ ip
    → q.client ≡ ip
    → env.update_export_permissions
        (Call.get_exports_by_file_system_id filesystem ∷ h)
        export.id
        (p ∷ [])
      ≡ ok written
    → env.update_export_permissions
        (Call.update_export_permissions export.id (p ∷ [])
          ∷ Call.get_exports_by_file_system_id filesystem
          ∷ h)
        export.id
        (p ∷ [])
      ≡ ok written
    → delete_export_rule env filesystem ip h ≡ (
      done tt,
      Call.update_export_permissions export.id (p ∷ [])
          ∷ Call.update_export_permissions export.id (p ∷ [])
          ∷ Call.get_exports_by_file_system_id filesystem
          ∷ h,
    )
unfolding delete_export_rule delete_rules without_client shifted
delete_export_rule_twice env filesystem ip h export written p q listed two first second one other =
    let a : str_eq p.client ip ≡ true = (str_eq_iff p.client ip).1 first in
    let b : str_eq q.client ip ≡ true = (str_eq_iff q.client ip).1 second in
    rw listed (rw two (rw b (rw a (rw one (rw b (rw other refl))))))
