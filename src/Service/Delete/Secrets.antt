-- ===== src/Service/Delete/Secrets.antt =====
-- Whose secrets DeleteVolume of the service uses.
use infinibox_csi_driver.Prelude.{
  ◌≡◌, refl, ◌⊎◌, inl, inr, Bool-cases, true, false, Option, none, some, List, [], ◌∷◌, is_empty,
}
use infinibox_csi_driver.Strings.{Str, str_eq}
use infinibox_csi_driver.Exec.{Answer, ok, err, Outcome, Code, to_status, pure, from_answer, ◌>>=◌}
use infinibox_csi_driver.Params.{Params, service_name}
use infinibox_csi_driver.Ibox.{Call, History}
use infinibox_csi_driver.Ibox.Client.{M}
use infinibox_csi_driver.Ibox.Returned.{Returned, Returned-weaken}
use infinibox_csi_driver.Ibox.Safety.{Always}
use infinibox_csi_driver.Cluster.{Cluster, CsiSource, PersistentVolume}
use infinibox_csi_driver.Volumes.Delete.Safety.{IsChecked}
use infinibox_csi_driver.Service.Delete.{
  own_volumes, get_all_persistent_volumes, secret_of_source, source_secrets, secrets_of_volume,
}

module _ (k : Cluster) where
  -- Whatever appliance is meant, nothing was deleted unchecked.
  abbrev pub IsCheckedEverywhere : History → Type 0
  IsCheckedEverywhere h = (s : Params) → Always (IsChecked (k.appliance s)) h

  -- The volume is the driver's, and has a CSI source with the handle.
  abbrev pub HasHandle : (handle : Str) → PersistentVolume → CsiSource → Type 0
  HasHandle handle v source =
      (str_eq v.provisioned_by service_name ≡ true)
      × (v.csi ≡ some source)
      × (str_eq source.volume_handle handle ≡ true)

  abbrev pub LacksHandle : (handle : Str) → PersistentVolume → Type 0
  LacksHandle handle v =
      (str_eq v.provisioned_by service_name ≡ false)
      ⊎ (source : CsiSource) × (v.csi ≡ some source) × (str_eq source.volume_handle handle ≡ false)

  -- The secret that the source names, or the request's if it names none.
  abbrev pub IsSecretOf : (secrets : Params) → CsiSource → Params → Type 0
  IsSecretOf secrets source s =
      ((is_empty source.publish_secret ≡ true) × (s ≡ secrets))
      ⊎ (is_empty source.publish_secret ≡ false)
        × (g : History) × (k.get_secret g source.publish_secret k.pod_namespace ≡ ok s)

  -- The first of the driver's volumes with the handle decides; without one it is the request's.
  abbrev pub IsSecretFor :
      (secrets : Params) (handle : Str) → List PersistentVolume → Params → Type 0
  IsSecretFor secrets handle [] s = s ≡ secrets
  IsSecretFor secrets handle (v ∷ vs) s =
      ((source : CsiSource) × HasHandle handle v source × IsSecretOf secrets source s)
      ⊎ (LacksHandle handle v × IsSecretFor secrets handle vs s)

  secret-Everywhere :
      (secrets : Params) (source : CsiSource) (h : History)
      → IsCheckedEverywhere h
      → IsCheckedEverywhere (secret_of_source k secrets source h).1
        × Returned (IsSecretOf secrets source) (secret_of_source k secrets source h).0
  secret-Everywhere secrets source h a = elim (Bool-cases (is_empty source.publish_secret)) [
    | inl unnamed ↦ rw unnamed (a, inl (unnamed, refl))
    | inr named ↦
        rw named (answered named (k.get_secret h source.publish_secret k.pod_namespace) refl)
  ]
    where
      asked : History
      asked = Call.get_secret source.publish_secret k.pod_namespace ∷ h

      answered :
          is_empty source.publish_secret ≡ false
          → (r : Answer Params) → k.get_secret h source.publish_secret k.pod_namespace ≡ r
          → IsCheckedEverywhere (from_answer (to_status Code.invalid_argument) r asked).1
            × Returned
                (IsSecretOf secrets source)
                (from_answer (to_status Code.invalid_argument) r asked).0
      answered named (ok s) q = (λ t. (tt, a t), inr (named, h, q))
      answered named (err e) q = (λ t. (tt, a t), tt)

  -- The outcome is one of secrets that belong to the handle.
  abbrev pub Chosen :
      (secrets : Params) (handle : Str) → List PersistentVolume → Outcome Params × History → Type 0
  Chosen secrets handle vs r =
      IsCheckedEverywhere r.1 × Returned (IsSecretFor secrets handle vs) r.0

  source-Chosen :
      (secrets : Params) (handle : Str) (v : PersistentVolume) (vs : List PersistentVolume)
      (rest : M Params) (h : History) (o : Option CsiSource)
      → str_eq v.provisioned_by service_name ≡ true
      → v.csi ≡ o
      → IsCheckedEverywhere h
      → Chosen secrets handle vs (rest h)
      → Chosen secrets handle (v ∷ vs) (source_secrets k secrets handle rest o h)
  source-Chosen secrets handle v vs rest h none own q a c = (a, tt)
  source-Chosen secrets handle v vs rest h (some source) own q a (b, r) =
      elim (Bool-cases (str_eq source.volume_handle handle)) [
        | inl same ↦
            let (kept, secret) = secret-Everywhere secrets source h a in
            rw same (
              kept,
              Returned-weaken (IsSecretOf secrets source) (IsSecretFor secrets handle (v ∷ vs))
                  (secret_of_source k secrets source h).0 (λ s p. inl (source, (own, q, same), p))
                  secret,
            )
        | inr other ↦ rw other (
          b,
          Returned-weaken (IsSecretFor secrets handle vs) (IsSecretFor secrets handle (v ∷ vs))
              (rest h).0 (λ s p. inr (inr (source, q, other), p)) r,
        )
      ]

  pub secrets-Chosen :
      (secrets : Params) (handle : Str) (vs : List PersistentVolume) (h : History)
      → IsCheckedEverywhere h
      → Chosen secrets handle vs (secrets_of_volume k secrets handle (own_volumes vs) h)
  unfolding secrets_of_volume own_volumes
  secrets-Chosen secrets handle [] h a = (a, refl)
  secrets-Chosen secrets handle (v ∷ vs) h a =
      elim (Bool-cases (str_eq v.provisioned_by service_name)) [
        | inl own ↦ rw own (
            source-Chosen secrets handle v vs (secrets_of_volume k secrets handle (own_volumes vs))
              h v.csi own refl a (secrets-Chosen secrets handle vs h a))
        | inr foreign ↦
            let (b, r) = secrets-Chosen secrets handle vs h a in
            rw foreign (
              b,
              Returned-weaken (IsSecretFor secrets handle vs) (IsSecretFor secrets handle (v ∷ vs))
                  (secrets_of_volume k secrets handle (own_volumes vs) h).0
                  (λ s p. inr (inl foreign, p)) r,
            )
      ]

  -- The driver's volumes among those that were listed.
  abbrev pub FromListing : List PersistentVolume → Type 0
  FromListing us =
      (g : History) × (vs : List PersistentVolume) × (k.list_persistent_volumes g ≡ ok vs)
      × (us ≡ own_volumes vs)

  pub listed-Everywhere :
      (h : History)
      → IsCheckedEverywhere h
      → IsCheckedEverywhere (get_all_persistent_volumes k (to_status Code.invalid_argument) h).1
        × Returned FromListing (get_all_persistent_volumes k (to_status Code.invalid_argument) h).0
  unfolding get_all_persistent_volumes
  listed-Everywhere h a = listed (k.list_persistent_volumes h) refl
    where
      read : Answer (List PersistentVolume) → Outcome (List PersistentVolume) × History
      read r =
          (from_answer (to_status Code.invalid_argument) r >>= λ vs. pure (own_volumes vs))
            (Call.get_all_persistent_volumes ∷ h)

      listed :
          (r : Answer (List PersistentVolume))
          → k.list_persistent_volumes h ≡ r
          → IsCheckedEverywhere (read r).1 × Returned FromListing (read r).0
      listed (ok vs) q = (λ t. (tt, a t), (h, vs, q, refl))
      listed (err e) q = (λ t. (tt, a t), tt)
