-- ===== src/Exports/Effect.antt =====
-- What adding and removing a node does to the rules of an export.
use infinibox_csi_driver.Prelude.{
  ◌≡◌, ◌≢◌, ◌⊎◌, inl, inr, refl, ap, ◌∙◌, arith, Bool, true, false, none, some, List, [], ◌∷◌, ◌++◌,
  All, Option-cases,
}
use infinibox_csi_driver.Prelude.Int.{ℤ}
use infinibox_csi_driver.Strings.{Str, lit, str_eq, str_eq_iff, contains}
use infinibox_csi_driver.Exec.{ok}
use infinibox_csi_driver.Ibox.{Call, Permission, Export, Env, History}
use infinibox_csi_driver.Exports.{
  covers_ip, grants, granted, add_node, without_client, or_default, delete_node,
}

module _ (parse_ip : Str → Str) (ip : Str) where
  granted-All :
      (ps : List Permission)
      → All (λ p. grants parse_ip ip p ≡ false) ps
      → granted parse_ip ip ps ≡ false
  unfolding granted
  granted-All [] h = refl
  granted-All (p ∷ ps) (a, h) = ground (arith, a, granted-All ps h)

  granted_found :
      (before after : List Permission) (p : Permission)
      → grants parse_ip ip p ≡ true
      → granted parse_ip ip (before ++ (p ∷ after)) ≡ true
  unfolding granted
  granted_found [] after p g = ground (arith, g)
  granted_found (q ∷ before) after p g = ground (arith, granted_found before after p g)

-- AddNodeInExport writes nothing to an export that has a rule of the address, wherever it stands, if
-- the address holds no dash: it reads the export, and that is all.
pub add_node_known :
    (env : Env) (parse_ip : Str → Str) (id : ℤ) (access : Str) (no_root_squash : Bool) (ip : Str)
    (h : History) (export : Export) (before after : List Permission) (p : Permission)
    → env.get_export_by_id h id ≡ ok export
    → export.permissions ≡ before ++ (p ∷ after)
    → p.client ≡ ip
    → contains ip (lit "-") ≡ false
    → (add_node env parse_ip id access no_root_squash ip h).1 ≡ Call.get_export_by_id id ∷ h
unfolding add_node covers_ip
add_node_known env parse_ip id access no_root_squash ip h export before after p q r c d =
    let own : str_eq p.client ip ≡ true = (str_eq_iff p.client ip).1 c in
    let same : grants parse_ip ip p ≡ true = ground (arith, own, d, c) in
    let known : granted parse_ip ip export.permissions ≡ true =
      rw r (granted_found parse_ip ip before after p same) in
    rw q (rw known refl)

-- AddNodeInExport adds a rule for an address that no rule of the export grants: it writes the rules
-- that the export had, in their order, with the new one behind them.
pub add_node_new :
    (env : Env) (parse_ip : Str → Str) (id : ℤ) (access : Str) (no_root_squash : Bool) (ip : Str)
    (h : History) (export : Export)
    → env.get_export_by_id h id ≡ ok export
    → All (λ p. grants parse_ip ip p ≡ false) export.permissions
    → (add_node env parse_ip id access no_root_squash ip h).1
      ≡ Call.update_export_permissions export.id (
          export.permissions
          ++ (record { access = access; no_root_squash = no_root_squash; client = ip } ∷ []))
        ∷ Call.get_export_by_id id
        ∷ h
unfolding add_node
add_node_new env parse_ip id access no_root_squash ip h export q a =
    rw q (rw (granted-All parse_ip ip export.permissions a) (ground arith))

-- A list of rules with the last rule of the client taken out.
abbrev pub WithoutLast : Str → (ps qs : List Permission) → Type 0
WithoutLast ip ps qs =
    (before : List Permission) × (p : Permission) × (after : List Permission) × (ps
      ≡ before ++ (p ∷ after))
    × (qs ≡ before ++ after)
    × (p.client ≡ ip)
    × All (λ q. q.client ≢ ip) after

without_client_absent :
    (ip : Str) (ps : List Permission) → without_client ip ps ≡ none → All (λ q. q.client ≢ ip) ps
unfolding without_client
without_client_absent ip [] h = tt
without_client_absent ip (p ∷ ps) h = elim (Option-cases (without_client ip ps)) [
  | inl none_later ↦ (
    ground (arith, none_later, h, str_eq_iff p.client ip),
    without_client_absent ip ps none_later,
  )
  | inr (qs, found) ↦ absurd (ground (arith, found, h))
]

without_client_found :
    (ip : Str) (ps qs : List Permission) → without_client ip ps ≡ some qs → WithoutLast ip ps qs
unfolding without_client
without_client_found ip [] qs h = absurd (cc)
without_client_found ip (p ∷ ps) qs h = elim (Option-cases (without_client ip ps)) [
  | inl none_later ↦
      let own : p.client ≡ ip = ground (arith, none_later, h, str_eq_iff p.client ip) in
      let rest : qs ≡ ps = ground (arith, none_later, h) in
      ([], p, ps, refl, rest, own, without_client_absent ip ps none_later)
  | inr (rs, found) ↦
      let (before, m, after, split, kept, own, last) = without_client_found ip ps rs found in
      let shape : qs ≡ p ∷ rs = ground (arith, found, h) in
      (p ∷ before, m, after, ap (λ l. p ∷ l) split, shape ∙ ap (λ l. p ∷ l) kept, own, last)
]

-- DeleteNodeFromExport makes no call if no rule of the export is the address's. Otherwise it takes
-- out the last such rule and writes the others in their order, or the rule that lets everyone write
-- if there is no other.
pub delete_node_effect :
    (env : Env) (export : Export) (ip : Str) (h : History)
    → (((delete_node env export ip h).1 ≡ h) × All (λ q. q.client ≢ ip) export.permissions)
      ⊎ ((qs : List Permission) × WithoutLast ip export.permissions qs
          × ((delete_node env export ip h).1
              ≡ Call.update_export_permissions export.id (or_default qs) ∷ h))
unfolding delete_node
delete_node_effect env export ip h = elim (Option-cases (without_client ip export.permissions)) [
  | inl known ↦ inl (rw known refl, without_client_absent ip export.permissions known)
  | inr (qs, known) ↦
      inr (qs, without_client_found ip export.permissions qs known, rw known (ground arith))
]
