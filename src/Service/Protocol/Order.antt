-- ===== src/Service/Protocol/Order.antt =====
-- Which protocol the probes of DetermineProtocol choose.
use infinibox_csi_driver.Prelude.{
  ◌≡◌, ◌⊎◌, inl, inr, refl, Bool, true, false, List, [], ◌∷◌, ◌++◌, All, if◌then◌else◌,
}
use infinibox_csi_driver.Strings.{Str}
use infinibox_csi_driver.Params.{protocol_fc}
use infinibox_csi_driver.Service.Protocol.{first_enabled}

-- The protocol is enabled, and those before it in the order are not.
abbrev pub IsFirst : (Str → Bool) → List Str → Str → Type 0
IsFirst enabled order p =
    (before : List Str) × (after : List Str) × (order ≡ before ++ p ∷ after)
    × (enabled p ≡ true)
    × All (λ q. enabled q ≡ false) before

-- The first one that is enabled, or Fibre Channel where none is.
abbrev pub IsChoice : (Str → Bool) → List Str → Str → Type 0
IsChoice enabled order c =
    IsFirst enabled order c ⊎ (All (λ q. enabled q ≡ false) order × (c ≡ protocol_fc))

before_others :
    (enabled : Str → Bool) (p : Str) (ps : List Str) (rest : Str) (b : Bool)
    → enabled p ≡ b
    → IsChoice enabled ps rest
    → IsChoice enabled (p ∷ ps) (if b then p else rest)
before_others enabled p ps rest true on c = inl ([], ps, refl, on, tt)
before_others enabled p ps rest false off (inl (before, after, e, on, offs)) =
    inl (p ∷ before, after, cc, on, (off, offs))
before_others enabled p ps rest false off (inr (offs, fc)) = inr ((off, offs), fc)

-- For any order and any findings of the probes, the choice is the first protocol in the order that is
-- enabled, or, if not one in the order is enabled, Fibre Channel.
pub first_enabled-IsChoice :
    (enabled : Str → Bool) (order : List Str) → IsChoice enabled order (first_enabled enabled order)
unfolding first_enabled
first_enabled-IsChoice enabled [] = inr (tt, refl)
first_enabled-IsChoice enabled (p ∷ ps) =
    before_others enabled p ps (first_enabled enabled ps) (enabled p) refl
      (first_enabled-IsChoice enabled ps)
