-- ===== src/Daemon/Rrset/Order.antt =====
-- The order of record sets by which the management tool sorts a zone (src/daemon/rrset.cpp).
use ndns.Prelude.{◌≡◌, ◌⊎◌, true, false, arith}
use ndns.Ndn.{Ndn}
use ndns.Packets.{name_eq_iff, name_lt_irrefl, name_lt_trans, name_lt_total}
use ndns.Daemon.Rrset.{Rrset, parts_lt, parts_eq}

module _ ⦃ndn : Ndn⦄ where
  -- No record set is below itself.
  pub parts_lt_irrefl : (a : Rrset) → parts_lt a a ≡ false
  unfolding parts_lt
  parts_lt_irrefl a = ground (
    arith,
    name_lt_irrefl a.label,
    ndn.component_lt_irrefl a.type,
    ndn.component_lt_irrefl a.version,
  )

  -- The order by label, type and version is transitive.
  parts_lt_trans : (a b c : Rrset) → parts_lt a b ≡ true → parts_lt b c ≡ true → parts_lt a c ≡ true
  unfolding parts_lt
  parts_lt_trans a b c h k = ground (
    arith,
    name_eq_iff a.label b.label,
    name_eq_iff b.label c.label,
    name_eq_iff a.label c.label,
    ndn.component_eq_iff a.type b.type,
    ndn.component_eq_iff b.type c.type,
    ndn.component_eq_iff a.type c.type,
    name_lt_trans a.label b.label c.label,
    ndn.component_lt_trans a.type b.type c.type,
    ndn.component_lt_trans a.version b.version c.version,
  )

  -- Two record sets that differ in label, type or version compare one way or the other.
  parts_lt_total :
      (a b : Rrset) → parts_eq a b ≡ false → (parts_lt a b ≡ true) ⊎ (parts_lt b a ≡ true)
  unfolding parts_lt parts_eq
  parts_lt_total a b h = ground (
    arith,
    name_eq_iff a.label b.label,
    name_eq_iff b.label a.label,
    ndn.component_eq_iff a.type b.type,
    ndn.component_eq_iff b.type a.type,
    ndn.component_eq_iff a.version b.version,
    name_lt_total a.label b.label,
    ndn.component_lt_total a.type b.type,
    ndn.component_lt_total a.version b.version,
  )
