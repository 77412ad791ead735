-- ===== src/Tools/Update/Choice.antt =====
-- The certificate that an update is signed with (tools/ndns-update.cpp, main).
use ndns.Prelude.{ℕ, ◌≤◌, ◌<◌, ◌≡◌, Option, none, some, take}
use ndns.Ndn.{Ndn}
use ndns.Packets.{Name}
use ndns.Mgmt.CertHelper.{Pib}
use ndns.Tools.Update.{certificate_at}

module _ ⦃ndn : Ndn⦄ (pib : Pib) (name : Name) where
  -- None of the prefixes of more than `k` and at most `n` components has a default certificate.
  abbrev pub NoneAbove : ℕ → ℕ → Type 0
  NoneAbove k n = (m : ℕ) → k < m → m ≤ n → certificate_at pib (take m name) ≡ none

  -- What the search over the prefixes of at most `n` components is to find.
  abbrev pub IsChoice : ℕ → Option Name → Type 0
  IsChoice n none = (m : ℕ) → m ≤ n → certificate_at pib (take m name) ≡ none
  IsChoice n (some cert) =
      (k : ℕ) × (k ≤ n) × (certificate_at pib (take k name) ≡ some cert) × NoneAbove k n
