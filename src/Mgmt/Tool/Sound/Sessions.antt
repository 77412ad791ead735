-- ===== src/Mgmt/Tool/Sound/Sessions.antt =====
-- Any session of the management tool (src/mgmt/management-tool.cpp), zones created in it included.
use ndns.Prelude.{ℕ, Bool, Option, List, [], ◌∷◌}
use ndns.Ndn.{Ndn}
use ndns.Packets.{Name, Component, Data}
use ndns.Daemon.Rrset.{Rrset}
use ndns.Daemon.Sqlite.{Sqlite}
use ndns.Daemon.DbMgr.Sound.{Sound}
use ndns.Daemon.RrsetFactory.{RrsetFactory}
use ndns.Mgmt.Tool.{add_rrset, add_multi_level_label_rrset, remove_rr_set, delete_zone}
use ndns.Mgmt.Tool.FromFile.{add_rrset_from_file}
use ndns.Mgmt.Tool.Create.{KeyChain, ZoneArgs, Site, on_site_db, create_zone}
use ndns.Mgmt.Tool.Create.Sound.{create_zone-Sound}
use ndns.Mgmt.Tool.Sound.{
  delete_zone-Sound, add_rrset-Sound, add_multi_level_label_rrset-Sound, remove_rr_set-Sound,
  add_rrset_from_file-Sound,
}

module _ ⦃ndn : Ndn⦄ ⦃sqlite : Sqlite⦄ ⦃chain : KeyChain⦄ where
  -- The commands of the tool that write, with their arguments and the clock's versions.
  pub data Command : Type 0 where
    create : (ℕ → Component) → ZoneArgs → Command
    delete : Name → Command
    add : Rrset → Command
    add_multi_level : (ℕ → Component) → RrsetFactory → ℕ → Rrset → Command
    add_from_file : Name → Option Data → ℕ → Name → Bool → Command
    remove : Name → Name → Component → Command

  unfoldable pub execute : (ℕ → Component) → Command → Site → Site
  execute doe_now (create now a) s = (create_zone now doe_now a s).1
  execute doe_now (delete zone_name) s = (on_site_db (delete_zone zone_name) s).1
  execute doe_now (add rrset) s = (on_site_db (add_rrset (chain.pib s.store) doe_now rrset) s).1
  execute doe_now (add_multi_level auth_now factory auth_ttl rrset) s =
      (on_site_db
        (add_multi_level_label_rrset (chain.pib s.store) auth_now doe_now factory auth_ttl rrset)
        s).1
  execute doe_now (add_from_file zone_name input ttl dsk need_resign) s =
      (on_site_db
        (add_rrset_from_file (chain.pib s.store) doe_now zone_name input ttl dsk need_resign) s).1
  execute doe_now (remove zone_name label type) s =
      (on_site_db (remove_rr_set (chain.pib s.store) doe_now zone_name label type) s).1

  unfoldable pub execute_all : (ℕ → Component) → List Command → Site → Site
  execute_all doe_now [] s = s
  execute_all doe_now (c ∷ cs) s = execute_all doe_now cs (execute doe_now c s)

  execute-Sound :
      (doe_now : ℕ → Component) (c : Command) (s : Site)
      → Sound s.db
      → Sound (execute doe_now c s).db
  unfolding execute
  execute-Sound doe_now (create now a) s h = create_zone-Sound now doe_now a s h
  execute-Sound doe_now (delete zone_name) s h = delete_zone-Sound zone_name s.db h
  execute-Sound doe_now (add rrset) s h = add_rrset-Sound (chain.pib s.store) doe_now rrset s.db h
  execute-Sound doe_now (add_multi_level auth_now factory auth_ttl rrset) s h =
      add_multi_level_label_rrset-Sound (chain.pib s.store) doe_now auth_now factory auth_ttl rrset
        s.db h
  execute-Sound doe_now (add_from_file zone_name input ttl dsk need_resign) s h =
      add_rrset_from_file-Sound (chain.pib s.store) doe_now zone_name input ttl dsk need_resign s.db
        h
  execute-Sound doe_now (remove zone_name label type) s h =
      remove_rr_set-Sound (chain.pib s.store) doe_now zone_name label type s.db h

  -- Any session of the tool keeps a sound database sound, whether its commands go through or throw on
  -- the way: zones created and deleted, records added, one by one, below a label of several components
  -- or from a file, and removed, each with the DoE records made anew.
  pub execute_all-Sound :
      (doe_now : ℕ → Component) (cs : List Command) (s : Site)
      → Sound s.db
      → Sound (execute_all doe_now cs s).db
  unfolding execute_all
  execute_all-Sound doe_now [] s h = h
  execute_all-Sound doe_now (c ∷ cs) s h =
      execute_all-Sound doe_now cs (execute doe_now c s) (execute-Sound doe_now c s h)
