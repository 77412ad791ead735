-- ===== src/Tests/Database.antt =====
-- The soundness of the database, and the reading of a configuration, at concrete inputs.
use ndns.Prelude.{
  blob_eq, ℕ, ◌+◌, ◌≡◌, ◌↔◌, refl, arith, Bool, true, false, Option, none, some, List, [], ◌∷◌,
  String,
}
use ndns.Daemon.Zone.{make_zone}
use ndns.Daemon.Rrset.{Rrset, make_rrset}
use ndns.Daemon.Sqlite.{Db}
use ndns.Daemon.DbMgr.Sound.{Sound}
use ndns.Daemon.DbMgr.Sound.Histories.{
  Operation, add_zone, add_rrset, change_rrset, delete_type, perform_all, perform_all-Sound,
}
use ndns.Daemon.NameServer.{on_interest}
use ndns.Daemon.NameServer.Growth.{Grown, on_interest-Grown}
use ndns.Label.{skip_asserts}
use ndns.Packets.{Interest, name_eq}
use ndns.Tools.Update.{make_update_interest, make_ndns_update}
use ndns.Daemon.ConfigFile.{ConfigFile, Thrown, process, throw_error_on_unknown_section}
use ndns.Daemon.ConfigFile.Subscribed.{AllHandled, process_iff}
use ndns.Label.{txt_rr_type, doe_rr_type}
use ndns.Tests.Toy.{toy, toy_sqlite}
use ndns.Tests.Clients.{net, www, version_7}
use ndns.Tests.Daemon.{txt_data, net_host, net_server-stored, net_zone, net_db, net_server}

abbrev pub empty_db : Db
empty_db = record net_db { zones = []; rrsets = [] }

abbrev pub www_rrset : Rrset
www_rrset = record (make_rrset (some net_zone)) {
  label = www ∷ [];
  type = txt_rr_type;
  version = version_7;
}

abbrev writes : List Operation
writes =
    add_zone (make_zone (net ∷ []) 3600)
    ∷ add_rrset www_rrset
    ∷ change_rrset (record www_rrset { id = 1 })
    ∷ add_rrset www_rrset
    ∷ delete_type net_zone doe_rr_type
    ∷ []

perform_all-Sound_example : Sound (perform_all writes empty_db)
unfolding Sound
perform_all-Sound_example = perform_all-Sound writes empty_db ((tt, tt), (tt, tt))

abbrev update_nine : Interest
update_nine = make_update_interest (make_ndns_update (net ∷ []) (txt_data 9) 4000)

on_interest-Grown_example :
    Grown net_db (on_interest net_server (λ _. true) version_7 update_nine net_host).1.db
    × Sound (on_interest net_server (λ _. true) version_7 update_nine net_host).1.db
unfolding Sound skip_asserts make_update_interest make_ndns_update name_eq blob_eq
on_interest-Grown_example =
    on_interest-Grown net_server version_7 update_nine net_host net_server-stored refl
      (((omega arith, tt), (tt, tt)), ((omega arith, tt), (tt, tt))) (λ _. true) refl

-- A section is a number, which its subscriber adds to the state.
abbrev add_number : ℕ → Bool → String → ℕ → Option Thrown × ℕ
add_number n is_dry_run filename s = (none, s + n)

abbrev zones_file : ConfigFile ℕ ℕ
zones_file = record {
  unknown_section_callback = throw_error_on_unknown_section ℕ ℕ;
  subscriptions = ("zones", add_number) ∷ [];
  global = ("zones", 5) ∷ ("zones", 2) ∷ [];
}

process_iff_example :
    (process ℕ ℕ zones_file false "ndns.conf" 1 ≡ (none, 8))
    ↔ AllHandled ℕ ℕ zones_file false "ndns.conf" (("zones", 5) ∷ ("zones", 2) ∷ []) 1 8
process_iff_example = process_iff ℕ ℕ zones_file false "ndns.conf" 1 8 refl
