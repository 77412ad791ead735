-- ===== src/Tests/Tools.antt =====
-- The properties of the command line tools at concrete runs.
use ndns.Daemon.DbMgr.Names.{save_name}
use ndns.Prelude.{blob_eq}
use ndns.Daemon.DbMgr.Zones.{find_zone}
use ndns.Daemon.NameServer.{make_name_server}
use ndns.Mgmt.CertHelper.{get_default_certificate_name_of_identity}
use ndns.Prelude.{blob_lt}
use ndns.Daemon.DbMgr.Names.{save_name}
use ndns.Prelude.{blob_eq}
use ndns.Daemon.DbMgr.Rrsets.{has_key}
use ndns.Prelude.{◌≡◌, refl, arith, true, none, some, List, [], ◌∷◌, ok, All}
use ndns.Packets.{Data}
use ndns.Label.{txt_rr_type}
use ndns.Label.Match.{match_data-response}
use ndns.Clients.Controller.{
  start, make_latest_interest, set_start_component_index, make_controller, express, on_data, unwrap,
  has_ended, advance, latest_query,
}
use ndns.Daemon.DbMgr.Rrsets.{to_row}
use ndns.Daemon.NameServer.{Host, on_interest}
use ndns.Daemon.NameServer.Update.{added}
use ndns.Tools.Update.{make_ndns_update, make_update_interest, arrived, exit_status}
use ndns.Tools.Update.Delivery.{update-new, update-not_newer}
use ndns.Tools.Daemon.{ZoneOption, process_zones_section}
use ndns.Tools.Daemon.Ready.{IsReady, process_zones_section-IsReady}
use ndns.Tools.Dig as Dig
use ndns.Tools.Dig.Exit.{Approved, exit_status-Approved}
use ndns.Tests.Toy.{toy, toy_sqlite}
use ndns.Tests.Clients.{net, www, version_7}
use ndns.Tests.Controller.{toy_cache}
use ndns.Tests.Daemon.{
  net_db, net_server, net_server-stored, net_host, empty_host, txt_data, txt_row, update_match,
}
use ndns.Tests.Mgmt.{pib}

update-new_example :
    (answer : Data) × (on_interest net_server
        (λ _. true)
        version_7
        (make_update_interest (make_ndns_update (net ∷ []) (txt_data 9) 4000))
        empty_host
      ≡ (
        ok tt,
        record {
          db = record net_db {
            rrsets =
                to_row 1 1 (
                  added net_server empty_host version_7
                    (make_update_interest (make_ndns_update (net ∷ []) (txt_data 9) 4000))
                    (txt_data 9)
                    (update_match 9)
                    (match_data-response (net ∷ []) (www ∷ []) txt_rr_type (toy.of_version 9))
                    net_server-stored
                    refl)
                ∷ [];
          };
          sent = answer ∷ [];
        },
      ))
    × (exit_status (arrived answer true) (make_ndns_update (net ∷ []) (txt_data 9) 4000) ≡ 0)
update-new_example =
    update-new net_server (λ _. true) empty_host version_7 (txt_data 9) 4000 (update_match 9) refl
      (match_data-response (net ∷ []) (www ∷ []) txt_rr_type (toy.of_version 9)) net_server-stored
      refl refl

update-not_newer_example :
    (answer : Data) × (on_interest net_server
        (λ _. true)
        version_7
        (make_update_interest (make_ndns_update (net ∷ []) (txt_data 6) 4000))
        net_host
      ≡ (ok tt, record net_host { sent = answer ∷ [] }))
    × (exit_status (arrived answer true) (make_ndns_update (net ∷ []) (txt_data 6) 4000) ≡ 1)
unfolding has_key blob_eq save_name blob_lt
update-not_newer_example =
    update-not_newer net_server (λ _. true) net_host version_7 (txt_data 6) 4000 (update_match 6)
      refl (match_data-response (net ∷ []) (www ∷ []) txt_rr_type (toy.of_version 6))
      net_server-stored refl txt_row refl (ground arith) refl

abbrev net_option : ZoneOption
net_option = record { key = "zone"; name = some (net ∷ []); cert = none }

abbrev started : Host
started = (process_zones_section pib 3600 (net_option ∷ []) net_host).1

process_zones_section-IsReady_example :
    All (IsReady pib 3600 net_db (net_option ∷ [])) (net_server ∷ [])
unfolding process_zones_section get_default_certificate_name_of_identity make_name_server find_zone
    blob_eq save_name
process_zones_section-IsReady_example =
    process_zones_section-IsReady pib 3600 (net_option ∷ []) net_host started (net_server ∷ []) refl

abbrev dig : Dig.NdnsDig
dig = Dig.set_start_zone (net ∷ www ∷ []) (Dig.make_ndns_dig (net ∷ www ∷ []) txt_rr_type 4000)

abbrev seen : List Dig.DigEvent
seen = Dig.arrived (txt_data 9) ∷ Dig.judged true ∷ []

exit_status-Approved_example : Approved (λ _. true) seen (Dig.run (λ _. true) dig)
unfolding Dig.on_events Dig.run Dig.set_start_zone Dig.make_ndns_dig Dig.exit_status start
    make_latest_interest set_start_component_index make_controller express on_data unwrap has_ended
    advance latest_query
exit_status-Approved_example = exit_status-Approved (λ _. true) seen dig refl refl
