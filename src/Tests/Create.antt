-- ===== src/Tests/Create.antt =====
-- The creation of a zone, its tool, and what is asked of it, at concrete inputs.
use ndns.Prelude.{
  ◌≡◌, ◌↔◌, refl, arith, true, none, some, [], ◌∷◌, ok, err, Error, blob_eq, blob_lt,
}
use ndns.Packets.{Data, make_data, name_eq}
use ndns.Label.{ndns_iterative_query, cert_rr_type, sub_size}
use ndns.Daemon.Zone.{Zone, make_zone}
use ndns.Daemon.Rrset.{parts_lt}
use ndns.Daemon.Sqlite.{order_by_label, insert_by_label, prepare, same_index, write}
use ndns.Daemon.DbMgr.Names.{restore_name, save_name}
use ndns.Daemon.DbMgr.Zones.{
  get_zone_info, find_zone, insert_zone, set_zone_info, bind_int, column_int, resolve, same_info,
}
use ndns.Daemon.DbMgr.Rrsets.{
  find_rrset, insert_rrset, remove_rrsets_of_zone_by_type, find_rrsets, read_rrsets, has_key,
  has_type, insert_row, load_row, to_row, zone_for_insert,
}
use ndns.Mgmt.CertHelper.{
  create_certificate, get_certificate, get_default_certificate_name_of_identity,
  get_default_key_name_of_identity,
}
use ndns.Mgmt.Doe.{generate_doe, doe_ranges, sort_rrsets}
use ndns.Mgmt.Tool.{add_zone, add_id_cert}
use ndns.Daemon.DbMgr.Sound.{Sound}
use ndns.Daemon.RrsetFactory.{
  default_cert, check_zone_key, make_factory, match_certificate, only_check_zone,
  generate_doe_rrset,
}
use ndns.Mgmt.Tool.Create.{
  is_prefix_of, ZoneArgs, ZoneCerts, Site, create_zone, check_preconditions, make_certificates,
}
use ndns.Mgmt.Tool.Create.Checks.{Preconditions, check_preconditions_iff, create_zone-refused}
use ndns.Mgmt.Tool.Create.Stored.{IsStored}
use ndns.Mgmt.Tool.Create.Complete.{create_zone-IsStored}
use ndns.Mgmt.Tool.FromFile.{get_zone_dkey}
use ndns.Tools.CreateZone.{CreateOptions, zone_args, create_and_print}
use ndns.Tools.CreateZone.Printed.{create_and_print-IsStored}
use ndns.Tests.Toy.{toy, toy_sqlite, leaf}
use ndns.Tests.Clients.{net}
use ndns.Tests.Mgmt.{clock}
use ndns.Tests.Database.{empty_db}
use ndns.Tests.Sessions.{toy_chain, net_args}

abbrev start : Site
start = record { store = 0; db = empty_db }

abbrev created : Site
created = (create_zone clock clock net_args start).1

abbrev net_zone : Zone
net_zone = record { id = 1; name = net ∷ []; ttl = 3600 }

create_zone-goes_through : create_zone clock clock net_args start ≡ (ok net_zone, created)
unfolding create_zone find_zone name_eq is_prefix_of add_zone insert_zone add_id_cert find_rrset
    insert_rrset blob_eq sub_size create_certificate set_zone_info generate_doe
    remove_rrsets_of_zone_by_type find_rrsets read_rrsets order_by_label restore_name save_name
    has_key has_type insert_row load_row to_row zone_for_insert bind_int column_int resolve
    same_info parts_lt check_zone_key make_factory match_certificate only_check_zone insert_by_label
    prepare same_index write get_certificate get_default_certificate_name_of_identity
    get_default_key_name_of_identity doe_ranges sort_rrsets blob_lt generate_doe_rrset
create_zone-goes_through = refl

create_zone-IsStored_example :
    Preconditions net_args start
    × (certs : ZoneCerts) × (u : Site) × (make_certificates net_args clock start ≡ (ok certs, u))
    × IsStored net_args certs empty_db net_zone created.db
unfolding Sound
create_zone-IsStored_example =
    create_zone-IsStored clock clock net_args start created net_zone (ground arith)
      ((tt, tt), (tt, tt)) refl create_zone-goes_through

check_preconditions_iff_example :
    (check_preconditions net_args start ≡ (ok (make_zone (net ∷ []) 3600), start))
    ↔ Preconditions net_args start
unfolding Sound
check_preconditions_iff_example = check_preconditions_iff net_args start ((tt, tt), (tt, tt)) refl

-- The root without a D-key's certificate.
abbrev root_args : ZoneArgs
root_args = record net_args { zone_name = [] }

create_zone-refused_example :
    (e : Error) × (create_zone clock clock root_args start ≡ (err e, start))
unfolding Sound
create_zone-refused_example =
    create_zone-refused root_args start ((tt, tt), (tt, tt)) refl clock clock
      (λ p. p.dkey_given refl refl)

abbrev net_options : CreateOptions
net_options = record {
  zone = net ∷ [];
  parent = none;
  cache_ttl = none;
  ksk = default_cert;
  dsk = default_cert;
  dkey = default_cert;
}

abbrev printed : Data
printed =
    record (make_data
      (ndns_iterative_query ∷ net ∷ toy.of_version 0 ∷ cert_rr_type ∷ toy.of_version 0 ∷ [])) {
        content_type = 2;
        freshness_period = 3600000;
        content = toy.nest 21 (leaf 5 ∷ []);
        signature = some 0;
      }

abbrev after_print : Site
after_print = (create_and_print clock clock (λ _. true) net_options start).1

create_and_print-goes_through :
    create_and_print clock clock (λ _. true) net_options start ≡ (ok printed, after_print)
unfolding create_zone find_zone name_eq is_prefix_of add_zone insert_zone add_id_cert find_rrset
    insert_rrset blob_eq sub_size create_certificate set_zone_info generate_doe
    remove_rrsets_of_zone_by_type find_rrsets read_rrsets order_by_label restore_name save_name
    has_key has_type insert_row load_row to_row zone_for_insert bind_int column_int resolve
    same_info parts_lt check_zone_key make_factory match_certificate only_check_zone insert_by_label
    prepare same_index write get_certificate get_default_certificate_name_of_identity
    get_default_key_name_of_identity doe_ranges sort_rrsets blob_lt generate_doe_rrset
    create_and_print get_zone_dkey get_zone_info
create_and_print-goes_through = refl

create_and_print-IsStored_example :
    (z : Zone) × (certs : ZoneCerts) × (u : Site) × (make_certificates
        (zone_args net_options)
        clock
        start
      ≡ (ok certs, u))
    × IsStored (zone_args net_options) certs empty_db z after_print.db
    × (printed ≡ certs.dkey_cert)
unfolding Sound
create_and_print-IsStored_example =
    create_and_print-IsStored clock clock (λ _. true) net_options start after_print printed
      (ground arith) ((tt, tt), (tt, tt)) refl create_and_print-goes_through
