-- ===== src/Lib.antt =====
-- NDNS, a domain name service over Named Data Networking: a name server answers queries from a
-- database of signed record sets, a management tool fills the database and keeps its
-- denial-of-existence (DoE) records, and a client walks a name from zone to zone to its record.
--
-- How the parts interact. A record set factory signs packets and the database manager stores them
-- (management tool). The name server matches an Interest's name into label, type and version, looks
-- the record set up and sends its packet, or else a NACK around the DoE record that it finds below
-- the name. The client's controller builds one Interest after the other from its state and moves on
-- by the content type of what comes back; the packets in between are those of Query and Response.
-- The certificate fetchers drive the same controller, for the certificates that packets are checked
-- with. The update tool sends a packet to a name server inside an Interest and reads its answer.
--
-- Where each part stands:
--   Ndn, Packets       what the program takes from ndn-cxx, as parameters with the laws that the
--                      library documents: names, packets, blocks, components, signatures
--   Label              src/ndns-label.{hpp,cpp}: matchName is match_interest and match_data
--   Clients.ContentType  src/ndns-enum.{hpp,cpp}, src/ndns-tlv.hpp, toNdnsContentType of
--                      src/util/util.cpp
--   Clients.Query      src/clients/query.{hpp,cpp}
--   Clients.Response   src/clients/response.{hpp,cpp}
--   Clients.Controller src/clients/iterative-query-controller.{hpp,cpp}: onData, onDataValidated,
--                      express, start, makeLatestInterest, isAbsentByDoe
--   Daemon.Zone, Daemon.Rrset  src/daemon/zone.{hpp,cpp}, src/daemon/rrset.{hpp,cpp}
--   Daemon.Sqlite      the tables of the schema in src/daemon/db-mgr.cpp, and SQLite as parameters
--   Daemon.DbMgr       src/daemon/db-mgr.{hpp,cpp}: Names (saveName, restoreName), Zones, Rrsets
--   Daemon.NameServer  src/daemon/name-server.{hpp,cpp}: onInterest, handleQuery, handleUpdate,
--                      doUpdate
--   Daemon.RrsetFactory  src/daemon/rrset-factory.{hpp,cpp}
--   Daemon.DbMgr.Sound  what the writes of DbMgr keep of the tables
--   Daemon.ConfigFile  src/daemon/config-file.{hpp,cpp}
--   Validator.NdnsCert  src/validator/certificate-fetcher-ndns-cert.{hpp,cpp}: doFetch,
--                      nsSuccessCallback, nsFailCallback, dataCallback, nackCallback,
--                      timeoutCallback (retry), calculateDomain
--   Validator.AppCert  src/validator/certificate-fetcher-ndns-appcert.{hpp,cpp}
--   Tools.Update       tools/ndns-update.cpp: NdnsUpdate, and the choice of the update in main;
--                      Tools.Update.Delivery puts it together with the name server
--   Tools.Dig          tools/ndns-dig.cpp: NdnsDig
--   Tools.Daemon       tools/ndns-daemon.cpp: processZonesSection
--   Mgmt.CertHelper    src/util/cert-helper.{hpp,cpp}
--   Mgmt.Doe           ManagementTool::generateDoe of src/mgmt/management-tool.cpp
--   Mgmt.Tool          the other operations of ManagementTool: addRrset and the like in Mgmt.Tool,
--                      createZone in Mgmt.Tool.Create, addRrsetFromFile and getZoneDkey in
--                      Mgmt.Tool.FromFile, exportCertificate in Mgmt.Tool.Export, listZone and
--                      listAllZones in Mgmt.Tool.Listing; Mgmt.Tool.Served puts addRrset
--                      together with the name server
--   Tools.AddRr        tools/ndns-add-rr.cpp; Tools.AddRr.Delivery follows a record from the
--                      command's options to the name server's answer
--   Tools.CreateZone   tools/ndns-create-zone.cpp
--   Tools.Manage       the tools of one call: tools/ndns-get-rr.cpp, ndns-list-zone.cpp,
--                      ndns-list-all-zones.cpp, ndns-export-certificate.cpp, ndns-delete-zone.cpp,
--                      ndns-remove-rr.cpp
--   Prelude, Tests     shared names and helpers; concrete parameters and runs
--
-- State and effects. A method that changes its object takes and returns the object; one that also
-- works on the database or the face is an `Exec`, which returns a result or an error with the state
-- as it then is, so that what was written before an exception stays written. The clock, the
-- validator's verdict, signatures, SQLite's row ids and failures are arguments or parameters. A
-- size_t subtraction is written with its wrap-around (Label.sub_size).
--
-- Fuel. restoreName runs on as much fuel as the buffer has bytes, and each round takes a byte at
-- least. The controller's onData, onDataValidated and express call one another for as long as the
-- cache answers; they run on a fuel argument, and running out is an outcome of its own. Each hit of a
-- cache of LINK packets lowers Controller.Rank.rank, so fuel above it is enough; the fetchers and the
-- dig tool take 3 more than the number of components looked up.
--
-- Simplified: an assertion (BOOST_ASSERT of calculateSkip and of ConfigFile::process) is left out, as in
-- an optimised build; Label.skip_asserts is the one of calculateSkip. Whether statements prepare and
-- writes complete is fixed for a run, so a write that fails after others went through is not covered,
-- nor is a record set without data, which SQLite refuses (NOT NULL). Where several rows match a SELECT
-- without an order, the first in the table is taken. An empty label and a zone without records, on which
-- the program's arithmetic wraps or its behaviour is undefined, are errors of the model's own.
--
-- Not modelled: option parsing, opening the database, prefix registration, logging, the event loops
-- and the validator's construction, all of which are I/O or calls of ndn-cxx and boost. A tool starts
-- from its parsed options, and what it prints is its result. What the key chain does on the creation
-- of keys and certificates is a parameter (Mgmt.Tool.Create.KeyChain). The fetchers are
-- modelled with one request at a time.
pub mod Ndn
pub mod Packets
pub mod Label
pub mod Clients
pub mod Daemon
pub mod Mgmt
pub mod Tools
pub mod Validator
pub mod Prelude
pub mod Tests
