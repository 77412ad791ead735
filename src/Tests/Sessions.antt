-- ===== src/Tests/Sessions.antt =====
-- A small key chain, which counts the keys it makes, and the arguments of a zone.
use ndns.Prelude.{ℕ, suc, [], ◌∷◌, ◌++◌}
use ndns.Daemon.RrsetFactory.{default_cert}
use ndns.Mgmt.Tool.Create.{KeyChain, ZoneArgs}
use ndns.Tests.Toy.{toy, toy_sqlite, leaf}
use ndns.Tests.Clients.{net}
use ndns.Tests.Mgmt.{pib}

instance abbrev pub toy_chain : KeyChain
toy_chain = record {
  Store = ℕ;
  pib = λ s. pib;
  create_identity = λ n s. s;
  create_key = λ n s. (n ++ toy.of_version s ∷ [], suc s);
  default_certificate_of = λ k s. k;
  delete_certificate = λ k c s. s;
  add_certificate = λ k c s. s;
  set_default_key = λ i k s. s;
  set_default_certificate = λ k c s. s;
  public_key = λ k s. leaf 5;
  key_name_of_cert = λ c. c;
  sign_by_key = λ k d. 0;
}

abbrev pub net_args : ZoneArgs
net_args = record {
  zone_name = net ∷ [];
  parent_zone_name = [];
  cache_ttl = 3600;
  ksk_cert_name = default_cert;
  dsk_cert_name = default_cert;
  dkey_cert_name = default_cert;
}
