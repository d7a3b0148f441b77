-- ===== src/Settings.antt =====
-- The settings and their defaults: src/settings.cpp and include/bitcoin/network/settings.hpp.
mod Examples
use Prim.Native.String.{String}
use bitprim_network.Base.{ℕ, Bool, true, false, List, [], ◌∷◌, ◌==◌, ◌≡◌, refl, All, if◌then◌else◌}
use bitprim_network.Node.{Endpoint}

-- The currency that the program is built for, by the macros BITPRIM_CURRENCY_LTC and BITPRIM_CURRENCY_BCH.
pub data Currency : Type 0 where
  ltc bch btc : Currency

-- `config::settings`
pub data Context : Type 0 where
  none mainnet testnet regtest : Context

-- What the defaults take from libbitcoin, and what the memory holds where they set nothing.
pub record Given (Authority : Type 0) : Type 0 where
  pub level_maximum : ℕ
  pub level_minimum : ℕ
  pub service_none : ℕ
  pub unspecified_network_address : Authority
  pub mainnet_magic : Currency → ℕ
  pub testnet_magic : Currency → ℕ
  pub uninitialised_identifier : ℕ
  pub uninitialised_port : ℕ

pub record Settings (Authority : Type 0) : Type 0 where
  pub threads : ℕ
  pub protocol_maximum : ℕ
  pub protocol_minimum : ℕ
  pub services : ℕ
  pub invalid_services : ℕ
  pub relay_transactions : Bool
  pub validate_checksum : Bool
  pub identifier : ℕ
  pub inbound_port : ℕ
  pub inbound_connections : ℕ
  pub outbound_connections : ℕ
  pub manual_attempt_limit : ℕ
  pub connect_batch_size : ℕ
  pub connect_timeout_seconds : ℕ
  pub channel_handshake_seconds : ℕ
  pub channel_heartbeat_minutes : ℕ
  pub channel_inactivity_minutes : ℕ
  pub channel_expiration_minutes : ℕ
  pub channel_germination_seconds : ℕ
  pub host_pool_capacity : ℕ
  pub hosts_file : String
  pub self : Authority
  pub blacklists : List Authority
  pub peers : List (Endpoint String)
  pub seeds : List (Endpoint String)
  pub debug_file : String
  pub error_file : String
  pub archive_directory : String
  pub rotation_size : ℕ
  pub minimum_free_space : ℕ
  pub maximum_archive_size : ℕ
  pub maximum_archive_files : ℕ
  pub statistics_server : Authority
  pub verbose : Bool
  pub use_ipv6 : Bool

abbrev seed : String → ℕ → Endpoint String
seed host port = record { host = host; port = port }

invalid_services_of : Currency → ℕ
invalid_services_of bch = 0
invalid_services_of _ = 176

-- The seeds and the port of the main network.
unfoldable pub mainnet_seeds : Currency → List (Endpoint String)
mainnet_seeds ltc =
    seed "seed-a.litecoin.loshan.co.uk" 9333
    ∷ seed "dnsseed.thrasher.io" 9333
    ∷ seed "dnsseed.litecointools.com" 9333
    ∷ seed "dnsseed.litecoinpool.org" 9333
    ∷ seed "dnsseed.koin-project.com" 9333
    ∷ []
mainnet_seeds bch =
    seed "seed.bitcoinabc.org" 8333
    ∷ seed "seed-abc.bitcoinforks.org" 8333
    ∷ seed "btccash-seeder.bitcoinunlimited.info" 8333
    ∷ seed "seed.bitprim.org" 8333
    ∷ seed "seed.deadalnix.me" 8333
    ∷ seed "seeder.criptolayer.net" 8333
    ∷ []
mainnet_seeds btc =
    seed "seed.bitcoin.sipa.be" 8333
    ∷ seed "dnsseed.bluematt.me" 8333
    ∷ seed "dnsseed.bitcoin.dashjr.org" 8333
    ∷ seed "seed.bitcoinstats.com" 8333
    ∷ seed "seed.bitcoin.jonasschnelli.ch" 8333
    ∷ seed "seed.voskuil.org" 8333
    ∷ []

unfoldable pub mainnet_port : Currency → ℕ
mainnet_port ltc = 9333
mainnet_port _ = 8333

-- The seeds and the port of the test network.
unfoldable pub testnet_seeds : Currency → List (Endpoint String)
testnet_seeds ltc =
    seed "testnet-seed.litecointools.com" 19335 ∷ seed "seed-b.litecoin.loshan.co.uk" 19335 ∷ []
testnet_seeds bch =
    seed "testnet-seed.bitcoinabc.org" 18333
    ∷ seed "testnet-seed-abc.bitcoinforks.org" 18333
    ∷ seed "testnet-seed.bitcoinunlimited.info" 18333
    ∷ seed "testnet-seed.bitprim.org" 18333
    ∷ seed "testnet-seed.deadalnix.me" 18333
    ∷ seed "testnet-seeder.criptolayer.net" 18333
    ∷ []
testnet_seeds btc =
    seed "testnet-seed.bitcoin.jonasschnelli.ch" 18333
    ∷ seed "seed.tbtc.petertodd.org" 18333
    ∷ seed "testnet-seed.bluematt.me" 18333
    ∷ seed "testnet-seed.bitcoin.schildbach.de" 18333
    ∷ seed "testnet-seed.voskuil.org" 18333
    ∷ []

unfoldable pub testnet_port : Currency → ℕ
testnet_port ltc = 19335
testnet_port _ = 18333

-- A duration, as `seconds` or `minutes` of libbitcoin make it.
pub data Duration : Type 0 where
  seconds minutes : ℕ → Duration

module _ {Authority : Type 0} where
  -- `settings::settings()`
  unfoldable pub common : Given Authority → Currency → Settings Authority
  unfolding invalid_services_of
  common g currency = record {
    threads = 0;
    protocol_maximum = g.level_maximum;
    protocol_minimum = g.level_minimum;
    services = g.service_none;
    invalid_services = (invalid_services_of currency);
    relay_transactions = true;
    validate_checksum = false;
    identifier = g.uninitialised_identifier;
    inbound_port = g.uninitialised_port;
    inbound_connections = 0;
    outbound_connections = 8;
    manual_attempt_limit = 0;
    connect_batch_size = 5;
    connect_timeout_seconds = 5;
    channel_handshake_seconds = 30;
    channel_heartbeat_minutes = 5;
    channel_inactivity_minutes = 10;
    channel_expiration_minutes = 60;
    channel_germination_seconds = 30;
    host_pool_capacity = 0;
    hosts_file = "hosts.cache";
    self = g.unspecified_network_address;
    blacklists = [];
    peers = [];
    seeds = [];
    debug_file = "debug.log";
    error_file = "error.log";
    archive_directory = "archive";
    rotation_size = 0;
    minimum_free_space = 0;
    maximum_archive_size = 0;
    maximum_archive_files = 0;
    statistics_server = g.unspecified_network_address;
    verbose = false;
    use_ipv6 = true;
  }

  -- `settings::settings(config::settings)`
  unfoldable pub construct : Given Authority → Currency → Context → Settings Authority
  unfolding common mainnet_seeds mainnet_port testnet_seeds testnet_port
  construct g currency mainnet = record (common g currency) {
    inbound_port = mainnet_port currency;
    identifier = g.mainnet_magic currency;
    seeds = mainnet_seeds currency;
  }
  construct g currency testnet = record (common g currency) {
    identifier = g.testnet_magic currency;
    inbound_port = testnet_port currency;
    seeds = testnet_seeds currency;
  }
  construct g currency regtest = record (common g currency) {
    identifier = 3669344250;
    inbound_port = 18444;
  }
  construct g currency none = common g currency

  unfoldable pub connect_timeout : Settings Authority → Duration
  connect_timeout s = seconds s.connect_timeout_seconds

  unfoldable pub channel_handshake : Settings Authority → Duration
  channel_handshake s = seconds s.channel_handshake_seconds

  unfoldable pub channel_heartbeat : Settings Authority → Duration
  channel_heartbeat s = minutes s.channel_heartbeat_minutes

  unfoldable pub channel_inactivity : Settings Authority → Duration
  channel_inactivity s = minutes s.channel_inactivity_minutes

  unfoldable pub channel_expiration : Settings Authority → Duration
  channel_expiration s = minutes s.channel_expiration_minutes

  unfoldable pub channel_germination : Settings Authority → Duration
  channel_germination s = seconds s.channel_germination_seconds

  -- Each default seed listens on the default port of its network.
  pub construct-seeds :
      (g : Given Authority) (currency : Currency) (context : Context)
      → let s = construct g currency context in All (λ peer. peer.port ≡ s.inbound_port) s.seeds
  unfolding construct
  construct-seeds g ltc mainnet = (refl, (refl, (refl, (refl, (refl, tt)))))
  construct-seeds g bch mainnet = (refl, (refl, (refl, (refl, (refl, (refl, tt))))))
  construct-seeds g btc mainnet = (refl, (refl, (refl, (refl, (refl, (refl, tt))))))
  construct-seeds g ltc testnet = (refl, (refl, tt))
  construct-seeds g bch testnet = (refl, (refl, (refl, (refl, (refl, (refl, tt))))))
  construct-seeds g btc testnet = (refl, (refl, (refl, (refl, (refl, tt)))))
  construct-seeds g currency regtest = tt
  construct-seeds g currency none = tt
