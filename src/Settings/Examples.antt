-- ===== src/Settings/Examples.antt =====
-- Tests of the defaults.
use bitprim_network.Base.{ℕ, ◌≡◌, refl, length}
use bitprim_network.Settings.{Given, btc, bch, ltc, mainnet, regtest, construct, common}

abbrev given : Given ℕ
given = record {
  level_maximum = 70013;
  level_minimum = 31402;
  service_none = 0;
  unspecified_network_address = 0;
  mainnet_magic = λ currency. 1;
  testnet_magic = λ currency. 2;
  uninitialised_identifier = 77;
  uninitialised_port = 78;
}

seeds_of_mainnet : length (construct given btc mainnet).seeds ≡ 6
unfolding construct
seeds_of_mainnet = refl

port_of_regtest : (construct given bch regtest).inbound_port ≡ 18444
unfolding construct
port_of_regtest = refl

-- Without a context, the port is what the memory holds.
port_of_common : (common given ltc).inbound_port ≡ 78
unfolding common
port_of_common = refl
