-- ===== src/Config/Tests.antt =====
-- Concrete settings, and the results applied to them.
use decentralized_poker_engi.Common.{false, [], ◌∷◌}
use decentralized_poker_engi.Config.{Config}

-- The defaults.
abbrev settings : Config
settings = record {
  player_name = 80 ∷ [];
  data_dir = 126 ∷ [];
  listen_addr = 47 ∷ [];
  table_id = 116 ∷ [];
  max_seats = 6;
  small_blind = 5;
  big_blind = 10;
  buy_in = 1000;
  chain_enabled = false;
  rpc_url = 104 ∷ [];
  contract_address = [];
  private_key_hex = [];
}

abbrev high : Config
high = record settings { big_blind = 4611686018427387904 }
