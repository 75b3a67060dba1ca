-- ===== src/Config.antt =====
-- config/config.go: the settings, their defaults and their validation, and the settings that the
-- environment overrides (config/loader.go). Of the settings, those that these read. A text is its
-- bytes; ints and int64s are patterns (Int64.antt).
pub mod Stakes
mod Tests
use decentralized_poker_engi.Common.{
  ℕ, ◌*◌, ◌%◌, Bool, true, false, ◌||◌, ◌&&◌, List, [], ◌∷◌, length, ◌==◌, if◌then◌else◌,
}
use decentralized_poker_engi.Int64.{word, lt64, le64}

pub record Config : Type 0 where
  pub player_name : List ℕ
  pub data_dir : List ℕ
  pub listen_addr : List ℕ
  pub table_id : List ℕ
  pub max_seats : ℕ
  pub small_blind : ℕ
  pub big_blind : ℕ
  pub buy_in : ℕ
  pub chain_enabled : Bool
  pub rpc_url : List ℕ
  pub contract_address : List ℕ
  pub private_key_hex : List ℕ

abbrev pub is_blank : List ℕ → Bool
is_blank text = length text == 0

-- Whether there is no error.
unfoldable pub validate : Config → Bool
validate c =
    if is_blank c.player_name
    then false
    else if lt64 c.max_seats 2 || lt64 9 c.max_seats
    then false
    else if le64 c.small_blind 0
    then false
    else if le64 c.big_blind 0 || le64 c.big_blind c.small_blind
    then false
    else if lt64 c.buy_in (c.big_blind * 10 % word)
    then false
    else if c.chain_enabled
    then (if is_blank c.rpc_url then false else if is_blank c.contract_address then false else true)
    else true

-- The environment, as the values of the variables; a variable that is not set is empty.
pub record Environment : Type 0 where
  pub poker_player_name : List ℕ
  pub poker_data_dir : List ℕ
  pub poker_listen_addr : List ℕ
  pub poker_table_id : List ℕ
  pub poker_chain_rpc : List ℕ
  pub poker_contract_addr : List ℕ
  pub poker_private_key : List ℕ
  pub poker_chain_enabled : List ℕ

abbrev pub or_set : List ℕ → List ℕ → List ℕ
or_set value old = if is_blank value then old else value

abbrev pub same_text : List ℕ → List ℕ → Bool
same_text [] [] = true
same_text [] (y ∷ ys) = false
same_text (x ∷ xs) [] = false
same_text (x ∷ xs) (y ∷ ys) = (x == y) && same_text xs ys

-- `true` or `1`, as bytes.
abbrev pub is_yes : List ℕ → Bool
is_yes text = same_text text (116 ∷ 114 ∷ 117 ∷ 101 ∷ []) || same_text text (49 ∷ [])

unfoldable pub apply_env : Environment → Config → Config
apply_env env c = record c {
  player_name = or_set env.poker_player_name c.player_name;
  data_dir = or_set env.poker_data_dir c.data_dir;
  listen_addr = or_set env.poker_listen_addr c.listen_addr;
  table_id = or_set env.poker_table_id c.table_id;
  rpc_url = or_set env.poker_chain_rpc c.rpc_url;
  contract_address = or_set env.poker_contract_addr c.contract_address;
  private_key_hex = or_set env.poker_private_key c.private_key_hex;
  chain_enabled = if is_yes env.poker_chain_enabled then true else c.chain_enabled;
}
