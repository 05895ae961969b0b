-- ===== src/Config.antt =====
-- internal/config/config.go: the contracts that are followed.
use carbonable_leaderboard_b.Prelude.{
  ℕ, String, List, [], ◌∷◌, Option, none, some, ◌==◌, if◌then◌else◌,
}

-- `events` maps the name of an event of the contract to the subject under which it is published.
pub record Contract : Type 0 where
  pub events : List (String × String)
  pub address : String
  pub name : String

pub record Config : Type 0 where
  pub contracts : List Contract
  pub start_block : ℕ

-- the loop of `GetContract`
unfoldable pub find_contract : List Contract → String → Option Contract
find_contract [] address = none
find_contract (contract ∷ contracts) address =
    if contract.address == address then some contract else find_contract contracts address

unfoldable pub get_contract : Config → String → Option Contract
unfolding find_contract
get_contract c address = find_contract c.contracts address

pub data ConfigError : Type 0 where
  err_parse_config err_unmarshal_failed : ConfigError

pub data ConfigResult : Type 0 where
  loaded : Config → ConfigResult
  failed : ConfigError → ConfigResult

-- `FromYamlFile`, over what reading the file and unmarshalling its text give.
unfoldable pub from_yaml_file :
    (String → Option String) → (String → Option Config) → String → ConfigResult
from_yaml_file read_file unmarshal file = elim (read_file file) [
  | none ↦ failed err_parse_config
  | some text ↦ elim (unmarshal text) [ none ↦ failed err_unmarshal_failed | some cfg ↦ loaded cfg ]
]
