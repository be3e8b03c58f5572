-- ===== src/Scrt.antt =====
-- The client of Secret Network: scrt-client/src/scrt-connect/scrt-connect.service.ts with the route
-- of its controller, and scrt-client/src/scrt-contract/scrt-contract.service.ts. The library secretjs
-- and the node are parameters.
pub mod Infos
mod Tests
use chainlink_eth_secret_net.Base.{
  ℕ, suc, String, List, [], ◌∷◌, Option, none, some, Bool, true, false, ◌==◌, string_eq,
  if◌then◌else◌,
}

pub record Coin : Type 0 where
  pub amount : String
  pub denom : String

pub record Account : Type 0 where
  pub address : String
  pub balance : List Coin

-- The configuration, and what the library and a node at a URL answer. A call takes its number, and
-- `none` is a rejection; a node that knows no account of an address answers `some none`.
pub record ScrtWorld : Type 0 where
  pub secret_rest_url : Option String
  pub secret_mnemonic : Option String
  pub random_mnemonic : ℕ → String
  pub pubkey_of_mnemonic : String → Option String
  pub pubkey_to_address : String → String
  pub chain_id : ℕ → Option String → Option String
  pub height : ℕ → Option String → Option ℕ
  pub account : ℕ → Option String → String → Option (Option Account)

-- Asynchronous code that counts its calls; `none` is an error.
abbrev pub Call : Type 0 → Type 0
Call A = (calls : ℕ) → Option A × ℕ

infixl 5 ◌>>=◌
abbrev pub ◌>>=◌ : {A B : Type 0} → Call A → (A → Call B) → Call B
◌>>=◌ m f c = let (r, c') = m c in elim r [ none ↦ (none, c') | some a ↦ f a c' ]

abbrev pub pure : {A : Type 0} → A → Call A
pure a c = (some a, c)

abbrev pub ask : {A : Type 0} → (ℕ → Option A) → Call A
ask f c = (f c, suc c)

-- A value that must be there.
abbrev need : {A : Type 0} → Option A → Call A
need o c = (o, c)

-- `given || configured`, for texts: an empty one counts as absent.
abbrev pub or_else : Option String → Option String → Option String
or_else none configured = configured
or_else (some given) configured = if given == "" then configured else some given

pub record Client : Type 0 where
  pub url : Option String

pub init_scrt_client : ScrtWorld → Option String → Client
init_scrt_client w node_url = record { url = or_else node_url w.secret_rest_url }

pub record ProviderInfo : Type 0 where
  pub chain_id : String
  pub height : ℕ

pub get_provider_info : ScrtWorld → Client → Call ProviderInfo
get_provider_info w client = do
  chain_id ← ask (λ c. w.chain_id c client.url)
  height ← ask (λ c. w.height c client.url)
  pure (record { chain_id = chain_id; height = height })

pub record AccountParams : Type 0 where
  pub pub_key : String
  pub address : String

-- `random || !mnemonicExt`: an empty text from the environment is none.
abbrev pub mnemonic_of : ScrtWorld → Bool → Option String → ℕ → String
mnemonic_of w true given c = w.random_mnemonic c
mnemonic_of w false given c = elim (or_else given w.secret_mnemonic) [
  | none ↦ w.random_mnemonic c
  | some mnemonic ↦ if mnemonic == "" then w.random_mnemonic c else mnemonic
]

pub init_account_params : ScrtWorld → Bool → Option String → Call AccountParams
init_account_params w random mnemonic = do
  pubkey ← ask (λ c. w.pubkey_of_mnemonic (mnemonic_of w random mnemonic c))
  pure (record { pub_key = pubkey; address = w.pubkey_to_address pubkey })

-- The account is read for the log, which wants one.
pub init_account : ScrtWorld → Client → Bool → Option String → Call Account
unfolding init_account_params
init_account w client random mnemonic = do
  params ← init_account_params w random mnemonic
  account ← ask (λ c. w.account c client.url params.address)
  need account

pub record SigningClient : Type 0 where
  pub client : Client
  pub sender_address : String

pub init_scrt_client_signing : ScrtWorld → Bool → Option String → Option String → Call SigningClient
unfolding init_account_params init_scrt_client
init_scrt_client_signing w random_account mnemonic node_url = do
  params ← init_account_params w random_account mnemonic
  pure (record { client = init_scrt_client w node_url; sender_address = params.address })

pub record SigningInfo : Type 0 where
  pub provider : ProviderInfo
  pub account : Account

-- `account.balance[0].amount` is read for the log: an account with a coin is wanted.
abbrev pub with_coin : ProviderInfo → Account → List Coin → Option SigningInfo
with_coin provider account [] = none
with_coin provider account (coin ∷ _) = some (record { provider = provider; account = account })

abbrev pub signing_info : ProviderInfo → Option Account → Option SigningInfo
signing_info provider none = none
signing_info provider (some account) = with_coin provider account account.balance

-- The chain is asked for again, for the log.
read_account : ScrtWorld → SigningClient → ProviderInfo → Call SigningInfo
read_account w signing prov_info = do
  found ← ask (λ c. w.account c signing.client.url signing.sender_address)
  chain_id ← ask (λ c. w.chain_id c signing.client.url)
  need (signing_info prov_info found)

pub get_client_signing_info : ScrtWorld → SigningClient → Call SigningInfo
unfolding get_provider_info read_account
get_client_signing_info w signing = get_provider_info w signing.client >>= read_account w signing

-- The route `/scrt/connect/info`; `none` is an internal server error.
pub connect : ScrtWorld → Call SigningInfo
unfolding init_scrt_client_signing get_client_signing_info
connect w = init_scrt_client_signing w false none none >>= get_client_signing_info w

pub data QueryMsg : Type 0 where
  get_oracle_config get_latest_round_data : QueryMsg

-- `none` is `null`.
pub create_query_msg : String → Option QueryMsg
create_query_msg type =
    if type == "config"
    then some get_oracle_config
    else if type == "data"
    then some get_latest_round_data
    else none

-- `send` is `queryContractSmart` of the client.
pub query_contract :
    {Answer : Type 0}
    → (Client → String → Option QueryMsg → Option Answer)
    → Client
    → String
    → String
    → Option Answer
unfolding create_query_msg
query_contract send client contract_addr query_type =
    send client contract_addr (create_query_msg query_type)
