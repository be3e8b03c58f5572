-- ===== src/Scrt/Tests.antt =====
-- A connection with a configured account.
use chainlink_eth_secret_net.Base.{String, List, [], ◌∷◌, none, some, false, ◌≡◌, refl}
use chainlink_eth_secret_net.Scrt.{
  ScrtWorld, Account, Coin, SigningInfo, mnemonic_of, connect, get_provider_info,
  init_account_params, init_scrt_client, init_scrt_client_signing, get_client_signing_info,
  read_account,
}
use chainlink_eth_secret_net.Scrt.Infos.{connect-info}

abbrev account : Account
account = record { address = "secret1"; balance = record { amount = "5"; denom = "uscrt" } ∷ [] }

abbrev world : ScrtWorld
world = record {
  secret_rest_url = some "http://localhost:1317";
  secret_mnemonic = some "grant rice";
  random_mnemonic = λ c. "copper push";
  pubkey_of_mnemonic = λ m. some "A1";
  pubkey_to_address = λ k. "secret1";
  chain_id = λ c url. some "secret-2";
  height = λ c url. some 7;
  account = λ c url a. some (some account);
}

abbrev info : SigningInfo
info = record { provider = record { chain_id = "secret-2"; height = 7 }; account = account }

connect-info_example :
    (pubkey : String) × (coin : Coin) × (coins : List Coin) × (world.pubkey_of_mnemonic
        (mnemonic_of world false none 0)
      ≡ some pubkey)
    × (world.chain_id 1 world.secret_rest_url ≡ some "secret-2")
    × (world.height 2 world.secret_rest_url ≡ some 7)
    × (world.account 3 world.secret_rest_url (world.pubkey_to_address pubkey) ≡ some (some account))
    × (info.account.balance ≡ coin ∷ coins)
    × ((again : String) × (world.chain_id 4 world.secret_rest_url ≡ some again))
unfolding connect init_scrt_client_signing get_client_signing_info get_provider_info
    init_account_params init_scrt_client read_account
connect-info_example = connect-info world 0 info refl
