-- ===== src/Scrt/Infos.antt =====
-- What the route about the connection answers.
use chainlink_eth_secret_net.Base.{
  ℕ, suc, String, List, [], ◌∷◌, Option, none, some, false, ◌≡◌, ◌⊎◌, refl, ap, sym, ◌∙◌, inl, inr,
  Option-cases,
}
use chainlink_eth_secret_net.Scrt.{
  Call, Client, ask, pure, AccountParams, read_account, with_coin, ◌>>=◌, SigningClient,
  signing_info, ScrtWorld, Account, Coin, SigningInfo, ProviderInfo, mnemonic_of, connect,
  init_account_params, init_scrt_client, init_scrt_client_signing, get_client_signing_info,
  get_provider_info,
}

info_of : SigningInfo → Option SigningInfo → SigningInfo
info_of i none = i
info_of i (some j) = j

with_coin-known :
    (p : ProviderInfo) (a : Account) (l : List Coin) (info : SigningInfo)
    → with_coin p a l ≡ some info
    → (coin : Coin) × (coins : List Coin) × (l ≡ coin ∷ coins)
      × (record { provider = p; account = a } ≡ info)
unfolding info_of
with_coin-known p a [] info h = cc
with_coin-known p a (coin ∷ coins) info h = (coin, coins, refl, ap (info_of info) h)

-- What a client for signing reads.
record Reads (w : ScrtWorld) (s : SigningClient) (c : ℕ) (info : SigningInfo) : Type 0 where
  coin : Coin
  coins : List Coin
  chain : w.chain_id c s.client.url ≡ some info.provider.chain_id
  height : w.height (suc c) s.client.url ≡ some info.provider.height
  account : w.account (suc (suc c)) s.client.url s.sender_address ≡ some (some info.account)
  balance : info.account.balance ≡ coin ∷ coins
  again : String
  chain_again : w.chain_id (suc (suc (suc c))) s.client.url ≡ some again

-- The account that was found, and its first coin.
answered :
    (w : ScrtWorld) (s : SigningClient) (c : ℕ) (info : SigningInfo) (chain : String) (height : ℕ)
    (found : Option Account) (again : String)
    → w.chain_id c s.client.url ≡ some chain
    → w.height (suc c) s.client.url ≡ some height
    → w.account (suc (suc c)) s.client.url s.sender_address ≡ some found
    → w.chain_id (suc (suc (suc c))) s.client.url ≡ some again
    → signing_info (record { chain_id = chain; height = height }) found ≡ some info
    → Reads w s c info
answered w s c info chain height none again e1 e2 e3 e4 = λ h. cc
answered w s c info chain height (some account) again e1 e2 e3 e4 = λ h.
    let (coin, coins, e, same) =
      with_coin-known (record { chain_id = chain; height = height }) account account.balance info
        h in
    rw⁻¹ same (record {
      coin = coin;
      coins = coins;
      chain = e1;
      height = e2;
      account = e3;
      balance = e;
      again = again;
      chain_again = e4;
    })

bind-step :
    {A B : Type 0} (m : Call A) (f : A → Call B) (c c' : ℕ) (a : A)
    → m c ≡ (some a, c')
    → (m >>= f) c ≡ f a c'
bind-step {A} {B} m f c c' a e =
    let go : Option A × ℕ → Option B × ℕ =
      λ settled. elim settled.0 [ none ↦ (none, settled.1) | some a' ↦ f a' settled.1 ] in
    ap go e

failed-first :
    {A B : Type 0} (m : Call A) (f : A → Call B) (c : ℕ) (b : B)
    → (m c).0 ≡ none
    → ((m >>= f) c).0 ≡ some b
    → ⊥
failed-first m f c b e = rw (e, ◌>>=◌) (λ h. cc)

module _ (w : ScrtWorld) (client : Client) (c : ℕ) where
  provider-known :
      (chain : String) (height : ℕ)
      → w.chain_id c client.url ≡ some chain
      → w.height (suc c) client.url ≡ some height
      → get_provider_info w client c
        ≡ (some (record { chain_id = chain; height = height }), suc (suc c))
  unfolding get_provider_info
  provider-known chain height e1 e2 =
      bind-step (ask (λ c. w.chain_id c client.url))
        (λ chain_id. ask (λ c. w.height c client.url) >>= λ h.
          pure (record { chain_id = chain_id; height = h }))
        c (suc c) chain (rw e1 refl)
      ∙ bind-step (ask (λ c. w.height c client.url))
          (λ h. pure (record { chain_id = chain; height = h })) (suc c) (suc (suc c)) height
          (rw e2 refl)

  provider-unknown :
      (w.chain_id c client.url ≡ none)
        ⊎ ((chain : String) × (w.chain_id c client.url ≡ some chain)
            × (w.height (suc c) client.url ≡ none))
      → (get_provider_info w client c).0 ≡ none
  unfolding get_provider_info
  provider-unknown (inl e) = rw e refl
  provider-unknown (inr (chain, e1, e2)) = rw e1 (rw e2 refl)

read_account-Reads :
    (w : ScrtWorld) (s : SigningClient) (c : ℕ) (info : SigningInfo) (chain : String) (height : ℕ)
    → w.chain_id c s.client.url ≡ some chain
    → w.height (suc c) s.client.url ≡ some height
    → (read_account w s (record { chain_id = chain; height = height }) (suc (suc c))).0 ≡ some info
    → Reads w s c info
unfolding read_account
read_account-Reads w s c info chain height e1 e2 =
    elim (Option-cases (w.account (suc (suc c)) s.client.url s.sender_address)) [
      | inl e3 ↦ rw e3 (λ h. cc)
      | inr (found, e3) ↦ rw e3 (elim (Option-cases (w.chain_id (suc (suc (suc c))) s.client.url)) [
        | inl e4 ↦ rw e4 (λ h. cc)
        | inr (again, e4) ↦ rw e4 (answered w s c info chain height found again e1 e2 e3 e4)
      ])
    ]

get_client_signing_info-Reads :
    (w : ScrtWorld) (s : SigningClient) (c : ℕ) (info : SigningInfo)
    → (get_client_signing_info w s c).0 ≡ some info
    → Reads w s c info
unfolding get_client_signing_info
get_client_signing_info-Reads w s c info h = elim (Option-cases (w.chain_id c s.client.url)) [
  | inl e1 ↦
      elim (failed-first (get_provider_info w s.client) (read_account w s) c info
        (provider-unknown w s.client c (inl e1)) h) [ ]
  | inr (chain, e1) ↦ elim (Option-cases (w.height (suc c) s.client.url)) [
    | inl e2 ↦
        elim (failed-first (get_provider_info w s.client) (read_account w s) c info
          (provider-unknown w s.client c (inr (chain, e1, e2))) h) [ ]
    | inr (height, e2) ↦
        let step =
          bind-step (get_provider_info w s.client) (read_account w s) c (suc (suc c))
            (record { chain_id = chain; height = height })
            (provider-known w s.client c chain height e1 e2) in
        read_account-Reads w s c info chain height e1 e2
          (sym (ap (λ (r : Option SigningInfo × ℕ). r.0) step) ∙ h)
  ]
]

-- The client for signing of the configured account, or of a random one.
signing-known :
    (w : ScrtWorld) (calls : ℕ) (pubkey : String)
    → w.pubkey_of_mnemonic (mnemonic_of w false none calls) ≡ some pubkey
    → init_scrt_client_signing w false none none calls ≡ (
      some (record {
        client = init_scrt_client w none;
        sender_address = w.pubkey_to_address pubkey;
      }),
      suc calls,
    )
unfolding init_scrt_client_signing init_account_params
signing-known w calls pubkey e =
    let params : AccountParams = record {
      pub_key = pubkey;
      address = w.pubkey_to_address pubkey;
    } in
    bind-step (init_account_params w false none)
      (λ p. pure (record { client = init_scrt_client w none; sender_address = p.address })) calls
      (suc calls) params
      (bind-step (ask (λ c. w.pubkey_of_mnemonic (mnemonic_of w false none c)))
        (λ key. pure (record { pub_key = key; address = w.pubkey_to_address key })) calls
        (suc calls) pubkey (rw e refl))

signing-unknown :
    (w : ScrtWorld) (calls : ℕ)
    → w.pubkey_of_mnemonic (mnemonic_of w false none calls) ≡ none
    → (init_scrt_client_signing w false none none calls).0 ≡ none
unfolding init_scrt_client_signing init_account_params
signing-unknown w calls e = rw e refl

-- The route answers with the chain and the height that the configured node gives, and with the
-- account that it knows for the address of the configured mnemonic, or of a random one where none is
-- configured; this account has a balance, and the node has answered the chain again after the account.
pub connect-info :
    (w : ScrtWorld) (calls : ℕ) (info : SigningInfo)
    → (connect w calls).0 ≡ some info
    → (pubkey : String) × (coin : Coin) × (coins : List Coin) × (w.pubkey_of_mnemonic
          (mnemonic_of w false none calls)
        ≡ some pubkey)
      × (w.chain_id (suc calls) w.secret_rest_url ≡ some info.provider.chain_id)
      × (w.height (suc (suc calls)) w.secret_rest_url ≡ some info.provider.height)
      × (w.account (suc (suc (suc calls))) w.secret_rest_url (w.pubkey_to_address pubkey)
          ≡ some (some info.account))
      × (info.account.balance ≡ coin ∷ coins)
      × ((again : String) × (w.chain_id (suc (suc (suc (suc calls)))) w.secret_rest_url
            ≡ some again))
unfolding connect init_scrt_client
connect-info w calls info h =
    elim (Option-cases (w.pubkey_of_mnemonic (mnemonic_of w false none calls))) [
      | inl e ↦
          elim (failed-first (init_scrt_client_signing w false none none)
            (get_client_signing_info w) calls info (signing-unknown w calls e) h) [ ]
      | inr (pubkey, e) ↦
          let signing : SigningClient = record {
            client = init_scrt_client w none;
            sender_address = w.pubkey_to_address pubkey;
          } in
          let step =
            bind-step (init_scrt_client_signing w false none none) (get_client_signing_info w) calls
              (suc calls) signing (signing-known w calls pubkey e) in
          let r =
            get_client_signing_info-Reads w signing (suc calls) info
              (sym (ap (λ (r : Option SigningInfo × ℕ). r.0) step) ∙ h) in
          (
            pubkey,
            r.coin,
            r.coins,
            e,
            r.chain,
            r.height,
            r.account,
            r.balance,
            (r.again, r.chain_again),
          )
    ]
