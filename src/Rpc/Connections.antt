-- ===== src/Rpc/Connections.antt =====
-- The connections of the filters for errors.
use chainlink_eth_secret_net.Base.{
  ℕ, suc, ◌<◌, ◌≤◌, String, List, [], ◌∷◌, Option, ◌≡◌, refl, ◌∙◌, inl, inr, arith, All,
  Option-cases, Bool-cases, nat_eq,
}
use chainlink_eth_secret_net.Base.Maps
use chainlink_eth_secret_net.Base.Maps.{Dict}
use chainlink_eth_secret_net.Rpc.{
  RpcWorld, RpcNode, blank, instances_of, inst_id, for_instance, catch_exception, disconnect,
  shutdown_one, shutdown_each, shutdown,
}

-- What a service does with the filters: it asks for one, or one catches an error.
pub data Use : Type 0 where
  asked : Option String → Use
  caught : (key message : String) → Use

unfoldable pub use_each : RpcWorld → List Use → RpcNode → RpcNode
unfolding for_instance catch_exception
use_each w [] n = n
use_each w (asked id ∷ uses) n = use_each w uses (for_instance id n).1
use_each w (caught key message ∷ uses) n = use_each w uses (catch_exception w key message n).1

-- The objects that are connected have been made.
Made : RpcNode → Type 0
Made n = All (λ c. c < n.made) n.connected

All-below : (l : List ℕ) (a b : ℕ) → a ≤ b → All (λ c. c < a) l → All (λ c. c < b) l
All-below [] a b le h = tt
All-below (c ∷ l) a b le (p, h) = (omega (arith, p, le), All-below l a b le h)

disconnect-fresh : (l : List ℕ) (c : ℕ) → All (λ d. d < c) l → disconnect c l ≡ l
disconnect-fresh [] c h = refl
disconnect-fresh (d ∷ l) c (p, h) = ground (arith, p, disconnect-fresh l c h)

for_instance-Made : (id : Option String) (n : RpcNode) → Made n → Made (for_instance id n).1
unfolding for_instance Made
for_instance-Made id n h = elim (Option-cases (Maps.get (inst_id id) (instances_of n))) [
  | inl e ↦ rw (e, for_instance) (All-below n.connected n.made (suc n.made) (omega arith) h)
  | inr (inst, e) ↦ rw (e, for_instance) h
]

catch_exception-Made :
    (w : RpcWorld) (key message : String) (n : RpcNode)
    → Made n
    → Made (catch_exception w key message n).1
unfolding catch_exception Made
catch_exception-Made w key message n h =
    let later = All-below n.connected n.made (suc n.made) (omega arith) h in
    elim (Bool-cases (w.connects n.made)) [
      | inl e ↦ rw (e, catch_exception) (omega arith, later)
      | inr e ↦ rw (e, catch_exception) later
    ]

use_each-Made : (w : RpcWorld) (uses : List Use) (n : RpcNode) → Made n → Made (use_each w uses n)
unfolding use_each
use_each-Made w [] n h = h
use_each-Made w (asked id ∷ uses) n h =
    use_each-Made w uses (for_instance id n).1 (for_instance-Made id n h)
use_each-Made w (caught key message ∷ uses) n h =
    use_each-Made w uses (catch_exception w key message n).1
      (catch_exception-Made w key message n h)

shutdown_one-connected :
    (w : RpcWorld) (n : RpcNode) → Made n → (shutdown_one w n).connected ≡ n.connected
unfolding shutdown_one Made
shutdown_one-connected w n h = elim (Bool-cases w.makes_consumer) [
  | inl e ↦
      rw (e, shutdown_one)
        (rw (disconnect-fresh n.connected n.made h) (
          disconnect-fresh n.connected (suc n.made)
            (All-below n.connected n.made (suc n.made) (omega arith) h)))
  | inr e ↦ rw (e, shutdown_one) refl
]

shutdown_one-made : (w : RpcWorld) (n : RpcNode) → n.made ≤ (shutdown_one w n).made
unfolding shutdown_one
shutdown_one-made w n = ground arith

shutdown_one-Made : (w : RpcWorld) (n : RpcNode) → Made n → Made (shutdown_one w n)
unfolding Made
shutdown_one-Made w n h =
    rw (shutdown_one-connected w n h)
      (All-below n.connected n.made (shutdown_one w n).made (shutdown_one-made w n) h)

shutdown_each-connected :
    (w : RpcWorld) (filters : Dict ℕ) (n : RpcNode)
    → Made n
    → (shutdown_each w filters n).connected ≡ n.connected
unfolding shutdown_each
shutdown_each-connected w [] n h = refl
shutdown_each-connected w ((id, client) ∷ filters) n h =
    shutdown_each-connected w filters (shutdown_one w n) (shutdown_one-Made w n h)
    ∙ shutdown_one-connected w n h

-- Whatever the filters were asked and caught since the start, a shutdown of all of them disconnects
-- none of the producers that the errors have connected.
pub shutdown-connected :
    (w : RpcWorld) (uses : List Use)
    → let n = use_each w uses blank in (shutdown w n).connected ≡ n.connected
unfolding shutdown Made
shutdown-connected w uses =
    let n = use_each w uses blank in
    shutdown_each-connected w (instances_of n) n (use_each-Made w uses blank tt)
