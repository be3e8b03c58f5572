-- ===== src/Http/Filter.antt =====
-- HttpExceptionFilterCust of common/src/http/http.error.ts: the answer to a request that threw, and
-- the instances of the filter.
use chainlink_eth_secret_net.Base.{
  ℕ, suc, String, [], Option, none, some, false, ◌==◌, string_eq, if◌then◌else◌, ◌≡◌, refl, ◌∙◌,
  inl, inr, arith, Option-cases, str_eq_iff,
}
use chainlink_eth_secret_net.Base.Maps
use chainlink_eth_secret_net.Base.Maps.{Dict, get-set}
use chainlink_eth_secret_net.Config.Defaults.{standard, debug, external_communication_mode_value}
use chainlink_eth_secret_net.Http.{Failing, HttpException, not_found}

-- What a handler throws: an `HttpException`, with its name, or another error.
pub data Thrown (Input : Type 0) : Type 0 where
  http : (name : String) → HttpException Input → Thrown Input
  other : Failing → Thrown Input

-- A request; `rest` is its body, headers, addresses and so on.
pub record Request (Input : Type 0) : Type 0 where
  pub method : String
  pub path : String
  pub rest : Input

-- What a response is made of: `short code method path error` says that the path cannot be reached, and
-- `full` shows what was thrown.
pub data Body (Input : Type 0) : Type 0 where
  short : (status_code : ℕ) (method path error : String) → Body Input
  full : Thrown Input → (time : String) → Request Input → Body Input

abbrev internal_server_error : ℕ
internal_server_error = 500

-- `configService.get(…) || EExternalCommunicationMode.default`
abbrev pub error_com_mode : Option String → String
error_com_mode none = external_communication_mode_value standard
error_com_mode (some mode) = if mode == "" then external_communication_mode_value standard else mode

module _ {Input : Type 0} where
  abbrev pub status_of : Thrown Input → ℕ
  status_of (http name e) = e.code
  status_of (other e) = internal_server_error

  abbrev pub name_of : Thrown Input → String
  name_of (http name e) = name
  name_of (other e) = e.name

  -- The status and the body of the answer.
  pub catch_exception : String → String → Request Input → Thrown Input → ℕ × Body Input
  catch_exception mode time request exception =
      if mode == external_communication_mode_value standard
      then (
        status_of exception,
        short (status_of exception) request.method request.path (name_of exception),
      )
      else if mode == external_communication_mode_value debug
      then (status_of exception, full exception time request)
      else (not_found, short not_found request.method request.path "Not Found")

  -- In every mode but that for debugging, the answer to a request depends on what was thrown by its
  -- status and name only, and not on what the request has besides its method and path: errors of one
  -- status and name are answered alike, whatever their texts, stacks and inputs.
  pub catch_exception-private :
      (mode time time' : String) (request request' : Request Input) (e e' : Thrown Input)
      → (mode == external_communication_mode_value debug) ≡ false
      → status_of e ≡ status_of e'
      → name_of e ≡ name_of e'
      → request.method ≡ request'.method
      → request.path ≡ request'.path
      → catch_exception mode time request e ≡ catch_exception mode time' request' e'
  unfolding catch_exception
  catch_exception-private mode time time' request request' e e' private statuses names methods
        paths =
      rw private (rw statuses (rw names (rw methods (rw paths refl))))

-- The instances of the filter, which carry numbers.
pub record Instances : Type 0 where
  pub instance_by_id : Option (Dict ℕ)
  pub made : ℕ

-- `instanceId || '*'`
abbrev pub inst_id : Option String → String
inst_id none = "*"
inst_id (some id) = if id == "" then "*" else id

abbrev pub instances_of : Instances → Dict ℕ
instances_of s = elim s.instance_by_id [ none ↦ [] | some m ↦ m ]

-- `for`: the instance is put into the map also where it is there.
pub for_instance : Option String → Instances → ℕ × Instances
for_instance instance_id s = elim (Maps.get (inst_id instance_id) (instances_of s)) [
  | none ↦ (
    s.made,
    record {
      instance_by_id = some (Maps.set (inst_id instance_id) s.made (instances_of s));
      made = suc s.made;
    },
  )
  | some inst ↦ (
    inst,
    record s { instance_by_id = some (Maps.set (inst_id instance_id) inst (instances_of s)) },
  )
]

get-own : (k : String) (v : ℕ) (m : Dict ℕ) → Maps.get k (Maps.set k v m) ≡ some v
get-own k v m = ground (arith, get-set k k v m, str_eq_iff k k)

-- The instances with one for a name.
abbrev with_instance : Option String → ℕ → ℕ → Instances → Instances
with_instance id inst made s = record {
  instance_by_id = some (Maps.set (inst_id id) inst (instances_of s));
  made = made;
}

for_instance-new :
    (id : Option String) (s : Instances)
    → Maps.get (inst_id id) (instances_of s) ≡ none
    → for_instance id s ≡ (s.made, with_instance id s.made (suc s.made) s)
unfolding for_instance
for_instance-new id s e = rw (e, for_instance) refl

for_instance-known :
    (id : Option String) (s : Instances) (inst : ℕ)
    → Maps.get (inst_id id) (instances_of s) ≡ some inst
    → for_instance id s ≡ (inst, with_instance id inst s.made s)
unfolding for_instance
for_instance-known id s inst e = rw (e, for_instance) refl

-- Two requests for the filter of one name get one instance, the second makes none, and the instance
-- of another name is as before.
pub for_instance_twice :
    (id id' : Option String) (s : Instances)
    → (inst_id id == inst_id id') ≡ false
    → let (inst, s') = for_instance id s in
      ((for_instance id s').0 ≡ inst)
      × ((for_instance id s').1.made ≡ s'.made)
      × (Maps.get (inst_id id') (instances_of s') ≡ Maps.get (inst_id id') (instances_of s))
for_instance_twice id id' s apart = elim (Option-cases (Maps.get (inst_id id) (instances_of s))) [
  | inl e ↦
      let s' = with_instance id s.made (suc s.made) s in
      rw (for_instance-new id s e) (
        rw (for_instance-known id s' s.made (get-own (inst_id id) s.made (instances_of s)))
          (refl, refl, get-set (inst_id id) (inst_id id') s.made (instances_of s) ∙ rw apart refl))
  | inr (inst, e) ↦
      let s' = with_instance id inst s.made s in
      rw (for_instance-known id s inst e) (
        rw (for_instance-known id s' inst (get-own (inst_id id) inst (instances_of s)))
          (refl, refl, get-set (inst_id id) (inst_id id') inst (instances_of s) ∙ rw apart refl))
]
