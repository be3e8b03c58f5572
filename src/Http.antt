-- ===== src/Http.antt =====
-- HttpExceptionService of common/src/http/http.error.ts: what a
-- caller outside learns of an error, by the mode of communication.
pub mod Filter
mod Tests
use chainlink_eth_secret_net.Base.{
  ℕ, String, Option, none, some, Bool, true, false, is, string_eq, if◌then◌else◌, ◌≡◌, ◌⊎◌, inl,
  inr, arith,
}
use chainlink_eth_secret_net.Config.Defaults.{standard, debug, external_communication_mode_value}

-- An `Error`.
pub record Failing : Type 0 where
  pub name : String
  pub message : String
  pub stack : String

-- The response object of an `HttpException`; the fields that are absent are `none`.
pub record Response (Input : Type 0) : Type 0 where
  pub status : ℕ
  pub name : Option String
  pub message : Option String
  pub input : Option Input
  pub stack : Option String
  pub error : Option Failing

pub record HttpException (Input : Type 0) : Type 0 where
  pub response : Response Input
  pub code : ℕ

abbrev pub not_found : ℕ
not_found = 404

-- `new Error(message)`; its stack is what the runtime writes.
abbrev new_error : (String → String) → String → Failing
new_error trace message = record { name = "Error"; message = message; stack = trace message }

abbrev or_error : Option (Failing) → Failing → Failing
or_error none e = e
or_error (some e) _ = e

module _ {Input : Type 0} where
  -- A response with a status only.
  abbrev bare : ℕ → Response Input
  bare code = record {
    status = code;
    name = none;
    message = none;
    input = none;
    stack = none;
    error = none;
  }

  pub deny : HttpException Input
  deny = record { response = bare not_found; code = not_found }

  -- The response of the mode for debugging: the error that it words, and the one that it carries.
  abbrev detailed : ℕ → Option Input → Failing → Option Failing → Response Input
  detailed code input error given = record {
    status = code;
    name = some error.name;
    message = some error.message;
    input = input;
    stack = some error.stack;
    error = given;
  }

  pub server_error :
      (String → String) → Option String → ℕ → Option Input → Option (Failing) → HttpException Input
  unfolding deny
  server_error trace error_ext_mode code input error =
      if is error_ext_mode (external_communication_mode_value standard)
      then record {
        response = record (bare code) { message = some "Internal Server Error" };
        code = code;
      }
      else if is error_ext_mode (external_communication_mode_value debug)
      then record {
        response =
            detailed code input (or_error error (new_error trace "Internal Server Error")) error;
        code = code;
      }
      else deny

  pub client_error :
      (String → String) → Option String → ℕ → Option Input → Option (Failing) → HttpException Input
  unfolding deny
  client_error trace error_ext_mode code input error =
      if is error_ext_mode (external_communication_mode_value standard)
      then record { response = record (bare code) { name = some "Client Error" }; code = code }
      else if is error_ext_mode (external_communication_mode_value debug)
      then record {
        response =
            detailed code input (or_error error (new_error trace "Client Request Error"))
              (some (or_error error (new_error trace "Client Request Error")));
        code = code;
      }
      else deny

  -- Outside the mode for debugging, the response of a server error tells nothing of the input or of the
  -- error: it is the same for any two.
  pub server_error-private :
      (trace : String → String) (mode : Option String) (code : ℕ) (input input' : Option Input)
      (error error' : Option (Failing))
      → is mode (external_communication_mode_value debug) ≡ false
      → server_error trace mode code input error ≡ server_error trace mode code input' error'
  unfolding server_error
  server_error-private trace mode code input input' error error' quiet = ground arith

  -- Outside the modes `standard` and `debug`, client and server errors cannot be told from each other,
  -- whatever their codes: both say that nothing was found.
  pub client_error-deny :
      (trace : String → String) (mode : Option String) (code code' : ℕ) (input : Option Input)
      (error : Option (Failing))
      → is mode (external_communication_mode_value standard) ≡ false
      → is mode (external_communication_mode_value debug) ≡ false
      → (client_error trace mode code input error ≡ server_error trace mode code' input error)
        × ((client_error trace mode code input error).code ≡ not_found)
  unfolding server_error client_error deny
  client_error-deny trace mode code code' input error not_standard not_debug = ground arith
