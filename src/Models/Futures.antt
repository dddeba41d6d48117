-- ===== src/Models/Futures.antt =====
-- `futures::Response` and `futures::ServerTime` of include/vk/mexc/mexc_models.h and
-- src/mexc_models.cpp.
use mexc_cpp_api.Base.{Bool, false, done, Mutate, ◌>>◌, assign, within, if◌then◌else◌}
use mexc_cpp_api.Base.Int.{ℤ, pos}
use mexc_cpp_api.External.{Library}
use mexc_cpp_api.External.Reading.{int32_member, bool_member}

module _ (library : Library) where
  open library use {Json, null_json, contains, at_key, get_int}

  pub record Response : Type 0 where
    pub code : ℤ
    pub success : Bool
    pub payload : Json

  abbrev pub fresh_response : Response
  fresh_response = record { code = pos 0; success = false; payload = null_json }

  set_payload : Json → Mutate Response
  set_payload json =
      if contains json "data"
      then assign (at_key json "data") (λ v s. record s { payload = v })
      else done

  -- `Response::fromJson`. The member `data` is `payload` here.
  unfoldable pub response_from_json : Json → Mutate Response
  unfolding set_payload
  response_from_json json = do
    int32_member library json "code" (λ s. s.code) (λ v s. record s { code = v })
    bool_member library json "success" (λ s. s.success) (λ v s. record s { success = v })
    set_payload json

  pub record ServerTime : Type 0 where
    pub response : Response
    pub server_time : ℤ

  unfoldable pub server_time_from_json : Json → Mutate ServerTime
  server_time_from_json json = do
    within (λ s. s.response) (λ r s. record s { response = r }) (response_from_json json)
    λ s. assign (get_int s.response.payload) (λ v t. record t { server_time = v }) s
