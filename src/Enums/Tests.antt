-- ===== src/Enums/Tests.antt =====
-- The enumerations of include/vk/mexc/mexc_enums.h at concrete values.
use mexc_cpp_api.Base.{◌≡◌, refl}
use mexc_cpp_api.Base.Int.{pos}
use mexc_cpp_api.Enums.{contract_state_of, paused}

state_4 : contract_state_of (pos 4) ≡ paused
unfolding contract_state_of
state_4 = refl
