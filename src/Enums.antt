-- ===== src/Enums.antt =====
-- include/vk/mexc/mexc_enums.h and src/mexc.cpp: the enumerations, their numbers and their names.
pub mod Laws
mod Tests
use mexc_cpp_api.Base.{ℕ, ◌+◌, ◌*◌, Option, some, none, String, ◌≡◌}
use mexc_cpp_api.Base.Text.{Text, codes}
use mexc_cpp_api.Base.Int.{ℤ, pos, negsuc}

pub data ContractState : Type 0 where
  enabled delivery completed offline paused : ContractState
  -- `static_cast` from any other number.
  other_state : ℤ → ContractState

-- `static_cast<ContractState>`.
unfoldable pub contract_state_of : ℤ → ContractState
contract_state_of (pos ℕ.zero) = enabled
contract_state_of (pos (ℕ.suc ℕ.zero)) = delivery
contract_state_of (pos (ℕ.suc (ℕ.suc ℕ.zero))) = completed
contract_state_of (pos (ℕ.suc (ℕ.suc (ℕ.suc ℕ.zero)))) = offline
contract_state_of (pos (ℕ.suc (ℕ.suc (ℕ.suc (ℕ.suc ℕ.zero))))) = paused
contract_state_of n = other_state n

-- `_1m` to `_1M`, in the order of the source.
pub data CandleInterval : Type 0 where
  min1 min5 min15 min30 min60 hour4 hour8 day1 week1 month1 : CandleInterval

pub data OrderSide : Type 0 where
  open_long close_short open_short close_long : OrderSide
  -- The value of `OrderSide{}`, which no enumerator has.
  no_side : OrderSide

pub data OrderType : Type 0 where
  limit post_only ioc fok market market_to_limit : OrderType
  -- The value of `OrderType{}`, which no enumerator has.
  no_type : OrderType

pub data MarginType : Type 0 where
  isolated cross : MarginType
  -- Any other number, also that of `MarginType{}`.
  other_margin : ℤ → MarginType

-- `static_cast<std::int32_t>` of the enumerators.
unfoldable pub side_number : OrderSide → ℤ
side_number open_long = pos 1
side_number close_short = pos 2
side_number open_short = pos 3
side_number close_long = pos 4
side_number no_side = pos 0

unfoldable pub type_number : OrderType → ℤ
type_number limit = pos 1
type_number post_only = pos 2
type_number ioc = pos 3
type_number fok = pos 4
type_number market = pos 5
type_number market_to_limit = pos 6
type_number no_type = pos 0

unfoldable pub margin_number : MarginType → ℤ
margin_number isolated = pos 1
margin_number cross = pos 2
margin_number (other_margin n) = n

-- `static_cast<MarginType>`.
unfoldable pub margin_type_of : ℤ → MarginType
margin_type_of (pos (ℕ.suc ℕ.zero)) = isolated
margin_type_of (pos (ℕ.suc (ℕ.suc ℕ.zero))) = cross
margin_type_of n = other_margin n

-- `magic_enum::enum_name` as the header customises it.
unfoldable pub enum_name : CandleInterval → Text
enum_name min1 = codes "Min1"
enum_name min5 = codes "Min5"
enum_name min15 = codes "Min15"
enum_name min30 = codes "Min30"
enum_name min60 = codes "Min60"
enum_name hour4 = codes "Hour4"
enum_name hour8 = codes "Hour8"
enum_name day1 = codes "Day1"
enum_name week1 = codes "Week1"
enum_name month1 = codes "Month1"

-- Products that the source computes in `int` stand as they are there; the last is in `int64_t`.
unfoldable pub number_of_ms_for_candle_interval : CandleInterval → ℕ
number_of_ms_for_candle_interval min1 = 60000
number_of_ms_for_candle_interval min5 = 60000 * 5
number_of_ms_for_candle_interval min15 = 60000 * 15
number_of_ms_for_candle_interval min30 = 60000 * 30
number_of_ms_for_candle_interval min60 = 60000 * 60
number_of_ms_for_candle_interval hour4 = 60000 * 240
number_of_ms_for_candle_interval hour8 = 60000 * 480
number_of_ms_for_candle_interval day1 = 86400000
number_of_ms_for_candle_interval week1 = 86400000 * 7
number_of_ms_for_candle_interval month1 = 86400000 * 30

unfoldable pub candle_interval_to_spot_string : CandleInterval → Text
candle_interval_to_spot_string min1 = codes "1m"
candle_interval_to_spot_string min5 = codes "5m"
candle_interval_to_spot_string min15 = codes "15m"
candle_interval_to_spot_string min30 = codes "30m"
candle_interval_to_spot_string min60 = codes "60m"
candle_interval_to_spot_string hour4 = codes "4h"
candle_interval_to_spot_string hour8 = codes "8h"
candle_interval_to_spot_string day1 = codes "1d"
candle_interval_to_spot_string week1 = codes "1W"
candle_interval_to_spot_string month1 = codes "1M"
