-- ===== src/Models/Positions.antt =====
-- `OpenPosition` and `OpenPositions` of include/vk/mexc/mexc_models.h and src/mexc_models.cpp.
use mexc_cpp_api.Base.{List, [], ◌∷◌, ◌++◌, done, Mutate, ◌>>◌, within, local, each, if◌then◌else◌}
use mexc_cpp_api.Base.Text.{Text}
use mexc_cpp_api.Base.Int.{ℤ, pos}
use mexc_cpp_api.External.{Library}
use mexc_cpp_api.External.Reading.{int32_member, text_member, int_member, decimal_member}
use mexc_cpp_api.Models.Futures.{Response, fresh_response, response_from_json}

module _ (library : Library) where
  open library use {Json, Decimal, is_array, elements, zero_decimal}

  pub record OpenPosition : Type 0 where
    pub position_id : ℤ
    pub symbol : Text
    pub position_type : ℤ
    pub open_type : ℤ
    pub state : ℤ
    pub hold_vol : Decimal
    pub frozen_vol : Decimal
    pub hold_avg_price : Decimal
    pub open_avg_price : Decimal
    pub liquidate_price : Decimal
    pub oim : Decimal
    pub im : Decimal
    pub hold_fee : Decimal
    pub realised : Decimal
    pub leverage : ℤ
    pub create_time : ℤ
    pub update_time : ℤ

  abbrev pub fresh_open_position : OpenPosition
  fresh_open_position = record {
    position_id = pos 0;
    symbol = [];
    position_type = pos 0;
    open_type = pos 0;
    state = pos 0;
    hold_vol = zero_decimal;
    frozen_vol = zero_decimal;
    hold_avg_price = zero_decimal;
    open_avg_price = zero_decimal;
    liquidate_price = zero_decimal;
    oim = zero_decimal;
    im = zero_decimal;
    hold_fee = zero_decimal;
    realised = zero_decimal;
    leverage = pos 0;
    create_time = pos 0;
    update_time = pos 0;
  }

  unfoldable pub open_position_from_json : Json → Mutate OpenPosition
  open_position_from_json json = do
    int_member library json "positionId" (λ s. s.position_id) (λ v s. record s { position_id = v })
    text_member library json "symbol" (λ s. s.symbol) (λ v s. record s { symbol = v })
    int32_member library json "positionType" (λ s. s.position_type)
        (λ v s. record s { position_type = v })
    int32_member library json "openType" (λ s. s.open_type) (λ v s. record s { open_type = v })
    int32_member library json "state" (λ s. s.state) (λ v s. record s { state = v })
    decimal_member library json "holdVol" (λ v s. record s { hold_vol = v })
    decimal_member library json "frozenVol" (λ v s. record s { frozen_vol = v })
    decimal_member library json "holdAvgPrice" (λ v s. record s { hold_avg_price = v })
    decimal_member library json "openAvgPrice" (λ v s. record s { open_avg_price = v })
    decimal_member library json "liquidatePrice" (λ v s. record s { liquidate_price = v })
    decimal_member library json "oim" (λ v s. record s { oim = v })
    decimal_member library json "im" (λ v s. record s { im = v })
    decimal_member library json "holdFee" (λ v s. record s { hold_fee = v })
    decimal_member library json "realised" (λ v s. record s { realised = v })
    int32_member library json "leverage" (λ s. s.leverage) (λ v s. record s { leverage = v })
    int_member library json "createTime" (λ s. s.create_time) (λ v s. record s { create_time = v })
    int_member library json "updateTime" (λ s. s.update_time) (λ v s. record s { update_time = v })

  pub record OpenPositions : Type 0 where
    pub response : Response library
    pub positions : List OpenPosition

  abbrev pub fresh_open_positions : OpenPositions
  fresh_open_positions = record { response = fresh_response library; positions = [] }

  open_position_item : Json → Mutate OpenPositions
  open_position_item item =
      local fresh_open_position (open_position_from_json item)
        (λ v s. record s { positions = s.positions ++ (v ∷ []) })

  unfoldable pub open_positions_from_json : Json → Mutate OpenPositions
  unfolding open_position_item
  open_positions_from_json json = do
    within (λ s. s.response) (λ r s. record s { response = r }) (response_from_json library json)
    λ s.
        if is_array s.response.payload
        then each open_position_item (elements s.response.payload) s
        else done s
