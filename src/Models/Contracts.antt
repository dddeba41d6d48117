-- ===== src/Models/Contracts.antt =====
-- `ContractDetail` and `ContractDetails` of include/vk/mexc/mexc_models.h and src/mexc_models.cpp.
use mexc_cpp_api.Base.{
  Bool, true, List, [], ◌∷◌, ◌++◌, Step, Outcome, done, Mutate, ◌>>◌, assign, within, local, each,
  if◌then◌else◌,
}
use mexc_cpp_api.Base.Text.{Text}
use mexc_cpp_api.Base.Int.{to_int32, ℤ, pos}
use mexc_cpp_api.Enums.{ContractState, enabled, contract_state_of}
use mexc_cpp_api.External.{Library}
use mexc_cpp_api.External.Reading.{int32_member, text_member, bool_member, double_member}
use mexc_cpp_api.Models.Futures.{Response, fresh_response, response_from_json}

module _ (library : Library) where
  open library use {
    Json, Double, contains, at_key, is_number, is_string, is_array, get_int, get_string, elements,
    double_of_int,
  }

  pub record ContractDetail : Type 0 where
    pub symbol : Text
    pub display_name_en : Text
    pub base_coin : Text
    pub quote_coin : Text
    pub settle_coin : Text
    pub state : ContractState
    pub api_allowed : Bool
    pub automatic_delivery : ℤ
    pub contract_size : Double
    pub min_vol : ℤ
    pub max_vol : ℤ
    pub vol_unit : ℤ
    pub price_unit : ℤ
    pub price_precision : ℤ
    pub vol_precision : ℤ
    pub concept_plate : List Text

  -- The values of the member initialisers.
  abbrev pub fresh_contract_detail : ContractDetail
  fresh_contract_detail = record {
    symbol = [];
    display_name_en = [];
    base_coin = [];
    quote_coin = [];
    settle_coin = [];
    state = enabled;
    api_allowed = true;
    automatic_delivery = pos 0;
    contract_size = double_of_int (pos 1);
    min_vol = pos 1;
    max_vol = pos 1000000;
    vol_unit = pos 1;
    price_unit = pos 1;
    price_precision = pos 2;
    vol_precision = pos 0;
    concept_plate = [];
  }

  set_state : Json → Mutate ContractDetail
  set_state json s =
      if contains json "state"
      then elim (at_key json "state") [
        | Outcome.ok v ↦
            if is_number v
            then assign (get_int v) (λ n t. record t { state = contract_state_of (to_int32 n) }) s
            else done s
        | Outcome.throw e ↦ Step.threw e s
        | Outcome.fault ↦ Step.faulted
      ]
      else done s

  concept_plate_item : Json → Mutate ContractDetail
  concept_plate_item item =
      if is_string item
      then assign (get_string item)
          (λ v s. record s { concept_plate = s.concept_plate ++ (v ∷ []) })
      else done

  set_concept_plate : Json → Mutate ContractDetail
  unfolding concept_plate_item
  set_concept_plate json s =
      if contains json "conceptPlate"
      then elim (at_key json "conceptPlate") [
        | Outcome.ok list ↦
            if is_array list then each concept_plate_item (elements list) s else done s
        | Outcome.throw e ↦ Step.threw e s
        | Outcome.fault ↦ Step.faulted
      ]
      else done s

  unfoldable pub contract_detail_from_json : Json → Mutate ContractDetail
  unfolding set_state set_concept_plate
  contract_detail_from_json json = do
    text_member library json "symbol" (λ s. s.symbol) (λ v s. record s { symbol = v })
    text_member library json "displayNameEn" (λ s. s.display_name_en)
        (λ v s. record s { display_name_en = v })
    text_member library json "baseCoin" (λ s. s.base_coin) (λ v s. record s { base_coin = v })
    text_member library json "quoteCoin" (λ s. s.quote_coin) (λ v s. record s { quote_coin = v })
    text_member library json "settleCoin" (λ s. s.settle_coin) (λ v s. record s { settle_coin = v })
    bool_member library json "apiAllowed" (λ s. s.api_allowed) (λ v s. record s { api_allowed = v })
    int32_member library json "automaticDelivery" (λ s. s.automatic_delivery)
        (λ v s. record s { automatic_delivery = v })
    double_member library json "contractSize" (λ s. s.contract_size)
        (λ v s. record s { contract_size = v })
    int32_member library json "minVol" (λ s. s.min_vol) (λ v s. record s { min_vol = v })
    int32_member library json "maxVol" (λ s. s.max_vol) (λ v s. record s { max_vol = v })
    int32_member library json "volUnit" (λ s. s.vol_unit) (λ v s. record s { vol_unit = v })
    int32_member library json "priceUnit" (λ s. s.price_unit) (λ v s. record s { price_unit = v })
    int32_member library json "pricePrecision" (λ s. s.price_precision)
        (λ v s. record s { price_precision = v })
    int32_member library json "volPrecision" (λ s. s.vol_precision)
        (λ v s. record s { vol_precision = v })
    set_state json
    set_concept_plate json

  pub record ContractDetails : Type 0 where
    pub response : Response library
    pub contract_details : List ContractDetail

  abbrev pub fresh_contract_details : ContractDetails
  fresh_contract_details = record { response = fresh_response library; contract_details = [] }

  contract_detail_item : Json → Mutate ContractDetails
  contract_detail_item item =
      local fresh_contract_detail (contract_detail_from_json item)
        (λ v s. record s { contract_details = s.contract_details ++ (v ∷ []) })

  unfoldable pub contract_details_from_json : Json → Mutate ContractDetails
  unfolding contract_detail_item
  contract_details_from_json json = do
    within (λ s. s.response) (λ r s. record s { response = r }) (response_from_json library json)
    λ s.
        if is_array s.response.payload
        then each contract_detail_item (elements s.response.payload) s
        else done s
