-- ===== src/Models/Account.antt =====
-- `WalletBalance` and `Ticker` of include/vk/mexc/mexc_models.h and src/mexc_models.cpp.
use mexc_cpp_api.Base.{[], Mutate, ◌>>◌, within}
use mexc_cpp_api.Base.Text.{Text}
use mexc_cpp_api.Base.Int.{ℤ, pos}
use mexc_cpp_api.External.{Library}
use mexc_cpp_api.External.Reading.{text_member, int_member, decimal_value_member, decimal_member}
use mexc_cpp_api.Models.Futures.{Response, fresh_response, response_from_json}

module _ (library : Library) where
  open library use {Json, Decimal, zero_decimal}

  pub record WalletBalance : Type 0 where
    pub response : Response library
    pub currency : Text
    pub position_margin : Decimal
    pub available_balance : Decimal
    pub cash_balance : Decimal
    pub frozen_balance : Decimal
    pub equity : Decimal
    pub unrealized : Decimal
    pub bonus : Decimal

  abbrev pub fresh_wallet_balance : WalletBalance
  fresh_wallet_balance = record {
    response = fresh_response library;
    currency = [];
    position_margin = zero_decimal;
    available_balance = zero_decimal;
    cash_balance = zero_decimal;
    frozen_balance = zero_decimal;
    equity = zero_decimal;
    unrealized = zero_decimal;
    bonus = zero_decimal;
  }

  -- The members that are read from `data`.
  wallet_balance_members : Json → Mutate WalletBalance
  wallet_balance_members json = do
    text_member library json "currency" (λ s. s.currency) (λ v s. record s { currency = v })
    decimal_value_member library json "positionMargin" (λ v s. record s { position_margin = v })
    decimal_value_member library json "availableBalance" (λ v s. record s { available_balance = v })
    decimal_value_member library json "cashBalance" (λ v s. record s { cash_balance = v })
    decimal_value_member library json "frozenBalance" (λ v s. record s { frozen_balance = v })
    decimal_value_member library json "equity" (λ v s. record s { equity = v })
    decimal_value_member library json "unrealized" (λ v s. record s { unrealized = v })
    decimal_value_member library json "bonus" (λ v s. record s { bonus = v })

  unfoldable pub wallet_balance_from_json : Json → Mutate WalletBalance
  unfolding wallet_balance_members
  wallet_balance_from_json json = do
    within (λ s. s.response) (λ r s. record s { response = r }) (response_from_json library json)
    λ s. wallet_balance_members s.response.payload s

  pub record Ticker : Type 0 where
    pub response : Response library
    pub symbol : Text
    pub last_price : Decimal
    pub bid1 : Decimal
    pub ask1 : Decimal
    pub volume24 : Decimal
    pub amount24 : Decimal
    pub hold_vol : Decimal
    pub timestamp : ℤ

  abbrev pub fresh_ticker : Ticker
  fresh_ticker = record {
    response = fresh_response library;
    symbol = [];
    last_price = zero_decimal;
    bid1 = zero_decimal;
    ask1 = zero_decimal;
    volume24 = zero_decimal;
    amount24 = zero_decimal;
    hold_vol = zero_decimal;
    timestamp = pos 0;
  }

  ticker_members : Json → Mutate Ticker
  ticker_members json = do
    text_member library json "symbol" (λ s. s.symbol) (λ v s. record s { symbol = v })
    decimal_member library json "lastPrice" (λ v s. record s { last_price = v })
    decimal_member library json "bid1" (λ v s. record s { bid1 = v })
    decimal_member library json "ask1" (λ v s. record s { ask1 = v })
    decimal_member library json "volume24" (λ v s. record s { volume24 = v })
    decimal_member library json "amount24" (λ v s. record s { amount24 = v })
    decimal_member library json "holdVol" (λ v s. record s { hold_vol = v })
    int_member library json "timestamp" (λ s. s.timestamp) (λ v s. record s { timestamp = v })

  unfoldable pub ticker_from_json : Json → Mutate Ticker
  unfolding ticker_members
  ticker_from_json json = do
    within (λ s. s.response) (λ r s. record s { response = r }) (response_from_json library json)
    λ s. ticker_members s.response.payload s
