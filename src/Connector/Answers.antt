-- ===== src/Connector/Answers.antt =====
-- What src/mexc_futures_exchange_connector.cpp makes of the answers of the futures client. The types of
-- the common interface belong to the submodule vk_cpp_common: the records hold the members that the
-- code writes.
use mexc_cpp_api.Base.{if◌then◌else◌}
use mexc_cpp_api.Base.Int.{ℤ, pos, eqb_ℤ}
use mexc_cpp_api.Base.Text.{Text}
use mexc_cpp_api.External.{Library}
use mexc_cpp_api.Models
use mexc_cpp_api.Connector.Orders.{Side, buy, sell}

module _ (library : Library) where
  open library use {
    Json, Double, contains, at_key, get_bool, get_int, zero_double, null_json, set_key, of_int,
    of_double, convert_to_double, times, double_of_int,
  }

  -- `vk::TickerPrice`, `vk::Balance`, `vk::FundingRate`, `vk::Symbol`, `vk::Position`, `vk::Candle`.
  pub record TickerPrice : Type 0 where
    pub bid_price : Double
    pub ask_price : Double
    pub volume24h : Double
    pub turnover24h : Double
    pub time : ℤ

  pub record Balance : Type 0 where
    pub balance : Double
    pub custom_data : Json

  pub record FundingRate : Type 0 where
    pub symbol : Text
    pub funding_rate : Double
    pub funding_time : ℤ

  pub record Symbol : Type 0 where
    pub symbol : Text
    pub display_name : Text
    pub base_asset : Text
    pub quote_asset : Text
    pub margin_asset : Text
    pub contract_size : Double
    pub min_vol : ℤ
    pub max_vol : ℤ
    pub vol_unit : ℤ

  pub record Position : Type 0 where
    pub symbol : Text
    pub side : Side
    pub size : Double
    pub avg_price : Double
    pub value : Double
    pub created_time : ℤ
    pub updated_time : ℤ
    pub leverage : Double

  pub record Candle : Type 0 where
    pub open_time : ℤ
    pub open_price : Double
    pub high : Double
    pub low : Double
    pub close_price : Double
    pub volume : Double

  -- The conversions of the answers of the client.
  unfoldable pub ticker_price_of : Models.Account.Ticker library → TickerPrice
  ticker_price_of ticker = record {
    bid_price = convert_to_double ticker.bid1;
    ask_price = convert_to_double ticker.ask1;
    volume24h = convert_to_double ticker.volume24;
    turnover24h = convert_to_double ticker.amount24;
    time = ticker.timestamp;
  }

  unfoldable pub balance_of : Models.Account.WalletBalance library → Balance
  balance_of wb = record {
    balance = convert_to_double wb.equity;
    custom_data = set_key "unrealized" (of_double (convert_to_double wb.unrealized)) (
        set_key "frozenBalance" (of_double (convert_to_double wb.frozen_balance)) (
          set_key "cashBalance" (of_double (convert_to_double wb.cash_balance)) (
            set_key "availableBalance" (of_double (convert_to_double wb.available_balance))
              null_json)));
  }

  unfoldable pub funding_rate_of : Models.Funding.FundingRate library → FundingRate
  funding_rate_of rate = record {
    symbol = rate.symbol;
    funding_rate = convert_to_double rate.funding_rate;
    funding_time = rate.next_settle_time;
  }

  unfoldable pub historical_rate_of : Models.Funding.HistoricalFundingRate library → FundingRate
  historical_rate_of rate = record {
    symbol = rate.symbol;
    funding_rate = convert_to_double rate.funding_rate;
    funding_time = rate.settle_time;
  }

  -- `marketCategory` is always Futures.
  unfoldable pub symbol_of : Models.Contracts.ContractDetail library → Symbol
  symbol_of d = record {
    symbol = d.symbol;
    display_name = d.display_name_en;
    base_asset = d.base_coin;
    quote_asset = d.quote_coin;
    margin_asset = d.settle_coin;
    contract_size = d.contract_size;
    min_vol = d.min_vol;
    max_vol = d.max_vol;
    vol_unit = d.vol_unit;
  }

  unfoldable pub position_of : Models.Positions.OpenPosition library → Position
  position_of p =
      let size = convert_to_double p.hold_vol in
      let avg_price = convert_to_double p.open_avg_price in
      record {
        symbol = p.symbol;
        side = if eqb_ℤ p.position_type (pos 1) then buy else sell;
        size = size;
        avg_price = avg_price;
        value = times size avg_price;
        created_time = p.create_time;
        updated_time = p.update_time;
        leverage = double_of_int p.leverage;
      }

  unfoldable pub candle_of : Models.Candles.Candle library → Candle
  candle_of c = record {
    open_time = c.open_time;
    open_price = convert_to_double c.open_price;
    high = convert_to_double c.high;
    low = convert_to_double c.low;
    close_price = convert_to_double c.close_price;
    volume = convert_to_double c.volume;
  }
