-- ===== src/Models.antt =====
-- include/vk/mexc/mexc_models.h, include/vk/mexc/mexc_event_models.h and their `fromJson` and `toJson`
-- in src/mexc_models.cpp and src/mexc_event_models.cpp. A `fromJson` changes an object step by step and
-- may throw half way; the functions that only throw "Unimplemented" are not modelled.
pub mod Spot
pub mod Futures
pub mod Funding
pub mod Account
pub mod Positions
pub mod Orders
pub mod Contracts
pub mod Candles
pub mod Events
mod Tests
