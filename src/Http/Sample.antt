-- ===== src/Http/Sample.antt =====
-- Digests that are easy to follow, and a network with one answer, for tests.
use mexc_cpp_api.Base.{ℕ, ◌+◌, ◌++◌, ok}
use mexc_cpp_api.Base.Int.{pos}
use mexc_cpp_api.Base.Text.{Text, codes}
use mexc_cpp_api.Http.{Crypto, Environment}

abbrev pub sample_crypto : Crypto
sample_crypto = record {
  hmac_sha256 = λ key message. key ++ (codes ":" ++ message);
  md5 = λ message. codes "digest:" ++ message;
  string_to_hex = λ digest. codes "hex:" ++ digest;
}

-- The world is the time in milliseconds; a request takes 20 of them.
abbrev pub answering : Text → Environment
answering body = record {
  World = ℕ;
  current_time_ms = λ w. (w, w);
  sleep_for_ms = λ ms w. w + ms;
  version_string = codes "Beast";
  exchange = λ host req w. (ok (record { status = pos 200; body = body }), w + 20);
}
