-- ===== src/Operator/Libraries.antt =====
-- What src/operator_service/service takes from third-party libraries: reading a JSON value (nlohmann
-- json), deriving a key from a password (OpenSSL) and drawing a QR code (qrcodegen). All of it is a
-- parameter of the model.
use humanoid_common.Prelude.{ℕ, Bool, List, Text, ℤ, Result, Option}

-- `J` is `nlohmann::json`. A reading that throws `Json::exception` is `err`.
pub record Json (F J : Type 0) : Type 0 where
  pub is_object : J → Bool
  pub contains : J → Text → Bool
  pub is_unsigned : J → Bool
  -- `value.at(key)`.
  pub at : J → Text → Result J
  -- `value.get<...>()`.
  pub get_unsigned : J → Result ℕ
  pub get_text : J → Result Text
  pub get_float : J → Result F
  -- `value.value(key, default)`.
  pub text_or : J → Text → Text → Result Text
  pub int_or : J → Text → ℤ → Result ℤ
  pub object_or_empty : J → Text → Result J

pub record Crypto : Type 0 where
  -- `PKCS5_PBKDF2_HMAC` with SHA-256 and 100000 rounds to 32 bytes, of a password and a salt; `none`
  -- where it does not return 1.
  pub derive_key : Text → List ℕ → Option (List ℕ)

-- `qrcodegen::QrCode`, as its size and its modules by column and row.
pub record QrCode : Type 0 where
  pub size : ℕ
  pub module_at : ℕ → ℕ → Bool
