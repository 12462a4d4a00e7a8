-- ===== src/Go.antt =====
-- What the relay takes from Go's standard library and is not written out here: `url.Parse` with the
-- accessors of `*url.URL`, and `strings.ToLower`, of which nothing is assumed, and `strconv`.
use activity_relay.Base.{ℕ, suc, ◌^◌, ◌<◌, String, Bool, false, Option, some, ◌≡◌, str_eq}
use activity_relay.Base.Int.{ℤ, pos}

pub record Url : Type 0 where
  pub scheme : String
  pub host : String  -- u.Host, with its port
  pub hostname : String  -- u.Hostname()
  pub port : String  -- u.Port()
  pub path : String
  pub has_user : Bool  -- u.User != nil

pub record Runtime : Type 0 where
  pub to_lower : String → String
  pub parse_url : String → Option Url  -- `none` is an error

-- `strconv`: FormatInt and Itoa, ParseInt in 64 bits and ParseUint in 8, with what is documented of
-- them: a number that was written is read back; a number that is not 0 is not written as "0".
pub record Strconv : Type 0 where
  pub format : ℤ → String
  pub parse_int : String → Option ℤ
  pub parse_uint8 : String → Option ℕ
  pub parse_int-format : (n : ℕ) → n < 2 ^ 63 → parse_int (format (pos n)) ≡ some (pos n)
  pub parse_uint8-format : (n : ℕ) → n < 256 → parse_uint8 (format (pos n)) ≡ some n
  pub format-ne_empty : (n : ℤ) → str_eq (format n) "" ≡ false
  pub format-suc : (n : ℕ) → str_eq (format (pos (suc n))) "0" ≡ false
