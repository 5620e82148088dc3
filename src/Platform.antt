-- ===== src/Platform.antt =====
-- What the services take from Python and its libraries: the digest of a text, the six-decimal
-- rendering of a coordinate, the time zone database, and the Unicode operations on strings.
use nektron_moments.Base.{String, Option}
use nektron_moments.Numbers.{ℤ}
use nektron_moments.Clock.{DateTime}

pub record Platform : Type 0 where
  -- `hashlib.sha256(text.encode(...)).hexdigest()`
  pub sha256_hex : String → String
  -- `f"{value:.6f}"` of so many millionths
  pub six_decimals : ℤ → String
  -- The offset in minutes and the UTC time of a local time in a zone; none where there is no such
  -- zone. A zone that `ZoneInfo` accepts has an offset.
  pub local_to_utc : String → DateTime → Option (ℤ × DateTime)
  -- `text.lower()`, `text.strip()` and `text.casefold()`
  pub lower : String → String
  pub strip : String → String
  pub casefold : String → String
  -- The number that `re.match` finds at the start of a street address
  pub street_number : String → Option String
