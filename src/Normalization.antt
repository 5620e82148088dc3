-- ===== src/Normalization.antt =====
-- Address normalization (services/enrichment/normalization.py): `LocationNormalizer` with its rules.
use nektron_moments.Base.{
  ◌-◌, max, String, Bool, true, false, ◌&&◌, ◌||◌, Option, none, some, List, [], ◌∷◌, if◌then◌else◌,
  str_eq, truthy, or_text, text_length, text_prefix, contains_text,
}
use Prim.Native.String.{◌++◌ as append}
use nektron_moments.Platform.{Platform}
use nektron_moments.Records.{Address, GeocodeResult}
use nektron_moments.Store.{first}

-- `LocationNormalizationRule`
pub record Rule : Type 0 where
  pub name : String
  pub city_equals : Option String
  pub state_in : List String
  pub country_in : List String
  pub street_contains_any : List String
  pub original_street_number_in : List String
  pub normalized_street_address : String

-- `LocationNormalizationRuleset`
pub record Ruleset : Type 0 where
  pub rules : List Rule
  pub version : String

-- Some text of the list passes the test.
unfoldable pub any_text : (String → Bool) → List String → Bool
any_text test [] = false
any_text test (s ∷ ss) = test s || any_text test ss

-- `not options or ...`
unfoldable pub unless_empty : List String → Bool → Bool
unless_empty [] b = true
unless_empty (s ∷ ss) b = b

-- `(value or "").strip().casefold()`
unfoldable pub folded : Platform → Option String → String
folded p value = p.casefold (p.strip (or_text value ""))

unfoldable pub one_of : Platform → String → List String → Bool
unfolding any_text
one_of p value options = any_text (λ s. str_eq value (p.casefold s)) options

unfoldable pub city_matches : Platform → Option String → String → Bool
city_matches p none city = true
city_matches p (some expected) city =
    if truthy expected then str_eq city (p.casefold (p.strip expected)) else true

-- `_matches`
unfoldable pub matches_rule : Platform → Rule → Address → Option String → Bool
unfolding city_matches one_of unless_empty folded any_text
matches_rule p rule address original =
    city_matches p rule.city_equals (folded p address.city)
    && (unless_empty rule.state_in (one_of p (folded p address.state) rule.state_in)
        && (unless_empty rule.country_in (one_of p (folded p address.country) rule.country_in)
            && (unless_empty rule.street_contains_any (
                  any_text (λ s. contains_text (p.casefold s) (folded p address.street_address))
                    rule.street_contains_any)
                && unless_empty rule.original_street_number_in
                    (one_of p (folded p original) rule.original_street_number_in))))

-- `_applied_rule_version`
unfoldable pub applied_rule_version : Ruleset → Rule → String
applied_rule_version rs rule =
    let available = max 1 (64 - text_length rs.version - 1) in
    append (text_prefix available rule.name) (append "@" rs.version)

-- `_extract_street_number`
unfoldable pub extract_street_number : Platform → Option String → Option String
extract_street_number p none = none
extract_street_number p (some street) = if truthy street then p.street_number street else none

-- `location.original_street_number or self._extract_street_number(location.street_address)`
unfoldable pub original_number : Platform → Address → Option String
unfolding extract_street_number
original_number p address = elim address.original_street_number [
  | none ↦ extract_street_number p address.street_address
  | some number ↦
      if truthy number then some number else extract_street_number p address.street_address
]

-- The separator's `join` of the values that are there and not empty.
unfoldable pub join_values : String → List (Option String) → String
join_values separator [] = ""
join_values separator (none ∷ values) = join_values separator values
join_values separator (some value ∷ values) =
    let rest = join_values separator values in
    if truthy value
    then (if truthy rest then append value (append separator rest) else value)
    else rest

unfoldable pub display_name : Rule → Address → String
unfolding join_values
display_name rule address =
    let region = join_values " " (address.state ∷ address.postal_code ∷ []) in
    join_values ", " (
      some rule.normalized_street_address
      ∷ address.city
      ∷ (if truthy region then some region else none)
      ∷ address.country
      ∷ [])

unfoldable pub apply_rule : Ruleset → Rule → Option String → Address → Address
unfolding display_name applied_rule_version
apply_rule rs rule original address =
    let name = display_name rule address in
    record address {
      street_address = some rule.normalized_street_address;
      original_street_number = original;
      normalization_rule_version = some (applied_rule_version rs rule);
      display_name = if truthy name then some name else address.display_name;
    }

-- `normalize`
unfoldable pub normalize : Platform → Ruleset → Address → Address
unfolding original_number matches_rule apply_rule
normalize p rs address =
    let original = original_number p address in
    elim (first (λ rule. matches_rule p rule address original) rs.rules) [
      | none ↦ record address { original_street_number = original }
      | some rule ↦ apply_rule rs rule original address
    ]

-- `normalize_result`
unfoldable pub normalize_result : Platform → Ruleset → GeocodeResult → GeocodeResult
unfolding normalize
normalize_result p rs result = elim result.resolution [
  | none ↦ result
  | some r ↦ record result { resolution = some (record r { address = normalize p rs r.address }) }
]
