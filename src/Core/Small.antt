-- ===== src/Core/Small.antt =====
-- internal/core/bss.go and internal/core/wsc.go.
use spiderw.Base.{Bool, true, ◌&&◌, ◌||◌, not, Option, some, String, leb, ◌==◌, if◌then◌else◌}
use spiderw.Base.Text.{is_blank, len}
use Prim.Native.Char.{code}
use spiderw.Failure.{Resource}
use spiderw.Errors.{
  Error, Object, sentinel, core_mark, wrap_invalid_argument, bss_unavailable_policy,
  simple_configuration_unavailable_policy,
}
use spiderw.Wire.{Result, ok, failed}
use spiderw.Core.{Facade, query, request, request_checked, required_text}

abbrev pub basic_service_set : Facade
basic_service_set = record {
  noun = "BasicServiceSet";
  words = "basic service set";
  object = Object.basic_service_set;
  policy = bss_unavailable_policy;
}

unfoldable pub address : Option (Result String) → Result String
unfolding query required_text
address b =
    query basic_service_set "Address" "failed querying iwd BasicServiceSet address" b
      (required_text basic_service_set "BasicServiceSet.Address" "Address")

-- `Properties`, whose one field is the address.
unfoldable pub properties : Option (Result String) → Result String
unfolding query required_text
properties b =
    query basic_service_set "Properties" "failed querying iwd BasicServiceSet properties" b
      (required_text basic_service_set "BasicServiceSet.Properties" "Address")

abbrev pub simple_configuration : Facade
simple_configuration = record {
  noun = "SimpleConfiguration";
  words = "simple configuration";
  object = Object.simple_configuration;
  policy = simple_configuration_unavailable_policy;
}

-- `normalizeWSCPin`: what `strings.Map` drops, the loop over the digits, and the tests. Its error is
-- quoted as a text by its caller.
unfoldable pub without_separators : String → String
without_separators String.[] = String.[]
without_separators (String.◌∷◌ c s) =
    let rest = without_separators s in
    if code c == b' ' || code c == b'-' then rest else String.◌∷◌ c rest

unfoldable pub all_digits : String → Bool
all_digits String.[] = true
all_digits (String.◌∷◌ c s) = leb b'0' (code c) && leb (code c) b'9' && all_digits s

abbrev pub bad_pin : String → Error
bad_pin details =
    wrap_invalid_argument Resource.simple_configuration "SimpleConfiguration.StartPin" details
      (some (sentinel core_mark))

abbrev pub tested_pin : String → Result String
tested_pin cleaned =
    if is_blank cleaned
    then failed (bad_pin "WSC PIN must not be empty")
    else if not (all_digits cleaned)
    then failed (bad_pin "WSC PIN must contain only digits (optionally spaced or hyphenated)")
    else if not (len cleaned == 4) && not (len cleaned == 8)
    then failed (bad_pin "WSC PIN must be 4 or 8 digits")
    else ok cleaned

unfoldable pub normalize_wsc_pin : String → Result String
unfolding without_separators all_digits len wrap_invalid_argument
normalize_wsc_pin pin = tested_pin (without_separators pin)

unfoldable pub push_button : Option Error → Error
unfolding request
push_button b =
    request simple_configuration "PushButton" "failed starting WSC PushButton enrollment" b

unfoldable pub generate_pin : Option (Result String) → Result String
unfolding query
generate_pin b = query simple_configuration "GeneratePin" "failed generating WSC PIN" b ok

-- `StartPin`, for an object that answers each pin.
unfoldable pub start_pin : Option (String → Error) → String → Error
unfolding request_checked normalize_wsc_pin
start_pin b pin =
    request_checked simple_configuration "StartPin" "failed starting WSC PIN enrollment" b
      (normalize_wsc_pin pin)

unfoldable pub cancel : Option Error → Error
unfolding request
cancel b = request simple_configuration "Cancel" "failed canceling WSC operation" b
