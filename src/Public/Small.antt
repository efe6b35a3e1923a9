-- ===== src/Public/Small.antt =====
-- bss.go and wsc.go.
use spiderw.Base.{Bool, true, false, Option, none, some, String}
use spiderw.Errors.{Error, wrap_public_error}
use spiderw.Wire.{Result, ok, failed}
use spiderw.Public.{delegate, do_request, uninitialized}

unfoldable pub address : Option (Result String) → Result String
unfolding delegate
address b = delegate "BasicServiceSet.Address" b (λ r. r)

-- `Properties`, whose one field is the address.
unfoldable pub properties : Option (Result String) → Result String
unfolding delegate
properties b = delegate "BasicServiceSet.Properties" b (λ r. r)

unfoldable pub push_button : Option Error → Error
unfolding do_request
push_button b = do_request "SimpleConfiguration.PushButton" b (λ e. e)

unfoldable pub generate_pin : Option (Result String) → Result String
unfolding delegate
generate_pin b = delegate "SimpleConfiguration.GeneratePin" b (λ r. r)

-- `StartPin`, for an object that answers each pin.
unfoldable pub start_pin : Option (String → Error) → String → Error
unfolding do_request
start_pin b pin = do_request "SimpleConfiguration.StartPin" b (λ (c : String → Error). c pin)

unfoldable pub cancel : Option Error → Error
unfolding do_request
cancel b = do_request "SimpleConfiguration.Cancel" b (λ e. e)

-- `Station.SimpleConfiguration`, for whether there is a station and the hook that its client attached.
abbrev pub handle_of : {H : Type 0} → String → Result (Option H) → Result H
handle_of op (failed e) = failed (wrap_public_error op e)
handle_of op (ok none) = failed (uninitialized op)
handle_of op (ok (some h)) = ok h

unfoldable pub simple_configuration :
    {H : Type 0} → Bool → Option (String → Result (Option H)) → String → Result H
unfolding wrap_public_error
simple_configuration false hook path = failed (uninitialized "Station.SimpleConfiguration")
simple_configuration true none path = failed (uninitialized "Station.SimpleConfiguration")
simple_configuration true (some new) path = handle_of "Station.SimpleConfiguration" (new path)
