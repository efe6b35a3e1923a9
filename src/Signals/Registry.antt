-- ===== src/Signals/Registry.antt =====
-- internal/iwdbus/introspect.go and splitSignalName of internal/iwdbus/utils.go: the maps of
-- handlers, registering, unsubscribing, and the choice of the handlers for a signal.
use spiderw.Base.{
  ℕ, ◌+◌, ◌%◌, ◌^◌, Bool, true, false, ◌&&◌, Option, none, some, List, [], ◌∷◌, ◌++◌,
}
use spiderw.Base.{map, String, ◌==◌, if◌then◌else◌}
use spiderw.Base.Text.{Text, text_eq, codes, is_empty, dot, split_dots, join_dots, all_but_last}
use spiderw.Base.Text.{last_or}
use spiderw.Errors.{Error, Err, plain, wrap_method}

-- A callback, by a number that stands for the function value.
abbrev pub Callback : Type 0
Callback = ℕ

-- `signalHandler`.
pub record Handler : Type 0 where
  pub id : ℕ
  pub fn : Callback

-- A `map[string][]signalHandler`; a missing key reads as the empty slice.
abbrev pub Buckets : Type 0
Buckets = List (Text × List Handler)

-- The two maps, as the pointer `bucket` of an unsubscribe function names one of them.
pub data Table : Type 0 where
  exact wildcard : Table

-- The fields of `IntrospectedObject` that registering changes.
pub record Registry : Type 0 where
  pub handlers_exact : Buckets
  pub handlers_wildcard : Buckets
  pub next_handler_id : ℕ  -- atomic.Uint64

abbrev pub empty : Registry
empty = record { handlers_exact = []; handlers_wildcard = []; next_handler_id = 0 }

unfoldable pub bucket_get : Text → Buckets → List Handler
bucket_get k [] = []
bucket_get k ((j, hs) ∷ m) = if text_eq j k then hs else bucket_get k m

unfoldable pub bucket_set : Text → List Handler → Buckets → Buckets
bucket_set k hs [] = (k, hs) ∷ []
bucket_set k hs ((j, old) ∷ m) =
    let rest = bucket_set k hs m in if text_eq j k then (j, hs) ∷ m else (j, old) ∷ rest

-- `delete(m, k)`.
unfoldable pub bucket_delete : Text → Buckets → Buckets
bucket_delete k [] = []
bucket_delete k ((j, hs) ∷ m) =
    let rest = bucket_delete k m in if text_eq j k then rest else (j, hs) ∷ rest

abbrev pub table : Table → Registry → Buckets
table exact r = r.handlers_exact
table wildcard r = r.handlers_wildcard

abbrev pub with_table : Table → Buckets → Registry → Registry
with_table exact m r = record r { handlers_exact = m }
with_table wildcard m r = record r { handlers_wildcard = m }

abbrev pub star : Text
star = b'*' ∷ []

abbrev pub is_star : Text → Bool
is_star s = text_eq s star

-- `iface + ".*"`.
abbrev pub any_member : Text → Text
any_member iface = iface ++ dot ∷ star

-- `iface + "." + member`.
abbrev pub full_name : Text → Text → Text
full_name iface member = iface ++ dot ∷ member

-- The `switch` that stores a handler: the map and its key.
unfoldable pub bucket_of : Text → Text → Table × Text
bucket_of iface member =
    if is_star iface && is_star member
    then (wildcard, star)
    else if is_star iface
    then (wildcard, member)
    else if is_star member
    then (wildcard, any_member iface)
    else (exact, full_name iface member)

-- What an unsubscribe function has captured, with the state of its `sync.Once`.
pub record Subscription : Type 0 where
  pub id : ℕ
  pub bucket : Table
  pub handler_key : Text
  pub done : Bool

-- The loop that takes the handler with the id out of its slice.
unfoldable pub remove_handler : ℕ → List Handler → List Handler
remove_handler id [] = []
remove_handler id (h ∷ hs) = let rest = remove_handler id hs in if h.id == id then hs else h ∷ rest

-- The end of the unsubscribe function: an empty slice is deleted from its map.
abbrev pub put_back : Text → List Handler → Buckets → Buckets
put_back k [] m = bucket_delete k m
put_back k (h ∷ hs) m = bucket_set k (h ∷ hs) m

-- A call of the unsubscribe function. The `Once` makes every call but the first do nothing.
unfoldable pub unsubscribe : Registry → Subscription → Registry × Subscription
unfolding remove_handler bucket_get bucket_set bucket_delete
unsubscribe r s =
    let m = table s.bucket r in
    let handlers = remove_handler s.id (bucket_get s.handler_key m) in
    if s.done
    then (r, s)
    else (with_table s.bucket (put_back s.handler_key handlers m) r, record s { done = true })

-- The part of registering under `mu`: a new id, and the handler at the end of its slice.
unfoldable pub store_handler : Registry → Text → Text → Callback → Registry × Subscription
unfolding bucket_of bucket_get bucket_set
store_handler r iface member fn =
    let id = (r.next_handler_id + 1) % 2 ^ 64 in
    let (t, k) = bucket_of iface member in
    let stored : Handler = record { id = id; fn = fn } in
    let m = table t r in
    let r' = record r { next_handler_id = id } in
    (
      with_table t (bucket_set k (bucket_get k m ++ stored ∷ []) m) r',
      record { id = id; bucket = t; handler_key = k; done = false },
    )

-- The match rule sent to the bus, for the path of the object.
abbrev quoted : String → Text → Text
quoted label value = codes label ++ (value ++ b'\'' ∷ [])

unfoldable pub match_rule : Text → Text → Text → Text
match_rule path iface member =
    quoted "type='signal',path='" path
    ++ ((if is_star iface then [] else if is_empty iface then [] else quoted ",interface='" iface)
        ++ (if is_star member then [] else quoted ",member='" member))

pub data Registered : Type 0 where
  registered : Subscription → Registered
  failed : Err → Registered

abbrev pub bus_iface : String
bus_iface = "org.freedesktop.DBus"

-- What registering returns for the bus's reply to `AddMatch`: an error takes the handler out again.
abbrev pub add_match_reply : Registry → Subscription → Error → Registry × Registered
add_match_reply r s none = (r, registered s)
add_match_reply r s (some e) = ((unsubscribe r s).0, failed e)

-- `RegisterSignalHandlerWithUnsubscribe`. `bus` is none for an object with no connection, and
-- otherwise the bus's reply to `AddMatch` of a rule.
unfoldable pub register :
    Registry → Text → Option (Text → Error) → Text → Text → Option Callback → Registry × Registered
unfolding store_handler unsubscribe
register r path bus iface member none =
    (r, failed (plain "RegisterSignalHandler: handler cannot be nil"))
register r path bus iface [] (some fn) =
    (r, failed (plain "RegisterSignalHandler: member cannot be empty"))
register r path none iface (c ∷ cs) (some fn) =
    let (r', s) = store_handler r iface (c ∷ cs) fn in (r', registered s)
register r path (some add_match) iface (c ∷ cs) (some fn) =
    let (r', s) = store_handler r iface (c ∷ cs) fn in
    add_match_reply r' s
      (wrap_method bus_iface "AddMatch" (add_match (match_rule path iface (c ∷ cs))))

-- `splitSignalName`: the part before the last dot, and the part behind it.
abbrev pub name_of_parts : Text → List Text → Text × Text
name_of_parts name [] = (name, [])
name_of_parts name (p ∷ []) = (name, [])
name_of_parts name (p ∷ q ∷ ps) = (join_dots (all_but_last (p ∷ q ∷ ps)), last_or [] (p ∷ q ∷ ps))

unfoldable pub split_signal_name : Text → Text × Text
split_signal_name name = name_of_parts name (split_dots name)

-- `resolveHandlers`, for a signal's interface and member.
unfoldable pub handlers_for : Registry → Text → Text → List Handler
unfolding bucket_get
handlers_for r iface member =
    bucket_get (full_name iface member) r.handlers_exact
    ++ (bucket_get member r.handlers_wildcard
        ++ (bucket_get (any_member iface) r.handlers_wildcard
            ++ bucket_get star r.handlers_wildcard))

unfoldable pub resolve_handlers : Registry → Text → List Callback
unfolding split_signal_name handlers_for
resolve_handlers r name =
    let (iface, member) = split_signal_name name in map (λ h. h.fn) (handlers_for r iface member)
