-- ===== src/Outside.antt =====
-- What the library asks of the world outside it (godbus and iwd over it, and the contexts of
-- package context), as calls that a peer answers with an error or nil. A trace holds the calls made
-- so far with their answers, the latest first.
pub mod Balance
use spiderw.Base.{
  ℕ, suc, ◌+◌, Bool, true, false, String, List, [], ◌∷◌, Option, none, str_eq, ◌&&◌, if◌then◌else◌,
}
use spiderw.Base.{ℤ}
use spiderw.Errors.{Error}

-- `introspect` stands for `NewIntrospectedObject`, `close_object` for `IntrospectedObject.Close`,
-- `export` and `unexport` for `Conn.Export` of an object and of nil, `method` for
-- `IntrospectedObject.Call` on the daemon with the path that is its argument, `method_at` for the
-- same on the object at a path, with the levels that are the last argument, `close_conn` for `Conn.Close`, and
-- `abort` for the cancel function of the context with that number.
pub data Call : Type 0 where
  connect : Bool → Call
  introspect : String → Call
  close_object : String → Call
  export unexport : String → String → Call
  method : String → String → String → Call
  method_at : String → String → String → String → List ℤ → Call
  close_conn : Call
  abort : ℕ → Call

abbrev pub Trace : Type 0
Trace = List (Call × Error)

-- The peer: its answer to a call may depend on all that was called before. `has_interface` is the
-- outcome of `HasInterface` on an introspected object, `is_valid_path` that of `ObjectPath.IsValid`.
pub record Peer : Type 0 where
  pub answer : Trace → Call → Error
  pub has_interface : String → String → Bool
  pub is_valid_path : String → Bool

-- A computation that makes calls: its result, and the trace after it.
abbrev pub Io : Type 0 → Type 0
Io A = Trace → A × Trace

-- One call: its answer goes to the caller and into the trace.
unfoldable pub ask : Peer → Call → Io Error
ask p c t = let e = p.answer t c in (e, (c, e) ∷ t)

-- A pointer or nil, with an error or nil.
abbrev pub Returned : Type 0 → Type 0
Returned A = Option A × Error

-- 1 where two objects are at the same path with the same interface, and 0 otherwise.
unfoldable pub one_if_same : String → String → String → String → ℕ
one_if_same path iface x i = if str_eq path x && str_eq iface i then 1 else 0

-- How often the object at a path with an interface was exported, and how often it was unexported,
-- whatever the answer.
unfoldable pub exports : String → String → Trace → ℕ
unfolding one_if_same
exports path iface [] = 0
exports path iface ((export x i, none) ∷ t) = one_if_same path iface x i + exports path iface t
exports path iface (_ ∷ t) = exports path iface t

unfoldable pub unexports : String → String → Trace → ℕ
unfolding one_if_same
unexports path iface [] = 0
unexports path iface ((unexport x i, e) ∷ t) = one_if_same path iface x i + unexports path iface t
unexports path iface (_ ∷ t) = unexports path iface t

-- How often the connection was closed.
unfoldable pub conn_closes : Trace → ℕ
conn_closes [] = 0
conn_closes ((close_conn, e) ∷ t) = suc (conn_closes t)
conn_closes (_ ∷ t) = conn_closes t

-- How many connections were made.
unfoldable pub connects : Trace → ℕ
connects [] = 0
connects ((connect b, none) ∷ t) = suc (connects t)
connects (_ ∷ t) = connects t
