-- ===== src/Outside/Balance.antt =====
-- Counting the objects that stay exported, and the closings of the connection.
use spiderw.Base.{ℕ, ◌+◌, ◌≡◌, ◌∙◌, refl, arith, String, none, some, ◌∷◌}
use spiderw.Base.{ℤ, List}
use spiderw.Errors.{Error}
use spiderw.Outside.{method_at}
use spiderw.Outside.{
  Peer, Trace, ask, exports, unexports, conn_closes, one_if_same, introspect, close_object, export,
  unexport, method, abort,
}

-- An export counts where the answer is nil.
abbrev pub rise : ℕ → Error → ℕ
rise n none = n
rise n (some e) = 0

module _ (path iface : String) where
  -- Between `t` and `t'` the exports of the object at `path` with `iface`, less its unexports, rose by
  -- `n`, and the connection was not closed.
  abbrev pub Rose : ℕ → Trace → Trace → Type 0
  Rose n t t' =
      (exports path iface t' + unexports path iface t
        ≡ exports path iface t + unexports path iface t' + n)
      × (conn_closes t' ≡ conn_closes t)

  pub ask-introspect : (p : Peer) (x : String) (t : Trace) → Rose 0 t (ask p (introspect x) t).1
  unfolding ask exports unexports conn_closes
  ask-introspect p x t = ground arith

  pub ask-close_object : (p : Peer) (x : String) (t : Trace) → Rose 0 t (ask p (close_object x) t).1
  unfolding ask exports unexports conn_closes
  ask-close_object p x t = ground arith

  pub ask-method : (p : Peer) (i m x : String) (t : Trace) → Rose 0 t (ask p (method i m x) t).1
  unfolding ask exports unexports conn_closes
  ask-method p i m x t = ground arith

  pub ask-method_at :
      (p : Peer) (o i m x : String) (ls : List ℤ) (t : Trace)
      → Rose 0 t (ask p (method_at o i m x ls) t).1
  unfolding ask exports unexports conn_closes
  ask-method_at p o i m x ls t = ground arith

  pub ask-abort : (p : Peer) (n : ℕ) (t : Trace) → Rose 0 t (ask p (abort n) t).1
  unfolding ask exports unexports conn_closes
  ask-abort p n t = ground arith

  pub ask-export :
      (p : Peer) (x i : String) (t : Trace)
      → Rose (rise (one_if_same path iface x i) (ask p (export x i) t).0) t (ask p (export x i) t).1
  unfolding ask exports unexports conn_closes
  ask-export p x i t = ask_answer (p.answer t (export x i))
    where
      ask_answer : (e : Error) → Rose (rise (one_if_same path iface x i) e) t ((export x i, e) ∷ t)
      ask_answer none = ground arith
      ask_answer (some e) = ground arith

  -- An unexport counts whatever the answer is.
  pub ask-unexport :
      (p : Peer) (x i : String) (t : Trace)
      → (exports path iface (ask p (unexport x i) t).1 ≡ exports path iface t)
        × (unexports path iface (ask p (unexport x i) t).1
            ≡ unexports path iface t + one_if_same path iface x i)
        × (conn_closes (ask p (unexport x i) t).1 ≡ conn_closes t)
  unfolding ask exports unexports conn_closes
  ask-unexport p x i t = (refl, ground arith, refl)

  pub Rose-after : (n : ℕ) (t t' u : Trace) → Rose 0 t t' → Rose n t' u → Rose n t u
  Rose-after n t t' u h k = (omega (arith, h.0, k.0), k.1 ∙ h.1)
