-- ===== src/Client/Runs.antt =====
-- Runs of the client's operations.
use spiderw.Base.{ℕ, List, [], ◌∷◌}
use spiderw.Outside.{Peer}
use spiderw.Agents.{CredentialCallbacks}
use spiderw.Client.{World, unregister, close, register_agent}

-- An operation that the user calls.
pub data Operation : Type 0 where
  register : CredentialCallbacks → Operation
  unregister_ : ℕ → Operation
  close_ : Operation

unfoldable pub perform : Peer → Operation → World → World
perform p (register callbacks) w = (register_agent p callbacks w).1
perform p (unregister_ i) w = (unregister p i w).1
perform p close_ w = (close p w).1

unfoldable pub run : Peer → List Operation → World → World
unfolding perform
run p [] w = w
run p (o ∷ os) w = run p os (perform p o w)
