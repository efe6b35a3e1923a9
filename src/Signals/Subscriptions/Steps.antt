-- ===== src/Signals/Subscriptions/Steps.antt =====
-- The concrete maps and the live list, side by side through one operation.
use spiderw.Base.{ℕ, ◌+◌, ◌%◌, ◌^◌, some, List, [], ◌∷◌, ◌++◌}
use spiderw.Base.{◌≡◌, ◌∙◌, arith, if◌then◌else◌, Bool-cases, Option-cases, inl, inr}
use spiderw.Base.Text.{Text}
use spiderw.Signals.Registry.{
  Callback, Registry, Table, Subscription, bucket_of, remove_handler, unsubscribe, store_handler,
}
use spiderw.Signals.Subscriptions.Maps.{
  slice_at, same_place, slice_at-bucket_set, slice_at-put_back, slice_at-same_place,
}
use spiderw.Signals.Subscriptions.Live.{
  Live, place, standing, drop_id, find_id, standing-append, standing-drop_id, standing-absent,
}

-- Every slice of the maps holds the handlers that stand there, in the order of registration.
abbrev pub Represents : Registry → List Live → Type 0
Represents r live = (b : Table × Text) → slice_at r b ≡ standing b live

-- A subscription names the place of the live entry with its id, if there is one.
abbrev pub Agrees : List Live → Subscription → Type 0
Agrees live t = (s : Live) → find_id t.id live ≡ some s → place s ≡ (t.bucket, t.handler_key)

abbrev pub entry : Text → Text → Callback → ℕ → Live
entry iface member fn id = record {
  iface = iface;
  member = member;
  handler = record { id = id; fn = fn };
}

pub store_handler-Represents :
    (r : Registry) (live : List Live) (iface member : Text) (fn : Callback)
    → Represents r live
    → let (r', t) = store_handler r iface member fn in
      Represents r' (live ++ entry iface member fn t.id ∷ [])
unfolding store_handler
store_handler-Represents r live iface member fn h b =
    slice_at-bucket_set r _ (bucket_of iface member) _ b
    ∙ ground (
      arith,
      h b,
      standing-append b live (entry iface member fn ((r.next_handler_id + 1) % 2 ^ 64)),
      slice_at-same_place r (bucket_of iface member) b,
    )

drop-Represents :
    (r : Registry) (live : List Live) (t : Subscription) (b : Table × Text)
    → slice_at r b ≡ standing b live
    → Agrees live t
    → (if same_place (t.bucket, t.handler_key) b
        then remove_handler t.id (slice_at r (t.bucket, t.handler_key))
        else slice_at r b)
      ≡ standing b (drop_id t.id live)
drop-Represents r live t b h a = elim (Option-cases (find_id t.id live)) [
  | inl n ↦
      ground
        (arith, h, standing-absent b t.id live n, slice_at-same_place r (t.bucket, t.handler_key) b)
  | inr (s, q) ↦ ground (
    arith,
    h,
    a s q,
    standing-drop_id b t.id live s q,
    slice_at-same_place r (t.bucket, t.handler_key) b,
  )
]

pub unsubscribe-Represents :
    (r : Registry) (live : List Live) (t : Subscription)
    → Represents r live
    → Agrees live t
    → Represents (unsubscribe r t).0 (if t.done then live else drop_id t.id live)
unfolding unsubscribe
unsubscribe-Represents r live t h a b = elim (Bool-cases t.done) [
  | inl d ↦ rw d (h b)
  | inr d ↦
      rw d (slice_at-put_back r t.bucket t.handler_key _ b ∙ drop-Represents r live t b (h b) a)
]
