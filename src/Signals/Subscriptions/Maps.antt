-- ===== src/Signals/Subscriptions/Maps.antt =====
-- Reading a map of handlers after it was written.
use spiderw.Base.{ℕ, Bool, true, false, List, [], ◌∷◌, ◌≡◌, ◌↔◌, refl, ap, arith, if◌then◌else◌}
use spiderw.Base.Text.{Text, text_eq, text_eq_iff}
use spiderw.Signals.Registry.{Handler, Buckets, Table, exact, wildcard, Registry, table, with_table}
use spiderw.Signals.Registry.{bucket_get, bucket_set, bucket_delete, put_back}

bucket_get-bucket_set :
    (k j : Text) (hs : List Handler) (m : Buckets)
    → bucket_get j (bucket_set k hs m) ≡ (if text_eq k j then hs else bucket_get j m)
unfolding bucket_get bucket_set
bucket_get-bucket_set k j hs [] = refl
bucket_get-bucket_set k j hs ((i, old) ∷ m) =
    ground
      (arith, text_eq_iff k j, text_eq_iff i k, text_eq_iff i j, bucket_get-bucket_set k j hs m)

bucket_get-bucket_delete :
    (k j : Text) (m : Buckets)
    → bucket_get j (bucket_delete k m) ≡ (if text_eq k j then [] else bucket_get j m)
unfolding bucket_get bucket_delete
bucket_get-bucket_delete k j [] = ground arith
bucket_get-bucket_delete k j ((i, old) ∷ m) =
    ground
      (arith, text_eq_iff k j, text_eq_iff i k, text_eq_iff i j, bucket_get-bucket_delete k j m)

bucket_get-put_back :
    (k j : Text) (hs : List Handler) (m : Buckets)
    → bucket_get j (put_back k hs m) ≡ (if text_eq k j then hs else bucket_get j m)
bucket_get-put_back k j [] m = bucket_get-bucket_delete k j m
bucket_get-put_back k j (h ∷ hs) m = bucket_get-bucket_set k j (h ∷ hs) m

-- Whether two places in the maps are one.
abbrev pub same_place : Table × Text → Table × Text → Bool
same_place (exact, k) (exact, j) = text_eq k j
same_place (exact, k) (wildcard, j) = false
same_place (wildcard, k) (exact, j) = false
same_place (wildcard, k) (wildcard, j) = text_eq k j

abbrev pub slice_at : Registry → Table × Text → List Handler
slice_at r (t, k) = bucket_get k (table t r)

pub slice_at-bucket_set :
    (r : Registry) (id : ℕ) (p : Table × Text) (hs : List Handler) (b : Table × Text)
    → slice_at
        (with_table p.0 (bucket_set p.1 hs (table p.0 r)) (record r { next_handler_id = id }))
        b
      ≡ (if same_place p b then hs else slice_at r b)
slice_at-bucket_set r id (exact, k) hs (exact, j) = bucket_get-bucket_set k j hs r.handlers_exact
slice_at-bucket_set r id (exact, k) hs (wildcard, j) = refl
slice_at-bucket_set r id (wildcard, k) hs (exact, j) = refl
slice_at-bucket_set r id (wildcard, k) hs (wildcard, j) =
    bucket_get-bucket_set k j hs r.handlers_wildcard

pub slice_at-put_back :
    (r : Registry) (t : Table) (k : Text) (hs : List Handler) (b : Table × Text)
    → slice_at (with_table t (put_back k hs (table t r)) r) b
      ≡ (if same_place (t, k) b then hs else slice_at r b)
slice_at-put_back r exact k hs (exact, j) = bucket_get-put_back k j hs r.handlers_exact
slice_at-put_back r exact k hs (wildcard, j) = refl
slice_at-put_back r wildcard k hs (exact, j) = refl
slice_at-put_back r wildcard k hs (wildcard, j) = bucket_get-put_back k j hs r.handlers_wildcard

pub same_place_iff : (p b : Table × Text) → (same_place p b ≡ true) ↔ (p ≡ b)
same_place_iff (exact, k) (exact, j) = ground (arith, text_eq_iff k j)
same_place_iff (exact, k) (wildcard, j) = ground arith
same_place_iff (wildcard, k) (exact, j) = ground arith
same_place_iff (wildcard, k) (wildcard, j) = ground (arith, text_eq_iff k j)

pub slice_at-same_place :
    (r : Registry) (p b : Table × Text) → same_place p b ≡ true → slice_at r p ≡ slice_at r b
slice_at-same_place r p b e = ap (slice_at r) ((same_place_iff p b).0 e)
