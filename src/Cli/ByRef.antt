-- ===== src/Cli/ByRef.antt =====
-- cmd/spiderw/cli: the object that a reference on the command line means, by its path or its name.
use spiderw.Base.{
  Bool, true, false, ◌||◌, ◌≡◌, some, String, List, [], ◌∷◌, ◌++◌, ◌<>◌, All, str_eq, if◌then◌else◌,
}
use spiderw.Base.Text.{is_blank, trim_space}
use spiderw.Daemon.{Ref}
use spiderw.Errors.{plain}
use spiderw.Wire.{Result, ok, failed, ◌>>=◌}

abbrev pub means : String → Ref → Bool
means ref r = str_eq r.path ref || str_eq r.name ref

-- The loop that collects the matches of `stationByRef` and the six functions like it.
unfoldable pub matches : String → List Ref → List Ref
matches ref [] = []
matches ref (r ∷ rs) = let rest = matches ref rs in if means ref r then r ∷ rest else rest

-- The words that the errors name one kind of object with.
pub record Words : Type 0 where
  pub one : String
  pub many : String
  pub reference : String
  pub hint : String

abbrev pub the_only : (String → String) → Words → String → List Ref → Result String
the_only quote w ref [] = failed (some (plain (w.one <> " " <> quote ref <> " not found")))
the_only quote w ref (r ∷ []) = ok r.path
the_only quote w ref (r ∷ s ∷ rs) =
    failed
      (some (plain (w.reference <> " reference " <> quote ref <> " is ambiguous; use " <> w.hint)))

abbrev pub among : (String → String) → Words → String → List Ref → Result String
among quote w ref [] = failed (some (plain ("no " <> w.many <> " available")))
among quote w ref (r ∷ rs) = the_only quote w ref (matches ref (r ∷ rs))

-- The common body of the seven functions, up to the call of the client, which asks for the path. What the
-- daemon enumerates is an argument, and so is the form that `%q` gives a text. The name of a basic service
-- set is its address.
unfoldable pub by_ref : (String → String) → Words → Result (List Ref) → String → Result String
unfolding matches trim_space
by_ref quote w refs ref =
    let trimmed = trim_space ref in
    if is_blank trimmed
    then failed (some (plain (w.reference <> " reference required")))
    else refs >>= among quote w trimmed

abbrev pub adapter_by_ref : (String → String) → Result (List Ref) → String → Result String
adapter_by_ref quote =
    by_ref quote (record {
      one = "adapter";
      many = "adapters";
      reference = "adapter";
      hint = "an adapter path";
    })

abbrev pub device_by_ref : (String → String) → Result (List Ref) → String → Result String
device_by_ref quote =
    by_ref quote
      (record { one = "device"; many = "devices"; reference = "device"; hint = "a device path" })

abbrev pub network_by_ref : (String → String) → Result (List Ref) → String → Result String
network_by_ref quote =
    by_ref quote (record {
      one = "network";
      many = "networks";
      reference = "network";
      hint = "a network path";
    })

abbrev pub station_by_ref : (String → String) → Result (List Ref) → String → Result String
station_by_ref quote =
    by_ref quote (record {
      one = "station";
      many = "stations";
      reference = "station";
      hint = "a station path";
    })

abbrev pub bss_by_ref : (String → String) → Result (List Ref) → String → Result String
bss_by_ref quote = by_ref quote (record {
  one = "basic service set";
  many = "basic service sets";
  reference = "basic service set";
  hint = "a path";
})

abbrev pub known_network_by_ref : (String → String) → Result (List Ref) → String → Result String
known_network_by_ref quote = by_ref quote (record {
  one = "known network";
  many = "known networks";
  reference = "known-network";
  hint = "a path";
})

abbrev pub access_point_by_ref : (String → String) → Result (List Ref) → String → Result String
access_point_by_ref quote = by_ref quote (record {
  one = "access point";
  many = "access points";
  reference = "access point";
  hint = "an object path";
})

-- Exactly one of the references is meant, and has the path `p`.
abbrev pub MeansOne : String → List Ref → String → Type 0
MeansOne ref rs p =
    (xs : List Ref) × ((r : Ref) × ((ys : List Ref) × (rs ≡ xs ++ r ∷ ys)
        × (r.path ≡ p)
        × (means ref r ≡ true)
        × All (λ (x : Ref). means ref x ≡ false) xs
        × All (λ (x : Ref). means ref x ≡ false) ys))
