-- ===== src/Wire/Events/Delivered.antt =====
-- What a subscription hands on, against what the getter reads once the change has happened.
use spiderw.Base.{
  Bool, true, false, ◌||◌, ◌≡◌, refl, arith, Option, none, some, String, List, [], ◌∷◌, ◌++◌,
  str_eq, str_eq_iff, Bool-cases, Option-cases, inl, inr, if◌then◌else◌,
}
use spiderw.Wire.{
  Value, Props, lookup, contains, Iface, Caller, Result, ok, failed, read, read_optional,
}
use spiderw.Wire.Agreement.{Answers, value}
use spiderw.Wire.Events.{Event, delivered, delivered_optional, property_cleared, right}

-- The properties without those of the given names, and the properties after an event.
abbrev pub without : List String → Props → Props
without names [] = []
without names ((k, v) ∷ m) = if contains names k then without names m else (k, v) ∷ without names m

abbrev pub after : Event → Props → Props
after ev all = ev.changed ++ without ev.invalidated all

abbrev pub is_there : {A : Type 0} → Option A → Bool
is_there none = false
is_there (some a) = true

lookup-append-some :
    (k : String) (v : Value) (m n : Props) → lookup k m ≡ some v → lookup k (m ++ n) ≡ some v
unfolding lookup
lookup-append-some k v [] n h = absurd (ground (arith, h))
lookup-append-some k v ((j, w) ∷ m) n h = elim (Bool-cases (str_eq j k)) [
  | inl e ↦ rw (e) (rw (e) at h)
  | inr e ↦ rw (e) (lookup-append-some k v m n (rw (e) at h))
]

pub lookup-append-none :
    (k : String) (m n : Props) → lookup k m ≡ none → lookup k (m ++ n) ≡ lookup k n
unfolding lookup
lookup-append-none k [] n h = refl
lookup-append-none k ((j, w) ∷ m) n h = elim (Bool-cases (str_eq j k)) [
  | inl e ↦ let q : some w ≡ none = rw (e) at h in absurd (ground (arith, q))
  | inr e ↦ rw (e) (lookup-append-none k m n (rw (e) at h))
]

pub lookup-without :
    (names : List String) (k : String) (m : Props)
    → contains names k ≡ true
    → lookup k (without names m) ≡ none
unfolding lookup
lookup-without names k [] h = refl
lookup-without names k ((j, w) ∷ m) h = elim (Bool-cases (contains names j)) [
  | inl c ↦ rw (c) (lookup-without names k m h)
  | inr c ↦ elim (Bool-cases (str_eq j k)) [
    | inl e ↦
        let same : j ≡ k = (str_eq_iff j k).0 e in
        let q : contains names k ≡ false = rw (same) at c in absurd (ground (arith, q, h))
    | inr e ↦ rw (c, e, lookup) (lookup-without names k m h)
  ]
]

right-value : {A : Type 0} (r : Result A) → right r ≡ value r
right-value (ok a) = refl
right-value (failed e) = refl

-- The property of that name is one that the event changes.
abbrev pub is_changed : Event → String → Bool
is_changed ev prop = is_there (lookup prop ev.changed)

abbrev pub is_mentioned : Event → String → Bool
is_mentioned ev prop = is_changed ev prop || property_cleared ev.invalidated prop

module _ {c : Caller} {i : Iface} (all : Props) (ev : Event) (h : Answers c i (after ev all)) where
  pub delivered-read :
      {A : Type 0} (prop : String) (parse : Value → Result A)
      → delivered prop parse ev
        ≡ (if is_changed ev prop then value (read i prop parse (some c)) else none)
  unfolding delivered read
  delivered-read prop parse = elim (Option-cases (lookup prop ev.changed)) [
    | inl n ↦ rw (n, delivered) refl
    | inr (v, s) ↦
        let there = lookup-append-some prop v ev.changed (without ev.invalidated all) s in
        rw (s, h.gets prop v there, delivered) (right-value (parse v))
  ]

  pub delivered_optional-read_optional :
      {A : Type 0} (prop : String) (absent : A) (parse : Value → Result A)
      → delivered_optional prop absent parse ev ≡ (
          if is_mentioned ev prop then value (read_optional i prop absent parse (some c)) else none)
  unfolding delivered_optional read_optional property_cleared
  delivered_optional-read_optional prop absent parse =
      elim (Option-cases (lookup prop ev.changed)) [
        | inr (v, s) ↦
            let there = lookup-append-some prop v ev.changed (without ev.invalidated all) s in
            rw (s, h.gets prop v there, delivered_optional) (right-value (parse v))
        | inl n ↦ elim (Bool-cases (contains ev.invalidated prop)) [
          | inr k ↦ rw (n, k, delivered_optional) refl
          | inl k ↦
              let rest = without ev.invalidated all in
              let gone = lookup-without ev.invalidated prop all k in
              let gone' : lookup prop (after ev all) ≡ none =
                rw (lookup-append-none prop ev.changed rest n) gone in
              let (e, q, u) = h.lacks prop gone' in rw (n, k, q, u, delivered_optional) refl
        ]
      ]
