-- ===== src/Chain/EventSource/Ordered.antt =====
-- The order and the ids of the events that `dedupeById` returns.
use lumengate.Prelude.{
  ◌≤◌, ◌≡◌, refl, ap, ◌∙◌, inl, inr, true, false, List, [], ◌∷◌, arith, leb, leb→le, le→leb,
  Bool-cases, All,
}
use Prim.Native.String.{String}
use text.Mathlib.Text.{◌==◌ as str_eq}
use text.Mathlib.TextEquality.{eq_iff}
use lumengate.Chain.Events.{ConfidentialEvent, base}
use lumengate.Chain.EventSource.{has, first_by_id, insert_by_ledger, sort_by_ledger, dedupe_by_id}

str_eq_comm : (a b : String) → str_eq a b ≡ false → str_eq b a ≡ false
str_eq_comm a b h = ground (arith, eq_iff a b, eq_iff b a)

has_not :
    (keys : List String) (a b : String)
    → has keys a ≡ true
    → has keys b ≡ false
    → str_eq a b ≡ false
unfolding has
has_not keys a b ha hb = elim (Bool-cases (str_eq a b)) [
  | inl same ↦ cc (ha, hb, (eq_iff a b).0 same)
  | inr other ↦ other
]

module _ {Point : Type 0} where
  abbrev IsFirst : ConfidentialEvent Point → List (ConfidentialEvent Point) → Type 0
  IsFirst ev [] = Unit
  IsFirst ev (other ∷ events) = (base ev).ledger ≤ (base other).ledger

  abbrev pub IsSorted : List (ConfidentialEvent Point) → Type 0
  IsSorted [] = Unit
  IsSorted (ev ∷ events) = IsFirst ev events × IsSorted events

  -- No event has the id.
  abbrev pub IsAbsent : String → List (ConfidentialEvent Point) → Type 0
  IsAbsent id events = All (λ ev. str_eq id (base ev).cursor ≡ false) events

  abbrev pub AreDistinct : List (ConfidentialEvent Point) → Type 0
  AreDistinct [] = Unit
  AreDistinct (ev ∷ events) = IsAbsent (base ev).cursor events × AreDistinct events

  first_by_id-IsAbsent :
      (events : List (ConfidentialEvent Point)) (keys : List String) (id : String)
      → has keys id ≡ true
      → IsAbsent id (first_by_id keys events)
  unfolding first_by_id has
  first_by_id-IsAbsent [] keys id h = tt
  first_by_id-IsAbsent (ev ∷ events) keys id h = elim (Bool-cases (has keys (base ev).cursor)) [
    | inl y ↦ rw y (first_by_id-IsAbsent events keys id h)
    | inr n ↦ rw n (
      has_not keys id (base ev).cursor h n,
      first_by_id-IsAbsent events ((base ev).cursor ∷ keys) id (ground (arith, h)),
    )
  ]

  first_by_id-AreDistinct :
      (events : List (ConfidentialEvent Point)) (keys : List String)
      → AreDistinct (first_by_id keys events)
  unfolding first_by_id has
  first_by_id-AreDistinct [] keys = tt
  first_by_id-AreDistinct (ev ∷ events) keys = elim (Bool-cases (has keys (base ev).cursor)) [
    | inl y ↦ rw y (first_by_id-AreDistinct events keys)
    | inr n ↦ rw n (
      first_by_id-IsAbsent events ((base ev).cursor ∷ keys) (base ev).cursor
          (ground (arith, eq_iff (base ev).cursor (base ev).cursor)),
      first_by_id-AreDistinct events ((base ev).cursor ∷ keys),
    )
  ]

  insert-IsAbsent :
      (ev : ConfidentialEvent Point) (events : List (ConfidentialEvent Point)) (id : String)
      → str_eq id (base ev).cursor ≡ false
      → IsAbsent id events
      → IsAbsent id (insert_by_ledger ev events)
  unfolding insert_by_ledger
  insert-IsAbsent ev [] id h hs = (h, tt)
  insert-IsAbsent ev (other ∷ events) id h (ho, hs) =
      elim (Bool-cases (leb (base ev).ledger (base other).ledger)) [
        | inl y ↦ rw y (h, (ho, hs))
        | inr n ↦ rw n (ho, insert-IsAbsent ev events id h hs)
      ]

  insert-AreDistinct :
      (ev : ConfidentialEvent Point) (events : List (ConfidentialEvent Point))
      → IsAbsent (base ev).cursor events
      → AreDistinct events
      → AreDistinct (insert_by_ledger ev events)
  unfolding insert_by_ledger
  insert-AreDistinct ev [] h d = (tt, tt)
  insert-AreDistinct ev (other ∷ events) (h, hs) (d, ds) =
      elim (Bool-cases (leb (base ev).ledger (base other).ledger)) [
        | inl y ↦ rw y ((h, hs), (d, ds))
        | inr n ↦ rw n (
          insert-IsAbsent ev events (base other).cursor (str_eq_comm _ _ h) d,
          insert-AreDistinct ev events hs ds,
        )
      ]

  sort-IsAbsent :
      (events : List (ConfidentialEvent Point)) (id : String)
      → IsAbsent id events
      → IsAbsent id (sort_by_ledger events)
  unfolding sort_by_ledger
  sort-IsAbsent [] id h = tt
  sort-IsAbsent (ev ∷ events) id (h, hs) = insert-IsAbsent ev _ id h (sort-IsAbsent events id hs)

  sort-AreDistinct :
      (events : List (ConfidentialEvent Point))
      → AreDistinct events
      → AreDistinct (sort_by_ledger events)
  unfolding sort_by_ledger
  sort-AreDistinct [] d = tt
  sort-AreDistinct (ev ∷ events) (d, ds) =
      insert-AreDistinct ev _ (sort-IsAbsent events _ d) (sort-AreDistinct events ds)

  -- Inserting keeps the order, and what may stand before the list may stand before the result.
  insert-IsSorted :
      (ev : ConfidentialEvent Point) (events : List (ConfidentialEvent Point))
      → IsSorted events
      → IsSorted (insert_by_ledger ev events)
        × ((x : ConfidentialEvent Point)
            → (base x).ledger ≤ (base ev).ledger
            → IsFirst x events
            → IsFirst x (insert_by_ledger ev events))
  unfolding insert_by_ledger
  insert-IsSorted ev [] s = ((tt, tt), λ x h f. h)
  insert-IsSorted ev (other ∷ events) (f, s) =
      elim (Bool-cases (leb (base ev).ledger (base other).ledger)) [
        | inl y ↦ rw y ((leb→le (base ev).ledger (base other).ledger y, (f, s)), λ x h first. h)
        | inr n ↦
            let (sorted, before) = insert-IsSorted ev events s in
            rw n ((before other (ground arith) f, sorted), λ x h first. first)
      ]

  sort-IsSorted : (events : List (ConfidentialEvent Point)) → IsSorted (sort_by_ledger events)
  unfolding sort_by_ledger
  sort-IsSorted [] = tt
  sort-IsSorted (ev ∷ events) = (insert-IsSorted ev _ (sort-IsSorted events)).0

  insert-first :
      (ev : ConfidentialEvent Point) (events : List (ConfidentialEvent Point))
      → IsFirst ev events
      → insert_by_ledger ev events ≡ ev ∷ events
  unfolding insert_by_ledger
  insert-first ev [] f = refl
  insert-first ev (other ∷ events) f = rw (le→leb (base ev).ledger (base other).ledger f) refl

  sort_of_IsSorted :
      (events : List (ConfidentialEvent Point)) → IsSorted events → sort_by_ledger events ≡ events
  unfolding sort_by_ledger
  sort_of_IsSorted [] s = refl
  sort_of_IsSorted (ev ∷ events) (f, s) = rw (sort_of_IsSorted events s) (insert-first ev events f)

  first_of_AreDistinct :
      (events : List (ConfidentialEvent Point)) (keys : List String)
      → AreDistinct events
      → All (λ ev. has keys (base ev).cursor ≡ false) events
      → first_by_id keys events ≡ events
  unfolding first_by_id has
  first_of_AreDistinct [] keys d u = refl
  first_of_AreDistinct (ev ∷ events) keys (d, ds) (u, us) = rw u (
      ap (λ later. ev ∷ later)
        (first_of_AreDistinct events ((base ev).cursor ∷ keys) ds (still events d us)))
    where
      still :
          (events' : List (ConfidentialEvent Point))
          → IsAbsent (base ev).cursor events'
          → All (λ e. has keys (base e).cursor ≡ false) events'
          → All (λ e. has ((base ev).cursor ∷ keys) (base e).cursor ≡ false) events'
      still [] d' u' = tt
      still (e ∷ events') (d', ds') (u', us') = (rw d' u', still events' ds' us')

  unseen :
      (events : List (ConfidentialEvent Point)) → All (λ ev. has [] (base ev).cursor ≡ false) events
  unfolding has
  unseen [] = tt
  unseen (ev ∷ events) = (refl, unseen events)

  -- The result of dedupeById is in the order of the ledgers and has each id once, and a second
  -- run leaves it as it is.
  pub dedupe_by_id-AreDistinct :
      (events : List (ConfidentialEvent Point))
      → IsSorted (dedupe_by_id events)
        × AreDistinct (dedupe_by_id events)
        × (dedupe_by_id (dedupe_by_id events) ≡ dedupe_by_id events)
  unfolding dedupe_by_id
  dedupe_by_id-AreDistinct events =
      let sorted = sort-IsSorted (first_by_id [] events) in
      let distinct = sort-AreDistinct _ (first_by_id-AreDistinct events []) in
      (
        sorted,
        distinct,
        ap sort_by_ledger (
              first_of_AreDistinct (dedupe_by_id events) [] distinct (unseen (dedupe_by_id events)))
            ∙ sort_of_IsSorted (dedupe_by_id events) sorted,
      )

  -- Events with distinct ids in the order of the ledgers pass dedupeById as they are, those of
  -- one ledger in their order included.
  pub dedupe_by_id_of_IsSorted :
      (events : List (ConfidentialEvent Point))
      → IsSorted events
      → AreDistinct events
      → dedupe_by_id events ≡ events
  unfolding dedupe_by_id
  dedupe_by_id_of_IsSorted events s d =
      ap sort_by_ledger (first_of_AreDistinct events [] d (unseen events))
      ∙ sort_of_IsSorted events s
