-- ===== src/Concurrency/Slots.antt =====
-- The slots of the pipeline (internal/mod/migration/pipeline_concurrency.go): acquireSlot, releaseSlot
-- and SetMaxConcurrent.
use meshium.Prelude.{
  ℕ, suc, ◌-◌, ◌≤◌, ◌<◌, ◌≡◌, Bool, true, false, if◌then◌else◌, ltb, Option, none, some, List, [],
  ◌∷◌, arith,
}
use meshium.Concurrency.{Semaphore, set_max_concurrent, acquire_slot, release_slot}

-- The semaphore and the number of runs that have acquired a slot and not given it back.
pub record Slots : Type 0 where
  pub sem : Semaphore
  pub in_flight : ℕ

-- A run takes a slot, a run at its end gives its slot back, or the ceiling is changed.
pub data SlotEvent : Type 0 where
  take give_back : SlotEvent
  set_max : ℕ → SlotEvent

abbrev taking : Option Semaphore → Slots → Slots
taking none st = st
taking (some sem) st = record { sem = sem; in_flight = suc st.in_flight }

abbrev giving_back : Option Semaphore → Slots → Slots
giving_back none st = st
giving_back (some sem) st = record { sem = sem; in_flight = st.in_flight - 1 }

-- An event that would block does not happen yet, and leaves everything as it is.
unfoldable pub slot_event : SlotEvent → Slots → Slots
unfolding acquire_slot release_slot set_max_concurrent
slot_event take st = taking (acquire_slot st.sem) st
slot_event give_back st = if ltb 0 st.in_flight then giving_back (release_slot st.sem) st else st
slot_event (set_max n) st = record st { sem = set_max_concurrent n st.sem }

unfoldable pub slot_events : List SlotEvent → Slots → Slots
unfolding slot_event
slot_events [] st = st
slot_events (e ∷ rest) st = slot_events rest (slot_event e st)

-- The slots that are taken belong to runs, and are no more than the ceiling.
abbrev pub Bounded : Slots → Type 0
Bounded st = (st.sem.taken ≤ st.sem.capacity) × (st.sem.taken ≤ st.in_flight)

slot_event-Bounded : (e : SlotEvent) (st : Slots) → Bounded st → Bounded (slot_event e st)
unfolding slot_event acquire_slot release_slot set_max_concurrent
slot_event-Bounded take st b = ground (arith, b)
slot_event-Bounded give_back st b = ground (arith, b)
slot_event-Bounded (set_max n) st b = ground (arith, b)

-- Whatever runs take and give back and however the ceiling is changed, the slots taken are at most
-- the ceiling and at most the runs in flight.
pub slot_events-Bounded :
    (l : List SlotEvent) (st : Slots) → Bounded st → Bounded (slot_events l st)
unfolding slot_events
slot_events-Bounded [] st b = b
slot_events-Bounded (e ∷ rest) st b =
    slot_events-Bounded rest (slot_event e st) (slot_event-Bounded e st b)

abbrev is_set_max : SlotEvent → Bool
is_set_max (set_max n) = true
is_set_max _ = false

abbrev pub unchanged : List SlotEvent → Bool
unchanged [] = true
unchanged (e ∷ rest) = if is_set_max e then false else unchanged rest

even_event :
    (e : SlotEvent) (st : Slots)
    → is_set_max e ≡ false
    → st.sem.taken ≡ st.in_flight
    → ((slot_event e st).sem.taken ≡ (slot_event e st).in_flight)
      × ((slot_event e st).sem.capacity ≡ st.sem.capacity)
unfolding slot_event acquire_slot release_slot
even_event take st n b = ground (arith, b)
even_event give_back st n b = ground (arith, b)
even_event (set_max n) st h b = ground arith

-- While the ceiling is left alone, each run in flight has its slot: no more runs are in flight than the
-- ceiling allows, and a run in flight can give its slot back at once.
pub slot_events-ceiling :
    (l : List SlotEvent) (st : Slots)
    → unchanged l ≡ true
    → Bounded st
    → st.sem.taken ≡ st.in_flight
    → let v : Slots = slot_events l st in
      (v.in_flight ≤ st.sem.capacity)
      × ((0 < v.in_flight) → (sem : Semaphore) × (release_slot v.sem ≡ some sem))
unfolding slot_events release_slot
slot_events-ceiling [] st u b e =
    (ground (arith, b, e), λ p. (record st.sem { taken = st.sem.taken - 1 }, ground (arith, e, p)))
slot_events-ceiling (ev ∷ rest) st u b e =
    let (f, c) = even_event ev st (ground (arith, u)) e in
    let (p, q) =
      slot_events-ceiling rest (slot_event ev st) (ground (arith, u)) (slot_event-Bounded ev st b)
        f in
    (omega (arith, p, c), q)

stuck_event :
    (e : SlotEvent) (st : Slots)
    → Bounded st
    → st.in_flight - st.sem.taken ≤ (slot_event e st).in_flight - (slot_event e st).sem.taken
unfolding slot_event acquire_slot release_slot set_max_concurrent
stuck_event take st b = ground (arith, b)
stuck_event give_back st b = ground (arith, b)
stuck_event (set_max n) st b = ground (arith, b)

stuck_events :
    (l : List SlotEvent) (st : Slots)
    → Bounded st
    → st.in_flight - st.sem.taken ≤ (slot_events l st).in_flight - (slot_events l st).sem.taken
unfolding slot_events
stuck_events [] st b = omega arith
stuck_events (e ∷ rest) st b =
    omega
      (arith, stuck_event e st b, stuck_events rest (slot_event e st) (slot_event-Bounded e st b))

-- Once the ceiling has been set to a new value, at least as many runs stay in flight for ever as were
-- in flight then: the slots they took are gone with the old channel.
pub set_max-strands :
    (n : ℕ) (l : List SlotEvent) (st : Slots)
    → 1 ≤ n
    → st.in_flight ≤ (slot_events (set_max n ∷ l) st).in_flight
unfolding slot_events slot_event set_max_concurrent
set_max-strands n l st h = ground (
  arith,
  h,
  stuck_events l (record { sem = record { capacity = n; taken = 0 }; in_flight = st.in_flight })
      (ground arith),
)
