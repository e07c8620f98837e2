-- ===== src/IoManager/Events.antt =====
-- `IOManager::Event` as bits: READ is EPOLLIN and WRITE is EPOLLOUT.
use custom_net_framework.Prelude.{
  ℕ, ◌≡◌, refl, ◌⊎◌, inl, inr, Bool, true, false, not, ◌&&◌, ◌||◌, ◌==◌, bit_and, bit_or, and_not,
  arith, ◌^◌,
}

-- The events that a caller may name.
pub data Event : Type 0 where
  read_event write_event : Event

abbrev pub code : Event → ℕ
code read_event = 0x1
code write_event = 0x4

abbrev pub same : Event → Event → Bool
same read_event read_event = true
same write_event write_event = true
same _ _ = false

-- `events & event`, as a test.
unfoldable pub has_event : ℕ → Event → Bool
has_event events event = not (bit_and events (code event) == 0)

-- `events | event`.
unfoldable pub with_event : ℕ → Event → ℕ
with_event events event = bit_or events (code event)

-- `events & ~event`.
unfoldable pub without_event : ℕ → Event → ℕ
without_event events event = and_not events (code event)

-- A set of events.
abbrev pub IsEvents : ℕ → Type 0
IsEvents events = (events ≡ 0) ⊎ (events ≡ 1) ⊎ (events ≡ 4) ⊎ (events ≡ 5)

-- To check a statement about sets of events for each of them.
events_cases {ℓ} :
    (P : ℕ → Type ℓ) → P 0 → P 1 → P 4 → P 5 → (events : ℕ) → IsEvents events → P events
events_cases P a b c d events (inl e) = rw e a
events_cases P a b c d events (inr (inl e)) = rw e b
events_cases P a b c d events (inr (inr (inl e))) = rw e c
events_cases P a b c d events (inr (inr (inr e))) = rw e d

pub has-with :
    (events : ℕ) (e f : Event)
    → IsEvents events
    → has_event (with_event events e) f ≡ (has_event events f || same e f)
unfolding has_event with_event
has-with events read_event read_event v =
    events_cases
      (λ x. has_event (with_event x read_event) read_event ≡ (has_event x read_event || true)) refl
      refl refl refl events v
has-with events read_event write_event v =
    events_cases
      (λ x. has_event (with_event x read_event) write_event ≡ (has_event x write_event || false))
      refl refl refl refl events v
has-with events write_event read_event v =
    events_cases
      (λ x. has_event (with_event x write_event) read_event ≡ (has_event x read_event || false))
      refl refl refl refl events v
has-with events write_event write_event v =
    events_cases
      (λ x. has_event (with_event x write_event) write_event ≡ (has_event x write_event || true))
      refl refl refl refl events v

pub has-without :
    (events : ℕ) (e f : Event)
    → IsEvents events
    → has_event (without_event events e) f ≡ (has_event events f && not (same e f))
unfolding has_event without_event
has-without events read_event read_event v =
    events_cases
      (λ x. has_event (without_event x read_event) read_event ≡ (has_event x read_event && false))
      refl refl refl refl events v
has-without events read_event write_event v =
    events_cases
      (λ x. has_event (without_event x read_event) write_event ≡ (has_event x write_event && true))
      refl refl refl refl events v
has-without events write_event read_event v =
    events_cases
      (λ x. has_event (without_event x write_event) read_event ≡ (has_event x read_event && true))
      refl refl refl refl events v
has-without events write_event write_event v =
    events_cases
      (λ x.
        has_event (without_event x write_event) write_event ≡ (has_event x write_event && false))
      refl refl refl refl events v

pub with-IsEvents : (events : ℕ) (e : Event) → IsEvents events → IsEvents (with_event events e)
unfolding with_event
with-IsEvents events read_event v =
    events_cases (λ x. IsEvents (with_event x read_event)) (omega arith) (omega arith) (omega arith)
      (omega arith) events v
with-IsEvents events write_event v =
    events_cases (λ x. IsEvents (with_event x write_event)) (omega arith) (omega arith)
      (omega arith) (omega arith) events v

pub without-IsEvents :
    (events : ℕ) (e : Event) → IsEvents events → IsEvents (without_event events e)
unfolding without_event
without-IsEvents events read_event v =
    events_cases (λ x. IsEvents (without_event x read_event)) (omega arith) (omega arith)
      (omega arith) (omega arith) events v
without-IsEvents events write_event v =
    events_cases (λ x. IsEvents (without_event x write_event)) (omega arith) (omega arith)
      (omega arith) (omega arith) events v

-- A set is empty just if it has neither event.
pub events_empty :
    (events : ℕ)
    → IsEvents events
    → (events == 0) ≡ (not (has_event events read_event) && not (has_event events write_event))
unfolding has_event
events_empty events v =
    events_cases (λ x. (x == 0) ≡ (not (has_event x read_event) && not (has_event x write_event)))
      refl refl refl refl events v

-- Masks with EPOLLET: what is registered for a set of events, `EPOLLET | events`.
unfoldable pub mask : ℕ → ℕ
mask events = bit_or (2 ^ 31) events

pub mask_with :
    (events : ℕ) (e : Event)
    → IsEvents events
    → bit_or (bit_or (2 ^ 31) events) (code e) ≡ mask (with_event events e)
unfolding mask with_event
mask_with events read_event v =
    events_cases (λ x. bit_or (bit_or (2 ^ 31) x) 1 ≡ mask (with_event x read_event)) refl refl refl
      refl events v
mask_with events write_event v =
    events_cases (λ x. bit_or (bit_or (2 ^ 31) x) 4 ≡ mask (with_event x write_event)) refl refl
      refl refl events v

-- Taking a set `real` away is taking its events away one after the other.
abbrev pub without_if : Bool → ℕ → Event → ℕ
without_if true events e = without_event events e
without_if false events e = events

pub and_not_events :
    (events real : ℕ)
    → IsEvents events
    → IsEvents real
    → and_not events real
      ≡ without_if
          (has_event real write_event)
          (without_if (has_event real read_event) events read_event)
          write_event
unfolding has_event without_event
and_not_events events real v w =
    events_cases
      (λ r.
        and_not events r
        ≡ without_if (has_event r write_event)
            (without_if (has_event r read_event) events read_event) write_event)
      (events_cases (λ x. and_not x 0 ≡ x) refl refl refl refl events v)
      (events_cases (λ x. and_not x 1 ≡ without_event x read_event) refl refl refl refl events v)
      (events_cases (λ x. and_not x 4 ≡ without_event x write_event) refl refl refl refl events v)
      (events_cases (λ x. and_not x 5 ≡ without_event (without_event x read_event) write_event) refl
        refl refl refl events v)
      real w

pub common_events :
    (events real : ℕ)
    → IsEvents events
    → IsEvents real
    → (bit_and events real == 0) ≡ (
        not (has_event events read_event && has_event real read_event)
        && not (has_event events write_event && has_event real write_event))
unfolding has_event
common_events events real v w =
    events_cases
      (λ r. (bit_and events r == 0) ≡ (
        not (has_event events read_event && has_event r read_event)
        && not (has_event events write_event && has_event r write_event)))
      (events_cases
        (λ x.
          (bit_and x 0 == 0)
          ≡ (not (has_event x read_event && false) && not (has_event x write_event && false)))
        refl refl refl refl events v)
      (events_cases
        (λ x.
          (bit_and x 1 == 0)
          ≡ (not (has_event x read_event && true) && not (has_event x write_event && false)))
        refl refl refl refl events v)
      (events_cases
        (λ x.
          (bit_and x 4 == 0)
          ≡ (not (has_event x read_event && false) && not (has_event x write_event && true)))
        refl refl refl refl events v)
      (events_cases
        (λ x.
          (bit_and x 5 == 0)
          ≡ (not (has_event x read_event && true) && not (has_event x write_event && true)))
        refl refl refl refl events v)
      real w
