-- ===== src/Fiber/Tests.antt =====
-- A fiber from its making to its end.
use custom_net_framework.Prelude.{arith, ◌+◌, ◌≡◌, ◌↔◌, ◌⊎◌, refl, some, none, u64}
use custom_net_framework.Fiber.{
  hold, exec, term, ready, Fiber, Counters, new_fiber, destroy, swap_in, finish, returned, call,
}
use custom_net_framework.Fiber.Machine.{
  Step, enters, calls, ends, Reach, here, next, fiber_lifecycle,
}

abbrev zero_counters : Counters
zero_counters = record { fiber_id = 0; fiber_count = 0 }

abbrev made : Fiber
made = (new_fiber zero_counters 131072 (some 8) 0).1

abbrev made_counters : Counters
made_counters = (new_fiber zero_counters 131072 (some 8) 0).0

abbrev entered : Fiber
entered = record made { state = exec }

entering : Step made entered
unfolding new_fiber swap_in
entering = enters refl refl

ended-Reach : Reach made (finish entered returned)
unfolding new_fiber
ended-Reach = next (next here entering) (ends refl returned)

abbrev out : Fiber
out = finish entered returned

-- Entered by a caller, as the root fiber of a scheduler is, and ended.
out-Reach : Reach made out
unfolding new_fiber call
out-Reach = next (next here calls) (ends refl returned)

fiber_lifecycle_example :
    (out.id ≡ u64 (0 + 1))
    × (out.stack_size ≡ 131072)
    × (out.state ≡ term → out.cb ≡ none)
    × ((destroy made_counters out ≡ none)
        ⊎ (destroy made_counters out ≡ some (record { fiber_id = out.id; fiber_count = 0 })))
    × ((destroy made_counters out ≡ none)
        ↔ ((out.state ≡ hold) ⊎ (out.state ≡ exec) ⊎ (out.state ≡ ready)))
fiber_lifecycle_example = fiber_lifecycle zero_counters 131072 (some 8) 0 (omega arith) out-Reach
