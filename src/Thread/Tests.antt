-- ===== src/Thread/Tests.antt =====
-- A thread whose object is destroyed while its callback runs.
use custom_net_framework.Prelude.{
  ◌≡◌, ◌≢◌, ◌↔◌, ◌⊎◌, refl, true, false, none, some, [], ◌∷◌, codes, ◌===◌,
}
use custom_net_framework.Thread.{
  ThreadObject, waiting, built, calling, ended, World, construct, blocks, faults, create, wait, run,
  set_name, destruct, new_local, Event, creates, waits, runs, destructs, step, sets_name,
}
use custom_net_framework.Thread.Handshake.{Reach, here, next, is_set_name, handshake_lem}

abbrev orphan : World
orphan = record {
  object = none;
  creator = built;
  phase = calling;
  local = record { this = true; name = codes "io" };
  cb = some 3;
  called = 3 ∷ [];
}

orphan-Reach : Reach 7 3 (codes "io") orphan
unfolding step create wait run destruct construct new_local ◌===◌
orphan-Reach =
    let r1 = next (creates true) here refl in
    let r2 = next runs r1 refl in
    let r3 = next runs r2 refl in
    let r4 = next runs r3 refl in
    let r5 = next runs r4 refl in
    let r6 = next waits r5 refl in let r7 = next runs r6 refl in next destructs r7 refl

-- `SetName` then writes to the destroyed object.
orphan_faults : step 7 (sets_name (codes "x")) orphan ≡ faults
unfolding step set_name
orphan_faults = refl

handshake_lem_example :
    ((o : ThreadObject)
      → orphan.object ≡ some o
      → orphan.creator ≡ built
      → (o.id ≡ some 7)
        × (o.cb ≡ none)
        × (o.handle ≡ false → (orphan.phase ≡ ended) × (orphan.called ≡ 3 ∷ [])))
    × ((orphan.called ≡ []) ⊎ (orphan.called ≡ 3 ∷ []))
    × ((e : Event)
        → (step 7 e orphan ≡ faults)
          ↔ ((is_set_name e ≡ true) × (orphan.phase ≡ calling) × (orphan.object ≡ none)))
    × (orphan.creator ≡ waiting → (step 7 runs orphan ≢ blocks) ⊎ (step 7 waits orphan ≢ blocks))
handshake_lem_example = handshake_lem 7 3 (codes "io") orphan orphan-Reach
