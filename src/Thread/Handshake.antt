-- ===== src/Thread/Handshake.antt =====
-- What holds whenever the threads have come to in their steps.
use custom_net_framework.Prelude.{
  ℕ, ◌≡◌, ◌≢◌, ◌↔◌, ◌⊎◌, inl, inr, arith, Bool, true, false, none, some, [], ◌∷◌, Option-cases,
  Bytes,
}
use custom_net_framework.Thread.{
  ThreadObject, waiting, built, calling, ended, World, construct, blocks, faults, becomes, create,
  wait, run, set_name, join, destruct, Event, creates, waits, runs, sets_name, joins, destructs,
  step,
}
use custom_net_framework.Thread.Invariant.{done, stage, Inv, construct-Inv, step-Inv}

pub is_set_name : Event → Bool
is_set_name (sets_name name) = true
is_set_name _ = false

module _ (thread_id cb : ℕ) where
  -- The states that the two threads can come to.
  pub data Reach (name : Bytes) : World → Type 0 where
    here : Reach name (construct cb name)
    next :
        {w : World} {w' : World} (e : Event)
        → Reach name w
        → step thread_id e w ≡ becomes w'
        → Reach name w'

  Reach-Inv : (name : Bytes) (w : World) → Reach name w → Inv thread_id cb w
  Reach-Inv name w here = construct-Inv thread_id cb name
  Reach-Inv name w (next e r h) = step-Inv thread_id cb e _ w (Reach-Inv name _ r) h

  faults_only :
      (e : Event) (w : World)
      → Inv thread_id cb w
      → (step thread_id e w ≡ faults)
        ↔ ((is_set_name e ≡ true) × (w.phase ≡ calling) × (w.object ≡ none))
  unfolding step is_set_name create wait run set_name join destruct done stage
  faults_only (creates ok) w v = ground (arith, v.there)
  faults_only waits w v = ground (arith, v.there)
  faults_only runs w v = ground (arith, v.there, v.young, v.mine)
  faults_only (sets_name name) w v = ground (arith, v.mine)
  faults_only (joins ok) w v = ground (arith, v.there)
  faults_only destructs w v = ground (arith, v.there)

  waits_for :
      (w : World)
      → Inv thread_id cb w
      → w.creator ≡ waiting
      → (step thread_id runs w ≢ blocks) ⊎ (step thread_id waits w ≢ blocks)
  unfolding step run wait done stage
  waits_for w v c = elim (Option-cases w.object) [
    | inl n ↦ absurd (ground (arith, n, v.there, c))
    | inr (o, y) ↦ ground (arith, y, c, (v.own o y).count, v.young)
  ]

  -- Whatever the two threads have done: when the constructor has returned, an object that is not
  -- destroyed has the new thread's id and its callback has been taken; a `join` that has succeeded
  -- comes after the callback's end; the callback is called once, or has not been called yet; no
  -- step touches a destroyed object, except `SetName` by the callback, which does just if the
  -- object has been destroyed meanwhile; and while the constructor waits, one of the two threads
  -- has a step that does not block.
  pub handshake_lem :
      (name : Bytes) (w : World)
      → Reach name w
      → ((o : ThreadObject)
          → w.object ≡ some o
          → w.creator ≡ built
          → (o.id ≡ some thread_id)
            × (o.cb ≡ none)
            × (o.handle ≡ false → (w.phase ≡ ended) × (w.called ≡ cb ∷ [])))
        × ((w.called ≡ []) ⊎ (w.called ≡ cb ∷ []))
        × ((e : Event)
            → (step thread_id e w ≡ faults)
              ↔ ((is_set_name e ≡ true) × (w.phase ≡ calling) × (w.object ≡ none)))
        × (w.creator ≡ waiting
            → (step thread_id runs w ≢ blocks) ⊎ (step thread_id waits w ≢ blocks))
  unfolding done
  handshake_lem name w r =
      let v = Reach-Inv name w r in
      (
        (λ o y b.
            let s = v.own o y in ground (arith, v.young, v.calls, b, s.id, s.callback, s.joined)),
        ground (arith, v.calls),
        (λ e. faults_only e w v),
        waits_for w v,
      )
