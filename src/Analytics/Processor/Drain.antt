-- ===== src/Analytics/Processor/Drain.antt =====
-- `_run` and `stop` of app/analytics/processor.py, and how far they empty the queue.
use fastapi_url_shortener.Base.{
  ℕ, zero, suc, ◌-◌, ◌*◌, ◌≤◌, String, ◌≡◌, refl, ap, ◌∙◌, List, [], ◌∷◌, arith, inl, inr,
  Option-cases, Bool-cases, ◌==◌, nat_eq, length, drop, length-drop, eq-nil_of_length,
}
use fastapi_url_shortener.Core.Action.{Result, ok, err, resume}
use fastapi_url_shortener.Core.Settings.{Settings}
use fastapi_url_shortener.Core.World.{World}
use fastapi_url_shortener.Models.{DateTime}
use fastapi_url_shortener.Postgres.{Postgres}
use fastapi_url_shortener.Redis.{Redis}
use fastapi_url_shortener.Redis.Laws.{IsListStore}
use fastapi_url_shortener.Formats.{Formats, JsonObject}
use fastapi_url_shortener.Cache.AnalyticsCache.{queue_key, pop_events, queue_length}
use fastapi_url_shortener.Analytics.Processor.{flush_events, flush, run_once, rounds, stop}
use fastapi_url_shortener.Analytics.Processor.Queue.{recovered-state}

drop-nil : {A : Type 0} (n : ℕ) (xs : List A) → length xs ≡ 0 → xs ≡ drop n xs
drop-nil zero xs h = refl
drop-nil (suc n) [] h = refl
drop-nil (suc n) (x ∷ xs) h = absurd (omega arith)

module _ ⦃r : Redis⦄ where
  abbrev pub queued : r.Store → List String
  queued s = r.lrange queue_key s

module _ ⦃pg : Postgres⦄ ⦃r : Redis⦄ ⦃f : Formats⦄ (lists : IsListStore r)
    (settings : Settings) where
  abbrev size : ℕ
  size = settings.analytics_batch_size

  -- Whatever it answers, LMPOP has dropped a batch.
  pop-drop : (n : ℕ) (s : r.Store) → queued (pop_events n s).1 ≡ drop n (queued s)
  unfolding pop_events
  pop-drop n s = elim (Option-cases (r.lmpop_left queue_key n s)) [
    | inl empty ↦
        rw empty (drop-nil n (queued s) (ap length (lists.lmpop_left-none queue_key n s empty)))
    | inr ((raws, s'), e) ↦ rw e (lists.lmpop_left-some queue_key n s s' raws e).1
  ]

  flush_events-store :
      (now : DateTime) (events : List JsonObject) (w : World pg r)
      → (flush_events settings now events w).1.store ≡ w.store
  unfolding flush_events
  flush_events-store now [] w = refl
  flush_events-store now (e ∷ events) w = refl

  resumed-store :
      (now : DateTime) (a : Result (List JsonObject)) (w : World pg r)
      → (resume (a, w) (flush_events settings now)).1.store ≡ w.store
  resumed-store now (ok events) w = flush_events-store now events w
  resumed-store now (err e) w = refl

  -- However it ends, a flush has dropped a batch.
  flush-drop :
      (now : DateTime) (w : World pg r)
      → queued (flush settings now w).1.store ≡ drop size (queued w.store)
  unfolding flush queue_length
  flush-drop now w = elim (Bool-cases (queue_length w.store == 0)) [
    | inl empty ↦
        let none_left : length (queued w.store) ≡ 0 =
          ground (arith, lists.llen-lrange queue_key w.store) in
        rw empty (drop-nil size (queued w.store) none_left)
    | inr busy ↦
        let (a, s) = pop_events size w.store in
        rw busy (ap queued (resumed-store now a (record w { store = s })) ∙ pop-drop size w.store)
  ]

  round-drop :
      (now : DateTime) (w : World pg r)
      → queued (run_once settings now w).1.store ≡ drop size (queued w.store)
  unfolding run_once
  round-drop now w =
      ap (λ v. queued v.store) (recovered-state (flush settings now w)) ∙ flush-drop now w

  rounds-length :
      (times : ℕ → DateTime) (n : ℕ) (w : World pg r)
      → length (queued (rounds settings times n w).store) ≡ length (queued w.store) - n * size
  unfolding rounds
  rounds-length times zero w = omega arith
  rounds-length times (suc n) w = omega (
    arith,
    rounds-length times n (run_once settings (times n) w).1,
    ap length (round-drop (times n) w),
    length-drop size (queued w.store),
  )

  -- The queue drains: once the worker has had enough rounds for batches of the size of the queue,
  -- and its final flush at the shutdown, nothing is left in the queue, whatever the events are and
  -- however the rounds end. No event comes in meanwhile.
  pub rounds-stop_drains :
      (times : ℕ → DateTime) (now : DateTime) (n : ℕ) (w : World pg r)
      → length (queued w.store) ≤ suc n * size
      → queued (stop settings now (rounds settings times n w)).1.store ≡ []
  unfolding stop
  rounds-stop_drains times now n w enough =
      eq-nil_of_length (queued (flush settings now (rounds settings times n w)).1.store) (
        omega (
          arith,
          enough,
          ap length (flush-drop now (rounds settings times n w)),
          length-drop size (queued (rounds settings times n w).store),
          rounds-length times n w,
        ))
