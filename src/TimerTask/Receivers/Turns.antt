-- ===== src/TimerTask/Receivers/Turns.antt =====
-- platform/Timer.cpp, `processACallback`, and the receiver: its turns one after the other.
use mathlib.Core.Path.{subst}
use timer_and_callback.Base.{
  ℕ, ◌<◌, ◌≡◌, ◌≢◌, refl, ap, sym, ◌∙◌, inl, inr, some, none, true, false, List, [], ◌∷◌, ◌==◌,
  Bool-cases, length, occurrences, ok, Returns, returns, Returns-map, arith,
}
use timer_and_callback.Types.{Result}
use timer_and_callback.Pool.{get_memory_location_from_index, remove_from_pool}
use timer_and_callback.Pool.Addresses.{
  SamePlace, remove_from_pool-SamePlace, IsPlaced_same, location-SamePlace,
}
use timer_and_callback.Pool.Free.{IsPool, remove_from_pool-cons}
use timer_and_callback.Message.{PosixMessageQueueObject}
use timer_and_callback.World.{World}
use timer_and_callback.TimerTask.{oldest, deliver}
use timer_and_callback.TimerTask.Drain.{on_top}
use timer_and_callback.TimerTask.Receivers.{
  deliver_all, oldest-on_top, IsCallable, called, receive-called, IsOwed, IsAnswered,
}

module _ {w : World} {p : ℕ} {order free : List ℕ} {index cb : ℕ → ℕ} {msg : ℕ → ℕ × List ℕ}
    {queue : ℕ} (v : IsOwed w (p ∷ order) free index cb msg queue) where
  abbrev rest : World
  rest = record w { sent = on_top msg order [] }

  head_here : 0 < occurrences p (p ∷ order)
  head_here = ground arith

  head-IsCallable : IsCallable rest p (index p) (cb p) (msg p).1
  head-IsCallable =
      let c = v.each p head_here in
      record {
        timer = c.timer;
        object = c.object;
        one_shot = c.one_shot;
        finished = c.finished;
        callback = c.callback;
        some_cb = c.some_cb;
        there = c.there;
        inside = c.inside;
        location = c.location;
        sent = c.sent;
      }

  abbrev next : World
  next = called v.unlocked v.placed head-IsCallable

  deliver-next : (fresh : PosixMessageQueueObject) → deliver queue fresh w ≡ ok (Result.ok, next)
  unfolding deliver
  deliver-next fresh =
      let to_it : ((msg p).0 == queue) ≡ true = ground (arith, v.own p head_here) in
      let oldest_one : oldest queue w.sent ≡ some ((msg p).1, on_top msg order []) =
        ap (oldest queue) v.sent
        ∙ oldest-on_top queue msg order (msg p).1 (msg p ∷ []) [] (rw to_it refl) in
      rw (deliver, oldest_one) (receive-called v.unlocked v.placed head-IsCallable fresh)

  only_once : occurrences p order ≡ 0
  only_once = ground (arith, v.once p)

  in_tail : (q : ℕ) → 0 < occurrences q order → 0 < occurrences q (p ∷ order)
  in_tail q h = omega arith

  other : (q : ℕ) → 0 < occurrences q order → q ≢ p
  other q h e = ground (arith, only_once)

  same_place : SamePlace w.pool next.pool
  same_place = remove_from_pool-SamePlace w.pool p

  other_index : (q : ℕ) → 0 < occurrences q order → index q ≢ index p
  other_index q h e = other q h (
      (v.each q (in_tail q h)).location
      ∙ ap (get_memory_location_from_index w.pool) e
      ∙ sym head-IsCallable.location)

  other_cb : (q : ℕ) → 0 < occurrences q order → cb q ≢ cb p
  other_cb q h e = other q h (v.apart q p (in_tail q h) head_here e)

  still-IsCallable :
      (q : ℕ) → 0 < occurrences q order → IsCallable next q (index q) (cb q) (msg q).1
  still-IsCallable q h =
      let c = v.each q (in_tail q h) in
      let kept : next.timers q ≡ w.timers q = ground (arith, other q h) in
      let kept_cb : next.callbacks (cb q) ≡ w.callbacks (cb q) = ground (arith, other_cb q h) in
      record {
        timer = c.timer;
        object = kept ∙ c.object;
        one_shot = c.one_shot;
        finished = c.finished;
        callback = c.callback;
        some_cb = c.some_cb;
        there = kept_cb ∙ c.there;
        inside = rw (same_place.3) c.inside;
        location = c.location ∙ sym (location-SamePlace w.pool next.pool (index q) same_place);
        sent = c.sent;
      }

  next-IsPool : IsPool next.pool (index p ∷ free)
  next-IsPool =
      subst (λ o. IsPool (remove_from_pool w.pool o) (index p ∷ free))
        (sym head-IsCallable.location)
        (remove_from_pool-cons (index p) v.placed v.pool head-IsCallable.inside
          (v.used p head_here))

  next-IsOwed : IsOwed next order (index p ∷ free) index cb msg queue
  next-IsOwed = record {
    unlocked = v.unlocked;
    placed = IsPlaced_same next.pool same_place v.placed;
    pool = next-IsPool;
    sent = refl;
    own = λ q h. v.own q (in_tail q h);
    each = still-IsCallable;
    once = λ q. omega (arith, v.once q);
    apart = λ q r hq hr e. v.apart q r (in_tail q hq) (in_tail r hr) e;
    used = λ q h. ground (arith, v.used q (in_tail q h), other_index q h);
  }

  module _ {w' : World} (a : IsAnswered next order (index p ∷ free) index cb w') where
    all_gone : (q : ℕ) → 0 < occurrences q (p ∷ order) → w'.timers q ≡ none
    all_gone q h = elim (Bool-cases (q == p)) [
      | inl e ↦
          let same : q ≡ p = ground arith in
          let removed : next.timers p ≡ none = ground arith in
          subst (λ r. w'.timers r ≡ none) (sym same) (a.others p only_once ∙ removed)
      | inr e ↦ a.gone q (ground arith)
    ]

    all_deleted : (q : ℕ) → 0 < occurrences q (p ∷ order) → w'.callbacks (cb q) ≡ false
    all_deleted q h = elim (Bool-cases (q == p)) [
      | inl e ↦
          let same : q ≡ p = ground arith in
          let removed : next.callbacks (cb p) ≡ false = ground arith in
          subst (λ r. w'.callbacks (cb r) ≡ false) (sym same)
            (a.other_callbacks (cb p) other_cb ∙ removed)
      | inr e ↦ a.callbacks q (ground arith)
    ]

    kept : (q : ℕ) → occurrences q (p ∷ order) ≡ 0 → w'.timers q ≡ w.timers q
    kept q h = let old : next.timers q ≡ w.timers q = ground arith in a.others q (omega arith) ∙ old

    kept_callback :
        (c : ℕ)
        → ((q : ℕ) → 0 < occurrences q (p ∷ order) → cb q ≢ c)
        → w'.callbacks c ≡ w.callbacks c
    kept_callback c h =
        let other_one = h p head_here in
        let old : next.callbacks c ≡ w.callbacks c = ground (arith, other_one) in
        a.other_callbacks c (λ q hq. h q (in_tail q hq)) ∙ old

  next-IsAnswered :
      {w' : World}
      → IsAnswered next order (index p ∷ free) index cb w'
      → IsAnswered w (p ∷ order) free index cb w'
  next-IsAnswered {w'} a = record {
    triggered = a.triggered;
    gone = all_gone a;
    others = kept a;
    callbacks = all_deleted a;
    other_callbacks = kept_callback a;
    quiet = a.quiet;
    heap = a.heap;
    semaphore = a.semaphore;
    pool = a.pool;
  }

none_owed :
    (w : World) (free : List ℕ) (index cb : ℕ → ℕ) (msg : ℕ → ℕ × List ℕ) (queue : ℕ)
    → IsOwed w [] free index cb msg queue
    → IsAnswered w [] free index cb w
none_owed w free index cb msg queue v = record {
  triggered = refl;
  gone = λ p h. absurd (omega arith);
  others = λ p h. refl;
  callbacks = λ p h. absurd (omega arith);
  other_callbacks = λ c h. refl;
  quiet = v.sent;
  heap = refl;
  semaphore = refl;
  pool = v.pool;
}

-- When the messages on their way are those of one-shot timers of one task that have fired, each
-- once and each with a callback object of its own, as many turns of its receiver return: the
-- callbacks have been triggered, each exactly once and in the order in which the timers fired, they
-- and the timers are deleted, the objects are free in the pool again, and the other timers and
-- callbacks, the heap and the semaphore are as before.
pub deliver_all-IsAnswered :
    (order free : List ℕ) (index cb : ℕ → ℕ) (msg : ℕ → ℕ × List ℕ) (queue : ℕ) (w : World)
    (fresh : PosixMessageQueueObject)
    → IsOwed w order free index cb msg queue
    → Returns
        (λ (_, w'). IsAnswered w order free index cb w')
        (deliver_all queue (length order) fresh w)
unfolding deliver_all
deliver_all-IsAnswered [] free index cb msg queue w fresh v =
    returns (none_owed w free index cb msg queue v)
deliver_all-IsAnswered (p ∷ order) free index cb msg queue w fresh v = rw (deliver-next v fresh) (
    Returns-map
      (deliver_all-IsAnswered order (index p ∷ free) index cb msg queue (next v) fresh
        (next-IsOwed v))
      λ _ a. next-IsAnswered v a)
