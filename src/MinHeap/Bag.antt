-- ===== src/MinHeap/Bag.antt =====
-- platform/TimerMinHeap.cpp as its clients see it: a bag of timers, in no order. `addToHeap` and
-- `removeFromHeap` are compared with steps on bags, over any history of calls.
use mathlib.Core.Path.{subst}
use timer_and_callback.Base.{
  ℕ, zero, suc, ◌+◌, ◌≤◌, ◌<◌, ◌≡◌, ◌⊎◌, inl, inr, refl, sym, ap, ◌∙◌, ◌≢◌, Bool-cases, leb, Option,
  some, none, false, List, [], ◌∷◌, ◌==◌, if◌then◌else◌, Run, ok, ◌>>=◌, Returns, returns,
  Returns-bind, Returns-if, one_if_eq, count, arith,
}
use timer_and_callback.Base.Slots.{count_somewhere}
use timer_and_callback.Types.{Result, max_number_of_timers}
use timer_and_callback.MinHeap.{TimerTaskShared, add_to_heap, remove_from_heap}
use timer_and_callback.MinHeap.Order.{IsLive, AllLive}
use timer_and_callback.MinHeap.Up.{add_to_heap-Added}
use timer_and_callback.MinHeap.Search.{TakenOut, NotFound, remove_from_heap-Outcome}

-- How often each timer is in the bag, and how many there are.
pub record Bag : Type 0 where
  pub times : ℕ → ℕ
  pub size : ℕ

abbrev pub bag_of : TimerTaskShared → Bag
bag_of s = record {
  times = λ p. count p s.heap s.number_of_timers_being_managed;
  size = s.number_of_timers_being_managed;
}

abbrev pub with_one : ℕ → Bag → Bag
with_one timer bag = record { times = λ p. bag.times p + one_if_eq timer p; size = bag.size + 1 }

pub data Call : Type 0 where
  add remove : ℕ → Call

-- What a call may do to a bag and answer; `none` is the answer of a call that is not made, since
-- the timer is not in the bag. A removal takes the timer out once; it may fail only where the bag
-- has more than three timers and this one just once.
pub data Spec (bag : Bag) : Call → Option Result → Bag → Type 0 where
  added : {timer : ℕ} → Spec bag (add timer) (some Result.ok) (with_one timer bag)
  taken :
      {timer : ℕ} {bag' : Bag}
      → bag ≡ with_one timer bag'
      → Spec bag (remove timer) (some Result.ok) bag'
  missed :
      {timer : ℕ}
      → bag.times timer ≡ 1
      → 3 < bag.size
      → Spec bag (remove timer) (some Result.error) bag
  absent : {timer : ℕ} → bag.times timer ≡ 0 → Spec bag (remove timer) none bag

pub data SpecRun : Bag → List Call → List (Option Result) → Bag → Type 0 where
  done : {bag : Bag} → SpecRun bag [] [] bag
  next :
      {call : Call} {calls : List Call} {answer : Option Result} {answers : List (Option Result)}
      {bag middle last : Bag}
      → Spec bag call answer middle
      → SpecRun middle calls answers last
      → SpecRun bag (call ∷ calls) (answer ∷ answers) last

-- How many timers some calls add.
abbrev needs : Call → ℕ → ℕ
needs (add timer) more = suc more
needs (remove timer) more = more

abbrev pub adds : List Call → ℕ
adds [] = 0
adds (call ∷ calls) = needs call (adds calls)

-- A timer that stands nowhere below the last place is counted at most once.
none_below :
    (timer : ℕ) (heap : ℕ → ℕ) (n : ℕ) → ((i : ℕ) → i < n → heap i ≢ timer) → count timer heap n ≡ 0
unfolding count
none_below timer heap zero h = refl
none_below timer heap (suc n) h =
    ground (arith, h n (omega arith), none_below timer heap n (λ i below. h i (omega arith)))

at_most_once :
    (timer : ℕ) (heap : ℕ → ℕ) (n : ℕ)
    → ((i : ℕ) → i + 1 < n → heap i ≢ timer)
    → count timer heap n ≤ 1
unfolding count
at_most_once timer heap zero h = omega arith
at_most_once timer heap (suc n) h =
    ground (arith, none_below timer heap n (λ i below. h i (omega arith)))

held_somewhere :
    (heap : ℕ → ℕ) (timer n : ℕ) → 0 < count timer heap n → (1 < n) ⊎ ((n ≡ 1) × (heap 0 ≡ timer))
unfolding count
held_somewhere heap timer zero some_left = absurd (omega arith)
held_somewhere heap timer (suc zero) some_left = inr (refl, ground arith)
held_somewhere heap timer (suc (suc n)) some_left = inl (omega arith)

module _ (fires : ℕ → Option ℕ) where
  answered : Result × TimerTaskShared → Option Result × TimerTaskShared
  answered (code, s) = (some code, s)

  -- A client that removes only timers that are in the heap.
  pub perform : TimerTaskShared → Call → Run (Option Result × TimerTaskShared)
  unfolding answered
  perform s (add timer) = do r ← add_to_heap fires s timer; ok (answered r)
  perform s (remove timer) =
      if (bag_of s).times timer == 0
      then ok (none, s)
      else (do r ← remove_from_heap fires s timer; ok (answered r))

  pub perform_all : TimerTaskShared → List Call → Run (List (Option Result) × TimerTaskShared)
  unfolding perform
  perform_all s [] = ok ([], s)
  perform_all s (call ∷ calls) = do
    (answer, s') ← perform s call
    (answers, last) ← perform_all s' calls
    ok (answer ∷ answers, last)

  -- The timers that are added are Timer objects.
  abbrev pub LiveCall : Call → Type 0
  LiveCall (add timer) = IsLive fires timer
  LiveCall (remove timer) = Unit

  abbrev pub LiveCalls : List Call → Type 0
  LiveCalls [] = Unit
  LiveCalls (call ∷ calls) = LiveCall call × LiveCalls calls

  -- There is room for as many more timers.
  pub record HasRoom (s : TimerTaskShared) (more : ℕ) : Type 0 where
    pub room : s.number_of_timers_being_managed + more ≤ max_number_of_timers
    pub live : AllLive fires s.heap s.number_of_timers_being_managed

  abbrev Refines : TimerTaskShared → Call → ℕ → Option Result × TimerTaskShared → Type 0
  Refines s call more (answer, s') = Spec (bag_of s) call answer (bag_of s') × HasRoom s' more

  searchable :
      (s : TimerTaskShared) (timer : ℕ)
      → ((bag_of s).times timer == 0) ≡ false
      → (1 < s.number_of_timers_being_managed)
        ⊎ ((s.number_of_timers_being_managed ≡ 1) × (s.heap 0 ≡ timer))
  searchable s timer e = held_somewhere s.heap timer s.number_of_timers_being_managed (ground arith)

  add-Refines :
      (s : TimerTaskShared) (timer more : ℕ)
      → HasRoom s (suc more)
      → IsLive fires timer
      → Returns (Refines s (add timer) more) (perform s (add timer))
  unfolding perform answered
  add-Refines s timer more v new =
      Returns-bind (add_to_heap-Added fires s timer (omega (arith, v.room)) v.live new)
        λ (code, s') a.
          let same_times : (p : ℕ) → (bag_of s').times p ≡ (with_one timer (bag_of s)).times p =
            λ p. ap (count p s'.heap) a.grown ∙ a.items p in
          let same_bag : bag_of s' ≡ with_one timer (bag_of s) =
            λ i. record { times = λ p. same_times p i; size = a.grown i } in
          returns (
            subst (λ c. Spec (bag_of s) (add timer) (some c) (bag_of s')) (sym a.result)
                (subst (Spec (bag_of s) (add timer) (some Result.ok)) (sym same_bag) added),
            record {
              room = omega (arith, a.grown, v.room);
              live = λ i h. a.live i (omega (arith, a.grown));
            },
          )

  one_less :
      (s : TimerTaskShared) (timer : ℕ) (s' : TimerTaskShared) (code : Result)
      → TakenOut fires s timer (code, s')
      → bag_of s ≡ with_one timer (bag_of s')
  one_less s timer s' code out =
      let same_times : (p : ℕ) → (bag_of s).times p ≡ (with_one timer (bag_of s')).times p = λ p.
        subst (λ h. (bag_of s).times p ≡ (bag_of s').times p + one_if_eq h p) out.held
          (sym (out.filled.items p)) in
      let one_fewer : s.number_of_timers_being_managed ≡ s'.number_of_timers_being_managed + 1 =
        omega (arith, out.filled.shrunk) in
      λ i. record { times = λ p. same_times p i; size = one_fewer i }

  -- The search passes over the last place only, and that only where there are more than three.
  missed-bag :
      (s : TimerTaskShared) (timer : ℕ) (r : Result × TimerTaskShared)
      → NotFound s timer r
      → ((bag_of s).times timer == 0) ≡ false
      → ((bag_of s).times timer ≡ 1) × (3 < s.number_of_timers_being_managed)
  missed-bag s timer r not_found some_left =
      let below =
        at_most_once timer s.heap s.number_of_timers_being_managed
          (λ i h. not_found.absent i (inl h)) in
      let (i, inside, held) =
        count_somewhere timer s.heap s.number_of_timers_being_managed (ground arith) in
      (
        ground arith,
        elim (Bool-cases (leb s.number_of_timers_being_managed 3)) [
          | inl e ↦ absurd (not_found.absent i (inr (inside, ground arith)) held)
          | inr e ↦ ground arith
        ],
      )

  remove-Refines :
      (s : TimerTaskShared) (timer more : ℕ)
      → HasRoom s more
      → Returns (Refines s (remove timer) more) (perform s (remove timer))
  unfolding perform answered
  remove-Refines s timer more v =
      Returns-if ((bag_of s).times timer == 0) (λ e. returns (absent (ground arith), v))
        λ e.
          Returns-bind
            (remove_from_heap-Outcome fires s timer (omega (arith, v.room)) v.live
              (searchable s timer e))
            λ (code, s') o. returns (elim o [
              | inl out ↦ (
                subst (λ c. Spec (bag_of s) (remove timer) (some c) (bag_of s')) (sym out.result)
                    (taken (one_less s timer s' code out)),
                record {
                  room = omega (arith, out.filled.shrunk, v.room);
                  live = λ i h. out.filled.live i (omega (arith, out.filled.shrunk));
                },
              )
              | inr not_found ↦
                  let (once, many) = missed-bag s timer (code, s') not_found e in
                  (
                    subst (λ c. Spec (bag_of s) (remove timer) (some c) (bag_of s'))
                        (sym not_found.result)
                        (subst (λ u. Spec (bag_of s) (remove timer) (some Result.error) (bag_of u))
                          (sym not_found.same) (missed once many)),
                    subst (λ u. HasRoom u more) (sym not_found.same) v,
                  )
            ])

  perform-Refines :
      (s : TimerTaskShared) (call : Call) (more : ℕ)
      → HasRoom s (needs call more)
      → LiveCall call
      → Returns (Refines s call more) (perform s call)
  perform-Refines s (add timer) more v new = add-Refines s timer more v new
  perform-Refines s (remove timer) more v new = remove-Refines s timer more v

  -- Every history of calls, on a heap with room for all the timers that it adds, returns, and
  -- answers and changes the bag of timers as the specification allows: a timer is added; one that
  -- is in the bag is removed once, or the answer is ERROR and nothing changes, which happens only
  -- with more than three timers in the bag, this one just once; one that is not in the bag is not
  -- searched for.
  pub perform_all-refines :
      (calls : List Call) (s : TimerTaskShared)
      → HasRoom s (adds calls)
      → LiveCalls calls
      → Returns
          (λ (answers, s'). SpecRun (bag_of s) calls answers (bag_of s'))
          (perform_all s calls)
  unfolding perform_all
  perform_all-refines [] s v new = returns done
  perform_all-refines (call ∷ calls) s v new =
      Returns-bind (perform-Refines s call (adds calls) v new.0) λ (answer, s') (one, room).
        Returns-bind (perform_all-refines calls s' room new.1)
          λ (answers, last) more. returns (next one more)
