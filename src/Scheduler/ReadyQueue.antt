-- ===== src/Scheduler/ReadyQueue.antt =====
-- The threads that are ready as a list, linked from the first to the last.
use plenjos_kernel.Prelude.{
  ℕ, zero, suc, ◌<◌, ◌≡◌, ◌≢◌, refl, sym, ap, ◌∙◌, subst, arith, none, some, List, [], ◌∷◌, ◌++◌,
  append-nil, ◌==◌, if◌then◌else◌, length, All, ne→==, ==_refl,
}
use plenjos_kernel.Scheduler.{
  ready, asleep, Threads, set_next, set_state, unlink_after, unready_head, thread_unready_nolock,
  thread_ready, assign_thread,
}
use plenjos_kernel.Scheduler.Links.{
  start_of, last_from, last_of, Chain, relink, Chain-relink, Chain-snoc, Chain-cut, before_apart,
  last_from-snoc, last_from-cut, follow, Chain-Round, Round-follow,
}

pub record IsQueue (s : Threads) (q : List ℕ) : Type 0 where
  pub starts : s.ready_threads ≡ start_of q
  pub ends : s.ready_threads_last ≡ last_of q
  pub chain : Chain s.next q

unlink_after-step :
    (fuel : ℕ) (s : Threads) (c x u : ℕ)
    → s.next c ≡ some u
    → unlink_after (suc fuel) s c x
      ≡ (if u == x then set_next s c (s.next x) else unlink_after fuel s u x)
unfolding unlink_after
unlink_after-step fuel s c x u e = ground arith

-- The walk finds the thread before the one that is taken out.
unlink_after-found :
    (fuel : ℕ) (s : Threads) (c : ℕ) (ps : List ℕ) (x : ℕ) (rest : List ℕ)
    → Chain s.next (c ∷ (ps ++ (x ∷ rest)))
    → All (λ y. y ≢ x) ps
    → length ps < fuel
    → unlink_after fuel s c x ≡ set_next s (last_from c ps) (s.next x)
unlink_after-found zero s c ps x rest ch apart few = absurd (omega arith)
unlink_after-found (suc fuel) s c [] x rest (nc, ac, ch) apart few =
    unlink_after-step fuel s c x x nc ∙ rw (==_refl x) refl
unlink_after-found (suc fuel) s c (p ∷ ps) x rest (nc, ac, ch) apart few =
    unlink_after-step fuel s c x p nc
    ∙ rw (ne→== p x apart.0) (unlink_after-found fuel s p ps x rest ch apart.1 (omega arith))

unready_start :
    (fuel : ℕ) (s : Threads) (c x : ℕ)
    → s.ready_threads ≡ some c
    → c ≢ x
    → thread_unready_nolock fuel s x ≡ unlink_after fuel (set_state s x asleep) c x
unfolding thread_unready_nolock
unready_start fuel s c x e ne = ground arith

unready_found :
    (fuel : ℕ) (s : Threads) (c : ℕ) (ps : List ℕ) (x : ℕ) (rest : List ℕ)
    → IsQueue s (c ∷ (ps ++ (x ∷ rest)))
    → length ps < fuel
    → thread_unready_nolock fuel s x ≡ set_next (set_state s x asleep) (last_from c ps) (s.next x)
unfolding thread_unready_nolock set_state
unready_found fuel s c ps x rest v few =
    let (ne, apart) = before_apart s.next c ps x rest v.chain in
    let found = unlink_after-found fuel (set_state s x asleep) c ps x rest v.chain apart few in
    unready_start fuel s c x v.starts ne ∙ found

-- A thread that is not in the queue and whose link is clear goes behind the queue when it is made
-- ready.
pub thread_ready_enqueues :
    (s : Threads) (q : List ℕ) (t : ℕ)
    → IsQueue s q
    → All (λ y. y ≢ t) q
    → s.next t ≡ none
    → (s' : Threads) × (thread_ready s t ≡ some s')
      × IsQueue s' (q ++ (t ∷ []))
      × (s'.state t ≡ ready)
unfolding thread_ready set_next set_state
thread_ready_enqueues s [] t v apart free = (
  record s {
    state = λ u. if u == t then ready else s.state u;
    ready_threads = some t;
    ready_threads_last = some t;
  },
  rw v.starts refl,
  record { starts = refl; ends = refl; chain = (free, tt, tt) },
  rw (==_refl t),
)
thread_ready_enqueues s (x ∷ xs) t v apart free = (
  record s {
    next = relink s.next (last_from x xs) (some t);
    state = λ u. if u == t then ready else s.state u;
    ready_threads = some x;
    ready_threads_last = some t;
  },
  rw (v.starts, v.ends) refl,
  record {
    starts = refl;
    ends = ap some (sym (last_from-snoc x xs t));
    chain = Chain-snoc s.next x xs t v.chain apart free;
  },
  rw (==_refl t),
)

assign_thread-next :
    (fuel : ℕ) (s : Threads) (x y : ℕ) (ys : List ℕ)
    → IsQueue s (x ∷ y ∷ ys)
    → assign_thread fuel s ≡ some (x, record (set_state s x asleep) { ready_threads = some y })
unfolding assign_thread thread_unready_nolock unready_head set_state
assign_thread-next fuel s x y ys v = rw (v.starts, ==_refl x, v.chain.0) refl

-- A core takes the first thread of the queue and leaves the others; the thread is asleep until the
-- core starts it, and keeps its link.
pub assign_thread_dequeues :
    (fuel : ℕ) (s : Threads) (x : ℕ) (q : List ℕ)
    → IsQueue s (x ∷ q)
    → (s' : Threads) × (assign_thread fuel s ≡ some (x, s'))
      × IsQueue s' q
      × (s'.state x ≡ asleep)
      × (s'.next x ≡ start_of q)
unfolding assign_thread thread_unready_nolock unready_head set_state
assign_thread_dequeues fuel s x [] v = (
  record s {
    state = λ u. if u == x then asleep else s.state u;
    ready_threads = none;
    ready_threads_last = none;
  },
  rw (v.starts, ==_refl x, v.chain.0) refl,
  record { starts = refl; ends = refl; chain = tt },
  rw (==_refl x),
  v.chain.0,
)
assign_thread_dequeues fuel s x (y ∷ ys) v = (
  record (set_state s x asleep) { ready_threads = some y },
  assign_thread-next fuel s x y ys v,
  record { starts = refl; ends = v.ends; chain = v.chain.2 },
  rw (==_refl x),
  v.chain.0,
)

thread_ready-behind :
    (s : Threads) (c l t : ℕ)
    → s.ready_threads ≡ some c
    → s.ready_threads_last ≡ some l
    → thread_ready s t
      ≡ some (record (set_next (set_state s t ready) l (some t)) {
        ready_threads = some c;
        ready_threads_last = some t;
      })
unfolding thread_ready set_next set_state
thread_ready-behind s c l t e k = ground arith

-- Taking a thread out from the middle of the queue leaves the others in their order.
pub thread_unready_middle :
    (fuel : ℕ) (s : Threads) (c : ℕ) (ps : List ℕ) (x y : ℕ) (rest : List ℕ)
    → IsQueue s (c ∷ (ps ++ (x ∷ y ∷ rest)))
    → length ps < fuel
    → IsQueue (thread_unready_nolock fuel s x) (c ∷ (ps ++ (y ∷ rest)))
unfolding thread_unready_nolock set_state set_next
thread_unready_middle fuel s c ps x y rest v few =
    subst (λ s'. IsQueue s' (c ∷ (ps ++ (y ∷ rest))))
      (sym (unready_found fuel s c ps x (y ∷ rest) v few))
      (record {
        starts = v.starts;
        ends = v.ends ∙ ap some (last_from-cut c ps x y rest);
        chain = Chain-cut s.next c ps x (y ∷ rest) v.chain;
      })

-- When the last of several threads is taken out, and any thread is made ready next, the queue that
-- the scheduler walks is just the threads that stood before the one taken out: `ready_threads_last`
-- still named that one, and the new thread is linked behind it.
pub thread_unready_last_loses :
    (fuel : ℕ) (s : Threads) (c : ℕ) (ps : List ℕ) (x t : ℕ)
    → IsQueue s (c ∷ (ps ++ (x ∷ [])))
    → length ps < fuel
    → (s' : Threads) × (thread_ready (thread_unready_nolock fuel s x) t ≡ some s')
      × (s'.ready_threads ≡ some c)
      × Chain s'.next (c ∷ ps)
unfolding set_state set_next
thread_unready_last_loses fuel s c ps x t v few =
    let last = last_from c ps in
    let u = set_next (set_state s x asleep) last (s.next x) in
    let cut =
      subst (λ l. Chain (relink s.next last (s.next x)) (c ∷ l)) (append-nil ps)
        (Chain-cut s.next c ps x [] v.chain) in
    (
      record (set_next (set_state u t ready) x (some t)) {
        ready_threads = some c;
        ready_threads_last = some t;
      },
      ap (λ w. thread_ready w t) (unready_found fuel s c ps x [] v few)
          ∙ thread_ready-behind u c x t v.starts (v.ends ∙ ap some (last_from-snoc c ps x)),
      refl,
      Chain-relink (relink s.next last (s.next x)) x (some t) (c ∷ ps)
          (before_apart s.next c ps x [] v.chain) cut,
    )

-- When a core takes the first of several threads, and that thread is made ready again, its link
-- still names the thread that stood behind it: the queue has become a ring, and following it any
-- number of times leads to a thread.
pub thread_ready_again_cycles :
    (fuel n : ℕ) (s : Threads) (x y : ℕ) (q : List ℕ)
    → IsQueue s (x ∷ y ∷ q)
    → (s' s'' : Threads) × (assign_thread fuel s ≡ some (x, s'))
      × (thread_ready s' x ≡ some s'')
      × (follow n s''.next s''.ready_threads ≢ none)
unfolding set_state set_next
thread_ready_again_cycles fuel n s x y q v =
    let last = last_from y q in
    let s' : Threads = record (set_state s x asleep) { ready_threads = some y } in
    (
      s',
      record (set_next (set_state s' x ready) last (some x)) {
        ready_threads = some y;
        ready_threads_last = some x;
      },
      assign_thread-next fuel s x y q v,
      thread_ready-behind s' y last x refl v.ends,
      (Round-follow n (relink s.next last (some x)) x (y ∷ q)
          (Chain-Round s.next x x (y ∷ q) v.chain)).1.0,
    )
