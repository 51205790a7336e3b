-- ===== src/Kernel/Process/Slots.antt =====
-- kernel/process.c: the slots in use are the first ones, and pids count them.
use minerva_os.Base.{
  ℕ, ◌↔◌, ◌-◌, zero, suc, ◌+◌, ◌%◌, ◌^◌, ◌≡◌, ◌<◌, ◌≤◌, refl, ap, sym, ◌∙◌, true, false, List, [],
  ◌∷◌, Option, none, some, arith, inl, inr, ◌⊎◌, get_or, set, length, length-set, All, find_index,
  find_index-cases, All-replicate, false≢true,
}
use minerva_os.Kernel.Names.{same_name}
use minerva_os.Kernel.Process.{
  Process, Table, ProcessState, UserContext, process_max, empty_slot, is_free, add_process,
  process_init, process_alloc, process_create_kernel, process_record_user, record_new,
  process_find_user, is_user_named,
}

-- `n` slots in use with the pids from `p` on, then free ones.
abbrev pub Filled : ℕ → ℕ → List Process → Type 0
Filled p zero ss = All (λ s. s.used ≡ false) ss
Filled p (suc n) [] = ⊥
Filled p (suc n) (s ∷ ss) = (s.used ≡ true) × (s.pid ≡ p) × Filled (suc p) n ss

-- The table's invariant: `live_count` slots are in use, at the front, with the pids 1, 2, ….
pub record WellFormed (t : Table) : Type 0 where
  pub size : length t.processes ≡ process_max
  pub live : t.live_count ≤ process_max
  pub pids : t.next_pid ≡ t.live_count + 1
  pub filled : Filled 1 t.live_count t.processes

pub process_init-WellFormed : WellFormed process_init
unfolding process_init
process_init-WellFormed = record {
  size = refl;
  live = omega arith;
  pids = omega arith;
  filled = All-replicate (λ s. s.used ≡ false) process_max empty_slot refl;
}

-- The slot that `process_alloc` finds is the first behind those in use.
find_index-Filled :
    (p n : ℕ) (ss : List Process)
    → Filled p n ss
    → ((find_index is_free ss ≡ none) × (length ss ≡ n))
      ⊎ ((find_index is_free ss ≡ some n) × (n < length ss))
unfolding find_index
find_index-Filled p zero [] f = inl (refl, refl)
find_index-Filled p zero (s ∷ ss) f = rw f.0 (inr (refl, omega arith))
find_index-Filled p (suc n) [] f = absurd f
find_index-Filled p (suc n) (s ∷ ss) f = elim (find_index-Filled (suc p) n ss f.2) [
  | inl (e, l) ↦ rw (f.0, e) (inl (refl, ap suc l))
  | inr (e, l) ↦ rw (f.0, e) (inr (refl, omega arith))
]

Filled-set :
    (p n : ℕ) (ss : List Process) (s : Process)
    → Filled p n ss
    → n < length ss
    → s.used ≡ true
    → s.pid ≡ p + n
    → Filled p (suc n) (set ss n s)
Filled-set p zero [] s f l u e = absurd (omega arith)
Filled-set p zero (d ∷ ss) s f l u e = (u, omega arith, f.1)
Filled-set p (suc n) [] s f l u e = absurd f
Filled-set p (suc n) (d ∷ ss) s f l u e =
    (f.0, f.1, Filled-set (suc p) n ss s f.2 (omega arith) u (omega arith))

add_process-WellFormed :
    (t : Table) (s : Process)
    → WellFormed t
    → t.live_count < process_max
    → s.used ≡ true
    → s.pid ≡ t.next_pid
    → WellFormed (add_process t.live_count s t)
add_process-WellFormed t s w l u e =
    let count : (t.live_count + 1) % 2 ^ 32 ≡ suc t.live_count = omega arith in
    record {
      size = length-set t.processes t.live_count s ∙ w.size;
      live = omega arith;
      pids = omega (arith, w.pids);
      filled = rw count (
          Filled-set 1 t.live_count t.processes s w.filled (omega (arith, w.size)) u
            (omega (arith, w.pids)));
    }

pub process_alloc-cases :
    (t : Table)
    → WellFormed t
    → ((process_alloc t ≡ none) × (t.live_count ≡ process_max))
      ⊎ ((process_alloc t ≡ some t.live_count) × (t.live_count < process_max))
unfolding process_alloc
process_alloc-cases t w = elim (find_index-Filled 1 t.live_count t.processes w.filled) [
  | inl (e, l) ↦ inl (e, omega (arith, w.size))
  | inr (e, l) ↦ inr (e, omega (arith, w.size))
]

-- What a call that may add a process does: it fails and changes nothing, or the count grows by one
-- and the answer is the new pid.
abbrev pub Added : Table → Option ℕ × Table → Type 0
Added t r =
    ((r.0 ≡ none) × (r.1 ≡ t) × (t.live_count ≡ process_max))
    ⊎ ((r.0 ≡ some (t.live_count + 1)) × (r.1.live_count ≡ t.live_count + 1) × WellFormed r.1)

-- `process_create_kernel` with a name keeps the invariant: on a full table it fails and changes
-- nothing, else it answers the next pid and one more process is live.
pub process_create_kernel-Added :
    (n : List ℕ) (task parent : ℕ) (t : Table)
    → WellFormed t
    → Added t (process_create_kernel (some n) task parent t)
unfolding process_create_kernel
process_create_kernel-Added n task parent t w = elim (process_alloc-cases t w) [
  | inl (e, l) ↦ rw (process_create_kernel, e) (inl (refl, refl, l))
  | inr (e, l) ↦
      rw (process_create_kernel, e)
        (inr (ap (λ x. some x) w.pids, omega arith, add_process-WellFormed t _ w l refl refl))
]

-- A user process of the name.
abbrev pub Named : List ℕ → Process → Type 0
Named n s = (s.used ≡ true) × (s.kernel ≡ false) × (same_name s.name n ≡ true)

Named-iff : (n : List ℕ) (s : Process) → (is_user_named n s ≡ true) ↔ Named n s
Named-iff n s = (λ h. (ground arith, ground arith, ground arith), λ (u, k, e). rw (u, k, e) refl)

-- A new process in the first free slot, or no change on a full table.
pub record Recorded (n : List ℕ) (c : UserContext) (st : ProcessState) (t : Table)
    (r : Option ℕ × Table) : Type 0 where
  pub unknown : All (λ s. ¬ Named n s) t.processes
  pub added :
      ((r ≡ (none, t)) × (t.live_count ≡ 16))
      ⊎ ((r.0 ≡ some (t.live_count + 1))
          × (r.1.processes
              ≡ set t.processes t.live_count (record {
                pid = t.live_count + 1;
                parent_pid = 0;
                task_id = 2 ^ 32 - 1;
                user_context = c;
                name = n;
                state = st;
                used = true;
                kernel = false;
              }))
          × (r.1.live_count ≡ t.live_count + 1))
  pub valid : WellFormed r.1

-- The first process of the name has the context and the state, and nothing else is changed.
pub record Updated (n : List ℕ) (c : UserContext) (st : ProcessState) (t : Table)
    (r : Option ℕ × Table) : Type 0 where
  pub slot : ℕ
  pub bound : slot < length t.processes
  pub named : Named n (get_or t.processes slot empty_slot)
  pub result : r.0 ≡ some (get_or t.processes slot empty_slot).pid
  pub written : r.1 ≡ record t {
    processes =
        set t.processes slot
          (record (get_or t.processes slot empty_slot) { user_context = c; state = st });
  }
  pub valid : WellFormed r.1

unnamed :
    (n : List ℕ) (ss : List Process)
    → All (λ s. is_user_named n s ≡ false) ss
    → All (λ s. ¬ Named n s) ss
unnamed n [] h = tt
unnamed n (s ∷ ss) h = (λ k. false≢true (sym h.0 ∙ (Named-iff n s).1 k), unnamed n ss h.1)

record_new-Recorded :
    (n : List ℕ) (c : UserContext) (st : ProcessState) (t : Table)
    → WellFormed t
    → All (λ s. is_user_named n s ≡ false) t.processes
    → Recorded n c st t (record_new n c st t)
unfolding record_new
record_new-Recorded n c st t w h = elim (process_alloc-cases t w) [
  | inl (e, l) ↦
      rw (record_new, e)
        (record { unknown = unnamed n t.processes h; added = inl (refl, l); valid = w })
  | inr (e, l) ↦
      rw (record_new, e)
        (record {
          unknown = unnamed n t.processes h;
          added = inr (
            ap (λ x. some x) w.pids,
            ap
                (λ x. set t.processes t.live_count (record {
                  pid = x;
                  parent_pid = 0;
                  task_id = 2 ^ 32 - 1;
                  user_context = c;
                  name = n;
                  state = st;
                  used = true;
                  kernel = false;
                }))
                w.pids,
            omega arith,
          );
          valid = add_process-WellFormed t _ w l refl refl;
        })
]

Filled-update :
    (p n i : ℕ) (ss : List Process) (s : Process)
    → Filled p n ss
    → i < length ss
    → s.used ≡ true
    → (get_or ss i empty_slot).used ≡ true
    → s.pid ≡ (get_or ss i empty_slot).pid
    → Filled p n (set ss i s)
Filled-update p zero i [] s f l u v e = absurd (omega arith)
Filled-update p (suc n) i [] s f l u v e = absurd f
Filled-update p zero zero (d ∷ ss) s f l u v e = absurd (false≢true (sym f.0 ∙ v))
Filled-update p zero (suc i) (d ∷ ss) s f l u v e =
    (f.0, Filled-update p zero i ss s f.1 (omega arith) u v e)
Filled-update p (suc n) zero (d ∷ ss) s f l u v e = (u, e ∙ f.1, f.2)
Filled-update p (suc n) (suc i) (d ∷ ss) s f l u v e =
    (f.0, f.1, Filled-update (suc p) n i ss s f.2 (omega arith) u v e)

-- Under the invariant, which it keeps, `process_record_user` writes the context and the state to a user
-- process of that name, changes nothing else and answers its pid; where there is none it puts a new one
-- into the first free slot with the next pid, or on a full table of 16 fails and changes nothing.
pub process_record_user-cases :
    (n : List ℕ) (c : UserContext) (st : ProcessState) (t : Table)
    → WellFormed t
    → let r = process_record_user (some n) (some c) st t in Recorded n c st t r ⊎ Updated n c st t r
unfolding process_record_user process_find_user
process_record_user-cases n c st t w =
    elim (find_index-cases (is_user_named n) t.processes empty_slot) [
      | inl (e, h) ↦ rw (process_record_user, e) (inl (record_new-Recorded n c st t w h))
      | inr (i, e, f) ↦
          let live : (get_or t.processes i empty_slot).used ≡ true = ground (arith, f.passes) in
          rw (process_record_user, e)
            (inr (record {
              slot = i;
              bound = f.bound;
              named = (Named-iff n (get_or t.processes i empty_slot)).0 f.passes;
              result = refl;
              written = refl;
              valid = record {
                size = length-set t.processes i _ ∙ w.size;
                live = w.live;
                pids = w.pids;
                filled =
                    Filled-update 1 t.live_count i t.processes _ w.filled f.bound live live refl;
              };
            }))
    ]
