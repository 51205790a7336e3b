-- ===== src/Kernel/Process/Lookup.antt =====
-- kernel/process.c: what is recorded under a name is found under it.
use minerva_os.Base.{
  ℕ, ◌≡◌, ◌<◌, ap, true, false, List, some, inl, inr, set, length, get_or-set_self, All, FailBelow,
  FailBelow-All, find_index-cases, find_index-set, none-ne-some,
}
use minerva_os.Kernel.Names.{same_name_self}
use minerva_os.Kernel.Process.{
  Process, Table, ProcessState, UserContext, empty_slot, is_free, is_user_named, process_alloc,
  process_record_user, record_new, process_find_user, process_get_user_context,
}

found_after :
    (n : List ℕ) (t : Table) (i : ℕ) (s : Process)
    → FailBelow (is_user_named n) i t.processes
    → i < length t.processes
    → is_user_named n s ≡ true
    → (a b : ℕ)
    → process_get_user_context
        (some n)
        (record { processes = set t.processes i s; next_pid = a; live_count = b })
      ≡ some s.user_context
unfolding process_get_user_context process_find_user
found_after n t i s f l e a b =
    rw (process_get_user_context, find_index-set (is_user_named n) t.processes i s f l e)
      (ap (λ x. some x.user_context) (get_or-set_self t.processes i s empty_slot l))

record_new-found :
    (n : List ℕ) (c : UserContext) (st : ProcessState) (t : Table) (pid : ℕ)
    → All (λ s. is_user_named n s ≡ false) t.processes
    → (record_new n c st t).0 ≡ some pid
    → process_get_user_context (some n) (record_new n c st t).1 ≡ some c
unfolding record_new process_alloc
record_new-found n c st t pid h e = elim (find_index-cases is_free t.processes empty_slot) [
  | inl (none', _) ↦ absurd (none-ne-some pid (rw (record_new, none') at e))
  | inr (i, found, f) ↦
      rw (record_new, found)
        (found_after n t i _ (FailBelow-All (is_user_named n) i t.processes h) f.bound
          (same_name_self n) _ _)
]

-- When `process_record_user` answers a pid, `process_get_user_context` of the same name answers the
-- context recorded, whether the process is new or was there before.
pub process_get_user_context-process_record_user :
    (n : List ℕ) (c : UserContext) (st : ProcessState) (t : Table) (pid : ℕ)
    → (process_record_user (some n) (some c) st t).0 ≡ some pid
    → process_get_user_context (some n) (process_record_user (some n) (some c) st t).1 ≡ some c
unfolding process_record_user process_find_user
process_get_user_context-process_record_user n c st t pid e =
    elim (find_index-cases (is_user_named n) t.processes empty_slot) [
      | inl (none', h) ↦
          let e' = rw (process_record_user, none') at e in
          rw (process_record_user, none') (record_new-found n c st t pid h e')
      | inr (i, found, f) ↦
          rw (process_record_user, found) (found_after n t i _ f.first f.bound f.passes _ _)
    ]
