-- ===== src/Scheduler/Running/Tallies.antt =====
-- The counts of requests that `_schedule_running` keeps, for each change of its local variables.
use e_llm.Prelude.{
  ℕ, ◌+◌, ◌≡◌, refl, ap, ◌∙◌, ◌≤◌, ◌<◌, ◌-◌, Bool, true, false, not, Option, none, some, List, [],
  ◌∷◌, ◌++◌, length, any, ltb, nat_beq, nat_eq, if◌then◌else◌, arith, List-cases, inl, inr,
}
use e_llm.Exec.{pure, modify, key_error, index_error}
use e_llm.Exec.Outcomes.{Ends, Stops, ok-Ends, err-Ends, if-Ends, raise_if-Ends, Ends-weaken}
use e_llm.SequenceGroup.{group_prefill, values, SequenceGroup}
use e_llm.Scheduler.{Turn}
use e_llm.Scheduler.Laws.{
  QueuesKept, unmoved, QueuesKept-trans, tally-append, of_groups, of_scheduled,
}
use e_llm.Scheduler.Groups.Identity.{SameRequest}
use e_llm.Scheduler.Running.{
  RunningPass, front, behind, victim, queue_empty, without_last, drop_lora, without_lora, withdraw,
  keep_running, lift_result,
}

-- 1 for a group of the request r
abbrev pub hit : ℕ → SequenceGroup → ℕ
hit r group = of_groups r (group ∷ [])

-- The groups of the request r that have left the queue, and all its groups.
abbrev pub placed : {Move : Type 0} → ℕ → RunningPass Move → ℕ
placed r pass =
    of_scheduled r pass.decode_seq_groups
    + of_scheduled r pass.prefill_seq_groups
    + of_groups r pass.preempted
    + of_groups r pass.swapped_out

abbrev pub total : {Move : Type 0} → ℕ → RunningPass Move → ℕ
total r pass = of_groups r pass.running_queue + placed r pass

victim-tally :
    (r : ℕ) (group : SequenceGroup) (queue : List SequenceGroup)
    → of_groups r (without_last queue) + hit r (victim group queue)
      ≡ of_groups r queue + (if queue_empty queue then hit r group else 0)
victim-tally r group [] = omega arith
victim-tally r group (x ∷ []) = omega arith
victim-tally r group (x ∷ y ∷ ys) = omega (arith, victim-tally r x (y ∷ ys))

pub length-without_last :
    (queue : List SequenceGroup) → length (without_last queue) ≡ length queue - 1
length-without_last [] = refl
length-without_last (x ∷ []) = refl
length-without_last (x ∷ y ∷ ys) = omega (arith, length-without_last (y ∷ ys))

pub length-queue_empty : (queue : List SequenceGroup) → queue_empty queue ≡ false → 0 < length queue
length-queue_empty [] h = absurd (cc)
length-queue_empty (x ∷ xs) h = omega arith

-- A queue that is no longer, and the request is counted once more, unless it has its slots.
abbrev pub HasRoom :
    {Move : Type 0} → ℕ → SequenceGroup → RunningPass Move → Bool × RunningPass Move → Type 0
HasRoom r group pass (room, pass') =
    (length pass'.running_queue ≤ length pass.running_queue)
    × (total r pass' + (if room then hit r group else 0) ≡ total r pass + hit r group)

pub preempted-total :
    {Move : Type 0} (r : ℕ) (group : SequenceGroup) (pass pass' : RunningPass Move)
    → pass'.running_queue ≡ without_last pass.running_queue
    → placed r pass' ≡ placed r pass + hit r (victim group pass.running_queue)
    → total r pass' ≡ total r pass + (if queue_empty pass.running_queue then hit r group else 0)
preempted-total r group pass pass' queue counted =
    omega (arith, ap (of_groups r) queue, victim-tally r group pass.running_queue, counted)

pub tally-joined :
    (r : ℕ) (groups : List SequenceGroup) (group victim : SequenceGroup)
    → SameRequest victim group
    → of_groups r (groups ++ group ∷ []) ≡ of_groups r groups + hit r victim
tally-joined r groups group victim is =
    tally-append (λ g. g.request_id) r groups (group ∷ []) ∙ rw is refl

module _ {M : Type 0} where
  drop_lora-QueuesKept :
      (group : SequenceGroup) (loras : Option (List ℕ)) (t : Turn M)
      → Ends (λ _ u. QueuesKept t u) Stops (drop_lora group loras t)
  unfolding drop_lora
  drop_lora-QueuesKept group none t = ok-Ends tt t (unmoved refl refl refl)
  drop_lora-QueuesKept group (some loras) t =
      if-Ends (ltb 0 group.lora_int_id) _ (pure tt) t
        (λ _.
          raise_if-Ends (not (any (nat_beq group.lora_int_id) loras)) key_error
            (λ _. modify (without_lora group.lora_int_id loras)) t (λ _ is. cc)
            (λ _. ok-Ends tt _ (unmoved refl refl refl)))
        (λ _. ok-Ends tt t (unmoved refl refl refl))

  pub withdraw-QueuesKept :
      (group : SequenceGroup) (n : ℕ) (t : Turn M)
      → Ends (λ _ u. QueuesKept t u) Stops (withdraw group n t)
  unfolding withdraw
  withdraw-QueuesKept group n t =
      Ends-weaken _ (λ _ u k. QueuesKept-trans _ _ _ (unmoved refl refl refl) k)
        (drop_lora-QueuesKept group t.curr_loras _)

pub keep_running-queue :
    {Move : Type 0} (is_prefill : Bool) (group : SequenceGroup) (n : ℕ) (moves : List Move)
    (pass : RunningPass Move)
    → (keep_running is_prefill group n moves pass).running_queue ≡ pass.running_queue
keep_running-queue true group n moves pass = refl
keep_running-queue false group n moves pass = refl

pub keep_running-total :
    {Move : Type 0} (r : ℕ) (is_prefill : Bool) (group : SequenceGroup) (n : ℕ) (moves : List Move)
    (pass : RunningPass Move)
    → total r (keep_running is_prefill group n moves pass) ≡ total r pass + hit r group
keep_running-total r true group n moves pass = omega (
  arith,
  tally-append (λ s. s.seq_group.request_id) r pass.prefill_seq_groups
      (record { seq_group = group; token_chunk_size = n } ∷ []),
)
keep_running-total r false group n moves pass = omega (
  arith,
  tally-append (λ s. s.seq_group.request_id) r pass.decode_seq_groups
      (record { seq_group = group; token_chunk_size = 1 } ∷ []),
)

pub queue_empty-nil : (queue : List SequenceGroup) → queue_empty queue ≡ true → queue ≡ []
queue_empty-nil [] h = refl
queue_empty-nil (x ∷ xs) h = absurd (cc)

pub front-behind :
    (queue : List SequenceGroup) (group : SequenceGroup)
    → front queue ≡ some group
    → queue ≡ group ∷ behind queue
front-behind [] group h = absurd (cc)
front-behind (x ∷ xs) group h = cc

module _ {M : Type 0} where
  pub group_prefill-Ends :
      (group : SequenceGroup) (t : Turn M)
      → Ends (λ _ u. u ≡ t) Stops (lift_result (group_prefill group) t)
  group_prefill-Ends group t = elim (List-cases (values group.seqs_dict)) [
    | inl is ↦ rw is (err-Ends index_error t (λ e. cc))
    | inr (seq, rest, is) ↦ rw is (ok-Ends _ t refl)
  ]
