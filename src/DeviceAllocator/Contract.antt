-- ===== src/DeviceAllocator/Contract.antt =====
-- The device-aware allocator keeps the tokens of the blocks that it gives.
use e_llm.Prelude.{
  ℕ, zero, suc, ◌+◌, ◌≤◌, ◌≡◌, refl, sym, ◌∙◌, subst, true, false, List, [], ◌++◌, length, range,
  ltb, nat_eq, arith, if◌then◌else◌, ◌⊎◌, inl, inr, Bool-cases,
}
use e_llm.Dict.{contains}
use e_llm.Dict.Laws.{contains_of_get}
use e_llm.Exec.{Exec, Result, ok, err}
use e_llm.Exec.Outcomes.{Ends, ok-Ends, err-Ends}
use e_llm.BlockTable.{Device}
use e_llm.BlockTable.Contents.{KeepsTokens, OutOfBlocks, Gives, Later}
use e_llm.NaiveAllocator.{
  Allocator, NaiveBlock, zeros, allocate_mutable, allocate_immutable, append_token_ids,
}
use e_llm.NaiveAllocator.Balance.{IsBalanced}
use e_llm.NaiveAllocator.Books.{range-IsBalanced}
use e_llm.NaiveAllocator.Blocks.{IsLive, Stays, Made, append-Made, mutable-Made, immutable-Made}
use e_llm.DeviceAllocator.{CpuGpuBlockAllocator, create, on_gpu, on_cpu, on_device, on_own, cpu_gpu}

-- Both allocators are balanced and have the block size, and they share no id.
pub record IsSound (size : ℕ) (s : CpuGpuBlockAllocator) : Type 0 where
  pub gpu_balanced : IsBalanced s.gpu_allocator
  pub cpu_balanced : IsBalanced s.cpu_allocator
  pub gpu_size : s.gpu_allocator.block_size ≡ size
  pub cpu_size : s.cpu_allocator.block_size ≡ size
  pub disjoint :
      (i : ℕ)
      → contains i s.gpu_allocator.refcounts ≡ true
      → contains i s.cpu_allocator.refcounts ≡ false

module _ (position : List ℕ → ℕ) (size : ℕ) where
  -- A block with the size that one of the allocators counts as referenced.
  abbrev pub IsAllocated : NaiveBlock → CpuGpuBlockAllocator → Type 0
  IsAllocated block s =
      IsLive position size block s.gpu_allocator ⊎ IsLive position size block s.cpu_allocator

  abbrev After : CpuGpuBlockAllocator → CpuGpuBlockAllocator → Type 0
  After s s' = Later (IsSound size) IsAllocated s s'

  IsLive-Stays :
      (block : NaiveBlock) (s s' : Allocator)
      → Stays s s'
      → IsLive position size block s
      → IsLive position size block s'
  IsLive-Stays block s s' (_, _, keeps, _) (i, id_set, live, sized) =
      (i, id_set, keeps i live, sized)

  gpu-After :
      (s : CpuGpuBlockAllocator) (a : Allocator)
      → IsSound size s
      → Stays s.gpu_allocator a
      → After s (record s { gpu_allocator = a })
  gpu-After s a sound (b, same, keeps, ids) = (
    record {
      gpu_balanced = b;
      cpu_balanced = sound.cpu_balanced;
      gpu_size = same ∙ sound.gpu_size;
      cpu_size = sound.cpu_size;
      disjoint = λ i there. sound.disjoint i (sym (ids i) ∙ there);
    },
    λ block live. elim live [
      | inl on_it ↦ inl (IsLive-Stays block s.gpu_allocator a (b, same, keeps, ids) on_it)
      | inr other ↦ inr other
    ],
  )

  cpu-After :
      (s : CpuGpuBlockAllocator) (a : Allocator)
      → IsSound size s
      → Stays s.cpu_allocator a
      → After s (record s { cpu_allocator = a })
  cpu-After s a sound (b, same, keeps, ids) = (
    record {
      gpu_balanced = sound.gpu_balanced;
      cpu_balanced = b;
      gpu_size = sound.gpu_size;
      cpu_size = same ∙ sound.cpu_size;
      disjoint = λ i there. ids i ∙ sound.disjoint i there;
    },
    λ block live. elim live [
      | inl other ↦ inl other
      | inr on_it ↦ inr (IsLive-Stays block s.cpu_allocator a (b, same, keeps, ids) on_it)
    ],
  )

  abbrev Given : List ℕ → CpuGpuBlockAllocator → NaiveBlock → CpuGpuBlockAllocator → Type 0
  Given tokens s block s' = Gives (IsSound size) IsAllocated (cpu_gpu position) tokens s block s'

  on_gpu-Given :
      (call : Exec Allocator NaiveBlock) (tokens : List ℕ) (s : CpuGpuBlockAllocator)
      → IsSound size s
      → Ends (Made position size tokens s.gpu_allocator) OutOfBlocks (call s.gpu_allocator)
      → Ends (Given tokens s) OutOfBlocks (on_gpu call s)
  on_gpu-Given call tokens s sound h = by_result (call s.gpu_allocator) h
    where
      by_result :
          (ran : Result NaiveBlock × Allocator)
          → Ends (Made position size tokens s.gpu_allocator) OutOfBlocks ran
          → Ends (Given tokens s) OutOfBlocks (ran.0, record s { gpu_allocator = ran.1 })
      by_result (ok block, a) h =
          let (text, live, stays) = h.outcome_of in
          ok-Ends block _ (text, inl live, gpu-After s a sound stays)
      by_result (err e, a) h = err-Ends e _ h.outcome_of

  on_cpu-Given :
      (call : Exec Allocator NaiveBlock) (tokens : List ℕ) (s : CpuGpuBlockAllocator)
      → IsSound size s
      → Ends (Made position size tokens s.cpu_allocator) OutOfBlocks (call s.cpu_allocator)
      → Ends (Given tokens s) OutOfBlocks (on_cpu call s)
  on_cpu-Given call tokens s sound h = by_result (call s.cpu_allocator) h
    where
      by_result :
          (ran : Result NaiveBlock × Allocator)
          → Ends (Made position size tokens s.cpu_allocator) OutOfBlocks ran
          → Ends (Given tokens s) OutOfBlocks (ran.0, record s { cpu_allocator = ran.1 })
      by_result (ok block, a) h =
          let (text, live, stays) = h.outcome_of in
          ok-Ends block _ (text, inr live, cpu-After s a sound stays)
      by_result (err e, a) h = err-Ends e _ h.outcome_of

  on_device-Given :
      (call : Exec Allocator NaiveBlock) (tokens : List ℕ) (d : Device) (s : CpuGpuBlockAllocator)
      → IsSound size s
      → ((a : Allocator)
          → IsBalanced a
          → a.block_size ≡ size
          → Ends (Made position size tokens a) OutOfBlocks (call a))
      → Ends (Given tokens s) OutOfBlocks (on_device d call s)
  on_device-Given call tokens Device.gpu s sound h =
      on_gpu-Given call tokens s sound (h s.gpu_allocator sound.gpu_balanced sound.gpu_size)
  on_device-Given call tokens Device.cpu s sound h =
      on_cpu-Given call tokens s sound (h s.cpu_allocator sound.cpu_balanced sound.cpu_size)

  -- The allocator that has the block's id is the one that counts it as referenced.
  append-Given :
      (block : NaiveBlock) (tokens : List ℕ) (s : CpuGpuBlockAllocator)
      → IsSound size s
      → IsAllocated block s
      → length block.token_ids + length tokens ≤ size
      → Ends
          (Given (block.token_ids ++ tokens) s)
          OutOfBlocks
          (on_own block.block_id (append_token_ids position tokens block) s)
  append-Given block tokens s sound (inl (i, id_set, (n, known), sized)) fits =
      let there : contains i s.gpu_allocator.refcounts ≡ true =
        contains_of_get i (suc n) s.gpu_allocator.refcounts known in
      subst
        (λ o.
          Ends (Given (block.token_ids ++ tokens) s) OutOfBlocks
            (on_own o (append_token_ids position tokens block) s))
        (sym id_set)
        (rw there (
          on_gpu-Given (append_token_ids position tokens block) (block.token_ids ++ tokens) s sound
            (append-Made position size tokens block s.gpu_allocator sound.gpu_balanced
              (i, id_set, (n, known), sized) fits)))
  append-Given block tokens s sound (inr (i, id_set, (n, known), sized)) fits =
      let there : contains i s.cpu_allocator.refcounts ≡ true =
        contains_of_get i (suc n) s.cpu_allocator.refcounts known in
      let elsewhere : contains i s.gpu_allocator.refcounts ≡ false =
        elim (Bool-cases (contains i s.gpu_allocator.refcounts)) [
          | inl both ↦ absurd (ground (arith, sound.disjoint i both, there))
          | inr not_there ↦ not_there
        ] in
      subst
        (λ o.
          Ends (Given (block.token_ids ++ tokens) s) OutOfBlocks
            (on_own o (append_token_ids position tokens block) s))
        (sym id_set)
        (rw elsewhere (
          rw there (
            on_cpu-Given (append_token_ids position tokens block) (block.token_ids ++ tokens) s
              sound
              (append-Made position size tokens block s.cpu_allocator sound.cpu_balanced
                (i, id_set, (n, known), sized) fits))))

  pub cpu_gpu-KeepsTokens : KeepsTokens (cpu_gpu position) size (IsSound size) IsAllocated
  cpu_gpu-KeepsTokens = record {
    mutable_empty = λ before d s sound.
        on_device-Given (allocate_mutable position) [] d s sound (λ a b same.
          subst (λ k. Ends (Made position k [] a) OutOfBlocks (allocate_mutable position a)) same
            (mutable-Made position a b));
    immutable_holds = λ before tokens d s sound fits.
        on_device-Given (allocate_immutable position tokens) tokens d s sound (λ a b same.
          subst
            (λ k.
              Ends (Made position k tokens a) OutOfBlocks (allocate_immutable position tokens a))
            same
            (immutable-Made position tokens a b (subst (λ k. length tokens ≤ k) (sym same) fits)));
    append_extends = append-Given;
  }

contains-zeros :
    (i lo n : ℕ) → contains i (zeros (range lo n)) ≡ (if ltb i lo then false else ltb i (lo + n))
unfolding contains
contains-zeros i lo zero = ground arith
contains-zeros i lo (suc n) = ground (arith, contains-zeros i (suc lo) n)

-- The constructor's two ranges of ids.
pub create-IsSound :
    (num_gpu_blocks num_cpu_blocks size : ℕ)
    → IsSound size (create num_gpu_blocks num_cpu_blocks size)
create-IsSound num_gpu_blocks num_cpu_blocks size = record {
  gpu_balanced = range-IsBalanced 0 num_gpu_blocks size;
  cpu_balanced = range-IsBalanced num_gpu_blocks num_cpu_blocks size;
  gpu_size = refl;
  cpu_size = refl;
  disjoint = apart;
}
  where
    apart :
        (i : ℕ)
        → contains i (zeros (range 0 num_gpu_blocks)) ≡ true
        → contains i (zeros (range num_gpu_blocks num_cpu_blocks)) ≡ false
    apart i there =
        contains-zeros i num_gpu_blocks num_cpu_blocks
        ∙ ground (arith, there, contains-zeros i 0 num_gpu_blocks)
