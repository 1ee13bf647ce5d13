-- ===== src/EllmBlockManager/FreeCounts.antt =====
-- Free blocks per layer group, their minimum, and allocation of a list of sequences.
use e_llm.Prelude.{
  ℕ, zero, suc, ◌+◌, ◌/◌, ◌%◌, ◌≡◌, refl, ap, ◌∙◌, subst, ◌≤◌, ◌<◌, false, none, some, List, [],
  ◌∷◌, ◌++◌, arith, length, range, nat_beq, nat_eq, inl, inr, Bool-cases, Option-cases, min,
  get_elem?-get_or,
}
use e_llm.Dict.{contains, put}
use e_llm.Dict.Laws.{contains-put}
use e_llm.Exec.{ok}
use e_llm.KvMap.{TokenLayerKvMap}
use e_llm.KvMap.Sequences.{allocate_sequence}
use e_llm.KvMap.Accounts.{free_at}
use e_llm.KvMap.WellFormed.{IsWellFormed}
use e_llm.KvMap.WellFormed.Allocation.{missing, allocate_lem}
use e_llm.Sequence.{Sequence, get_len}
use e_llm.EllmBlockManager.{required_blocks, sum_required, free_counts, min_of, allocate_all}

-- The counts of the groups, each as long as its free list.
abbrev pub frees : TokenLayerKvMap → List ℕ → List ℕ
frees s [] = []
frees s (g ∷ groups) = length (free_at s g) ∷ frees s groups

pub free_counts_lem :
    (s : TokenLayerKvMap) (lo n : ℕ)
    → lo + n ≤ length s.free_blocks
    → free_counts (range lo n) s ≡ (ok (frees s (range lo n)), s)
unfolding free_counts
free_counts_lem s lo zero h = refl
free_counts_lem s lo (suc n) h =
    rw (get_elem?-get_or s.free_blocks lo [] (omega (arith, h)))
      (rw (free_counts_lem s (suc lo) n (omega (arith, h))) refl)

abbrev Below : ℕ → List ℕ → Type 0
Below m [] = Unit {0}
Below m (n ∷ ns) = (m ≤ n) × Below m ns

Below-mono : (k m : ℕ) (ns : List ℕ) → m ≤ k → Below k ns → Below m ns
Below-mono k m [] h b = tt
Below-mono k m (n ∷ ns) h (first, rest) = (omega arith, Below-mono k m ns h rest)

none-Below : (m : ℕ) (ns : List ℕ) → min_of ns ≡ none → Below m ns
none-Below m [] h = tt
none-Below m (n ∷ ns) h = elim (Option-cases (min_of ns)) [
  | inl nothing ↦ absurd (no (rw nothing at h))
  | inr (k, found) ↦ absurd (no (rw found at h))
]
  where
    no : {x : ℕ} → some x ≡ none → ⊥
    no h = cc

pub min_of-Below : (m : ℕ) (ns : List ℕ) → min_of ns ≡ some m → Below m ns
min_of-Below m [] least = absurd (cc)
min_of-Below m (n ∷ ns) least =
    let again = λ (k : ℕ). min_of-Below k ns in
    elim (Option-cases (min_of ns)) [
      | inl nothing ↦
          let value : n ≡ m = some_inj (rw nothing at least) in
          (omega (arith, value), none-Below m ns nothing)
      | inr (k, found) ↦
          let value : min n k ≡ m = some_inj (rw found at least) in
          (omega (arith, value), Below-mono k m ns (omega (arith, value)) (again k found))
    ]
  where
    some_inj : {x y : ℕ} → some x ≡ some y → x ≡ y
    some_inj h = cc

pub Below-at :
    (s : TokenLayerKvMap) (m lo n g : ℕ)
    → Below m (frees s (range lo n))
    → lo ≤ g
    → g < lo + n
    → m ≤ length (free_at s g)
Below-at s m lo zero g b low high = absurd (omega arith)
Below-at s m lo (suc n) g (first, rest) low high = elim (Bool-cases (nat_beq lo g)) [
  | inl hit ↦ let same : lo ≡ g = ground arith in subst (λ h. m ≤ length (free_at s h)) same first
  | inr miss ↦ Below-at s m (suc lo) n g rest (ground arith) (omega arith)
]

-- In each layer group that many blocks are free.
abbrev pub HasFree : TokenLayerKvMap → ℕ → Type 0
HasFree s n = (g : ℕ) → g < s.num_layer_groups → n ≤ length (free_at s g)

-- No sequence has the id.
abbrev pub Apart : ℕ → List Sequence → Type 0
Apart i [] = Unit {0}
Apart i (seq ∷ seqs) = (nat_beq i seq.seq_id ≡ false) × Apart i seqs

-- What `allocate` asks of the waiting sequences: ids that are new and different, and no empty one.
abbrev pub AllNew : List Sequence → TokenLayerKvMap → Type 0
AllNew [] s = Unit {0}
AllNew (seq ∷ seqs) s =
    (contains seq.seq_id s.sequence_lengths ≡ false)
    × (0 < get_len seq)
    × Apart seq.seq_id seqs
    × AllNew seqs s

zero_prefix : (b : ℕ) → 0 < b → (0 % b ≡ 0) × (0 / b ≡ 0)
zero_prefix b h = (grind arith, grind arith)

AllNew-put :
    (seqs : List Sequence) (s s' : TokenLayerKvMap) (i n : ℕ)
    → s'.sequence_lengths ≡ put i n s.sequence_lengths
    → Apart i seqs
    → AllNew seqs s
    → AllNew seqs s'
AllNew-put [] s s' i n e apart new = tt
AllNew-put (seq ∷ seqs) s s' i n e (first, apart) (fresh, long, others, new) = (
  ap (contains seq.seq_id) e ∙ contains-put i seq.seq_id n s.sequence_lengths ∙ rw first fresh,
  long,
  others,
  AllNew-put seqs s s' i n e apart new,
)

pub allocate_all_lem :
    (seqs : List Sequence) (allocated : List ℕ) (block_size : ℕ) (s : TokenLayerKvMap)
    → IsWellFormed s
    → s.block_size ≡ block_size
    → AllNew seqs s
    → HasFree s (sum_required block_size seqs)
    → (s' : TokenLayerKvMap) × (allocate_all seqs allocated s ≡ (ok tt, s')) × IsWellFormed s'
unfolding allocate_all allocate_sequence
allocate_all_lem [] allocated bs s w size new enough = (s, refl, w)
allocate_all_lem (seq ∷ seqs) allocated bs s w size (fresh, long, apart, new) enough =
    let (even, none_evicted) = zero_prefix s.block_size w.block_size_pos in
    let again = allocate_all_lem seqs (allocated ++ seq.seq_id ∷ []) bs in
    let need : missing s (get_len seq) 0 ≡ required_blocks bs seq =
      rw size (omega (arith, none_evicted, size)) in
    elim (allocate_lem s w seq.seq_id (get_len seq) 0
      (fresh, long, even, omega (arith, none_evicted))) [
        | inl (s1, ran, w1, dims, lengths, _, took) ↦
            let (s', rest, w') =
              again s1 w1 (rw dims size)
                (AllNew-put seqs s s1 seq.seq_id (get_len seq) lengths apart new)
                (λ g h. ground (arith, took g, enough g, need, dims, h)) in
            (s', rw ran rest, w')
        | inr (s1, ran, _, _, _, (g, inside, short)) ↦
            absurd (omega (arith, enough g inside, short, need))
      ]
