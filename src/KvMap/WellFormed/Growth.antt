-- ===== src/KvMap/WellFormed/Growth.antt =====
-- `append_token`: it keeps the invariant whatever happens, and on success the new token's block is
-- held by the sequence alone in every layer group.
use e_llm.Prelude.{
  ℕ, ◌+◌, ◌-◌, ◌≡◌, refl, sym, ap, ◌∙◌, ◌<◌, ◌⊎◌, inl, inr, ◌&&◌, true, false, some, ltb, leb,
  nat_eq, nat_beq, lt→ltb, if◌then◌else◌, arith, List, [], ◌∷◌, Bool-cases, Option-cases,
}
use e_llm.Exec.{Result, Error, ok, err, runtime_error, ◌>>=◌, ◌>>◌, pure, modify}
use e_llm.Dict.{Dict, get, contains, put}
use e_llm.Dict.Laws.{get-put}
use e_llm.Dict.Keys.{mem, Absent-intro, contains-append_made}
use e_llm.KvMap.{
  Key, KvMapEntry, TokenLayerKvMap, key_eq, retained, table, ceil_div, num_logical_blocks,
}
use e_llm.KvMap.Blocks.{reserve}
use e_llm.KvMap.Sequences.{
  column, layer_groups, fresh_entry, collect_cow, open_block, extend_block, append_token,
}
use e_llm.KvMap.KeyLists.{mem-column, mem-range, Unique-column, Unique-range}
use e_llm.KvMap.Accounts.{Accounts, Same, nothing, ref_at}
use e_llm.KvMap.Accounts.Loops.{Entered, Reserves, reserve_lem, Entered-once}
use e_llm.KvMap.Accounts.Entries.{other, Frame, Frame-trans, Same-Frame, Same-table}
use e_llm.KvMap.WellFormed.{IsWellFormed, retains, IsSpan}
use e_llm.KvMap.WellFormed.NewSequence.{Accounts-sequences, Undone-IsWellFormed}
use e_llm.KvMap.WellFormed.CopyOnWrite.{AllReady, AllReady-Same, collect_cow_lem, Collects}
use e_llm.KvMap.WellFormed.TailCopies.{owed, tail_key, Accounts-ext, Same-sym}
use e_llm.KvMap.WellFormed.Tail.{AllSole, fill_tail_lem}
use e_llm.KvMap.WellFormed.TailMoves.{pending}

-- One more token needs one more block or none.
pub ceil_div-suc :
    (n b : ℕ)
    → 0 < b
    → (ceil_div (n + 1) b ≡ ceil_div n b) ⊎ (ceil_div (n + 1) b ≡ ceil_div n b + 1)
ceil_div-suc n b h = grind arith

pub ceil_div-pos : (n b : ℕ) → 0 < b → 0 < n → 0 < ceil_div n b
ceil_div-pos n b h k = grind arith

abbrev pub set_length : ℕ → ℕ → TokenLayerKvMap → TokenLayerKvMap
set_length seq n s = record s { sequence_lengths = put seq n s.sequence_lengths }

-- In every layer group, the block's entry names a physical block with no other reference.
abbrev pub Exclusive : TokenLayerKvMap → ℕ → ℕ → Type 0
Exclusive s seq block =
    (g : ℕ)
    → g < s.num_layer_groups
    → (e : KvMapEntry) × (get (tail_key seq block g) s.entries ≡ some e)
      × (ref_at s g e.physical_block_id ≡ 1)

abbrev pub Appended : TokenLayerKvMap → ℕ → ℕ → Result (List (ℕ × ℕ × ℕ)) × TokenLayerKvMap → Type 0
Appended s seq old r =
    ((copies : List (ℕ × ℕ × ℕ)) × (s' : TokenLayerKvMap) × (r ≡ (ok copies, s'))
      × IsWellFormed s'
      × (s'.sequence_lengths ≡ put seq (old + 1) s.sequence_lengths)
      × (s'.evicted_prefix_blocks ≡ s.evicted_prefix_blocks)
      × Exclusive s' seq (ceil_div (old + 1) s.block_size - 1))
    ⊎ ((e : Error) × (s' : TokenLayerKvMap) × (r ≡ (err e, s'))
        × IsWellFormed s'
        × Frame retained s s'
        × (s'.entries ≡ s.entries))

module _ (s : TokenLayerKvMap) (w : IsWellFormed s) (seq old : ℕ)
    (known : get seq s.sequence_lengths ≡ some old) where
  -- The entries are those of a sequence that is longer by a token.
  Longer : TokenLayerKvMap → Type 0
  Longer s' =
      (k : Key)
      → contains k s'.entries ≡ (
          if nat_beq seq k.seq_id
          then retains s.block_size s.num_layer_groups (some (old + 1))
              (get seq s.evicted_prefix_blocks) k
          else contains k s.entries)

  Longer-IsWellFormed :
      (s' : TokenLayerKvMap)
      → Accounts nothing s'
      → Frame retained s s'
      → Longer s'
      → IsWellFormed (set_length seq (old + 1) s')
  unfolding Longer table other
  Longer-IsWellFormed s' a f longer = record {
    accounts = Accounts-sequences _ _ a;
    block_size_pos = rw f.dims w.block_size_pos;
    groups_pos = rw f.dims w.groups_pos;
    domain = λ k.
        longer k
        ∙ rw (f.dims, f.sequence_lengths, f.evicted_prefix_blocks)
            (ground (arith, w.domain k, get-put seq k.seq_id (old + 1) s.sequence_lengths));
    temporary = λ k t.
        rw (f.dims, f.evicted_prefix_blocks)
          (w.temporary k (ap (contains k) (sym f.other_table) ∙ t));
    spans = λ q. rw (f.dims, f.sequence_lengths, f.evicted_prefix_blocks) (span q);
  }
    where
      span :
          (q : ℕ)
          → IsSpan s.block_size
              (get q (put seq (old + 1) s.sequence_lengths))
              (get q s.evicted_prefix_blocks)
      span q = ground (
        arith,
        w.spans q,
        known,
        ceil_div-suc old s.block_size w.block_size_pos,
        get-put seq q (old + 1) s.sequence_lengths,
      )

  block : ℕ
  block = ceil_div (old + 1) s.block_size - 1

  new_block : ℕ
  new_block = ceil_div old s.block_size

  -- The branch that opens a block.
  module _ (opens : ceil_div (old + 1) s.block_size ≡ ceil_div old s.block_size + 1) where
    opened : List Key
    opened = column seq (ceil_div old s.block_size) (layer_groups s)

    mem-opened :
        (k : Key)
        → mem k opened ≡ (
            nat_beq seq k.seq_id
            && nat_beq (ceil_div old s.block_size) k.block
            && ltb k.group s.num_layer_groups)
    unfolding opened
    mem-opened k =
        mem-column seq k (ceil_div old s.block_size) (layer_groups s)
        ∙ ground (arith, mem-range k.group 0 s.num_layer_groups)

    opened-new : (k : Key) → mem k opened ≡ true → contains k s.entries ≡ false
    opened-new k m = ground (arith, mem-opened k, w.domain k, known)

    open-Longer :
        (make : Key → ℕ → KvMapEntry) (names : (k : Key) (b : ℕ) → (make k b).physical_block_id ≡ b)
        (s' : TokenLayerKvMap)
        → Entered nothing retained make names s opened s'
        → Longer s'
    unfolding Longer table
    open-Longer make names s' h k =
        ap (contains k) h.grown
        ∙ contains-append_made make k opened h.blocks s.entries h.blocks_length
        ∙ ground (arith, mem-opened k, w.domain k, known, opens, w.spans seq)

    make : Key → ℕ → KvMapEntry
    make = fresh_entry s false (λ _. 1)

    make-names : (k : Key) (b : ℕ) → (make k b).physical_block_id ≡ b
    unfolding make
    make-names k b = refl

    append-open :
        append_token seq s
        ≡ (do
          copies ← open_block seq (ceil_div (old + 1) s.block_size - 1)
          modify (set_length seq (old + 1))
          pure copies)
            s
    unfolding append_token num_logical_blocks open_block
    append-open =
        rw known
          (rw (lt→ltb (ceil_div old s.block_size) (ceil_div (old + 1) s.block_size) (omega arith)))

    open-Appended :
        Reserves nothing retained make make-names s [] opened s (reserve retained make opened [] s)
        → Appended s seq old (append_token seq s)
    unfolding opened make open_block table
    open-Appended (inl (s', ran, h, _)) = inl (
      [],
      set_length seq (old + 1) s',
      append-open ∙ unfold open_block in rw tail_block (rw ran),
      Longer-IsWellFormed s' h.accounts h.frame (open-Longer make make-names s' h),
      ap (put seq (old + 1)) h.frame.sequence_lengths,
      h.frame.evicted_prefix_blocks,
      λ g hg. sole g (rw h.frame.dims at hg),
    )
      where
        tail_block : ceil_div (old + 1) s.block_size - 1 ≡ ceil_div old s.block_size
        tail_block = omega (arith, opens)

        sole :
            (g : ℕ)
            → g < s.num_layer_groups
            → (e : KvMapEntry) × (get
                  (tail_key seq (ceil_div (old + 1) s.block_size - 1) g)
                  s'.entries
                ≡ some e)
              × (ref_at s' g e.physical_block_id ≡ 1)
        sole g hg =
            let k : Key = tail_key seq (ceil_div (old + 1) s.block_size - 1) g in
            let m : mem k opened ≡ true = ground (arith, mem-opened k, opens) in
            let (b, found, single) =
              Entered-once nothing retained make make-names s k h m (opened-new k m) in
            (make k b, found, single)
    open-Appended (inr (s', ran, (a, f, e), _)) = inr (
      runtime_error,
      s',
      append-open ∙ unfold open_block in rw tail_block (rw ran),
      Undone-IsWellFormed retained w a f e,
      f,
      e,
    )
      where
        tail_block : ceil_div (old + 1) s.block_size - 1 ≡ ceil_div old s.block_size
        tail_block = omega (arith, opens)

  -- The branch that fills the tail block.
  module _ (fills : ceil_div (old + 1) s.block_size ≡ ceil_div old s.block_size) where
    append-extend :
        append_token seq s
        ≡ (do
          copies ← extend_block seq (ceil_div (old + 1) s.block_size - 1)
          modify (set_length seq (old + 1))
          pure copies)
            s
    unfolding append_token num_logical_blocks extend_block
    append-extend =
        rw known (rw (not_ltb (ceil_div old s.block_size) (ceil_div (old + 1) s.block_size) fills))
      where
        not_ltb : (a b : ℕ) → b ≡ a → ltb a b ≡ false
        not_ltb a b e = ground arith

    same_blocks-Longer :
        (s' : TokenLayerKvMap)
        → ((k : Key) → contains k s'.entries ≡ contains k s.entries)
        → Longer s'
    unfolding Longer
    same_blocks-Longer s' same k = same k ∙ ground (arith, w.domain k, known, fills)

    fill-Appended :
        (cow : Dict ℕ ℕ) (s1 : TokenLayerKvMap)
        → collect_cow seq (ceil_div (old + 1) s.block_size - 1) (layer_groups s) [] s ≡ (ok cow, s1)
        → Accounts (pending (layer_groups s) cow) s1
        → Same s s1
        → AllReady s1 seq (ceil_div (old + 1) s.block_size - 1) cow (layer_groups s)
        → Appended s seq old (append_token seq s)
    unfolding extend_block
    fill-Appended cow s1 ran a same ready =
        let (copies, s', filled, a', un, all) =
          fill_tail_lem seq (ceil_div (old + 1) s.block_size - 1) (layer_groups s) s1 cow [] a
            (Unique-range 0 s.num_layer_groups) ready in
        let f = Frame-trans retained (Same-Frame retained same) un.frame in
        inl (
          copies,
          set_length seq (old + 1) s',
          append-extend ∙ rw ran (rw filled),
          Longer-IsWellFormed s' a' f
              (same_blocks-Longer s' (λ k. un.keys k ∙ ap (contains k) same.entries)),
          ap (put seq (old + 1)) f.sequence_lengths,
          f.evicted_prefix_blocks,
          λ g hg.
              sole_at s' a' (layer_groups s) g all
                (mem-range g 0 s.num_layer_groups ∙ in_groups g (rw f.dims at hg)),
        )
      where
        in_groups :
            (g : ℕ) → g < s.num_layer_groups → (leb 0 g && ltb g (0 + s.num_layer_groups)) ≡ true
        in_groups g hg = ground arith

        sole_at :
            (s' : TokenLayerKvMap)
            → Accounts nothing s'
            → (gs : List ℕ) (g : ℕ) → AllSole s' seq (ceil_div (old + 1) s.block_size - 1) gs
            → mem g gs ≡ true
            → (e : KvMapEntry) × (get
                  (tail_key seq (ceil_div (old + 1) s.block_size - 1) g)
                  s'.entries
                ≡ some e)
              × (ref_at s' g e.physical_block_id ≡ 1)
        sole_at s' a' [] g all m = absurd (cc)
        sole_at s' a' (h ∷ gs) g ((e, found, once), rest) m = elim (Bool-cases (nat_beq h g)) [
          | inl hit ↦
              let same : h ≡ g = ground arith in
              (
                e,
                rw (← same) found,
                rw (← same) (a'.refs h e.physical_block_id ∙ omega (arith, once)),
              )
          | inr miss ↦ sole_at s' a' gs g rest (rw miss at m)
        ]

    extend-Appended :
        Collects s seq
          (ceil_div (old + 1) s.block_size - 1)
          []
          (layer_groups s)
          (collect_cow seq (ceil_div (old + 1) s.block_size - 1) (layer_groups s) [] s)
        → Appended s seq old (append_token seq s)
    unfolding extend_block get
    extend-Appended (inl (cow, s1, ran, a, same, all, outside)) =
        fill-Appended cow s1 ran (Accounts-ext in_reserve a) same
          (AllReady-Same seq _ cow (layer_groups s) (Same-sym same) all)
      where
        in_reserve : (g b : ℕ) → owed cow g b ≡ pending (layer_groups s) cow g b
        in_reserve g b = ground (arith, outside g)
    extend-Appended (inr (e, s', ran, a, same)) = inr (
      e,
      s',
      append-extend ∙ rw ran,
      Undone-IsWellFormed retained w a (Same-Frame retained same) (Same-table retained same),
      Same-Frame retained same,
      same.entries,
    )

    extend_lem : Appended s seq old (append_token seq s)
    extend_lem = extend-Appended (
        collect_cow_lem seq _ (layer_groups s) s [] (Accounts-ext none_owed w.accounts) tt
          (Unique-range 0 s.num_layer_groups)
          (Absent-intro {V = ℕ} (layer_groups s) [] (λ g m. unfold contains in refl)))
      where
        none_owed : (g b : ℕ) → nothing g b ≡ owed [] g b
        none_owed g b = unfold get in refl

  -- Either the sequence is longer by a token, alone in its tail block, or nothing has changed.
  pub append_lem : Appended s seq old (append_token seq s)
  append_lem = elim (ceil_div-suc old s.block_size w.block_size_pos) [
    | inl fills ↦ extend_lem fills
    | inr opens ↦ open-Appended opens (
        reserve_lem nothing retained (make opens) (make-names opens) s w.accounts
          (unfold opened in
            Unique-column seq _ (layer_groups s) (Unique-range 0 s.num_layer_groups))
          (unfold table in Absent-intro (opened opens) s.entries (opened-new opens)))
  ]

-- The invariant is kept whatever the sequence, on success and on failure.
pub append-IsWellFormed :
    (s : TokenLayerKvMap) (seq : ℕ) → IsWellFormed s → IsWellFormed (append_token seq s).1
append-IsWellFormed s seq w = elim (Option-cases (get seq s.sequence_lengths)) [
  | inl unknown ↦ unfold append_token in rw unknown w
  | inr (old, known) ↦ elim (append_lem s w seq old known) [
    | inl (copies, s', ran, w', _, _, _) ↦ rw ran w'
    | inr (e, s', ran, w', _, _) ↦ rw ran w'
  ]
]
