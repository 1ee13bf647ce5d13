-- ===== src/KvMap/WellFormed/Recomputing.antt =====
-- Recomputation keeps the invariant: temporary blocks stand for evicted blocks only, and are always
-- taken back without an error.
use e_llm.Prelude.{
  ℕ, ◌*◌, ◌≡◌, refl, sym, ap, ◌∙◌, ◌<◌, inl, inr, ◌&&◌, true, false, Option, some, none, ltb,
  nat_eq, nat_beq, if◌then◌else◌, arith, List, [], ◌∷◌, ◌++◌, any, range, replicate, Bool-cases,
  Option-cases, ltb→lt,
}
use e_llm.Exec.{Exec, key_error, runtime_error, ◌>>=◌, pure, or_raise}
use e_llm.Exec.Reads.{Reads, Reads-bind, Reads-or_raise}
use e_llm.Dict.{Dict, get, contains}
use e_llm.Dict.Keys.{mem, Absent-intro, keys_of, contains-append_made}
use e_llm.KvMap.{Key, KvMapEntry, TokenLayerKvMap, key_eq, transient, table, num_logical_blocks}
use e_llm.KvMap.Blocks.{reserve}
use e_llm.KvMap.Sequences.{row, of_seq, fresh_entry}
use e_llm.KvMap.Recompute.{
  get_decode_block_table, place, place_all, begin_prefix, begin_recompute, get_retained_block_table,
  recompute_slots, get_recompute_slot_mapping, get_decode_slot, slots_of, entries_of, all_some,
}
use e_llm.KvMap.KeyLists.{mem-row, mem-range, Unique-row, Unique-range}
use e_llm.KvMap.Accounts.{nothing}
use e_llm.KvMap.Accounts.Loops.{Entered, Reserves, reserve_lem}
use e_llm.KvMap.Accounts.Entries.{other}
use e_llm.KvMap.WellFormed.{IsWellFormed, evicts}
use e_llm.KvMap.WellFormed.NewSequence.{Undone-IsWellFormed}

place-Reads : (e : KvMapEntry) (slots : List (Option ℕ)) → Reads (place e slots)
place-Reads e slots s = ground arith

place_all-Reads : (es : List KvMapEntry) (slots : List (Option ℕ)) → Reads (place_all es slots)
unfolding place_all
place_all-Reads [] slots s = refl
place_all-Reads (e ∷ es) slots s =
    Reads-bind (place e slots) (place_all es) (place-Reads e slots) (place_all-Reads es) s

get_decode_block_table-Reads : (seq g : ℕ) → Reads (get_decode_block_table seq g)
unfolding get_decode_block_table
get_decode_block_table-Reads seq g s =
    Reads-bind (or_raise key_error (get seq s.sequence_lengths)) from_length
      (Reads-or_raise key_error (get seq s.sequence_lengths)) from_length-Reads s
  where
    from_slots : List (Option ℕ) → Exec TokenLayerKvMap (List ℕ)
    from_slots slots = do
      slots' ← place_all (entries_of seq g s.temporary_entries) slots
      or_raise runtime_error (all_some slots')

    from_slots-Reads :
        (slots : List (Option ℕ)) (s' : TokenLayerKvMap) → (from_slots slots s').1 ≡ s'
    from_slots-Reads slots =
        Reads-bind (place_all (entries_of seq g s.temporary_entries) slots)
          (λ slots'. or_raise runtime_error (all_some slots'))
          (place_all-Reads (entries_of seq g s.temporary_entries) slots)
          (λ slots'. Reads-or_raise runtime_error (all_some slots'))

    from_length : ℕ → Exec TokenLayerKvMap (List ℕ)
    from_length n = do
      slots ← place_all (entries_of seq g s.entries) (replicate (num_logical_blocks s n) none)
      from_slots slots

    from_length-Reads : (n : ℕ) (s' : TokenLayerKvMap) → (from_length n s').1 ≡ s'
    from_length-Reads n =
        Reads-bind
          (place_all (entries_of seq g s.entries) (replicate (num_logical_blocks s n) none))
          from_slots
          (place_all-Reads (entries_of seq g s.entries) (replicate (num_logical_blocks s n) none))
          from_slots-Reads

recompute_slots-Reads : (seq g : ℕ) (bs slots : List ℕ) → Reads (recompute_slots seq g bs slots)
unfolding recompute_slots
recompute_slots-Reads seq g [] slots s = refl
recompute_slots-Reads seq g (b ∷ bs) slots s =
    let again = λ (more : List ℕ). recompute_slots-Reads seq g bs more s in
    elim (Option-cases (get (record { seq_id = seq; block = b; group = g }) s.temporary_entries)) [
      | inl absent ↦ rw absent
      | inr (e, found) ↦
          rw found (again (slots ++ range (e.physical_block_id * s.block_size) s.block_size))
    ]

get_recompute_slot_mapping-Reads : (seq g : ℕ) → Reads (get_recompute_slot_mapping seq g)
unfolding get_recompute_slot_mapping
get_recompute_slot_mapping-Reads seq g s = elim (Option-cases (get seq s.evicted_prefix_blocks)) [
  | inl absent ↦ rw absent
  | inr (p, found) ↦ rw found (recompute_slots-Reads seq g (range 0 p) [] s)
]

get_decode_slot-Reads : (seq g : ℕ) → Reads (get_decode_slot seq g)
unfolding get_decode_slot
get_decode_slot-Reads seq g s = ground arith

pub slots_of-Reads : (seq g : ℕ) → Reads (slots_of seq g)
unfolding slots_of
slots_of-Reads seq g =
    Reads-bind (get_recompute_slot_mapping seq g) with_slot (get_recompute_slot_mapping-Reads seq g)
      λ slots.
        Reads-bind (get_decode_slot seq g) (λ slot. pure (slots, slot))
          (get_decode_slot-Reads seq g) (λ slot s. refl)
  where
    with_slot : List ℕ → Exec TokenLayerKvMap (List ℕ × ℕ)
    with_slot slots = do slot ← get_decode_slot seq g; pure (slots, slot)

-- Temporary blocks for the evicted prefix.
module _ (s : TokenLayerKvMap) (w : IsWellFormed s) (seq g p : ℕ)
    (in_groups : g < s.num_layer_groups) (known_prefix : get seq s.evicted_prefix_blocks ≡ some p)
    (idle : any (of_seq seq) (keys_of s.temporary_entries) ≡ false) where
  prefix_keys : List Key
  prefix_keys = row seq g (range 0 p)

  mem-prefix_keys :
      (k : Key) → mem k prefix_keys ≡ (nat_beq seq k.seq_id && nat_beq g k.group && ltb k.block p)
  unfolding prefix_keys
  mem-prefix_keys k = mem-row seq k g (range 0 p) ∙ ground (arith, mem-range k.block 0 p)

  idle_keys :
      (d : Dict Key KvMapEntry) (k : Key)
      → any (of_seq seq) (keys_of d) ≡ false
      → contains k d ≡ true
      → nat_beq seq k.seq_id ≡ false
  unfolding contains
  idle_keys [] k h there = absurd (cc)
  idle_keys ((j, v) ∷ d) k h there = ground (arith, idle_keys d k)

  absent : (k : Key) → mem k prefix_keys ≡ true → contains k s.temporary_entries ≡ false
  absent k m = ground (arith, mem-prefix_keys k, idle_keys s.temporary_entries k idle)

  make : Key → ℕ → KvMapEntry
  make = fresh_entry s true (λ _. s.block_size)

  make-names : (k : Key) (b : ℕ) → (make k b).physical_block_id ≡ b
  unfolding make
  make-names k b = refl

  begun-IsWellFormed :
      (s' : TokenLayerKvMap)
      → Entered nothing transient make make-names s prefix_keys s'
      → IsWellFormed s'
  unfolding table other
  begun-IsWellFormed s' h = record {
    accounts = h.accounts;
    block_size_pos = rw h.frame.dims w.block_size_pos;
    groups_pos = rw h.frame.dims w.groups_pos;
    domain = λ k.
        ap (contains k) h.frame.other_table
        ∙ rw (h.frame.dims, h.frame.sequence_lengths, h.frame.evicted_prefix_blocks) (w.domain k);
    temporary = λ k t.
        rw (h.frame.dims, h.frame.evicted_prefix_blocks)
          (in_prefix k (
            sym
              (contains-append_made make k prefix_keys h.blocks s.temporary_entries h.blocks_length)
            ∙ sym (ap (contains k) h.grown)
            ∙ t));
    spans =
        λ q. rw (h.frame.dims, h.frame.sequence_lengths, h.frame.evicted_prefix_blocks) (w.spans q);
  }
    where
      in_prefix :
          (k : Key)
          → (if contains k s.temporary_entries then true else mem k prefix_keys) ≡ true
          → evicts s.num_layer_groups (get k.seq_id s.evicted_prefix_blocks) k ≡ true
      in_prefix k t = ground (arith, t, mem-prefix_keys k, w.temporary k, known_prefix)

  reserved :
      Reserves nothing transient make make-names s [] prefix_keys s
        (reserve transient make prefix_keys [] s)
  unfolding prefix_keys table
  reserved =
      reserve_lem nothing transient make make-names s w.accounts
        (Unique-row seq g (range 0 p) (Unique-range 0 p))
        (Absent-intro (row seq g (range 0 p)) s.temporary_entries absent)

  begin_prefix-IsWellFormed : IsWellFormed (begin_prefix seq g p s).1
  unfolding begin_prefix prefix_keys make
  begin_prefix-IsWellFormed = elim (reserved) [
    | inl (s', ran, h, _) ↦
        rw idle (rw ran (rw (get_decode_block_table-Reads seq g s') (begun-IsWellFormed s' h)))
    | inr (s', ran, (a, f, e), _) ↦ rw idle (rw ran (Undone-IsWellFormed transient w a f e))
  ]

pub begin-IsWellFormed :
    (s : TokenLayerKvMap) (seq g : ℕ) → IsWellFormed s → IsWellFormed (begin_recompute seq g s).1
unfolding begin_recompute get_retained_block_table
begin-IsWellFormed s seq g w = elim (Bool-cases (ltb g s.num_layer_groups)) [
  | inr out ↦ rw out w
  | inl within ↦ elim (Option-cases (get seq s.evicted_prefix_blocks)) [
    | inl unknown ↦ rw within (rw unknown w)
    | inr (p, known) ↦ elim (Bool-cases (nat_beq p 0)) [
      | inl nothing_evicted ↦ rw within (rw known (rw nothing_evicted w))
      | inr some_evicted ↦ elim (Bool-cases (any (of_seq seq) (keys_of s.temporary_entries))) [
        | inl active ↦ rw within (rw known (rw some_evicted (unfold begin_prefix in rw active w)))
        | inr idle ↦ rw within (
            rw known (
              rw some_evicted
                (begin_prefix-IsWellFormed s w seq g p (ltb→lt _ _ within) known idle)))
      ]
    ]
  ]
]
