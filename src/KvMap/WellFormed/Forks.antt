-- ===== src/KvMap/WellFormed/Forks.antt =====
-- `fork_sequence`: the child shares every retained block of its parent, and the invariant is kept.
use e_llm.Prelude.{
  ℕ, ◌≡◌, sym, ap, ◌∙◌, subst, ◌⊎◌, inl, inr, true, false, some, none, nat_eq, nat_beq,
  if◌then◌else◌, arith, List, [], ◌∷◌, any, Bool-cases, Option-cases,
}
use e_llm.Exec.{Result, Error, ok, err, key_error, value_error, runtime_error}
use e_llm.Dict.{Dict, get, contains, put}
use e_llm.Dict.Laws.{get-put, get-none}
use e_llm.Dict.Keys.{mem, keys_of}
use e_llm.KvMap.{Key, KvMapEntry, TokenLayerKvMap, key_eq, key_beq, key_beq_iff, retained, table}
use e_llm.KvMap.Sequences.{items_of, of_seq, fork_sequence}
use e_llm.KvMap.Accounts.{Accounts, nothing}
use e_llm.KvMap.Accounts.Entries.{other, Frame}
use e_llm.KvMap.WellFormed.{IsWellFormed, retains, retained_in, evicts}
use e_llm.KvMap.WellFormed.NewSequence.{Accounts-sequences}
use e_llm.KvMap.WellFormed.Shares.{
  parent_key, child_keys, mem-child_keys, Unique-child_keys, Sharable-items, Copied, Shares,
  share_lem,
}

module _ (parent child : ℕ) where
  Copied-get :
      (d whole : Dict Key KvMapEntry) (k : Key) (e : KvMapEntry)
      → Copied parent child (items_of parent d) whole
      → get k d ≡ some e
      → k.seq_id ≡ parent
      → get (record k { seq_id = child }) whole ≡ some (record e { seq_id = child })
  unfolding get
  Copied-get [] whole k e c found mine = absurd (cc)
  Copied-get ((j, v) ∷ d) whole k e c found mine = elim (Bool-cases (key_beq j k)) [
    | inl hit ↦
        let same : j ≡ k = (key_beq_iff j k).0 hit in
        let same_entry : v ≡ e = ground (arith) in
        subst
          (λ (i : Key).
            get (record i { seq_id = child }) whole ≡ some (record e { seq_id = child }))
          same
          (subst
            (λ (u : KvMapEntry).
              get (record j { seq_id = child }) whole ≡ some (record u { seq_id = child }))
            same_entry (ground (arith, ap (λ (i : Key). i.seq_id) same)))
    | inr miss ↦ Copied-get d whole k e (ground arith) (rw miss at found) mine
  ]

  abbrev pub Forked : TokenLayerKvMap → Result (Unit {0}) × TokenLayerKvMap → Type 0
  Forked s r =
      ((n p : ℕ) × (s' : TokenLayerKvMap) × (r ≡ (ok tt, s'))
        × IsWellFormed s'
        × (get parent s.sequence_lengths ≡ some n)
        × (s'.sequence_lengths ≡ put child n s.sequence_lengths)
        × (get parent s.evicted_prefix_blocks ≡ some p)
        × (s'.evicted_prefix_blocks ≡ put child p s.evicted_prefix_blocks)
        × ((k : Key) (e : KvMapEntry)
            → get k s.entries ≡ some e
            → (get k s'.entries ≡ some e)
              × (k.seq_id ≡ parent
                  → get (record k { seq_id = child }) s'.entries
                    ≡ some (record e { seq_id = child }))))
      ⊎ ((e : Error) × (s' : TokenLayerKvMap) × (r ≡ (err e, s')) × IsWellFormed s')

  module _ (s : TokenLayerKvMap) (w : IsWellFormed s)
      (new : contains child s.sequence_lengths ≡ false)
      (idle : any (of_seq parent) (keys_of s.temporary_entries) ≡ false) where
    items : List (Key × KvMapEntry)
    items = items_of parent s.entries

    shared : Shares parent child s items
    unfolding items
    shared =
        share_lem parent child items s w.accounts
          (Unique-child_keys parent child s.entries w.accounts.distinct)
          (Sharable-items parent child s.entries s.entries w.accounts.distinct (λ k e p. p)
            (λ k there. ground (arith, w.domain k, get-none child s.sequence_lengths new))
            (λ j. ground (
              arith,
              w.domain (record j { seq_id = child }),
              get-none child s.sequence_lengths new,
            )))

    -- The domain after the loop, in terms of the old state.
    inside :
        (s' : TokenLayerKvMap)
        → ((j : Key)
            → contains j s'.entries
              ≡ (if contains j s.entries then true else mem j (child_keys parent child items)))
        → (j : Key)
        → contains j s'.entries ≡ (
            if nat_beq child j.seq_id
            then retains s.block_size s.num_layer_groups
                (get parent s.sequence_lengths)
                (get parent s.evicted_prefix_blocks)
                j
            else retained_in s j)
    unfolding items
    inside s' keys j = ground (
      arith,
      keys j,
      mem-child_keys parent child j s.entries,
      w.domain j,
      w.domain (parent_key parent child j),
      get-none child s.sequence_lengths new,
    )

    forked-IsWellFormed :
        (n p : ℕ) (s' : TokenLayerKvMap)
        → get parent s.sequence_lengths ≡ some n
        → get parent s.evicted_prefix_blocks ≡ some p
        → Accounts nothing s'
        → Frame retained s s'
        → ((j : Key)
            → contains j s'.entries
              ≡ (if contains j s.entries then true else mem j (child_keys parent child items)))
        → IsWellFormed (record s' {
          sequence_lengths = put child n s'.sequence_lengths;
          evicted_prefix_blocks = put child p s'.evicted_prefix_blocks;
        })
    unfolding table other
    forked-IsWellFormed n p s' known known_prefix a f keys = record {
      accounts = Accounts-sequences _ _ a;
      block_size_pos = rw f.dims w.block_size_pos;
      groups_pos = rw f.dims w.groups_pos;
      domain = λ j.
          inside s' keys j
          ∙ rw (f.dims, f.sequence_lengths, f.evicted_prefix_blocks)
              (ground (
                arith,
                known,
                known_prefix,
                get-put child j.seq_id n s.sequence_lengths,
                get-put child j.seq_id p s.evicted_prefix_blocks,
              ));
      temporary = λ j t.
          rw (f.dims, f.evicted_prefix_blocks)
            (in_prefix j (ap (contains j) (sym f.other_table) ∙ t));
      spans = λ q.
          rw (f.dims, f.sequence_lengths, f.evicted_prefix_blocks)
            (ground (
              arith,
              w.spans q,
              w.spans parent,
              known,
              known_prefix,
              get-put child q n s.sequence_lengths,
              get-put child q p s.evicted_prefix_blocks,
            ));
    }
      where
        in_prefix :
            (j : Key)
            → contains j s.temporary_entries ≡ true
            → evicts s.num_layer_groups (get j.seq_id (put child p s.evicted_prefix_blocks)) j
              ≡ true
        in_prefix j t = ground (
          arith,
          w.temporary j t,
          w.spans child,
          get-none child s.sequence_lengths new,
          get-put child j.seq_id p s.evicted_prefix_blocks,
        )

    -- A parent that is not known shares nothing.
    unshared-IsWellFormed :
        (s' : TokenLayerKvMap)
        → get parent s.sequence_lengths ≡ none
        → Accounts nothing s'
        → Frame retained s s'
        → ((j : Key)
            → contains j s'.entries
              ≡ (if contains j s.entries then true else mem j (child_keys parent child items)))
        → IsWellFormed s'
    unfolding table other
    unshared-IsWellFormed s' unknown a f keys = record {
      accounts = a;
      block_size_pos = rw f.dims w.block_size_pos;
      groups_pos = rw f.dims w.groups_pos;
      domain = λ j.
          inside s' keys j
          ∙ rw (f.dims, f.sequence_lengths, f.evicted_prefix_blocks)
              (ground (arith, unknown, get-none child s.sequence_lengths new));
      temporary = λ j t.
          rw (f.dims, f.evicted_prefix_blocks)
            (w.temporary j (ap (contains j) (sym f.other_table) ∙ t));
      spans = λ q. rw (f.dims, f.sequence_lengths, f.evicted_prefix_blocks) (w.spans q);
    }

    fork-Forked : Shares parent child s items → Forked s (fork_sequence parent child s)
    unfolding fork_sequence items
    fork-Forked (s', ran, a, f, keys, old, copied) =
        elim (Option-cases (get parent s.sequence_lengths)) [
          | inl unknown ↦ inr (
            key_error,
            s',
            rw new (rw idle (rw ran (rw unknown))),
            unshared-IsWellFormed s' unknown a f keys,
          )
          | inr (n, known) ↦
              let (p, known_prefix) = prefix_of n known in
              inl (
                n,
                p,
                record s' {
                  sequence_lengths = put child n s'.sequence_lengths;
                  evicted_prefix_blocks = put child p s'.evicted_prefix_blocks;
                },
                rw new (rw idle (rw ran (rw known (rw known_prefix)))),
                forked-IsWellFormed n p s' known known_prefix a f keys,
                known,
                ap (put child n) f.sequence_lengths,
                known_prefix,
                ap (put child p) f.evicted_prefix_blocks,
                λ k e found. (old k e found, Copied-get s.entries s'.entries k e copied found),
              )
        ]
      where
        prefix_of :
            (n : ℕ)
            → get parent s.sequence_lengths ≡ some n
            → (p : ℕ) × (get parent s.evicted_prefix_blocks ≡ some p)
        prefix_of n known = elim (Option-cases (get parent s.evicted_prefix_blocks)) [
          | inl none_there ↦ absurd (ground (arith, w.spans parent, known, none_there))
          | inr (p, there) ↦ (p, there)
        ]

  -- Either the child holds the parent's blocks too, or the call raises.
  pub fork_lem : (s : TokenLayerKvMap) → IsWellFormed s → Forked s (fork_sequence parent child s)
  fork_lem s w = elim (Bool-cases (contains child s.sequence_lengths)) [
    | inl known ↦ inr (value_error, s, unfold fork_sequence in rw known, w)
    | inr new ↦ elim (Bool-cases (any (of_seq parent) (keys_of s.temporary_entries))) [
      | inl active ↦ inr (runtime_error, s, unfold fork_sequence in rw new (rw active), w)
      | inr idle ↦ fork-Forked s w new idle (shared s w new idle)
    ]
  ]

-- The invariant is kept whatever the sequences, on success and on failure.
pub fork-IsWellFormed :
    (s : TokenLayerKvMap) (parent child : ℕ)
    → IsWellFormed s
    → IsWellFormed (fork_sequence parent child s).1
fork-IsWellFormed s parent child w = elim (fork_lem parent child s w) [
  | inl (n, p, s', ran, w', _, _, _, _, _) ↦ rw ran w'
  | inr (e, s', ran, w') ↦ rw ran w'
]
