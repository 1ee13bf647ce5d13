-- ===== src/KvMap/WellFormed/Shares.antt =====
-- The loop that shares a parent's blocks with its child in TokenLayerKVMap.fork_sequence.
use e_llm.Prelude.{
  ℕ, ◌≡◌, refl, sym, ap, ◌∙◌, subst, ◌&&◌, Bool, true, false, some, nat_eq, nat_beq, if◌then◌else◌,
  arith, List, [], ◌∷◌, keep,
}
use e_llm.Exec.{ok}
use e_llm.Dict.{Dict, get, contains, put}
use e_llm.Dict.Laws.{Distinct, get-put, contains-put, contains_of_get}
use e_llm.Dict.Keys.{mem, Unique}
use e_llm.KvMap.{Key, KvMapEntry, TokenLayerKvMap, key_eq, key_beq_iff, retained, table}
use e_llm.KvMap.Blocks.{put_entry}
use e_llm.KvMap.Sequences.{share, items_of}
use e_llm.KvMap.Accounts.{Accounts, nothing}
use e_llm.KvMap.Accounts.Pools.{retain_lem}
use e_llm.KvMap.Accounts.Entries.{
  Frame, Frame-refl, Frame-trans, Same-Frame, put_entry-Frame, put_entry_fresh-Accounts,
  entry-in_use,
}

-- The items stand in the dict.
abbrev pub Found : List (Key × KvMapEntry) → Dict Key KvMapEntry → Type 0
Found [] d = Unit {0}
Found ((k, e) ∷ items) d = (get k d ≡ some e) × Found items d

Found_tail :
    (j k : Key) (v e : KvMapEntry) (d : Dict Key KvMapEntry)
    → contains j d ≡ false
    → get k d ≡ some e
    → get k ((j, v) ∷ d) ≡ some e
unfolding get
Found_tail j k v e d fresh found = ground (
  arith,
  key_beq_iff j k,
  contains_of_get k e d found,
  ap (λ (i : Key). contains i d) {x = j} {y = k},
)

Found-items :
    (p : Key × KvMapEntry → Bool) (d whole : Dict Key KvMapEntry)
    → Distinct d
    → ((k : Key) (e : KvMapEntry) → get k d ≡ some e → get k whole ≡ some e)
    → Found (keep p d) whole
unfolding get
Found-items p [] whole dd h = tt
Found-items p ((j, v) ∷ d) whole dd h = ground (
  arith,
  h j v (ground (arith, key_beq_iff j j)),
  Found-items p d whole dd.1 (λ k e found. h k e (Found_tail j k v e d dd.0 found)),
)

module _ (parent child : ℕ) where
  -- The parent's key of the same block.
  abbrev pub parent_key : Key → Key
  parent_key k = record k { seq_id = parent }

  abbrev pub child_keys : List (Key × KvMapEntry) → List Key
  child_keys [] = []
  child_keys ((k, _) ∷ items) = record k { seq_id = child } ∷ child_keys items

  pub mem-child_keys :
      (j : Key) (d : Dict Key KvMapEntry)
      → mem j (child_keys (items_of parent d))
        ≡ (nat_beq child j.seq_id && contains (parent_key j) d)
  unfolding contains
  mem-child_keys j [] = ground arith
  mem-child_keys j ((k, e) ∷ d) = ground (arith, mem-child_keys j d)

  pub Unique-child_keys :
      (d : Dict Key KvMapEntry) → Distinct d → Unique (child_keys (items_of parent d))
  Unique-child_keys [] dd = tt
  Unique-child_keys ((k, e) ∷ d) dd =
      ground (arith, Unique-child_keys d dd.1, mem-child_keys (record k { seq_id = child }) d, dd.0)

  -- What the loop needs of the items that are left.
  abbrev Sharable : List (Key × KvMapEntry) → Dict Key KvMapEntry → Type 0
  Sharable [] d = Unit {0}
  Sharable ((k, e) ∷ items) d =
      (get k d ≡ some e)
      × (nat_beq k.seq_id child ≡ false)
      × (contains (record k { seq_id = child }) d ≡ false)
      × Sharable items d

  Sharable-put :
      (items : List (Key × KvMapEntry)) (d : Dict Key KvMapEntry) (k : Key) (v : KvMapEntry)
      → k.seq_id ≡ child
      → mem k (child_keys items) ≡ false
      → Sharable items d
      → Sharable items (put k v d)
  Sharable-put [] d k v c out sh = tt
  Sharable-put ((j, e) ∷ items) d k v c out (found, apart, fresh, sh) = (
    get-put k j v d ∙ ground arith,
    apart,
    contains-put k (record j { seq_id = child }) v d
        ∙ ground (
          arith,
          key_beq_iff k (record j { seq_id = child }),
          key_beq_iff (record j { seq_id = child }) k,
        ),
    Sharable-put items d k v c (ground (arith, key_beq_iff k (record j { seq_id = child }))) sh,
  )

  pub Sharable-items :
      (d whole : Dict Key KvMapEntry)
      → Distinct d
      → ((k : Key) (e : KvMapEntry) → get k d ≡ some e → get k whole ≡ some e)
      → ((k : Key) → contains k whole ≡ true → nat_beq k.seq_id child ≡ false)
      → ((j : Key) → contains (record j { seq_id = child }) whole ≡ false)
      → Sharable (items_of parent d) whole
  unfolding get
  Sharable-items [] whole dd h apart fresh = tt
  Sharable-items ((k, e) ∷ d) whole dd h apart fresh =
      let found : get k whole ≡ some e = h k e (ground (arith, key_beq_iff k k)) in
      ground (
        arith,
        found,
        apart k (contains_of_get k e whole found),
        fresh k,
        Sharable-items d whole dd.1 (λ j v p. h j v (Found_tail k j e v d dd.0 p)) apart fresh,
      )

  -- Each item has its copy under the child's key.
  abbrev pub Copied : List (Key × KvMapEntry) → Dict Key KvMapEntry → Type 0
  Copied [] d = Unit {0}
  Copied ((k, e) ∷ items) d =
      (get (record k { seq_id = child }) d ≡ some (record e { seq_id = child })) × Copied items d

  abbrev pub Shares : TokenLayerKvMap → List (Key × KvMapEntry) → Type 0
  Shares s items =
      (s' : TokenLayerKvMap) × (share child items s ≡ (ok tt, s'))
      × Accounts nothing s'
      × Frame retained s s'
      × ((j : Key)
          → contains j s'.entries
            ≡ (if contains j s.entries then true else mem j (child_keys items)))
      × ((j : Key) (v : KvMapEntry) → get j s.entries ≡ some v → get j s'.entries ≡ some v)
      × Copied items s'.entries

  pub share_lem :
      (items : List (Key × KvMapEntry)) (s : TokenLayerKvMap)
      → Accounts nothing s
      → Unique (child_keys items)
      → Sharable items s.entries
      → Shares s items
  unfolding share table put_entry
  share_lem [] s a u sh = (s, refl, a, Frame-refl retained s, λ j. ground arith, λ j v p. p, tt)
  share_lem ((k, e) ∷ items) s a u (found, apart, fresh, sh) =
      let key : Key = record k { seq_id = child } in
      let entry : KvMapEntry = record e { seq_id = child } in
      let (s1, ran, a1, same) =
        retain_lem a k.group e.physical_block_id (entry-in_use retained a k e found) in
      let fresh1 : contains key s1.entries ≡ false = ap (contains key) same.entries ∙ fresh in
      let sh1 : Sharable items (put key entry s1.entries) =
        Sharable-put items s1.entries key entry refl u.0
          (subst (Sharable items) (sym same.entries) sh) in
      let (s', ran', a', f, keys, old, copied) =
        share_lem items (put_entry retained key entry s1)
          (put_entry_fresh-Accounts retained nothing key entry a1 fresh1) u.1 sh1 in
      (
        s',
        rw ran ran',
        a',
        Frame-trans retained (Same-Frame retained same)
            (Frame-trans retained (put_entry-Frame retained key entry s1) f),
        λ j.
            ground
              (arith, keys j, contains-put key j entry s1.entries, ap (contains j) same.entries),
        λ j v p. old j v (
            get-put key j entry s1.entries
            ∙ ground (
              arith,
              ap (get j) same.entries,
              p,
              contains_of_get j v s.entries p,
              key_beq_iff key j,
              fresh,
            )),
        (
          old key entry (get-put key key entry s1.entries ∙ ground (arith, key_beq_iff key key)),
          copied,
        ),
      )
