-- ===== src/KvMap/Accounts/Entries.antt =====
-- How entering, changing and dropping an entry moves the books.
use e_llm.Prelude.{
  ℕ, ◌+◌, ◌≡◌, refl, ap, ◌∙◌, ◌≤◌, ◌<◌, List, [], nat_eq, length, get_or, false, arith, some,
}
use e_llm.Exec.{ok}
use e_llm.Dict.{get, put, remove, contains}
use e_llm.Dict.Laws.{Distinct, Distinct-put, Distinct-remove}
use e_llm.Dict.Weight.{weight-put, weight-put_fresh, weight-remove, weight-get}
use e_llm.KvMap.{
  Key, KvMapEntry, TokenLayerKvMap, key_eq, Table, retained, transient, table, set_table,
}
use e_llm.KvMap.Blocks.{put_entry, drop_entry, read_entry, pop_and_free}
use e_llm.KvMap.Accounts.{Accounts, Same, holds, held, ref_at, free_at, plus}
use e_llm.KvMap.Accounts.Pools.{free_lem}

unfoldable pub other : Table → Table
other retained = transient
other transient = retained

-- What work on one table leaves alone.
pub record Frame (t : Table) (s s' : TokenLayerKvMap) : Type 0 where
  pub dims : s'.dims ≡ s.dims
  pub other_table : table (other t) s' ≡ table (other t) s
  pub sequence_lengths : s'.sequence_lengths ≡ s.sequence_lengths
  pub evicted_prefix_blocks : s'.evicted_prefix_blocks ≡ s.evicted_prefix_blocks

pub Frame-refl : (t : Table) (s : TokenLayerKvMap) → Frame t s s
Frame-refl t s = record {
  dims = refl;
  other_table = refl;
  sequence_lengths = refl;
  evicted_prefix_blocks = refl;
}

pub Frame-trans : (t : Table) {a b c : TokenLayerKvMap} → Frame t a b → Frame t b c → Frame t a c
Frame-trans t f g = record {
  dims = g.dims ∙ f.dims;
  other_table = g.other_table ∙ f.other_table;
  sequence_lengths = g.sequence_lengths ∙ f.sequence_lengths;
  evicted_prefix_blocks = g.evicted_prefix_blocks ∙ f.evicted_prefix_blocks;
}

pub Same-Frame : (t : Table) {s s' : TokenLayerKvMap} → Same s s' → Frame t s s'
unfolding other table
Same-Frame retained h = record {
  dims = h.dims;
  other_table = h.temporary_entries;
  sequence_lengths = h.sequence_lengths;
  evicted_prefix_blocks = h.evicted_prefix_blocks;
}
Same-Frame transient h = record {
  dims = h.dims;
  other_table = h.entries;
  sequence_lengths = h.sequence_lengths;
  evicted_prefix_blocks = h.evicted_prefix_blocks;
}

pub Same-table : (t : Table) {s s' : TokenLayerKvMap} → Same s s' → table t s' ≡ table t s
unfolding table
Same-table retained h = h.entries
Same-table transient h = h.temporary_entries

pub table-put_entry :
    (t : Table) (k : Key) (e : KvMapEntry) (s : TokenLayerKvMap)
    → table t (put_entry t k e s) ≡ put k e (table t s)
unfolding put_entry
table-put_entry retained k e s = refl
table-put_entry transient k e s = refl

pub put_entry-Frame :
    (t : Table) (k : Key) (e : KvMapEntry) (s : TokenLayerKvMap) → Frame t s (put_entry t k e s)
unfolding put_entry other
put_entry-Frame retained k e s = record {
  dims = refl;
  other_table = refl;
  sequence_lengths = refl;
  evicted_prefix_blocks = refl;
}
put_entry-Frame transient k e s = record {
  dims = refl;
  other_table = refl;
  sequence_lengths = refl;
  evicted_prefix_blocks = refl;
}

pub table-drop_entry :
    (t : Table) (k : Key) (s : TokenLayerKvMap) → table t (drop_entry t k s) ≡ remove k (table t s)
unfolding drop_entry
table-drop_entry retained k s = refl
table-drop_entry transient k s = refl

drop_entry-Frame : (t : Table) (k : Key) (s : TokenLayerKvMap) → Frame t s (drop_entry t k s)
unfolding drop_entry other
drop_entry-Frame retained k s = record {
  dims = refl;
  other_table = refl;
  sequence_lengths = refl;
  evicted_prefix_blocks = refl;
}
drop_entry-Frame transient k s = record {
  dims = refl;
  other_table = refl;
  sequence_lengths = refl;
  evicted_prefix_blocks = refl;
}

drop_entry-free_blocks :
    (t : Table) (k : Key) (s : TokenLayerKvMap) → (drop_entry t k s).free_blocks ≡ s.free_blocks
unfolding drop_entry
drop_entry-free_blocks retained k s = refl
drop_entry-free_blocks transient k s = refl

pub put_entry-free_blocks :
    (t : Table) (k : Key) (e : KvMapEntry) (s : TokenLayerKvMap)
    → (put_entry t k e s).free_blocks ≡ s.free_blocks
unfolding put_entry
put_entry-free_blocks retained k e s = refl
put_entry-free_blocks transient k e s = refl

pub put_entry-refs :
    (t : Table) (k : Key) (e : KvMapEntry) (s : TokenLayerKvMap)
    → (put_entry t k e s).block_ref_counts ≡ s.block_ref_counts
unfolding put_entry
put_entry-refs retained k e s = refl
put_entry-refs transient k e s = refl

pub table-Distinct :
    (t : Table) {x : ℕ → ℕ → ℕ} {s : TokenLayerKvMap} → Accounts x s → Distinct (table t s)
unfolding table
table-Distinct retained a = a.distinct
table-Distinct transient a = a.distinct_temporary

module _ {x : ℕ → ℕ → ℕ} {s : TokenLayerKvMap} (a : Accounts x s) where
  -- A table that holds as many more entries on a block as `x'` says less.
  swap_table :
      (t : Table) (x' : ℕ → ℕ → ℕ) (d : List (Key × KvMapEntry))
      → Distinct d
      → ((g b : ℕ) → x' g b + held g b d ≡ x g b + held g b (table t s))
      → Accounts x' (set_table t d s)
  unfolding set_table table
  swap_table retained x' d dd h = record {
    free_length = a.free_length;
    refs_length = a.refs_length;
    row_length = a.row_length;
    distinct = dd;
    distinct_temporary = a.distinct_temporary;
    refs = λ g b. omega (arith, h g b, a.refs g b);
    free = a.free;
  }
  swap_table transient x' d dd h = record {
    free_length = a.free_length;
    refs_length = a.refs_length;
    row_length = a.row_length;
    distinct = a.distinct;
    distinct_temporary = dd;
    refs = λ g b. omega (arith, h g b, a.refs g b);
    free = a.free;
  }

  pub drop_entry-Accounts :
      (t : Table) (k : Key) (e : KvMapEntry)
      → get k (table t s) ≡ some e
      → Accounts (plus x k.group e.physical_block_id) (drop_entry t k s)
  unfolding drop_entry held
  drop_entry-Accounts t k e h =
      swap_table t _ (remove k (table t s)) (Distinct-remove k (table t s) (table-Distinct t a))
        λ g b. omega (arith, weight-remove (holds g b) k e (table t s) (table-Distinct t a) h)

  pub put_entry-Accounts :
      (t : Table) (x' : ℕ → ℕ → ℕ) (k : Key) (old new : KvMapEntry)
      → get k (table t s) ≡ some old
      → ((g b : ℕ) → x' g b + holds g b k new ≡ x g b + holds g b k old)
      → Accounts x' (put_entry t k new s)
  unfolding put_entry held
  put_entry-Accounts t x' k old new h moved =
      swap_table t x' (put k new (table t s)) (Distinct-put k new (table t s) (table-Distinct t a))
        λ g b. omega (arith, weight-put (holds g b) k old new (table t s) h, moved g b)

pub put_entry_fresh-Accounts :
    (t : Table) (x : ℕ → ℕ → ℕ) (k : Key) (e : KvMapEntry) {s : TokenLayerKvMap}
    → Accounts (plus x k.group e.physical_block_id) s
    → contains k (table t s) ≡ false
    → Accounts x (put_entry t k e s)
unfolding put_entry held
put_entry_fresh-Accounts t x k e {s} a h =
    swap_table a t x (put k e (table t s)) (Distinct-put k e (table t s) (table-Distinct t a))
      λ g b. omega (arith, weight-put_fresh (holds g b) k e (table t s) h)

-- Every block that an entry names has a reference.
pub entry-in_use :
    (t : Table) {x : ℕ → ℕ → ℕ} {s : TokenLayerKvMap} (a : Accounts x s) (k : Key) (e : KvMapEntry)
    → get k (table t s) ≡ some e
    → x k.group e.physical_block_id < ref_at s k.group e.physical_block_id
entry-in_use t {x} {s} a k e h = go t h
  where
    mine : holds k.group e.physical_block_id k e ≡ 1
    mine = ground arith

    go :
        (t : Table)
        → get k (table t s) ≡ some e
        → x k.group e.physical_block_id < ref_at s k.group e.physical_block_id
    go retained h =
        unfold held table in
        omega (
          arith,
          a.refs k.group e.physical_block_id,
          mine,
          weight-get (holds k.group e.physical_block_id) k e s.entries h,
        )
    go transient h =
        unfold held table in
        omega (
          arith,
          a.refs k.group e.physical_block_id,
          mine,
          weight-get (holds k.group e.physical_block_id) k e s.temporary_entries h,
        )

-- Dropping an entry and freeing its block never raises, and keeps the books.
abbrev pub Pops : (ℕ → ℕ → ℕ) → Table → TokenLayerKvMap → Key → Type 0
Pops x t s k =
    (s' : TokenLayerKvMap) × (pop_and_free t k s ≡ (ok tt, s'))
    × Accounts x s'
    × Frame t s s'
    × (table t s' ≡ remove k (table t s))
    × ((g : ℕ) → length (free_at s g) ≤ length (free_at s' g))

pub pop_and_free_lem :
    {x : ℕ → ℕ → ℕ} (t : Table) {s : TokenLayerKvMap} (a : Accounts x s) (k : Key) (e : KvMapEntry)
    → get k (table t s) ≡ some e
    → Pops x t s k
pop_and_free_lem {x} t {s} a k e h =
    let (s', run, acc, same, lens) =
      free_lem x k.group e.physical_block_id (drop_entry-Accounts a t k e h) in
    (
      s',
      unfold pop_and_free read_entry in rw h run,
      acc,
      Frame-trans t (drop_entry-Frame t k s) (Same-Frame t same),
      Same-table t same ∙ table-drop_entry t k s,
      λ g. omega (
        arith,
        lens g,
        ap (λ (f : List (List ℕ)). length (get_or f g [])) (drop_entry-free_blocks t k s),
      ),
    )
