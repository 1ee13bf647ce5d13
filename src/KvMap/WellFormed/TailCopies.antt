-- ===== src/KvMap/WellFormed/TailCopies.antt =====
-- The blocks reserved for copy-on-write, and the reservation in one layer group.
use e_llm.Prelude.{
  ℕ, ◌+◌, ◌≡◌, refl, sym, ap, ◌∙◌, ◌<◌, ◌⊎◌, inl, inr, false, Option, some, none, ltb, nat_eq,
  nat_beq, if◌then◌else◌, arith, [], ◌∷◌, Bool-cases, Option-cases,
}
use e_llm.Exec.{Error, ok, err, key_error, runtime_error}
use e_llm.Dict.{Dict, get, contains, put}
use e_llm.Dict.Laws.{Distinct, get-put, get-none}
use e_llm.KvMap.{Key, KvMapEntry, TokenLayerKvMap, key_eq, retained, table}
use e_llm.KvMap.Blocks.{ref_count, read_entry}
use e_llm.KvMap.Sequences.{copy_tail, release_cow, add_cow}
use e_llm.KvMap.Accounts.{Accounts, Same, held, ref_at, plus, nothing}
use e_llm.KvMap.Accounts.Pools.{allocate_lem, free_lem, read-ref}
use e_llm.KvMap.Accounts.Entries.{entry-in_use}

pub Accounts-ext :
    {x y : ℕ → ℕ → ℕ} {s : TokenLayerKvMap}
    → ((g b : ℕ) → x g b ≡ y g b)
    → Accounts x s
    → Accounts y s
Accounts-ext h a = record {
  free_length = a.free_length;
  refs_length = a.refs_length;
  row_length = a.row_length;
  distinct = a.distinct;
  distinct_temporary = a.distinct_temporary;
  refs = λ g b. omega (arith, a.refs g b, h g b);
  free = a.free;
}

pub Same-refl : (s : TokenLayerKvMap) → Same s s
Same-refl s = record {
  dims = refl;
  entries = refl;
  temporary_entries = refl;
  sequence_lengths = refl;
  evicted_prefix_blocks = refl;
}

pub Same-sym : {a b : TokenLayerKvMap} → Same a b → Same b a
Same-sym f = record {
  dims = sym f.dims;
  entries = sym f.entries;
  temporary_entries = sym f.temporary_entries;
  sequence_lengths = sym f.sequence_lengths;
  evicted_prefix_blocks = sym f.evicted_prefix_blocks;
}

pub Same-trans : {a b c : TokenLayerKvMap} → Same a b → Same b c → Same a c
Same-trans f g = record {
  dims = g.dims ∙ f.dims;
  entries = g.entries ∙ f.entries;
  temporary_entries = g.temporary_entries ∙ f.temporary_entries;
  sequence_lengths = g.sequence_lengths ∙ f.sequence_lengths;
  evicted_prefix_blocks = g.evicted_prefix_blocks ∙ f.evicted_prefix_blocks;
}

-- The references that the blocks in reserve have.
abbrev pub reserved : Option ℕ → ℕ → ℕ
reserved none b = 0
reserved (some c) b = if nat_beq c b then 1 else 0

abbrev pub owed : Dict ℕ ℕ → ℕ → ℕ → ℕ
owed cow g b = reserved (get g cow) b

-- The entries that hold a block.
abbrev pub holders : TokenLayerKvMap → ℕ → ℕ → ℕ
holders s g b = held g b s.entries + held g b s.temporary_entries

pub release_cow_lem :
    (cow : Dict ℕ ℕ) (s : TokenLayerKvMap)
    → Distinct cow
    → Accounts (owed cow) s
    → (s' : TokenLayerKvMap) × (release_cow cow s ≡ (ok tt, s')) × Accounts nothing s' × Same s s'
unfolding release_cow get
release_cow_lem [] s d a = (s, refl, a, Same-refl s)
release_cow_lem ((g, b) ∷ cow) s d a =
    let (s1, ran, a1, same1, _) = free_lem (owed cow) g b (Accounts-ext split a) in
    let (s2, ran2, a2, same2) = release_cow_lem cow s1 d.1 a1 in
    (s2, rw ran ran2, a2, Same-trans same1 same2)
  where
    split : (g' b' : ℕ) → owed ((g, b) ∷ cow) g' b' ≡ plus (owed cow) g b g' b'
    split g' b' = ground (arith, get-none g cow d.0)

abbrev pub tail_key : ℕ → ℕ → ℕ → Key
tail_key seq block g = record { seq_id = seq; block = block; group = g }

-- The tail entry is held once, or a block that nobody holds is in reserve for it.
abbrev pub Ready : TokenLayerKvMap → ℕ → ℕ → ℕ → Option ℕ → Type 0
Ready s seq block g new =
    (e : KvMapEntry) × (get (tail_key seq block g) s.entries ≡ some e)
    × ((new ≡ none) × (holders s g e.physical_block_id ≡ 1)
        ⊎ ((b : ℕ) × (new ≡ some b) × (holders s g b ≡ 0)))

-- One group of the loop.
abbrev Copies : (s : TokenLayerKvMap) (cow : Dict ℕ ℕ) (seq block g : ℕ) → Type 0
Copies s cow seq block g =
    ((new : Option ℕ) × (s' : TokenLayerKvMap) × (copy_tail seq block g s ≡ (ok new, s'))
      × Accounts (owed (add_cow cow g new)) s'
      × Same s s'
      × Ready s seq block g new)
    ⊎ ((e : Error) × (copy_tail seq block g s ≡ (err e, s)))

module _ (s : TokenLayerKvMap) (cow : Dict ℕ ℕ) (a : Accounts (owed cow) s) (seq block g : ℕ)
    (fresh : contains g cow ≡ false) where
  nothing_owed : (b : ℕ) → owed cow g b ≡ 0
  nothing_owed b = rw (get-none g cow fresh)

  copy_shared :
      (e : KvMapEntry) → get (tail_key seq block g) s.entries ≡ some e → Copies s cow seq block g
  unfolding copy_tail read_entry table
  copy_shared e found = elim (Bool-cases (ltb 1 (ref_at s g e.physical_block_id))) [
    | inr alone ↦ inl (
      none,
      s,
      rw found (rw read (rw alone)),
      a,
      Same-refl s,
      (
        e,
        found,
        inl (
          refl,
          ground (arith, a.refs g e.physical_block_id, nothing_owed e.physical_block_id, in_use),
        ),
      ),
    )
    | inl shared ↦ elim (allocate_lem a g) [
      | inl (failed, _) ↦ inr (runtime_error, rw found (rw read (rw shared (rw failed))))
      | inr (b, t, got, acc, same, _, single) ↦ inl (
        some b,
        t,
        rw found (rw read (rw shared (rw got))),
        Accounts-ext (in_reserve b) acc,
        same,
        (e, found, inr (b, refl, unheld b t acc same single)),
      )
    ]
  ]
    where
      in_use : 0 < ref_at s g e.physical_block_id
      in_use = omega (arith, entry-in_use retained a (tail_key seq block g) e found)

      read : ref_count g e.physical_block_id s ≡ (ok (ref_at s g e.physical_block_id), s)
      read = read-ref a g e.physical_block_id in_use

      in_reserve : (b g' b' : ℕ) → plus (owed cow) g b g' b' ≡ owed (put g b cow) g' b'
      in_reserve b g' b' = ground (arith, get-put g g' b cow, nothing_owed b')

      unheld :
          (b : ℕ) (t : TokenLayerKvMap)
          → Accounts (plus (owed cow) g b) t
          → Same s t
          → ref_at t g b ≡ 1
          → holders s g b ≡ 0
      unheld b t acc same single = ground (
        arith,
        acc.refs g b,
        single,
        ap (held g b) same.entries,
        ap (held g b) same.temporary_entries,
      )

  pub copy_tail_lem : Copies s cow seq block g
  copy_tail_lem = elim (Option-cases (get (tail_key seq block g) s.entries)) [
    | inl absent ↦ inr (key_error, unfold copy_tail read_entry in rw absent)
    | inr (e, found) ↦ copy_shared e found
  ]
