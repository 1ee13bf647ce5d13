-- ===== src/KvMap/Accounts/Loops.antt =====
-- The loops that take blocks back, and those that reserve blocks and take them back on failure.
use mathlib.Core.List.{append_assoc, append-nil}
use e_llm.Prelude.{
  ℕ, ◌+◌, ◌≡◌, refl, sym, ap, ◌∙◌, subst, ◌<◌, ◌⊎◌, inl, inr, List, [], ◌∷◌, ◌++◌, nat_eq, nat_beq,
  length, get_or, Bool-cases, true, false, if◌then◌else◌, arith, some, length-append,
}
use e_llm.Exec.{Result, ok, err, runtime_error}
use e_llm.Dict.{Dict, get, contains}
use e_llm.Dict.Laws.{get-append, put-fresh, contains-append}
use e_llm.Dict.Keys.{
  mem, Unique, Unique-left, Unique-middle, Present, Absent, made, made-append, remove_all,
  remove_all-made, Present-made, contains-made, Absent-append,
}
use e_llm.KvMap.{Key, KvMapEntry, TokenLayerKvMap, key_eq, key_beq, key_beq_iff, Table, table}
use e_llm.KvMap.Blocks.{allocate_block, pop_and_free_all, reserve, put_entry}
use e_llm.KvMap.Accounts.{Accounts, Same, free_at, ref_at, held, plus}
use e_llm.KvMap.Accounts.Pools.{allocate_lem}
use e_llm.KvMap.Accounts.Entries.{
  Frame, Frame-refl, Frame-trans, Same-Frame, Same-table, table-put_entry, put_entry-Frame,
  put_entry-free_blocks, put_entry-refs, put_entry_fresh-Accounts,
}
use e_llm.KvMap.Accounts.PopAll.{pop_and_free_all_lem}

-- How many of the keys lie in a layer group.
abbrev pub needs : ℕ → List Key → ℕ
needs g [] = 0
needs g (k ∷ ks) = (if nat_beq k.group g then 1 else 0) + needs g ks

-- Each key's block has one reference.
abbrev pub AllOnce : TokenLayerKvMap → List Key → List ℕ → Type 0
AllOnce s [] bs = Unit {0}
AllOnce s (k ∷ ks) [] = Unit {0}
AllOnce s (k ∷ ks) (b ∷ bs) = (ref_at s k.group b ≡ 1) × AllOnce s ks bs

AllOnce-append :
    (s : TokenLayerKvMap) (ks : List Key) (bs : List ℕ) (k : Key) (b : ℕ)
    → length bs ≡ length ks
    → AllOnce s ks bs
    → ref_at s k.group b ≡ 1
    → AllOnce s (ks ++ k ∷ []) (bs ++ b ∷ [])
AllOnce-append s [] [] k b h a o = (o, tt)
AllOnce-append s [] (c ∷ bs) k b h a o = absurd (omega arith)
AllOnce-append s (j ∷ ks) [] k b h a o = absurd (omega arith)
AllOnce-append s (j ∷ ks) (c ∷ bs) k b h a o = (a.0, AllOnce-append s ks bs k b (omega arith) a.1 o)

AllOnce-mono :
    (s s' : TokenLayerKvMap) (ks : List Key) (bs : List ℕ)
    → ((g b : ℕ) → ref_at s g b ≡ 1 → ref_at s' g b ≡ 1)
    → AllOnce s ks bs
    → AllOnce s' ks bs
AllOnce-mono s s' [] bs h a = tt
AllOnce-mono s s' (k ∷ ks) [] h a = tt
AllOnce-mono s s' (k ∷ ks) (b ∷ bs) h a = (h k.group b a.0, AllOnce-mono s s' ks bs h a.1)

module _ (x : ℕ → ℕ → ℕ) (t : Table) (make : Key → ℕ → KvMapEntry)
    (names : (k : Key) (b : ℕ) → (make k b).physical_block_id ≡ b) (base : TokenLayerKvMap) where
  -- The state after the keys of `ks` have been entered.
  pub record Entered (ks : List Key) (s : TokenLayerKvMap) : Type 0 where
    pub accounts : Accounts x s
    pub frame : Frame t base s
    pub blocks : List ℕ
    pub blocks_length : length blocks ≡ length ks
    pub grown : table t s ≡ table t base ++ made make ks blocks
    pub once : AllOnce s ks blocks

  abbrev pub Undone : TokenLayerKvMap → Type 0
  Undone s = Accounts x s × Frame t base s × (table t s ≡ table t base)

  undo :
      (ks : List Key) (s : TokenLayerKvMap)
      → Entered ks s
      → Unique ks
      → Absent ks (table t base)
      → (s' : TokenLayerKvMap) × (pop_and_free_all t ks s ≡ (ok tt, s')) × Undone s'
  undo ks s h u a =
      let (s', run, acc, f, same, _) = pop_and_free_all_lem t ks h.accounts u (
        subst (Present ks) (sym h.grown)
          (Present-made make ks ks h.blocks (table t base) h.blocks_length (λ k m. m))) in
      (
        s',
        run,
        (
          acc,
          Frame-trans t h.frame f,
          same
              ∙ ap (remove_all ks) h.grown
              ∙ remove_all-made make ks h.blocks (table t base) h.blocks_length u a,
        ),
      )

  -- The next key, entered with the block that was allocated for it.
  enter :
      (ks : List Key) (k : Key) (b : ℕ) {s s1 : TokenLayerKvMap}
      → Entered ks s
      → Same s s1
      → Accounts (plus x k.group b) s1
      → ref_at s1 k.group b ≡ 1
      → mem k ks ≡ false
      → contains k (table t base) ≡ false
      → Entered (ks ++ k ∷ []) (put_entry t k (make k b) s1)
  enter ks k b {s} {s1} h same a single new fresh = record {
    accounts = put_entry_fresh-Accounts t x k (make k b) (rw (names k b) a) (absent_now);
    frame =
        Frame-trans t h.frame
          (Frame-trans t (Same-Frame t same) (put_entry-Frame t k (make k b) s1));
    blocks = h.blocks ++ b ∷ [];
    blocks_length =
        omega (arith, length-append h.blocks (b ∷ []), length-append ks (k ∷ []), h.blocks_length);
    grown =
        table-put_entry t k (make k b) s1
        ∙ put-fresh k (make k b) (table t s1) absent_now
        ∙ ap (λ (d : Dict Key KvMapEntry). d ++ (k, make k b) ∷ []) now
        ∙ append_assoc (table t base) (made make ks h.blocks) ((k, make k b) ∷ [])
        ∙ ap (◌++◌ (table t base)) (sym (made-append make ks h.blocks k b h.blocks_length));
    once =
        AllOnce-append (put_entry t k (make k b) s1) ks h.blocks k b h.blocks_length
          (AllOnce-mono s (put_entry t k (make k b) s1) ks h.blocks
            (λ g c o. put-ref_at g c ∙ still g c o) h.once)
          (put-ref_at k.group b ∙ single);
  }
    where
      put-ref_at : (g c : ℕ) → ref_at (put_entry t k (make k b) s1) g c ≡ ref_at s1 g c
      put-ref_at g c =
          ap (λ (r : List (List ℕ)). get_or (get_or r g []) c 0) (put_entry-refs t k (make k b) s1)

      still : (g c : ℕ) → ref_at s g c ≡ 1 → ref_at s1 g c ≡ 1
      still g c o = ground (
        arith,
        single,
        h.accounts.refs g c,
        a.refs g c,
        ap (held g c) same.entries,
        ap (held g c) same.temporary_entries,
      )

      now : table t s1 ≡ table t base ++ made make ks h.blocks
      now = Same-table t same ∙ h.grown

      absent_now : contains k (table t s1) ≡ false
      absent_now =
          ap (contains k) now
          ∙ contains-append k (table t base) (made make ks h.blocks)
          ∙ ground (arith, contains-made make k ks h.blocks h.blocks_length)

  -- Either every key is entered, or the pools are too small and the base is back as it was.
  abbrev pub Reserves :
      List Key → List Key → TokenLayerKvMap → Result (Unit {0}) × TokenLayerKvMap → Type 0
  Reserves done ks s r =
      ((s' : TokenLayerKvMap) × (r ≡ (ok tt, s'))
        × Entered (done ++ ks) s'
        × ((g : ℕ) → length (free_at s g) ≡ length (free_at s' g) + needs g ks))
      ⊎ ((s' : TokenLayerKvMap) × (r ≡ (err runtime_error, s'))
          × Undone s'
          × ((g : ℕ) × (length (free_at s g) < needs g ks)))

  put-free_at :
      (k : Key) (e : KvMapEntry) (s : TokenLayerKvMap) (g : ℕ)
      → length (free_at (put_entry t k e s) g) ≡ length (free_at s g)
  put-free_at k e s g =
      ap (λ (f : List (List ℕ)). length (get_or f g [])) (put_entry-free_blocks t k e s)

  after_one :
      (k : Key) (ks done : List Key) (s s1 : TokenLayerKvMap) (b : ℕ)
      → allocate_block k.group s ≡ (ok b, s1)
      → ((g : ℕ)
          → length (free_at s g) ≡ length (free_at s1 g) + (if nat_beq k.group g then 1 else 0))
      → Reserves
          (done ++ k ∷ [])
          ks
          (put_entry t k (make k b) s1)
          (reserve t make ks (done ++ k ∷ []) (put_entry t k (make k b) s1))
      → Reserves done (k ∷ ks) s (reserve t make (k ∷ ks) done s)
  unfolding reserve
  after_one k ks done s s1 b got lens (inl (s', ran, entered, left)) = inl (
    s',
    rw got ran,
    subst (λ js. Entered js s') (append_assoc done (k ∷ []) ks) entered,
    λ g. omega (arith, lens g, left g, put-free_at k (make k b) s1 g),
  )
  after_one k ks done s s1 b got lens (inr (s', ran, back, (g, short))) =
      inr (s', rw got ran, back, (g, omega (arith, lens g, put-free_at k (make k b) s1 g, short)))

  reserve_loop :
      (ks done : List Key) (s : TokenLayerKvMap)
      → Entered done s
      → Unique (done ++ ks)
      → Absent (done ++ ks) (table t base)
      → Reserves done ks s (reserve t make ks done s)
  unfolding reserve
  reserve_loop [] done s h u a =
      inl (s, refl, subst (λ ks. Entered ks s) (sym (append-nil done)) h, λ g. omega arith)
  reserve_loop (k ∷ ks) done s h u a = elim (allocate_lem h.accounts k.group) [
    | inl (failed, none_free) ↦
        let (s', undone, back) =
          undo done s h (Unique-left done (k ∷ ks) u)
            (Absent-append done (k ∷ ks) (table t base) a).0 in
        inr (
          s',
          rw failed (rw undone),
          back,
          (k.group, ground (arith, ap (length {A = ℕ}) none_free)),
        )
    | inr (b, s1, got, acc, same, lens, single) ↦
        let s2 : TokenLayerKvMap = put_entry t k (make k b) s1 in
        let h2 =
          enter done k b h same acc single (Unique-middle done k ks u)
            (Absent-append done (k ∷ ks) (table t base) a).1.0 in
        let shift = append_assoc done (k ∷ []) ks in
        after_one k ks done s s1 b got lens (
          reserve_loop ks (done ++ k ∷ []) s2 h2 (subst (Unique) (sym shift) u)
            (subst (λ js. Absent js (table t base)) (sym shift) a))
  ]

  -- From the state before the loop.
  pub reserve_lem :
      {ks : List Key}
      → Accounts x base
      → Unique ks
      → Absent ks (table t base)
      → Reserves [] ks base (reserve t make ks [] base)
  reserve_lem {ks} acc u a =
      reserve_loop ks [] base
        (record {
          accounts = acc;
          frame = Frame-refl t base;
          blocks = [];
          blocks_length = refl;
          grown = sym (append-nil (table t base));
          once = tt;
        })
        u a

  get-made :
      (s : TokenLayerKvMap) (k : Key) (ks : List Key) (bs : List ℕ)
      → length bs ≡ length ks
      → mem k ks ≡ true
      → AllOnce s ks bs
      → (b : ℕ) × (get k (made make ks bs) ≡ some (make k b)) × (ref_at s k.group b ≡ 1)
  unfolding get
  get-made s k [] bs h m o = absurd (cc)
  get-made s k (j ∷ ks) [] h m o = absurd (omega arith)
  get-made s k (j ∷ ks) (b ∷ bs) h m o = elim (Bool-cases (key_beq j k)) [
    | inl hit ↦
        let same : j ≡ k = (key_beq_iff j k).0 hit in
        (b, rw hit (ap (λ (i : Key). some (make i b)) same), rw (← same) o.0)
    | inr miss ↦
        let (c, p, q) = get-made s k ks bs (omega arith) (rw miss at m) o.1 in (c, rw miss p, q)
  ]

  -- An entered key has an entry, and its block no other reference.
  pub Entered-once :
      {ks : List Key} {s : TokenLayerKvMap} (k : Key)
      → Entered ks s
      → mem k ks ≡ true
      → contains k (table t base) ≡ false
      → (b : ℕ) × (get k (table t s) ≡ some (make k b)) × (ref_at s k.group b ≡ 1)
  Entered-once {ks} {s} k h m fresh =
      let (b, p, q) = get-made s k ks h.blocks h.blocks_length m h.once in
      (b, ap (get k) h.grown ∙ get-append k (table t base) (made make ks h.blocks) ∙ rw fresh p, q)
