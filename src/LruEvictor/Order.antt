-- ===== src/LruEvictor/Order.antt =====
-- Which block `evict` takes, and that it takes one whenever there is one.
use e_llm.Prelude.{
  ◌⊎◌, ◌<◌, ◌≤◌, ℕ, suc, ◌≡◌, refl, sym, ap, false, some, [], ◌∷◌, nat_eq, nat_beq, if◌then◌else◌,
  arith, length, inl, inr, Bool-cases,
}
use e_llm.Dict.{Dict, get, remove}
use e_llm.Dict.Laws.{Distinct, contains_of_get, remove-fresh}
use e_llm.Exec.{ok}
use e_llm.LruEvictor.{BlockMetaData, LruEvictor, precedes, scan, evict, num_blocks}

-- The scan never gives up on a block that its candidate already beats.
scan-keeps :
    (items : Dict ℕ BlockMetaData) (evicted : ℕ × BlockMetaData) (c : BlockMetaData)
    → precedes (evicted.1) c ≡ false
    → precedes ((scan items evicted).1) c ≡ false
scan-keeps [] evicted c h = h
scan-keeps ((i, b) ∷ items) evicted c h =
    scan-keeps items (if precedes (evicted.1) b then (i, b) else evicted) c (ground arith)

scan-first :
    (items : Dict ℕ BlockMetaData) (evicted : ℕ × BlockMetaData) (j : ℕ) (c : BlockMetaData)
    → get j items ≡ some c
    → precedes ((scan items evicted).1) c ≡ false
unfolding get
scan-first [] evicted j c h = absurd (cc)
scan-first ((i, b) ∷ items) evicted j c h =
    let next : ℕ × BlockMetaData = if precedes (evicted.1) b then (i, b) else evicted in
    elim (Bool-cases (nat_beq i j)) [
      | inl hit ↦ scan-keeps items next c (ground (arith, h, hit))
      | inr miss ↦ scan-first items next j c (rw miss at h)
    ]

scan-found :
    (items whole : Dict ℕ BlockMetaData) (evicted : ℕ × BlockMetaData)
    → Distinct items
    → ((j : ℕ) (c : BlockMetaData) → get j items ≡ some c → get j whole ≡ some c)
    → get (evicted.0) whole ≡ some (evicted.1)
    → get ((scan items evicted).0) whole ≡ some ((scan items evicted).1)
unfolding get
scan-found [] whole evicted dd inside found = found
scan-found ((i, b) ∷ items) whole evicted dd inside found =
    scan-found items whole (if precedes (evicted.1) b then (i, b) else evicted) dd.1
      (λ j c h. inside j c (ground (arith, h, contains_of_get j c items h, dd.0)))
      (elim (Bool-cases (precedes (evicted.1) b)) [
        | inl better ↦ rw better (inside i b (ground arith))
        | inr worse ↦ rw worse found
      ])

length-remove :
    (i : ℕ) (b : BlockMetaData) (d : Dict ℕ BlockMetaData)
    → Distinct d
    → get i d ≡ some b
    → length d ≡ suc (length (remove i d))
unfolding get remove
length-remove i b [] dd h = absurd (cc)
length-remove i b ((j, c) ∷ d) dd h = elim (Bool-cases (nat_beq j i)) [
  | inl hit ↦
      let same : j ≡ i = ground arith in
      rw hit (ap suc (ap length (sym (remove-fresh i d (rw same at dd.0)))))
  | inr miss ↦ rw miss (ap suc (length-remove i b d dd.1 (rw miss at h)))
]

-- Accessed earlier, or at the same time with at least as many hashed tokens.
abbrev pub NotAfter : BlockMetaData → BlockMetaData → Type 0
NotAfter b c =
    (b.last_accessed < c.last_accessed)
    ⊎ ((b.last_accessed ≡ c.last_accessed) × (c.num_hashed_tokens ≤ b.num_hashed_tokens))

not_after : (b c : BlockMetaData) → precedes b c ≡ false → NotAfter b c
not_after b c h = ground arith

-- An evictor whose table has distinct ids and is not empty gives up a block: `evict` returns the id
-- and the hash of a block of the table, and no other block of the table was accessed before it, nor
-- at the same time with more hashed tokens; exactly that block leaves the table.
pub evict-least_recent :
    (s : LruEvictor) (j : ℕ) (c : BlockMetaData)
    → Distinct s.free_table
    → get j s.free_table ≡ some c
    → (i : ℕ) × (b : BlockMetaData) × (evict s
        ≡ (ok (i, b.content_hash), record s { free_table = remove i s.free_table }))
      × (get i s.free_table ≡ some b)
      × NotAfter b c
      × (num_blocks s ≡ suc (num_blocks ((evict s).1)))
unfolding evict
evict-least_recent s j c dd h = from s.free_table refl dd h
  where
    from :
        (d : Dict ℕ BlockMetaData)
        → s.free_table ≡ d
        → Distinct d
        → get j d ≡ some c
        → (i : ℕ) × (b : BlockMetaData) × (evict s
            ≡ (ok (i, b.content_hash), record s { free_table = remove i s.free_table }))
          × (get i s.free_table ≡ some b)
          × NotAfter b c
          × (num_blocks s ≡ suc (num_blocks ((evict s).1)))
    from [] e dd h = absurd (unfold get in cc)
    from (first ∷ items) e dd h =
        let evicted = scan (first ∷ items) first in
        let there : get (evicted.0) (first ∷ items) ≡ some (evicted.1) =
          scan-found (first ∷ items) (first ∷ items) first dd (λ k v found. found)
            (unfold get in ground arith) in
        (
          evicted.0,
          evicted.1,
          rw e refl,
          rw e there,
          not_after ((scan (first ∷ items) first).1) c (scan-first (first ∷ items) first j c h),
          rw e (length-remove (evicted.0) (evicted.1) (first ∷ items) dd there),
        )
