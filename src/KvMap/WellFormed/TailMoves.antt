-- ===== src/KvMap/WellFormed/TailMoves.antt =====
-- The tail entry of a sequence in one layer group gets a token.
use e_llm.Prelude.{
  ℕ, ◌+◌, ◌≡◌, refl, sym, ap, ◌∙◌, subst, inl, inr, false, some, none, nat_eq, if◌then◌else◌, arith,
  List, [], ◌∷◌,
}
use e_llm.Exec.{Result, ok}
use e_llm.Dict.{Dict, get, put}
use e_llm.Dict.Weight.{weight-put, weight-get}
use e_llm.Dict.Keys.{mem}
use e_llm.KvMap.{Key, KvMapEntry, TokenLayerKvMap, key_eq, retained, table}
use e_llm.KvMap.Blocks.{free_block, put_entry}
use e_llm.KvMap.Sequences.{move_tail}
use e_llm.KvMap.Accounts.{Accounts, Same, holds, held, plus}
use e_llm.KvMap.Accounts.Pools.{free_lem}
use e_llm.KvMap.Accounts.Entries.{
  Frame, Frame-trans, Same-Frame, put_entry-Frame, put_entry-Accounts,
}
use e_llm.KvMap.WellFormed.TailCopies.{owed, holders, tail_key, Ready}

-- Freeing a block does not read the entries.
free-put :
    (g b : ℕ) (k : Key) (e : KvMapEntry) (s : TokenLayerKvMap)
    → free_block g b (put_entry retained k e s)
      ≡ ((free_block g b s).0, put_entry retained k e (free_block g b s).1)
unfolding free_block put_entry
free-put g b k e s = ground arith

-- The blocks in reserve for the groups that are still to be visited.
abbrev pub pending : List ℕ → Dict ℕ ℕ → ℕ → ℕ → ℕ
pending gs cow g b = if mem g gs then owed cow g b else 0

-- The tail entry of a group names a block that no other entry holds.
abbrev pub Sole : TokenLayerKvMap → ℕ → ℕ → ℕ → Type 0
Sole s seq block g =
    (e : KvMapEntry) × (get (tail_key seq block g) s.entries ≡ some e)
    × (holders s g e.physical_block_id ≡ 1)

-- What one round does.
abbrev Moves : TokenLayerKvMap → ℕ → ℕ → List ℕ → Dict ℕ ℕ → ℕ → KvMapEntry → Type 0
Moves s seq block gs cow g e =
    (copies : List (ℕ × ℕ × ℕ)) × (s' : TokenLayerKvMap) × (move_tail (tail_key seq block g) e
        (get g cow) s
      ≡ (ok copies, s'))
    × Accounts (pending gs cow) s'
    × (e' : KvMapEntry) × (s'.entries ≡ put (tail_key seq block g) e' s.entries)
    × Frame retained s s'
    × (holders s' g e'.physical_block_id ≡ 1)

module _ (s : TokenLayerKvMap) (seq block g : ℕ) (gs : List ℕ) (cow : Dict ℕ ℕ) (e : KvMapEntry)
    (a : Accounts (pending (g ∷ gs) cow) s) (out : mem g gs ≡ false)
    (found : get (tail_key seq block g) s.entries ≡ some e) where
  key : Key
  key = tail_key seq block g

  grow_in_place :
      get g cow ≡ none → holders s g e.physical_block_id ≡ 1 → Moves s seq block gs cow g e
  unfolding move_tail key held put_entry
  grow_in_place alone once =
      let e' : KvMapEntry = record e { num_filled = e.num_filled + 1 } in
      (
        [],
        put_entry retained key e' s,
        rw alone,
        put_entry-Accounts a retained (pending gs cow) key e e' found
            (λ g' b'. ground (arith, alone)),
        e',
        refl,
        put_entry-Frame retained key e' s,
        omega (arith, once, weight-put (holds g e.physical_block_id) key e e' s.entries found),
      )

  move_to_copy : (b : ℕ) → get g cow ≡ some b → holders s g b ≡ 0 → Moves s seq block gs cow g e
  unfolding move_tail key held put_entry table
  move_to_copy b reserve unheld = (
    (g, e.physical_block_id, b) ∷ [],
    t,
    rw reserve (
        rw freed (
          ap {B = Result (List (ℕ × ℕ × ℕ)) × TokenLayerKvMap}
            (λ u. (ok ((g, e.physical_block_id, b) ∷ []), u)) written)),
    acc,
    moved,
    same.entries,
    Frame-trans retained (put_entry-Frame retained key moved s) (Same-Frame retained same),
    sole,
  )
    where
      moved : KvMapEntry
      moved = record e { physical_block_id = b; num_filled = e.num_filled + 1 }

      books :
          Accounts (plus (pending gs cow) g e.physical_block_id) (put_entry retained key moved s)
      books =
          put_entry-Accounts a retained (plus (pending gs cow) g e.physical_block_id) key e moved
            found (λ g' b'. ground (arith, reserve))

      t : TokenLayerKvMap
      t = (free_lem (pending gs cow) g e.physical_block_id books).0

      ran : free_block g e.physical_block_id (put_entry retained key moved s) ≡ (ok tt, t)
      ran = (free_lem (pending gs cow) g e.physical_block_id books).1

      acc : Accounts (pending gs cow) t
      acc = (free_lem (pending gs cow) g e.physical_block_id books).2

      same : Same (put_entry retained key moved s) t
      same = (free_lem (pending gs cow) g e.physical_block_id books).3

      both :
          ◌≡◌ {A = Result (Unit {0}) × TokenLayerKvMap}
            (
              (free_block g e.physical_block_id s).0,
              put_entry retained key moved (free_block g e.physical_block_id s).1,
            )
            (ok tt, t)
      both = sym (free-put g e.physical_block_id key moved s) ∙ ran

      freed : free_block g e.physical_block_id s ≡ (ok tt, (free_block g e.physical_block_id s).1)
      freed =
          ap {B = Result (Unit {0}) × TokenLayerKvMap}
            (λ r. (r, (free_block g e.physical_block_id s).1))
            (ap (λ (p : Result (Unit {0}) × TokenLayerKvMap). p.0) both)

      written : put_entry retained key moved (free_block g e.physical_block_id s).1 ≡ t
      written = ap (λ (p : Result (Unit {0}) × TokenLayerKvMap). p.1) both

      sole : holders t g b ≡ 1
      sole = ground (
        arith,
        unheld,
        ap (held g b) same.entries,
        ap (held g b) same.temporary_entries,
        weight-put (holds g b) key e moved s.entries found,
        weight-get (holds g b) key e s.entries found,
      )

  pub move_tail_lem : Ready s seq block g (get g cow) → Moves s seq block gs cow g e
  move_tail_lem (e', found', inl (alone, once)) =
      let same : e' ≡ e = ground (arith, found, found') in
      grow_in_place alone
        (subst (λ (u : KvMapEntry). holders s g u.physical_block_id ≡ 1) same once)
  move_tail_lem (e', found', inr (b, reserve, unheld)) = move_to_copy b reserve unheld
