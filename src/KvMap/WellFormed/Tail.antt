-- ===== src/KvMap/WellFormed/Tail.antt =====
-- The second loop of an append into a tail block: each group's tail entry grows by a token, in a
-- block that no other entry holds.
use e_llm.Prelude.{
  ℕ, ◌≡◌, refl, ap, ◌∙◌, inl, inr, true, false, some, ◌==◌, nat_eq, if◌then◌else◌, arith, List, [],
  ◌∷◌, ◌++◌,
}
use e_llm.Exec.{ok}
use e_llm.Dict.{Dict, get, contains, put}
use e_llm.Dict.Laws.{get-put, contains-put, contains_of_get}
use e_llm.Dict.Weight.{weight-put}
use e_llm.Dict.Keys.{mem, Unique}
use e_llm.KvMap.{Key, KvMapEntry, TokenLayerKvMap, key_eq, retained, table}
use e_llm.KvMap.Blocks.{read_entry}
use e_llm.KvMap.Sequences.{fill_tail}
use e_llm.KvMap.Accounts.{Accounts, holds, held, nothing}
use e_llm.KvMap.Accounts.Entries.{other, Frame, Frame-refl, Frame-trans}
use e_llm.KvMap.WellFormed.CopyOnWrite.{AllReady}
use e_llm.KvMap.WellFormed.TailCopies.{holders, tail_key, Ready, Accounts-ext}
use e_llm.KvMap.WellFormed.TailMoves.{pending, Sole, move_tail_lem}

abbrev pub AllSole : TokenLayerKvMap → ℕ → ℕ → List ℕ → Type 0
AllSole s seq block [] = Unit {0}
AllSole s seq block (g ∷ gs) = Sole s seq block g × AllSole s seq block gs

-- What the loop leaves alone: the keys, and the other groups.
pub record Untouched (s s' : TokenLayerKvMap) (seq block : ℕ) (gs : List ℕ) : Type 0 where
  pub frame : Frame retained s s'
  pub keys : (k : Key) → contains k s'.entries ≡ contains k s.entries
  pub tails :
      (h : ℕ)
      → mem h gs ≡ false
      → get (tail_key seq block h) s'.entries ≡ get (tail_key seq block h) s.entries
  pub held_by : (h b : ℕ) → mem h gs ≡ false → holders s' h b ≡ holders s h b

module _ (seq block : ℕ) where
  Untouched-put :
      {s s' : TokenLayerKvMap} (g : ℕ) (e e' : KvMapEntry)
      → get (tail_key seq block g) s.entries ≡ some e
      → s'.entries ≡ put (tail_key seq block g) e' s.entries
      → Frame retained s s'
      → Untouched s s' seq block (g ∷ [])
  unfolding held table other
  Untouched-put {s} {s'} g e e' found changed f = record {
    frame = f;
    keys =
        λ k. ap (contains k) changed ∙ contains-put (tail_key seq block g) k e' s.entries ∙ kept k;
    tails = λ h n.
        ap (get (tail_key seq block h)) changed
        ∙ get-put (tail_key seq block g) (tail_key seq block h) e' s.entries
        ∙ ground arith;
    held_by = λ h b n. ground (
      arith,
      ap (held h b) changed,
      ap (held h b) f.other_table,
      weight-put (holds h b) (tail_key seq block g) e e' s.entries found,
    );
  }
    where
      kept :
          (k : Key)
          → (if tail_key seq block g == k then true else contains k s.entries)
            ≡ contains k s.entries
      kept k = ground (
        arith,
        contains_of_get (tail_key seq block g) e s.entries found,
        key_eq.eqb_iff (tail_key seq block g) k,
      )

  Untouched-trans :
      {a b c : TokenLayerKvMap} (g : ℕ) (gs : List ℕ)
      → Untouched a b seq block (g ∷ [])
      → Untouched b c seq block gs
      → Untouched a c seq block (g ∷ gs)
  Untouched-trans g gs u v = record {
    frame = Frame-trans retained u.frame v.frame;
    keys = λ k. v.keys k ∙ u.keys k;
    tails = λ h n. v.tails h (ground arith) ∙ u.tails h (ground arith);
    held_by = λ h b n. v.held_by h b (ground arith) ∙ u.held_by h b (ground arith);
  }

  AllReady-Untouched :
      {s s' : TokenLayerKvMap} (g : ℕ) (cow : Dict ℕ ℕ) (gs : List ℕ)
      → Untouched s s' seq block (g ∷ [])
      → mem g gs ≡ false
      → AllReady s seq block cow gs
      → AllReady s' seq block cow gs
  AllReady-Untouched g cow [] u out r = tt
  AllReady-Untouched {s} {s'} g cow (h ∷ gs) u out r =
      (one_ready r.0, AllReady-Untouched g cow gs u (ground arith) r.1)
    where
      apart : mem h (g ∷ []) ≡ false
      apart = ground arith

      one_ready : Ready s seq block h (get h cow) → Ready s' seq block h (get h cow)
      one_ready (e, found, inl (alone, once)) =
          (e, u.tails h apart ∙ found, inl (alone, u.held_by h e.physical_block_id apart ∙ once))
      one_ready (e, found, inr (b, reserve, unheld)) =
          (e, u.tails h apart ∙ found, inr (b, reserve, u.held_by h b apart ∙ unheld))

  abbrev pub Fills : TokenLayerKvMap → Dict ℕ ℕ → List ℕ → List (ℕ × ℕ × ℕ) → Type 0
  Fills s cow gs copies =
      (copies' : List (ℕ × ℕ × ℕ)) × (s' : TokenLayerKvMap) × (fill_tail seq block cow gs copies s
        ≡ (ok copies', s'))
      × Accounts nothing s'
      × Untouched s s' seq block gs
      × AllSole s' seq block gs

  pub fill_tail_lem :
      (gs : List ℕ) (s : TokenLayerKvMap) (cow : Dict ℕ ℕ) (copies : List (ℕ × ℕ × ℕ))
      → Accounts (pending gs cow) s
      → Unique gs
      → AllReady s seq block cow gs
      → Fills s cow gs copies
  unfolding fill_tail read_entry table
  fill_tail_lem [] s cow copies a u r = (
    copies,
    s,
    refl,
    Accounts-ext (λ g b. refl) a,
    record {
      frame = Frame-refl retained s;
      keys = λ k. refl;
      tails = λ h n. refl;
      held_by = λ h b n. refl;
    },
    tt,
  )
  fill_tail_lem (g ∷ gs) s cow copies a u ((e, found, how), rest) =
      let (new, s1, ran, a1, e', changed, f, sole) =
        move_tail_lem s seq block g gs cow e a u.0 found (e, found, how) in
      let un = Untouched-put g e e' found changed f in
      let (copies', s', ran', a', un', all) =
        fill_tail_lem gs s1 cow (copies ++ new) a1 u.1 (AllReady-Untouched g cow gs un u.0 rest) in
      (
        copies',
        s',
        rw found (rw ran ran'),
        a',
        Untouched-trans g gs un un',
        (
          (
            e',
            un'.tails g u.0
                ∙ ap (get (tail_key seq block g)) changed
                ∙ get-put (tail_key seq block g) (tail_key seq block g) e' s.entries
                ∙ ground arith,
            un'.held_by g e'.physical_block_id u.0 ∙ sole,
          ),
          all,
        ),
      )
