-- ===== src/KvMap/KeyLists.antt =====
-- The lists of keys that the loops run over: what they hold, that they hold it once, and how many
-- of their keys lie in each layer group.
use e_llm.Prelude.{
  ℕ, zero, suc, ◌+◌, ◌≡◌, refl, ◌∙◌, true, false, ◌&&◌, List, [], ◌∷◌, ◌++◌, nat_eq, nat_beq,
  length, ltb, leb, range, if◌then◌else◌, arith, length-range,
}
use e_llm.Dict.Keys.{mem, Unique, Unique-append, mem-append}
use e_llm.KvMap.{Key, key_eq}
use e_llm.KvMap.Sequences.{row, column, by_group, by_block}
use e_llm.KvMap.Accounts.Loops.{needs}

abbrev block_at : ℕ → ℕ → ℕ → Key
block_at seq g b = record { seq_id = seq; block = b; group = g }

pub mem-range : (a lo n : ℕ) → mem a (range lo n) ≡ (leb lo a && ltb a (lo + n))
mem-range a lo zero = ground arith
mem-range a lo (suc n) = ground (arith, mem-range a (suc lo) n)

pub Unique-range : (lo n : ℕ) → Unique (range lo n)
Unique-range lo zero = tt
Unique-range lo (suc n) = (ground (arith, mem-range lo (suc lo) n), Unique-range (suc lo) n)

module _ (seq : ℕ) where
  pub mem-row :
      (k : Key) (g : ℕ) (bs : List ℕ)
      → mem k (row seq g bs) ≡ (nat_beq seq k.seq_id && nat_beq g k.group && mem k.block bs)
  mem-row k g [] = ground arith
  mem-row k g (b ∷ bs) = ground (arith, mem-row k g bs)

  pub mem-column :
      (k : Key) (b : ℕ) (gs : List ℕ)
      → mem k (column seq b gs) ≡ (nat_beq seq k.seq_id && nat_beq b k.block && mem k.group gs)
  mem-column k b [] = ground arith
  mem-column k b (g ∷ gs) = ground (arith, mem-column k b gs)

  pub mem-by_group :
      (k : Key) (gs bs : List ℕ)
      → mem k (by_group seq gs bs) ≡ (nat_beq seq k.seq_id && mem k.group gs && mem k.block bs)
  mem-by_group k [] bs = ground arith
  mem-by_group k (g ∷ gs) bs =
      mem-append k (row seq g bs) (by_group seq gs bs)
      ∙ ground (arith, mem-row k g bs, mem-by_group k gs bs)

  pub mem-by_block :
      (k : Key) (gs bs : List ℕ)
      → mem k (by_block seq gs bs) ≡ (nat_beq seq k.seq_id && mem k.group gs && mem k.block bs)
  mem-by_block k gs [] = ground arith
  mem-by_block k gs (b ∷ bs) =
      mem-append k (column seq b gs) (by_block seq gs bs)
      ∙ ground (arith, mem-column k b gs, mem-by_block k gs bs)

  pub Unique-row : (g : ℕ) (bs : List ℕ) → Unique bs → Unique (row seq g bs)
  Unique-row g [] u = tt
  Unique-row g (b ∷ bs) u =
      (ground (arith, mem-row (block_at seq g b) g bs, u.0), Unique-row g bs u.1)

  pub Unique-column : (b : ℕ) (gs : List ℕ) → Unique gs → Unique (column seq b gs)
  Unique-column b [] u = tt
  Unique-column b (g ∷ gs) u =
      (ground (arith, mem-column (block_at seq g b) b gs, u.0), Unique-column b gs u.1)

  pub Unique-by_group : (gs bs : List ℕ) → Unique gs → Unique bs → Unique (by_group seq gs bs)
  Unique-by_group [] bs u v = tt
  Unique-by_group (g ∷ gs) bs u v =
      Unique-append (row seq g bs) (by_group seq gs bs) (Unique-row g bs v)
        (Unique-by_group gs bs u.1 v) λ k m. apart k m
    where
      apart : (k : Key) → mem k (row seq g bs) ≡ true → mem k (by_group seq gs bs) ≡ false
      apart k m = ground (arith, mem-row k g bs, mem-by_group k gs bs, u.0)

  pub Unique-by_block : (gs bs : List ℕ) → Unique gs → Unique bs → Unique (by_block seq gs bs)
  Unique-by_block gs [] u v = tt
  Unique-by_block gs (b ∷ bs) u v =
      Unique-append (column seq b gs) (by_block seq gs bs) (Unique-column b gs u)
        (Unique-by_block gs bs u v.1) λ k m. apart k m
    where
      apart : (k : Key) → mem k (column seq b gs) ≡ true → mem k (by_block seq gs bs) ≡ false
      apart k m = ground (arith, mem-column k b gs, mem-by_block k gs bs, v.0)

  pub needs-append : (g : ℕ) (ks js : List Key) → needs g (ks ++ js) ≡ needs g ks + needs g js
  needs-append g [] js = omega arith
  needs-append g (k ∷ ks) js = ground (arith, needs-append g ks js)

  pub needs-row :
      (h g : ℕ) (bs : List ℕ) → needs h (row seq g bs) ≡ (if nat_beq g h then length bs else 0)
  needs-row h g [] = ground arith
  needs-row h g (b ∷ bs) = ground (arith, needs-row h g bs)

  needs-by_group :
      (h : ℕ) (gs bs : List ℕ)
      → Unique gs
      → needs h (by_group seq gs bs) ≡ (if mem h gs then length bs else 0)
  needs-by_group h [] bs u = refl
  needs-by_group h (g ∷ gs) bs u =
      needs-append h (row seq g bs) (by_group seq gs bs)
      ∙ ground (arith, needs-row h g bs, needs-by_group h gs bs u.1, u.0)

  needs-column :
      (h b : ℕ) (gs : List ℕ) → Unique gs → needs h (column seq b gs) ≡ (if mem h gs then 1 else 0)
  needs-column h b [] u = refl
  needs-column h b (g ∷ gs) u = ground (arith, needs-column h b gs u.1, u.0)

  pub needs-by_group-range :
      (h groups lo n : ℕ)
      → needs h (by_group seq (range 0 groups) (range lo n)) ≡ (if ltb h groups then n else 0)
  needs-by_group-range h groups lo n =
      needs-by_group h (range 0 groups) (range lo n) (Unique-range 0 groups)
      ∙ ground (arith, mem-range h 0 groups, length-range lo n)

  pub needs-column-range :
      (h b groups : ℕ) → needs h (column seq b (range 0 groups)) ≡ (if ltb h groups then 1 else 0)
  needs-column-range h b groups =
      needs-column h b (range 0 groups) (Unique-range 0 groups)
      ∙ ground (arith, mem-range h 0 groups)
