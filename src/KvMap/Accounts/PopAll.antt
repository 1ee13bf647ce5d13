-- ===== src/KvMap/Accounts/PopAll.antt =====
-- Taking back the entries of a list of keys.
use e_llm.Prelude.{ℕ, ◌≡◌, refl, sym, ap, ◌∙◌, subst, ◌≤◌, List, [], ◌∷◌, nat_eq, length, arith}
use e_llm.Exec.{ok}
use e_llm.Dict.Laws.{get-some}
use e_llm.Dict.Keys.{Unique, Present, remove_all, Present-remove}
use e_llm.KvMap.{Key, TokenLayerKvMap, key_eq, Table, table}
use e_llm.KvMap.Blocks.{pop_and_free_all}
use e_llm.KvMap.Accounts.{Accounts, free_at}
use e_llm.KvMap.Accounts.Entries.{Frame, Frame-refl, Frame-trans, pop_and_free_lem}

-- Taking back entries that are there never raises, keeps the books, and loses no free block.
abbrev pub PopsAll : (ℕ → ℕ → ℕ) → Table → TokenLayerKvMap → List Key → Type 0
PopsAll x t s ks =
    (s' : TokenLayerKvMap) × (pop_and_free_all t ks s ≡ (ok tt, s'))
    × Accounts x s'
    × Frame t s s'
    × (table t s' ≡ remove_all ks (table t s))
    × ((g : ℕ) → length (free_at s g) ≤ length (free_at s' g))

pub pop_and_free_all_lem :
    {x : ℕ → ℕ → ℕ} (t : Table) (ks : List Key) {s : TokenLayerKvMap} (a : Accounts x s)
    → Unique ks
    → Present ks (table t s)
    → PopsAll x t s ks
unfolding pop_and_free_all remove_all
pop_and_free_all_lem t [] {s} a u p = (s, refl, a, Frame-refl t s, refl, λ g. omega arith)
pop_and_free_all_lem {x} t (k ∷ ks) {s} a u p =
    let (e, found) = get-some k (table t s) p.0 in
    let (s1, run, a1, f1, t1, l1) = pop_and_free_lem t a k e found in
    let (s2, runs, a2, f2, t2, l2) =
      pop_and_free_all_lem t ks a1 u.1
        (subst (Present ks) (sym t1) (Present-remove k ks (table t s) u.0 p.1)) in
    (
      s2,
      rw run runs,
      a2,
      Frame-trans t f1 f2,
      (t2 ∙ ap (remove_all ks) t1),
      λ g. omega (arith, l1 g, l2 g),
    )
