-- ===== src/KvMap/WellFormed/Plans.antt =====
-- Plans for a batch: temporary blocks are always taken back without an error, and every path of
-- the batch loops keeps the invariant.
use e_llm.Prelude.{
  ℕ, ◌≡◌, refl, subst, inl, inr, sym, ap, ◌∙◌, false, List, [], ◌∷◌, ◌++◌, nat_eq, if◌then◌else◌,
  arith,
}
use e_llm.Exec.{Result, ok, err, Result-cases}
use e_llm.Dict.{contains}
use e_llm.Dict.Keys.{contains-remove_all, remove_all}
use e_llm.KvMap.{Key, LayerGroupBlockPlan, TokenLayerKvMap, key_eq, transient, table}
use e_llm.KvMap.Sequences.{layer_groups}
use e_llm.KvMap.Recompute.{
  of_seq_group, begin_recompute, end_recompute, slots_of, gather, release_layer_group_plan,
  acquire_layer_group_plan, plan_group, plan_groups, build_layer_group_plans, or_release,
  add_to_plan, empty_plan,
}
use e_llm.KvMap.Accounts.Entries.{other, Frame}
use e_llm.KvMap.WellFormed.{IsWellFormed}
use e_llm.KvMap.WellFormed.Eviction.{chosen, mem-chosen, pop_chosen}
use e_llm.KvMap.WellFormed.Recomputing.{begin-IsWellFormed, slots_of-Reads}

-- Exactly the temporary entries of the sequence in the group go.
abbrev pub Ended : TokenLayerKvMap → ℕ → ℕ → Type 0
Ended s seq g =
    (s' : TokenLayerKvMap) × (end_recompute seq g s ≡ (ok tt, s'))
    × IsWellFormed s'
    × Frame transient s s'
    × ((k : Key)
        → contains k s'.temporary_entries
          ≡ (if of_seq_group seq g k then false else contains k s.temporary_entries))

pub end_lem : (s : TokenLayerKvMap) → IsWellFormed s → (seq g : ℕ) → Ended s seq g
unfolding end_recompute table other
end_lem s w seq g =
    let (s', ran, a, f, e, _) = pop_chosen (of_seq_group seq g) transient s w.accounts in
    (
      s',
      ran,
      record {
        accounts = a;
        block_size_pos = rw f.dims w.block_size_pos;
        groups_pos = rw f.dims w.groups_pos;
        domain = λ k.
            ap (contains k) f.other_table
            ∙ rw (f.dims, f.sequence_lengths, f.evicted_prefix_blocks) (w.domain k);
        temporary = λ k t.
            rw (f.dims, f.evicted_prefix_blocks)
              (w.temporary k (ground (arith, t, ap (contains k) e, left k)));
        spans = λ q. rw (f.dims, f.sequence_lengths, f.evicted_prefix_blocks) (w.spans q);
      },
      f,
      λ k. ap (contains k) e ∙ left k,
    )
  where
    left :
        (k : Key)
        → contains k
            (remove_all (chosen (of_seq_group seq g) s.temporary_entries) s.temporary_entries)
          ≡ (if of_seq_group seq g k then false else contains k s.temporary_entries)
    left k =
        contains-remove_all k (chosen (of_seq_group seq g) s.temporary_entries) s.temporary_entries
        ∙ ground (arith, mem-chosen (of_seq_group seq g) k s.temporary_entries)

-- Releasing a batch never raises, whatever the sequences.
pub release_lem :
    (g : ℕ) (seqs : List ℕ) (s : TokenLayerKvMap)
    → IsWellFormed s
    → (s' : TokenLayerKvMap) × (release_layer_group_plan g seqs s ≡ (ok tt, s'))
      × IsWellFormed s'
      × (s'.entries ≡ s.entries)
      × (s'.sequence_lengths ≡ s.sequence_lengths)
unfolding release_layer_group_plan table other
release_lem g [] s w = (s, refl, w, refl, refl)
release_lem g (seq ∷ seqs) s w =
    let (s1, ran, w1, f, _) = end_lem s w seq g in
    let (s', ran', w', e, l) = release_lem g seqs s1 w1 in
    (s', rw ran ran', w', e ∙ f.other_table, l ∙ f.sequence_lengths)

gather-IsWellFormed :
    (g : ℕ) (seqs : List ℕ) (plan : LayerGroupBlockPlan) (active : List ℕ) (s : TokenLayerKvMap)
    → IsWellFormed s
    → IsWellFormed (gather g seqs plan active s).2
unfolding gather
gather-IsWellFormed g [] plan active s w = w
gather-IsWellFormed g (seq ∷ seqs) plan active s w =
    let again = gather-IsWellFormed g seqs in
    elim (Result-cases (begin_recompute seq g s).0) [
      | inr (e, failed) ↦ rw (failed, gather) (begin-IsWellFormed s seq g w)
      | inl (block_table, began) ↦
          let s1 : TokenLayerKvMap = (begin_recompute seq g s).1 in
          let w2 : IsWellFormed (slots_of seq g s1).1 =
            subst IsWellFormed (sym (slots_of-Reads seq g s1)) (begin-IsWellFormed s seq g w) in
          elim (Result-cases (slots_of seq g s1).0) [
            | inr (e, failed) ↦ rw (began, gather) (rw (failed, gather) w2)
            | inl (found, read) ↦
                rw (began, gather)
                  (rw (read, gather)
                    (again (add_to_plan plan block_table found.0 found.1) (active ++ seq ∷ [])
                      (slots_of seq g s1).1 w2))
          ]
    ]

or_release-IsWellFormed :
    (g : ℕ) (r : Result LayerGroupBlockPlan) (active : List ℕ) (s : TokenLayerKvMap)
    → IsWellFormed s
    → IsWellFormed (or_release g (r, active, s)).1
or_release-IsWellFormed g (ok plan) active s w = w
or_release-IsWellFormed g (err e) active s w =
    let (s', ran, w', _, _) = release_lem g active s w in rw ran w'

pub acquire-IsWellFormed :
    (s : TokenLayerKvMap) (seqs : List ℕ) (g : ℕ)
    → IsWellFormed s
    → IsWellFormed (acquire_layer_group_plan seqs g s).1
unfolding acquire_layer_group_plan
acquire-IsWellFormed s seqs g w =
    or_release-IsWellFormed g (gather g seqs empty_plan [] s).0 (gather g seqs empty_plan [] s).1
      (gather g seqs empty_plan [] s).2 (gather-IsWellFormed g seqs empty_plan [] s w)

plan_group-IsWellFormed :
    (s : TokenLayerKvMap) (seqs : List ℕ) (g : ℕ)
    → IsWellFormed s
    → IsWellFormed (plan_group seqs g s).1
unfolding plan_group
plan_group-IsWellFormed s seqs g w =
    let (s', ran, w', _, _) =
      release_lem g (gather g seqs empty_plan [] s).1 (gather g seqs empty_plan [] s).2
        (gather-IsWellFormed g seqs empty_plan [] s w) in
    rw ran w'

plan_groups-IsWellFormed :
    (seqs gs : List ℕ) (plans : List LayerGroupBlockPlan) (s : TokenLayerKvMap)
    → IsWellFormed s
    → IsWellFormed (plan_groups seqs gs plans s).1
unfolding plan_groups
plan_groups-IsWellFormed seqs [] plans s w = w
plan_groups-IsWellFormed seqs (g ∷ gs) plans s w =
    let again = plan_groups-IsWellFormed seqs gs in
    let w1 = plan_group-IsWellFormed s seqs g w in
    elim (Result-cases (plan_group seqs g s).0) [
      | inr (e, failed) ↦ rw failed w1
      | inl (plan, made) ↦ rw made (again (plans ++ plan ∷ []) (plan_group seqs g s).1 w1)
    ]

pub build-IsWellFormed :
    (s : TokenLayerKvMap) (seqs : List ℕ)
    → IsWellFormed s
    → IsWellFormed (build_layer_group_plans seqs s).1
unfolding build_layer_group_plans
build-IsWellFormed s seqs w = plan_groups-IsWellFormed seqs (layer_groups s) [] s w
