-- ===== src/EllmBlockManager/Reaches.antt =====
-- The loop of `append_slots` ends: the map catches up with the sequence, or a token cannot be appended.
use e_llm.Prelude.{
  ℕ, zero, suc, ◌+◌, ◌≡◌, refl, ap, ◌∙◌, ◌≤◌, ◌⊎◌, inl, inr, some, List, [], ◌++◌, ltb, nat_eq,
  arith, Bool-cases, ltb_false→le,
}
use e_llm.Dict.{get}
use e_llm.Dict.Laws.{get-put}
use e_llm.Exec.{Result, Error, ok, err}
use e_llm.KvMap.{TokenLayerKvMap}
use e_llm.KvMap.Queries.{get_sequence_length}
use e_llm.KvMap.Sequences.{append_token}
use e_llm.KvMap.WellFormed.{IsWellFormed}
use e_llm.KvMap.WellFormed.Growth.{append_lem}
use e_llm.Sequence.{Sequence, get_len}
use e_llm.EllmBlockManager.{EllmBlockSpaceManager, grow, append_slots}

-- The map has caught up with the length, or appending a token to some state of the map has raised.
abbrev pub CaughtUp : ℕ → ℕ → Result (List (ℕ × ℕ × ℕ)) × TokenLayerKvMap → Type 0
CaughtUp seq_id length r =
    ((copies : List (ℕ × ℕ × ℕ)) × (s' : TokenLayerKvMap) × (n : ℕ) × (r ≡ (ok copies, s'))
      × IsWellFormed s'
      × (get seq_id s'.sequence_lengths ≡ some n)
      × (length ≤ n))
    ⊎ ((e : Error) × (s' t : TokenLayerKvMap) × (r ≡ (err e, s'))
        × (append_token seq_id t ≡ (err e, s')))

grow_lem :
    (fuel seq_id length n : ℕ) (copies : List (ℕ × ℕ × ℕ)) (s : TokenLayerKvMap)
    → IsWellFormed s
    → get seq_id s.sequence_lengths ≡ some n
    → length ≤ n + fuel
    → CaughtUp seq_id length (grow fuel seq_id length copies s)
unfolding grow get_sequence_length
grow_lem zero seq_id length n copies s w known enough =
    inl (copies, s, n, rw known (ground arith), w, known, omega arith)
grow_lem (suc fuel) seq_id length n copies s w known enough =
    let again = grow_lem fuel seq_id length (n + 1) in
    elim (Bool-cases (ltb n length)) [
      | inr done ↦ inl (copies, s, n, rw known (rw done refl), w, known, ltb_false→le n length done)
      | inl more ↦ elim (append_lem s w seq_id n known) [
        | inr (e, s', ran, _, _, _) ↦ inr (e, s', s, rw known (rw more (rw ran refl)), ran)
        | inl (new, s1, ran, w1, lengths, _, _) ↦
            let known1 : get seq_id s1.sequence_lengths ≡ some (n + 1) =
              ap (get seq_id) lengths
              ∙ get-put seq_id seq_id (n + 1) s.sequence_lengths
              ∙ ground arith in
            rw known (rw more (rw ran (again (copies ++ new) s1 w1 known1 (omega arith))))
      ]
    ]

-- On a known sequence of a manager whose map is well formed, `append_slots` without lookahead
-- returns with the map at least as long as the sequence and well formed, or raises what
-- `append_token` raised; its loop never runs out of rounds.
pub append_slots-CaughtUp :
    (m : EllmBlockSpaceManager) (seq : Sequence) (n : ℕ)
    → IsWellFormed m.cache_map
    → get seq.seq_id m.cache_map.sequence_lengths ≡ some n
    → CaughtUp seq.seq_id
        (get_len seq)
        ((append_slots seq 0 m).0, (append_slots seq 0 m).1.cache_map)
unfolding append_slots
append_slots-CaughtUp m seq n w known =
    grow_lem (get_len seq) seq.seq_id (get_len seq) n [] m.cache_map w known (omega arith)
