-- ===== src/KvMap/WellFormed/CopyOnWrite.antt =====
-- The first loop of an append into a tail block: a block in reserve for each group whose tail block
-- is shared.
use e_llm.Prelude.{
  ℕ, ◌≡◌, refl, sym, ap, ◌∙◌, subst, ◌⊎◌, inl, inr, false, Option, some, none, nat_eq, nat_beq,
  if◌then◌else◌, arith, List, [], ◌∷◌,
}
use e_llm.Exec.{Result, Error, ok, err}
use e_llm.Dict.{Dict, get, contains}
use e_llm.Dict.Laws.{Distinct, Distinct-put, get-put, get-none, contains-put}
use e_llm.Dict.Keys.{mem, Unique, Absent}
use e_llm.KvMap.{TokenLayerKvMap, key_eq}
use e_llm.KvMap.Sequences.{copy_tail, collect_cow, add_cow}
use e_llm.KvMap.Accounts.{Accounts, Same, held, nothing}
use e_llm.KvMap.WellFormed.TailCopies.{
  Same-refl, Same-trans, owed, release_cow_lem, tail_key, Ready, copy_tail_lem,
}

-- All groups: each is ready, or the reserve is back and the loop raises.
abbrev pub AllReady : TokenLayerKvMap → ℕ → ℕ → Dict ℕ ℕ → List ℕ → Type 0
AllReady s seq block cow [] = Unit {0}
AllReady s seq block cow (g ∷ gs) = Ready s seq block g (get g cow) × AllReady s seq block cow gs

abbrev pub Collects :
    TokenLayerKvMap → ℕ → ℕ → Dict ℕ ℕ → List ℕ → Result (Dict ℕ ℕ) × TokenLayerKvMap → Type 0
Collects s seq block cow gs r =
    ((cow' : Dict ℕ ℕ) × (s' : TokenLayerKvMap) × (r ≡ (ok cow', s'))
      × Accounts (owed cow') s'
      × Same s s'
      × AllReady s seq block cow' gs
      × ((g : ℕ) → mem g gs ≡ false → get g cow' ≡ get g cow))
    ⊎ ((e : Error) × (s' : TokenLayerKvMap) × (r ≡ (err e, s')) × Accounts nothing s' × Same s s')

module _ (seq block : ℕ) where
  Ready-Same :
      {s s' : TokenLayerKvMap} (g : ℕ) (new : Option ℕ)
      → Same s s'
      → Ready s' seq block g new
      → Ready s seq block g new
  Ready-Same {s} {s'} g new same (e, found, inl (none_new, once)) = (
    e,
    ap (get (tail_key seq block g)) (sym same.entries) ∙ found,
    inl (
      none_new,
      omega (
        arith,
        once,
        ap (held g e.physical_block_id) same.entries,
        ap (held g e.physical_block_id) same.temporary_entries,
      ),
    ),
  )
  Ready-Same {s} {s'} g new same (e, found, inr (b, some_new, unheld)) = (
    e,
    ap (get (tail_key seq block g)) (sym same.entries) ∙ found,
    inr (
      b,
      some_new,
      omega (arith, unheld, ap (held g b) same.entries, ap (held g b) same.temporary_entries),
    ),
  )

  pub AllReady-Same :
      {s s' : TokenLayerKvMap} (cow : Dict ℕ ℕ) (gs : List ℕ)
      → Same s s'
      → AllReady s' seq block cow gs
      → AllReady s seq block cow gs
  AllReady-Same cow [] same r = tt
  AllReady-Same cow (g ∷ gs) same r =
      (Ready-Same g (get g cow) same r.0, AllReady-Same cow gs same r.1)

  get-add_cow :
      (cow : Dict ℕ ℕ) (g h : ℕ) (new : Option ℕ)
      → contains g cow ≡ false
      → get h (add_cow cow g new) ≡ (if nat_beq g h then new else get h cow)
  get-add_cow cow g h none fresh = ground (arith, get-none g cow fresh)
  get-add_cow cow g h (some b) fresh = get-put g h b cow

  Distinct-add_cow :
      (cow : Dict ℕ ℕ) (g : ℕ) (new : Option ℕ) → Distinct cow → Distinct (add_cow cow g new)
  Distinct-add_cow cow g none d = d
  Distinct-add_cow cow g (some b) d = Distinct-put g b cow d

  Absent-add_cow :
      (cow : Dict ℕ ℕ) (g : ℕ) (new : Option ℕ) (gs : List ℕ)
      → mem g gs ≡ false
      → Absent gs cow
      → Absent gs (add_cow cow g new)
  Absent-add_cow cow g new [] out ab = tt
  Absent-add_cow cow g none (h ∷ gs) out ab = ab
  Absent-add_cow cow g (some b) (h ∷ gs) out ab = (
    contains-put g h b cow ∙ ground (arith, ab.0),
    Absent-add_cow cow g (some b) gs (ground arith) ab.1,
  )

  after_copy :
      (g : ℕ) (gs : List ℕ) (s s1 : TokenLayerKvMap) (cow : Dict ℕ ℕ) (new : Option ℕ)
      → mem g gs ≡ false
      → contains g cow ≡ false
      → copy_tail seq block g s ≡ (ok new, s1)
      → Same s s1
      → Ready s seq block g new
      → Collects s1 seq block
          (add_cow cow g new)
          gs
          (collect_cow seq block gs (add_cow cow g new) s1)
      → Collects s seq block cow (g ∷ gs) (collect_cow seq block (g ∷ gs) cow s)
  unfolding collect_cow
  after_copy g gs s s1 cow new out fresh ran same ready
        (inl (cow', s', ran', acc, same', all, outside)) =
      inl (
        cow',
        s',
        rw ran ran',
        acc,
        Same-trans same same',
        (
          subst (Ready s seq block g)
              (sym (outside g out ∙ get-add_cow cow g g new fresh ∙ ground arith)) ready,
          AllReady-Same cow' gs same all,
        ),
        λ h n. ground (arith, outside h, get-add_cow cow g h new fresh),
      )
  after_copy g gs s s1 cow new out fresh ran same ready (inr (e, s', ran', acc, same')) =
      inr (e, s', rw ran ran', acc, Same-trans same same')

  pub collect_cow_lem :
      (gs : List ℕ) (s : TokenLayerKvMap) (cow : Dict ℕ ℕ)
      → Accounts (owed cow) s
      → Distinct cow
      → Unique gs
      → Absent gs cow
      → Collects s seq block cow gs (collect_cow seq block gs cow s)
  unfolding collect_cow
  collect_cow_lem [] s cow a d u ab = inl (cow, s, refl, a, Same-refl s, tt, λ g n. refl)
  collect_cow_lem (g ∷ gs) s cow a d u ab = elim (copy_tail_lem s cow a seq block g ab.0) [
    | inl (new, s1, ran, a1, same, ready) ↦ after_copy g gs s s1 cow new u.0 ab.0 ran same ready (
        collect_cow_lem gs s1 (add_cow cow g new) a1 (Distinct-add_cow cow g new d) u.1
          (Absent-add_cow cow g new gs u.0 ab.1))
    | inr (e, failed) ↦
        let (s', ran, acc, same) = release_cow_lem cow s d a in
        inr (e, s', rw failed (rw ran), acc, same)
  ]
