-- ===== src/Push/Pairing.antt =====
-- Pairing loses nothing and invents nothing: a move weighs what its deletion and its creation weigh.
use mathlib.Core.Path.{subst}
use mathlib.Core.Option.{some-injective}
use discodrive_apps.Base.{
  ℕ, zero, suc, ◌+◌, ◌≤◌, ◌<◌, ◌≡◌, refl, ◌∙◌, ap, sym, inl, inr, Bool, true, false, Option, none,
  some, List, [], ◌∷◌, Str, if◌then◌else◌, ◌==◌, ==_iff, arith, Bool-cases,
}
use discodrive_apps.Push.{
  LocalChange, Op, create, delete, move, Queue, Moves, is_source, is_target, deletes_by_hash,
  taken_by, moved_from, consumed, source_of, change_at, move_to, rewritten, pair_local_moves,
}
use discodrive_apps.Push.Queues.{
  Entries, Distinct, Suffix, Suffix-tail, Suffix-head, Pairs, moved_from-Pairs,
  deletes_by_hash-Entries, source_of_lower, Sound, taken_by-Sound, taken_by-target,
}

source_of_self : (i j : ℕ) (m : Moves) → source_of i ((i, j) ∷ m) ≡ some j
unfolding source_of
source_of_self i j m = ground arith

source_of_later : (i j k : ℕ) (m : Moves) → suc i ≤ k → source_of k ((i, j) ∷ m) ≡ source_of k m
unfolding source_of
source_of_later i j k m h = ground arith

-- `w` counts what happens to a path: a creation, an update or a deletion of content with a hash. A
-- move is a deletion of its old path and a creation of its new one.
module _ (w : Op → Str → Bool → Str → ℕ) where
  abbrev pub weight_of : Op → LocalChange → ℕ
  weight_of move c = w delete c.old_rel_path c.is_dir c.hash + w create c.rel_path c.is_dir c.hash
  weight_of o c = w o c.rel_path c.is_dir c.hash

  abbrev pub weight : LocalChange → ℕ
  weight c = weight_of c.op c

  abbrev pub tally : List LocalChange → ℕ
  tally [] = 0
  tally (c ∷ cs) = weight c + tally cs

  abbrev weight_at : Option LocalChange → ℕ
  weight_at none = 0
  weight_at (some c) = weight c

  module _ (all : List LocalChange) where
    abbrev tally_pairs : Moves → ℕ
    tally_pairs [] = 0
    tally_pairs ((i, j) ∷ m) = weight_at (change_at all j) + tally_pairs m

    -- The weight of the consumed changes from the index `i` on.
    tally_consumed : Moves → ℕ → List LocalChange → ℕ
    tally_consumed m i [] = 0
    tally_consumed m i (c ∷ cs) =
        (if consumed i m then weight c else 0) + tally_consumed m (suc i) cs

    weight-source :
        (d : LocalChange) → is_source d ≡ true → weight d ≡ w delete d.rel_path false d.hash
    weight-source d s = ground arith

    weight-target :
        (c : LocalChange) → is_target c ≡ true → weight c ≡ w create c.rel_path false c.hash
    weight-target c t = ground arith

    weight-move :
        (c d : LocalChange)
        → is_target c ≡ true
        → is_source d ≡ true
        → d.hash ≡ c.hash
        → weight (move_to c d.rel_path) ≡ weight d + weight c
    weight-move c d t s h = rw (weight-source d s, weight-target c t, h)

    target-ne-source : (c : LocalChange) → is_target c ≡ true → is_source c ≡ true → ⊥
    target-ne-source c t s = ground arith

    -- The changes consumed by `m` are deletions.
    abbrev Sources : Moves → Type 0
    Sources m =
        (k : ℕ) (d : LocalChange)
        → consumed k m ≡ true
        → change_at all k ≡ some d
        → is_source d ≡ true

    abbrev Agree : ℕ → Moves → Moves → Type 0
    Agree i m n = (k : ℕ) → i ≤ k → source_of k m ≡ source_of k n

    Balance : Moves → ℕ → List LocalChange → Moves → Type 0
    Balance M i cs m =
        tally (rewritten all M i cs) + tally_consumed M i cs ≡ tally cs + tally_pairs m

    Balance-none :
        (M : Moves) (i : ℕ) (c : LocalChange) (cs : List LocalChange) (m : Moves)
        → source_of i M ≡ none
        → Balance M (suc i) cs m
        → Balance M i (c ∷ cs) m
    unfolding Balance rewritten tally_consumed
    Balance-none M i c cs m e b = elim (Bool-cases (consumed i M)) [
      | inl t ↦ rw t (omega arith)
      | inr t ↦ rw (t, e) (omega arith)
    ]

    Balance-some :
        (M : Moves) (i : ℕ) (c : LocalChange) (cs : List LocalChange) (m : Moves) (j : ℕ)
        (d : LocalChange)
        → consumed i M ≡ false
        → source_of i M ≡ some j
        → change_at all j ≡ some d
        → weight (move_to c d.rel_path) ≡ weight d + weight c
        → Balance M (suc i) cs m
        → Balance M i (c ∷ cs) ((i, j) ∷ m)
    unfolding Balance rewritten tally_consumed
    Balance-some M i c cs m j d kept e found h b = rw (kept, e, found) (omega arith)

    Balance-moved_from :
        (M : Moves) (i : ℕ) (cs : List LocalChange) (q : Queue)
        → Sources M
        → Suffix all i cs
        → Entries all q
        → Distinct q
        → Agree i M (moved_from i cs q)
        → Balance M i cs (moved_from i cs q)
    Balance-moved_from M i [] q so su en di ag =
        unfold Balance rewritten tally_consumed moved_from in refl
    Balance-moved_from M i (c ∷ cs) q so su en di ag =
        go (taken_by c q) refl (taken_by-Sound all c q en di) ag
          (λ q'. Balance-moved_from M (suc i) cs q' so (Suffix-tail all i c cs su))
      where
        kept : is_target c ≡ true → consumed i M ≡ false
        kept t = elim (Bool-cases (consumed i M)) [
          | inl x ↦ absurd (target-ne-source c t (so i c x (Suffix-head all i c cs su)))
          | inr x ↦ x
        ]

        go :
            (o : Option (ℕ × Queue))
            → taken_by c q ≡ o
            → Sound all c.hash q o
            → Agree i M (moved_from i (c ∷ cs) q)
            → ((q' : Queue)
                → Entries all q'
                → Distinct q'
                → Agree (suc i) M (moved_from (suc i) cs q')
                → Balance M (suc i) cs (moved_from (suc i) cs q'))
            → Balance M i (c ∷ cs) (moved_from i (c ∷ cs) q)
        go none e s agree ih =
            let stays : moved_from i (c ∷ cs) q ≡ moved_from (suc i) cs q =
              unfold moved_from in rw e in
            let agree' : Agree i M (moved_from (suc i) cs q) = rw stays at agree in
            rw stays (
              Balance-none M i c cs (moved_from (suc i) cs q)
                (agree' i (omega arith) ∙ source_of_lower (suc i) i cs q (omega arith))
                (ih q en di (λ k le. agree' k (omega arith))))
        go (some (j, q')) e s agree ih =
            let m = moved_from (suc i) cs q' in
            let adds : moved_from i (c ∷ cs) q ≡ (i, j) ∷ m = unfold moved_from in rw e in
            let agree' : Agree i M ((i, j) ∷ m) = rw adds at agree in
            let target = taken_by-target all c q (j, q') e in
            rw adds (
              Balance-some M i c cs m j s.entry.at (kept target)
                (agree' i (omega arith) ∙ source_of_self i j m) s.entry.found
                (weight-move c s.entry.at target s.entry.source s.entry.hash)
                (ih q' s.entries s.distinct
                  (λ k le. agree' k (omega arith) ∙ source_of_later i j k m le)))

    -- The weight of the change at the index `j`, if it is from the index `i` on.
    tally_single : ℕ → ℕ → List LocalChange → ℕ
    tally_single j i [] = 0
    tally_single j i (c ∷ cs) = (if j == i then weight c else 0) + tally_single j (suc i) cs

    tally_single_past : (j i : ℕ) (cs : List LocalChange) → j < i → tally_single j i cs ≡ 0
    unfolding tally_single
    tally_single_past j i [] h = refl
    tally_single_past j i (c ∷ cs) h = ground (arith, tally_single_past j (suc i) cs)

    tally_single-change_at :
        (i k : ℕ) (cs : List LocalChange) → tally_single (i + k) i cs ≡ weight_at (change_at cs k)
    unfolding tally_single change_at
    tally_single-change_at i k [] = refl
    tally_single-change_at i zero (c ∷ cs) = ground (arith, tally_single_past (i + 0) (suc i) cs)
    tally_single-change_at i (suc k) (c ∷ cs) =
        let next : tally_single (i + suc k) (suc i) cs ≡ weight_at (change_at cs k) =
          ap (λ j. tally_single j (suc i) cs) (omega arith) ∙ tally_single-change_at (suc i) k cs in
        ground (arith, next)

    tally_consumed-cons :
        (a j : ℕ) (m : Moves) (i : ℕ) (cs : List LocalChange)
        → consumed j m ≡ false
        → tally_consumed ((a, j) ∷ m) i cs ≡ tally_single j i cs + tally_consumed m i cs
    unfolding tally_consumed tally_single consumed
    tally_consumed-cons a j m i [] h = refl
    tally_consumed-cons a j m i (c ∷ cs) h = elim (Bool-cases (j == i)) [
      | inl e ↦
          let free : consumed i m ≡ false =
            subst (λ k. consumed k m ≡ false) ((==_iff j i).0 e) h in
          rw (e, free) (omega (arith, tally_consumed-cons a j m (suc i) cs h))
      | inr e ↦ rw e (omega (arith, tally_consumed-cons a j m (suc i) cs h))
    ]

    tally_consumed-nil : (i : ℕ) (cs : List LocalChange) → tally_consumed [] i cs ≡ 0
    unfolding tally_consumed consumed
    tally_consumed-nil i [] = refl
    tally_consumed-nil i (c ∷ cs) = omega (arith, tally_consumed-nil (suc i) cs)

    tally_consumed-Pairs : (m : Moves) → Pairs all m → tally_consumed m 0 all ≡ tally_pairs m
    tally_consumed-Pairs [] p = tally_consumed-nil 0 all
    tally_consumed-Pairs ((a, j) ∷ m) (_, fresh, p) =
        tally_consumed-cons a j m 0 all fresh
        ∙ rw (← tally_consumed-Pairs m p) (
            ap (λ x. x + tally_consumed m 0 all)
              (ap (λ k. tally_single k 0 all) (omega arith) ∙ tally_single-change_at 0 j all))

    same_source : (d e : LocalChange) → is_source e ≡ true → d ≡ e → is_source d ≡ true
    same_source d e s p = subst (λ x. is_source x ≡ true) (sym p) s

    Sources-of_Pairs : (m : Moves) → Pairs all m → Sources m
    unfolding consumed
    Sources-of_Pairs [] p k d h f = cc
    Sources-of_Pairs ((a, j) ∷ m) ((_, entry, _), _, p) k d h f = elim (Bool-cases (j == k)) [
      | inl e ↦
          same_source d entry.at entry.source
            (some-injective _ _ (sym f ∙ ap (change_at all) (sym ((==_iff j k).0 e)) ∙ entry.found))
      | inr e ↦ Sources-of_Pairs m p k d (rw e at h) f
    ]

  pair_tally :
      (changes : List LocalChange)
      → tally (pair_local_moves changes)
        ≡ tally (rewritten changes (moved_from 0 changes (deletes_by_hash 0 changes)) 0 changes)
  unfolding pair_local_moves
  pair_tally changes = refl

  cancel : (a b c d : ℕ) → a + b ≡ c + d → b ≡ d → a ≡ c
  cancel a b c d h k = omega arith

  -- Pairing deletions and creations of the same content into moves keeps every count of what happens to
  -- the paths: however creations, updates and deletions are weighed by path, kind and hash, the
  -- changes weigh as much after the pairing as before, where a move weighs what the deletion of its
  -- old path and the creation of its new path weigh.
  pub tally-pair_local_moves :
      (changes : List LocalChange) → tally (pair_local_moves changes) ≡ tally changes
  tally-pair_local_moves changes =
      let queues = deletes_by_hash 0 changes in
      let m = moved_from 0 changes queues in
      let whole : Suffix changes 0 changes = λ k. ap (change_at changes) (omega arith) in
      let (en, di) = deletes_by_hash-Entries changes 0 changes whole in
      let pairs = moved_from-Pairs changes 0 changes queues whole en di in
      let balance : tally (rewritten changes m 0 changes) + tally_consumed changes m 0 changes
          ≡ tally changes + tally_pairs changes m =
        unfold Balance in
        Balance-moved_from changes m 0 changes queues (Sources-of_Pairs changes m pairs) whole en di
          (λ k le. refl) in
      pair_tally changes ∙ cancel _ _ _ _ balance (tally_consumed-Pairs changes m pairs)
