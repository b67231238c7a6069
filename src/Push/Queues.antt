-- ===== src/Push/Queues.antt =====
-- The queues of deletions, and the pairs that are taken from them.
use mathlib.Core.Option.{none-ne-some}
use discodrive_apps.Base.{
  ℕ, suc, ◌+◌, ◌<◌, ◌≡◌, refl, ◌∙◌, ap, inl, inr, true, false, Option, none, some, List, [], ◌∷◌,
  Str, str_eq, str_eq_iff, ◌==◌, ==_iff, arith, Bool-cases,
}
use discodrive_apps.Push.{
  LocalChange, Queue, Moves, is_source, is_target, deletes_by_hash, dequeue, pushed_back, taken_by,
  queues_after, with_pair, moved_from, consumed, source_of, change_at,
}

-- No entry of the queues is for the index `j`.
abbrev pub Absent : ℕ → Queue → Type 0
Absent j [] = Unit
Absent j ((k, h) ∷ q) = ((k == j) ≡ false) × Absent j q

abbrev pub Distinct : Queue → Type 0
Distinct [] = Unit
Distinct ((j, h) ∷ q) = Absent j q × Distinct q

module _ (all : List LocalChange) where
  -- The index of a deletion of a file with the hash `h`.
  pub record Entry (j : ℕ) (h : Str) : Type 0 where
    pub at : LocalChange
    pub found : change_at all j ≡ some at
    pub source : is_source at ≡ true
    pub hash : at.hash ≡ h

  abbrev pub Entries : Queue → Type 0
  Entries [] = Unit
  Entries ((j, h) ∷ q) = Entry j h × Entries q

  -- What leaves the queue of `h` is an entry for `h`, and was in the queues once.
  pub record Dequeued (h : Str) (q : Queue) (j : ℕ) (q' : Queue) : Type 0 where
    pub entry : Entry j h
    pub entries : Entries q'
    pub gone : Absent j q'
    pub distinct : Distinct q'
    pub keeps_absent : (k : ℕ) → Absent k q → (((j == k) ≡ false) × Absent k q')

  abbrev pub Sound : Str → Queue → Option (ℕ × Queue) → Type 0
  Sound h q none = Unit
  Sound h q (some (j, q')) = Dequeued h q j q'

  Sound-first :
      (h g : Str) (i : ℕ) (q : Queue)
      → Entries ((i, g) ∷ q)
      → Distinct ((i, g) ∷ q)
      → g ≡ h
      → Dequeued h ((i, g) ∷ q) i q
  Sound-first h g i q (en, ens) (fresh, di) same = record {
    entry = rw same at en;
    entries = ens;
    gone = fresh;
    distinct = di;
    keeps_absent = λ k a. a;
  }

  Sound-later :
      (h g : Str) (i : ℕ) (q : Queue) (o : Option (ℕ × Queue))
      → Entries ((i, g) ∷ q)
      → Distinct ((i, g) ∷ q)
      → Sound h q o
      → Sound h ((i, g) ∷ q) (pushed_back (i, g) o)
  Sound-later h g i q none en di s = tt
  Sound-later h g i q (some (j, q')) (en, ens) (fresh, di) s = record {
    entry = s.entry;
    entries = (en, s.entries);
    gone = (ground (arith, (s.keeps_absent i fresh).0, ==_iff i j, ==_iff j i), s.gone);
    distinct = ((s.keeps_absent i fresh).1, s.distinct);
    keeps_absent = λ k (n, a). let (m, b) = s.keeps_absent k a in (m, (n, b));
  }

  dequeue-Sound : (h : Str) (q : Queue) → Entries q → Distinct q → Sound h q (dequeue h q)
  unfolding dequeue
  dequeue-Sound h [] en di = tt
  dequeue-Sound h ((i, g) ∷ q) en di = elim (Bool-cases (str_eq g h)) [
    | inl same ↦ rw same (Sound-first h g i q en di ((str_eq_iff g h).0 same))
    | inr other ↦ rw other (Sound-later h g i q (dequeue h q) en di (dequeue-Sound h q en.1 di.1))
  ]

  -- The pair that the change `c` at the index `i` adds, and the queues after it.
  pub taken_by-Sound :
      (c : LocalChange) (q : Queue) → Entries q → Distinct q → Sound c.hash q (taken_by c q)
  taken_by-Sound c q en di = elim (Bool-cases (is_target c)) [
    | inl e ↦ rw e (dequeue-Sound c.hash q en di)
    | inr e ↦ rw e tt
  ]

  -- The changes from the index `i` on.
  abbrev pub Suffix : ℕ → List LocalChange → Type 0
  Suffix i cs = (k : ℕ) → change_at all (i + k) ≡ change_at cs k

  pub Suffix-tail :
      (i : ℕ) (c : LocalChange) (cs : List LocalChange) → Suffix i (c ∷ cs) → Suffix (suc i) cs
  unfolding change_at
  Suffix-tail i c cs h k = ap (change_at all) (omega arith) ∙ h (suc k)

  pub Suffix-head :
      (i : ℕ) (c : LocalChange) (cs : List LocalChange)
      → Suffix i (c ∷ cs)
      → change_at all i ≡ some c
  unfolding change_at
  Suffix-head i c cs h = ap (change_at all) (omega arith) ∙ h 0

  pub deletes_by_hash-Absent :
      (i k : ℕ) (cs : List LocalChange) → k < i → Absent k (deletes_by_hash i cs)
  unfolding deletes_by_hash
  deletes_by_hash-Absent i k [] h = tt
  deletes_by_hash-Absent i k (c ∷ cs) h =
      let rest = deletes_by_hash-Absent (suc i) k cs (omega arith) in
      elim (Bool-cases (is_source c)) [ inl e ↦ rw e (ground arith, rest) | inr e ↦ rw e rest ]

  pub deletes_by_hash-Entries :
      (i : ℕ) (cs : List LocalChange)
      → Suffix i cs
      → Entries (deletes_by_hash i cs) × Distinct (deletes_by_hash i cs)
  unfolding deletes_by_hash
  deletes_by_hash-Entries i [] h = (tt, tt)
  deletes_by_hash-Entries i (c ∷ cs) h =
      let (en, di) = deletes_by_hash-Entries (suc i) cs (Suffix-tail i c cs h) in
      elim (Bool-cases (is_source c)) [
        | inl e ↦ rw e (
          (record { at = c; found = Suffix-head i c cs h; source = e; hash = refl }, en),
          (deletes_by_hash-Absent (suc i) i cs (omega arith), di),
        )
        | inr e ↦ rw e (en, di)
      ]

  -- The deletions of the pairs are entries for the hashes, each of them once.
  abbrev pub Pairs : Moves → Type 0
  Pairs [] = Unit
  Pairs ((i, j) ∷ m) =
      ((h : Str) × Entry j h
        × ((c : LocalChange) × (change_at all i ≡ some c) × (is_target c ≡ true) × (c.hash ≡ h)))
      × (consumed j m ≡ false)
      × Pairs m

  consumed-Absent :
      (i k : ℕ) (cs : List LocalChange) (q : Queue)
      → Entries q
      → Distinct q
      → Absent k q
      → consumed k (moved_from i cs q) ≡ false
  unfolding consumed moved_from
  consumed-Absent i k [] q en di a = refl
  consumed-Absent i k (c ∷ cs) q en di a =
      go (taken_by c q) (taken_by-Sound c q en di) (consumed-Absent (suc i) k cs)
    where
      go :
          (o : Option (ℕ × Queue))
          → Sound c.hash q o
          → ((q' : Queue)
              → Entries q'
              → Distinct q'
              → Absent k q'
              → consumed k (moved_from (suc i) cs q') ≡ false)
          → consumed k (with_pair i o (moved_from (suc i) cs (queues_after q o))) ≡ false
      go none s ih = ih q en di a
      go (some (j, q')) s ih =
          let (n, b) = s.keeps_absent k a in rw n (ih q' s.entries s.distinct b)

  pub taken_by-target :
      (c : LocalChange) (q : Queue) (o : ℕ × Queue) → taken_by c q ≡ some o → is_target c ≡ true
  taken_by-target c q o e = elim (Bool-cases (is_target c)) [
    | inl t ↦ t
    | inr t ↦ absurd (none-ne-some o (rw t at e))
  ]

  pub moved_from-Pairs :
      (i : ℕ) (cs : List LocalChange) (q : Queue)
      → Suffix i cs
      → Entries q
      → Distinct q
      → Pairs (moved_from i cs q)
  unfolding moved_from
  moved_from-Pairs i [] q su en di = tt
  moved_from-Pairs i (c ∷ cs) q su en di =
      go (taken_by c q) refl (taken_by-Sound c q en di)
        (λ q'. moved_from-Pairs (suc i) cs q' (Suffix-tail i c cs su))
    where
      go :
          (o : Option (ℕ × Queue))
          → taken_by c q ≡ o
          → Sound c.hash q o
          → ((q' : Queue) → Entries q' → Distinct q' → Pairs (moved_from (suc i) cs q'))
          → Pairs (with_pair i o (moved_from (suc i) cs (queues_after q o)))
      go none e s ih = ih q en di
      go (some (j, q')) e s ih = (
        (c.hash, s.entry, (c, Suffix-head i c cs su, taken_by-target c q (j, q') e, refl)),
        consumed-Absent (suc i) j cs q' s.entries s.distinct s.gone,
        ih q' s.entries s.distinct,
      )

pub source_of_lower :
    (i k : ℕ) (cs : List LocalChange) (q : Queue) → k < i → source_of k (moved_from i cs q) ≡ none
unfolding source_of moved_from
source_of_lower i k [] q h = refl
source_of_lower i k (c ∷ cs) q h =
    go (taken_by c q) (λ q'. source_of_lower (suc i) k cs q' (omega arith))
  where
    go :
        (o : Option (ℕ × Queue))
        → ((q' : Queue) → source_of k (moved_from (suc i) cs q') ≡ none)
        → source_of k (with_pair i o (moved_from (suc i) cs (queues_after q o))) ≡ none
    go none ih = ih q
    go (some (j, q')) ih = ground (arith, ih q')
