-- ===== src/Push/Order.antt =====
-- The order in which local changes are sent: parents are made before what is below them, files
-- leave a folder before it is deleted.
use mathlib.Core.List.{Perm}
use discodrive_apps.Base.{
  ℕ, ◌+◌, ◌≤◌, ◌<◌, ◌≡◌, true, false, List, [], ◌∷◌, ◌++◌, Str, count_byte, All, arith,
}
use discodrive_apps.Base.Sort.{SortedBy, sort-perm, sort-SortedBy}
use discodrive_apps.Go.FilePath.{slash}
use discodrive_apps.Push.{LocalChange, depth, rank, sent_before, in_order}

sent_before_asym : (a b : LocalChange) → sent_before a b ≡ true → sent_before b a ≡ false
unfolding sent_before
sent_before_asym a b h = ground arith

sent_before_trans :
    (a b c : LocalChange)
    → sent_before b a ≡ false
    → sent_before c b ≡ false
    → sent_before c a ≡ false
unfolding sent_before
sent_before_trans a b c h k = ground arith

count-append : (c : ℕ) (s t : Str) → count_byte c (s ++ t) ≡ count_byte c s + count_byte c t
unfolding count_byte
count-append c [] t = omega arith
count-append c (a ∷ s) t = omega (arith, count-append c s t)

slash_counts : (q t : Str) → count_byte slash q < count_byte slash (q ++ slash ∷ t)
unfolding count_byte
slash_counts q t = omega (arith, count-append slash q (slash ∷ t))

-- `p` is a path below `q`.
abbrev pub IsBelow : Str → Str → Type 0
IsBelow p q = (t : Str) × (p ≡ q ++ slash ∷ t)

depth_below : (p q : Str) → IsBelow p q → depth q < depth p
depth_below p q (t, e) = rw e (slash_counts q t)

-- What may stand in front of what.
pub record Fits (x y : LocalChange) : Type 0 where
  pub ranks : rank x.op ≤ rank y.op
  pub parents_first : rank x.op ≡ rank y.op → rank x.op < 2 → ¬ IsBelow x.rel_path y.rel_path
  pub children_first : rank x.op ≡ 2 → rank y.op ≡ 2 → ¬ IsBelow y.rel_path x.rel_path

Fits-of_order : (x y : LocalChange) → sent_before y x ≡ false → Fits x y
unfolding sent_before
Fits-of_order x y h = record {
  ranks = ground arith;
  parents_first = λ e l b. ground (arith, depth_below x.rel_path y.rel_path b);
  children_first = λ e l b. ground (arith, depth_below y.rel_path x.rel_path b);
}

abbrev pub AllFit : List LocalChange → Type 0
AllFit [] = Unit
AllFit (x ∷ xs) = All (Fits x) xs × AllFit xs

AllFit-of_sorted : (xs : List LocalChange) → SortedBy sent_before xs → AllFit xs
AllFit-of_sorted [] h = tt
AllFit-of_sorted (x ∷ xs) h = (each xs h.0, AllFit-of_sorted xs h.1)
  where
    each : (ys : List LocalChange) → All (λ y. sent_before y x ≡ false) ys → All (Fits x) ys
    each [] k = tt
    each (y ∷ ys) k = (Fits-of_order x y k.0, each ys k.1)

-- What is sent is a permutation of the changes in which creations and updates come before moves and
-- moves before deletions; among changes of one of the first two kinds no path comes before one that
-- it lies below, and among deletions no path comes before one that lies below it.
pub in_order_fits :
    (changes : List LocalChange) → Perm (in_order changes) changes × AllFit (in_order changes)
unfolding in_order
in_order_fits changes = (
  sort-perm sent_before changes,
  AllFit-of_sorted _ (sort-SortedBy sent_before sent_before_asym sent_before_trans changes),
)
