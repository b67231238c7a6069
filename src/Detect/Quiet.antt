-- ===== src/Detect/Quiet.antt =====
-- A scan that reports nothing has compared everything.
use discodrive_apps.Base.{
  ◌≡◌, refl, ◌∙◌, ap, inl, inr, true, false, Option, none, some, List, [], ◌∷◌, ◌++◌, Str,
  str_eq_iff, length, All, arith, Bool-cases,
}
use discodrive_apps.Base.Exec.{Error, Result, ok, err, pure, ◌>>=◌}
use discodrive_apps.Index.{Node}
use discodrive_apps.World.{World, Info, Visit}
use discodrive_apps.Push.{LocalChange}
use discodrive_apps.Detect.{
  Found, must_rel, known_at, dir_change, file_change, skipped, visit, joined, scan, member, missing,
  diff,
}

module _ (W : World) (root : Str) (known : List Node) (s : W.State) where
  -- The entry is one that takes no part, or a folder at whose path the index has a node, which may be that
  -- of a file, as DetectLocal does not look at its kind, or a file whose hash is that of the index.
  pub data Compared (p : Str) (fi : Info) : Type 0 where
    apart : skipped W root known p fi ≡ true → Compared p fi
    dir_at_node :
        (n : Node) → fi.is_dir ≡ true → known_at (must_rel root p) known ≡ some n → Compared p fi
    same_file :
        (n : Node) (bytes : Str)
        → fi.is_dir ≡ false
        → known_at (must_rel root p) known ≡ some n
        → (W.read p s).0 ≡ ok bytes
        → n.content_hash ≡ W.sha256_hex bytes
        → Compared p fi

  abbrev pub Matches : Visit → Type 0
  Matches v = (fi : Info) × (v.entry ≡ ok fi) × Compared v.path fi

  module _ (still : (p : Str) → (W.read p s).1 ≡ s) where
    visit_dir :
        (p : Str) (fi : Info)
        → skipped W root known p fi ≡ false
        → fi.is_dir ≡ true
        → visit W root known p (ok fi) s ≡ (
          ok (
              some
                (must_rel root p, dir_change (must_rel root p) (known_at (must_rel root p) known))),
          s,
        )
    unfolding visit
    visit_dir p fi k d = rw (k, d)

    visit_file :
        (p : Str) (fi : Info)
        → skipped W root known p fi ≡ false
        → fi.is_dir ≡ false
        → (r : Result Str) → (W.read p s).0 ≡ r
        → visit W root known p (ok fi) s ≡ (elim r as (λ _. Result Found × W.State) [
          | ok bytes ↦ (
            ok (
                some (
                  must_rel root p,
                  file_change
                      (must_rel root p)
                      (W.sha256_hex bytes)
                      (length bytes)
                      (known_at (must_rel root p) known),
                )),
            s,
          )
          | err e ↦ (err e, s)
        ])
    unfolding visit
    visit_file p fi k d (ok bytes) e = rw (k, d, e, still p)
    visit_file p fi k d (err x) e = rw (k, d, e, still p)

    abbrev changes_of : Found → List LocalChange
    changes_of none = []
    changes_of (some (rel, cs)) = cs

    -- A visit changes nothing outside; if it finds no change the entry has been compared.
    abbrev Quiet : Str → Result Info → Result Found × W.State → Type 0
    Quiet p entry r =
        (r.1 ≡ s)
        × ((f : Found)
            → r.0 ≡ ok f
            → changes_of f ≡ []
            → (fi : Info) × (entry ≡ ok fi) × Compared p fi)

    dir-Quiet :
        (p : Str) (fi : Info) (o : Option Node)
        → fi.is_dir ≡ true
        → known_at (must_rel root p) known ≡ o
        → Quiet p (ok fi) (ok (some (must_rel root p, dir_change (must_rel root p) o)), s)
    dir-Quiet p fi none d e = (refl, λ f h k. absurd (ground arith))
    dir-Quiet p fi (some n) d e = (refl, λ f h k. (fi, refl, dir_at_node n d e))

    file-Quiet :
        (p : Str) (fi : Info) (bytes : Str) (o : Option Node)
        → fi.is_dir ≡ false
        → (W.read p s).0 ≡ ok bytes
        → known_at (must_rel root p) known ≡ o
        → Quiet p (ok fi) (
          ok (
              some (
                must_rel root p,
                file_change (must_rel root p) (W.sha256_hex bytes) (length bytes) o,
              )),
          s,
        )
    file-Quiet p fi bytes none d r e = (refl, λ f h k. absurd (ground arith))
    file-Quiet p fi bytes (some n) d r e = (
      refl,
      λ f h k. (
        fi,
        refl,
        same_file n bytes d e r (ground (arith, str_eq_iff n.content_hash (W.sha256_hex bytes))),
      ),
    )

    visit-Quiet : (p : Str) (entry : Result Info) → Quiet p entry (visit W root known p entry s)
    unfolding visit
    visit-Quiet p (err e) = (refl, λ f h k. cc)
    visit-Quiet p (ok fi) = elim (Bool-cases (skipped W root known p fi)) [
      | inl k ↦ rw k (refl, λ f h e. (fi, refl, apart k))
      | inr k ↦ elim (Bool-cases fi.is_dir) [
        | inl d ↦ rw (visit_dir p fi k d) (dir-Quiet p fi (known_at (must_rel root p) known) d refl)
        | inr d ↦ go (W.read p s).0 refl k d
      ]
    ]
      where
        go :
            (r : Result Str)
            → (W.read p s).0 ≡ r
            → skipped W root known p fi ≡ false
            → fi.is_dir ≡ false
            → Quiet p (ok fi) (visit W root known p (ok fi) s)
        go (ok bytes) e k d =
            rw (visit_file p fi k d (ok bytes) e)
              (file-Quiet p fi bytes (known_at (must_rel root p) known) d e refl)
        go (err x) e k d = rw (visit_file p fi k d (err x) e) (refl, λ f h n. cc)

    abbrev changes_in : Result (List Str × List LocalChange) → List LocalChange
    changes_in (ok found) = found.1
    changes_in (err e) = []

    abbrev ScanQuiet : List Visit → Result (List Str × List LocalChange) × W.State → Type 0
    ScanQuiet vs r =
        (r.1 ≡ s)
        × ((found : List Str × List LocalChange) → r.0 ≡ ok found → found.1 ≡ [] → All Matches vs)

    at_once : {A : Type 0} (x : Result A × W.State) (r : Result A) → x.0 ≡ r → x.1 ≡ s → x ≡ (r, s)
    at_once x r e k = λ i. (e i, k i)

    nil_of_append :
        (f : Found) (rest : List Str × List LocalChange)
        → (joined W root known f rest).1 ≡ []
        → (changes_of f ≡ []) × (rest.1 ≡ [])
    nil_of_append none rest h = (refl, h)
    nil_of_append (some (rel, [])) rest h = (refl, h)
    nil_of_append (some (rel, c ∷ cs)) rest h = absurd (ground arith)

    scan-Quiet : (vs : List Visit) → ScanQuiet vs (scan W root known vs s)
    unfolding scan
    scan-Quiet [] = (refl, λ found h k. tt)
    scan-Quiet (v ∷ vs) =
        first (visit W root known v.path v.entry s).0 refl (visit-Quiet v.path v.entry)
          (scan-Quiet vs)
      where
        second :
            (f : Found)
            → ((visit W root known v.path v.entry s) ≡ (ok f, s))
            → (changes_of f ≡ [] → Matches v)
            → (r : Result (List Str × List LocalChange)) → (scan W root known vs s).0 ≡ r
            → ScanQuiet vs (scan W root known vs s)
            → ScanQuiet (v ∷ vs) (scan W root known (v ∷ vs) s)
        second f e m (err x) h (k, ih) =
            rw (e, at_once (scan W root known vs s) (err x) h k) (refl, λ found b n. cc)
        second f e m (ok rest) h (k, ih) =
            rw (e, at_once (scan W root known vs s) (ok rest) h k)
              (
                refl,
                λ found b n.
                    let (nil, nils) =
                      nil_of_append f rest
                        (ap (λ (x : Result (List Str × List LocalChange)). changes_in x) b ∙ n) in
                    (m nil, ih rest h nils),
              )

        first :
            (r : Result Found)
            → (visit W root known v.path v.entry s).0 ≡ r
            → Quiet v.path v.entry (visit W root known v.path v.entry s)
            → ScanQuiet vs (scan W root known vs s)
            → ScanQuiet (v ∷ vs) (scan W root known (v ∷ vs) s)
        first (err x) e (k, q) ih =
            rw (at_once (visit W root known v.path v.entry s) (err x) e k) (refl, λ found b n. cc)
        first (ok f) e (k, q) ih =
            second f (at_once (visit W root known v.path v.entry s) (ok f) e k) (λ n. q f e n)
              (scan W root known vs s).0 refl ih

  missing-nil :
      (seen : List Str) (ns : List Node)
      → missing W root known seen ns ≡ []
      → All (λ n. member W root known n.rel_path seen ≡ true) ns
  unfolding missing
  missing-nil seen [] h = tt
  missing-nil seen (n ∷ ns) h = elim (Bool-cases (member W root known n.rel_path seen)) [
    | inl e ↦ (e, missing-nil seen ns (rw e at h))
    | inr e ↦ absurd (cons-ne-nil (rw e at h))
  ]
    where
      cons-ne-nil : {c : LocalChange} {cs : List LocalChange} → c ∷ cs ≡ [] → ⊥
      cons-ne-nil e = cc

  -- What a scan that reports nothing has established.
  pub record InStep (visits : List Visit) : Type 0 where
    pub compared : All Matches visits
    pub found : List Str × List LocalChange
    pub scanned : (scan W root known visits s).0 ≡ ok found
    pub met : All (λ n. member W root known n.rel_path found.0 ≡ true) known

  nil_parts : (xs ys : List LocalChange) → xs ++ ys ≡ [] → (xs ≡ []) × (ys ≡ [])
  nil_parts [] ys h = (refl, h)
  nil_parts (x ∷ xs) ys h = absurd (ground arith)

  err-ne-ok : (e : Error) → ◌≡◌ {A = Result (List LocalChange)} (err e) (ok []) → ⊥
  err-ne-ok e h = cc

  ok_nil : (xs : List LocalChange) → ◌≡◌ {A = Result (List LocalChange)} (ok xs) (ok []) → xs ≡ []
  ok_nil xs h = cc

  -- If neither the walk nor reading a file changes anything and the scan reports no change, then every
  -- entry of the folder is one that takes no part (the root, a temporary file, system junk, a symlink), a
  -- folder at whose path the index has a node (of a folder or of a file: a file that was replaced by a
  -- folder is not reported), or a file whose hash is that of the index at its path; and the path of every
  -- node of the index was met.
  pub diff-InStep :
      ((p : Str) → (W.read p s).1 ≡ s)
      → (visits : List Visit) → W.walk root s ≡ (ok visits, s)
      → (diff W root known s).0 ≡ ok []
      → InStep visits
  unfolding diff
  diff-InStep still visits w h = go (scan W root known visits s).0 refl (rw w at h)
    where
      go :
          (r : Result (List Str × List LocalChange))
          → (scan W root known visits s).0 ≡ r
          → ((scan W root known visits >>= λ found.
                pure (found.1 ++ missing W root known found.0 known))
              s).0
            ≡ ok []
          → InStep visits
      go (err e) k h = absurd (err-ne-ok e (rw k at h))
      go (ok found) k h =
          let (none_found, none_gone) =
            nil_parts found.1 (missing W root known found.0 known) (ok_nil _ (rw k at h)) in
          record {
            compared = (scan-Quiet still visits).1 found k none_found;
            found = found;
            scanned = k;
            met = missing-nil found.0 known none_gone;
          }
