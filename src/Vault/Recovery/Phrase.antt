-- ===== src/Vault/Recovery/Phrase.antt =====
-- A phrase falls into the words that it was joined from.
use discodrive_apps.Base.{ℕ, ◌≡◌, refl, sym, ap, ◌∙◌, true, false, List, [], ◌∷◌, ◌++◌, Str, All}
use mathlib.Core.List.{append-nil}
use discodrive_apps.Vault.Recovery.{is_space, join_words, ends_here, lengthened, fields}

pub record IsWord (w : Str) : Type 0 where
  pub letters : All (λ c. is_space c ≡ false) w
  pub not_empty : (c : ℕ) × (s : Str) × (w ≡ c ∷ s)

fields-end :
    (c : ℕ) (s : Str)
    → is_space c ≡ false
    → ends_here s ≡ true
    → fields (c ∷ s) ≡ (c ∷ []) ∷ fields s
unfolding fields
fields-end c s h k = rw (h, k)

fields-letter :
    (c : ℕ) (s : Str)
    → is_space c ≡ false
    → ends_here s ≡ false
    → fields (c ∷ s) ≡ lengthened c (fields s)
unfolding fields
fields-letter c s h k = rw (h, k)

fields-word :
    (c : ℕ) (w s : Str)
    → All (λ x. is_space x ≡ false) (c ∷ w)
    → ends_here s ≡ true
    → fields ((c ∷ w) ++ s) ≡ (c ∷ w) ∷ fields s
fields-word c [] s h k = fields-end c s h.0 k
fields-word c (d ∷ w) s h k =
    fields-letter c ((d ∷ w) ++ s) h.0 h.1.0 ∙ ap (lengthened c) (fields-word d w s h.1 k)

fields-IsWord : (w s : Str) → IsWord w → ends_here s ≡ true → fields (w ++ s) ≡ w ∷ fields s
fields-IsWord [] s h k = let (c, w, e) = h.not_empty in cc
fields-IsWord (c ∷ w) s h k = fields-word c w s h.letters k

fields-space : (s : Str) → fields (32 ∷ s) ≡ fields s
unfolding fields
fields-space s = refl

fields-nil : fields [] ≡ []
unfolding fields
fields-nil = refl

pub fields-join_words : (ws : List Str) → All IsWord ws → fields (join_words ws) ≡ ws
unfolding join_words
fields-join_words [] h = fields-nil
fields-join_words (w ∷ []) h =
    ap fields (sym (append-nil w)) ∙ fields-IsWord w [] h.0 refl ∙ ap (λ r. w ∷ r) fields-nil
fields-join_words (w ∷ v ∷ ws) h =
    fields-IsWord w (32 ∷ join_words (v ∷ ws)) h.0 refl
    ∙ ap (λ r. w ∷ r) (fields-space (join_words (v ∷ ws)) ∙ fields-join_words (v ∷ ws) h.1)
