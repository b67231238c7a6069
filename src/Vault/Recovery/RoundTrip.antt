-- ===== src/Vault/Recovery/RoundTrip.antt =====
-- The keys come back from their phrase.
use discodrive_apps.Base.{
  ℕ, zero, suc, ◌+◌, ◌*◌, ◌/◌, ◌%◌, ◌<◌, ◌≡◌, refl, ◌∙◌, true, false, List, [], ◌∷◌, ◌++◌, Str,
  length, take, drop, ◌==◌, str_eq_self, All, All-append, arith, length-append, take-append,
  drop-append,
}
use discodrive_apps.Base.Exec.{ok}
use discodrive_apps.Vault.Siv.{copied}
use discodrive_apps.Vault.Recovery.{
  WordList, IsWordList, join_words, words_of, word_encode, bytes_of, word_decode, checksum,
  recovery_key, recovery_to_keys,
}
use discodrive_apps.Vault.Recovery.Phrase.{IsWord, fields-join_words}

abbrev pub IsByte : ℕ → Type 0
IsByte b = b < 256

module _ (w : WordList) (laws : IsWordList w) where
  IsWord-word : (i : ℕ) → i < 4096 → IsWord (w.word i)
  IsWord-word i h = record { letters = laws.letters i h; not_empty = laws.not_empty i h }

  AreWords-words_of : (bs : List ℕ) → All IsByte bs → All IsWord (words_of w bs)
  unfolding words_of
  AreWords-words_of [] h = tt
  AreWords-words_of (a ∷ []) h = tt
  AreWords-words_of (a ∷ b ∷ []) h = tt
  AreWords-words_of (a ∷ b ∷ c ∷ bs) (h, (k, (l, r))) =
      (IsWord-word _ (omega arith), (IsWord-word _ (omega arith), AreWords-words_of bs r))

  bytes_of-words_of :
      (n : ℕ) (bs : List ℕ) → length bs ≡ 3 * n → All IsByte bs → bytes_of w (words_of w bs) ≡ ok bs
  unfolding words_of bytes_of
  bytes_of-words_of n [] l h = refl
  bytes_of-words_of n (a ∷ []) l h = absurd (omega arith)
  bytes_of-words_of n (a ∷ b ∷ []) l h = absurd (omega arith)
  bytes_of-words_of zero (a ∷ b ∷ c ∷ bs) l h = absurd (omega arith)
  bytes_of-words_of (suc n) (a ∷ b ∷ c ∷ bs) l (h, (k, (m, r))) =
      let first : ((a * 16 + b / 16) / 16) % 256 ≡ a = omega arith in
      let second : ((a * 16 + b / 16) % 16) * 16 + (((b % 16) * 256 + c) / 256) % 16 ≡ b =
        omega arith in
      let third : ((b % 16) * 256 + c) % 256 ≡ c = omega arith in
      rw (
        laws.index-word (a * 16 + b / 16) (omega arith),
        laws.index-word ((b % 16) * 256 + c) (omega arith),
        bytes_of-words_of n bs (omega arith) r,
        first,
        second,
        third,
      )

  length-words_of : (n : ℕ) (bs : List ℕ) → length bs ≡ 3 * n → length (words_of w bs) ≡ 2 * n
  unfolding words_of
  length-words_of zero [] l = refl
  length-words_of (suc n) [] l = absurd (omega arith)
  length-words_of n (a ∷ []) l = absurd (omega arith)
  length-words_of n (a ∷ b ∷ []) l = absurd (omega arith)
  length-words_of zero (a ∷ b ∷ c ∷ bs) l = absurd (omega arith)
  length-words_of (suc n) (a ∷ b ∷ c ∷ bs) l = omega (arith, length-words_of n bs (omega arith))

  word_decode-words :
      (n : ℕ) (bs : List ℕ)
      → length bs ≡ 3 * suc n
      → All IsByte bs
      → word_decode w (join_words (words_of w bs)) ≡ ok bs
  unfolding word_decode
  word_decode-words n bs l h =
      let count = length-words_of (suc n) bs l in
      let some_words : (length (words_of w bs) == 0) ≡ false = ground arith in
      let even : (length (words_of w bs) % 2 == 0) ≡ true = ground arith in
      rw (fields-join_words (words_of w bs) (AreWords-words_of bs h), some_words, even)
        (bytes_of-words_of (suc n) bs l h)

  module _ (crc : List ℕ → ℕ) where
    -- The phrase of a payload with its checksum.
    recovery_to_keys-payload :
        (raw : List ℕ)
        → length raw ≡ 64
        → All IsByte raw
        → recovery_to_keys w crc (join_words (words_of w (raw ++ checksum w crc raw)))
          ≡ ok (take 32 raw, drop 32 raw)
    unfolding recovery_to_keys
    recovery_to_keys-payload raw l h =
        let n : length (raw ++ checksum w crc raw) ≡ 66 =
          omega (arith, length-append raw (checksum w crc raw)) in
        let size : (length (raw ++ checksum w crc raw) == 66) ≡ true = ground arith in
        let bytes : All IsByte (raw ++ checksum w crc raw) =
          All-append IsByte raw (checksum w crc raw) h (omega arith, (omega arith, tt)) in
        rw (
          word_decode-words 21 (raw ++ checksum w crc raw) n bytes,
          size,
          take-append raw (checksum w crc raw) l,
          drop-append raw (checksum w crc raw) l,
          str_eq_self (checksum w crc raw),
        )

    copied_all : (n : ℕ) (xs : List ℕ) → length xs ≡ n → copied n xs ≡ xs
    copied_all n xs h = take-append xs _ h

    -- The recovery phrase of two keys of 32 bytes exists, and the phrase gives back both keys.
    pub recovery_to_keys-recovery_key :
        (enc_key mac_key : List ℕ)
        → length enc_key ≡ 32
        → length mac_key ≡ 32
        → All IsByte enc_key
        → All IsByte mac_key
        → (phrase : Str) × (recovery_key w crc enc_key mac_key ≡ ok phrase)
          × (recovery_to_keys w crc phrase ≡ ok (enc_key, mac_key))
    unfolding recovery_key word_encode
    recovery_to_keys-recovery_key enc_key mac_key l m h k =
        let raw = enc_key ++ mac_key in
        let size : length raw ≡ 64 = omega (arith, length-append enc_key mac_key) in
        let payload : length (raw ++ checksum w crc raw) ≡ 66 =
          omega (arith, length-append raw (checksum w crc raw)) in
        let three : (length (raw ++ checksum w crc raw) % 3 == 0) ≡ true = ground arith in
        (
          join_words (words_of w (raw ++ checksum w crc raw)),
          rw (copied_all 32 enc_key l, copied_all 32 mac_key m, three),
          recovery_to_keys-payload raw size (All-append IsByte enc_key mac_key h k)
              ∙ rw (take-append enc_key mac_key l, drop-append enc_key mac_key l),
        )
