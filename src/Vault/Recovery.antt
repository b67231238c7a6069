-- ===== src/Vault/Recovery.antt =====
-- daemon/internal/vault/recovery.go: the keys of a vault as a phrase of words. The tables wordList and
-- wordIndex, which are filled from an embedded file, and crc32.ChecksumIEEE are parameters.
pub mod Phrase
pub mod RoundTrip
use discodrive_apps.Base.{
  ℕ, zero, suc, ◌+◌, ◌*◌, ◌/◌, ◌%◌, ◌<◌, ◌≡◌, Bool, true, false, ◌||◌, ◌&&◌, Option, none, some,
  List, [], ◌∷◌, ◌++◌, Str, length, take, drop, leb, ◌==◌, str_eq, if◌then◌else◌, All,
}
use discodrive_apps.Base.Exec.{Result, ok, err, bad_format, auth_failed}
use discodrive_apps.Vault.Siv.{copied}

pub record WordList : Type 0 where
  pub word : ℕ → Str
  pub index : Str → Option ℕ

-- The spaces of ASCII, at which strings.Fields cuts.
abbrev pub is_space : ℕ → Bool
is_space c = c == 32 || (leb 9 c && leb c 13)

-- What the program checks of its list and relies on: 4096 different words without spaces.
pub record IsWordList (w : WordList) : Type 0 where
  pub index-word : (i : ℕ) → i < 4096 → w.index (w.word i) ≡ some i
  pub letters : (i : ℕ) → i < 4096 → All (λ c. is_space c ≡ false) (w.word i)
  pub not_empty : (i : ℕ) → i < 4096 → (c : ℕ) × (s : Str) × (w.word i ≡ c ∷ s)

-- strings.Join(out, " ")
unfoldable pub join_words : List Str → Str
join_words [] = []
join_words (w ∷ []) = w
join_words (w ∷ v ∷ ws) = w ++ 32 ∷ join_words (v ∷ ws)

abbrev pub ends_here : Str → Bool
ends_here [] = true
ends_here (c ∷ s) = is_space c

abbrev pub lengthened : ℕ → List Str → List Str
lengthened c [] = []
lengthened c (w ∷ ws) = (c ∷ w) ∷ ws

-- strings.Fields
unfoldable pub fields : Str → List Str
fields [] = []
fields (c ∷ s) =
    let rest = fields s in
    if is_space c then rest else (if ends_here s then (c ∷ []) ∷ rest else lengthened c rest)

module _ (w : WordList) where
  -- Two words of twelve bits for each three bytes.
  unfoldable pub words_of : List ℕ → List Str
  words_of [] = []
  words_of (b1 ∷ []) = []
  words_of (b1 ∷ b2 ∷ []) = []
  words_of (b1 ∷ b2 ∷ b3 ∷ bs) =
      w.word (b1 * 16 + b2 / 16) ∷ w.word ((b2 % 16) * 256 + b3) ∷ words_of bs

  -- It panics unless the length is a multiple of three.
  unfoldable pub word_encode : List ℕ → Result Str
  word_encode bytes =
      if length bytes % 3 == 0 then ok (join_words (words_of bytes)) else err bad_format

  abbrev pub three_bytes : Option ℕ → Option ℕ → Result (List ℕ) → Result (List ℕ)
  three_bytes none o rest = err bad_format
  three_bytes (some w1) none rest = err bad_format
  three_bytes (some w1) (some w2) (err e) = err e
  three_bytes (some w1) (some w2) (ok bs) =
      ok (((w1 / 16) % 256) ∷ ((w1 % 16) * 16 + (w2 / 256) % 16) ∷ (w2 % 256) ∷ bs)

  unfoldable pub bytes_of : List Str → Result (List ℕ)
  bytes_of [] = ok []
  bytes_of (v ∷ []) = err bad_format
  bytes_of (v1 ∷ v2 ∷ vs) = three_bytes (w.index v1) (w.index v2) (bytes_of vs)

  unfoldable pub word_decode : Str → Result (List ℕ)
  word_decode phrase =
      let words = fields phrase in
      if length words == 0
      then err bad_format
      else if length words % 2 == 0
      then bytes_of words
      else err bad_format

  module _ (crc : List ℕ → ℕ) where
    abbrev pub checksum : List ℕ → List ℕ
    checksum raw = (crc raw % 256) ∷ ((crc raw / 256) % 256) ∷ []

    unfoldable pub recovery_key : List ℕ → List ℕ → Result Str
    recovery_key enc_key mac_key =
        let raw = copied 32 enc_key ++ copied 32 mac_key in word_encode (raw ++ checksum raw)

    abbrev pub keys_of : Result (List ℕ) → Result (List ℕ × List ℕ)
    keys_of (err e) = err e
    keys_of (ok payload) =
        let raw = take 64 payload in
        if length payload == 66
        then (if str_eq (drop 64 payload) (checksum raw)
            then ok (take 32 raw, drop 32 raw)
            else err auth_failed)
        else err bad_format

    unfoldable pub recovery_to_keys : Str → Result (List ℕ × List ℕ)
    recovery_to_keys phrase = keys_of (word_decode phrase)
