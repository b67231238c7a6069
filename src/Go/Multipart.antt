-- ===== src/Go/Multipart.antt =====
-- multipart.Writer as the program uses it: what its calls write for a boundary. A writer remembers
-- whether it has begun a part.
use discodrive_apps.Base.{
  ℕ, Bool, true, false, ◌&&◌, ◌||◌, [], ◌∷◌, ◌++◌, Str, codes, length, leb, ◌==◌, if◌then◌else◌,
}
use discodrive_apps.Go.Url.{is_alphanumeric}

abbrev pub crlf : Str
crlf = 13 ∷ 10 ∷ []

abbrev in_boundary : ℕ → Bool
in_boundary c =
    (leb 39 c && leb c 41)
    || ((leb 43 c && leb c 47)
        || ((c == 58) || ((c == 61) || ((c == 63) || ((c == 95) || (c == 32))))))

-- A space is not the last character.
unfoldable pub valid_boundary : Str → Bool
valid_boundary [] = true
valid_boundary (c ∷ []) = is_alphanumeric c || (in_boundary c && (if c == 32 then false else true))
valid_boundary (c ∷ d ∷ s) = (is_alphanumeric c || in_boundary c) && valid_boundary (d ∷ s)

-- SetBoundary accepts it.
abbrev pub is_boundary : Str → Bool
is_boundary b = leb 1 (length b) && (leb (length b) 70 && valid_boundary b)

-- Quotes and backslashes in a name.
unfoldable pub escape_quotes : Str → Str
escape_quotes [] = []
escape_quotes (c ∷ s) = (if (c == 34) || (c == 92) then 92 ∷ c ∷ [] else c ∷ []) ++ escape_quotes s

-- The line before a part, the first one or a later one.
abbrev pub delimiter : Str → Bool → Str
delimiter b true = codes "--" ++ b ++ crlf
delimiter b false = crlf ++ codes "--" ++ b ++ crlf

abbrev pub disposition : Str → Str
disposition name =
    codes "Content-Disposition: form-data; name=" ++ 34 ∷ escape_quotes name ++ 34 ∷ []

-- WriteField
abbrev pub write_field : Str → Bool → Str → Str → Str
write_field b first name value = delimiter b first ++ disposition name ++ crlf ++ crlf ++ value

-- CreateFormFile; the bytes of the file follow.
abbrev pub create_form_file : Str → Bool → Str → Str → Str
create_form_file b first name file =
    delimiter b first
    ++ disposition name
    ++ codes "; filename="
    ++ 34 ∷ escape_quotes file
    ++ 34 ∷ crlf
    ++ codes "Content-Type: application/octet-stream"
    ++ crlf
    ++ crlf

-- Close
abbrev pub close : Str → Str
close b = crlf ++ codes "--" ++ b ++ codes "--" ++ crlf
