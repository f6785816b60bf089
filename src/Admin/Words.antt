-- ===== src/Admin/Words.antt =====
-- Texts of gumble's admin commands (admin.go): what strings and strconv make of them. A text is the list
-- of its runes.
use Prim.Native.Char.{code}
use Prim.Native.String.{String}
use barnard_stormdragon_ai_f.Prelude.{
  ℕ, zero, suc, ◌+◌, ◌-◌, ◌*◌, ◌^◌, List, [], ◌∷◌, ◌++◌, Option, none, some, ◌&&◌, if◌then◌else◌,
  ltb, leb, ◌==◌,
}
use barnard_stormdragon_ai_f.Ui.Textview.{is_space}
use barnard_stormdragon_ai_f.Prelude.Int.{ℤ, pos, negsuc}

abbrev pub codes : String → List ℕ
codes String.[] = []
codes (String.◌∷◌ c s) = code c ∷ codes s

-- A field in progress, and the fields behind it.
unfoldable pub end_field : List ℕ → List (List ℕ) → List (List ℕ)
end_field [] rest = rest
end_field (c ∷ word) rest = (c ∷ word) ∷ rest

unfoldable pub fields_from : List ℕ → List ℕ → List (List ℕ)
unfolding end_field
fields_from word [] = end_field word []
fields_from word (c ∷ text) =
    let ended = end_field word (fields_from [] text) in
    let longer = fields_from (word ++ (c ∷ [])) text in if is_space c then ended else longer

-- `strings.Fields`
abbrev pub fields : List ℕ → List (List ℕ)
fields text = fields_from [] text

-- `strings.Join` with a space.
unfoldable pub join : List (List ℕ) → List ℕ
join [] = []
join (word ∷ []) = word
join (word ∷ next ∷ rest) = word ++ (0x20 ∷ join (next ∷ rest))

-- The value of some decimal digits behind a value.
unfoldable pub digits_from : ℕ → List ℕ → Option ℕ
digits_from value [] = some value
digits_from value (c ∷ text) =
    let rest = digits_from (value * 10 + (c - 48)) text in
    if leb 48 c && leb c 57 then rest else none

unfoldable pub under : ℕ → Option ℕ → Option ℕ
under bound none = none
under bound (some n) = if ltb n bound then some n else none

unfoldable pub decimal : List ℕ → Option ℕ
decimal [] = none
decimal (c ∷ text) = digits_from 0 (c ∷ text)

-- `strconv.ParseUint(text, 10, 32)`
unfoldable pub parse_uint32 : List ℕ → Option ℕ
parse_uint32 text = under (2 ^ 32) (decimal text)

-- The opposite of a number up to 2 ^ 63.
unfoldable pub negative : Option ℕ → Option ℤ
negative none = none
negative (some zero) = some (pos 0)
negative (some (suc n)) = some (negsuc n)

unfoldable pub natural : Option ℕ → Option ℤ
natural none = none
natural (some n) = some (pos n)

-- `strconv.ParseInt(text, 10, 64)`, and `strconv.Atoi`.
unfoldable pub parse_int64 : List ℕ → Option ℤ
parse_int64 [] = none
parse_int64 (c ∷ text) =
    if c == 0x2D
    then negative (under (2 ^ 63 + 1) (decimal text))
    else if c == 0x2B
    then natural (under (2 ^ 63) (decimal text))
    else natural (under (2 ^ 63) (decimal (c ∷ text)))
