-- ===== src/Shared/Source.antt =====
-- modules/quotes/rules.py and modules/comparison/scoring.py: `_value` and the integer checks. A
-- source is a mapping; an object with attributes is read the same way.
use Prim.Native.Char.{code}
use hackathon_open_ai.Prelude.{
  ℕ, pos, String, Bool, true, false, Option, none, some, List, [], ◌∷◌, str_eq, if◌then◌else◌, leb,
  ◌&&◌, ◌||◌, ◌==◌, is_space, is_blank, ◌+◌, map, not, negsuc,
}
use hackathon_open_ai.Value.{Value, Values, Fields}
use hackathon_open_ai.Shared.Errors.{Checked, pass, fail, ExecutionCode}

unfoldable pub field? : String → Fields → Option Value
field? name Fields.end = none
field? name (Fields.field key value rest) = if str_eq key name then some value else field? name rest

-- `_value(source, field, default)`
unfoldable pub value_or : Fields → String → Value → Value
unfolding field?
value_or source name default = elim (field? name source) [ none ↦ default | some v ↦ v ]

-- `_value(source, field)`
unfoldable pub value : Fields → String → Checked Value
unfolding field?
value source name = elim (field? name source) [
  | none ↦ fail ExecutionCode.validation_error
  | some v ↦ pass v
]

-- `_require_non_negative_integer` of rules.py, `_non_negative_integer` and `_money` of scoring.py.
unfoldable pub non_negative_integer : Value → Checked ℕ
non_negative_integer (Value.int (pos n)) = pass n
non_negative_integer _ = fail ExecutionCode.validation_error

-- `value is True`
abbrev pub is_true : Value → Bool
is_true (Value.bool true) = true
is_true _ = false

-- The code points of a text.
abbrev pub codes : String → List ℕ
codes String.[] = []
codes (String.◌∷◌ c s) = code c ∷ codes s

drop_spaces : String → String
drop_spaces String.[] = String.[]
drop_spaces (String.◌∷◌ c s) =
    let rest = drop_spaces s in if is_space (code c) then rest else String.◌∷◌ c s

drop_trailing_spaces : String → String
unfolding is_blank
drop_trailing_spaces String.[] = String.[]
drop_trailing_spaces (String.◌∷◌ c s) =
    let rest = drop_trailing_spaces s in
    if is_space (code c) && is_blank s then String.[] else String.◌∷◌ c rest

-- `text.strip()`
unfoldable pub strip : String → String
unfolding drop_spaces drop_trailing_spaces
strip s = drop_trailing_spaces (drop_spaces s)

-- `str.lower`, as far as it leads to Latin letters of one byte: the capitals A to Z and À to Þ, the
-- Kelvin sign and the Angstrom sign. The rest stays as it is, and so spells no name.
unfoldable pub lower : ℕ → ℕ
lower c =
    if leb b'A' c && leb c b'Z'
    then c + 32
    else if leb 0xC0 c && leb c 0xDE && not (c == 0xD7)
    then c + 32
    else if c == 0x212A
    then b'k'
    else if c == 0x212B
    then 0xE5
    else c

unfoldable pub same_codes : List ℕ → List ℕ → Bool
same_codes [] [] = true
same_codes (c ∷ cs) (d ∷ ds) = c == d && same_codes cs ds
same_codes _ _ = false

-- `text.strip().lower() == name`
unfoldable pub spells : String → String → Bool
unfolding strip lower same_codes
spells s name = same_codes (map lower (codes (strip s))) (codes name)

-- `text.strip().lower() in names`
unfoldable pub spells_any : String → List String → Bool
unfolding spells
spells_any s [] = false
spells_any s (name ∷ names) = spells s name || spells_any s names

-- `_enum_value(value) == name`, and so for `_status_score`: nothing but a text, or an enum of texts,
-- reads as a status.
unfoldable pub reads : Value → String → Bool
unfolding spells
reads (Value.text s) name = spells s name
reads _ name = false

-- `bool(value)`
unfoldable pub truthy : Value → Bool
truthy Value.null = false
truthy (Value.bool b) = b
truthy (Value.int z) = elim z [ pos n ↦ not (n == 0) | negsuc n ↦ true ]
truthy (Value.text s) = elim s [ String.[] ↦ false | String.◌∷◌ c t ↦ true ]
truthy (Value.list vs) = elim vs [ Values.nil ↦ false | Values.cons v ws ↦ true ]
truthy (Value.dict fs) = elim fs [ Fields.end ↦ false | Fields.field k v gs ↦ true ]
truthy (Value.datetime m) = true
truthy (Value.iso t) = true
