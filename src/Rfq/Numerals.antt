-- ===== src/Rfq/Numerals.antt =====
-- Numbers and times as text: `f"{n:04d}"`, `date.isoformat`, `time.strftime("%H:%M")`.
use Prim.Native.String.{slice}
use hackathon_open_ai.Prelude.{
  ℕ, zero, suc, ◌/◌, ◌%◌, ◌-◌, String, true, false, ltb, str_append, count,
}

unfoldable pub digit : ℕ → String
digit n = slice "0123456789" n (suc n)

-- The fuel bounds the number of digits; the number itself is enough.
unfoldable pub digits : ℕ → ℕ → String
unfolding digit
digits zero n = digit n
digits (suc fuel) n = elim (ltb n 10) [
  | true ↦ digit n
  | false ↦ str_append (digits fuel (n / 10)) (digit (n % 10))
]

-- `str(n)`
unfoldable pub numeral : ℕ → String
unfolding digits
numeral n = digits n n

unfoldable pub zeros : ℕ → String
zeros zero = ""
zeros (suc n) = str_append "0" (zeros n)

-- `f"{n:0{width}d}"`
unfoldable pub padded : ℕ → ℕ → String
unfolding zeros numeral
padded width n = let text = numeral n in str_append (zeros (width - count text)) text

pub record Date : Type 0 where
  pub year : ℕ
  pub month : ℕ
  pub day : ℕ

-- `date.isoformat()`
unfoldable pub date_text : Date → String
unfolding padded
date_text d =
    str_append (padded 4 d.year)
      (str_append "-" (str_append (padded 2 d.month) (str_append "-" (padded 2 d.day))))

pub record Time : Type 0 where
  pub hour : ℕ
  pub minute : ℕ
  pub second : ℕ
  pub microsecond : ℕ

-- `time.strftime("%H:%M")`
unfoldable pub hour_and_minute : Time → String
unfolding padded
hour_and_minute t = str_append (padded 2 t.hour) (str_append ":" (padded 2 t.minute))
