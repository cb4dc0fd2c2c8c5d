-- ===== src/Wastage/Rules/Helpers.antt =====
-- Helpers of backend/app/wastage/rules/azure.py: names of resource groups, SKUs and ages.
use Prim.Native.Char.{code}
use finna_app.Prelude.{
  ℕ, ◌+◌, ◌-◌, ◌*◌, ◌/◌, ◌%◌, String, Bool, false, ◌&&◌, ◌||◌, Option, none, some, List, ◌∷◌, ◌==◌,
  eqb, ltb, leb, if◌then◌else◌, codes, lower, upper, is_infix,
}
use finna_app.Python.Decimal.{Decimal}
use finna_app.Python.Value.{str, Fields, get_or, as_text, Builtins}
use finna_app.Python.Try.{Try, ok, ◌>>=◌}

-- `row.get("resource_type", "").lower()`
unfoldable pub row_type : Fields → Try String
unfolding get_or
row_type row = do kind ← as_text (get_or row "resource_type" (str "")); ok (lower kind)

-- `_NONPROD_RE.search`, ignoring the case of ASCII letters
unfoldable pub is_nonprod_rg : String → Bool
unfolding codes lower is_infix
is_nonprod_rg resource_group =
    let name = codes (lower resource_group) in
    is_infix (codes "dev") name
    || is_infix (codes "test") name
    || is_infix (codes "stage") name
    || is_infix (codes "staging") name
    || is_infix (codes "uat") name
    || is_infix (codes "qa") name

expensive : List ℕ → Bool
expensive (c ∷ d ∷ rest) =
    (eqb c b'S' && leb b'1' d && leb d b'3') || (eqb c b'P' && leb b'0' d && leb d b'9')
expensive _ = false

-- `re.match(r"^(S[1-3]|P\d)", sku_name, re.IGNORECASE)`, for ASCII digits
unfoldable pub is_expensive : String → Bool
unfolding codes upper expensive
is_expensive sku_name = expensive (codes (upper sku_name))

-- `ts.rstrip("Z")`
unfoldable pub rstrip_z : String → String
rstrip_z String.[] = ""
rstrip_z (String.◌∷◌ c s) =
    let rest = rstrip_z s in if rest == "" && eqb (code c) b'Z' then "" else String.◌∷◌ c rest

abbrev first_some : Option ℕ → Option ℕ → Option ℕ
first_some (some a) o = some a
first_some none o = o

-- A time in microseconds since the epoch: the first of the three formats that fits.
unfoldable pub parse_iso : Builtins → String → Option ℕ
unfolding rstrip_z
parse_iso py ts =
    if ts == ""
    then none
    else let t = rstrip_z ts in
      first_some (py.strptime t "%Y-%m-%dT%H:%M:%S.%f")
        (first_some (py.strptime t "%Y-%m-%dT%H:%M:%S") (py.strptime t "%Y-%m-%d"))

-- The age in microseconds; that of a time to come is 0, where the code has a negative number.
unfoldable pub age : Builtins → ℕ → String → Option ℕ
unfolding parse_iso
age py now ts = elim (parse_iso py ts) [ none ↦ none | some t ↦ some (now - t) ]

abbrev pub day : ℕ
day = 86_400_000_000

-- `round(age, 1)`: days to one decimal place, ties to the even tenth.
unfoldable pub round_days : ℕ → Decimal
round_days micros =
    let tenths = micros * 10 / day in
    let rest = 2 * (micros * 10 % day) in
    let up = ltb day rest || (eqb day rest && eqb (tenths % 2) 1) in
    record { negative = false; coefficient = if up then tenths + 1 else tenths; places = 1 }
