-- ===== src/Canonical.antt =====
-- The canonical JSON of signing.py (RFC 8785). The digits of a float are Python's: `shortest` gives
-- `Decimal(repr(abs(value))).normalize()` as its digits and its exponent. Texts hold no lone
-- surrogates, which `encode` refuses. A `Fields` is a `dict` with text keys, as JSON gives it.
pub mod Members
pub mod Reorder
use a2a_events_python.Common.{
  ℕ, zero, suc, ◌+◌, ◌-◌, ◌/◌, ◌%◌, Bool, true, false, ◌&&◌, List, [], ◌∷◌, ◌++◌, ltb, leb, ◌==◌,
  if◌then◌else◌, length, take, drop, Text, text, ℤ, pos, negsuc, pos_part, neg_part,
}
use a2a_events_python.Json.{
  Json, null, bool, int, float, str, arr, obj, Items, nil, cons, Fields, end, field,
}
use a2a_events_python.Cursor.{digits, width_from, text_lt}

-- str(n)
unfoldable pub show : ℕ → Text
show n = digits (width_from n n) n

unfoldable pub show_int : ℤ → Text
unfolding show
show_int (pos n) = show n
show_int (negsuc n) = text "-" ++ show (suc n)

-- "0" * n
abbrev pub zeros : ℕ → Text
zeros zero = []
zeros (suc n) = 48 ∷ zeros n

-- exp + k
abbrev pub plus_nat : ℤ → ℕ → ℤ
plus_nat (pos e) k = pos (e + k)
plus_nat (negsuc e) k = if ltb e k then pos (k - suc e) else negsuc (e - k)

-- digits if k == 1 else digits[0] + "." + digits[1:]
abbrev mantissa : Text → Text
mantissa (d ∷ e ∷ ds) = d ∷ text "." ++ e ∷ ds
mantissa ds = ds

-- The four layouts of `_es_number`: `k` digits, and the place `n` of the decimal point.
unfoldable pub layout : Text → ℕ → ℤ → Text
unfolding show
layout ds k (pos zero) = text "0." ++ ds
layout ds k (pos (suc m)) =
    let n = suc m in
    if leb k n && leb n 21
    then ds ++ zeros (n - k)
    else if leb n 21
    then take n ds ++ text "." ++ drop n ds
    else mantissa ds ++ text "e+" ++ show m
layout ds k (negsuc j) =
    if ltb j 5
    then text "0." ++ zeros (suc j) ++ ds
    else mantissa ds ++ text "e-" ++ show (suc (suc j))

abbrev is_zero : ℤ → Bool
is_zero m = pos_part m == 0 && neg_part m == 0

abbrev sign_of : ℤ → Text
sign_of (pos m) = []
sign_of (negsuc m) = text "-"

-- `_es_number`
unfoldable pub es_number : (ℕ → ℕ → Text × ℤ) → ℤ → ℕ → Text
unfolding layout
es_number shortest m k =
    if is_zero m
    then text "0"
    else (let (ds, exp) = shortest (pos_part m + neg_part m) k in
        sign_of m ++ layout ds (length ds) (plus_nat exp (length ds)))

-- the hexadecimal digit of a number below 16
abbrev pub hex : ℕ → ℕ
hex d = if ltb d 10 then 48 + d else 87 + d

-- one character of json.dumps(…, ensure_ascii=False)
unfoldable pub escape : ℕ → Text
escape c =
    if c == 34
    then text "\\\""
    else if c == 92
    then text "\\\\"
    else if c == 10
    then text "\\n"
    else if c == 13
    then text "\\r"
    else if c == 9
    then text "\\t"
    else if c == 12
    then text "\\f"
    else if c == 8
    then text "\\b"
    else if ltb c 32
    then text "\\u00" ++ hex (c / 16) ∷ hex (c % 16) ∷ []
    else c ∷ []

unfoldable pub escape_all : Text → Text
unfolding escape
escape_all [] = []
escape_all (c ∷ cs) = escape c ++ escape_all cs

unfoldable pub quoted : Text → Text
unfolding escape_all
quoted s = 34 ∷ escape_all s ++ 34 ∷ []

-- the code units of a key, in the order of its "utf-16-be" bytes
unfoldable pub utf16 : Text → List ℕ
utf16 [] = []
utf16 (c ∷ cs) =
    let rest = utf16 cs in
    if ltb c 65536
    then c ∷ rest
    else (55296 + (c - 65536) / 1024) ∷ (56320 + (c - 65536) % 1024) ∷ rest

-- A member: its key and the canonical text of its value.
abbrev pub Member : Type 0
Member = Text × Text

abbrev pub sorts_before : Member → Member → Bool
sorts_before a b = text_lt (utf16 a.0) (utf16 b.0)

-- sorted(…, key=…), which is stable
unfoldable pub insert_member : Member → List Member → List Member
unfolding utf16
insert_member m [] = m ∷ []
insert_member m (x ∷ xs) =
    let rest = insert_member m xs in if sorts_before x m then x ∷ rest else m ∷ x ∷ xs

-- ",".join(…)
unfoldable pub join_commas : List Text → Text
join_commas [] = []
join_commas (t ∷ []) = t
join_commas (t ∷ u ∷ ts) = t ++ (44 ∷ join_commas (u ∷ ts))

abbrev pub render : List Member → List Text
render [] = []
render ((k, v) ∷ ms) = (quoted k ++ (58 ∷ v)) ∷ render ms

module _ (shortest : ℕ → ℕ → Text × ℤ) where
  -- `_canon`; the members of an object come sorted
  unfoldable mutual
    unfolding quoted show_int es_number insert_member join_commas

    pub canon : Json → Text
    canon null = text "null"
    canon (bool true) = text "true"
    canon (bool false) = text "false"
    canon (int n) = show_int n
    canon (float m k) = es_number shortest m k
    canon (str s) = quoted s
    canon (arr xs) = 91 ∷ join_commas (canon_items xs) ++ 93 ∷ []
    canon (obj fs) = 123 ∷ join_commas (render (members fs)) ++ 125 ∷ []

    pub canon_items : Items → List Text
    canon_items nil = []
    canon_items (cons x xs) = canon x ∷ canon_items xs

    pub members : Fields → List Member
    members end = []
    members (field k v fs) = insert_member (k, canon v) (members fs)
